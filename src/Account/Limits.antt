-- ===== src/Account/Limits.antt =====
-- Quotas: go/internal/dbstore/quotas.go.
use Prim.Native.Char.{Char, code}
use ai_env_mgr.Base.{
  ℤ, pos, negsuc, ℕ, ◌+◌, String, Bool, true, false, not, ◌&&◌, ◌||◌, Option, none, some, [], ◌∷◌,
  ◌++◌, str_eq, ltb, leb, ◌==◌, if◌then◌else◌, update_where, first,
}
use ai_env_mgr.Version.{trim_left, trim_right, is_digit}
use ai_env_mgr.Account.{Quota, QuotaRow}
use ai_env_mgr.Release.{Store, Refusal, not_found, conflict, bad_quota, done, refused, Tx}

abbrev pub default_currency : String
default_currency = "USD"

abbrev pub period_calendar_month_utc : String
period_calendar_month_utc = "calendar_month_utc"

abbrev pub default_period_tz : String
default_period_tz = "Asia/Shanghai"

abbrev pub or_text : String → String → String
or_text text default = if str_eq text "" then default else text

unfoldable pub with_quota_defaults : Quota → Quota
with_quota_defaults q = record q {
  monthly_budget = trim_right (trim_left q.monthly_budget);
  currency = or_text q.currency default_currency;
  period_rule = or_text q.period_rule period_calendar_month_utc;
  period_tz = or_text q.period_tz default_period_tz;
}

-- Digits only, from `low` to `high` of them.
unfoldable pub digits_between : ℕ → ℕ → String → Bool
digits_between low high text = all_digits text && (leb low (count text) && leb (count text) high)
  where
    all_digits : String → Bool
    all_digits String.[] = true
    all_digits (String.◌∷◌ c s) = is_digit c && all_digits s

    count : String → ℕ
    count String.[] = 0
    count (String.◌∷◌ c s) = count s + 1

abbrev pub onto_left : Char → String × Option String → String × Option String
onto_left c (a, b) = (String.◌∷◌ c a, b)

-- The text before the first dot, and what is after it if there is one.
unfoldable pub cut_dot : String → String × Option String
cut_dot String.[] = ("", none)
cut_dot (String.◌∷◌ c s) =
    let rest = cut_dot s in if code c == 46 then ("", some s) else onto_left c rest

-- `0|[1-9][0-9]{0,5}`.
abbrev pub is_whole : String → Bool
is_whole String.[] = false
is_whole (String.◌∷◌ c s) =
    str_eq (String.◌∷◌ c s) "0" || ((leb 49 (code c) && leb (code c) 57) && digits_between 0 5 s)

abbrev pub is_fraction : Option String → Bool
is_fraction none = true
is_fraction (some s) = digits_between 1 6 s

-- `decimalPattern`.
unfoldable pub is_decimal : String → Bool
is_decimal text = let (whole, fraction) = cut_dot text in is_whole whole && is_fraction fraction

-- `strings.Trim(text, "0.") == ""`.
unfoldable pub is_zero : String → Bool
is_zero String.[] = true
is_zero (String.◌∷◌ c s) = ((code c == 48) || (code c == 46)) && is_zero s

abbrev pub is_positive : ℤ → Bool
is_positive (pos n) = ltb 0 n
is_positive (negsuc n) = false

-- `validateQuota`.
unfoldable pub is_valid_quota : Quota → Bool
is_valid_quota q =
    (is_decimal q.monthly_budget && not (is_zero q.monthly_budget))
    && ((is_positive q.rpm && (is_positive q.tpm && is_positive q.parallel))
        && str_eq q.period_rule period_calendar_month_utc)

abbrev pub is_quota_of : ℕ → QuotaRow → Bool
is_quota_of id r = r.employee_id == id

abbrev pub quota_of : ℕ → Store → Option QuotaRow
quota_of id s = first (is_quota_of id) s.quotas

abbrev pub stored_quota : Quota → ℕ → ℕ → Quota
stored_quota q version now = record q { version = version; updated_at = now }

abbrev pub insert_quota : ℕ → Quota → ℕ → Option QuotaRow → Tx Quota
insert_quota id q now (some r) s = refused conflict
insert_quota id q now none s = done (stored_quota q 1 now) (record s {
  quotas = s.quotas ++ record { employee_id = id; quota = stored_quota q 1 now } ∷ [];
})

abbrev pub quota_at : ℕ → ℕ → QuotaRow → Bool
quota_at id version r = is_quota_of id r && (r.quota.version == version)

abbrev pub quota_miss : Option QuotaRow → Refusal
quota_miss none = not_found
quota_miss (some r) = conflict

abbrev pub update_quota : ℕ → Quota → ℕ → ℕ → Option QuotaRow → Tx Quota
update_quota id q version now (some r) s = done (stored_quota q (version + 1) now) (record s {
  quotas =
      update_where (quota_at id version)
        (λ r. record r { quota = stored_quota q (version + 1) now }) s.quotas;
})
update_quota id q version now none s = refused (quota_miss (quota_of id s))

abbrev pub set_valid_quota : ℕ → Quota → ℕ → ℕ → Tx Quota
set_valid_quota id q version now s =
    if version == 0
    then insert_quota id q now (quota_of id s) s
    else update_quota id q version now (first (quota_at id version) s.quotas) s

-- `Set`.
unfoldable pub set_quota_row : ℕ → Quota → ℕ → ℕ → Tx Quota
set_quota_row id q version now s =
    if is_valid_quota (with_quota_defaults q)
    then set_valid_quota id (with_quota_defaults q) version now s
    else refused bad_quota
