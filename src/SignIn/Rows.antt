-- ===== src/SignIn/Rows.antt =====
-- The statements of go/internal/dbstore/admins.go.
use ai_env_mgr.Base.{
  ℕ, zero, suc, ◌+◌, String, Bool, true, false, not, ◌&&◌, ◌||◌, Option, none, some, List, [], ◌∷◌,
  ◌++◌, str_eq, ltb, leb, ◌==◌, if◌then◌else◌, length, same_bytes, update_where, select, first,
  affected, is_some,
}
use Prim.Native.Nat.{min}
use ai_env_mgr.Version.{trim_left, trim_right}
use ai_env_mgr.SignIn.{
  Bytes, Admin, NewAdmin, Session, LoginOutcome, logged_in, LoginAttempt, Store, is_enabled, Fault,
  not_found, duplicate, required, last_admin, bad_token, Answer, ok, err, Act, Crypto,
}

unfoldable pub normalize_username : Crypto → String → String
normalize_username c name = c.lower (trim_right (trim_left name))

abbrev pub has_id : ℕ → Admin → Bool
has_id id a = a.id == id

abbrev pub has_username : String → Admin → Bool
has_username name a = str_eq a.username name

abbrev pub admin_named : Crypto → String → Store → Option Admin
admin_named c name s = first (has_username (normalize_username c name)) s.admins

unfoldable pub count_enabled : Store → ℕ
count_enabled s = affected is_enabled s.admins

abbrev or_admin : String → String
or_admin role = if str_eq role "" then "admin" else role

unfoldable pub new_admin : Crypto → NewAdmin → ℕ → ℕ → Admin
new_admin c n fresh now = record {
  id = fresh;
  username = normalize_username c n.username;
  email = n.email;
  password_hash = n.password_hash;
  password_set_at = now;
  totp_secret = [];
  totp_key_version = "";
  totp_enrolled_at = none;
  recovery_hashes = [];
  role = or_admin n.role;
  created_at = now;
  updated_at = now;
  last_login_at = none;
  disabled_at = none;
}

-- `Create`, with the unique key on the user name.
abbrev pub insert_admin : Admin → Option Admin → Act Admin
insert_admin a (some old) s = (s, err duplicate)
insert_admin a none s = (record s { admins = s.admins ++ a ∷ []; next_id = s.next_id + 1 }, ok a)

unfoldable pub create_admin : Crypto → NewAdmin → ℕ → Act Admin
create_admin c n now s =
    if str_eq (normalize_username c n.username) "" || str_eq n.password_hash ""
    then (s, err required)
    else insert_admin (new_admin c n s.next_id now) (admin_named c n.username s) s

-- An update that touched no row is an error.
abbrev pub touched : ℕ → Answer (Unit {0})
touched zero = err not_found
touched (suc n) = ok tt

abbrev pub update_admin : ℕ → (Admin → Admin) → Act (Unit {0})
update_admin id f s = (
  record s { admins = update_where (has_id id) f s.admins },
  touched (affected (has_id id) s.admins),
)

unfoldable pub set_password_hash : ℕ → String → ℕ → Act (Unit {0})
set_password_hash id hash now s =
    if str_eq hash ""
    then (s, err required)
    else update_admin id
        (λ a. record a { password_hash = hash; password_set_at = now; updated_at = now }) s

abbrev pub is_empty : {A : Type 0} → List A → Bool
is_empty [] = true
is_empty (x ∷ xs) = false

unfoldable pub set_totp : ℕ → Bytes → String → List String → ℕ → Act (Unit {0})
set_totp id sealed version hashes now s =
    if (is_empty sealed || str_eq version "") || is_empty hashes
    then (s, err required)
    else update_admin id
        (λ a. record a {
          totp_secret = sealed;
          totp_key_version = version;
          totp_enrolled_at = some now;
          recovery_hashes = hashes;
          updated_at = now;
        })
        s

unfoldable pub replace_recovery_hashes : ℕ → List String → ℕ → Act (Unit {0})
replace_recovery_hashes id hashes now =
    update_admin id (λ a. record a { recovery_hashes = hashes; updated_at = now })

unfoldable pub record_login : ℕ → ℕ → Act (Unit {0})
record_login id at = update_admin id (λ a. record a { last_login_at = some at })

abbrev pub has_seed : ℕ → Admin → Bool
has_seed id a = (a.id == id) && not (is_empty a.totp_secret)

unfoldable pub reseal_totp : ℕ → Bytes → String → ℕ → Act (Unit {0})
reseal_totp id sealed version now s =
    if is_empty sealed || str_eq version "" then (s, err required) else (
      record s {
        admins =
            update_where (has_seed id)
              (λ a. record a { totp_secret = sealed; totp_key_version = version; updated_at = now })
              s.admins;
      },
      touched (affected (has_seed id) s.admins),
    )

abbrev or_now : Option ℕ → ℕ → ℕ
or_now none now = now
or_now (some t) now = t

unfoldable pub disabled_row : Bool → ℕ → Admin → Admin
disabled_row disabled now a = record a {
  disabled_at = if disabled then some (or_now a.disabled_at now) else none;
  updated_at = now;
}

-- `id = $1 and ($2 = false or exists (... other.id <> id and other.disabled_at is null))`.
abbrev pub may_set : List Admin → ℕ → Bool → Admin → Bool
may_set admins id disabled a =
    (a.id == id)
    && (not disabled || is_some (first (λ o. not (o.id == a.id) && is_enabled o) admins))

abbrev last_or_missing : Option Admin → Fault
last_or_missing (some a) = last_admin
last_or_missing none = not_found

unfoldable pub set_disabled : ℕ → Bool → ℕ → Act Admin
set_disabled id disabled now s = elim (first (may_set s.admins id disabled) s.admins) [
  | none ↦ (s, err (last_or_missing (first (has_id id) s.admins)))
  | some a ↦ (
    record s {
      admins = update_where (may_set s.admins id disabled) (disabled_row disabled now) s.admins;
    },
    ok (disabled_row disabled now a),
  )
]

unfoldable pub record_attempt : Crypto → String → String → ℕ → LoginOutcome → Store → Store
record_attempt c username ip at outcome s = record s {
  attempts =
      s.attempts
      ++ record {
        username = normalize_username c username;
        source_ip = ip;
        at = at;
        outcome = outcome;
      }
        ∷ [];
}

abbrev pub is_failure : LoginOutcome → Bool
is_failure logged_in = false
is_failure _ = true

-- `at > now() - window and outcome <> 'ok'`.
abbrev pub is_recent_failure : ℕ → ℕ → LoginAttempt → Bool
is_recent_failure window now a = ltb now (a.at + window) && is_failure a.outcome

-- The two counts; no address matches the empty one.
unfoldable pub failures_of : String → ℕ → ℕ → Store → ℕ
failures_of username window now s =
    affected (λ a. is_recent_failure window now a && str_eq a.username username) s.attempts

unfoldable pub failures_from : Crypto → String → ℕ → ℕ → Store → ℕ
failures_from c ip window now s =
    affected
      (λ a. is_recent_failure window now a && (not (str_eq ip "") && c.same_address a.source_ip ip))
      s.attempts

unfoldable pub create_session : Session → Act (Unit {0})
create_session r s =
    if length r.token_sha256 == 32
    then (record s { sessions = s.sessions ++ r ∷ [] }, ok tt)
    else (s, err bad_token)

abbrev pub admin_on : ℕ → Store → Option Admin
admin_on id s = first (λ a. has_id id a && is_enabled a) s.admins

abbrev pub is_token : Bytes → Session → Bool
is_token token r = same_bytes r.token_sha256 token

-- `expires_at > now() and absolute_expires_at > now()`.
abbrev pub is_live : ℕ → Session → Bool
is_live now r = ltb now r.expires_at && ltb now r.absolute_expires_at

-- The `where` of `SessionByToken` with the join on enabled accounts.
abbrev pub is_valid : Bytes → ℕ → Store → Session → Bool
is_valid token now s r = is_token token r && (is_live now r && is_some (admin_on r.principal_id s))

unfoldable pub session_by_token : Bytes → ℕ → Store → Option Session
session_by_token token now s = first (is_valid token now s) s.sessions

unfoldable pub touched_row : ℕ → ℕ → Session → Session
touched_row expires now r = record r {
  last_seen_at = now;
  expires_at = min expires r.absolute_expires_at;
}

unfoldable pub touch_session : Bytes → ℕ → ℕ → Act (Unit {0})
touch_session token expires now s = (
  record s {
    sessions =
        update_where (λ r. is_token token r && is_live now r) (touched_row expires now) s.sessions;
  },
  touched (affected (λ r. is_token token r && is_live now r) s.sessions),
)

-- `delete from admin_sessions where p`.
abbrev pub delete_sessions : (Session → Bool) → Store → Store
delete_sessions p s = record s { sessions = select (λ r. not (p r)) s.sessions }

unfoldable pub delete_session : Bytes → Store → Store
delete_session token = delete_sessions (is_token token)

unfoldable pub delete_sessions_for : ℕ → Store → Store
delete_sessions_for id = delete_sessions (λ r. r.principal_id == id)

unfoldable pub delete_expired_sessions : ℕ → Store → Store
delete_expired_sessions now =
    delete_sessions (λ r. leb r.expires_at now || leb r.absolute_expires_at now)
