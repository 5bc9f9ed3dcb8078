-- ===== src/SignIn/Service.antt =====
-- The operations of go/internal/authn/authn.go. Generated passwords, tokens and recovery codes are
-- arguments, for they come of the random source.
use ai_env_mgr.Base.{
  ℕ, ◌+◌, ◌*◌, String, Bool, true, false, ◌||◌, Option, none, some, List, [], ◌∷◌, str_eq, leb,
  if◌then◌else◌, minute,
}
use Prim.Native.String.{len, ◌++◌}
use ai_env_mgr.Version.{trim_left, trim_right}
use ai_env_mgr.SignIn.{
  Bytes, Admin, Session, LoginOutcome, logged_in, bad_password, bad_totp, disabled, unknown_user,
  locked, Store, is_enabled, is_enrolled, Fault, not_found, duplicate, sign_in_failed, locked_out,
  enrolment_required, account_disabled, too_short, broken, Answer, ok, err, Act, ◌>>=◌, ◌>>◌,
  answer, fail, Clock, Crypto,
}
use ai_env_mgr.SignIn.Passwords.{
  Verified, matches, mismatch, unreadable, verify_password, normalize_recovery_code, digits_only,
}
use ai_env_mgr.SignIn.Rows.{
  admin_named, admin_on, count_enabled, create_admin, normalize_username, failures_of,
  failures_from, record_attempt, record_login, create_session, session_by_token, touch_session,
  delete_session, delete_sessions_for, set_password_hash, set_totp, replace_recovery_hashes,
}

abbrev pub session_idle : ℕ
session_idle = 8 * (60 * minute)

abbrev pub session_lifetime : ℕ
session_lifetime = 7 * (24 * (60 * minute))

abbrev pub lockout_window : ℕ
lockout_window = 15 * minute

abbrev pub max_failures_per_user : ℕ
max_failures_per_user = 8

abbrev pub max_failures_per_ip : ℕ
max_failures_per_ip = 30

-- What a request carries beside its credentials.
pub record Origin : Type 0 where
  pub ip : String
  pub agent : String

module _ (c : Crypto) where
  -- `NeedsBootstrap`.
  abbrev pub needs_bootstrap : Store → Bool
  needs_bootstrap s = leb (count_enabled s) 0

  -- A refusal that is written to the log of attempts.
  unfoldable pub reject : {A : Type 0} → String → Origin → Clock → LoginOutcome → Fault → Act A
  reject username o k outcome e s = (record_attempt c username o.ip k.wall outcome s, err e)

  -- `openSession`.
  unfoldable pub open_session : Admin → Origin → Clock → String → Act String
  open_session a o k token = do
    create_session (record {
      token_sha256 = c.hash_token token;
      principal_id = a.id;
      created_at = k.db;
      expires_at = k.wall + session_idle;
      absolute_expires_at = k.wall + session_lifetime;
      last_seen_at = k.db;
      created_ip = o.ip;
      user_agent = o.agent;
    })
    answer token

  abbrev cons_some : String → Option (List String) → Option (List String)
  cons_some h none = none
  cons_some h (some hs) = some (h ∷ hs)

  abbrev pub is_match : String → String → Bool
  is_match text hash = elim (verify_password c hash text) [
    | matches ↦ true
    | mismatch ↦ false
    | unreadable ↦ false
  ]

  -- The hashes without the first that the code matches.
  unfoldable pub without_match : String → List String → Option (List String)
  without_match text [] = none
  without_match text (h ∷ hs) =
      let rest = without_match text hs in if is_match text h then some hs else cons_some h rest

  abbrev pub consumed : ℕ → ℕ → Option (List String) → Act Bool
  consumed id now none = answer false
  consumed id now (some hashes) = do replace_recovery_hashes id hashes now; answer true

  -- `consumeRecoveryCode`; `a` is the account as it was read before.
  unfoldable pub consume_recovery_code : Admin → String → Clock → Act Bool
  consume_recovery_code a text k =
      if str_eq (normalize_recovery_code c text) ""
      then answer false
      else consumed a.id k.db (without_match (normalize_recovery_code c text) a.recovery_hashes)

  abbrev pub check_with_seed : Admin → String → Clock → Option String → Act Bool
  check_with_seed a text k none = fail broken
  check_with_seed a text k (some seed) =
      if c.totp_valid (digits_only text) seed then answer true else consume_recovery_code a text k

  abbrev check_trimmed : Admin → String → Clock → Act Bool
  check_trimmed a text k =
      if str_eq text ""
      then answer false
      else check_with_seed a text k (c.open_seed a.totp_secret a.totp_key_version a.id)

  -- `checkSecondFactor`.
  unfoldable pub check_second_factor : Admin → String → Clock → Act Bool
  check_second_factor a text k = check_trimmed a (trim_right (trim_left text)) k

  -- A sign-in: what was typed, from where, and the token that a session would get.
  abbrev pub with_factor : String → Origin → Clock → String → Admin → Bool → Act (String × Admin)
  with_factor username o k token a false = reject username o k bad_totp sign_in_failed
  with_factor username o k token a true = do
    t ← open_session a o k token
    (λ s. (record_attempt c username o.ip k.wall logged_in s, ok t))
    record_login a.id k.wall
    answer (t, a)

  abbrev pub with_password :
      String → String → Origin → Clock → String → Admin → Verified → Act (String × Admin)
  with_password username text o k token a unreadable = fail broken
  with_password username text o k token a mismatch = reject username o k bad_password sign_in_failed
  with_password username text o k token a matches =
      if is_enrolled a
      then (do good ← check_second_factor a text k; with_factor username o k token a good)
      else fail enrolment_required

  abbrev pub with_account :
      String → String → String → Origin → Clock → String → Option Admin → Act (String × Admin)
  with_account username password text o k token none =
      reject username o k unknown_user sign_in_failed
  with_account username password text o k token (some a) =
      if is_enabled a
      then with_password username text o k token a (verify_password c a.password_hash password)
      else reject username o k disabled account_disabled

  abbrev pub is_locked : String → Origin → Clock → Store → Bool
  is_locked username o k s =
      leb max_failures_per_user (failures_of (normalize_username c username) lockout_window k.db s)
      || leb max_failures_per_ip (failures_from c o.ip lockout_window k.db s)

  -- `SignIn`.
  unfoldable pub sign_in :
      (username password text : String) → Origin → Clock → (token : String) → Act (String × Admin)
  sign_in username password text o k token s =
      if is_locked username o k s
      then reject username o k locked locked_out s
      else with_account username password text o k token (admin_named c username s) s

  -- `CompleteEnrolment`; `hashes` are those of the recovery codes that were generated.
  abbrev pub enrol_sealed : Admin → List String → Clock → Option (Bytes × String) → Act (Unit {0})
  enrol_sealed a hashes k none = fail broken
  enrol_sealed a hashes k (some (sealed, version)) = do
    set_totp a.id sealed version hashes k.db
    (λ s. (delete_sessions_for a.id s, ok tt))

  unfoldable pub complete_enrolment :
      Admin → (secret text : String) → List String → Clock → Act (Unit {0})
  complete_enrolment a secret text hashes k =
      if c.totp_valid (digits_only text) secret
      then enrol_sealed a hashes k (c.seal_seed secret a.id)
      else fail sign_in_failed

  -- `ChangePassword`; `hash` is that of the new password.
  abbrev pub change_verified : Admin → (next hash : String) → Clock → Verified → Act (Unit {0})
  change_verified a next hash k unreadable = fail broken
  change_verified a next hash k mismatch = fail sign_in_failed
  change_verified a next hash k matches =
      if leb 12 (len next)
      then (do set_password_hash a.id hash k.db; (λ s. (delete_sessions_for a.id s, ok tt)))
      else fail too_short

  unfoldable pub change_password : Admin → (current next hash : String) → Clock → Act (Unit {0})
  change_password a current next hash k =
      change_verified a next hash k (verify_password c a.password_hash current)

  abbrev pub failed_if_missing : {A : Type 0} → Store × Answer A → Store × Answer A
  failed_if_missing (s, ok a) = (s, ok a)
  failed_if_missing (s, err not_found) = (s, err sign_in_failed)
  failed_if_missing (s, err e) = (s, err e)

  abbrev pub refresh : Bytes → Clock → Option Admin → Act Admin
  refresh token k none = fail sign_in_failed
  refresh token k (some a) = do
    (λ s. failed_if_missing (touch_session token (k.wall + session_idle) k.db s))
    answer a

  abbrev pub admin_of : Option Session → Store → Option Admin
  admin_of none s = none
  admin_of (some r) s = admin_on r.principal_id s

  -- `Session`.
  unfoldable pub session : String → Clock → Act Admin
  session token k s =
      if str_eq token ""
      then (s, err sign_in_failed)
      else refresh (c.hash_token token) k
          (admin_of (session_by_token (c.hash_token token) k.db s) s) s

  -- `SignOut`.
  unfoldable pub sign_out : String → Store → Store
  sign_out token s = if str_eq token "" then s else delete_session (c.hash_token token) s

  -- `CreateAccount`, with the hash of the password that was generated.
  abbrev pub create_account : (username email role hash : String) → Clock → Act Admin
  create_account username email role hash k =
      create_admin c
        (record { username = username; email = email; password_hash = hash; role = role }) k.db

  abbrev pub first_or_none : Store × Answer Admin → Store × Answer (Option Admin)
  first_or_none (s, ok a) = (s, ok (some a))
  first_or_none (s, err duplicate) = (s, ok none)
  first_or_none (s, err e) = (s, err e)

  -- `EnsureFirstAccount`; `suffix` is a random text.
  unfoldable pub ensure_first_account :
      (username email hash suffix : String) → Clock → Act (Option Admin)
  ensure_first_account username email hash suffix k s =
      if needs_bootstrap s
      then first_or_none (
          create_account (if str_eq username "" then "admin-" ++ c.lower suffix else username) email
            "admin" hash k s)
      else (s, ok none)
