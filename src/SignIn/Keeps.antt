-- ===== src/SignIn/Keeps.antt =====
-- What every statement of go/internal/dbstore/admins.go keeps, every operation of
-- go/internal/authn/authn.go keeps.
pub mod Accounts
pub mod SignIns
use ai_env_mgr.Base.{
  ◌⊎◌, ℕ, ◌+◌, String, ◌≡◌, refl, inl, inr, Bool, true, false, ◌||◌, Option, none, some, List, [],
  ◌∷◌, ◌++◌, Bool-cases, str_eq, leb, length, ◌==◌,
}
use Prim.Native.String.{len}
use ai_env_mgr.Version.{trim_left, trim_right}
use ai_env_mgr.SignIn.{
  Bytes, Admin, NewAdmin, Session, LoginOutcome, Store, is_enabled, is_enrolled, Fault, not_found,
  duplicate, Answer, ok, err, Act, go_on, Clock, Crypto, required, last_admin, sign_in_failed,
  locked_out, enrolment_required, account_disabled, too_short, bad_token, broken,
}
use ai_env_mgr.SignIn.Passwords.{
  Verified, matches, mismatch, unreadable, verify_password, normalize_recovery_code, digits_only,
}
use ai_env_mgr.SignIn.Rows.{
  update_admin, record_attempt, record_login, create_session, create_admin, touch_session,
  delete_sessions, delete_session, delete_sessions_for, delete_expired_sessions, set_password_hash,
  set_totp, replace_recovery_hashes, set_disabled, admin_named, reseal_totp, is_empty, insert_admin,
  normalize_username, new_admin,
}
use ai_env_mgr.SignIn.Service.{
  Origin, session_idle, session_lifetime, reject, open_session, consumed, consume_recovery_code,
  check_with_seed, check_second_factor, with_factor, with_password, with_account, is_locked,
  sign_in, enrol_sealed, complete_enrolment, change_verified, change_password, refresh, session,
  sign_out, needs_bootstrap, first_or_none, ensure_first_account, failed_if_missing,
}
use ai_env_mgr.SignIn.Steps.{
  Op, signs_in, enrols, changes_password, uses, signs_out, bootstraps, creates, disables,
  ends_sessions, sweeps, reseals, apply, run,
}

-- A session as `openSession` makes it, at a time of the console's clock, with a token and for an account
-- that `W` allows.
pub record IsFresh (W : ℕ → Bytes → ℕ → Type 0) (r : Session) : Type 0 where
  pub wall : ℕ
  pub at : W wall r.token_sha256 r.principal_id
  pub idle : r.expires_at ≡ wall + session_idle
  pub lifetime : r.absolute_expires_at ≡ wall + session_lifetime

-- What the statements keep.
pub record Preserved (W : ℕ → Bytes → ℕ → Type 0) (I : Store → Type 0) : Type 0 where
  pub updates :
      (id : ℕ) (f : Admin → Admin) (s : Store)
      → ((a : Admin) → (f a).disabled_at ≡ a.disabled_at)
      → I s
      → I (update_admin id f s).0
  pub opens :
      (r : Session) (s : Store)
      → IsFresh W r
      → I s
      → I (record s { sessions = s.sessions ++ r ∷ [] })
  pub touches :
      (token : Bytes) (expires now : ℕ) (s : Store) → I s → I (touch_session token expires now s).0
  pub deletes : (p : Session → Bool) (s : Store) → I s → I (delete_sessions p s)
  pub adds :
      (a : Admin) (s : Store)
      → a.disabled_at ≡ none
      → I s
      → I (record s { admins = s.admins ++ a ∷ []; next_id = s.next_id + 1 })
  pub disables_row :
      (id : ℕ) (off : Bool) (now : ℕ) (s : Store) → I s → I (set_disabled id off now s).0
  pub reseals_row :
      (id : ℕ) (b : Bytes) (v : String) (now : ℕ) (s : Store) → I s → I (reseal_totp id b v now s).0

-- A sign-in that gets as far as `openSession`, for the account `a`: nothing is locked, the account is the
-- one of that name, enabled and enrolled, and both the password and the code fit.
pub record IsOpening (c : Crypto) (username password text : String) (o : Origin) (k : Clock)
    (s : Store) (a : Admin) : Type 0 where
  pub allowed : is_locked c username o k s ≡ false
  pub named : admin_named c username s ≡ some a
  pub enabled : is_enabled a ≡ true
  pub password_fits : verify_password c a.password_hash password ≡ matches
  pub enrolled : is_enrolled a ≡ true
  pub code_fits : (check_second_factor c a text k s).1 ≡ ok true

-- The operation is such a sign-in at this time of the console's clock, with a token of this hash, for
-- the account with this id.
unfoldable pub Opens : Crypto → Op → Store → ℕ → Bytes → ℕ → Type 0
Opens c (signs_in username password text o k token) s wall hash id =
    (a : Admin) × IsOpening c username password text o k s a
    × (k.wall ≡ wall)
    × (c.hash_token token ≡ hash)
    × (a.id ≡ id)
Opens c _ s wall hash id = ⊥

-- One of the operations is, in the store that those before it left.
unfoldable pub OpenedIn : Crypto → List Op → Store → ℕ → Bytes → ℕ → Type 0
OpenedIn c [] s wall hash id = ⊥
OpenedIn c (op ∷ ops) s wall hash id =
    Opens c op s wall hash id ⊎ OpenedIn c ops (apply c op s) wall hash id

pub go_on-keeps_eq :
    {A B : Type 0} (I : Store → Type 0) (r : Store × Answer A) (k : A → Act B)
    → I r.0
    → ((a : A) (s : Store) → r.1 ≡ ok a → I s → I (k a s).0)
    → I (go_on r k).0
unfolding go_on
go_on-keeps_eq I (s, ok a) k h next = next a s refl h
go_on-keeps_eq I (s, err e) k h next = h

pub go_on-keeps :
    {A B : Type 0} (I : Store → Type 0) (r : Store × Answer A) (k : A → Act B)
    → I r.0
    → ((a : A) (s : Store) → I s → I (k a s).0)
    → I (go_on r k).0
unfolding go_on
go_on-keeps I (s, ok a) k h next = next a s h
go_on-keeps I (s, err e) k h next = h

module _ (W : ℕ → Bytes → ℕ → Type 0) (I : Store → Type 0) (p : Preserved W I) (c : Crypto) where
  insert_admin-keeps :
      (a : Admin) (old : Option Admin) (s : Store)
      → a.disabled_at ≡ none
      → I s
      → I (insert_admin a old s).0
  insert_admin-keeps a (some old) s e h = h
  insert_admin-keeps a none s e h = p.adds a s e h

  pub create_admin-keeps : (n : NewAdmin) (now : ℕ) (s : Store) → I s → I (create_admin c n now s).0
  unfolding create_admin new_admin
  create_admin-keeps n now s h =
      elim (Bool-cases (str_eq (normalize_username c n.username) "" || str_eq n.password_hash "")) [
        | inl e ↦ rw e h
        | inr e ↦ rw e (insert_admin-keeps _ _ s refl h)
      ]

  create_session-keeps : (r : Session) (s : Store) → IsFresh W r → I s → I (create_session r s).0
  unfolding create_session
  create_session-keeps r s f h = elim (Bool-cases (length r.token_sha256 == 32)) [
    | inl e ↦ rw e (p.opens r s f h)
    | inr e ↦ rw e h
  ]

  pub open_session-keeps :
      (a : Admin) (o : Origin) (k : Clock) (token : String) (s : Store)
      → W k.wall (c.hash_token token) a.id
      → I s
      → I (open_session c a o k token s).0
  unfolding open_session
  open_session-keeps a o k token s w h =
      go_on-keeps I _ _
        (create_session-keeps _ s (record { wall = k.wall; at = w; idle = refl; lifetime = refl })
          h)
        (λ u s' h'. h')

  consumed-keeps :
      (id now : ℕ) (o : Option (List String)) (s : Store) → I s → I (consumed c id now o s).0
  unfolding replace_recovery_hashes
  consumed-keeps id now none s h = h
  consumed-keeps id now (some hashes) s h =
      go_on-keeps I _ _ (p.updates id _ s (λ a. refl) h) (λ u s' h'. h')

  consume-keeps :
      (a : Admin) (text : String) (k : Clock) (s : Store)
      → I s
      → I (consume_recovery_code c a text k s).0
  unfolding consume_recovery_code
  consume-keeps a text k s h = elim (Bool-cases (str_eq (normalize_recovery_code c text) "")) [
    | inl e ↦ rw e h
    | inr e ↦ rw e (consumed-keeps a.id k.db _ s h)
  ]

  check_with_seed-keeps :
      (a : Admin) (text : String) (k : Clock) (o : Option String) (s : Store)
      → I s
      → I (check_with_seed c a text k o s).0
  check_with_seed-keeps a text k none s h = h
  check_with_seed-keeps a text k (some seed) s h =
      elim (Bool-cases (c.totp_valid (digits_only text) seed)) [
        | inl e ↦ rw e h
        | inr e ↦ rw e (consume-keeps a text k s h)
      ]

  pub check_second_factor-keeps :
      (a : Admin) (text : String) (k : Clock) (s : Store)
      → I s
      → I (check_second_factor c a text k s).0
  unfolding check_second_factor
  check_second_factor-keeps a text k s h =
      elim (Bool-cases (str_eq (trim_right (trim_left text)) "")) [
        | inl e ↦ rw e h
        | inr e ↦ rw e (check_with_seed-keeps a (trim_right (trim_left text)) k _ s h)
      ]
