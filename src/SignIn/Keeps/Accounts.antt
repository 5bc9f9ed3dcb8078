-- ===== src/SignIn/Keeps/Accounts.antt =====
-- The operations of go/internal/authn/authn.go other than the sign-in.
use ai_env_mgr.Base.{
  ℕ, String, ◌≡◌, refl, inl, inr, ◌||◌, Option, none, some, List, Bool-cases, str_eq, leb,
}
use Prim.Native.String.{len}
use ai_env_mgr.SignIn.{
  Bytes, Admin, Store, not_found, duplicate, Answer, ok, err, Clock, Crypto, required, last_admin,
  sign_in_failed, locked_out, enrolment_required, account_disabled, too_short, bad_token, broken,
}
use ai_env_mgr.SignIn.Passwords.{Verified, matches, mismatch, unreadable, digits_only}
use ai_env_mgr.SignIn.Rows.{
  delete_session, delete_sessions_for, delete_expired_sessions, set_password_hash, set_totp,
  is_empty,
}
use ai_env_mgr.SignIn.Service.{
  Origin, sign_in, enrol_sealed, complete_enrolment, change_verified, change_password, refresh,
  session, sign_out, needs_bootstrap, first_or_none, ensure_first_account, failed_if_missing,
}
use ai_env_mgr.SignIn.Steps.{
  Op, signs_in, enrols, changes_password, uses, signs_out, bootstraps, creates, disables,
  ends_sessions, sweeps, reseals, apply,
}
use ai_env_mgr.SignIn.Keeps.{Preserved, go_on-keeps, create_admin-keeps}

module _ (W : ℕ → Bytes → ℕ → Type 0) (I : Store → Type 0) (p : Preserved W I) (c : Crypto) where
  ends-keeps : (id : ℕ) (s : Store) → I s → I (delete_sessions_for id s)
  unfolding delete_sessions_for
  ends-keeps id s h = p.deletes _ s h

  set_totp-keeps :
      (id : ℕ) (sealed : Bytes) (version : String) (hashes : List String) (now : ℕ) (s : Store)
      → I s
      → I (set_totp id sealed version hashes now s).0
  unfolding set_totp
  set_totp-keeps id sealed version hashes now s h =
      elim (Bool-cases ((is_empty sealed || str_eq version "") || is_empty hashes)) [
        | inl e ↦ rw e h
        | inr e ↦ rw e (p.updates id _ s (λ a. refl) h)
      ]

  enrol_sealed-keeps :
      (a : Admin) (hashes : List String) (k : Clock) (o : Option (Bytes × String)) (s : Store)
      → I s
      → I (enrol_sealed c a hashes k o s).0
  enrol_sealed-keeps a hashes k none s h = h
  enrol_sealed-keeps a hashes k (some (sealed, version)) s h =
      go_on-keeps I _ _ (set_totp-keeps a.id sealed version hashes k.db s h)
        (λ u s' h'. ends-keeps a.id s' h')

  complete_enrolment-keeps :
      (a : Admin) (secret text : String) (hashes : List String) (k : Clock) (s : Store)
      → I s
      → I (complete_enrolment c a secret text hashes k s).0
  unfolding complete_enrolment
  complete_enrolment-keeps a secret text hashes k s h =
      elim (Bool-cases (c.totp_valid (digits_only text) secret)) [
        | inl e ↦ rw e (enrol_sealed-keeps a hashes k _ s h)
        | inr e ↦ rw e h
      ]

  set_password_hash-keeps :
      (id : ℕ) (hash : String) (now : ℕ) (s : Store) → I s → I (set_password_hash id hash now s).0
  unfolding set_password_hash
  set_password_hash-keeps id hash now s h = elim (Bool-cases (str_eq hash "")) [
    | inl e ↦ rw e h
    | inr e ↦ rw e (p.updates id _ s (λ a. refl) h)
  ]

  change_verified-keeps :
      (a : Admin) (next hash : String) (k : Clock) (v : Verified) (s : Store)
      → I s
      → I (change_verified c a next hash k v s).0
  change_verified-keeps a next hash k unreadable s h = h
  change_verified-keeps a next hash k mismatch s h = h
  change_verified-keeps a next hash k matches s h = elim (Bool-cases (leb 12 (len next))) [
    | inl e ↦ rw e (
        go_on-keeps I _ _ (set_password_hash-keeps a.id hash k.db s h)
          (λ u s' h'. ends-keeps a.id s' h'))
    | inr e ↦ rw e h
  ]

  failed_if_missing-keeps :
      (A : Type 0) (r : Store × Answer A) → I r.0 → I (failed_if_missing c r).0
  failed_if_missing-keeps A (s, ok a) h = h
  failed_if_missing-keeps A (s, err not_found) h = h
  failed_if_missing-keeps A (s, err duplicate) h = h
  failed_if_missing-keeps A (s, err required) h = h
  failed_if_missing-keeps A (s, err last_admin) h = h
  failed_if_missing-keeps A (s, err sign_in_failed) h = h
  failed_if_missing-keeps A (s, err locked_out) h = h
  failed_if_missing-keeps A (s, err enrolment_required) h = h
  failed_if_missing-keeps A (s, err account_disabled) h = h
  failed_if_missing-keeps A (s, err too_short) h = h
  failed_if_missing-keeps A (s, err bad_token) h = h
  failed_if_missing-keeps A (s, err broken) h = h

  refresh-keeps :
      (token : Bytes) (k : Clock) (o : Option Admin) (s : Store) → I s → I (refresh c token k o s).0
  refresh-keeps token k none s h = h
  refresh-keeps token k (some a) s h =
      go_on-keeps I _ _ (failed_if_missing-keeps _ _ (p.touches token _ k.db s h)) (λ u s' h'. h')

  session-keeps : (token : String) (k : Clock) (s : Store) → I s → I (session c token k s).0
  unfolding session
  session-keeps token k s h = elim (Bool-cases (str_eq token "")) [
    | inl e ↦ rw e h
    | inr e ↦ rw e (refresh-keeps _ k _ s h)
  ]

  sign_out-keeps : (token : String) (s : Store) → I s → I (sign_out c token s)
  unfolding sign_out delete_session
  sign_out-keeps token s h = elim (Bool-cases (str_eq token "")) [
    | inl e ↦ rw e h
    | inr e ↦ rw e (p.deletes _ s h)
  ]

  first_or_none-keeps : (r : Store × Answer Admin) → I r.0 → I (first_or_none c r).0
  first_or_none-keeps (s, ok a) h = h
  first_or_none-keeps (s, err not_found) h = h
  first_or_none-keeps (s, err duplicate) h = h
  first_or_none-keeps (s, err required) h = h
  first_or_none-keeps (s, err last_admin) h = h
  first_or_none-keeps (s, err sign_in_failed) h = h
  first_or_none-keeps (s, err locked_out) h = h
  first_or_none-keeps (s, err enrolment_required) h = h
  first_or_none-keeps (s, err account_disabled) h = h
  first_or_none-keeps (s, err too_short) h = h
  first_or_none-keeps (s, err bad_token) h = h
  first_or_none-keeps (s, err broken) h = h

  ensure-keeps :
      (username email hash suffix : String) (k : Clock) (s : Store)
      → I s
      → I (ensure_first_account c username email hash suffix k s).0
  unfolding ensure_first_account
  ensure-keeps username email hash suffix k s h = elim (Bool-cases (needs_bootstrap c s)) [
    | inl e ↦ rw e (first_or_none-keeps _ (create_admin-keeps W I p c _ k.db s h))
    | inr e ↦ rw e h
  ]

  change_password-keeps :
      (a : Admin) (current next hash : String) (k : Clock) (s : Store)
      → I s
      → I (change_password c a current next hash k s).0
  unfolding change_password
  change_password-keeps a current next hash k s h = change_verified-keeps a next hash k _ s h

  -- Whatever a sign-in keeps, any operation keeps.
  pub apply-keeps_unless :
      (op : Op) (s : Store)
      → ((username password text : String) (o : Origin) (k : Clock) (token : String)
          → op ≡ signs_in username password text o k token
          → I (sign_in c username password text o k token s).0)
      → I s
      → I (apply c op s)
  unfolding apply delete_sessions_for delete_expired_sessions
  apply-keeps_unless (signs_in username password text o k token) s sign h =
      sign username password text o k token refl
  apply-keeps_unless (enrols a secret text hashes k) s sign h =
      complete_enrolment-keeps a secret text hashes k s h
  apply-keeps_unless (changes_password a current next hash k) s sign h =
      change_password-keeps a current next hash k s h
  apply-keeps_unless (uses token k) s sign h = session-keeps token k s h
  apply-keeps_unless (signs_out token) s sign h = sign_out-keeps token s h
  apply-keeps_unless (bootstraps username email hash suffix k) s sign h =
      ensure-keeps username email hash suffix k s h
  apply-keeps_unless (creates n k) s sign h = create_admin-keeps W I p c n k.db s h
  apply-keeps_unless (disables id off k) s sign h = p.disables_row id off k.db s h
  apply-keeps_unless (ends_sessions id) s sign h = p.deletes _ s h
  apply-keeps_unless (sweeps k) s sign h = p.deletes _ s h
  apply-keeps_unless (reseals id sealed version k) s sign h =
      p.reseals_row id sealed version k.db s h
