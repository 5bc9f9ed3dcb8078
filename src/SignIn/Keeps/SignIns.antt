-- ===== src/SignIn/Keeps/SignIns.antt =====
-- A sign-in, and any operations: go/internal/authn/authn.go.
use ai_env_mgr.Base.{
  ℕ, String, ◌≡◌, ◌∙◌, ap, refl, inl, inr, Bool, true, false, Option, none, some, List, [], ◌∷◌,
  Bool-cases,
}
use ai_env_mgr.SignIn.{
  Bytes, Admin, LoginOutcome, Store, is_enabled, is_enrolled, Fault, ok, Clock, Crypto,
}
use ai_env_mgr.SignIn.Passwords.{Verified, matches, mismatch, unreadable, verify_password}
use ai_env_mgr.SignIn.Rows.{record_attempt, record_login, admin_named}
use ai_env_mgr.SignIn.Service.{
  Origin, reject, check_second_factor, with_factor, with_password, with_account, is_locked, sign_in,
}
use ai_env_mgr.SignIn.Steps.{Op, apply, run}
use ai_env_mgr.SignIn.Keeps.{
  Preserved, IsOpening, Opens, OpenedIn, go_on-keeps, go_on-keeps_eq, open_session-keeps,
  check_second_factor-keeps,
}
use ai_env_mgr.SignIn.Keeps.Accounts.{apply-keeps_unless}

-- With what the log of attempts keeps.
module _ (W : ℕ → Bytes → ℕ → Type 0) (I : Store → Type 0) (p : Preserved W I) (c : Crypto)
    (logs : (name ip : String) (at : ℕ) (o : LoginOutcome) (s : Store)
      → I s
      → I (record_attempt c name ip at o s)) where
  reject-keeps :
      (A : Type 0) (name : String) (o : Origin) (k : Clock) (outcome : LoginOutcome) (e : Fault)
      (s : Store)
      → I s
      → I (reject c {A = A} name o k outcome e s).0
  unfolding reject
  reject-keeps A name o k outcome e s h = logs name o.ip k.wall outcome s h

  with_factor-keeps :
      (name : String) (o : Origin) (k : Clock) (token : String) (a : Admin) (good : Bool)
      (s : Store)
      → (good ≡ true → W k.wall (c.hash_token token) a.id)
      → I s
      → I (with_factor c name o k token a good s).0
  unfolding record_login
  with_factor-keeps name o k token a false s w h = reject-keeps _ name o k _ _ s h
  with_factor-keeps name o k token a true s w h =
      go_on-keeps I _ _ (open_session-keeps W I p c a o k token s (w refl) h) (λ t s1 h1.
        go_on-keeps I _ _ (logs name o.ip k.wall _ s1 h1)
          (λ u s2 h2. go_on-keeps I _ _ (p.updates a.id _ s2 (λ a. refl) h2) (λ u s3 h3. h3)))

  with_password-keeps :
      (name text : String) (o : Origin) (k : Clock) (token : String) (a : Admin) (v : Verified)
      (s : Store)
      → (v ≡ matches
          → is_enrolled a ≡ true
          → (check_second_factor c a text k s).1 ≡ ok true
          → W k.wall (c.hash_token token) a.id)
      → I s
      → I (with_password c name text o k token a v s).0
  with_password-keeps name text o k token a unreadable s w h = h
  with_password-keeps name text o k token a mismatch s w h = reject-keeps _ name o k _ _ s h
  with_password-keeps name text o k token a matches s w h = elim (Bool-cases (is_enrolled a)) [
    | inr e ↦ rw e h
    | inl e ↦ rw e (
        go_on-keeps_eq I (check_second_factor c a text k s) _
          (check_second_factor-keeps W I p c a text k s h)
          (λ good s' answer h'.
            with_factor-keeps name o k token a good s' (λ fits. w refl e (answer ∙ ap ok fits)) h'))
  ]

  with_account-keeps :
      (name password text : String) (o : Origin) (k : Clock) (token : String) (found : Option Admin)
      (s : Store)
      → is_locked c name o k s ≡ false
      → admin_named c name s ≡ found
      → ((a : Admin) → IsOpening c name password text o k s a → W k.wall (c.hash_token token) a.id)
      → I s
      → I (with_account c name password text o k token found s).0
  with_account-keeps name password text o k token none s free named w h =
      reject-keeps _ name o k _ _ s h
  with_account-keeps name password text o k token (some a) s free named w h =
      elim (Bool-cases (is_enabled a)) [
        | inl e ↦ rw e (
            with_password-keeps name text o k token a (verify_password c a.password_hash password) s
              (λ fits enrolled good. w a (record {
                allowed = free;
                named = named;
                enabled = e;
                password_fits = fits;
                enrolled = enrolled;
                code_fits = good;
              }))
              h)
        | inr e ↦ rw e (reject-keeps _ name o k _ _ s h)
      ]

  sign_in-keeps :
      (name password text : String) (o : Origin) (k : Clock) (token : String) (s : Store)
      → ((a : Admin) → IsOpening c name password text o k s a → W k.wall (c.hash_token token) a.id)
      → I s
      → I (sign_in c name password text o k token s).0
  unfolding sign_in
  sign_in-keeps name password text o k token s w h = elim (Bool-cases (is_locked c name o k s)) [
    | inl e ↦ rw e (reject-keeps _ name o k _ _ s h)
    | inr e ↦ rw e (with_account-keeps name password text o k token _ s e refl w h)
  ]

  pub apply-keeps :
      (op : Op) (s : Store)
      → ((wall : ℕ) (hash : Bytes) (id : ℕ) → Opens c op s wall hash id → W wall hash id)
      → I s
      → I (apply c op s)
  unfolding Opens
  apply-keeps op s w h =
      apply-keeps_unless W I p c op s
        (λ username password text o k token e.
          sign_in-keeps username password text o k token s
            (λ a opening. w k.wall (c.hash_token token) a.id (rw e (a, opening, refl, refl, refl)))
            h)
        h

  pub run-keeps :
      (ops : List Op) (s : Store)
      → ((wall : ℕ) (hash : Bytes) (id : ℕ) → OpenedIn c ops s wall hash id → W wall hash id)
      → I s
      → I (run c ops s)
  unfolding run OpenedIn
  run-keeps [] s w h = h
  run-keeps (op ∷ ops) s w h =
      run-keeps ops (apply c op s) (λ v b i m. w v b i (inr m))
        (apply-keeps op s (λ v b i m. w v b i (inl m)) h)
