-- ===== src/SignIn/Attempts.antt =====
-- What a sign-in adds to the log of attempts: `SignIn` of go/internal/authn/authn.go.
use ai_env_mgr.Base.{
  ℕ, ◌≡◌, ◌⊎◌, refl, ◌∙◌, inl, inr, String, Bool, true, false, ◌||◌, Option, none, some, List, [],
  ◌∷◌, ◌++◌, Bool-cases, Option-cases, str_eq, first,
}
use ai_env_mgr.SignIn.{
  Bytes, Admin, LoginOutcome, logged_in, LoginAttempt, Store, is_enabled, is_enrolled, Fault,
  Answer, ok, err, Act, go_on, Clock, Crypto,
}
use ai_env_mgr.SignIn.Passwords.{Verified, matches, mismatch, unreadable}
use ai_env_mgr.SignIn.Rows.{
  normalize_username, record_attempt, record_login, touch_session, set_disabled, may_set,
  reseal_totp, is_empty,
}
use ai_env_mgr.SignIn.Service.{Origin, reject, with_factor, with_password, with_account}
use ai_env_mgr.SignIn.Keeps.{Preserved, check_second_factor-keeps, open_session-keeps}

-- What a sign-in that is not locked out does to the log: nothing, or one row.
abbrev pub Adds : String → ℕ → List LoginAttempt → Store → Type 0
Adds name at xs s =
    (s.attempts ≡ xs)
    ⊎ ((ip : String) × ((o : LoginOutcome) × (s.attempts
            ≡ xs ++ record { username = name; source_ip = ip; at = at; outcome = o } ∷ [])))

abbrev pub Untouched : List LoginAttempt → Store → Type 0
Untouched xs s = s.attempts ≡ xs

set_disabled-attempts :
    (id : ℕ) (off : Bool) (now : ℕ) (s : Store)
    → (set_disabled id off now s).0.attempts ≡ s.attempts
unfolding set_disabled
set_disabled-attempts id off now s =
    elim (Option-cases (first (may_set s.admins id off) s.admins)) [
      | inl e ↦ rw (e, set_disabled) refl
      | inr (a, e) ↦ rw (e, set_disabled) refl
    ]

reseal_totp-attempts :
    (id : ℕ) (b : Bytes) (v : String) (now : ℕ) (s : Store)
    → (reseal_totp id b v now s).0.attempts ≡ s.attempts
unfolding reseal_totp
reseal_totp-attempts id b v now s = elim (Bool-cases (is_empty b || str_eq v "")) [
  | inl e ↦ rw e refl
  | inr e ↦ rw e refl
]

pub Untouched-Preserved : (xs : List LoginAttempt) → Preserved (λ w b i. Unit) (Untouched xs)
unfolding touch_session
Untouched-Preserved xs = record {
  updates = λ id f s e h. h;
  opens = λ r s f h. h;
  touches = λ token expires now s h. h;
  deletes = λ p s h. h;
  adds = λ a s e h. h;
  disables_row = λ id off now s h. set_disabled-attempts id off now s ∙ h;
  reseals_row = λ id b v now s h. reseal_totp-attempts id b v now s ∙ h;
}

go_on-leads :
    {A B : Type 0} (I J : Store → Type 0) (r : Store × Answer A) (k : A → Act B)
    → I r.0
    → ((s : Store) → I s → J s)
    → ((a : A) (s : Store) → I s → J (k a s).0)
    → J (go_on r k).0
unfolding go_on
go_on-leads I J (s, ok a) k h weaken next = next a s h
go_on-leads I J (s, err e) k h weaken next = weaken s h

module _ (c : Crypto) (xs : List LoginAttempt) where
  pub reject-Adds :
      (A : Type 0) (name : String) (o : Origin) (k : Clock) (outcome : LoginOutcome) (e : Fault)
      (s : Store)
      → Untouched xs s
      → Adds (normalize_username c name) k.wall xs (reject c {A = A} name o k outcome e s).0
  unfolding reject record_attempt
  reject-Adds A name o k outcome e s h = inr (o.ip, (outcome, rw h refl))

  with_factor-Adds :
      (name : String) (o : Origin) (k : Clock) (token : String) (a : Admin) (good : Bool)
      (s : Store)
      → Untouched xs s
      → Adds (normalize_username c name) k.wall xs (with_factor c name o k token a good s).0
  unfolding record_attempt record_login
  with_factor-Adds name o k token a false s h = reject-Adds _ name o k _ _ s h
  with_factor-Adds name o k token a true s h =
      let J = Adds (normalize_username c name) k.wall xs in
      go_on-leads (Untouched xs) J _ _
        (open_session-keeps (λ w b i. Unit) (Untouched xs) (Untouched-Preserved xs) c a o k token s
          tt h)
        (λ s1 h1. inl h1)
        (λ t s1 h1.
          go_on-leads J J _ _ (inr (o.ip, (logged_in, rw h1 refl))) (λ s2 h2. h2)
            (λ u s2 h2. go_on-leads J J _ _ h2 (λ s3 h3. h3) (λ v s3 h3. h3)))

  with_password-Adds :
      (name text : String) (o : Origin) (k : Clock) (token : String) (a : Admin) (v : Verified)
      (s : Store)
      → Untouched xs s
      → Adds (normalize_username c name) k.wall xs (with_password c name text o k token a v s).0
  with_password-Adds name text o k token a unreadable s h = inl h
  with_password-Adds name text o k token a mismatch s h = reject-Adds _ name o k _ _ s h
  with_password-Adds name text o k token a matches s h = elim (Bool-cases (is_enrolled a)) [
    | inr e ↦ rw e (inl h)
    | inl e ↦ rw e (
        go_on-leads (Untouched xs) (Adds (normalize_username c name) k.wall xs) _ _
          (check_second_factor-keeps (λ w b i. Unit) (Untouched xs) (Untouched-Preserved xs) c a
            text k s h)
          (λ s1 h1. inl h1) (λ good s1 h1. with_factor-Adds name o k token a good s1 h1))
  ]

  pub with_account-Adds :
      (name password text : String) (o : Origin) (k : Clock) (token : String) (found : Option Admin)
      (s : Store)
      → Untouched xs s
      → Adds
          (normalize_username c name)
          k.wall
          xs
          (with_account c name password text o k token found s).0
  with_account-Adds name password text o k token none s h = reject-Adds _ name o k _ _ s h
  with_account-Adds name password text o k token (some a) s h = elim (Bool-cases (is_enabled a)) [
    | inl e ↦ rw e (with_password-Adds name text o k token a _ s h)
    | inr e ↦ rw e (reject-Adds _ name o k _ _ s h)
  ]
