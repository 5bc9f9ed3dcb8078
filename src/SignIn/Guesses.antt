-- ===== src/SignIn/Guesses.antt =====
-- Counting guesses in the log of attempts: `RecentFailures` of go/internal/dbstore/admins.go.
use ai_env_mgr.Base.{
  ℕ, ◌+◌, ◌≤◌, ◌≡◌, refl, inl, inr, String, Bool, true, false, ◌&&◌, List, [], ◌∷◌, ◌++◌, arith,
  Bool-cases, &&-eq-true, str_eq, ltb, affected, if◌then◌else◌,
}
use ai_env_mgr.SignIn.{
  LoginOutcome, logged_in, bad_password, bad_totp, disabled, unknown_user, locked, LoginAttempt,
  Store,
}
use ai_env_mgr.SignIn.Rows.{failures_of, is_recent_failure, is_failure}
use ai_env_mgr.SignIn.Service.{lockout_window, max_failures_per_user}

-- A guess: a password or a code that was compared and was wrong.
abbrev pub is_guess : LoginOutcome → Bool
is_guess bad_password = true
is_guess bad_totp = true
is_guess _ = false

abbrev pub is_recent_guess : String → ℕ → LoginAttempt → Bool
is_recent_guess name now a =
    ltb now (a.at + lockout_window) && (is_guess a.outcome && str_eq a.username name)

-- The guesses at one user name in the window that ends now.
unfoldable pub guesses : String → ℕ → List LoginAttempt → ℕ
guesses name now attempts = affected (is_recent_guess name now) attempts

affected-le :
    (p q : LoginAttempt → Bool) (xs : List LoginAttempt)
    → ((x : LoginAttempt) → p x ≡ true → q x ≡ true)
    → affected p xs ≤ affected q xs
affected-le p q [] h = omega arith
affected-le p q (x ∷ xs) h = elim (Bool-cases (p x)) [
  | inl e ↦ rw (e, h x e) (omega (arith, affected-le p q xs h))
  | inr e ↦ rw e (elim (Bool-cases (q x)) [
    | inl d ↦ rw d (omega (arith, affected-le p q xs h))
    | inr d ↦ rw d (affected-le p q xs h)
  ])
]

pub affected-append :
    (p : LoginAttempt → Bool) (xs : List LoginAttempt) (y : LoginAttempt)
    → affected p (xs ++ y ∷ []) ≡ affected p xs + (if p y then 1 else 0)
affected-append p [] y = elim (Bool-cases (p y)) [ inl e ↦ rw e refl | inr e ↦ rw e refl ]
affected-append p (x ∷ xs) y = elim (Bool-cases (p x)) [
  | inl e ↦ rw e (omega (arith, affected-append p xs y))
  | inr e ↦ rw e (affected-append p xs y)
]

pub no_guesses : (name : String) (now : ℕ) → guesses name now [] ≤ max_failures_per_user
unfolding guesses
no_guesses name now = omega arith

pub guesses-later :
    (name : String) (now later : ℕ) (xs : List LoginAttempt)
    → now ≤ later
    → guesses name later xs ≤ guesses name now xs
unfolding guesses
guesses-later name now later xs le =
    affected-le _ _ xs (λ x h. still x (&&-eq-true (ltb later (x.at + lockout_window)) _ h))
  where
    still :
        (x : LoginAttempt)
        → (ltb later (x.at + lockout_window) ≡ true)
          × ((is_guess x.outcome && str_eq x.username name) ≡ true)
        → is_recent_guess name now x ≡ true
    still x (e, d) =
        let soon : ltb now (x.at + lockout_window) ≡ true = ground (arith, e, le) in
        rw (soon, d) refl

guess-is_failure : (o : LoginOutcome) → is_guess o ≡ true → is_failure o ≡ true
guess-is_failure bad_password h = refl
guess-is_failure bad_totp h = refl
guess-is_failure logged_in h = absurd (ground arith)
guess-is_failure disabled h = absurd (ground arith)
guess-is_failure unknown_user h = absurd (ground arith)
guess-is_failure locked h = absurd (ground arith)

pub guesses-failures :
    (name : String) (now : ℕ) (s : Store)
    → guesses name now s.attempts ≤ failures_of name lockout_window now s
unfolding guesses failures_of
guesses-failures name now s = affected-le _ _ s.attempts (λ x h. counted x h)
  where
    counted :
        (x : LoginAttempt)
        → is_recent_guess name now x ≡ true
        → (is_recent_failure lockout_window now x && str_eq x.username name) ≡ true
    counted x h =
        let (recent, rest) = &&-eq-true (ltb now (x.at + lockout_window)) _ h in
        let (guess, mine) = &&-eq-true (is_guess x.outcome) _ rest in
        rw (recent, mine, guess-is_failure x.outcome guess) refl
