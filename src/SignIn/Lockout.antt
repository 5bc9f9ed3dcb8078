-- ===== src/SignIn/Lockout.antt =====
-- How many guesses an account is open to: the lockout of `SignIn` in go/internal/authn/authn.go, which
-- reads the failures first and writes its row of the log at the end, so that other sign-ins may be
-- recorded in between.
use ai_env_mgr.Base.{
  ℕ, zero, suc, ◌+◌, ◌≤◌, ◌<◌, ◌≡◌, refl, sym, subst, inl, inr, String, true, List, [], ◌∷◌, ◌++◌,
  arith, Bool-cases, &&-eq-true, eq_iff, ltb,
}
use ai_env_mgr.SignIn.{LoginAttempt, Store, Clock, Crypto}
use ai_env_mgr.SignIn.Rows.{admin_named, normalize_username, record_attempt, failures_of}
use ai_env_mgr.SignIn.Service.{
  Origin, lockout_window, max_failures_per_user, reject, with_account, is_locked,
}
use ai_env_mgr.SignIn.Steps.{Op, signs_in, apply, empty}
use ai_env_mgr.SignIn.Keeps.Accounts.{apply-keeps_unless}
use ai_env_mgr.SignIn.Attempts.{
  Adds, Untouched, Untouched-Preserved, reject-Adds, with_account-Adds,
}
use ai_env_mgr.SignIn.Guesses.{
  is_guess, is_recent_guess, guesses, affected-append, no_guesses, guesses-later, guesses-failures,
}
use ai_env_mgr.SignIn.Overlap.{back, Entry, late, does, sign_in_after, enter, run_late}

-- The bound on guesses, for every user name.
abbrev IsLimited : ℕ → ℕ → List LoginAttempt → Type 0
IsLimited bound now xs = (name : String) → guesses name now xs ≤ bound

added-guesses :
    (name : String) (now : ℕ) (row : LoginAttempt) (xs : List LoginAttempt)
    → guesses name now (xs ++ row ∷ []) ≤ guesses name now xs + 1
unfolding guesses
added-guesses name now row xs = elim (Bool-cases (is_recent_guess name now row)) [
  | inr e ↦ rw (affected-append (is_recent_guess name now) xs row, e) (omega arith)
  | inl e ↦ rw (affected-append (is_recent_guess name now) xs row, e) (omega arith)
]

added-IsLimited :
    (bound now : ℕ) (row : LoginAttempt) (xs : List LoginAttempt)
    → (is_guess row.outcome ≡ true → guesses row.username now xs < bound)
    → IsLimited bound now xs
    → IsLimited bound now (xs ++ row ∷ [])
unfolding guesses
added-IsLimited bound now row xs room h name = elim (Bool-cases (is_recent_guess name now row)) [
  | inr e ↦ rw (affected-append (is_recent_guess name now) xs row, e) (omega (arith, h name))
  | inl e ↦
      let (recent, rest) = &&-eq-true (ltb now (row.at + lockout_window)) _ e in
      let (guess, mine) = &&-eq-true (is_guess row.outcome) _ rest in
      let spare =
        subst (λ v. guesses v now xs < bound) ((eq_iff row.username name).0 mine) (room guess) in
      rw (affected-append (is_recent_guess name now) xs row, e) (omega (arith, spare))
]

Adds-IsLimited :
    (name : String) (bound at now : ℕ) (xs : List LoginAttempt) (s : Store)
    → guesses name now xs < bound
    → IsLimited bound now xs
    → Adds name at xs s
    → IsLimited bound now s.attempts
Adds-IsLimited name bound at now xs s room h (inl e) = rw e h
Adds-IsLimited name bound at now xs s room h (inr (ip, (o, e))) =
    rw e (added-IsLimited bound now _ xs (λ d. room) h)

Adds-guesses :
    (name other : String) (at now : ℕ) (xs : List LoginAttempt) (s : Store)
    → Adds name at xs s
    → guesses other now s.attempts ≤ guesses other now xs + 1
Adds-guesses name other at now xs s (inl e) = rw e (omega arith)
Adds-guesses name other at now xs s (inr (ip, (o, e))) = rw e (added-guesses other now _ xs)

-- In each operation of a history, whose last store stands first, the log has had no more than one
-- guess.
unfoldable Grows : Store → List Store → Type 0
Grows s [] = Unit
Grows s (r ∷ past) =
    ((name : String) (now : ℕ) → guesses name now s.attempts ≤ guesses name now r.attempts + 1)
    × Grows r past

Grows-back :
    (name : String) (now lag : ℕ) (s : Store) (past : List Store)
    → Grows s past
    → guesses name now s.attempts ≤ guesses name now (back lag s past).attempts + lag
unfolding Grows back
Grows-back name now zero s past h = omega arith
Grows-back name now (suc n) s [] h = omega arith
Grows-back name now (suc n) s (r ∷ past) h =
    omega (arith, h.0 name now, Grows-back name now n r past h.1)

module _ (c : Crypto) where
  late-Adds :
      (seen : Store) (name password text : String) (o : Origin) (k : Clock) (token : String)
      (s : Store)
      → Adds
          (normalize_username c name)
          k.wall
          s.attempts
          (sign_in_after c seen name password text o k token s).0
  unfolding sign_in_after
  late-Adds seen name password text o k token s = elim (Bool-cases (is_locked c name o k seen)) [
    | inl e ↦ rw e (reject-Adds c s.attempts _ name o k _ _ s refl)
    | inr e ↦
        rw e (
          with_account-Adds c s.attempts name password text o k token (admin_named c name s) s refl)
  ]

  late-IsLimited :
      (w lag : ℕ) (name password text : String) (o : Origin) (k : Clock) (token : String)
      (s : Store) (past : List Store)
      → lag ≤ w
      → k.db ≤ k.wall
      → Grows s past
      → IsLimited (max_failures_per_user + w) k.wall s.attempts
      → IsLimited
          (max_failures_per_user + w)
          k.wall
          (sign_in_after c (back lag s past) name password text o k token s).0.attempts
  unfolding sign_in_after reject record_attempt
  late-IsLimited w lag name password text o k token s past near order grown h =
      elim (Bool-cases (is_locked c name o k (back lag s past))) [
        | inl e ↦ rw e (
            added-IsLimited (max_failures_per_user + w) k.wall _ s.attempts
              (λ d. absurd (ground arith)) h)
        | inr e ↦
            let seen = guesses-failures (normalize_username c name) k.db (back lag s past) in
            let few : failures_of (normalize_username c name) lockout_window k.db (back lag s past)
                < max_failures_per_user =
              ground arith in
            let since = Grows-back (normalize_username c name) k.wall lag s past grown in
            let older =
              guesses-later (normalize_username c name) k.db k.wall (back lag s past).attempts
                order in
            let made =
              with_account-Adds c s.attempts name password text o k token (admin_named c name s) s
                refl in
            rw e (
              Adds-IsLimited (normalize_username c name) (max_failures_per_user + w) k.wall k.wall
                s.attempts (with_account c name password text o k token (admin_named c name s) s).0
                (omega (arith, seen, few, since, older, near)) h made)
      ]

-- A sign-in is entered as `late`, with a lag of 0 if it was alone.
unfoldable pub IsOther : Op → Type 0
IsOther (signs_in username password text o k token) = ⊥
IsOther _ = Unit

-- Of no sign-in more than `w` operations come between its check and its record, and the record is not
-- before its check nor before the records that were made earlier.
unfoldable pub IsTimed : ℕ → ℕ → Entry → Type 0
IsTimed w start (late lag username password text o k token) =
    (lag ≤ w) × (start ≤ k.wall) × (k.db ≤ k.wall)
IsTimed w start (does op) = IsOther op

-- The time of the last sign-in.
unfoldable pub time_after : ℕ → Entry → ℕ
time_after start (late lag username password text o k token) = k.wall
time_after start (does op) = start

unfoldable pub AreTimed : ℕ → ℕ → List Entry → Type 0
AreTimed w start [] = Unit
AreTimed w start (e ∷ es) = IsTimed w start e × AreTimed w (time_after start e) es

unfoldable pub last_time : ℕ → List Entry → ℕ
last_time start [] = start
last_time start (e ∷ es) = last_time (time_after start e) es

-- The log is as it was after an operation that is no sign-in.
apply-attempts :
    (c : Crypto) (op : Op) (s : Store) → IsOther op → (apply c op s).attempts ≡ s.attempts
unfolding IsOther
apply-attempts c op s other =
    apply-keeps_unless (λ w b i. Unit) (Untouched s.attempts) (Untouched-Preserved s.attempts) c op
      s (λ username password text o k token e. absurd (subst IsOther e other)) refl

enter-Grows :
    (c : Crypto) (w start : ℕ) (e : Entry) (s : Store) (past : List Store)
    → IsTimed w start e
    → Grows s past
    → Grows (enter c e s past) (s ∷ past)
unfolding Grows enter IsTimed
enter-Grows c w start (late lag username password text o k token) s past timed h = (
  (λ name now.
      Adds-guesses (normalize_username c username) name k.wall now s.attempts
        (sign_in_after c (back lag s past) username password text o k token s).0
        (late-Adds c (back lag s past) username password text o k token s)),
  h,
)
enter-Grows c w start (does op) s past timed h =
    ((λ name now. rw (apply-attempts c op s timed) (omega arith)), h)

enter-IsLimited :
    (c : Crypto) (w start : ℕ) (e : Entry) (s : Store) (past : List Store)
    → IsTimed w start e
    → Grows s past
    → IsLimited (max_failures_per_user + w) start s.attempts
    → IsLimited (max_failures_per_user + w) (time_after start e) (enter c e s past).attempts
unfolding IsTimed time_after enter
enter-IsLimited c w start (late lag username password text o k token) s past timed grown h =
    late-IsLimited c w lag username password text o k token s past timed.0 timed.2 grown
      (λ name. omega (arith, guesses-later name start k.wall s.attempts timed.1, h name))
enter-IsLimited c w start (does op) s past timed grown h =
    subst (IsLimited (max_failures_per_user + w) start) (sym (apply-attempts c op s timed)) h

run-IsLimited :
    (c : Crypto) (w start : ℕ) (es : List Entry) (s : Store) (past : List Store)
    → AreTimed w start es
    → Grows s past
    → IsLimited (max_failures_per_user + w) start s.attempts
    → IsLimited (max_failures_per_user + w) (last_time start es) (run_late c es s past).attempts
unfolding AreTimed last_time run_late
run-IsLimited c w start [] s past t grown h = h
run-IsLimited c w start (e ∷ es) s past t grown h =
    run-IsLimited c w (time_after start e) es (enter c e s past) (s ∷ past) t.1
      (enter-Grows c w start e s past t.0 grown) (enter-IsLimited c w start e s past t.0 grown h)

-- From empty tables, after any history of overlapping sign-ins and other operations, in which no more
-- than `w` operations come between the check of a sign-in and its record, and the records are made in
-- the order of time, each not before its check: the log has at most eight and `w` guesses at one user
-- name, from whatever addresses, in the fifteen minutes that end at the last record.
pub run-guesses :
    (c : Crypto) (w start : ℕ) (es : List Entry) (name : String)
    → AreTimed w start es
    → guesses name (last_time start es) (run_late c es empty []).attempts
      ≤ max_failures_per_user + w
unfolding Grows
run-guesses c w start es name timed = run-IsLimited c w start es empty [] timed tt none_yet name
  where
    none_yet : IsLimited (max_failures_per_user + w) start []
    none_yet v = omega (arith, no_guesses v start)
