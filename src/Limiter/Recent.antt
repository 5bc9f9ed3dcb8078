-- ===== src/Limiter/Recent.antt =====
-- Lists of hits in the order of time, and what is recent of them: go/internal/adminweb/limiter.go.
use ai_env_mgr.Base.{
  ℕ, ◌+◌, ◌≤◌, ◌≡◌, refl, ap, inl, inr, true, false, List, [], ◌∷◌, ◌++◌, arith, All, All-append,
  Bool-cases, ltb, length,
}
use ai_env_mgr.Limiter.{recent, is_quiet}

-- In the order of time.
abbrev pub IsAscending : List ℕ → Type 0
IsAscending [] = Unit
IsAscending (t ∷ ts) = All (λ u. t ≤ u) ts × IsAscending ts

pub recent_again :
    (window now later : ℕ) (ts : List ℕ)
    → now ≤ later
    → recent window later (recent window now ts) ≡ recent window later ts
recent_again window now later [] h = refl
recent_again window now later (t ∷ ts) h =
    let rest = recent_again window now later ts h in
    elim (Bool-cases (ltb now (t + window))) [
      | inl a ↦ elim (Bool-cases (ltb later (t + window))) [
        | inl b ↦ rw (a, b) (ap (λ v. t ∷ v) rest)
        | inr b ↦ rw (a, b) rest
      ]
      | inr a ↦ let b : ltb later (t + window) ≡ false = ground arith in rw (a, b) rest
    ]

pub recent-append :
    (window now : ℕ) (ts us : List ℕ)
    → recent window now (ts ++ us) ≡ recent window now ts ++ recent window now us
recent-append window now [] us = refl
recent-append window now (t ∷ ts) us = elim (Bool-cases (ltb now (t + window))) [
  | inl a ↦ rw a (ap (λ v. t ∷ v) (recent-append window now ts us))
  | inr a ↦ rw a (recent-append window now ts us)
]

pub length-recent : (window now : ℕ) (ts : List ℕ) → length (recent window now ts) ≤ length ts
length-recent window now [] = omega arith
length-recent window now (t ∷ ts) = elim (Bool-cases (ltb now (t + window))) [
  | inl a ↦ rw a (omega (arith, length-recent window now ts))
  | inr a ↦ rw a (omega (arith, length-recent window now ts))
]

pub recent-All :
    (P : ℕ → Type 0) (window now : ℕ) (ts : List ℕ) → All P ts → All P (recent window now ts)
recent-All P window now [] h = tt
recent-All P window now (t ∷ ts) h = elim (Bool-cases (ltb now (t + window))) [
  | inl a ↦ rw a (h.0, recent-All P window now ts h.1)
  | inr a ↦ rw a (recent-All P window now ts h.1)
]

pub recent-IsAscending :
    (window now : ℕ) (ts : List ℕ) → IsAscending ts → IsAscending (recent window now ts)
recent-IsAscending window now [] h = tt
recent-IsAscending window now (t ∷ ts) h = elim (Bool-cases (ltb now (t + window))) [
  | inl a ↦ rw a (recent-All (λ u. t ≤ u) window now ts h.0, recent-IsAscending window now ts h.1)
  | inr a ↦ rw a (recent-IsAscending window now ts h.1)
]

pub append-IsAscending :
    (ts : List ℕ) (now : ℕ) → All (λ t. t ≤ now) ts → IsAscending ts → IsAscending (ts ++ now ∷ [])
append-IsAscending [] now le h = (tt, tt)
append-IsAscending (t ∷ ts) now le h =
    (All-append _ ts (now ∷ []) h.0 (le.0, tt), append-IsAscending ts now le.1 h.1)

-- If the last hit is not recent, none is, now or later.
pub quiet-recent :
    (window now later : ℕ) (ts : List ℕ)
    → now ≤ later
    → IsAscending ts
    → is_quiet window now ts ≡ true
    → recent window later ts ≡ []
unfolding is_quiet
quiet-recent window now later [] le h q = refl
quiet-recent window now later (t ∷ []) le h q =
    let old : ltb later (t + window) ≡ false = ground arith in rw old refl
quiet-recent window now later (t ∷ u ∷ us) le h q =
    let rest = quiet-recent window now later (u ∷ us) le h.1 q in
    elim (Bool-cases (ltb later (u + window))) [
      | inl b ↦ absurd (ground (arith, rest, b))
      | inr b ↦
          let before = h.0.0 in
          let old : ltb later (t + window) ≡ false = ground (arith, before) in rw old rest
    ]
