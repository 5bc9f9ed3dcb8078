-- ===== src/Worker/Backoff.antt =====
-- `backoff` of go/internal/worker/worker.go, over `int64` durations as 64-bit patterns.
use native.Mathlib.Nat.{pow-suc}
use ai_env_mgr.Base.{
  ℕ, zero, suc, ◌+◌, ◌-◌, ◌*◌, ◌/◌, ◌%◌, ◌^◌, ◌≤◌, ◌<◌, ◌≡◌, ◌⊎◌, Bool, true, false, Option, none,
  some, arith, leb, if◌then◌else◌, Bool-cases, inl, inr, leb→le, ap, ◌∙◌,
}
use Prim.Native.Nat.{min}

-- `wait *= 2`.
abbrev double : ℕ → ℕ
double w = (w * 2) % 2 ^ 64

abbrev is_negative : ℕ → Bool
is_negative w = leb (2 ^ 63) w

-- `wait >= max` between signed numbers, `max` being positive.
abbrev reached : ℕ → ℕ → Bool
reached limit w = if is_negative w then false else leb limit w

-- The loop, for the rounds that are left.
unfoldable pub grow : ℕ → ℕ → ℕ → ℕ
grow zero limit w = w
grow (suc n) limit w =
    let rest = grow n limit (double w) in if reached limit (double w) then limit else rest

-- `rand.Int64N(wait/2 + 1)` panics on a range that is not positive: `none`. `draw n` is the number
-- drawn below `n`.
unfoldable pub backoff : (ℕ → ℕ) → ℕ → ℕ → ℕ → Option ℕ
backoff draw base limit attempts =
    let w = grow (attempts - 1) limit base in
    if is_negative w then none else some (w / 2 + draw (w / 2 + 1))

-- What the comments ask for: doubled for each attempt after the first, and no more than the limit.
unfoldable pub capped : ℕ → ℕ → ℕ → ℕ
capped base limit n = min (base * 2 ^ n) limit

pow_pos : (n : ℕ) → 1 ≤ 2 ^ n
pow_pos zero = omega arith
pow_pos (suc n) = rw (pow-suc 2 n) (omega (arith, pow_pos n))

grows : (w p : ℕ) → 1 ≤ p → w * 2 ≤ w * (p * 2)
grows w p h = grind arith

-- One round: the limit if the doubled wait reaches it, and the loop from the doubled wait if not.
grow-step :
    (n limit w : ℕ)
    → w < 2 ^ 62
    → grow (suc n) limit w ≡ (if leb limit (w * 2) then limit else grow n limit (w * 2))
unfolding grow
grow-step n limit w small = rw (fits_word, positive)
  where
    fits_word : (w * 2) % 2 ^ 64 ≡ w * 2
    fits_word = omega arith

    positive : leb (2 ^ 63) (w * 2) ≡ false
    positive = ground arith

grow-over :
    (n limit w : ℕ)
    → w < 2 ^ 62
    → leb limit (w * 2) ≡ true
    → grow (suc n) limit w ≡ min (w * 2 ^ suc n) limit
grow-over n limit w small over =
    rw (grow-step n limit w small, over, pow-suc 2 n)
      (omega (arith, grows w (2 ^ n) (pow_pos n), leb→le limit (w * 2) over))

grow-suc :
    (n limit w : ℕ) → w < 2 ^ 62 → limit ≤ 2 ^ 62 → grow (suc n) limit w ≡ min (w * 2 ^ suc n) limit
unfolding grow
grow-suc zero limit w small fits = elim (Bool-cases (leb limit (w * 2))) [
  | inl over ↦ grow-over zero limit w small over
  | inr under ↦ rw (grow-step zero limit w small, under) (ground arith)
]
grow-suc (suc n) limit w small fits = elim (Bool-cases (leb limit (w * 2))) [
  | inl over ↦ grow-over (suc n) limit w small over
  | inr under ↦
      rw (grow-step (suc n) limit w small, under)
        (grow-suc n limit (w * 2) (ground arith) fits ∙ ap (λ v. min v limit) (shift n))
]
  where
    shift : (m : ℕ) → w * 2 * 2 ^ suc m ≡ w * 2 ^ suc (suc m)
    shift m = rw (pow-suc 2 (suc m)) (grind arith)

capped_word : (base limit n : ℕ) → limit ≤ 2 ^ 62 → is_negative (capped base limit n) ≡ false
unfolding capped
capped_word base limit n fits = ground arith

capped-le : (base limit n : ℕ) → capped base limit n ≤ limit
unfolding capped
capped-le base limit n = omega arith

grow_word :
    (n limit base : ℕ) → base < 2 ^ 62 → limit ≤ 2 ^ 62 → is_negative (grow n limit base) ≡ false
unfolding grow capped
grow_word zero limit base small fits = ground arith
grow_word (suc n) limit base small fits =
    rw (grow-suc n limit base small fits) (capped_word base limit (suc n) fits)

-- Below 2^62 ns the wait does not panic.
pub backoff-some :
    (draw : ℕ → ℕ) (base limit attempts : ℕ)
    → base < 2 ^ 62
    → limit ≤ 2 ^ 62
    → (w : ℕ) × (backoff draw base limit attempts ≡ some w)
unfolding backoff
backoff-some draw base limit attempts small fits =
    let g = grow (attempts - 1) limit base in
    (g / 2 + draw (g / 2 + 1), rw (grow_word (attempts - 1) limit base small fits))

-- Below 2^62 nanoseconds (146 years) no doubling overflows, and the loop on 64-bit words computes
-- `base * 2^(attempts - 1)`, and no more than the limit, provided that `base` is within the limit or
-- that there was more than one attempt.
pub grow-capped :
    (base limit attempts : ℕ)
    → base < 2 ^ 62
    → limit ≤ 2 ^ 62
    → (base ≤ limit) ⊎ (2 ≤ attempts)
    → grow (attempts - 1) limit base ≡ capped base limit (attempts - 1)
unfolding grow capped
grow-capped base limit zero small fits (inl within) = omega arith
grow-capped base limit zero small fits (inr more) = absurd (omega arith)
grow-capped base limit (suc zero) small fits (inl within) = omega arith
grow-capped base limit (suc zero) small fits (inr more) = absurd (omega arith)
grow-capped base limit (suc (suc n)) small fits which =
    let less : suc (suc n) - 1 ≡ suc n = omega arith in rw less (grow-suc n limit base small fits)

-- With settings below 2^62 ns, the base within the limit or more than one attempt made, and a draw in
-- its range, there is a wait; it lies between one half and the whole of the capped doubling, and so
-- is never above the limit.
pub backoff_bounds :
    (draw : ℕ → ℕ) (base limit attempts : ℕ)
    → ((n : ℕ) → 0 < n → draw n < n)
    → base < 2 ^ 62
    → limit ≤ 2 ^ 62
    → (base ≤ limit) ⊎ (2 ≤ attempts)
    → (w : ℕ) × (backoff draw base limit attempts ≡ some w)
      × (capped base limit (attempts - 1) / 2 ≤ w)
      × (w ≤ capped base limit (attempts - 1))
      × (w ≤ limit)
unfolding backoff
backoff_bounds draw base limit attempts drawn small fits which =
    let c = capped base limit (attempts - 1) in
    let same = grow-capped base limit attempts small fits which in
    let bound = drawn (c / 2 + 1) (omega arith) in
    let top = capped-le base limit (attempts - 1) in
    (
      c / 2 + draw (c / 2 + 1),
      rw (same, capped_word base limit (attempts - 1) fits),
      omega arith,
      omega arith,
      omega arith,
    )
