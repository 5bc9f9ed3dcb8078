-- ===== src/Base/Clock.antt =====
-- Durations and signed arguments. A duration is in nanoseconds, as Go's `time.Duration`.
use Prim.Native.Nat.{ℕ, zero, suc, ◌*◌}

-- `negsuc n` is -(n + 1).
pub data ℤ : Type 0 where
  pos : ℕ → ℤ
  negsuc : ℕ → ℤ

-- `if n <= 0 { n = default }`.
abbrev pub positive_or : ℕ → ℤ → ℕ
positive_or default (pos zero) = default
positive_or default (pos (suc n)) = suc n
positive_or default (negsuc n) = default

abbrev pub second : ℕ
second = 1000000000

abbrev pub minute : ℕ
minute = 60 * second
