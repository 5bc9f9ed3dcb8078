-- ===== src/Limiter.antt =====
-- The limit on sign-in attempts for each address: go/internal/adminweb/limiter.go. The map is a
-- function with its keys listed: a key that is not there reads as no hits.
pub mod Recent
pub mod Window
mod Tests
use ai_env_mgr.Base.{
  ℕ, ◌+◌, String, Bool, true, false, not, ◌||◌, Option, none, some, List, [], ◌∷◌, ◌++◌, str_eq,
  ltb, leb, if◌then◌else◌, select, length,
}

pub record LoginLimiter : Type 0 where
  pub window : ℕ
  pub max : ℕ
  pub keys : List String
  pub hits : String → List ℕ

unfoldable pub new_limiter : ℕ → ℕ → LoginLimiter
new_limiter window max = record { window = window; max = max; keys = []; hits = λ k. [] }

-- `t.After(now.Add(-window))`.
abbrev pub is_recent : ℕ → ℕ → ℕ → Bool
is_recent window now t = ltb now (t + window)

abbrev pub recent : ℕ → ℕ → List ℕ → List ℕ
recent window now ts = select (is_recent window now) ts

-- `len(v) == 0 || !v[len(v)-1].After(cutoff)`.
unfoldable pub is_quiet : ℕ → ℕ → List ℕ → Bool
is_quiet window now [] = true
is_quiet window now (t ∷ []) = not (is_recent window now t)
is_quiet window now (t ∷ u ∷ us) = is_quiet window now (u ∷ us)

abbrev pub put : String → List ℕ → (String → List ℕ) → String → List ℕ
put key ts hits k = if str_eq k key then ts else hits k

abbrev has_key : String → List String → Bool
has_key key [] = false
has_key key (k ∷ ks) = str_eq k key || has_key key ks

abbrev with_key : String → List String → List String
with_key key ks = if has_key key ks then ks else key ∷ ks

abbrev pub unless_quiet : ℕ → ℕ → List ℕ → List ℕ
unless_quiet window now ts = if is_quiet window now ts then [] else ts

-- Addresses that have gone quiet are dropped once there are more than 4096.
unfoldable pub drop_quiet : ℕ → LoginLimiter → LoginLimiter
drop_quiet now l =
    if ltb 4096 (length l.keys)
    then record l {
      keys = select (λ k. not (is_quiet l.window now (l.hits k))) l.keys;
      hits = λ k. unless_quiet l.window now (l.hits k);
    }
    else l

unfoldable pub kept : String → ℕ → LoginLimiter → List ℕ
kept key now l = recent l.window now (l.hits key)

abbrev pub stored : String → List ℕ → LoginLimiter → LoginLimiter
stored key ts l = record l { keys = with_key key l.keys; hits = put key ts l.hits }

unfoldable pub allow : String → ℕ → LoginLimiter → LoginLimiter × Bool
allow key now l =
    if leb l.max (length (kept key now l))
    then (stored key (kept key now l) l, false)
    else (drop_quiet now (stored key (kept key now l ++ now ∷ []) l), true)
