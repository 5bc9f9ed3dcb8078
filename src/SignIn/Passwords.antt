-- ===== src/SignIn/Passwords.antt =====
-- Stored password hashes and recovery codes: `VerifyPassword`, `NeedsRehash` and `parseHash` of
-- go/internal/authn/password.go, and the normal forms of authn.go.
use Prim.Native.Char.{Char, code}
use ai_env_mgr.Base.{
  ℕ, ◌*◌, String, Bool, true, false, ◌&&◌, ◌||◌, Option, none, some, List, [], ◌∷◌, str_eq, ltb,
  leb, ◌==◌, if◌then◌else◌, length, same_bytes,
}
use ai_env_mgr.SignIn.{Bytes, Crypto}

abbrev onto_first : Char → List String → List String
onto_first c [] = String.◌∷◌ c "" ∷ []
onto_first c (p ∷ ps) = String.◌∷◌ c p ∷ ps

-- `strings.Split(s, "$")`.
unfoldable pub split_dollars : String → List String
split_dollars String.[] = "" ∷ []
split_dollars (String.◌∷◌ c s) =
    let rest = split_dollars s in if code c == 36 then "" ∷ rest else onto_first c rest

-- The parameters are `uint32`, `uint32` and `uint8`: `scan_params` reads no others.
pub record Hash : Type 0 where
  pub memory : ℕ
  pub time : ℕ
  pub threads : ℕ
  pub salt : Bytes
  pub sum : Bytes

abbrev pub argon_version : ℕ
argon_version = 19

abbrev pub argon_time : ℕ
argon_time = 3

abbrev pub argon_memory : ℕ
argon_memory = 64 * 1024

abbrev pub is_current : Option ℕ → Bool
is_current none = false
is_current (some v) = v == argon_version

abbrev pub hash_from : Option (ℕ × ℕ × ℕ) → Option Bytes → Option Bytes → Option Hash
hash_from (some (m, t, p)) (some salt) (some (b ∷ sum)) =
    some (record { memory = m; time = t; threads = p; salt = salt; sum = b ∷ sum })
hash_from _ _ _ = none

-- A literal part of a format.
abbrev pub literal : String → String → Option String
literal String.[] s = some s
literal (String.◌∷◌ d ds) String.[] = none
literal (String.◌∷◌ d ds) (String.◌∷◌ c s) =
    let rest = literal ds s in if code d == code c then rest else none

module _ (c : Crypto) where
  -- A literal, then %d.
  abbrev pub field_after : (text : String) → (bits : ℕ) → String → Option (ℕ × String)
  field_after text bits s = elim (literal text s) [ none ↦ none | some r ↦ c.scan_uint bits r ]

  abbrev pub with_threads : ℕ → ℕ → Option (ℕ × String) → Option (ℕ × ℕ × ℕ)
  with_threads m t none = none
  with_threads m t (some (p, r)) = some (m, t, p)

  abbrev pub with_time : ℕ → Option (ℕ × String) → Option (ℕ × ℕ × ℕ)
  with_time m none = none
  with_time m (some (t, r)) = with_threads m t (field_after ",p=" 8 r)

  abbrev pub with_memory : Option (ℕ × String) → Option (ℕ × ℕ × ℕ)
  with_memory none = none
  with_memory (some (m, r)) = with_time m (field_after ",t=" 32 r)

  -- `fmt.Sscanf(s, "m=%d,t=%d,p=%d", ...)` into two `uint32` and a `uint8`; what is left over is no
  -- error.
  unfoldable pub scan_params : String → Option (ℕ × ℕ × ℕ)
  scan_params s = with_memory (field_after "m=" 32 s)

  -- `fmt.Sscanf(s, "v=%d", &version)`.
  unfoldable pub scan_version : String → Option ℕ
  scan_version s = elim (literal "v=" s) [ none ↦ none | some r ↦ c.scan_int r ]

  abbrev pub hash_of_parts : List String → Option Hash
  hash_of_parts (_ ∷ kind ∷ version ∷ params ∷ salt ∷ sum ∷ []) =
      if str_eq kind "argon2id" && is_current (scan_version version)
      then hash_from (scan_params params) (c.decode salt) (c.decode sum)
      else none
  hash_of_parts _ = none

  unfoldable pub parse_hash : String → Option Hash
  parse_hash encoded = hash_of_parts (split_dollars encoded)

-- `argonThreads`.
unfoldable pub argon_threads : (cpus : ℕ) → ℕ
argon_threads cpus = if ltb cpus 2 then 1 else 2

pub data Verified : Type 0 where
  matches mismatch unreadable : Verified

module _ (c : Crypto) where
  abbrev pub verified : String → Option Hash → Verified
  verified password none = unreadable
  verified password (some h) =
      if same_bytes (c.idkey password h.salt h.time h.memory h.threads (length h.sum)) h.sum
      then matches
      else mismatch

  unfoldable pub verify_password : (encoded password : String) → Verified
  verify_password encoded password = verified password (parse_hash c encoded)

  abbrev is_weak : Option Hash → Bool
  is_weak none = true
  is_weak (some h) = ltb h.memory argon_memory || ltb h.time argon_time

  unfoldable pub needs_rehash : String → Bool
  needs_rehash encoded = is_weak (parse_hash c encoded)

unfoldable pub keep_chars : (Char → Bool) → String → String
keep_chars p String.[] = ""
keep_chars p (String.◌∷◌ c s) = let rest = keep_chars p s in if p c then String.◌∷◌ c rest else rest

abbrev pub contains_char : String → Char → Bool
contains_char String.[] c = false
contains_char (String.◌∷◌ d s) c = (code d == code c) || contains_char s c

abbrev pub recovery_alphabet : String
recovery_alphabet = "bcdfghjkmnpqrstvwxz23456789"

unfoldable pub normalize_recovery_code : Crypto → String → String
normalize_recovery_code c text = keep_chars (contains_char recovery_alphabet) (c.lower text)

unfoldable pub digits_only : String → String
digits_only text = keep_chars (λ c. leb 48 (code c) && leb (code c) 57) text
