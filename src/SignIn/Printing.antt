-- ===== src/SignIn/Printing.antt =====
-- How password hashes are printed: `HashPassword` of go/internal/authn/password.go, over what is
-- documented of the libraries that print and read numbers and bytes.
use Prim.Native.Char.{code}
use Prim.Native.String.{◌++◌}
use ai_env_mgr.Base.{
  ℕ, ◌^◌, ◌≤◌, ◌<◌, ◌≡◌, leb, ◌&&◌, String, Bool, false, ◌||◌, Option, none, some, str_eq, ◌==◌,
  if◌then◌else◌, length,
}
use ai_env_mgr.SignIn.{Bytes, Crypto}
use ai_env_mgr.SignIn.Passwords.{argon_version, argon_time, argon_memory, argon_threads}

unfoldable pub has_dollar : String → Bool
has_dollar String.[] = false
has_dollar (String.◌∷◌ c s) = (code c == 36) || has_dollar s

abbrev pub starts_with_digit : String → Bool
starts_with_digit String.[] = false
starts_with_digit (String.◌∷◌ c s) = leb 48 (code c) && leb (code c) 57

-- What is documented of `fmt`, base64 and Argon2: `decimal` is the verb %d of `fmt.Sprintf`, which the
-- verb %d of `fmt.Sscanf` reads back, as far as the integer is wide enough, up to the first text that
-- is no digit; neither decimals nor base64 have a `$`; IDKey, called with at least one pass and
-- one thread, gives as many bytes as it is asked for.
pub record Printer (c : Crypto) : Type 0 where
  pub encode : Bytes → String
  pub decimal : ℕ → String
  pub decode-encode : (b : Bytes) → c.decode (encode b) ≡ some b
  pub encode-plain : (b : Bytes) → has_dollar (encode b) ≡ false
  pub scan_int-decimal : (n : ℕ) → n < 2 ^ 63 → c.scan_int (decimal n) ≡ some n
  pub scan_uint-decimal :
      (bits n : ℕ) (rest : String)
      → n < 2 ^ bits
      → starts_with_digit rest ≡ false
      → c.scan_uint bits (decimal n ++ rest) ≡ some (n, rest)
  pub decimal-plain : (n : ℕ) → has_dollar (decimal n) ≡ false
  pub length-idkey :
      (password : String) (salt : Bytes) (t m th n : ℕ)
      → 1 ≤ t
      → 1 ≤ th
      → length (c.idkey password salt t m th n) ≡ n

-- `$argon2id$v=%d$m=%d,t=%d,p=%d$%s$%s`.
abbrev pub hash_text : (version params salt sum : String) → String
hash_text version params salt sum =
    "$argon2id$" ++ (version ++ ("$" ++ (params ++ ("$" ++ (salt ++ ("$" ++ sum))))))

abbrev pub version_text : (version : String) → String
version_text version = "v=" ++ version

abbrev pub params_text : (memory time threads : String) → String
params_text memory time threads = "m=" ++ (memory ++ (",t=" ++ (time ++ (",p=" ++ threads))))

-- `HashPassword`; the salt comes of the random source, the number of processors of the machine.
unfoldable pub hash_password :
    (c : Crypto) → Printer c → (salt : Bytes) → (cpus : ℕ) → String → Option String
hash_password c p salt cpus password =
    let threads = argon_threads cpus in
    if str_eq password ""
    then none
    else some (
        hash_text (version_text (p.decimal argon_version))
          (params_text (p.decimal argon_memory) (p.decimal argon_time) (p.decimal threads))
          (p.encode salt) (p.encode (c.idkey password salt argon_time argon_memory threads 32)))
