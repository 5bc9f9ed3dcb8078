-- ===== src/SignIn.antt =====
-- Signing in to the console: the accounts of administrators, their sessions and the log of attempts,
-- with the types of go/internal/repo/repo.go. Two clocks are at work, the database's and the
-- console's. What libraries compute (Argon2, TOTP, SHA-256, the keyring, base64, lower case) is an
-- interface.
pub mod Passwords
pub mod Rows
pub mod Service
pub mod Steps
pub mod Keeps
pub mod Attempts
pub mod Lifetime
pub mod LastWay
pub mod Recovery
pub mod Guesses
pub mod Overlap
pub mod Lockout
pub mod Printing
pub mod HashText
mod Tests
use ai_env_mgr.Base.{
  ℕ, String, Bool, true, false, ◌&&◌, Option, none, some, List, [], ◌∷◌, is_some, ltb, length,
}

abbrev pub Bytes : Type 0
Bytes = List ℕ

pub record Admin : Type 0 where
  pub id : ℕ
  pub username : String
  pub email : String
  pub password_hash : String
  pub password_set_at : ℕ
  pub totp_secret : Bytes
  pub totp_key_version : String
  pub totp_enrolled_at : Option ℕ
  pub recovery_hashes : List String
  pub role : String
  pub created_at : ℕ
  pub updated_at : ℕ
  pub last_login_at : Option ℕ
  pub disabled_at : Option ℕ

pub record NewAdmin : Type 0 where
  pub username : String
  pub email : String
  pub password_hash : String
  pub role : String

pub record Session : Type 0 where
  pub token_sha256 : Bytes
  pub principal_id : ℕ
  pub created_at : ℕ
  pub expires_at : ℕ
  pub absolute_expires_at : ℕ
  pub last_seen_at : ℕ
  pub created_ip : String
  pub user_agent : String

pub data LoginOutcome : Type 0 where
  logged_in bad_password bad_totp disabled unknown_user locked : LoginOutcome

pub record LoginAttempt : Type 0 where
  pub username : String
  pub source_ip : String
  pub at : ℕ
  pub outcome : LoginOutcome

-- The tables `admin_principals`, `admin_sessions` and `admin_login_attempts`.
pub record Store : Type 0 where
  pub admins : List Admin
  pub sessions : List Session
  pub attempts : List LoginAttempt
  pub next_id : ℕ

-- `Admin.Enabled`.
abbrev pub is_enabled : Admin → Bool
is_enabled a = elim a.disabled_at [ none ↦ true | some t ↦ false ]

-- `Admin.TOTPEnrolled`.
abbrev pub is_enrolled : Admin → Bool
is_enrolled a = ltb 0 (length a.totp_secret) && is_some a.totp_enrolled_at

pub data Fault : Type 0 where
  not_found duplicate required last_admin sign_in_failed locked_out enrolment_required
        account_disabled too_short bad_token broken :
      Fault

pub data Answer {ℓ} (A : Type ℓ) : Type ℓ where
  ok : A → Answer A
  err : Fault → Answer A

-- Each statement is committed as it is made: an error keeps what was done before it.
abbrev pub Act : Type 0 → Type 0
Act A = Store → Store × Answer A

unfoldable pub go_on : {A B : Type 0} → Store × Answer A → (A → Act B) → Store × Answer B
go_on (s, ok a) k = k a s
go_on (s, err e) k = (s, err e)

infixl 1 ◌>>=◌ ◌>>◌
abbrev pub ◌>>=◌ : {A B : Type 0} → Act A → (A → Act B) → Act B
◌>>=◌ m k s = go_on (m s) k

abbrev pub ◌>>◌ : {A B : Type 0} → Act A → Act B → Act B
◌>>◌ m k s = go_on (m s) (λ _. k)

abbrev pub answer : {A : Type 0} → A → Act A
answer a s = (s, ok a)

abbrev pub fail : {A : Type 0} → Fault → Act A
fail e s = (s, err e)

pub record Clock : Type 0 where
  pub db : ℕ
  pub wall : ℕ

-- `scan_uint` is the verb %d of `fmt.Sscanf` into an unsigned integer of that many bits, with the text
-- that it leaves, `none` where it fails or overflows; `scan_int` is that into an `int`, where a
-- negative number is `none` too, for it is no version either way. `same_address` compares as `inet`.
pub record Crypto : Type 0 where
  pub idkey : (password : String) → (salt : Bytes) → (time memory threads key_len : ℕ) → Bytes
  pub decode : String → Option Bytes
  pub scan_int : String → Option ℕ
  pub scan_uint : (bits : ℕ) → String → Option (ℕ × String)
  pub same_address : String → String → Bool
  pub hash_token : String → Bytes
  pub lower : String → String
  pub totp_valid : (code secret : String) → Bool
  pub open_seed : (sealed : Bytes) → (version : String) → (id : ℕ) → Option String
  pub seal_seed : (secret : String) → (id : ℕ) → Option (Bytes × String)
