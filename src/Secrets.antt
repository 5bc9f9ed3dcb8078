-- ===== src/Secrets.antt =====
-- Sealed values: go/internal/secrets/secrets.go and rekey.go. The cipher (AES-256 in GCM mode, of
-- Go's library) is an interface; random bytes are arguments.
pub mod RoundTrip
mod Tests
use ai_env_mgr.Base.{
  ℕ, ◌+◌, ◌%◌, ◌<◌, ◌≡◌, String, Bool, true, false, not, ◌&&◌, ◌||◌, Option, none, some, List, [],
  ◌∷◌, ◌++◌, str_eq, ltb, ◌==◌, if◌then◌else◌, length, take, drop, same_bytes,
}

abbrev pub Bytes : Type 0
Bytes = List ℕ

abbrev pub key_size : ℕ
key_size = 32

abbrev pub nonce_size : ℕ
nonce_size = 12

abbrev pub wrapped_size : ℕ
wrapped_size = 48

-- "aek1".
abbrev pub magic : Bytes
magic = 97 ∷ 101 ∷ 107 ∷ 49 ∷ []

abbrev pub min_blob_size : ℕ
min_blob_size = length magic + nonce_size + wrapped_size + nonce_size + 16

-- `cipher.AEAD` over a key of 32 bytes, with what is documented of it: a tag of 16 bytes, and what was
-- sealed opens under the same key, nonce and associated data. `open` gives `none` for an error, a key
-- of a wrong size among them.
pub record Aead : Type 0 where
  pub seal : (key nonce plaintext aad : Bytes) → Bytes
  pub open_with : (key nonce sealed aad : Bytes) → Option Bytes
  pub length-seal : (k n p a : Bytes) → length (seal k n p a) ≡ length p + 16
  pub open-seal :
      (k n p a : Bytes)
      → length k ≡ key_size
      → length n ≡ nonce_size
      → open_with k n (seal k n p a) a ≡ some p

pub data Refusal : Type 0 where
  no_file is_directory loose_mode unreadable not_json no_current no_keys empty_version bad_base64
        wrong_size current_missing not_loaded not_sealed wrong_key :
      Refusal

pub data Answer {ℓ} (A : Type ℓ) : Type ℓ where
  ok : A → Answer A
  err : Refusal → Answer A

-- `fileKeyring`.
pub record Keyring : Type 0 where
  pub current : String
  pub keys : List (String × Bytes)

abbrev pub lookup : String → List (String × Bytes) → Option Bytes
lookup v [] = none
lookup v ((w, k) ∷ ks) = let rest = lookup v ks in if str_eq w v then some k else rest

-- What the disk answers for a path: whether it is a directory and the permission bits, and what is in
-- it, with the keys in the order of their versions.
pub data Content : Type 0 where
  no_read : Content
  no_json : Content
  master_keys : (current : String) → (keys : List (String × String)) → Content

pub record KeyFile : Type 0 where
  pub is_dir : Bool
  pub mode : ℕ
  pub content : Content

-- `mode & 0o077 == 0`.
abbrev pub is_private : ℕ → Bool
is_private mode = mode % 64 == 0

module _ (decode : String → Option Bytes) where
  abbrev sized : Option Bytes → Answer Bytes
  sized none = err bad_base64
  sized (some raw) = if length raw == key_size then ok raw else err wrong_size

  abbrev pub key_of : String → String → Answer Bytes
  key_of version text = if str_eq version "" then err empty_version else sized (decode text)

  abbrev pub add_key :
      String → Answer Bytes → Answer (List (String × Bytes)) → Answer (List (String × Bytes))
  add_key version (err e) rest = err e
  add_key version (ok k) (err e) = err e
  add_key version (ok k) (ok ks) = ok ((version, k) ∷ ks)

  unfoldable pub load_keys : List (String × String) → Answer (List (String × Bytes))
  load_keys [] = ok []
  load_keys ((version, text) ∷ more) = add_key version (key_of version text) (load_keys more)

  abbrev pub ring_if : String → List (String × Bytes) → Option Bytes → Answer Keyring
  ring_if current keys none = err current_missing
  ring_if current keys (some k) = ok (record { current = current; keys = keys })

  abbrev pub ring_of : String → Answer (List (String × Bytes)) → Answer Keyring
  ring_of current (err e) = err e
  ring_of current (ok keys) = ring_if current keys (lookup current keys)

  abbrev pub ring_from : Content → Answer Keyring
  ring_from no_read = err unreadable
  ring_from no_json = err not_json
  ring_from (master_keys current []) = if str_eq current "" then err no_current else err no_keys
  ring_from (master_keys current (k ∷ ks)) =
      if str_eq current "" then err no_current else ring_of current (load_keys (k ∷ ks))

  -- `NewFileKeyring`.
  unfoldable pub new_file_keyring : Option KeyFile → Answer Keyring
  new_file_keyring none = err no_file
  new_file_keyring (some f) =
      if f.is_dir
      then err is_directory
      else if not (is_private f.mode)
      then err loose_mode
      else ring_from f.content

-- The random bytes of one `Seal`.
pub record Draws : Type 0 where
  pub data_key : Bytes
  pub wrap_nonce : Bytes
  pub data_nonce : Bytes

module _ (c : Aead) where
  abbrev pub blob : Bytes → Bytes → Bytes → Draws → Bytes
  blob master plaintext aad d =
      magic
      ++ (d.wrap_nonce
          ++ (c.seal master d.wrap_nonce d.data_key aad
              ++ (d.data_nonce ++ c.seal d.data_key d.data_nonce plaintext aad)))

  -- `Seal`: the blob and the version of the key that wrapped it.
  unfoldable pub seal : Keyring → Draws → Bytes → Bytes → Answer (Bytes × String)
  seal ring d plaintext aad = elim (lookup ring.current ring.keys) [
    | none ↦ err not_loaded
    | some master ↦ ok (blob master plaintext aad d, ring.current)
  ]

  abbrev pub opened : Option Bytes → Answer Bytes
  opened none = err wrong_key
  opened (some p) = ok p

  abbrev pub open_data : Bytes → Bytes → Bytes → Option Bytes → Answer Bytes
  open_data nonce sealed aad none = err wrong_key
  open_data nonce sealed aad (some key) = opened (c.open_with key nonce sealed aad)

  -- What is behind the magic, cut into its parts.
  abbrev pub open_parts : Bytes → Bytes → Bytes → Answer Bytes
  open_parts master aad rest =
      let rest1 = drop nonce_size rest in
      let rest2 = drop wrapped_size rest1 in
      open_data (take nonce_size rest2) (drop nonce_size rest2) aad
        (c.open_with master (take nonce_size rest) (take wrapped_size rest1) aad)

  abbrev pub open_under : Option Bytes → Bytes → Bytes → Answer Bytes
  open_under none rest aad = err wrong_key
  open_under (some master) rest aad = open_parts master aad rest

  -- `Open`.
  unfoldable pub open_blob : Keyring → Bytes → String → Bytes → Answer Bytes
  open_blob ring b version aad =
      if ltb (length b) min_blob_size || not (same_bytes (take (length magic) b) magic)
      then err not_sealed
      else open_under (lookup version ring.keys) (drop (length magic) b) aad

  abbrev pub seal_again : Keyring → Draws → Bytes → Answer Bytes → Answer (Bytes × String)
  seal_again ring d aad (err e) = err e
  seal_again ring d aad (ok plaintext) = seal ring d plaintext aad

  -- `Reseal`.
  unfoldable pub reseal : Keyring → Draws → Bytes → String → Bytes → Answer (Bytes × String)
  reseal ring d b version aad =
      if str_eq version ring.current
      then ok (b, version)
      else seal_again ring d aad (open_blob ring b version aad)
