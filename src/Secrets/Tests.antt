-- ===== src/Secrets/Tests.antt =====
-- Sealing with a toy cipher, and the theorems at inputs that meet their hypotheses.
use ai_env_mgr.Base.{
  ℕ, zero, suc, ◌-◌, ◌≡◌, refl, ap, String, false, Option, none, some, [], ◌∷◌, ◌++◌, arith, str_eq,
  length, length-append, take, take-append, if◌then◌else◌,
}
use ai_env_mgr.Secrets.{
  Bytes, Aead, ok, err, Keyring, master_keys, KeyFile, load_keys, new_file_keyring, Draws, seal,
  open_blob, reseal, blob, loose_mode,
}
use ai_env_mgr.Secrets.RoundTrip.{Sized, seal-open, reseal-open}

abbrev zeros : ℕ → Bytes
zeros zero = []
zeros (suc n) = 0 ∷ zeros n

-- The plaintext with a tag of sixteen zeros.
tag-off : (p : Bytes) → take (length (p ++ zeros 16) - 16) (p ++ zeros 16) ≡ p
tag-off p =
    let long = length-append p (zeros 16) in
    take-append p (zeros 16) (length (p ++ zeros 16) - 16) (omega (arith, long))

abbrev plain : Aead
plain = record {
  seal = λ k n p a. p ++ zeros 16;
  open_with = λ k n s a. some (take (length s - 16) s);
  length-seal = λ k n p a. length-append p (zeros 16);
  open-seal = λ k n p a hk hn. ap some (tag-off p);
}

abbrev decode : String → Option Bytes
decode text = if str_eq text "a" then some (zeros 32) else none

abbrev draws : Draws
draws = record { data_key = zeros 32; wrap_nonce = zeros 12; data_nonce = zeros 12 }

abbrev key_file : KeyFile
key_file = record {
  is_dir = false;
  mode = 384;
  content = master_keys "k2" (("k1", "a") ∷ ("k2", "a") ∷ []);
}

abbrev ring : Keyring
ring = record { current = "k2"; keys = ("k1", zeros 32) ∷ ("k2", zeros 32) ∷ [] }

loads : new_file_keyring decode (some key_file) ≡ ok ring
unfolding new_file_keyring load_keys
loads = refl

draws-Sized : Sized draws
draws-Sized = record { key = refl; wrap = refl; data_nonce = refl }

-- A file that its group can read is refused.
refuses_loose : new_file_keyring decode (some (record key_file { mode = 416 })) ≡ err loose_mode
unfolding new_file_keyring
refuses_loose = refl

seal-open_example :
    (b : Bytes) × (seal plain ring draws (7 ∷ 8 ∷ []) (1 ∷ []) ≡ ok (b, "k2"))
    × (open_blob plain ring b "k2" (1 ∷ []) ≡ ok (7 ∷ 8 ∷ []))
seal-open_example =
    seal-open plain decode (some key_file) ring draws (7 ∷ 8 ∷ []) (1 ∷ []) loads draws-Sized

abbrev stored : Bytes
stored = blob plain (zeros 32) (7 ∷ 8 ∷ []) (1 ∷ []) draws

old_opens : open_blob plain ring stored "k1" (1 ∷ []) ≡ ok (7 ∷ 8 ∷ [])
unfolding open_blob
old_opens = refl

reseal-open_example :
    (b' : Bytes) × (reseal plain ring draws stored "k1" (1 ∷ []) ≡ ok (b', "k2"))
    × (open_blob plain ring b' "k2" (1 ∷ []) ≡ ok (7 ∷ 8 ∷ []))
reseal-open_example =
    reseal-open plain decode (some key_file) ring draws stored (1 ∷ []) "k1" (7 ∷ 8 ∷ []) loads
      draws-Sized old_opens
