-- ===== src/Secrets/RoundTrip.antt =====
-- What was sealed opens: `Seal`, `Open` and `Reseal` of go/internal/secrets, with a ring that
-- `NewFileKeyring` has loaded.
use ai_env_mgr.Base.{
  ◌+◌, ◌≡◌, refl, ap, ◌∙◌, subst, inl, inr, String, false, Option, none, some, List, [], ◌∷◌, ◌++◌,
  arith, Bool-cases, Option-cases, str_eq, eq_iff, ltb, ◌==◌, ==_iff, length, length-append,
  take-append, drop-append, All,
}
use ai_env_mgr.Secrets.{
  Bytes, key_size, nonce_size, wrapped_size, min_blob_size, Aead, Answer, ok, err, Refusal, Keyring,
  lookup, Content, no_read, no_json, master_keys, KeyFile, is_private, key_of, add_key, load_keys,
  ring_of, ring_from, new_file_keyring, Draws, blob, seal, open_parts, open_blob, reseal,
}

-- The draws have the sizes that `Seal` asks the random source for.
pub record Sized (d : Draws) : Type 0 where
  pub key : length d.data_key ≡ key_size
  pub wrap : length d.wrap_nonce ≡ nonce_size
  pub data_nonce : length d.data_nonce ≡ nonce_size

-- A ring that can seal, and whose keys have the right size.
pub record IsUsable (ring : Keyring) : Type 0 where
  pub master : Bytes
  pub loaded : lookup ring.current ring.keys ≡ some master
  pub sized : All (λ (e : String × Bytes). length e.1 ≡ key_size) ring.keys

lookup-All :
    (P : Bytes → Type 0) (v : String) (ks : List (String × Bytes)) (k : Bytes)
    → All (λ (e : String × Bytes). P e.1) ks
    → lookup v ks ≡ some k
    → P k
lookup-All P v [] k all h = absurd (ground arith)
lookup-All P v ((w, x) ∷ ks) k all h = elim (Bool-cases (str_eq w v)) [
  | inl e ↦ let same : x ≡ k = ground arith in subst P same all.0
  | inr e ↦ lookup-All P v ks k all.1 (ground arith)
]

module _ (c : Aead) (d : Draws) (sized : Sized d) where
  open_parts-blob :
      (master plaintext aad : Bytes)
      → length master ≡ key_size
      → open_parts c master aad (
          d.wrap_nonce
          ++ (c.seal master d.wrap_nonce d.data_key aad
              ++ (d.data_nonce ++ c.seal d.data_key d.data_nonce plaintext aad)))
        ≡ ok plaintext
  open_parts-blob master plaintext aad k =
      let w = c.seal master d.wrap_nonce d.data_key aad in
      let tail = d.data_nonce ++ c.seal d.data_key d.data_nonce plaintext aad in
      let long : length w ≡ wrapped_size =
        c.length-seal master d.wrap_nonce d.data_key aad ∙ ap (λ n. n + 16) sized.key in
      rw (
        take-append d.wrap_nonce (w ++ tail) nonce_size sized.wrap,
        drop-append d.wrap_nonce (w ++ tail) nonce_size sized.wrap,
        take-append w tail wrapped_size long,
        drop-append w tail wrapped_size long,
        take-append d.data_nonce (c.seal d.data_key d.data_nonce plaintext aad) nonce_size
            sized.data_nonce,
        drop-append d.data_nonce (c.seal d.data_key d.data_nonce plaintext aad) nonce_size
            sized.data_nonce,
        c.open-seal master d.wrap_nonce d.data_key aad k sized.wrap,
        c.open-seal d.data_key d.data_nonce plaintext aad sized.key sized.data_nonce,
      )

  length-blob :
      (master plaintext aad : Bytes)
      → ltb (length (blob c master plaintext aad d)) min_blob_size ≡ false
  length-blob master plaintext aad =
      let w = c.seal master d.wrap_nonce d.data_key aad in
      let s = c.seal d.data_key d.data_nonce plaintext aad in
      let a = length-append d.wrap_nonce (w ++ (d.data_nonce ++ s)) in
      let b = length-append w (d.data_nonce ++ s) in
      let e = length-append d.data_nonce s in
      let lw = c.length-seal master d.wrap_nonce d.data_key aad in
      let ls = c.length-seal d.data_key d.data_nonce plaintext aad in
      ground (arith, a, b, e, lw, ls, sized.key, sized.wrap, sized.data_nonce)

  open_blob-blob :
      (ring : Keyring) (version : String) (master plaintext aad : Bytes)
      → lookup version ring.keys ≡ some master
      → length master ≡ key_size
      → open_blob c ring (blob c master plaintext aad d) version aad ≡ ok plaintext
  unfolding open_blob
  open_blob-blob ring version master plaintext aad h k =
      rw (length-blob master plaintext aad, h, open_blob) (open_parts-blob master plaintext aad k)

module _ (decode : String → Option Bytes) where
  key_of-ok :
      (version text : String) (k : Bytes) → key_of decode version text ≡ ok k → length k ≡ key_size
  key_of-ok version text k h = elim (Bool-cases (str_eq version "")) [
    | inl e ↦ absurd (ground arith)
    | inr e ↦ elim (Option-cases (decode text)) [
      | inl n ↦ absurd (clash (rw (e, n) at h))
      | inr (raw, n) ↦ elim (Bool-cases (length raw == key_size)) [
        | inl s ↦
            let same : raw ≡ k = ground arith in
            subst (λ v. length v ≡ key_size) same ((==_iff (length raw) key_size).0 s)
        | inr s ↦ absurd (ground arith)
      ]
    ]
  ]
    where
      clash : ◌≡◌ {A = Answer Bytes} (err Refusal.bad_base64) (ok k) → ⊥
      clash e = ground arith

  load_keys-sized :
      (texts : List (String × String)) (ks : List (String × Bytes))
      → load_keys decode texts ≡ ok ks
      → All (λ (e : String × Bytes). length e.1 ≡ key_size) ks
  unfolding load_keys
  load_keys-sized [] ks h =
      let none_left : [] ≡ ks = ground arith in
      subst (All (λ (e : String × Bytes). length e.1 ≡ key_size)) none_left tt
  load_keys-sized ((version, text) ∷ more) ks h =
      added (key_of decode version text) (load_keys decode more) (key_of-ok version text)
        (load_keys-sized more) ks h
    where
      added :
          (a : Answer Bytes) (rest : Answer (List (String × Bytes)))
          → ((k : Bytes) → a ≡ ok k → length k ≡ key_size)
          → ((us : List (String × Bytes))
              → rest ≡ ok us
              → All (λ (e : String × Bytes). length e.1 ≡ key_size) us)
          → (us : List (String × Bytes)) → add_key decode version a rest ≡ ok us
          → All (λ (e : String × Bytes). length e.1 ≡ key_size) us
      added (err e) rest one all us g = absurd (ground arith)
      added (ok k) (err e) one all us g = absurd (ground arith)
      added (ok k) (ok vs) one all us g =
          let same : (version, k) ∷ vs ≡ us = ground arith in
          subst (All (λ (e : String × Bytes). length e.1 ≡ key_size)) same (one k refl, all vs refl)

  ring_of-IsUsable :
      (current : String) (a : Answer (List (String × Bytes))) (ring : Keyring)
      → ((ks : List (String × Bytes))
          → a ≡ ok ks
          → All (λ (e : String × Bytes). length e.1 ≡ key_size) ks)
      → ring_of decode current a ≡ ok ring
      → IsUsable ring
  ring_of-IsUsable current (err e) ring all h = absurd (ground arith)
  ring_of-IsUsable current (ok ks) ring all h = elim (Option-cases (lookup current ks)) [
    | inl n ↦ absurd (clash (rw n at h))
    | inr (k, n) ↦
        let made : record { current = current; keys = ks } ≡ ring = same_ring (rw n at h) in
        subst IsUsable made (record { master = k; loaded = n; sized = all ks refl })
  ]
    where
      clash : ◌≡◌ {A = Answer Keyring} (err Refusal.current_missing) (ok ring) → ⊥
      clash e = ground arith

      same_ring :
          ◌≡◌ {A = Answer Keyring} (ok (record { current = current; keys = ks })) (ok ring)
          → record { current = current; keys = ks } ≡ ring
      same_ring e = ground arith

  content-IsUsable : (t : Content) (ring : Keyring) → ring_from decode t ≡ ok ring → IsUsable ring
  content-IsUsable no_read ring h = absurd (ground arith)
  content-IsUsable no_json ring h = absurd (ground arith)
  content-IsUsable (master_keys current []) ring h = absurd (ground arith)
  content-IsUsable (master_keys current (k ∷ ks)) ring h = elim (Bool-cases (str_eq current "")) [
    | inl e ↦ absurd (ground arith)
    | inr e ↦
        ring_of-IsUsable current (load_keys decode (k ∷ ks)) ring (load_keys-sized (k ∷ ks))
          (rw e at h)
  ]

  -- A ring that was loaded has its current key, and keys of 32 bytes.
  new_file_keyring-IsUsable :
      (f : Option KeyFile) (ring : Keyring) → new_file_keyring decode f ≡ ok ring → IsUsable ring
  unfolding new_file_keyring
  new_file_keyring-IsUsable none ring h = absurd (ground arith)
  new_file_keyring-IsUsable (some f) ring h = elim (Bool-cases f.is_dir) [
    | inl e ↦ absurd (ground arith)
    | inr e ↦ elim (Bool-cases (is_private f.mode)) [
      | inr p ↦ absurd (ground arith)
      | inl p ↦ content-IsUsable f.content ring (rw (e, p) at h)
    ]
  ]

seal-opens :
    (c : Aead) (d : Draws) (ring : Keyring) (plaintext aad : Bytes)
    → Sized d
    → IsUsable ring
    → (b : Bytes) × (seal c ring d plaintext aad ≡ ok (b, ring.current))
      × (open_blob c ring b ring.current aad ≡ ok plaintext)
unfolding seal
seal-opens c d ring plaintext aad sized u = (
  blob c u.master plaintext aad d,
  rw (u.loaded, seal),
  open_blob-blob c d sized ring ring.current u.master plaintext aad u.loaded
      (lookup-All (λ k. length k ≡ key_size) ring.current ring.keys u.master u.sized u.loaded),
)

-- With a ring that was loaded from a file, and random bytes of the sizes asked for, `Seal` succeeds
-- under the current version, and `Open` under that version and the same associated data gives back
-- what was sealed.
pub seal-open :
    (c : Aead) (decode : String → Option Bytes) (f : Option KeyFile) (ring : Keyring) (d : Draws)
    (plaintext aad : Bytes)
    → new_file_keyring decode f ≡ ok ring
    → Sized d
    → (b : Bytes) × (seal c ring d plaintext aad ≡ ok (b, ring.current))
      × (open_blob c ring b ring.current aad ≡ ok plaintext)
seal-open c decode f ring d plaintext aad h sized =
    seal-opens c d ring plaintext aad sized (new_file_keyring-IsUsable decode f ring h)

-- After a rotation: a stored value that the loaded ring opens under its old version is re-wrapped
-- under the current version, and still opens to the same value.
pub reseal-open :
    (c : Aead) (decode : String → Option Bytes) (f : Option KeyFile) (ring : Keyring) (d : Draws)
    (b aad : Bytes) (version : String) (plaintext : Bytes)
    → new_file_keyring decode f ≡ ok ring
    → Sized d
    → open_blob c ring b version aad ≡ ok plaintext
    → (b' : Bytes) × (reseal c ring d b version aad ≡ ok (b', ring.current))
      × (open_blob c ring b' ring.current aad ≡ ok plaintext)
unfolding reseal
reseal-open c decode f ring d b aad version plaintext h sized opens =
    elim (Bool-cases (str_eq version ring.current)) [
      | inl e ↦
          let same : version ≡ ring.current = (eq_iff version ring.current).0 e in
          (b, rw (e, reseal, same), subst (λ v. open_blob c ring b v aad ≡ ok plaintext) same opens)
      | inr e ↦
          let (b', sealed, reads) =
            seal-opens c d ring plaintext aad sized (new_file_keyring-IsUsable decode f ring h) in
          (b', rw (e, reseal, opens) sealed, reads)
    ]
