-- ===== src/SignIn/HashText.antt =====
-- Password hashes as text: `VerifyPassword` of go/internal/authn/password.go reads what `HashPassword`
-- prints.
use Prim.Native.Char.{code}
use Prim.Native.String.{◌++◌}
use Prim.Native.String.append
use text.Mathlib.TextLemmas.{append_assoc, append-nil as append_nil}
use ai_env_mgr.Base.{
  ℕ, ◌^◌, ◌≤◌, ◌<◌, ◌≡◌, refl, sym, ap, ◌∙◌, inl, inr, String, true, false, some, [], ◌∷◌, arith,
  Bool-cases, str_eq, ◌==◌, if◌then◌else◌, length, same_bytes, ==_refl,
}
use ai_env_mgr.SignIn.{Bytes, Crypto}
use ai_env_mgr.SignIn.Passwords.{
  split_dollars, argon_version, argon_time, argon_memory, parse_hash, hash_of_parts, hash_from,
  matches, mismatch, verify_password, literal, field_after, with_memory, with_time, with_threads,
  argon_threads, scan_version, scan_params,
}
use ai_env_mgr.SignIn.Printing.{
  has_dollar, starts_with_digit, Printer, hash_text, version_text, params_text, hash_password,
}

has_dollar-append :
    (s t : String) → has_dollar s ≡ false → has_dollar t ≡ false → has_dollar (s ++ t) ≡ false
unfolding has_dollar
has_dollar-append String.[] t h k = ap has_dollar (λ i. append.nil t i) ∙ k
has_dollar-append (String.◌∷◌ c s) t h k =
    ap has_dollar (λ i. append.cons c s t i) ∙ (elim (Bool-cases (code c == 36)) [
      | inl e ↦ absurd (ground arith)
      | inr e ↦ rw e (has_dollar-append s t (rw e at h) k)
    ])

literal-append : (s t : String) → literal s (s ++ t) ≡ some t
literal-append String.[] t = ap (literal "") (λ i. append.nil t i)
literal-append (String.◌∷◌ c s) t =
    ap (literal (String.◌∷◌ c s)) (λ i. append.cons c s t i)
    ∙ rw (==_refl (code c)) (literal-append s t)

-- No digit follows a number in the format.
comma-first : (s t : String) → starts_with_digit (String.◌∷◌ "," s ++ t) ≡ false
comma-first s t = ap starts_with_digit (λ i. append.cons "," s t i)

module _ (c : Crypto) (p : Printer c) where
  scan_version-text : scan_version c (version_text (p.decimal argon_version)) ≡ some argon_version
  unfolding scan_version
  scan_version-text =
      rw (literal-append "v=" (p.decimal argon_version), scan_version)
        (p.scan_int-decimal argon_version (omega arith))

  field_after-text :
      (text rest : String) (bits n : ℕ)
      → n < 2 ^ bits
      → starts_with_digit rest ≡ false
      → field_after c text bits (text ++ (p.decimal n ++ rest)) ≡ some (n, rest)
  field_after-text text rest bits n small plain =
      rw (literal-append text (p.decimal n ++ rest), field_after)
        (p.scan_uint-decimal bits n rest small plain)

  last_field :
      (text : String) (bits n : ℕ)
      → n < 2 ^ bits
      → field_after c text bits (text ++ p.decimal n) ≡ some (n, "")
  last_field text bits n small =
      ap (λ v. field_after c text bits (text ++ v)) (sym (append_nil (p.decimal n)))
      ∙ field_after-text text "" bits n small refl

  scan_params-text :
      (m t th : ℕ)
      → m < 2 ^ 32
      → t < 2 ^ 32
      → th < 2 ^ 8
      → scan_params c (params_text (p.decimal m) (p.decimal t) (p.decimal th)) ≡ some (m, t, th)
  unfolding scan_params
  scan_params-text m t th hm ht hp =
      ap (with_memory c) (
        field_after-text "m=" (",t=" ++ (p.decimal t ++ (",p=" ++ p.decimal th))) 32 m hm
          (comma-first "t=" (p.decimal t ++ (",p=" ++ p.decimal th))))
      ∙ ap (with_time c m)
          (field_after-text ",t=" (",p=" ++ p.decimal th) 32 t ht (comma-first "p=" (p.decimal th)))
      ∙ ap (with_threads c m t) (last_field ",p=" 8 th hp)

  params_text-plain :
      (m t th : ℕ) → has_dollar (params_text (p.decimal m) (p.decimal t) (p.decimal th)) ≡ false
  unfolding has_dollar
  params_text-plain m t th =
      let last = has_dollar-append ",p=" (p.decimal th) refl (p.decimal-plain th) in
      let time = has_dollar-append (p.decimal t) (",p=" ++ p.decimal th) (p.decimal-plain t) last in
      let middle = has_dollar-append ",t=" (p.decimal t ++ (",p=" ++ p.decimal th)) refl time in
      has_dollar-append "m=" (p.decimal m ++ (",t=" ++ (p.decimal t ++ (",p=" ++ p.decimal th))))
        refl
        (has_dollar-append (p.decimal m) (",t=" ++ (p.decimal t ++ (",p=" ++ p.decimal th)))
          (p.decimal-plain m) middle)

  version_text-plain : has_dollar (version_text (p.decimal argon_version)) ≡ false
  unfolding has_dollar
  version_text-plain =
      has_dollar-append "v=" (p.decimal argon_version) refl (p.decimal-plain argon_version)

split_plain : (s : String) → has_dollar s ≡ false → split_dollars s ≡ s ∷ []
unfolding has_dollar split_dollars
split_plain String.[] h = refl
split_plain (String.◌∷◌ c s) h = elim (Bool-cases (code c == 36)) [
  | inl e ↦ absurd (ground arith)
  | inr e ↦ rw (e, split_plain s (rw e at h)) refl
]

split-dollar : (t : String) → split_dollars ("$" ++ t) ≡ "" ∷ split_dollars t
unfolding split_dollars
split-dollar t =
    ap split_dollars ((λ i. append.cons "$" "" t i) ∙ ap (String.◌∷◌ "$") (λ i. append.nil t i))

split-append :
    (s t : String) → has_dollar s ≡ false → split_dollars (s ++ ("$" ++ t)) ≡ s ∷ split_dollars t
unfolding has_dollar split_dollars
split-append String.[] t h = ap split_dollars (λ i. append.nil ("$" ++ t) i) ∙ split-dollar t
split-append (String.◌∷◌ c s) t h = elim (Bool-cases (code c == 36)) [
  | inl e ↦ absurd (ground arith)
  | inr e ↦
      ap split_dollars (λ i. append.cons c s ("$" ++ t) i)
      ∙ rw (e, split-append s t (rw e at h)) refl
]

nothing-plain : has_dollar "" ≡ false
unfolding has_dollar
nothing-plain = refl

kind-plain : has_dollar "argon2id" ≡ false
unfolding has_dollar
kind-plain = refl

opened : (t : String) → "$argon2id$" ++ t ≡ "" ++ ("$" ++ ("argon2id" ++ ("$" ++ t)))
opened t =
    append_assoc "$argon2id" "$" t
    ∙ append_assoc "$" "argon2id" ("$" ++ t)
    ∙ sym (λ i. append.nil ("$" ++ ("argon2id" ++ ("$" ++ t))) i)

split_hash :
    (v m a b : String)
    → has_dollar v ≡ false
    → has_dollar m ≡ false
    → has_dollar a ≡ false
    → has_dollar b ≡ false
    → split_dollars (hash_text v m a b) ≡ "" ∷ "argon2id" ∷ v ∷ m ∷ a ∷ b ∷ []
split_hash v m a b hv hm ha hb =
    ap split_dollars (opened (v ++ ("$" ++ (m ++ ("$" ++ (a ++ ("$" ++ b)))))))
    ∙ split-append "" _ nothing-plain
    ∙ ap (λ ps. "" ∷ ps)
        (split-append "argon2id" _ kind-plain
          ∙ ap (λ ps. "argon2id" ∷ ps)
              (split-append v _ hv
                ∙ ap (λ ps. v ∷ ps)
                    (split-append m _ hm
                      ∙ ap (λ ps. m ∷ ps)
                          (split-append a b ha ∙ ap (λ ps. a ∷ ps) (split_plain b hb)))))

hash_from-some :
    (m t p : ℕ) (salt sum : Bytes)
    → 0 < length sum
    → hash_from (some (m, t, p)) (some salt) (some sum)
      ≡ some (record { memory = m; time = t; threads = p; salt = salt; sum = sum })
hash_from-some m t p salt [] h = absurd (omega (arith, h))
hash_from-some m t p salt (b ∷ sum) h = refl

parse_hash_text :
    (c : Crypto) (p : Printer c) (m t th : ℕ) (salt sum : Bytes)
    → m < 2 ^ 32
    → t < 2 ^ 32
    → th < 2 ^ 8
    → 0 < length sum
    → parse_hash c (
        hash_text
          (version_text (p.decimal argon_version))
          (params_text (p.decimal m) (p.decimal t) (p.decimal th))
          (p.encode salt)
          (p.encode sum))
      ≡ some (record { memory = m; time = t; threads = th; salt = salt; sum = sum })
unfolding parse_hash
parse_hash_text c p m t th salt sum hm ht hp h =
    ap (hash_of_parts c) (
      split_hash (version_text (p.decimal argon_version))
        (params_text (p.decimal m) (p.decimal t) (p.decimal th)) (p.encode salt) (p.encode sum)
        (version_text-plain c p) (params_text-plain c p m t th) (p.encode-plain salt)
        (p.encode-plain sum))
    ∙ rw
        (
          scan_version-text c p,
          scan_params-text c p m t th hm ht hp,
          p.decode-encode salt,
          p.decode-encode sum,
        )
        (hash_from-some m t th salt sum h)

same_bytes_refl : (b : Bytes) → same_bytes b b ≡ true
same_bytes_refl [] = refl
same_bytes_refl (x ∷ b) = rw (==_refl x) (same_bytes_refl b)

argon_threads_bounds : (cpus : ℕ) → (1 ≤ argon_threads cpus) × (argon_threads cpus < 2 ^ 8)
unfolding argon_threads
argon_threads_bounds cpus = (ground arith, ground arith)

-- The text that `HashPassword` gives for a password is verified with that password, and with any other
-- exactly when the key derived from the other is the same bytes.
pub hash_password-verify_password :
    (c : Crypto) (p : Printer c) (salt : Bytes) (cpus : ℕ) (password text other : String)
    → hash_password c p salt cpus password ≡ some text
    → (verify_password c text password ≡ matches)
      × (verify_password c text other ≡ (
          if same_bytes
            (c.idkey other salt argon_time argon_memory (argon_threads cpus) 32)
            (c.idkey password salt argon_time argon_memory (argon_threads cpus) 32)
          then matches
          else mismatch))
unfolding verify_password hash_password
hash_password-verify_password c p salt cpus password text other h =
    elim (Bool-cases (str_eq password "")) [
      | inl e ↦ absurd (ground (arith, rw e at h))
      | inr e ↦
          let threads = argon_threads cpus in
          let (one, fits) = argon_threads_bounds cpus in
          let sum = c.idkey password salt argon_time argon_memory threads 32 in
          let long =
            p.length-idkey password salt argon_time argon_memory threads 32 (omega arith) one in
          let same : hash_text (version_text (p.decimal argon_version))
                (params_text (p.decimal argon_memory) (p.decimal argon_time) (p.decimal threads))
                (p.encode salt) (p.encode sum)
              ≡ text =
            ground (arith, rw e at h) in
          let read =
            parse_hash_text c p argon_memory argon_time threads salt sum (omega arith) (omega arith)
              fits (omega (arith, long)) in
          rw (← same, read, long) (rw (same_bytes_refl sum) refl, refl)
    ]
