-- ===== src/SignIn/Recovery.antt =====
-- A recovery code is used up: `consumeRecoveryCode` of go/internal/authn/authn.go.
use ai_env_mgr.Base.{
  ℕ, suc, ◌≡◌, refl, ap, inl, inr, String, Bool, true, false, Option, none, some, List, [], ◌∷◌,
  arith, All, All-Memᴰ, Bool-cases, Option-cases, str_eq, ◌==◌, ==_iff, affected, length,
  update_where,
}
use mathlib.Core.List.{Memᴰ}
use ai_env_mgr.SignIn.{Admin, Store, Answer, ok, err, go_on, Clock, Crypto}
use ai_env_mgr.SignIn.Passwords.{normalize_recovery_code}
use ai_env_mgr.SignIn.Rows.{has_id, update_admin, replace_recovery_hashes, touched}
use ai_env_mgr.SignIn.Service.{is_match, without_match, consumed, consume_recovery_code}

module _ (c : Crypto) where
  -- The hashes that the code matches.
  unfoldable pub match_count : String → List String → ℕ
  match_count text hashes = affected (is_match c text) hashes

  without_match-count :
      (text : String) (hashes rest : List String)
      → without_match c text hashes ≡ some rest
      → (suc (match_count text rest) ≡ match_count text hashes)
        × (suc (length rest) ≡ length hashes)
  unfolding without_match match_count
  without_match-count text [] rest h = absurd (ground arith)
  without_match-count text (x ∷ xs) rest h = elim (Bool-cases (is_match c text x)) [
    | inl e ↦ let same : xs ≡ rest = ground (arith, rw e at h) in rw (e, ← same) (refl, refl)
    | inr e ↦ elim (Option-cases (without_match c text xs)) [
      | inl d ↦ absurd (ground arith)
      | inr (ys, d) ↦
          let both = without_match-count text xs ys d in
          let same : x ∷ ys ≡ rest = ground arith in rw (← same, e) (both.0, ap suc both.1)
    ]
  ]

  -- The store is the one that the update left, whatever it answered.
  after : (r : Answer (Unit {0})) (s : Store) → (go_on (s, r) (λ u t. (t, ok true))).0 ≡ s
  unfolding go_on
  after (ok u) s = refl
  after (err e) s = refl

  written-hashes :
      (id now : ℕ) (rest : List String) (rows : List Admin)
      → All
          (λ b. has_id id b ≡ true → b.recovery_hashes ≡ rest)
          (update_where
            (has_id id)
            (λ a. record a { recovery_hashes = rest; updated_at = now })
            rows)
  written-hashes id now rest [] = tt
  written-hashes id now rest (b ∷ rows) = (
    elim (Bool-cases (b.id == id)) [
      | inl e ↦ rw e (λ d. refl)
      | inr e ↦ rw e (λ d. absurd (ground arith))
    ],
    written-hashes id now rest rows,
  )

  consumed-hashes :
      (id now : ℕ) (found : Option (List String)) (s : Store)
      → (consumed c id now found s).1 ≡ ok true
      → (rest : List String) × ((found ≡ some rest)
          × All
              (λ b. has_id id b ≡ true → b.recovery_hashes ≡ rest)
              (consumed c id now found s).0.admins)
  unfolding replace_recovery_hashes
  consumed-hashes id now none s h = absurd (refused h)
    where
      refused : ◌≡◌ {A = Answer Bool} (ok false) (ok true) → ⊥
      refused e = cc
  consumed-hashes id now (some rest) s h = (
    rest,
    (
      refl,
      rw
          (after (touched (affected (has_id id) s.admins))
            (update_admin id (λ a. record a { recovery_hashes = rest; updated_at = now }) s).0)
          (written-hashes id now rest s.admins),
    ),
  )

  -- When a recovery code is accepted, every row of the account has one hash less that the code matches,
  -- and one hash less altogether, than the account that was read.
  pub consume_recovery_code-match_count :
      (a : Admin) (text : String) (k : Clock) (s : Store) (b : Admin)
      → (consume_recovery_code c a text k s).1 ≡ ok true
      → Memᴰ b (consume_recovery_code c a text k s).0.admins
      → b.id ≡ a.id
      → (suc (match_count (normalize_recovery_code c text) b.recovery_hashes)
          ≡ match_count (normalize_recovery_code c text) a.recovery_hashes)
        × (suc (length b.recovery_hashes) ≡ length a.recovery_hashes)
  unfolding consume_recovery_code
  consume_recovery_code-match_count a text k s b h m e =
      elim (Bool-cases (str_eq (normalize_recovery_code c text) "")) [
        | inl d ↦ absurd (refused (rw d at h))
        | inr d ↦
            let (rest, (found, all)) = consumed-hashes a.id k.db _ s (rw d at h) in
            let same = All-Memᴰ _ _ b all (rw d at m) ((==_iff b.id a.id).1 e) in
            rw same
              (without_match-count (normalize_recovery_code c text) a.recovery_hashes rest found)
      ]
    where
      refused : ◌≡◌ {A = Answer Bool} (ok false) (ok true) → ⊥
      refused e = cc
