-- ===== src/Base/Table.antt =====
-- Tables: lists of rows with `select`, `update ... where` and `returning`.
use Prim.Native.Nat.{ℕ}
use mathlib.Core.Path.{◌≡◌, refl, sym, ap, ◌∙◌}
use mathlib.Core.Option.{Option, none, some}
use mathlib.Core.List.{List, [], ◌∷◌, ◌++◌, map, Memᴰ}
use mathlib.Core.Bool.{Bool, true, false}
use mathlib.Core.Logic.{◌≢◌, inl, inr}
use native.Mathlib.Omega.{arith}
use ai_env_mgr.Base.Tests.{if◌then◌else◌, Bool-cases}
use ai_env_mgr.Base.Lists.{All, All-Memᴰ, length}

module _ {ℓ} {A : Type ℓ} where
  -- What `update t set f where p` does to one row.
  abbrev pub change : (A → Bool) → (A → A) → A → A
  change p f x = if p x then f x else x

  -- `update t set f where p`.
  abbrev pub update_where : (A → Bool) → (A → A) → List A → List A
  update_where p f rows = map (change p f) rows

  -- `select * from t where p`.
  abbrev pub select : (A → Bool) → List A → List A
  select p [] = []
  select p (x ∷ xs) = let rest = select p xs in if p x then x ∷ rest else rest

  -- The first row that `select` gives: what `QueryRow` scans.
  abbrev pub first : (A → Bool) → List A → Option A
  first p [] = none
  first p (x ∷ xs) = let rest = first p xs in if p x then some x else rest

  -- The number of rows that an `update` touches.
  abbrev pub affected : (A → Bool) → List A → ℕ
  affected p rows = length (select p rows)

  pub first-some :
      (p : A → Bool) (xs : List A) (x : A) → first p xs ≡ some x → (p x ≡ true) × Memᴰ x xs
  first-some p [] x h = absurd (ground arith)
  first-some p (y ∷ ys) x h = elim (Bool-cases (p y)) [
    | inl e ↦ let same : y ≡ x = ground arith in (rw (← same) e, Memᴰ.head (ground arith))
    | inr e ↦ let found = first-some p ys x (ground arith) in (found.0, Memᴰ.tail found.1)
  ]

  pub first-none : (p : A → Bool) (xs : List A) → first p xs ≡ none → All (λ x. p x ≡ false) xs
  first-none p [] h = tt
  first-none p (y ∷ ys) h = elim (Bool-cases (p y)) [
    | inl e ↦ absurd (ground arith)
    | inr e ↦ (e, first-none p ys (ground arith))
  ]

  pub first-none_of_All :
      (p : A → Bool) (xs : List A) → All (λ x. p x ≡ false) xs → first p xs ≡ none
  first-none_of_All p [] h = refl
  first-none_of_All p (y ∷ ys) h = rw h.0 (first-none_of_All p ys h.1)

  -- A row that alone passes the test is the first that does.
  pub first_of_only :
      (p : A → Bool) (xs : List A) (x : A)
      → Memᴰ x xs
      → p x ≡ true
      → ((y : A) → Memᴰ y xs → p y ≡ true → y ≡ x)
      → first p xs ≡ some x
  first_of_only p [] x m h only = elim m [ ]
  first_of_only p (y ∷ ys) x (Memᴰ.head e) h only = rw (← e, h)
  first_of_only p (y ∷ ys) x (Memᴰ.tail m) h only = elim (Bool-cases (p y)) [
    | inl d ↦ rw d (ap some (only y (Memᴰ.head refl) d))
    | inr d ↦ rw d (first_of_only p ys x m h (λ z n. only z (Memᴰ.tail n)))
  ]

  kept-Memᴰ :
      (p : A → Bool) (y : A) (ys zs : List A) (x : A)
      → p y ≡ true
      → Memᴰ x (y ∷ zs)
      → (Memᴰ x zs → (p x ≡ true) × Memᴰ x ys)
      → (p x ≡ true) × Memᴰ x (y ∷ ys)
  kept-Memᴰ p y ys zs x e (Memᴰ.head h) rest = (rw h e, Memᴰ.head h)
  kept-Memᴰ p y ys zs x e (Memᴰ.tail n) rest = let (d, m) = rest n in (d, Memᴰ.tail m)

  pub select-Memᴰ :
      (p : A → Bool) (xs : List A) (x : A) → Memᴰ x (select p xs) → (p x ≡ true) × Memᴰ x xs
  select-Memᴰ p [] x m = elim m [ ]
  select-Memᴰ p (y ∷ ys) x m = elim (Bool-cases (p y)) [
    | inl e ↦ kept-Memᴰ p y ys (select p ys) x e (rw e at m) (select-Memᴰ p ys x)
    | inr e ↦ let (d, n) = select-Memᴰ p ys x (rw e at m) in (d, Memᴰ.tail n)
  ]

  pub select-All {κ} :
      (P : A → Type κ) (p : A → Bool) (xs : List A)
      → All P (select p xs)
      → All (λ x. p x ≡ true → P x) xs
  select-All P p [] h = tt
  select-All P p (y ∷ ys) h = elim (Bool-cases (p y)) [
    | inl e ↦
        let both : All P (y ∷ select p ys) = rw e at h in ((λ d. both.0), select-All P p ys both.1)
    | inr e ↦ ((λ d. cc), select-All P p ys (rw e at h))
  ]

  pub select-nil : (p : A → Bool) (xs : List A) → select p xs ≡ [] → All (λ x. p x ≡ false) xs
  select-nil p [] h = tt
  select-nil p (y ∷ ys) h = elim (Bool-cases (p y)) [
    | inl e ↦ absurd (ground arith)
    | inr e ↦ (e, select-nil p ys (ground arith))
  ]

  pub select-nil_of_All :
      (p : A → Bool) (xs : List A) → All (λ x. p x ≡ false) xs → select p xs ≡ []
  select-nil_of_All p [] h = refl
  select-nil_of_All p (y ∷ ys) h = rw h.0 (select-nil_of_All p ys h.1)

  -- An update that matches no row changes nothing.
  pub update_where_id :
      (p : A → Bool) (f : A → A) (xs : List A)
      → All (λ x. p x ≡ false) xs
      → update_where p f xs ≡ xs
  update_where_id p f [] h = refl
  update_where_id p f (y ∷ ys) h = ground (arith, update_where_id p f ys h.1)

  pub change-Memᴰ :
      (p : A → Bool) (f : A → A) (xs : List A) (x : A)
      → Memᴰ x xs
      → Memᴰ (change p f x) (update_where p f xs)
  change-Memᴰ p f [] x m = elim m [ ]
  change-Memᴰ p f (y ∷ ys) x (Memᴰ.head e) = Memᴰ.head (ap (change p f) e)
  change-Memᴰ p f (y ∷ ys) x (Memᴰ.tail m) = Memᴰ.tail (change-Memᴰ p f ys x m)

-- Columns that identify a row: a primary key or a unique index.
module _ {ℓ κ} {A : Type ℓ} {K : Type κ} (key : A → K) where
  -- No row has this key.
  abbrev pub Absent : K → List A → Type κ
  Absent k rows = All (λ x. key x ≢ k) rows

  abbrev pub Unique : List A → Type κ
  Unique [] = Unit
  Unique (x ∷ xs) = Absent (key x) xs × Unique xs

  Absent-map :
      (f : A → A) (k : K) (xs : List A)
      → ((x : A) → Memᴰ x xs → key (f x) ≡ key x)
      → Absent k xs
      → Absent k (map f xs)
  Absent-map f k [] keep h = tt
  Absent-map f k (x ∷ xs) keep h = (
    (λ e. h.0 (sym (keep x (Memᴰ.head refl)) ∙ e)),
    Absent-map f k xs (λ y m. keep y (Memᴰ.tail m)) h.1,
  )

  -- An update that keeps the column keeps it unique.
  pub Unique-map :
      (f : A → A) (xs : List A)
      → ((x : A) → Memᴰ x xs → key (f x) ≡ key x)
      → Unique xs
      → Unique (map f xs)
  Unique-map f [] keep h = tt
  Unique-map f (x ∷ xs) keep h = (
    rw (keep x (Memᴰ.head refl)) (Absent-map f (key x) xs (λ y m. keep y (Memᴰ.tail m)) h.0),
    Unique-map f xs (λ y m. keep y (Memᴰ.tail m)) h.1,
  )

  pub Absent-append :
      (k : K) (xs : List A) (y : A) → Absent k xs → key y ≢ k → Absent k (xs ++ y ∷ [])
  Absent-append k [] y h n = (n, tt)
  Absent-append k (x ∷ xs) y h n = (h.0, Absent-append k xs y h.1 n)

  pub Unique-append : (xs : List A) (y : A) → Unique xs → Absent (key y) xs → Unique (xs ++ y ∷ [])
  Unique-append [] y u h = (tt, tt)
  Unique-append (x ∷ xs) y u h =
      (Absent-append (key x) xs y u.0 (λ e. h.0 (sym e)), Unique-append xs y u.1 h.1)

  pub Absent-Memᴰ : (k : K) (xs : List A) (x : A) → Absent k xs → Memᴰ x xs → key x ≢ k
  Absent-Memᴰ k xs x h m = All-Memᴰ (λ y. key y ≢ k) xs x h m

  -- Two rows with one key are the same row.
  pub Unique-eq :
      (xs : List A) (x y : A) → Unique xs → Memᴰ x xs → Memᴰ y xs → key x ≡ key y → x ≡ y
  Unique-eq [] x y u m n e = elim m [ ]
  Unique-eq (z ∷ zs) x y u (Memᴰ.head p) (Memᴰ.head q) e = p ∙ sym q
  Unique-eq (z ∷ zs) x y u (Memᴰ.head p) (Memᴰ.tail n) e =
      absurd (Absent-Memᴰ (key z) zs y u.0 n (sym e ∙ ap key p))
  Unique-eq (z ∷ zs) x y u (Memᴰ.tail m) (Memᴰ.head q) e =
      absurd (Absent-Memᴰ (key z) zs x u.0 m (e ∙ ap key q))
  Unique-eq (z ∷ zs) x y u (Memᴰ.tail m) (Memᴰ.tail n) e = Unique-eq zs x y u.1 m n e
