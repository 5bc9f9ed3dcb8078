-- ===== src/Base/Lists.antt =====
-- Lists measured by native numbers, and predicates on all members.
use Prim.Native.Nat.{ℕ, suc, ◌+◌}
use mathlib.Core.Path.{◌≡◌, refl}
use mathlib.Core.List.{List, [], ◌∷◌, ◌++◌, map, Memᴰ}
use native.Mathlib.Omega.{arith}

module _ {ℓ} {A : Type ℓ} where
  abbrev pub length : List A → ℕ
  length [] = 0
  length (x ∷ xs) = suc (length xs)

  pub length-append : (xs ys : List A) → length (xs ++ ys) ≡ length xs + length ys
  length-append [] ys = omega arith
  length-append (x ∷ xs) ys = omega (arith, length-append xs ys)

  abbrev pub All {κ} : (A → Type κ) → List A → Type κ
  All P [] = Unit
  All P (x ∷ xs) = P x × All P xs

  pub All-Memᴰ {κ} : (P : A → Type κ) (xs : List A) (x : A) → All P xs → Memᴰ x xs → P x
  All-Memᴰ P [] x h m = elim m [ ]
  All-Memᴰ P (y ∷ ys) x h (Memᴰ.head e) = rw e h.0
  All-Memᴰ P (y ∷ ys) x h (Memᴰ.tail m) = All-Memᴰ P ys x h.1 m

  pub All-of_Memᴰ {κ} : (P : A → Type κ) (xs : List A) → ((x : A) → Memᴰ x xs → P x) → All P xs
  All-of_Memᴰ P [] h = tt
  All-of_Memᴰ P (x ∷ xs) h = (h x (Memᴰ.head refl), All-of_Memᴰ P xs (λ y m. h y (Memᴰ.tail m)))

  pub All-append {κ} : (P : A → Type κ) (xs ys : List A) → All P xs → All P ys → All P (xs ++ ys)
  All-append P [] ys hx hy = hy
  All-append P (x ∷ xs) ys hx hy = (hx.0, All-append P xs ys hx.1 hy)

  pub All-imp {κ μ} :
      (P : A → Type κ) (Q : A → Type μ) (xs : List A) → ((x : A) → P x → Q x) → All P xs → All Q xs
  All-imp P Q [] f h = tt
  All-imp P Q (x ∷ xs) f h = (f x h.0, All-imp P Q xs f h.1)

module _ {ℓ μ} {A : Type ℓ} {B : Type μ} where
  pub All-map {κ ν} :
      (P : A → Type κ) (Q : B → Type ν) (f : A → B) (xs : List A)
      → ((x : A) → P x → Q (f x))
      → All P xs
      → All Q (map f xs)
  All-map P Q f [] step h = tt
  All-map P Q f (x ∷ xs) step h = (step x h.0, All-map P Q f xs step h.1)

  -- The same where the step may use that the row is in the list.
  pub All-map_mem {κ ν} :
      (P : A → Type κ) (Q : B → Type ν) (f : A → B) (xs : List A)
      → ((x : A) → Memᴰ x xs → P x → Q (f x))
      → All P xs
      → All Q (map f xs)
  All-map_mem P Q f [] step h = tt
  All-map_mem P Q f (x ∷ xs) step h =
      (step x (Memᴰ.head refl) h.0, All-map_mem P Q f xs (λ y m. step y (Memᴰ.tail m)) h.1)
