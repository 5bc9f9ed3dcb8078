-- ===== src/Version/Ordering.antt =====
-- `CompareVersions` of go/internal/model/version.go orders versions.
use Prim.Native.Char.{code}
use ai_env_mgr.Base.{ℕ, String, ◌≡◌, ◌≢◌, refl, List, [], ◌∷◌, arith}
use ai_env_mgr.Version.{
  Order, before, same, after, compare_number, or_else, compare_numbers, compare_text,
  compare_suffix, compare_parsed, compare_versions, split_version,
}

-- The comparison the other way round.
abbrev pub flip : Order → Order
flip before = after
flip same = same
flip after = before

-- What two comparisons in a row that do not go down make.
abbrev pub join : Order → Order → Order
join before o = before
join same o = o
join after o = after

flip-or_else : (o p o' p' : Order) → o' ≡ flip o → p' ≡ flip p → or_else o' p' ≡ flip (or_else o p)
flip-or_else before p o' p' h k = rw h refl
flip-or_else same p o' p' h k = rw h k
flip-or_else after p o' p' h k = rw h refl

compare_number-flip : (x y : ℕ) → compare_number y x ≡ flip (compare_number x y)
unfolding compare_number
compare_number-flip x y = ground arith

compare_numbers-flip : (xs ys : List ℕ) → compare_numbers ys xs ≡ flip (compare_numbers xs ys)
unfolding compare_numbers
compare_numbers-flip [] [] = refl
compare_numbers-flip (x ∷ xs) [] =
    flip-or_else _ _ _ _ (compare_number-flip x 0) (compare_numbers-flip xs [])
compare_numbers-flip [] (y ∷ ys) =
    flip-or_else _ _ _ _ (compare_number-flip 0 y) (compare_numbers-flip [] ys)
compare_numbers-flip (x ∷ xs) (y ∷ ys) =
    flip-or_else _ _ _ _ (compare_number-flip x y) (compare_numbers-flip xs ys)

compare_text-flip : (s t : String) → compare_text t s ≡ flip (compare_text s t)
unfolding compare_text
compare_text-flip String.[] String.[] = refl
compare_text-flip String.[] (String.◌∷◌ d t) = refl
compare_text-flip (String.◌∷◌ c s) String.[] = refl
compare_text-flip (String.◌∷◌ c s) (String.◌∷◌ d t) =
    flip-or_else _ _ _ _ (compare_number-flip (code c) (code d)) (compare_text-flip s t)

compare_suffix-flip : (s t : String) → compare_suffix t s ≡ flip (compare_suffix s t)
unfolding compare_suffix
compare_suffix-flip String.[] String.[] = refl
compare_suffix-flip String.[] (String.◌∷◌ d t) = refl
compare_suffix-flip (String.◌∷◌ c s) String.[] = refl
compare_suffix-flip (String.◌∷◌ c s) (String.◌∷◌ d t) =
    compare_text-flip (String.◌∷◌ c s) (String.◌∷◌ d t)

compare_parsed-flip : (a b : List ℕ × String) → compare_parsed b a ≡ flip (compare_parsed a b)
compare_parsed-flip (an, apre) (bn, bpre) =
    flip-or_else _ _ _ _ (compare_numbers-flip an bn) (compare_suffix-flip apre bpre)

-- Two versions compare the other way round when they are swapped.
pub compare_versions-flip : (a b : String) → compare_versions b a ≡ flip (compare_versions a b)
unfolding compare_versions
compare_versions-flip a b = compare_parsed-flip (split_version a) (split_version b)

-- Three comparisons that fit: two in a row that do not go down make the third.
abbrev Chained : Order → Order → Order → Type 0
Chained o p r = o ≢ after → p ≢ after → r ≡ join o p

Chained-or_else :
    (o p r o' p' r' : Order)
    → Chained o p r
    → Chained o' p' r'
    → Chained (or_else o o') (or_else p p') (or_else r r')
Chained-or_else before before r o' p' r' h k n m = rw (h n m) refl
Chained-or_else before same r o' p' r' h k n m = rw (h n (λ e. ground arith)) refl
Chained-or_else before after r o' p' r' h k n m = absurd (m refl)
Chained-or_else same before r o' p' r' h k n m = rw (h (λ e. ground arith) m) (ground arith)
Chained-or_else same same r o' p' r' h k n m =
    rw (h (λ e. ground arith) (λ e. ground arith)) (k n m)
Chained-or_else same after r o' p' r' h k n m = absurd (m refl)
Chained-or_else after p r o' p' r' h k n m = absurd (n refl)

compare_number-Chained :
    (x y z : ℕ) → Chained (compare_number x y) (compare_number y z) (compare_number x z)
unfolding compare_number
compare_number-Chained x y z n m = ground arith

join-same : (o : Order) → o ≢ after → o ≡ join o same
join-same before n = refl
join-same same n = refl
join-same after n = refl

compare_numbers-Chained :
    (xs ys zs : List ℕ)
    → Chained (compare_numbers xs ys) (compare_numbers ys zs) (compare_numbers xs zs)
unfolding compare_numbers compare_number
compare_numbers-Chained [] [] zs n m = refl
compare_numbers-Chained [] (y ∷ ys) [] n m =
    Chained-or_else _ _ same _ _ same (compare_number-Chained 0 y 0)
      (compare_numbers-Chained [] ys []) n m
compare_numbers-Chained [] (y ∷ ys) (z ∷ zs) n m =
    Chained-or_else _ _ _ _ _ _ (compare_number-Chained 0 y z) (compare_numbers-Chained [] ys zs) n
      m
compare_numbers-Chained (x ∷ xs) [] [] n m = join-same _ n
compare_numbers-Chained (x ∷ xs) [] (z ∷ zs) n m =
    Chained-or_else _ _ _ _ _ _ (compare_number-Chained x 0 z) (compare_numbers-Chained xs [] zs) n
      m
compare_numbers-Chained (x ∷ xs) (y ∷ ys) [] n m =
    Chained-or_else _ _ _ _ _ _ (compare_number-Chained x y 0) (compare_numbers-Chained xs ys []) n
      m
compare_numbers-Chained (x ∷ xs) (y ∷ ys) (z ∷ zs) n m =
    Chained-or_else _ _ _ _ _ _ (compare_number-Chained x y z) (compare_numbers-Chained xs ys zs) n
      m

compare_text-Chained :
    (s t u : String) → Chained (compare_text s t) (compare_text t u) (compare_text s u)
unfolding compare_text
compare_text-Chained String.[] String.[] u n m = refl
compare_text-Chained String.[] (String.◌∷◌ d t) String.[] n m = absurd (m refl)
compare_text-Chained String.[] (String.◌∷◌ d t) (String.◌∷◌ e u) n m = refl
compare_text-Chained (String.◌∷◌ c s) String.[] u n m = absurd (n refl)
compare_text-Chained (String.◌∷◌ c s) (String.◌∷◌ d t) String.[] n m = absurd (m refl)
compare_text-Chained (String.◌∷◌ c s) (String.◌∷◌ d t) (String.◌∷◌ e u) n m =
    Chained-or_else _ _ _ _ _ _ (compare_number-Chained (code c) (code d) (code e))
      (compare_text-Chained s t u) n m

compare_suffix-Chained :
    (s t u : String) → Chained (compare_suffix s t) (compare_suffix t u) (compare_suffix s u)
unfolding compare_suffix
compare_suffix-Chained String.[] String.[] u n m = refl
compare_suffix-Chained String.[] (String.◌∷◌ d t) u n m = absurd (n refl)
compare_suffix-Chained (String.◌∷◌ c s) String.[] String.[] n m = refl
compare_suffix-Chained (String.◌∷◌ c s) String.[] (String.◌∷◌ e u) n m = absurd (m refl)
compare_suffix-Chained (String.◌∷◌ c s) (String.◌∷◌ d t) String.[] n m = join-same-before _ n
  where
    join-same-before : (o : Order) → o ≢ after → before ≡ join o before
    join-same-before before k = refl
    join-same-before same k = refl
    join-same-before after k = absurd (k refl)
compare_suffix-Chained (String.◌∷◌ c s) (String.◌∷◌ d t) (String.◌∷◌ e u) n m =
    compare_text-Chained (String.◌∷◌ c s) (String.◌∷◌ d t) (String.◌∷◌ e u) n m

compare_parsed-Chained :
    (a b c : List ℕ × String)
    → Chained (compare_parsed a b) (compare_parsed b c) (compare_parsed a c)
compare_parsed-Chained (an, apre) (bn, bpre) (cn, cpre) =
    Chained-or_else _ _ _ _ _ _ (compare_numbers-Chained an bn cn)
      (compare_suffix-Chained apre bpre cpre)

-- Versions are transitively ordered: where neither step goes down, the whole is before if one of the
-- steps is, and the same if both are.
pub compare_versions_trans :
    (a b c : String)
    → compare_versions a b ≢ after
    → compare_versions b c ≢ after
    → compare_versions a c ≡ join (compare_versions a b) (compare_versions b c)
unfolding compare_versions
compare_versions_trans a b c =
    compare_parsed-Chained (split_version a) (split_version b) (split_version c)
