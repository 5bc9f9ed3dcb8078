-- ===== src/Release/Orderly.antt =====
-- One open target for a machine and a product, and it is the newest: what the partial unique index
-- and the generations of go/internal/dbstore/releases.go are for.
use mathlib.Core.List.{map, Memᴰ}
use ai_env_mgr.Base.{◌≡◌, refl, sym, ap, ◌∙◌, false, List, [], ◌∷◌, ◌++◌, All, All-map, All-append}
use ai_env_mgr.Release.{Target}
use ai_env_mgr.Release.Rows.{is_pending}
use ai_env_mgr.Release.Moves.{Keeps, Below, Moves, stay, rewrites, opens}

-- The rows as they were inserted: of a machine and product, every later row has a higher generation,
-- and only the last one may be pending.
abbrev pub IsOrderly : List Target → Type 0
IsOrderly [] = Unit
IsOrderly (t ∷ ts) = All (λ u. Below t u) ts × IsOrderly ts

map-Below : (f : Target → Target) → Keeps f → (t u : Target) → Below t u → Below (f t) (f u)
map-Below f k t u below d p =
    let older =
      below (sym (k.same_device t) ∙ d ∙ k.same_device u)
        (sym (k.same_product t) ∙ p ∙ k.same_product u) in
    (rw (k.same_generation t, k.same_generation u) older.0, rw (k.settled t older.1) older.1)

map-IsOrderly :
    (f : Target → Target) (ts : List Target) → Keeps f → IsOrderly ts → IsOrderly (map f ts)
map-IsOrderly f [] k h = tt
map-IsOrderly f (t ∷ ts) k h =
    (All-map _ _ f ts (λ u b. map-Below f k t u b) h.0, map-IsOrderly f ts k h.1)

append-IsOrderly :
    (ts : List Target) (t : Target)
    → All (λ u. Below u t) ts
    → IsOrderly ts
    → IsOrderly (ts ++ t ∷ [])
append-IsOrderly [] t below h = (tt, tt)
append-IsOrderly (u ∷ ts) t below h =
    (All-append _ ts (t ∷ []) h.0 (below.0, tt), append-IsOrderly ts t below.1 h.1)

pub Moves-IsOrderly : (xs ys : List Target) → Moves xs ys → IsOrderly xs → IsOrderly ys
Moves-IsOrderly xs _ stay h = h
Moves-IsOrderly xs zs (rewrites ys _ f m k e) h =
    rw e (map-IsOrderly f ys k (Moves-IsOrderly xs ys m h))
Moves-IsOrderly xs zs (opens ys _ t m b e) h =
    rw e (append-IsOrderly ys t b (Moves-IsOrderly xs ys m h))

-- What is settled is settled: a later row for it, with the same status.
abbrev pub Kept : Target → List Target → Type 0
Kept t ys =
    (u : Target) × Memᴰ u ys × (u.id ≡ t.id) × (u.generation ≡ t.generation) × (u.status ≡ t.status)

map-Memᴰ : (f : Target → Target) (t : Target) (ts : List Target) → Memᴰ t ts → Memᴰ (f t) (map f ts)
map-Memᴰ f t [] m = elim m [ ]
map-Memᴰ f t (x ∷ xs) (Memᴰ.head e) = Memᴰ.head (ap f e)
map-Memᴰ f t (x ∷ xs) (Memᴰ.tail m) = Memᴰ.tail (map-Memᴰ f t xs m)

pub append-Memᴰ : (t u : Target) (ts : List Target) → Memᴰ t ts → Memᴰ t (ts ++ u ∷ [])
append-Memᴰ t u [] m = elim m [ ]
append-Memᴰ t u (x ∷ xs) (Memᴰ.head e) = Memᴰ.head e
append-Memᴰ t u (x ∷ xs) (Memᴰ.tail m) = Memᴰ.tail (append-Memᴰ t u xs m)

pub Moves-Kept :
    (xs ys : List Target) (t : Target)
    → Moves xs ys
    → Memᴰ t xs
    → is_pending t.status ≡ false
    → Kept t ys
Moves-Kept xs _ t stay m h = (t, m, refl, refl, refl)
Moves-Kept xs zs t (rewrites ys _ f moved k e) m h =
    let (u, n, i, g, s) = Moves-Kept xs ys t moved m h in
    (
      f u,
      rw e (map-Memᴰ f u ys n),
      k.same_id u ∙ i,
      k.same_generation u ∙ g,
      k.settled u (rw s h) ∙ s,
    )
Moves-Kept xs zs t (opens ys _ v moved b e) m h =
    let (u, n, i, g, s) = Moves-Kept xs ys t moved m h in (u, rw e (append-Memᴰ u v ys n), i, g, s)
