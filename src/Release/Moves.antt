-- ===== src/Release/Moves.antt =====
-- What may happen to the table of targets of go/internal/dbstore/releases.go, as a step relation: rows
-- are rewritten in ways that keep what is settled, and a newer target is appended once nothing else
-- of its machine and product is pending.
use mathlib.Core.List.{map}
use ai_env_mgr.Base.{
  ℕ, ◌+◌, ◌<◌, ◌≤◌, String, ◌≡◌, refl, true, false, List, [], ◌∷◌, ◌++◌, arith, All, All-map,
  All-imp, All-Memᴰ, All-of_Memᴰ, update_where, change, eq_iff,
}
use ai_env_mgr.Release.{Target, TargetStatus}
use ai_env_mgr.Release.Rows.{
  is_pending, open_in, of_slot, taken_in, open_id, open_of, replaced_row, released_row,
  finished_row, cancelled_row, last_generation, new_target,
}

-- A rewriting that keeps whose target a row is, and keeps the status of what is settled; nothing
-- becomes pending.
pub record Keeps (f : Target → Target) : Type 0 where
  pub same_id : (t : Target) → (f t).id ≡ t.id
  pub same_device : (t : Target) → (f t).device_id ≡ t.device_id
  pub same_product : (t : Target) → (f t).product ≡ t.product
  pub same_generation : (t : Target) → (f t).generation ≡ t.generation
  pub same_artifact : (t : Target) → (f t).artifact_id ≡ t.artifact_id
  pub same_rollout : (t : Target) → (f t).rollout_id ≡ t.rollout_id
  pub settled : (t : Target) → is_pending t.status ≡ false → (f t).status ≡ t.status

-- `t` is newer than `u`, which is settled, if they are for the same machine and product.
abbrev pub Below : Target → Target → Type 0
Below u t =
    u.device_id ≡ t.device_id
    → u.product ≡ t.product
    → (u.generation < t.generation) × (is_pending u.status ≡ false)

pub data Moves (xs : List Target) : List Target → Type 0 where
  stay : Moves xs xs
  rewrites :
      (ys zs : List Target) (f : Target → Target)
      → Moves xs ys
      → Keeps f
      → zs ≡ map f ys
      → Moves xs zs
  opens :
      (ys zs : List Target) (t : Target)
      → Moves xs ys
      → All (λ u. Below u t) ys
      → zs ≡ ys ++ t ∷ []
      → Moves xs zs

pub Moves-trans : (xs ys zs : List Target) → Moves xs ys → Moves ys zs → Moves xs zs
Moves-trans xs ys zs m stay = m
Moves-trans xs ys zs m (rewrites us _ f n k e) = rewrites us zs f (Moves-trans xs ys us m n) k e
Moves-trans xs ys zs m (opens us _ t n b e) = opens us zs t (Moves-trans xs ys us m n) b e

-- The statements that rewrite.
pub replaced-Keeps :
    (device now : ℕ) (product : String) → Keeps (change (open_in device product) (replaced_row now))
unfolding replaced_row
replaced-Keeps device now product = record {
  same_id = λ t. ground arith;
  same_device = λ t. ground arith;
  same_product = λ t. ground arith;
  same_generation = λ t. ground arith;
  same_artifact = λ t. ground arith;
  same_rollout = λ t. ground arith;
  settled = λ t h. ground arith;
}

pub finished-Keeps :
    (id now : ℕ) (status : TargetStatus) (note reported : String)
    → Keeps (change (open_id id) (finished_row status note reported now))
unfolding finished_row
finished-Keeps id now status note reported = record {
  same_id = λ t. ground arith;
  same_device = λ t. ground arith;
  same_product = λ t. ground arith;
  same_generation = λ t. ground arith;
  same_artifact = λ t. ground arith;
  same_rollout = λ t. ground arith;
  settled = λ t h. ground arith;
}

pub cancelled-Keeps : (rollout now : ℕ) → Keeps (change (open_of rollout) (cancelled_row now))
unfolding cancelled_row
cancelled-Keeps rollout now = record {
  same_id = λ t. ground arith;
  same_device = λ t. ground arith;
  same_product = λ t. ground arith;
  same_generation = λ t. ground arith;
  same_artifact = λ t. ground arith;
  same_rollout = λ t. ground arith;
  settled = λ t h. ground arith;
}

pub released-Keeps :
    (device now : ℕ) (product : String)
    → Keeps (change (taken_in device product) (released_row now))
unfolding released_row
released-Keeps device now product = record {
  same_id = λ t. ground arith;
  same_device = λ t. ground arith;
  same_product = λ t. ground arith;
  same_generation = λ t. ground arith;
  same_artifact = λ t. ground arith;
  same_rollout = λ t. ground arith;
  settled = λ t h. ground arith;
}

slot-parts :
    (device : ℕ) (product : String) (t : Target)
    → t.device_id ≡ device
    → t.product ≡ product
    → of_slot device product t ≡ true
slot-parts device product t d p = ground (arith, eq_iff t.product product)

pub last_generation-le :
    (device : ℕ) (product : String) (ts : List Target)
    → All
        (λ t. of_slot device product t ≡ true → t.generation ≤ last_generation device product ts)
        ts
unfolding last_generation
last_generation-le device product [] = tt
last_generation-le device product (t ∷ ts) =
    (λ h. here h, All-imp _ _ ts (λ u le h. over u (le h)) (last_generation-le device product ts))
  where
    here : of_slot device product t ≡ true → t.generation ≤ last_generation device product (t ∷ ts)
    here h = rw (last_generation, h) (ground arith)

    over :
        (u : Target)
        → u.generation ≤ last_generation device product ts
        → u.generation ≤ last_generation device product (t ∷ ts)
    over u le = ground arith

-- After the first statement of `CreateTarget`, nothing of the machine and product is pending.
pub none_open :
    (device now : ℕ) (product : String) (ts : List Target)
    → All
        (λ t. open_in device product t ≡ false)
        (update_where (open_in device product) (replaced_row now) ts)
unfolding replaced_row
none_open device now product ts =
    All-map (λ t. t ≡ t) _ (change (open_in device product) (replaced_row now)) ts (λ t h. closed t)
      (All-of_Memᴰ _ ts (λ t m. refl))
  where
    closed :
        (t : Target)
        → open_in device product (change (open_in device product) (replaced_row now) t) ≡ false
    closed t = ground arith

-- What `CreateTarget` appends is newer than all there is.
pub new_target-Below :
    (fresh device artifact rollout now later : ℕ) (product : String) (ts : List Target)
    → All (λ t. open_in device product t ≡ false) ts
    → All
        (λ u. Below u (
          new_target fresh device product artifact rollout
            (last_generation device product ts + 1)
            now))
        ts
unfolding new_target
new_target-Below fresh device artifact rollout now later product ts shut =
    All-of_Memᴰ _ ts (λ u m d p.
      row u (All-Memᴰ _ ts u shut m) (All-Memᴰ _ ts u (last_generation-le device product ts) m) d p)
  where
    row :
        (u : Target)
        → open_in device product u ≡ false
        → (of_slot device product u ≡ true → u.generation ≤ last_generation device product ts)
        → u.device_id ≡ device
        → u.product ≡ product
        → (u.generation < last_generation device product ts + 1) × (is_pending u.status ≡ false)
    row u open_no le d p =
        let slot = slot-parts device product u d p in
        let bound = le slot in (omega arith, ground arith)
