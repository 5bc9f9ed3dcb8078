-- ===== src/Account/Bindings.antt =====
-- The machines assigned to employees: what go/internal/ops/ops.go and go/internal/dbstore/bindings.go do
-- to `device_bindings`.
use ai_env_mgr.Base.{
  ℕ, ◌+◌, ◌≤◌, ◌<◌, ◌≡◌, refl, sym, ◌∙◌, inl, inr, Bool, false, List, [], ◌∷◌, ◌++◌, arith,
  Bool-cases, All, All-imp, All-map, All-Memᴰ, All-of_Memᴰ, All-append, first-none, ◌==◌, ==_iff,
  change, map,
}
use ai_env_mgr.Account.{Binding, is_bound}
use ai_env_mgr.Account.Access.{bound_to, open_binding, last_epoch}
use ai_env_mgr.Account.Steps.{Op, run}
use ai_env_mgr.Account.Keeps.{IsSettling, Preserved}
use ai_env_mgr.Account.Keeps.Operations.{run-keeps}
use ai_env_mgr.Release.{Store, Call}

-- A row that has a later one for its machine is closed, and the epoch of the later one is higher.
abbrev pub IsBefore : Binding → Binding → Type 0
IsBefore b x = x.device_id ≡ b.device_id → (is_bound b ≡ false) × (b.epoch < x.epoch)

unfoldable pub AreSequenced : List Binding → Type 0
AreSequenced [] = Unit
AreSequenced (b ∷ bs) = All (IsBefore b) bs × AreSequenced bs

append-AreSequenced :
    (rows : List Binding) (y : Binding)
    → All (λ b. IsBefore b y) rows
    → AreSequenced rows
    → AreSequenced (rows ++ y ∷ [])
unfolding AreSequenced
append-AreSequenced [] y h q = (tt, tt)
append-AreSequenced (b ∷ rows) y h q =
    (All-append (IsBefore b) rows (y ∷ []) q.0 (h.0, tt), append-AreSequenced rows y h.1 q.1)

last_epoch-cons :
    (device : ℕ) (b : Binding) (rows : List Binding)
    → (last_epoch device rows ≤ last_epoch device (b ∷ rows))
      × (b.device_id ≡ device → b.epoch ≤ last_epoch device (b ∷ rows))
unfolding last_epoch
last_epoch-cons device b rows = elim (Bool-cases (b.device_id == device)) [
  | inl e ↦ rw e (omega arith, (λ d. omega arith))
  | inr e ↦ rw e (omega arith, (λ d. absurd (ground arith)))
]

last_epoch-All :
    (device : ℕ) (rows : List Binding)
    → All (λ b. b.device_id ≡ device → b.epoch ≤ last_epoch device rows) rows
last_epoch-All device [] = tt
last_epoch-All device (b ∷ rows) =
    let both = last_epoch-cons device b rows in
    (both.1, All-imp _ _ rows (λ x h d. omega (arith, both.0, h d)) (last_epoch-All device rows))

free-IsBefore :
    (device : ℕ) (b y : Binding)
    → bound_to device b ≡ false
    → y.device_id ≡ device
    → (b.device_id ≡ device → b.epoch < y.epoch)
    → IsBefore b y
free-IsBefore device b y h e less d =
    let same : b.device_id ≡ device = sym d ∙ e in
    let mine = (==_iff b.device_id device).1 same in ((rw mine at h), less same)

settled-IsSettling :
    (p : Binding → Bool) (f : Binding → Binding) → IsSettling f → IsSettling (change p f)
settled-IsSettling p f k = record {
  same_device = λ b. elim (Bool-cases (p b)) [ inl e ↦ rw e (k.same_device b) | inr e ↦ rw e refl ];
  same_epoch = λ b. elim (Bool-cases (p b)) [ inl e ↦ rw e (k.same_epoch b) | inr e ↦ rw e refl ];
  stays_unbound =
      λ b h. elim (Bool-cases (p b)) [ inl e ↦ rw e (k.stays_unbound b h) | inr e ↦ rw e h ];
}

map-AreSequenced :
    (g : Binding → Binding) (rows : List Binding)
    → IsSettling g
    → AreSequenced rows
    → AreSequenced (map g rows)
unfolding AreSequenced
map-AreSequenced g [] k q = tt
map-AreSequenced g (b ∷ rows) k q = (
  All-map (IsBefore b) (IsBefore (g b)) g rows (λ x h. moved x h) q.0,
  map-AreSequenced g rows k q.1,
)
  where
    moved : (x : Binding) → IsBefore b x → IsBefore (g b) (g x)
    moved x h d =
        let (shut, less) = h (sym (k.same_device x) ∙ d ∙ k.same_device b) in
        (k.stays_unbound b shut, omega (arith, less, k.same_epoch b, k.same_epoch x))

bound-IsBefore :
    (y : Binding) (rows : List Binding)
    → All (λ b. bound_to y.device_id b ≡ false) rows
    → y.epoch ≡ last_epoch y.device_id rows + 1
    → All (λ b. IsBefore b y) rows
bound-IsBefore y rows free e =
    All-of_Memᴰ (λ b. IsBefore b y) rows
      (λ b m. free-IsBefore y.device_id b y (All-Memᴰ _ rows b free m) refl (λ d.
        let top = All-Memᴰ _ rows b (last_epoch-All y.device_id rows) m d in omega (arith, top, e)))

sequenced-Preserved : Preserved (λ s. AreSequenced s.bindings)
unfolding open_binding
sequenced-Preserved = record {
  queues = λ q n s h. h;
  logs = λ rows s h. h;
  grants = λ rows s h. h;
  credentials = λ rows s h. h;
  quotas = λ rows s h. h;
  models = λ rows s h. h;
  devices = λ rows n s h. h;
  hires = λ e n s h. h;
  changes = λ p f s rise h. h;
  binds = λ b n s o e h.
      append-AreSequenced s.bindings b
        (bound-IsBefore b s.bindings (first-none (bound_to b.device_id) s.bindings o) e) h;
  settles = λ p f s k h. map-AreSequenced (change p f) s.bindings (settled-IsSettling p f k) h;
}

-- Whatever operations run on accounts and machines, the one-off import aside, the bindings of each machine
-- stay in sequence: the epochs go up, and only the last binding of a machine may be open.
pub run-AreSequenced :
    (ops : List (Call × Op)) (s : Store)
    → AreSequenced s.bindings
    → AreSequenced (run ops s).bindings
run-AreSequenced ops s h = run-keeps (λ t. AreSequenced t.bindings) sequenced-Preserved ops s h
