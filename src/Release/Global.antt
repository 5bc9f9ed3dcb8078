-- ===== src/Release/Global.antt =====
-- A global publish leaves pinned machines alone: `createGlobalRollout` and `machineHasPrivateTarget`
-- of go/internal/ops/releases.go.
use mathlib.Core.List.{Memᴰ}
use ai_env_mgr.Base.{
  ℕ, String, ◌≡◌, ◌≢◌, refl, sym, ap, ◌∙◌, subst, inl, inr, Bool, true, false, Option, none, some,
  List, [], ◌∷◌, arith, Bool-cases, change, change-Memᴰ, All,
}
use ai_env_mgr.Release.{
  Artifact, Target, Device, Store, Ran, done, refused, Tx, go_on, Call, in_tx, committed,
}
use ai_env_mgr.Release.Rows.{open_in, open_target, last_succeeded, replaced_row, create_rollout_row}
use ai_env_mgr.Release.Orderly.{append-Memᴰ}
use ai_env_mgr.Release.Rollouts.{go_on-done, found-done, aim-targets, replaced_targets}
use ai_env_mgr.Release.Service.{
  pins, has_private_target, takes, keep_unless, eligible, aim, aim_all, global_for,
  create_global_rollout, audit_target,
}

pins-same :
    (o : Option Target) (rest : Tx Bool) (b : Bool) (s s' : Store)
    → ((b' : Bool) (s1 : Store) → rest s ≡ done b' s1 → s1 ≡ s)
    → pins o rest s ≡ done b s'
    → s' ≡ s
pins-same none rest b s s' same h = same b s' h
pins-same (some t) rest b s s' same h =
    let (ro, s1, e, k) = go_on-done _ _ b s' h in
    let (listed, q) = found-done _ ro s s1 e in sym (ap (committed s) k) ∙ q

has_private_target-same :
    (device : ℕ) (product : String) (b : Bool) (s s' : Store)
    → has_private_target device product s ≡ done b s'
    → s' ≡ s
unfolding has_private_target
has_private_target-same device product b s s' h =
    pins-same (open_target device product s) _ b s s'
      (λ b' s1 e.
        pins-same (last_succeeded device product s) _ b' s s1 (λ b'' s2 g. sym (ap (committed s) g))
          e)
      h

-- What was chosen: machines that follow the fleet.
abbrev Following : Artifact → Store → Device → Type 0
Following a s d = (takes a d ≡ true) × (has_private_target d.id a.product s ≡ done false s)

keep_unless-Following :
    (a : Artifact) (s : Store) (b : Bool) (d : Device) (ds : List Device)
    → takes a d ≡ true
    → has_private_target d.id a.product s ≡ done b s
    → All (Following a s) ds
    → All (Following a s) (keep_unless b d ds)
keep_unless-Following a s true d ds h p all = all
keep_unless-Following a s false d ds h p all = ((h, p), all)

eligible-done :
    (a : Artifact) (ds chosen : List Device) (s s' : Store)
    → eligible a ds s ≡ done chosen s'
    → (s' ≡ s) × All (Following a s) chosen
unfolding eligible
eligible-done a [] chosen s s' h =
    let none_left : [] ≡ chosen = ground arith in (sym (ap (committed s) h), rw (← none_left) tt)
eligible-done a (d ∷ ds) chosen s s' h = elim (Bool-cases (takes a d)) [
  | inr n ↦ eligible-done a ds chosen s s' (rw (n, eligible) at h)
  | inl y ↦
      let step : go_on (has_private_target d.id a.product s)
            (λ p. λ s0. go_on (eligible a ds s0) (λ more. λ s2. done (keep_unless p d more) s2))
          ≡ done chosen s' =
        rw (y, eligible) at h in
      let (p, s1, e1, h1) = go_on-done _ _ chosen s' step in
      let (more, s2, e2, h2) = go_on-done _ _ chosen s' h1 in
      let q1 = has_private_target-same d.id a.product p s s1 e1 in
      let (q2, all) = eligible-done a ds more s s2 (ap (eligible a ds) (sym q1) ∙ e2) in
      let got : keep_unless p d more ≡ chosen = ground arith in
      (
        sym (ap (committed s) h2) ∙ q2,
        subst (λ v. All (Following a s) v) got
            (keep_unless-Following a s p d more y (e1 ∙ ap (λ x. done p x) q1) all),
      )
]

-- Every target of the machine is where it was.
abbrev pub Untouched : ℕ → List Target → List Target → Type 0
Untouched device xs ys = (t : Target) → t.device_id ≡ device → Memᴰ t xs → Memᴰ t ys

aim-Untouched :
    (c : Call) (a : Artifact) (rollout device : ℕ) (d : Device) (t : Target) (s s' : Store)
    → d.id ≢ device
    → aim c a rollout d s ≡ done t s'
    → Untouched device s.targets s'.targets
aim-Untouched c a rollout device d t s s' ne h u mine m =
    let (rows, machines) = aim-targets c a rollout d t s s' h in
    let apart : open_in d.id a.product u ≡ false = ground arith in
    let stays : change (open_in d.id a.product) (replaced_row c.now) u ≡ u = rw apart in
    let there = change-Memᴰ (open_in d.id a.product) (replaced_row c.now) s.targets u m in
    rw rows (
      append-Memᴰ u _ (replaced_targets d.id a.product c.now s)
        (subst (λ v. Memᴰ v (replaced_targets d.id a.product c.now s)) stays there))

aim_all-Untouched :
    (c : Call) (a : Artifact) (rollout device : ℕ) (ds : List Device) (x : Unit {0}) (s s' : Store)
    → All (λ d. d.id ≢ device) ds
    → aim_all c a rollout ds s ≡ done x s'
    → Untouched device s.targets s'.targets
unfolding aim_all
aim_all-Untouched c a rollout device [] x s s' all h u mine m = rw (← (ap (committed s) h)) m
aim_all-Untouched c a rollout device (d ∷ ds) x s s' all h u mine m =
    let (t, s1, e1, h1) = go_on-done _ _ x s' h in
    aim_all-Untouched c a rollout device ds x s1 s' all.1 h1 u mine
      (aim-Untouched c a rollout device d t s s1 all.0 e1 u mine m)

global_for-Untouched :
    (c : Call) (a : Artifact) (device : ℕ) (ds : List Device) (x : Unit {0}) (s s' : Store)
    → All (λ d. d.id ≢ device) ds
    → global_for c a ds s ≡ done x s'
    → Untouched device s.targets s'.targets
unfolding global_for create_rollout_row audit_target go_on
global_for-Untouched c a device [] x s s' all h u mine m = rw (← (ap (committed s) h)) m
global_for-Untouched c a device (d ∷ ds) x s s' all h u mine m =
    aim_all-Untouched c a s.next_id device (d ∷ ds) x _ s' all h u mine m

apart_of_Following :
    (a : Artifact) (device : ℕ) (s : Store) (ds : List Device)
    → has_private_target device a.product s ≡ done true s
    → All (Following a s) ds
    → All (λ d. d.id ≢ device) ds
apart_of_Following a device s [] pinned all = tt
apart_of_Following a device s (d ∷ ds) pinned all = (
  λ e. clash (sym (all.0.1) ∙ ap (λ v. has_private_target v a.product s) e ∙ pinned),
  apart_of_Following a device s ds pinned all.1,
)
  where
    clash : done false s ≡ done true s → ⊥
    clash e = ground arith

-- A machine that is found pinned keeps all its targets as they are through a global
-- publish, whether that commits or is refused.
pub pinned-Untouched :
    (c : Call) (a : Artifact) (device : ℕ) (s : Store)
    → has_private_target device a.product s ≡ done true s
    → Untouched device s.targets (in_tx (create_global_rollout c a) s).0.targets
unfolding in_tx create_global_rollout
pinned-Untouched c a device s pinned = outcome (create_global_rollout c a s) refl
  where
    outcome :
        (r : Ran (Unit {0}))
        → create_global_rollout c a s ≡ r
        → Untouched device s.targets (committed s r).targets
    outcome (refused e) h t mine m = m
    outcome (done x s') h t mine m =
        let (ds, s1, e1, h1) = go_on-done _ _ x s' h in
        let (chosen, s2, e2, h2) = go_on-done _ _ x s' h1 in
        let q1 : s1 ≡ s = sym (ap (committed s) e1) in
        let (q2, all) = eligible-done a ds chosen s s2 (ap (eligible a ds) (sym q1) ∙ e2) in
        global_for-Untouched c a device chosen x s s'
          (apart_of_Following a device s chosen pinned all)
          (ap (global_for c a chosen) (sym q2) ∙ h2) t mine m
