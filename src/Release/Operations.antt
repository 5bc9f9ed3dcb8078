-- ===== src/Release/Operations.antt =====
-- Every operation of go/internal/ops/releases.go moves the table of targets by `Moves`, whether it
-- commits or is refused.
use ai_env_mgr.Base.{ℕ, String, inl, inr, Bool, Option, none, some, List, [], ◌∷◌, Bool-cases}
use ai_env_mgr.Task.{Task, Result, ok, err}
use ai_env_mgr.Queue.{Queue}
use ai_env_mgr.Release.{Artifact, Target, Device, Store, Tx, go_on, Call}
use ai_env_mgr.Release.Rows.{is_pending, open_target, last_succeeded, create_rollout_row}
use ai_env_mgr.Release.Moves.{Moves, stay}
use ai_env_mgr.Release.Kept.{
  Moved, go_on-Moved, found-Moved, refuse_if-Moved, create_target-Moved, finish_target-Moved,
  cancel_pending-Moved, release_succeeded-Moved, pause_rollout-Moved, in_tx-Moves,
}
use ai_env_mgr.Release.Service.{
  enqueue_export, enqueued, audit_target, pins, has_private_target, takes, eligible, aim, aim_all,
  global_for, create_global_rollout, RolloutSpec, roll_out_to, member, roll_out_all, roll_out,
  create_rollout, export_pending, set_rollout_paused, cancel_rollout, exclude_for, exclude_target,
  retry_target, cancel_open, follow_global,
}

enqueued-Moved : (r : Queue × Result (Task × Bool)) (s : Store) → Moved s (enqueued r s)
enqueued-Moved (q, ok t) s = stay
enqueued-Moved (q, err e) s = tt

pub enqueue_export-Moved :
    (c : Call) (d : Device) (marker : String) (s : Store) → Moved s (enqueue_export c d marker s)
unfolding enqueue_export
enqueue_export-Moved c d marker s = enqueued-Moved _ s

pins-Moved :
    (o : Option Target) (rest : Tx Bool) (s : Store) → Moved s (rest s) → Moved s (pins o rest s)
pins-Moved none rest s h = h
pins-Moved (some t) rest s h = go_on-Moved s _ _ (found-Moved _ s) (λ ro s'. stay)

has_private_target-Moved :
    (device : ℕ) (product : String) (s : Store) → Moved s (has_private_target device product s)
unfolding has_private_target
has_private_target-Moved device product s =
    pins-Moved (open_target device product s) _ s
      (pins-Moved (last_succeeded device product s) _ s stay)

eligible-Moved : (a : Artifact) (ds : List Device) (s : Store) → Moved s (eligible a ds s)
unfolding eligible
eligible-Moved a [] s = stay
eligible-Moved a (d ∷ ds) s = elim (Bool-cases (takes a d)) [
  | inl h ↦
      rw (h, eligible)
        (go_on-Moved s _ _ (has_private_target-Moved d.id a.product s)
          (λ p s'. go_on-Moved s' _ _ (eligible-Moved a ds s') (λ more s''. stay)))
  | inr h ↦ rw (h, eligible) (eligible-Moved a ds s)
]

aim-Moved :
    (c : Call) (a : Artifact) (rollout : ℕ) (d : Device) (s : Store) → Moved s (aim c a rollout d s)
unfolding aim
aim-Moved c a rollout d s =
    go_on-Moved s _ _ (create_target-Moved d.id a.id rollout c.now a.product s)
      (λ t s'. go_on-Moved s' _ _ (enqueue_export-Moved c d _ s') (λ u s''. stay))

aim_all-Moved :
    (c : Call) (a : Artifact) (rollout : ℕ) (ds : List Device) (s : Store)
    → Moved s (aim_all c a rollout ds s)
unfolding aim_all
aim_all-Moved c a rollout [] s = stay
aim_all-Moved c a rollout (d ∷ ds) s =
    go_on-Moved s _ _ (aim-Moved c a rollout d s) (λ t s'. aim_all-Moved c a rollout ds s')

global_for-Moved :
    (c : Call) (a : Artifact) (ds : List Device) (s : Store) → Moved s (global_for c a ds s)
unfolding global_for create_rollout_row audit_target go_on
global_for-Moved c a [] s = stay
global_for-Moved c a (d ∷ ds) s = aim_all-Moved c a s.next_id (d ∷ ds) _

pub create_global_rollout-Moved :
    (c : Call) (a : Artifact) (s : Store) → Moved s (create_global_rollout c a s)
unfolding create_global_rollout go_on
create_global_rollout-Moved c a s =
    go_on-Moved s _ _ (eligible-Moved a s.devices s) (λ ds s'. global_for-Moved c a ds s')

roll_out_to-Moved :
    (c : Call) (a : Artifact) (rollout id : ℕ) (s : Store) → Moved s (roll_out_to c a rollout id s)
unfolding roll_out_to audit_target
roll_out_to-Moved c a rollout id s = go_on-Moved s _ _ (found-Moved _ s) (λ d s1.
    go_on-Moved s1 _ _ (refuse_if-Moved _ _ s1) (λ _ s2.
      go_on-Moved s2 _ _ (refuse_if-Moved _ _ s2) (λ _ s3.
        go_on-Moved s3 _ _ (refuse_if-Moved _ _ s3)
          (λ _ s4. go_on-Moved s4 _ _ (aim-Moved c a rollout d s4) (λ t s5. stay)))))

roll_out_all-Moved :
    (c : Call) (a : Artifact) (rollout : ℕ) (seen ids : List ℕ) (s : Store)
    → Moved s (roll_out_all c a rollout seen ids s)
unfolding roll_out_all
roll_out_all-Moved c a rollout seen [] s = stay
roll_out_all-Moved c a rollout seen (id ∷ ids) s = elim (Bool-cases (member id seen)) [
  | inl h ↦ rw (h, roll_out_all) (roll_out_all-Moved c a rollout seen ids s)
  | inr h ↦
      rw (h, roll_out_all)
        (go_on-Moved s _ _ (roll_out_to-Moved c a rollout id s)
          (λ _ s'. roll_out_all-Moved c a rollout (id ∷ seen) ids s'))
]

roll_out-Moved : (c : Call) (spec : RolloutSpec) (s : Store) → Moved s (roll_out c spec s)
unfolding roll_out create_rollout_row
roll_out-Moved c spec s = go_on-Moved s _ _ (found-Moved _ s) (λ a s1.
    go_on-Moved s1 _ _ (refuse_if-Moved _ _ s1) (λ _ s2.
      go_on-Moved s2 _ _ (refuse_if-Moved _ _ s2) (λ _ s3. go_on-Moved s3 _ _ stay (λ ro s4.
        go_on-Moved s4 _ _ (roll_out_all-Moved c a ro.id [] spec.device_ids s4) (λ _ s5. stay)))))

export_pending-Moved :
    (c : Call) (marker : Target → Device → String) (ts : List Target) (s : Store)
    → Moved s (export_pending c marker ts s)
unfolding export_pending
export_pending-Moved c marker [] s = stay
export_pending-Moved c marker (t ∷ ts) s = elim (Bool-cases (is_pending t.status)) [
  | inl h ↦
      rw (h, export_pending)
        (go_on-Moved s _ _ (found-Moved _ s) (λ d s1.
          go_on-Moved s1 _ _ (enqueue_export-Moved c d _ s1)
            (λ _ s2. export_pending-Moved c marker ts s2)))
  | inr h ↦ rw (h, export_pending) (export_pending-Moved c marker ts s)
]

pub create_rollout-Moves :
    (c : Call) (spec : RolloutSpec) (s : Store)
    → Moves s.targets (create_rollout c spec s).0.targets
unfolding create_rollout
create_rollout-Moves c spec s =
    in_tx-Moves _ s (go_on-Moved s _ _ (refuse_if-Moved _ _ s) (λ _ s'. roll_out-Moved c spec s'))

pub set_rollout_paused-Moves :
    (c : Call) (id : ℕ) (paused : Bool) (s : Store)
    → Moves s.targets (set_rollout_paused c id paused s).0.targets
unfolding set_rollout_paused audit_target
set_rollout_paused-Moves c id paused s = in_tx-Moves _ s (
    go_on-Moved s _ _ (pause_rollout-Moved id paused c.actor c.now s) (λ ro s1.
      go_on-Moved s1 _ _ (go_on-Moved s1 _ _ stay (λ ts s2. export_pending-Moved c _ ts s2))
        (λ _ s2. stay)))

pub cancel_rollout-Moves :
    (c : Call) (id : ℕ) (s : Store) → Moves s.targets (cancel_rollout c id s).0.targets
unfolding cancel_rollout audit_target
cancel_rollout-Moves c id s = in_tx-Moves _ s (
    go_on-Moved s _ _ stay (λ ts s1. go_on-Moved s1 _ _ (cancel_pending-Moved id c.now s1) (λ n s2.
      go_on-Moved s2 _ _ (export_pending-Moved c _ ts s2)
        (λ _ s3. go_on-Moved s3 _ _ stay (λ _ s4. stay)))))

pub exclude_target-Moves :
    (c : Call) (id : ℕ) (reason : String) (s : Store)
    → Moves s.targets (exclude_target c id reason s).0.targets
unfolding exclude_target exclude_for audit_target
exclude_target-Moves c id reason s = in_tx-Moves _ s (
    go_on-Moved s _ _ (refuse_if-Moved _ _ s) (λ _ s1.
      go_on-Moved s1 _ _ (finish_target-Moved id _ _ "" c.now s1) (λ t s2.
        go_on-Moved s2 _ _ (found-Moved _ s2)
          (λ d s3. go_on-Moved s3 _ _ (enqueue_export-Moved c d _ s3) (λ _ s4. stay)))))

pub retry_target-Moves :
    (c : Call) (id : ℕ) (s : Store) → Moves s.targets (retry_target c id s).0.targets
unfolding retry_target audit_target
retry_target-Moves c id s = in_tx-Moves _ s (
    go_on-Moved s _ _ (found-Moved _ s) (λ old s1.
      go_on-Moved s1 _ _ (refuse_if-Moved _ _ s1) (λ _ s2.
        go_on-Moved s2 _ _ (found-Moved _ s2) (λ d s3.
          go_on-Moved s3 _ _
            (create_target-Moved d.id old.artifact_id old.rollout_id c.now old.product s3)
            (λ t s4.
              go_on-Moved s4 _ _ (enqueue_export-Moved c d _ s4)
                (λ _ s5. go_on-Moved s5 _ _ stay (λ _ s6. stay)))))))

cancel_open-Moved : (c : Call) (o : Option Target) (s : Store) → Moved s (cancel_open c o s)
cancel_open-Moved c none s = stay
cancel_open-Moved c (some t) s =
    go_on-Moved s _ _ (finish_target-Moved t.id _ _ "" c.now s) (λ _ s'. stay)

pub follow_global-Moves :
    (c : Call) (device : ℕ) (product : String) (s : Store)
    → Moves s.targets (follow_global c device product s).0.targets
unfolding follow_global audit_target
follow_global-Moves c device product s = in_tx-Moves _ s (
    go_on-Moved s _ _ (refuse_if-Moved _ _ s) (λ _ s1.
      go_on-Moved s1 _ _ (found-Moved _ s1) (λ d s2. go_on-Moved s2 _ _ stay (λ o s3.
        go_on-Moved s3 _ _ (cancel_open-Moved c o s3) (λ _ s4.
          go_on-Moved s4 _ _ (release_succeeded-Moved d.id product c.now s4)
            (λ n s5. go_on-Moved s5 _ _ (enqueue_export-Moved c d _ s5) (λ _ s6. stay)))))))
