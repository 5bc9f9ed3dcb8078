-- ===== src/Release/Service.antt =====
-- The operations of go/internal/ops/releases.go on rollouts and targets. What `wake` tells the
-- machines is not in the store.
use Prim.Native.String.{◌++◌}
use ai_env_mgr.Base.{
  ℕ, ◌+◌, String, Bool, true, false, not, ◌&&◌, ◌||◌, Option, none, some, List, [], ◌∷◌, str_eq,
  ◌==◌, if◌then◌else◌, first, pos,
}
use ai_env_mgr.Task.{Task, Result, ok, err}
use ai_env_mgr.Queue.{Queue, enqueue}
use ai_env_mgr.Version.{agent_can_take_targets, is_older, trim_left, trim_right}
use ai_env_mgr.Release.{
  product_agent, product_codex, ArtifactStatus, retired, Artifact, RolloutKind, release, global,
  Rollout, TargetStatus, failed, cancelled, excluded, Target, Device, Store, no_machine,
  wrong_product, is_retired, is_revoked, fleet_only, too_old, unknown_product, no_reason,
  not_failed, task_refused, Ran, done, refused, Tx, ◌>>=◌, ◌>>◌, answer, refuse_if, found, gets,
  in_tx, Call, appended,
}
use ai_env_mgr.Release.Rows.{
  is_pending, create_rollout_row, rollout_by_id, pause_rollout, artifact_by_id, create_target,
  open_target, last_succeeded, release_succeeded, target_by_id, targets_by_rollout, finish_target,
  cancel_pending,
}

abbrev pub device_by_id : ℕ → Tx Device
device_by_id id s = found (first (λ d. d.id == id) s.devices) s

abbrev pub enqueued : Queue × Result (Task × Bool) → Tx (Unit {0})
enqueued (q, ok t) s = done tt (record s { queue = q; next_id = s.next_id + 1 })
enqueued (q, err e) s = refused (task_refused e)

-- `enqueueDeviceExport` of go/internal/ops/ops.go.
unfoldable pub enqueue_export : Call → Device → String → Tx (Unit {0})
enqueue_export c d marker s =
    enqueued
      (enqueue
        (record {
          kind = "oss_export";
          idempotency_key = "oss_export:device:" ++ c.text_of d.id ++ ":" ++ marker;
          payload = c.payload d;
          target_epoch = none;
          employee_id = none;
          device_id = some d.id;
          max_attempts = pos 0;
          not_before = none;
        })
        s.next_id c.wall c.now s.queue)
      s

-- `auditTarget` of go/internal/ops/ops.go, without the JSON of what was before and after.
unfoldable pub audit_target : Call → String → String → ℕ → Tx (Unit {0})
audit_target c action target_type target_id s = done tt (record s {
  audit = appended s.audit (record {
    occurred_at = c.wall;
    actor = c.actor;
    action = action;
    target_type = target_type;
    target_id = target_id;
    request_id = c.request_id;
  });
})

-- The kind of the rollout that a target belongs to is not `global`.
abbrev pub is_private : RolloutKind → Bool
is_private global = false
is_private _ = true

abbrev pub pins : Option Target → Tx Bool → Tx Bool
pins none rest s = rest s
pins (some t) rest s = (do ro ← rollout_by_id t.rollout_id; answer (is_private ro.kind)) s

-- `machineHasPrivateTarget`: the open target decides, then the last that succeeded.
unfoldable pub has_private_target : ℕ → String → Tx Bool
has_private_target device product s =
    pins (open_target device product s) (pins (last_succeeded device product s) (answer false)) s

abbrev pub takes : Artifact → Device → Bool
takes a d =
    not d.is_revoked
    && (agent_can_take_targets d.agent_version
        && not
            (not (str_eq a.min_agent_version "") && is_older d.agent_version a.min_agent_version))

abbrev pub keep_unless : Bool → Device → List Device → List Device
keep_unless true d ds = ds
keep_unless false d ds = d ∷ ds

-- The machines that follow the fleet target.
unfoldable pub eligible : Artifact → List Device → Tx (List Device)
eligible a [] = answer []
eligible a (d ∷ ds) =
    let rest = eligible a ds in
    if takes a d
    then (do
      pinned ← has_private_target d.id a.product
      more ← rest
      answer (keep_unless pinned d more))
    else rest

unfoldable pub aim : Call → Artifact → ℕ → Device → Tx Target
aim c a rollout d = do
  t ← create_target d.id a.product a.id rollout c.now
  enqueue_export c d ("target:" ++ c.text_of t.id)
  answer t

unfoldable pub aim_all : Call → Artifact → ℕ → List Device → Tx (Unit {0})
aim_all c a rollout [] = answer tt
aim_all c a rollout (d ∷ ds) = let rest = aim_all c a rollout ds in do t ← aim c a rollout d; rest

unfoldable pub global_for : Call → Artifact → List Device → Tx (Unit {0})
global_for c a [] = answer tt
global_for c a (d ∷ ds) = do
  ro ←
      create_rollout_row
        (record {
          product = a.product;
          artifact_id = a.id;
          kind = global;
          rollback_of = none;
          note = "全局目标";
          created_by = c.actor;
        })
        c.now
  audit_target c "release.global_target" "rollout" ro.id
  aim_all c a ro.id (d ∷ ds)

-- The body of the transaction of `createGlobalRollout`.
unfoldable pub create_global_rollout : Call → Artifact → Tx (Unit {0})
create_global_rollout c a = do
  devices ← gets (λ s. s.devices)
  chosen ← eligible a devices
  global_for c a chosen

pub record RolloutSpec : Type 0 where
  pub product : String
  pub artifact_id : ℕ
  pub device_ids : List ℕ
  pub kind : Option RolloutKind
  pub rollback_of : Option ℕ
  pub note : String

abbrev kind_or_release : Option RolloutKind → RolloutKind
kind_or_release none = release
kind_or_release (some k) = k

abbrev pub retired_status : ArtifactStatus → Bool
retired_status retired = true
retired_status _ = false

-- One machine of `CreateRollout`.
unfoldable pub roll_out_to : Call → Artifact → ℕ → ℕ → Tx (Unit {0})
roll_out_to c a rollout id = do
  d ← device_by_id id
  refuse_if d.is_revoked is_revoked
  refuse_if (not (agent_can_take_targets d.agent_version)) fleet_only
  refuse_if (not (str_eq a.min_agent_version "") && is_older d.agent_version a.min_agent_version)
      too_old
  t ← aim c a rollout d
  audit_target c "release.rollout_create" "device" d.id

abbrev pub member : ℕ → List ℕ → Bool
member n [] = false
member n (x ∷ xs) = (x == n) || member n xs

-- The loop; `seen` are the machines that were done.
unfoldable pub roll_out_all : Call → Artifact → ℕ → List ℕ → List ℕ → Tx (Unit {0})
roll_out_all c a rollout seen [] = answer tt
roll_out_all c a rollout seen (id ∷ ids) =
    let skip = roll_out_all c a rollout seen ids in
    let rest = roll_out_all c a rollout (id ∷ seen) ids in
    if member id seen then skip else (do roll_out_to c a rollout id; rest)

-- The body of the transaction of `CreateRollout`.
unfoldable pub roll_out : Call → RolloutSpec → Tx Rollout
roll_out c spec = do
  a ← artifact_by_id spec.artifact_id
  refuse_if (not (str_eq a.product spec.product)) wrong_product
  refuse_if (retired_status a.status) is_retired
  ro ←
      create_rollout_row
        (record {
          product = spec.product;
          artifact_id = a.id;
          kind = kind_or_release spec.kind;
          rollback_of = spec.rollback_of;
          note = spec.note;
          created_by = c.actor;
        })
        c.now
  roll_out_all c a ro.id [] spec.device_ids
  answer ro

abbrev pub no_ids : List ℕ → Bool
no_ids [] = true
no_ids (x ∷ xs) = false

unfoldable pub create_rollout : Call → RolloutSpec → Store → Store × Ran Rollout
create_rollout c spec = in_tx (do refuse_if (no_ids spec.device_ids) no_machine; roll_out c spec)

-- The exports for the targets of a list that are pending.
unfoldable pub export_pending : Call → (Target → Device → String) → List Target → Tx (Unit {0})
export_pending c marker [] = answer tt
export_pending c marker (t ∷ ts) =
    let rest = export_pending c marker ts in
    if is_pending t.status
    then (do d ← device_by_id t.device_id; enqueue_export c d (marker t d); rest)
    else rest

abbrev pub reexport_pending : Call → ℕ → String → Tx (Unit {0})
reexport_pending c rollout marker = do
  targets ← gets (targets_by_rollout rollout)
  export_pending c (λ t d. marker ++ ":" ++ c.text_of d.id) targets

abbrev pause_text : Bool → String
pause_text true = "true"
pause_text false = "false"

unfoldable pub set_rollout_paused : Call → ℕ → Bool → Store → Store × Ran (Unit {0})
set_rollout_paused c id paused = in_tx (do
  ro ← pause_rollout id paused c.actor c.now
  reexport_pending c ro.id
      ("pause:" ++ c.text_of ro.id ++ ":" ++ pause_text paused ++ ":" ++ c.text_of c.wall)
  audit_target c "release.rollout_pause" "rollout" ro.id)

unfoldable pub cancel_rollout : Call → ℕ → Store → Store × Ran ℕ
cancel_rollout c id = in_tx (do
  targets ← gets (targets_by_rollout id)
  n ← cancel_pending id c.now
  export_pending c (λ t d. "cancel:" ++ c.text_of t.id) targets
  audit_target c "release.rollout_cancel" "rollout" id
  answer n)

unfoldable pub exclude_for : Call → ℕ → String → Tx (Unit {0})
exclude_for c id reason = do
  refuse_if (str_eq reason "") no_reason
  t ← finish_target id excluded reason "" c.now
  d ← device_by_id t.device_id
  enqueue_export c d ("exclude:" ++ c.text_of t.id)
  audit_target c "release.target_exclude" "device" d.id

unfoldable pub exclude_target : Call → ℕ → String → Store → Store × Ran (Unit {0})
exclude_target c id reason = in_tx (exclude_for c id (trim_right (trim_left reason)))

abbrev pub failed_status : TargetStatus → Bool
failed_status failed = true
failed_status _ = false

unfoldable pub retry_target : Call → ℕ → Store → Store × Ran Target
retry_target c id = in_tx (do
  old ← target_by_id id
  refuse_if (not (failed_status old.status)) not_failed
  d ← device_by_id old.device_id
  t ← create_target d.id old.product old.artifact_id old.rollout_id c.now
  enqueue_export c d ("target:" ++ c.text_of t.id)
  audit_target c "release.target_retry" "device" d.id
  answer t)

abbrev pub cancel_open : Call → Option Target → Tx (Unit {0})
cancel_open c none = answer tt
cancel_open c (some t) = do done_t ← finish_target t.id cancelled "改为跟随全局" "" c.now; answer tt

unfoldable pub follow_global : Call → ℕ → String → Store → Store × Ran (Unit {0})
follow_global c device product = in_tx (do
  refuse_if (not (str_eq product product_agent || str_eq product product_codex)) unknown_product
  d ← device_by_id device
  open_one ← gets (open_target d.id product)
  cancel_open c open_one
  n ← release_succeeded d.id product c.now
  enqueue_export c d ("follow-global:" ++ product ++ ":" ++ c.text_of c.wall)
  audit_target c "release.follow_global" "device" d.id)
