-- ===== src/Release/Schedules.antt =====
-- Whatever is done to releases, in any order: the operations of go/internal/ops/releases.go and the
-- reports of go/internal/worker/settle.go.
use mathlib.Core.List.{Memᴰ}
use ai_env_mgr.Base.{ℕ, String, ◌≡◌, Bool, false, List, [], ◌∷◌}
use ai_env_mgr.Release.{Artifact, ArtifactStatus, NewArtifact, Target, Store, Call, in_tx}
use ai_env_mgr.Release.Rows.{is_pending}
use ai_env_mgr.Release.Moves.{Moves, stay, Moves-trans}
use ai_env_mgr.Release.Orderly.{IsOrderly, Moves-IsOrderly, Kept, Moves-Kept}
use ai_env_mgr.Release.Kept.{in_tx-Moves}
use ai_env_mgr.Release.Operations.{
  create_global_rollout-Moved, create_rollout-Moves, set_rollout_paused-Moves, cancel_rollout-Moves,
  exclude_target-Moves, retry_target-Moves, follow_global-Moves,
}
use ai_env_mgr.Release.Settled.{
  settle_targets-Moves, register_artifact-Moves, change_status-Moves, change_notes-Moves,
}
use ai_env_mgr.Release.Service.{
  RolloutSpec, create_global_rollout, create_rollout, set_rollout_paused, cancel_rollout,
  exclude_target, retry_target, follow_global,
}
use ai_env_mgr.Release.Settle.{Report, settle_targets}
use ai_env_mgr.Release.Library.{register_artifact, change_status, change_notes}

pub data Op : Type 0 where
  register : (String → String → Bool) → NewArtifact → Op
  mark : (id : ℕ) → ArtifactStatus → (note : String) → Op
  annotate : (id : ℕ) → (notes : String) → Op
  publish : Artifact → Op
  roll : RolloutSpec → Op
  pause : (id : ℕ) → Bool → Op
  cancel : (id : ℕ) → Op
  exclude : (id : ℕ) → (reason : String) → Op
  retry : (id : ℕ) → Op
  follow : (device : ℕ) → (product : String) → Op
  settle : (device : ℕ) → Report → Op

unfoldable pub apply : Call → Op → Store → Store
apply c (register equal_fold n) s = (register_artifact c equal_fold n s).0
apply c (mark id status note) s = (change_status c id status note s).0
apply c (annotate id notes) s = (change_notes c id notes s).0
apply c (publish a) s = (in_tx (create_global_rollout c a) s).0
apply c (roll spec) s = (create_rollout c spec s).0
apply c (pause id paused) s = (set_rollout_paused c id paused s).0
apply c (cancel id) s = (cancel_rollout c id s).0
apply c (exclude id reason) s = (exclude_target c id reason s).0
apply c (retry id) s = (retry_target c id s).0
apply c (follow device product) s = (follow_global c device product s).0
apply c (settle device r) s = (settle_targets c device r s).0

unfoldable pub run : List (Call × Op) → Store → Store
run [] s = s
run ((c, op) ∷ ops) s = run ops (apply c op s)

apply-Moves : (c : Call) (op : Op) (s : Store) → Moves s.targets (apply c op s).targets
unfolding apply
apply-Moves c (register equal_fold n) s = register_artifact-Moves c equal_fold n s
apply-Moves c (mark id status note) s = change_status-Moves c id status note s
apply-Moves c (annotate id notes) s = change_notes-Moves c id notes s
apply-Moves c (publish a) s = in_tx-Moves _ s (create_global_rollout-Moved c a s)
apply-Moves c (roll spec) s = create_rollout-Moves c spec s
apply-Moves c (pause id paused) s = set_rollout_paused-Moves c id paused s
apply-Moves c (cancel id) s = cancel_rollout-Moves c id s
apply-Moves c (exclude id reason) s = exclude_target-Moves c id reason s
apply-Moves c (retry id) s = retry_target-Moves c id s
apply-Moves c (follow device product) s = follow_global-Moves c device product s
apply-Moves c (settle device r) s = settle_targets-Moves c device r s

run-Moves : (ops : List (Call × Op)) (s : Store) → Moves s.targets (run ops s).targets
unfolding run
run-Moves [] s = stay
run-Moves ((c, op) ∷ ops) s =
    Moves-trans s.targets (apply c op s).targets _ (apply-Moves c op s)
      (run-Moves ops (apply c op s))

-- From orderly targets, whatever is done, the targets stay orderly: of a machine and a product, every
-- later row has a higher generation, and only the last may be pending.
pub run-IsOrderly :
    (ops : List (Call × Op)) (s : Store) → IsOrderly s.targets → IsOrderly (run ops s).targets
run-IsOrderly ops s h = Moves-IsOrderly s.targets (run ops s).targets (run-Moves ops s) h

-- A settled target stays on record under its id, generation and status, whatever is done later.
pub run-Kept :
    (ops : List (Call × Op)) (s : Store) (t : Target)
    → Memᴰ t s.targets
    → is_pending t.status ≡ false
    → Kept t (run ops s).targets
run-Kept ops s t = Moves-Kept s.targets (run ops s).targets t (run-Moves ops s)
