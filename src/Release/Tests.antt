-- ===== src/Release/Tests.antt =====
-- Releases on a small fleet, and the theorems at inputs that meet their hypotheses.
use mathlib.Core.List.{Memᴰ}
use ai_env_mgr.Base.{
  pos, map, ℕ, ◌≡◌, ◌⊎◌, refl, true, false, none, some, List, [], ◌∷◌, ◌++◌, arith, first, ◌==◌,
}
use ai_env_mgr.Queue.Steps.{empty}
use ai_env_mgr.Release.{
  stable, Artifact, release, Rollout, pending, failed, Target, Device, Store, Refusal, done,
  refused, duplicate, Call, in_tx, go_on,
}
use ai_env_mgr.Release.Rows.{create_target, open_target}
use ai_env_mgr.Queue.{enqueue, insert_task}
use ai_env_mgr.Task.Updates.{new_row}
use ai_env_mgr.Release.{superseded, succeeded, TargetStatus}
use ai_env_mgr.Release.Rows.{
  insert_target, create_rollout_row, replaced_row, last_generation, new_target, finish_target,
  finished_row,
}
use ai_env_mgr.Release.Service.{
  roll_out, roll_out_all, roll_out_to, aim, enqueue_export, audit_target,
}
use ai_env_mgr.Release.Settle.{settle_targets, settle_at, settle_target, after_success}
use ai_env_mgr.Version.{
  agent_can_take_targets, compare_versions, compare_numbers, compare_number, compare_suffix,
  compare_text, split_version, cut, drop_v, trim_left, trim_right, split_dots, numbers, atoi,
  digits, is_space,
}
use ai_env_mgr.Release.Orderly.{IsOrderly, Kept}
use ai_env_mgr.Release.Service.{
  RolloutSpec, create_rollout, create_global_rollout, retired_status, member, has_private_target,
}
use ai_env_mgr.Release.Schedules.{Op, run, roll, settle, cancel, follow, run-IsOrderly, run-Kept}
use ai_env_mgr.Release.Rollouts.{Fit, Served, replaced_targets, opened, create_target-race}
use ai_env_mgr.Release.Coverage.{create_rollout-covers}
use ai_env_mgr.Release.Settle.{Report, settle_product, about_agent}
use ai_env_mgr.Release.Reported.{Outcome, settle_product-cases}
use ai_env_mgr.Release.Global.{Untouched, pinned-Untouched}

abbrev agent_1218 : Artifact
agent_1218 = record {
  id = 1;
  product = "agent";
  version = "1.2.18";
  sha256 = "";
  size_bytes = pos 1;
  object_key = "agent/1.2.18.exe";
  status = stable;
  notes = "";
  source = "";
  min_agent_version = "1.2.16";
  acceptance_note = "";
  accepted_by = "";
  accepted_at = none;
  created_by = "";
  created_at = 10;
  updated_at = 10;
}

abbrev machine : Device
machine = record { id = 2; hostname = "pc-2"; is_revoked = false; agent_version = "1.2.17" }

abbrev first_rollout : Rollout
first_rollout = record {
  id = 3;
  product = "agent";
  artifact_id = 1;
  kind = release;
  rollback_of = none;
  note = "";
  created_by = "admin";
  created_at = 20;
  paused_at = none;
  paused_by = "";
}

abbrev old_target : Target
old_target = record {
  id = 4;
  device_id = 2;
  product = "agent";
  artifact_id = 1;
  rollout_id = 3;
  generation = 1;
  status = failed;
  result_note = "";
  reported_version = "";
  exclude_reason = "";
  created_at = 20;
  updated_at = 25;
  finished_at = some 25;
  released_at = none;
}

abbrev open_now : Target
open_now = record old_target { id = 5; generation = 2; status = pending; finished_at = none }

abbrev fleet : Store
fleet = record {
  artifacts = agent_1218 ∷ [];
  rollouts = first_rollout ∷ [];
  targets = old_target ∷ open_now ∷ [];
  devices = machine ∷ [];
  employees = [];
  models = [];
  quotas = [];
  bindings = [];
  grants = [];
  credentials = [];
  queue = empty;
  audit = [];
  next_id = 6;
}

abbrev call : Call
call = record {
  now = 30;
  wall = 30;
  actor = "admin";
  request_id = "r1";
  text_of = λ n. "id";
  payload = λ d. "{}";
  employee_payload = λ e. "{}";
  itoa = λ n. "1";
  nonce = "n";
  stamp = "20260102T150405";
  lower = λ t. t;
}

abbrev again : RolloutSpec
again = record {
  product = "agent";
  artifact_id = 1;
  device_ids = 2 ∷ 2 ∷ [];
  kind = none;
  rollback_of = none;
  note = "";
}

abbrev report : Report
report = record {
  reported_at = some 28;
  agent_version = "1.2.18";
  agent_update_target = "1.2.18";
  agent_update_generation = 2;
  agent_update_state = "";
  codex_version = "";
  codex_target = "";
  codex_target_generation = 0;
  codex_state = "";
  errors = [];
}

abbrev schedule : List (Call × Op)
schedule =
    (call, settle 2 report) ∷ (call, roll again) ∷ (call, cancel 3) ∷ (call, follow 2 "agent") ∷ []

fleet-IsOrderly : IsOrderly fleet.targets
fleet-IsOrderly = (((λ d p. (omega arith, refl)), tt), (tt, tt))

run-IsOrderly_example : IsOrderly (run schedule fleet).targets
run-IsOrderly_example = run-IsOrderly schedule fleet fleet-IsOrderly

run-Kept_example : Kept old_target (run schedule fleet).targets
run-Kept_example = run-Kept schedule fleet old_target (Memᴰ.head refl) refl

abbrev after_target : Store
after_target = record fleet {
  targets = replaced_targets 2 "agent" 30 fleet ++ opened 2 "agent" 1 3 30 fleet ∷ [];
  next_id = 7;
}

create_target-race_example :
    (create_target 2 "agent" 1 3 30 fleet ≡ done (opened 2 "agent" 1 3 30 fleet) after_target)
    × (insert_target (record open_now { id = 6 }) after_target ≡ refused duplicate)
create_target-race_example =
    create_target-race 2 1 3 30 "agent" fleet after_target (record open_now { id = 6 }) refl refl
      refl

create_rollout-covers_example :
    ((e : Refusal) × (create_rollout call again fleet ≡ (fleet, refused e)))
    ⊎ ((ro : Rollout) × (s' : Store) × (create_rollout call again fleet ≡ (s', done ro s'))
        × (a : Artifact) × Memᴰ a fleet.artifacts
        × (a.id ≡ again.artifact_id)
        × (a.product ≡ again.product)
        × (retired_status a.status ≡ false)
        × ((id : ℕ)
            → member id again.device_ids ≡ true
            → Fit a id fleet.devices × Served a ro.id id s'.targets))
create_rollout-covers_example = create_rollout-covers call again fleet

settle_product-cases_example :
    ((settle_product call 2 28 [] (about_agent report) fleet).0 ≡ fleet)
    ⊎ ((t : Target) × (a : Artifact) × (open_target 2 "agent" fleet ≡ some t)
        × (first (λ x. x.id == t.artifact_id) fleet.artifacts ≡ some a)
        × Outcome 28
            (about_agent report)
            t
            a
            (settle_product call 2 28 [] (about_agent report) fleet).0)
settle_product-cases_example = settle_product-cases call 2 28 [] (about_agent report) fleet

pinned_here : has_private_target 2 "agent" fleet ≡ done true fleet
unfolding has_private_target go_on
pinned_here = refl

pinned-Untouched_example :
    Untouched 2 fleet.targets (in_tx (create_global_rollout call agent_1218) fleet).0.targets
pinned-Untouched_example = pinned-Untouched call agent_1218 2 fleet pinned_here

abbrev states : Target → ℕ × TargetStatus
states t = (t.generation, t.status)

-- The rollout goes through, and the open target gives way to the next generation.
again_runs :
    map states (create_rollout call again fleet).0.targets
    ≡ (1, failed) ∷ (2, superseded) ∷ (3, pending) ∷ []
unfolding create_rollout in_tx go_on roll_out roll_out_all roll_out_to aim create_target
    insert_target create_rollout_row replaced_row last_generation new_target enqueue_export
    audit_target agent_can_take_targets enqueue insert_task new_row compare_versions compare_numbers
    compare_number compare_suffix compare_text split_version cut drop_v trim_left trim_right
    split_dots numbers atoi digits is_space
again_runs = refl

-- The report settles the open target.
report_runs :
    map states (settle_targets call 2 report fleet).0.targets ≡ (1, failed) ∷ (2, succeeded) ∷ []
unfolding settle_at settle_product settle_target after_success finish_target finished_row
report_runs = refl
