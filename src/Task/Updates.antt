-- ===== src/Task/Updates.antt =====
-- What the statements of go/internal/dbstore/tasks.go write into one row of `tasks` or
-- `task_attempts`.
use ai_env_mgr.Base.{
  ℕ, ◌+◌, String, Bool, ◌&&◌, Option, none, some, str_eq, leb, if◌then◌else◌, positive_or,
}
use ai_env_mgr.Task.{
  Status, pending, running, succeeded, failed, superseded, Outcome, Task, NewTask, Attempt,
  is_failed, has_key, left, or_else, default_max_attempts, after_failure,
}

-- The row that `insert into tasks` makes of the prepared arguments.
unfoldable pub new_row : NewTask → ℕ → ℕ → ℕ → Task
new_row n fresh wall now = record {
  id = fresh;
  kind = n.kind;
  idempotency_key = n.idempotency_key;
  payload = if str_eq n.payload "" then "{}" else n.payload;
  status = pending;
  attempts = 0;
  max_attempts = positive_or default_max_attempts n.max_attempts;
  lease_until = none;
  lease_owner = none;
  next_run_at = or_else n.not_before wall;
  last_error = "";
  target_epoch = n.target_epoch;
  employee_id = n.employee_id;
  device_id = n.device_id;
  created_at = now;
  updated_at = now;
  finished_at = none;
}

unfoldable pub revive_row : ℕ → Task → Task
revive_row now t = record t {
  status = pending;
  next_run_at = now;
  finished_at = none;
  last_error = "";
  lease_owner = none;
  lease_until = none;
  updated_at = now;
}

abbrev pub failed_under : String → Task → Bool
failed_under key t = has_key key t && is_failed t.status

unfoldable pub claim_row : String → ℕ → ℕ → Task → Task
claim_row owner lease now t = record t {
  status = running;
  attempts = t.attempts + 1;
  lease_owner = some owner;
  lease_until = some (now + lease);
  updated_at = now;
}

unfoldable pub open_attempt : ℕ → ℕ → String → ℕ → Attempt
open_attempt id n owner now = record {
  task_id = id;
  attempt = n;
  owner = owner;
  started_at = now;
  ended_at = none;
  outcome = none;
  error_class = "";
  error_detail = "";
  external_ref = "";
}

unfoldable pub extend_row : ℕ → ℕ → Task → Task
extend_row lease now t = record t { lease_until = some (now + lease); updated_at = now }

unfoldable pub succeed_row : ℕ → Task → Task
succeed_row now t = record t {
  status = succeeded;
  finished_at = some now;
  lease_owner = none;
  lease_until = none;
  last_error = "";
  updated_at = now;
}

abbrev pub end_of_failure : ℕ → Task → Option ℕ
end_of_failure now t = if leb t.max_attempts t.attempts then some now else none

unfoldable pub fail_row : ℕ → String → ℕ → Task → Task
fail_row retry_at detail now t = record t {
  status = after_failure t;
  finished_at = end_of_failure now t;
  next_run_at = retry_at;
  last_error = left 2000 detail;
  lease_owner = none;
  lease_until = none;
  updated_at = now;
}

abbrev pub close_attempt : Outcome → String → String → String → ℕ → Attempt → Attempt
close_attempt outcome class detail ref now a = record a {
  ended_at = some now;
  outcome = some outcome;
  error_class = class;
  error_detail = left 2000 detail;
  external_ref = ref;
}

abbrev pub outcome_of : Status → Outcome
outcome_of failed = Outcome.failed
outcome_of _ = Outcome.retry

unfoldable pub fail_permanently_row : String → ℕ → Task → Task
fail_permanently_row detail now t = record t {
  status = failed;
  finished_at = some now;
  next_run_at = now;
  last_error = left 2000 detail;
  lease_owner = none;
  lease_until = none;
  updated_at = now;
}

unfoldable pub supersede_row : String → ℕ → Task → Task
supersede_row reason now t = record t {
  status = superseded;
  finished_at = some now;
  lease_owner = none;
  lease_until = none;
  last_error = reason;
  updated_at = now;
}

unfoldable pub expire_row : ℕ → Task → Task
expire_row now t = record t {
  status = after_failure t;
  finished_at = end_of_failure now t;
  lease_owner = none;
  lease_until = none;
  last_error = "the worker stopped holding this task";
  updated_at = now;
}
