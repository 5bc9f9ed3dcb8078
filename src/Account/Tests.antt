-- ===== src/Account/Tests.antt =====
-- An account that is closed, and the theorems at inputs that meet their hypotheses.
use ai_env_mgr.Base.{
  map, ℕ, Option, pos, ◌≡◌, refl, true, false, none, some, List, [], ◌∷◌, arith, All,
}
use mathlib.Core.List.{Memᴰ}
use ai_env_mgr.Task.{Task, pending}
use ai_env_mgr.Account.{
  active, offboarded, Employee, Binding, Grant, Actual, Desired, Credential, Quota,
}
use ai_env_mgr.Account.Limits.{
  is_valid_quota, is_decimal, cut_dot, digits_between, is_zero, with_quota_defaults,
}
use ai_env_mgr.Version.{trim_left, trim_right, is_space}
use ai_env_mgr.Task.{overtaken}
use ai_env_mgr.Task.Updates.{new_row, supersede_row}
use ai_env_mgr.Queue.{enqueue, insert_task, revive_failed}
use ai_env_mgr.Queue.Sweep.{supersede_open}
use ai_env_mgr.Release.{go_on, in_tx}
use ai_env_mgr.Release.Service.{enqueue_export, audit_target}
use ai_env_mgr.Account.Employees.{employee_by_id, offboard_row, offboarded_row}
use ai_env_mgr.Account.Access.{
  open_binding, last_epoch, new_binding, bind_row, unbound_row, unbind_row, active_grant,
  revoke_row, revoked_row, retire,
}
use ai_env_mgr.Account.Service.{
  offboard, offboard_tx, supersede_work, revoke_grant, enqueue_gateway_work,
  enqueue_employee_export,
}
use ai_env_mgr.Account.Steps.{Op, offboards, reissues, binds, forgets, apply, run}
use ai_env_mgr.Account.Machines.{
  bind_machine, bind_tx, ensure_device, device_by_hostname, forget_machine, forget_tx,
  revoke_device,
}
use ai_env_mgr.Account.Epochs.{IsLater, run-IsLater}
use ai_env_mgr.Account.Bindings.{AreSequenced, run-AreSequenced}
use ai_env_mgr.Account.Closing.{IsAimed, IsSingle, IsClosed}
use ai_env_mgr.Account.Closing.Done.{offboard-IsClosed}
use ai_env_mgr.Release.{Store, done, Call}

abbrev ann : Employee
ann = record {
  id = 7;
  windows_user = "ann";
  external_id = "";
  name = "Ann";
  department = "";
  codex_account = "";
  email = "";
  status = active;
  auth_epoch = 3;
  version = 5;
  created_at = 1;
  updated_at = 2;
  offboarded_at = none;
  deleted_at = none;
}

abbrev token : Credential
token = record {
  id = 8;
  employee_id = 7;
  epoch = 3;
  purpose = "codex_gateway";
  ciphertext = 1 ∷ [];
  key_version = "k1";
  content_sha256 = [];
  created_at = 2;
  retired_at = none;
}

abbrev grant : Grant
grant = record {
  id = 9;
  employee_id = 7;
  epoch = 3;
  gateway = "litellm";
  external_user = "emp-ann";
  key_alias = "ann-3";
  models = [];
  desired = Desired.active;
  actual = Actual.active;
  credential_id = some 8;
  reconciled_at = none;
  last_error = "";
  created_at = 2;
  updated_at = 2;
}

abbrev binding : Binding
binding = record {
  id = 10;
  device_id = 4;
  employee_id = 7;
  epoch = 1;
  note = "";
  bound_at = 2;
  bound_by = "admin";
  unbound_at = none;
  unbound_by = "";
  restart_nonce = "";
  restart_at = none;
}

abbrev old_work : Task
old_work = record {
  id = 11;
  kind = "gateway_provision";
  idempotency_key = "gateway_provision:7:3";
  payload = "{}";
  status = pending;
  attempts = 0;
  max_attempts = 10;
  lease_until = none;
  lease_owner = none;
  next_run_at = 2;
  last_error = "";
  target_epoch = some 3;
  employee_id = some 7;
  device_id = none;
  created_at = 2;
  updated_at = 2;
  finished_at = none;
}

abbrev office : Store
office = record {
  artifacts = [];
  rollouts = [];
  targets = [];
  devices =
      record { id = 4; hostname = "desk-1"; is_revoked = false; agent_version = "1.2.18" } ∷ [];
  employees = ann ∷ [];
  models = [];
  quotas = [];
  bindings = binding ∷ [];
  grants = grant ∷ [];
  credentials = token ∷ [];
  queue = record { tasks = old_work ∷ []; log = [] };
  audit = [];
  next_id = 12;
}

abbrev call : Call
call = record {
  now = 30;
  wall = 30;
  actor = "admin";
  request_id = "r1";
  text_of = λ n. "7";
  payload = λ d. "{}";
  employee_payload = λ e. "{}";
  itoa = λ n. "4";
  nonce = "n";
  stamp = "20260102T150405";
  lower = λ t. t;
}

abbrev gone : Employee
gone = record ann {
  status = offboarded;
  offboarded_at = some 30;
  auth_epoch = 4;
  version = 6;
  updated_at = 30;
}

closes : offboard call 7 office ≡ ((offboard call 7 office).0, done gone (offboard call 7 office).0)
unfolding offboard in_tx offboard_tx go_on employee_by_id offboard_row offboarded_row supersede_work
    supersede_open overtaken supersede_row retire revoke_grant active_grant revoke_row revoked_row
    enqueue_gateway_work enqueue_employee_export enqueue insert_task new_row audit_target
closes = refl

one_grant : (x y : Grant) → Memᴰ x (grant ∷ []) → Memᴰ y (grant ∷ []) → x.id ≡ y.id
one_grant x y (Memᴰ.head e) (Memᴰ.head d) = rw (e, d) refl
one_grant x y (Memᴰ.head e) (Memᴰ.tail m) = elim m [ ]
one_grant x y (Memᴰ.tail m) n = elim m [ ]

office-IsSingle : IsSingle office.grants
office-IsSingle gateway employee g h m n a b = one_grant g h m n

office-IsAimed : All (λ t. (x : Employee) → x.id ≡ 7 → IsAimed call x t) office.queue.tasks
office-IsAimed = ((λ x e. ((λ k. absurd (ground arith)), (λ k. absurd (ground arith)))), tt)

offboard-IsClosed_example : IsClosed gone (offboard call 7 office).0
offboard-IsClosed_example =
    offboard-IsClosed call 7 office (offboard call 7 office).0 gone office-IsSingle office-IsAimed
      closes

abbrev busy : List (Call × Op)
busy = (call, offboards 7) ∷ (call, reissues 7) ∷ (call, binds "desk-1" 7 "") ∷ []

run-IsLater_example :
    (later : Employee) × (Memᴰ later (run busy office).employees × IsLater ann later)
run-IsLater_example = run-IsLater busy office ann (Memᴰ.head refl)

office-AreSequenced : AreSequenced office.bindings
unfolding AreSequenced
office-AreSequenced = (tt, tt)

-- The machine is bound again, forgotten, and bound once more.
abbrev moves : List (Call × Op)
moves =
    (call, binds "desk-1" 7 "again")
    ∷ (call, forgets "desk-1")
    ∷ (call, binds "desk-1" 7 "back")
    ∷ []

abbrev epoch_and_end : Binding → ℕ × Option ℕ
epoch_and_end b = (b.epoch, b.unbound_at)

three_epochs :
    map epoch_and_end (run moves office).bindings ≡ (1, some 30) ∷ (2, some 30) ∷ (3, none) ∷ []
unfolding run apply bind_machine bind_tx ensure_device trim_right trim_left is_space in_tx go_on
    employee_by_id open_binding last_epoch new_binding bind_row unbound_row unbind_row
    enqueue_export enqueue_employee_export enqueue insert_task new_row audit_target forget_machine
    forget_tx device_by_hostname revoke_device revive_failed
three_epochs = refl

run-AreSequenced_example : AreSequenced (run moves office).bindings
run-AreSequenced_example = run-AreSequenced moves office office-AreSequenced

abbrev form : Quota
form = record {
  monthly_budget = "12.50";
  currency = "";
  rpm = pos 60;
  tpm = pos 90000;
  parallel = pos 2;
  period_rule = "";
  period_tz = "";
  version = 0;
  updated_at = 0;
}

takes_form : is_valid_quota (with_quota_defaults form) ≡ true
unfolding is_valid_quota is_decimal cut_dot with_quota_defaults trim_right trim_left is_space
    digits_between is_zero
takes_form = refl

-- A budget of nothing would block the employee at once.
refuses_zero :
    is_valid_quota (with_quota_defaults (record form { monthly_budget = "0.00" })) ≡ false
unfolding is_valid_quota is_decimal cut_dot with_quota_defaults trim_right trim_left is_space
    digits_between is_zero
refuses_zero = refl
