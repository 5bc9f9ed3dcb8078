-- ===== src/Account/Service.antt =====
-- The operations on accounts of go/internal/ops/ops.go, each one transaction. The JSON of audit rows
-- is left out.
use Prim.Native.String.{◌++◌}
use ai_env_mgr.Base.{
  ℕ, ◌+◌, String, Bool, true, false, not, Option, none, some, List, str_eq, if◌then◌else◌, pos,
}
use ai_env_mgr.Queue.{enqueue}
use ai_env_mgr.Queue.Sweep.{supersede_open}
use ai_env_mgr.Account.{Employee, Profile, is_active, Quota, QuotaRow, Grant, purpose_codex_gateway}
use ai_env_mgr.Account.Employees.{
  normalize_windows_user, employee_by_id, employee_named, create_employee, update_profile_row,
  offboard_row, reopen_row, delete_row, bump_row, set_model_rows,
}
use ai_env_mgr.Account.Limits.{quota_of, set_quota_row}
use ai_env_mgr.Account.Access.{active_grant, revoke_row, retire}
use ai_env_mgr.Release.{
  Store, required, is_closed, still_open, Ran, done, refused, Tx, ◌>>=◌, ◌>>◌, answer, refuse_if,
  in_tx, Call,
}
use ai_env_mgr.Release.Service.{enqueued, audit_target}

pub record OnboardSpec : Type 0 where
  pub windows_user : String
  pub name : String
  pub department : String
  pub codex_account : String
  pub email : String
  pub external_id : String
  pub quota : Quota
  pub models : List String

abbrev pub with_marker : String → String → String
with_marker key marker = if str_eq marker "" then key else key ++ ":" ++ marker

abbrev pub gateway_key : Call → Employee → String → String → String
gateway_key c e kind marker =
    with_marker (kind ++ ":" ++ c.text_of e.id ++ ":" ++ c.itoa e.auth_epoch) marker

abbrev pub export_key : Call → Employee → String → String
export_key c e marker = "oss_export:employee:" ++ c.text_of e.id ++ ":" ++ marker

abbrev pub enqueue_for : Call → Employee → (kind key : String) → Tx (Unit {0})
enqueue_for c e kind key s =
    enqueued
      (enqueue
        (record {
          kind = kind;
          idempotency_key = key;
          payload = c.employee_payload e;
          target_epoch = some e.auth_epoch;
          employee_id = some e.id;
          device_id = none;
          max_attempts = pos 0;
          not_before = none;
        })
        s.next_id c.wall c.now s.queue)
      s

-- `enqueueGatewayWork`.
unfoldable pub enqueue_gateway_work : Call → Employee → (kind marker : String) → Tx (Unit {0})
enqueue_gateway_work c e kind marker = enqueue_for c e kind (gateway_key c e kind marker)

-- `enqueueEmployeeExport`.
unfoldable pub enqueue_employee_export : Call → Employee → (marker : String) → Tx (Unit {0})
enqueue_employee_export c e marker = enqueue_for c e "oss_export" (export_key c e marker)

abbrev pub epoch_marker : Call → Employee → String
epoch_marker c e = "e" ++ c.itoa e.auth_epoch

-- `SupersedeOpenForEmployee` on the queue of this store.
unfoldable pub supersede_work : ℕ → ℕ → ℕ → Tx ℕ
supersede_work employee epoch now s =
    done (supersede_open employee epoch now s.queue).1
      (record s { queue = (supersede_open employee epoch now s.queue).0 })

abbrev pub revoke_if : Option Grant → ℕ → Tx (Unit {0})
revoke_if none now = answer tt
revoke_if (some g) now = do revoke_row g.id now; answer tt

-- `revokeGrant`.
unfoldable pub revoke_grant : Call → Employee → Tx (Unit {0})
revoke_grant c e s = revoke_if (active_grant "" e.id s) c.now s

-- `replaceOutstandingWork`.
unfoldable pub replace_outstanding_work : Call → Employee → Tx (Unit {0})
replace_outstanding_work c e = do
  supersede_work e.id e.auth_epoch c.now
  revoke_grant c e
  enqueue_gateway_work c e "gateway_provision" ""
  enqueue_employee_export c e (epoch_marker c e)

abbrev pub first_non_empty : String → String → String
first_non_empty a b = if str_eq a "" then b else a

-- `applyProfile`.
unfoldable pub apply_profile : Call → Employee → OnboardSpec → Tx Employee
apply_profile c e spec =
    update_profile_row e.id e.version
      (record {
        name = first_non_empty spec.name e.name;
        department = first_non_empty spec.department e.department;
        codex_account = first_non_empty spec.codex_account e.codex_account;
        email = first_non_empty spec.email e.email;
        external_id = first_non_empty spec.external_id e.external_id;
      })
      c.now

abbrev pub quota_version : Option QuotaRow → ℕ
quota_version none = 0
quota_version (some r) = r.quota.version

-- `applyQuota`.
unfoldable pub apply_quota : Call → ℕ → Quota → Tx Quota
apply_quota c id q s = set_quota_row id q (quota_version (quota_of id s)) c.now s

-- The row to go on with, and whether it was active before.
abbrev pub opened : Call → OnboardSpec → String → Option Employee → Tx (Employee × Bool)
opened c spec user none = do
  e ←
      create_employee
        (record {
          windows_user = user;
          external_id = spec.external_id;
          name = spec.name;
          department = spec.department;
          codex_account = spec.codex_account;
          email = spec.email;
        })
        user c.now
  answer (e, true)
opened c spec user (some old) = do e ← apply_profile c old spec; answer (e, is_active old)

-- The epoch goes up once, by a bump or by reopening.
abbrev pub raised : Call → Employee → Bool → Tx Employee
raised c e true = bump_row e.id e.version c.now
raised c e false = reopen_row e.id e.version c.now

abbrev onboard_action : Bool → String
onboard_action was_active = if was_active then "account.onboard" else "account.reopen"

abbrev pub onboard_in : Call → OnboardSpec → String → Option Employee → Tx Employee
onboard_in c spec user before = do
  r ← opened c spec user before
  e ← raised c r.0 r.1
  apply_quota c e.id spec.quota
  set_model_rows e.id spec.models
  replace_outstanding_work c e
  audit_target c (onboard_action r.1) "employee" e.id
  answer e

-- `Onboard`.
unfoldable pub onboard : Call → OnboardSpec → Store → Store × Ran Employee
onboard c spec s =
    let user = normalize_windows_user c.lower spec.windows_user in
    if str_eq user ""
    then (s, refused required)
    else in_tx (λ t. onboard_in c spec user (employee_named user t) t) s

-- `Offboard`.
unfoldable pub offboard_tx : Call → ℕ → Tx Employee
offboard_tx c id = do
  old ← employee_by_id id
  e ← offboard_row old.id old.version c.now
  supersede_work e.id e.auth_epoch c.now
  retire e.id purpose_codex_gateway c.now
  revoke_grant c e
  enqueue_gateway_work c e "gateway_revoke" ""
  enqueue_employee_export c e (epoch_marker c e)
  audit_target c "account.offboard" "employee" e.id
  answer e

unfoldable pub offboard : Call → ℕ → Store → Store × Ran Employee
offboard c id = in_tx (offboard_tx c id)

-- `Delete`.
unfoldable pub delete_account : Call → ℕ → Store → Store × Ran Employee
delete_account c id = in_tx (do
  old ← employee_by_id id
  refuse_if (is_active old) still_open
  e ← delete_row old.id old.version c.now
  supersede_work e.id (e.auth_epoch + 1) c.now
  enqueue_gateway_work c e "gateway_delete" "delete"
  enqueue_employee_export c e "delete"
  audit_target c "account.delete" "employee" e.id
  answer e)

-- `reissue`, under the action of `Reissue` or of `Rotate`.
unfoldable pub reissue_tx : Call → (action : String) → ℕ → Tx Employee
reissue_tx c action id = do
  old ← employee_by_id id
  refuse_if (not (is_active old)) is_closed
  e ← bump_row old.id old.version c.now
  replace_outstanding_work c e
  audit_target c action "employee" e.id
  answer e

abbrev pub reissue : Call → ℕ → Store → Store × Ran Employee
reissue c id = in_tx (reissue_tx c "account.reissue" id)

abbrev pub rotate : Call → ℕ → Store → Store × Ran Employee
rotate c id = in_tx (reissue_tx c "account.rotate" id)

-- `SetQuota`.
unfoldable pub set_quota : Call → ℕ → Quota → ℕ → Store → Store × Ran (Unit {0})
set_quota c id q version = in_tx (do
  e ← employee_by_id id
  after ← set_quota_row id q version c.now
  enqueue_gateway_work c e "gateway_provision" ("quota:v" ++ c.itoa after.version)
  audit_target c "account.quota" "employee" e.id)

-- `SetModels`.
unfoldable pub set_models : Call → ℕ → List String → Store → Store × Ran (Unit {0})
set_models c id models = in_tx (do
  e ← employee_by_id id
  set_model_rows id models
  enqueue_gateway_work c e "gateway_provision" ("models:" ++ c.nonce)
  enqueue_employee_export c e ("models:" ++ c.nonce)
  audit_target c "account.models" "employee" e.id)

-- `UpdateProfile`.
unfoldable pub update_profile : Call → ℕ → ℕ → Profile → Store → Store × Ran (Unit {0})
update_profile c id version p = in_tx (do
  before ← employee_by_id id
  e ← update_profile_row id version p c.now
  enqueue_gateway_work c e "gateway_provision" ("profile:v" ++ c.itoa e.version)
  audit_target c "account.profile" "employee" e.id)
