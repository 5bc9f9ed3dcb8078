-- ===== src/Account/Machines.antt =====
-- The operations that assign machines to employees: `BindMachine`, `UnbindMachine` and
-- `RequestCodexRestart` of go/internal/ops/ops.go, and `ForgetMachine` of go/internal/ops/machines.go
-- with `Revoke` of go/internal/dbstore/devices.go. What `wake` tells the machines is not in the store.
use Prim.Native.String.{◌++◌}
use ai_env_mgr.Base.{
  ℕ, ◌+◌, String, Bool, false, not, Option, none, some, [], ◌∷◌, str_eq, ◌==◌, if◌then◌else◌, first,
  update_where, true,
}
use mathlib.Core.List.{◌++◌ as append}
use ai_env_mgr.Version.{trim_left, trim_right}
use ai_env_mgr.Account.{Binding, is_active}
use ai_env_mgr.Account.Employees.{employee_by_id}
use ai_env_mgr.Account.Access.{open_binding, bind_row, unbind_row, request_restart}
use ai_env_mgr.Account.Service.{enqueue_employee_export}
use ai_env_mgr.Release.{
  Device, Store, required, is_closed, not_found, Ran, done, refused, Tx, ◌>>=◌, ◌>>◌, answer,
  refuse_if, found, gets, in_tx, Call,
}
use ai_env_mgr.Release.Service.{enqueue_export, audit_target}

abbrev pub is_host : Call → String → Device → Bool
is_host c hostname d = str_eq (c.lower d.hostname) (c.lower hostname)

-- `ByHostname`.
unfoldable pub device_by_hostname : Call → String → Tx Device
device_by_hostname c hostname s =
    found (first (is_host c (trim_right (trim_left hostname))) s.devices) s

abbrev pub new_device : String → ℕ → Device
new_device hostname fresh = record {
  id = fresh;
  hostname = hostname;
  is_revoked = false;
  agent_version = "";
}

abbrev pub device_or_new : String → Option Device → Tx Device
device_or_new hostname (some d) s = done d s
device_or_new hostname none s = done (new_device hostname s.next_id) (record s {
  devices = append s.devices (new_device hostname s.next_id ∷ []);
  next_id = s.next_id + 1;
})

-- `EnsureByHostname`.
unfoldable pub ensure_device : Call → String → Tx Device
ensure_device c hostname s =
    let name = trim_right (trim_left hostname) in
    if str_eq name ""
    then refused required
    else device_or_new name (first (is_host c name) s.devices) s

abbrev pub unbind_if : Call → ℕ → Option Binding → Tx (Unit {0})
unbind_if c device none = answer tt
unbind_if c device (some b) = do unbind_row device c.actor c.now; answer tt

-- The files of the one who lost the machine.
abbrev pub export_former : Call → ℕ → String → Option Binding → Tx (Unit {0})
export_former c employee marker none = answer tt
export_former c employee marker (some b) =
    if b.employee_id == employee
    then answer tt
    else (do former ← employee_by_id b.employee_id; enqueue_employee_export c former marker)

abbrev pub bind_marker : Call → Binding → String
bind_marker c b = "bind:" ++ c.itoa b.epoch

-- `BindMachine`.
unfoldable pub bind_tx : Call → (hostname : String) → (employee : ℕ) → (note : String) → Tx Binding
bind_tx c hostname employee note = do
  d ← ensure_device c hostname
  e ← employee_by_id employee
  refuse_if (not (is_active e)) is_closed
  previous ← gets (open_binding d.id)
  unbind_if c d.id previous
  b ← bind_row d.id e.id note c.actor c.now
  enqueue_export c d (bind_marker c b)
  enqueue_employee_export c e (bind_marker c b ++ ":" ++ c.text_of d.id)
  export_former c e.id (bind_marker c b ++ ":" ++ c.text_of d.id) previous
  audit_target c "machine.bind" "device" d.id
  answer b

unfoldable pub bind_machine :
    Call → (hostname : String) → (employee : ℕ) → (note : String) → Store → Store × Ran Binding
bind_machine c hostname employee note = in_tx (bind_tx c hostname employee note)

-- `UnbindMachine`.
unfoldable pub unbind_machine : Call → (hostname : String) → Store → Store × Ran (Unit {0})
unbind_machine c hostname = in_tx (do
  d ← device_by_hostname c hostname
  b ← unbind_row d.id c.actor c.now
  enqueue_export c d ("unbind:" ++ c.itoa b.epoch)
  audit_target c "machine.unbind" "device" d.id)

-- `RequestCodexRestart`.
unfoldable pub request_codex_restart : Call → (hostname : String) → Store → Store × Ran String
request_codex_restart c hostname = in_tx (do
  d ← device_by_hostname c hostname
  request_restart d.id c.nonce c.now
  enqueue_export c d ("restart:" ++ c.nonce)
  audit_target c "machine.codex_restart" "device" d.id
  answer c.nonce)

abbrev has_device_id : ℕ → Device → Bool
has_device_id id d = d.id == id

abbrev pub revoked_row : Device → Device
revoked_row d = record d { is_revoked = true }

abbrev pub revoke_found : ℕ → Option Device → Tx Device
revoke_found id none s = refused not_found
revoke_found id (some d) s =
    done (revoked_row d)
      (record s { devices = update_where (has_device_id id) revoked_row s.devices })

-- `Revoke`, where `coalesce` keeps the first time of revocation.
unfoldable pub revoke_device : ℕ → Tx Device
revoke_device id s = revoke_found id (first (has_device_id id) s.devices) s

-- `errors.Is(err, repo.ErrNotFound)` is no error: the statement touched nothing.
abbrev pub or_nothing : {A : Type 0} → Store → Ran A → Ran (Option A)
or_nothing s (done a t) = done (some a) t
or_nothing s (refused not_found) = done none s
or_nothing s (refused e) = refused e

abbrev pub export_forgotten : Call → ℕ → Option Binding → Tx (Unit {0})
export_forgotten c device none = answer tt
export_forgotten c device (some b) = do
  e ← employee_by_id b.employee_id
  enqueue_employee_export c e ("forget:" ++ c.text_of device ++ ":" ++ c.itoa b.epoch)

-- `ForgetMachine`; the export of the machine is queued with its row as it was read.
unfoldable pub forget_tx : Call → (hostname : String) → Tx (Unit {0})
forget_tx c hostname = do
  d ← device_by_hostname c hostname
  former ← (λ s. or_nothing s (unbind_row d.id c.actor c.now s))
  export_forgotten c d.id former
  revoke_device d.id
  enqueue_export c d ("forget:" ++ c.stamp)
  audit_target c "machine.forget" "device" d.id

unfoldable pub forget_machine : Call → (hostname : String) → Store → Store × Ran (Unit {0})
forget_machine c hostname = in_tx (forget_tx c hostname)
