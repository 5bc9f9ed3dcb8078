-- ===== src/Account/Closing.antt =====
-- What `Offboard` of go/internal/ops/ops.go leaves behind.
pub mod Row
pub mod Stripping
pub mod Work
pub mod Done
use ai_env_mgr.Base.{
  ℕ, ◌+◌, ◌≡◌, refl, sym, ap, ◌∙◌, subst, inl, inr, String, Bool, true, false, not, ◌&&◌, Option,
  none, some, List, [], ◌∷◌, arith, All, All-imp, All-map, All-Memᴰ, All-of_Memᴰ, Bool-cases,
  Option-cases, &&-eq-true, ◌==◌, ==_iff, first, first-some, first-none, change, change-Memᴰ,
  update_where, is_some, if◌then◌else◌, str_eq, is, ltb,
}
use mathlib.Core.List.{Memᴰ}
use ai_env_mgr.Task.{NewTask, Task, Result, ok, err, has_key, overtaken, is_open, below, pending}
use ai_env_mgr.Task.Updates.{new_row, revive_row, failed_under, supersede_row}
use ai_env_mgr.Queue.{Queue, enqueue}
use ai_env_mgr.Queue.Sweep.{supersede_open}
use ai_env_mgr.Queue.Sweeping.{supersede_open-Swept}
use ai_env_mgr.Queue.Every.{enqueue-All}
use ai_env_mgr.Account.{Employee, is_active, Grant, Credential, purpose_codex_gateway}
use ai_env_mgr.Account.Employees.{
  has_id, at_version, employee_by_id, offboard_row, offboarded_row, updated, update_employee,
  current_if, explain_miss,
}
use ai_env_mgr.Account.Access.{
  is_grant_of, active_grant, has_grant_id, revoke_row, revoked_row, update_grant, is_live, retire,
}
use ai_env_mgr.Account.Service.{
  gateway_key, export_key, epoch_marker, enqueue_for, enqueue_gateway_work, enqueue_employee_export,
  supersede_work, revoke_if, revoke_grant, offboard_tx, offboard,
}
use ai_env_mgr.Account.Keeps.{Holds, go_on-Holds}
use ai_env_mgr.Release.{
  Store, Refusal, Ran, done, refused, Tx, go_on, found, Call, in_tx, committed,
}
use ai_env_mgr.Release.Service.{enqueued, audit_target}

-- The tasks under the two keys of this employee's epoch are aimed at it, or above.
abbrev pub IsAimed : Call → Employee → Task → Type 0
IsAimed c e t =
    (has_key (gateway_key c e "gateway_revoke" "") t ≡ true
      → below t.target_epoch e.auth_epoch ≡ false)
    × (has_key (export_key c e (epoch_marker c e)) t ≡ true
        → below t.target_epoch e.auth_epoch ≡ false)

-- `gateway_grants_one_active`, and the primary key.
abbrev pub IsSingle : List Grant → Type 0
IsSingle rows =
    (gateway : String) (employee : ℕ) (g h : Grant)
    → Memᴰ g rows
    → Memᴰ h rows
    → is_grant_of gateway employee g ≡ true
    → is_grant_of gateway employee h ≡ true
    → g.id ≡ h.id

abbrev pub IsShut : Employee → Store → Type 0
IsShut e s = (is_active e ≡ false) × Memᴰ e s.employees

abbrev pub NoWork : Employee → Store → Type 0
NoWork e s = All (λ t. overtaken e.id e.auth_epoch t ≡ false) s.queue.tasks

abbrev pub IsIdle : Call → Employee → Task → Type 0
IsIdle c e t = (overtaken e.id e.auth_epoch t ≡ false) × IsAimed c e t

abbrev pub AreIdle : Call → Employee → Store → Type 0
AreIdle c e s = All (IsIdle c e) s.queue.tasks

abbrev pub NoCredential : Employee → Store → Type 0
NoCredential e s = All (λ r. is_live e.id purpose_codex_gateway r ≡ false) s.credentials

abbrev pub NoGrant : Employee → Store → Type 0
NoGrant e s = All (λ g. is_grant_of "litellm" e.id g ≡ false) s.grants

-- What is left of a closed account.
pub record IsClosed (e : Employee) (s : Store) : Type 0 where
  pub shut : IsShut e s
  pub no_work : NoWork e s
  pub no_credential : NoCredential e s
  pub no_grant : NoGrant e s

-- What the statements of `Offboard` go through.
module _ (c : Call) (id : ℕ) where
  abbrev pub Ready : Store → Type 0
  Ready s = IsSingle s.grants × All (λ t. (e : Employee) → e.id ≡ id → IsAimed c e t) s.queue.tasks

  abbrev pub Off : Employee → Store → Type 0
  Off e s = (IsShut e s × (e.id ≡ id)) × Ready s

abbrev pub Swept : Call → Employee → Store → Type 0
Swept c e s = IsShut e s × (IsSingle s.grants × AreIdle c e s)

-- A closed account with its log still open.
abbrev pub Stripped : Call → Employee → Store → Type 0
Stripped c e s = (IsShut e s × AreIdle c e s) × (NoCredential e s × NoGrant e s)
