-- ===== src/Account.antt =====
-- The accounts of employees: the types of go/internal/repo/repo.go for employees, their quotas, the
-- machines bound to them, their gateway grants and their credentials. An id is a number, a time is in
-- nanoseconds, and a nullable column is an `Option`.
pub mod Employees
pub mod Limits
pub mod Access
pub mod Service
pub mod Machines
pub mod Steps
pub mod Keeps
pub mod Epochs
pub mod Bindings
pub mod Closing
mod Tests
use ai_env_mgr.Base.{ℤ, ℕ, String, Bool, true, false, Option, none, some, List, is_some, not}

pub data EmployeeStatus : Type 0 where
  active offboarded : EmployeeStatus

pub record Employee : Type 0 where
  pub id : ℕ
  pub windows_user : String
  pub external_id : String
  pub name : String
  pub department : String
  pub codex_account : String
  pub email : String
  pub status : EmployeeStatus
  pub auth_epoch : ℕ
  pub version : ℕ
  pub created_at : ℕ
  pub updated_at : ℕ
  pub offboarded_at : Option ℕ
  pub deleted_at : Option ℕ

pub record NewEmployee : Type 0 where
  pub windows_user : String
  pub external_id : String
  pub name : String
  pub department : String
  pub codex_account : String
  pub email : String

pub record Profile : Type 0 where
  pub name : String
  pub department : String
  pub codex_account : String
  pub email : String
  pub external_id : String

-- `Employee.Active`.
abbrev pub is_active : Employee → Bool
is_active e = elim e.status [ active ↦ true | offboarded ↦ false ]

-- `Employee.Deleted`.
abbrev pub is_deleted : Employee → Bool
is_deleted e = is_some e.deleted_at

pub record Quota : Type 0 where
  pub monthly_budget : String
  pub currency : String
  pub rpm : ℤ
  pub tpm : ℤ
  pub parallel : ℤ
  pub period_rule : String
  pub period_tz : String
  pub version : ℕ
  pub updated_at : ℕ

-- A row of `employee_quotas`.
pub record QuotaRow : Type 0 where
  pub employee_id : ℕ
  pub quota : Quota

pub record Binding : Type 0 where
  pub id : ℕ
  pub device_id : ℕ
  pub employee_id : ℕ
  pub epoch : ℕ
  pub note : String
  pub bound_at : ℕ
  pub bound_by : String
  pub unbound_at : Option ℕ
  pub unbound_by : String
  pub restart_nonce : String
  pub restart_at : Option ℕ

-- `Binding.Open`.
abbrev pub is_bound : Binding → Bool
is_bound b = not (is_some b.unbound_at)

pub data Desired : Type 0 where
  active revoked : Desired

pub data Actual : Type 0 where
  unknown active revoked missing : Actual

pub record Grant : Type 0 where
  pub id : ℕ
  pub employee_id : ℕ
  pub epoch : ℕ
  pub gateway : String
  pub external_user : String
  pub key_alias : String
  pub models : List String
  pub desired : Desired
  pub actual : Actual
  pub credential_id : Option ℕ
  pub reconciled_at : Option ℕ
  pub last_error : String
  pub created_at : ℕ
  pub updated_at : ℕ

pub record NewGrant : Type 0 where
  pub employee_id : ℕ
  pub epoch : ℕ
  pub gateway : String
  pub external_user : String
  pub key_alias : String
  pub models : List String
  pub credential_id : Option ℕ

pub record Credential : Type 0 where
  pub id : ℕ
  pub employee_id : ℕ
  pub epoch : ℕ
  pub purpose : String
  pub ciphertext : List ℕ
  pub key_version : String
  pub content_sha256 : List ℕ
  pub created_at : ℕ
  pub retired_at : Option ℕ

pub record NewCredential : Type 0 where
  pub employee_id : ℕ
  pub epoch : ℕ
  pub purpose : String
  pub ciphertext : List ℕ
  pub key_version : String
  pub content_sha256 : List ℕ

abbrev pub purpose_codex_gateway : String
purpose_codex_gateway = "codex_gateway"
