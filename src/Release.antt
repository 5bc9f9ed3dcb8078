-- ===== src/Release.antt =====
-- The release pipeline: the types of go/internal/repo/releases.go, the tables of
-- db/migrations/0007_releases.up.sql with what else the operations touch (machines, accounts, tasks, the
-- audit log), and the transactions that the operations are made of.
pub mod Rows
pub mod Moves
pub mod Kept
pub mod Service
pub mod Operations
pub mod Settle
pub mod Library
pub mod Orderly
pub mod Rollouts
pub mod Coverage
pub mod Settled
pub mod Schedules
pub mod Reported
pub mod Global
mod Tests
use ai_env_mgr.Base.{
  ℤ, ℕ, ◌+◌, String, Bool, true, false, Option, none, some, List, [], ◌∷◌, ◌++◌, if◌then◌else◌,
}
use ai_env_mgr.Task.{Task, NewTask, Error, Result, ok, err}
use ai_env_mgr.Queue.{Queue, enqueue}
use ai_env_mgr.Account.{Employee, QuotaRow, Binding, Grant, Credential}

abbrev pub product_agent : String
product_agent = "agent"

abbrev pub product_codex : String
product_codex = "codex"

pub data ArtifactStatus : Type 0 where
  candidate accepted stable retired : ArtifactStatus

pub record Artifact : Type 0 where
  pub id : ℕ
  pub product : String
  pub version : String
  pub sha256 : String
  pub size_bytes : ℤ
  pub object_key : String
  pub status : ArtifactStatus
  pub notes : String
  pub source : String
  pub min_agent_version : String
  pub acceptance_note : String
  pub accepted_by : String
  pub accepted_at : Option ℕ
  pub created_by : String
  pub created_at : ℕ
  pub updated_at : ℕ

pub record NewArtifact : Type 0 where
  pub product : String
  pub version : String
  pub sha256 : String
  pub size_bytes : ℤ
  pub object_key : String
  pub notes : String
  pub source : String
  pub min_agent_version : String
  pub created_by : String

pub data RolloutKind : Type 0 where
  release rollback global : RolloutKind

pub record Rollout : Type 0 where
  pub id : ℕ
  pub product : String
  pub artifact_id : ℕ
  pub kind : RolloutKind
  pub rollback_of : Option ℕ
  pub note : String
  pub created_by : String
  pub created_at : ℕ
  pub paused_at : Option ℕ
  pub paused_by : String

pub record NewRollout : Type 0 where
  pub product : String
  pub artifact_id : ℕ
  pub kind : RolloutKind
  pub rollback_of : Option ℕ
  pub note : String
  pub created_by : String

pub data TargetStatus : Type 0 where
  pending succeeded failed cancelled superseded excluded : TargetStatus

pub record Target : Type 0 where
  pub id : ℕ
  pub device_id : ℕ
  pub product : String
  pub artifact_id : ℕ
  pub rollout_id : ℕ
  pub generation : ℕ
  pub status : TargetStatus
  pub result_note : String
  pub reported_version : String
  pub exclude_reason : String
  pub created_at : ℕ
  pub updated_at : ℕ
  pub finished_at : Option ℕ
  pub released_at : Option ℕ

-- The columns of a machine that a release reads.
pub record Device : Type 0 where
  pub id : ℕ
  pub hostname : String
  pub is_revoked : Bool
  pub agent_version : String

pub record AuditRow : Type 0 where
  pub occurred_at : ℕ
  pub actor : String
  pub action : String
  pub target_type : String
  pub target_id : ℕ
  pub request_id : String

-- The tables. `next_id` stands for `gen_random_uuid()`: every insert takes a number that was not
-- taken before.
pub record Store : Type 0 where
  pub artifacts : List Artifact
  pub rollouts : List Rollout
  pub targets : List Target
  pub devices : List Device
  pub employees : List Employee
  pub models : List (ℕ × String)
  pub quotas : List QuotaRow
  pub bindings : List Binding
  pub grants : List Grant
  pub credentials : List Credential
  pub queue : Queue
  pub audit : List AuditRow
  pub next_id : ℕ

-- How an operation is refused.
pub data Refusal : Type 0 where
  not_found conflict duplicate not_terminal no_machine wrong_product is_retired is_revoked
        fleet_only too_old not_stable unknown_product no_reason not_failed incomplete other_package
        too_long is_closed still_open wrong_status required bad_quota :
      Refusal
  task_refused : Error → Refusal

-- A transaction at work: it goes on in a store, or it is refused.
pub data Ran (A : Type 0) : Type 0 where
  done : A → Store → Ran A
  refused : Refusal → Ran A

abbrev pub Tx : Type 0 → Type 0
Tx A = Store → Ran A

unfoldable pub go_on : {A B : Type 0} → Ran A → (A → Tx B) → Ran B
go_on (done a s) k = k a s
go_on (refused e) k = refused e

infixl 1 ◌>>=◌ ◌>>◌
abbrev pub ◌>>=◌ : {A B : Type 0} → Tx A → (A → Tx B) → Tx B
◌>>=◌ m k s = go_on (m s) k

abbrev pub ◌>>◌ : {A B : Type 0} → Tx A → Tx B → Tx B
◌>>◌ m k s = go_on (m s) (λ _. k)

abbrev pub answer : {A : Type 0} → A → Tx A
answer a s = done a s

abbrev pub refuse : {A : Type 0} → Refusal → Tx A
refuse e s = refused e

-- `if bad { return err }`.
abbrev pub refuse_if : Bool → Refusal → Tx (Unit {0})
refuse_if true e s = refused e
refuse_if false e s = done tt s

-- `QueryRow` that found no row.
abbrev pub found : {A : Type 0} → Option A → Tx A
found none s = refused not_found
found (some a) s = done a s

abbrev pub gets : {A : Type 0} → (Store → A) → Tx A
gets f s = done (f s) s

abbrev pub committed : {A : Type 0} → Store → Ran A → Store
committed s (done a s') = s'
committed s (refused e) = s

abbrev pub tried : {A : Type 0} → Store → Ran A → Store × Ran A
tried s r = (committed s r, r)

-- `InTx`: commit, or roll everything back.
unfoldable pub in_tx : {A : Type 0} → Tx A → Store → Store × Ran A
in_tx m s = tried s (m s)

-- What an operation is called with: the time, and how ids, times and payloads are written out.
-- `stamp` is the time in the layout 20060102T150405.
pub record Call : Type 0 where
  pub now : ℕ
  pub wall : ℕ
  pub actor : String
  pub request_id : String
  pub text_of : ℕ → String
  pub payload : Device → String
  pub employee_payload : Employee → String
  pub itoa : ℕ → String
  pub nonce : String
  pub stamp : String
  pub lower : String → String

abbrev pub appended : List AuditRow → AuditRow → List AuditRow
appended rows row = rows ++ row ∷ []
