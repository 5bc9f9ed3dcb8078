-- ===== src/Worker.antt =====
-- The worker: go/internal/worker/worker.go. Errors as Go's chains of wrapped errors, the options
-- with their defaults, and the event for the log.
pub mod Backoff
pub mod Once
pub mod Outcomes
pub mod Runs
pub mod Undisturbed
mod Tests
use ai_env_mgr.Base.{
  ℕ, ◌*◌, String, Bool, true, false, Option, none, some, List, str_eq, ℤ, positive_or, second,
  minute, if◌then◌else◌,
}
use ai_env_mgr.Task.{Task}

-- An error and what it wraps: `deadline` is `context.DeadlineExceeded`, `missing` is
-- `repo.ErrNotFound`, and `wrap` is `fmt.Errorf` with `%w` and its text.
pub data Fault : Type 0 where
  plain : String → Fault
  deadline : Fault
  missing : Fault
  wrap : String → Fault → Fault
  permanent : Fault → Fault
  classed : String → Fault → Fault

-- `err.Error()`.
unfoldable pub message : Fault → String
message (plain text) = text
message deadline = "context deadline exceeded"
message missing = "not found"
message (wrap text e) = text
message (permanent e) = message e
message (classed class e) = message e

-- `IsPermanent`: `errors.As` walks the chain.
unfoldable pub is_permanent : Fault → Bool
is_permanent (plain text) = false
is_permanent deadline = false
is_permanent missing = false
is_permanent (wrap text e) = is_permanent e
is_permanent (permanent e) = true
is_permanent (classed class e) = is_permanent e

-- The outermost class of the chain.
unfoldable pub class_of : Fault → Option String
class_of (plain text) = none
class_of deadline = none
class_of missing = none
class_of (wrap text e) = class_of e
class_of (permanent e) = class_of e
class_of (classed class e) = some class

-- `errors.Is(err, context.DeadlineExceeded)`.
unfoldable pub is_deadline : Fault → Bool
is_deadline (plain text) = false
is_deadline deadline = true
is_deadline missing = false
is_deadline (wrap text e) = is_deadline e
is_deadline (permanent e) = is_deadline e
is_deadline (classed class e) = is_deadline e

-- `errors.Is(err, repo.ErrNotFound)`.
unfoldable pub is_missing : Fault → Bool
is_missing (plain text) = false
is_missing deadline = false
is_missing missing = true
is_missing (wrap text e) = is_missing e
is_missing (permanent e) = is_missing e
is_missing (classed class e) = is_missing e

unfoldable pub classify : Fault → String
classify e = elim (class_of e) [
  | some class ↦ class
  | none ↦
      if is_permanent e
      then "permanent"
      else if is_deadline e
      then "timeout"
      else if is_missing e
      then "not_found"
      else "error"
]

-- What the caller asked for; a duration may be zero or negative.
pub record Options : Type 0 where
  pub owner : String
  pub kinds : List String
  pub lease : ℤ
  pub poll : ℤ
  pub base_backoff : ℤ
  pub max_backoff : ℤ

-- The options with their defaults filled in.
pub record Config : Type 0 where
  pub owner : String
  pub kinds : List String
  pub lease : ℕ
  pub poll : ℕ
  pub base_backoff : ℕ
  pub max_backoff : ℕ

unfoldable pub new : String → Options → Config
new default_owner o = record {
  owner = if str_eq o.owner "" then default_owner else o.owner;
  kinds = o.kinds;
  lease = positive_or (2 * minute) o.lease;
  poll = positive_or (5 * second) o.poll;
  base_backoff = positive_or (10 * second) o.base_backoff;
  max_backoff = positive_or (10 * minute) o.max_backoff;
}

-- How a handler ends; a panic carries what was recovered.
pub data End : Type 0 where
  finished : (external_ref note : String) → End
  broke : Fault → (external_ref : String) → End
  panicked : String → End

pub data Verdict : Type 0 where
  succeeded retry failed lost : Verdict

pub record Event : Type 0 where
  pub task : Task
  pub outcome : Verdict
  pub fault : Option Fault
  pub note : String
  pub external_ref : String
