-- ===== src/Task.antt =====
-- One row of the task queue: go/internal/repo/repo.go (Task, NewTask, TaskAttempt), and what the SQL
-- of go/internal/dbstore/tasks.go tests of a row. A uuid is a number, a time or a duration is in
-- nanoseconds, and a nullable column is an `Option`.
pub mod Updates
use ai_env_mgr.Base.{
  ℕ, zero, suc, ◌+◌, String, ◌≡◌, refl, Bool, true, false, not, ◌&&◌, ◌||◌, Option, none, some,
  List, [], ◌∷◌, ◌++◌, str_eq, leb, ltb, ◌==◌, if◌then◌else◌, is, is_some, ℤ, positive_or, minute,
  update_where, select, first, affected,
}

pub data Status : Type 0 where
  pending running retry_wait succeeded failed superseded : Status

pub data Outcome : Type 0 where
  succeeded failed retry superseded : Outcome

pub record Task : Type 0 where
  pub id : ℕ
  pub kind : String
  pub idempotency_key : String
  pub payload : String
  pub status : Status
  pub attempts : ℕ
  pub max_attempts : ℕ
  pub lease_until : Option ℕ
  pub lease_owner : Option String
  pub next_run_at : ℕ
  pub last_error : String
  pub target_epoch : Option ℕ
  pub employee_id : Option ℕ
  pub device_id : Option ℕ
  pub created_at : ℕ
  pub updated_at : ℕ
  pub finished_at : Option ℕ

-- `not_before` is `none` for the zero time; the ids are `none` for "".
pub record NewTask : Type 0 where
  pub kind : String
  pub idempotency_key : String
  pub payload : String
  pub target_epoch : Option ℕ
  pub employee_id : Option ℕ
  pub device_id : Option ℕ
  pub max_attempts : ℤ
  pub not_before : Option ℕ

pub record Attempt : Type 0 where
  pub task_id : ℕ
  pub attempt : ℕ
  pub owner : String
  pub started_at : ℕ
  pub ended_at : Option ℕ
  pub outcome : Option Outcome
  pub error_class : String
  pub error_detail : String
  pub external_ref : String

pub data Error : Type 0 where
  key_required owner_required not_found lease_lost duplicate : Error

pub data Result {ℓ} (A : Type ℓ) : Type ℓ where
  ok : A → Result A
  err : Error → Result A

abbrev pub default_max_attempts : ℕ
default_max_attempts = 10

abbrev pub is_running : Status → Bool
is_running running = true
is_running _ = false

abbrev pub is_failed : Status → Bool
is_failed failed = true
is_failed _ = false

-- `status in ('pending', 'retry_wait')`.
abbrev pub is_waiting : Status → Bool
is_waiting pending = true
is_waiting retry_wait = true
is_waiting _ = false

-- `Task.Open`, and `status in ('pending', 'running', 'retry_wait')`.
abbrev pub is_open : Status → Bool
is_open pending = true
is_open running = true
is_open retry_wait = true
is_open _ = false

abbrev pub has_id : ℕ → Task → Bool
has_id id t = t.id == id

abbrev pub has_key : String → Task → Bool
has_key key t = str_eq t.idempotency_key key

-- `left(text, 2000)`.
unfoldable pub left : ℕ → String → String
left zero s = ""
left (suc n) String.[] = ""
left (suc n) (String.◌∷◌ c s) = String.◌∷◌ c (left n s)

abbrev pub or_else : Option ℕ → ℕ → ℕ
or_else none d = d
or_else (some n) d = n

abbrev pub one_of : List String → String → Bool
one_of [] k = false
one_of (x ∷ xs) k = str_eq k x || one_of xs k

-- `cardinality(kinds) = 0 or kind = any(kinds)`.
abbrev pub kind_fits : List String → String → Bool
kind_fits [] k = true
kind_fits (x ∷ xs) k = one_of (x ∷ xs) k

-- The left join on `employees`: `epoch_of` gives an employee's `auth_epoch`.
abbrev pub current_epoch : (ℕ → Option ℕ) → Option ℕ → Option ℕ
current_epoch epoch_of none = none
current_epoch epoch_of (some e) = epoch_of e

abbrev pub not_passed : Option ℕ → Option ℕ → Bool
not_passed none _ = true
not_passed (some want) none = true
not_passed (some want) (some epoch) = leb epoch want

-- `target_epoch is null or e.id is null or target_epoch >= e.auth_epoch`.
abbrev pub epoch_fits : (ℕ → Option ℕ) → Task → Bool
epoch_fits epoch_of t = not_passed t.target_epoch (current_epoch epoch_of t.employee_id)

-- The `where` of `Claim`; `locked` are the rows that other transactions hold (`skip locked`).
unfoldable pub runnable : List String → ℕ → (ℕ → Option ℕ) → (ℕ → Bool) → Task → Bool
runnable kinds now epoch_of locked t =
    is_waiting t.status
    && (leb t.next_run_at now
        && (kind_fits kinds t.kind && (epoch_fits epoch_of t && not (locked t.id))))

abbrev pub owned_by : String → Task → Bool
owned_by owner t = elim t.lease_owner [ none ↦ false | some o ↦ str_eq o owner ]

abbrev pub live : ℕ → Task → Bool
live now t = elim t.lease_until [ none ↦ false | some u ↦ ltb now u ]

-- `id = $1 and lease_owner = $2 and status = 'running' and lease_until > now()`.
unfoldable pub holds : ℕ → String → ℕ → Task → Bool
holds id owner now t = has_id id t && (owned_by owner t && (is_running t.status && live now t))

abbrev pub is_attempt : ℕ → ℕ → Attempt → Bool
is_attempt id n a = (a.task_id == id) && (a.attempt == n)

-- `case when attempts >= max_attempts then 'failed' else 'retry_wait' end`.
abbrev pub after_failure : Task → Status
after_failure t = if leb t.max_attempts t.attempts then failed else retry_wait

abbrev pub open_with_id : ℕ → Task → Bool
open_with_id id t = has_id id t && is_open t.status

abbrev pub below : Option ℕ → ℕ → Bool
below none epoch = false
below (some e) epoch = ltb e epoch

-- The `where` of `SupersedeOpenForEmployee`.
unfoldable pub overtaken : ℕ → ℕ → Task → Bool
overtaken employee epoch t =
    is t.employee_id employee && (is_open t.status && below t.target_epoch epoch)

unfoldable pub expired : ℕ → Task → Bool
expired now t = is_running t.status && (is_some t.lease_until && not (live now t))
