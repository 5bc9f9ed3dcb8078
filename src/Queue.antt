-- ===== src/Queue.antt =====
-- The tables of the task queue, and how work enters it and is taken: `Enqueue` and `Claim` of
-- go/internal/dbstore/tasks.go. A table is a list of rows; a statement is a function on the tables
-- that runs, atomically, at the database's time `now`.
pub mod Close
pub mod Sweep
pub mod Steps
pub mod Earliest
pub mod Effect
pub mod Invariant
pub mod Unique
pub mod Claiming
pub mod Reports
pub mod Endings
pub mod Displaced
pub mod Sweeping
pub mod Enqueueing
pub mod Repeating
pub mod Every
pub mod History
pub mod Listing
mod Tests
use mathlib.Core.Option
use ai_env_mgr.Base.{
  ℕ, zero, suc, ◌+◌, String, ◌≡◌, refl, Bool, true, false, not, ◌&&◌, ◌||◌, Option, none, some,
  List, [], ◌∷◌, ◌++◌, str_eq, leb, ltb, ◌==◌, if◌then◌else◌, is, is_some, ℤ, positive_or, minute,
  update_where, select, first, affected,
}
use ai_env_mgr.Task.{
  Status, pending, running, retry_wait, succeeded, failed, superseded, Outcome, Task, NewTask,
  Attempt, Error, key_required, owner_required, not_found, lease_lost, duplicate, Result, ok, err,
  is_running, is_failed, is_waiting, is_open, has_id, has_key, left, or_else, default_max_attempts,
  runnable, holds, is_attempt, after_failure, open_with_id, overtaken, expired,
}
use ai_env_mgr.Task.Updates.{
  new_row, revive_row, failed_under, claim_row, open_attempt, extend_row, succeed_row, fail_row,
  close_attempt, outcome_of, fail_permanently_row, supersede_row, expire_row,
}

-- The tables `tasks` and `task_attempts`.
pub record Queue : Type 0 where
  pub tasks : List Task
  pub log : List Attempt

-- `insert ... on conflict (idempotency_key) do nothing returning`: `none` is the conflict.
unfoldable pub insert_task : NewTask → ℕ → ℕ → ℕ → Queue → Queue × Result (Option Task)
insert_task n fresh wall now q = elim (first (has_key n.idempotency_key) q.tasks) [
  | some old ↦ (q, ok none)
  | none ↦ elim (first (has_id fresh) q.tasks) [
    | some other ↦ (q, err duplicate)
    | none ↦ (
      record q { tasks = q.tasks ++ new_row n fresh wall now ∷ [] },
      ok (some (new_row n fresh wall now)),
    )
  ]
]

-- The second statement of `Enqueue`.
unfoldable pub revive_failed : String → ℕ → Queue → Queue × Option Task
revive_failed key now q = (
  record q { tasks = update_where (failed_under key) (revive_row now) q.tasks },
  Option.map (revive_row now) (first (failed_under key) q.tasks),
)

existing : String → Queue → Result (Task × Bool)
existing key q = elim (first (has_key key) q.tasks) [
  | some t ↦ ok (t, false)
  | none ↦ err not_found
]

pub revive_or_read : String → ℕ → Queue → Queue × Result (Task × Bool)
unfolding existing
revive_or_read key now q =
    let (q', revived) = revive_failed key now q in
    elim revived [ some t ↦ (q', ok (t, true)) | none ↦ (q', existing key q') ]

-- What `Enqueue` goes on with after the insert.
after_insert : String → ℕ → Queue × Result (Option Task) → Queue × Result (Task × Bool)
unfolding revive_or_read
after_insert key now (q, ok (some t)) = (q, ok (t, true))
after_insert key now (q, ok none) = revive_or_read key now q
after_insert key now (q, err e) = (q, err e)

-- `Enqueue`, its three statements run with nothing between them.
unfoldable pub enqueue : NewTask → ℕ → ℕ → ℕ → Queue → Queue × Result (Task × Bool)
unfolding after_insert
enqueue n fresh wall now q =
    if str_eq n.kind "" || str_eq n.idempotency_key ""
    then (q, err key_required)
    else after_insert n.idempotency_key now (insert_task n fresh wall now q)

abbrev sooner : Task → Option Task → Option Task
sooner t none = some t
sooner t (some u) = if leb t.next_run_at u.next_run_at then some t else some u

-- `order by next_run_at limit 1`.
unfoldable pub earliest : List Task → Option Task
earliest [] = none
earliest (t ∷ ts) = sooner t (earliest ts)

-- The update and the insert of `Claim`, for the row that was chosen.
unfoldable pub take : String → ℕ → ℕ → Task → Queue → Queue × Result Task
take owner lease now t q = (
  record q {
    tasks = update_where (has_id t.id) (claim_row owner lease now) q.tasks;
    log = q.log ++ open_attempt t.id (t.attempts + 1) owner now ∷ [];
  },
  ok (claim_row owner lease now t),
)

unfoldable pub claim :
    String → List String → ℤ → ℕ → (ℕ → Option ℕ) → (ℕ → Bool) → Queue → Queue × Result Task
claim owner kinds lease now epoch_of locked q =
    if str_eq owner ""
    then (q, err owner_required)
    else elim (earliest (select (runnable kinds now epoch_of locked) q.tasks)) [
      | none ↦ (q, err not_found)
      | some t ↦ take owner (positive_or minute lease) now t q
    ]

-- An update that touched no row is an error.
abbrev pub touched : ℕ → Error → Result (Unit {0})
touched zero e = err e
touched (suc n) e = ok tt
