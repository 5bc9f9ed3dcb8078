-- ===== src/Queue/Listing.antt =====
-- What the pages read of the queue: `ListOpen`, `ListRecent`, `ListRecentPage`, `CountRecent` and
-- `Attempts` of go/internal/dbstore/tasks.go.
use ai_env_mgr.Base.{
  ℕ, zero, suc, String, Bool, true, false, ◌&&◌, ◌||◌, List, [], ◌∷◌, str_eq, leb, ◌==◌,
  if◌then◌else◌, select, affected, ℤ, positive_or, pos, negsuc,
}
use ai_env_mgr.Task.{Status, succeeded, superseded, Task, Attempt, is_open, is_failed}
use ai_env_mgr.Queue.{Queue}

module _ (key : Task → ℕ) where
  abbrev insert : Task → List Task → List Task
  insert t [] = t ∷ []
  insert t (u ∷ us) = let rest = insert t us in if leb (key t) (key u) then t ∷ u ∷ us else u ∷ rest

  -- `order by key`.
  unfoldable pub ordered_by : List Task → List Task
  ordered_by [] = []
  ordered_by (t ∷ ts) = insert t (ordered_by ts)

  abbrev insert_down : Task → List Task → List Task
  insert_down t [] = t ∷ []
  insert_down t (u ∷ us) =
      let rest = insert_down t us in if leb (key u) (key t) then t ∷ u ∷ us else u ∷ rest

  -- `order by key desc`.
  unfoldable pub ordered_down : List Task → List Task
  ordered_down [] = []
  ordered_down (t ∷ ts) = insert_down t (ordered_down ts)

-- `limit n` and `offset n`.
unfoldable pub limit : ℕ → List Task → List Task
limit zero ts = []
limit (suc n) [] = []
limit (suc n) (t ∷ ts) = t ∷ limit n ts

unfoldable pub offset : ℕ → List Task → List Task
offset zero ts = ts
offset (suc n) [] = []
offset (suc n) (t ∷ ts) = offset n ts

unfoldable pub list_open : ℤ → Queue → List Task
list_open n q =
    limit (positive_or 200 n)
      (ordered_by (λ t. t.next_run_at) (select (λ t. is_open t.status) q.tasks))

unfoldable pub list_recent : ℤ → Queue → List Task
list_recent n q = limit (positive_or 100 n) (ordered_down (λ t. t.updated_at) q.tasks)

abbrev is_done : Status → Bool
is_done succeeded = true
is_done superseded = true
is_done _ = false

-- `taskListWhere`; `blocked` and `cancelled` are no statuses of a task.
unfoldable pub listed_under : String → String → Task → Bool
listed_under status kind t =
    (str_eq kind "" || str_eq t.kind kind)
    && (if str_eq status "open"
        then is_open t.status
        else if str_eq status "failed"
        then is_failed t.status
        else if str_eq status "done"
        then is_done t.status
        else true)

-- A negative offset is 0.
abbrev from_start : ℤ → ℕ
from_start (pos n) = n
from_start (negsuc n) = zero

unfoldable pub list_recent_page : ℤ → ℤ → String → String → Queue → List Task
list_recent_page n skip status kind q = limit (positive_or 50 n) (
    offset (from_start skip)
      (ordered_down (λ t. t.updated_at) (select (listed_under status kind) q.tasks)))

unfoldable pub count_recent : String → String → Queue → ℕ
count_recent status kind q = affected (listed_under status kind) q.tasks

abbrev insert_attempt : Attempt → List Attempt → List Attempt
insert_attempt a [] = a ∷ []
insert_attempt a (b ∷ bs) =
    let rest = insert_attempt a bs in if leb a.attempt b.attempt then a ∷ b ∷ bs else b ∷ rest

unfoldable pub ordered_attempts : List Attempt → List Attempt
ordered_attempts [] = []
ordered_attempts (a ∷ rest) = insert_attempt a (ordered_attempts rest)

unfoldable pub attempts : ℕ → Queue → List Attempt
attempts id q = ordered_attempts (select (λ a. a.task_id == id) q.log)
