-- ===== src/Queue/Every.antt =====
-- What every row of the queue has after `Enqueue` of go/internal/dbstore/tasks.go.
use ai_env_mgr.Base.{
  ℕ, String, ◌≡◌, inl, inr, true, ◌||◌, Option, none, some, All, All-append, All-map, Bool-cases,
  Option-cases, first, change, str_eq,
}
use ai_env_mgr.Task.{Task, NewTask, Result, ok, err, has_id, has_key}
use ai_env_mgr.Task.Updates.{new_row, revive_row, failed_under}
use ai_env_mgr.Queue.{Queue, insert_task, revive_failed, revive_or_read, after_insert, enqueue}

module _ (P : Task → Type 0) (key : String) (now : ℕ)
    (revived : (t : Task) → failed_under key t ≡ true → P t → P (revive_row now t)) where
  change-kept : (t : Task) → P t → P (change (failed_under key) (revive_row now) t)
  change-kept t h = elim (Bool-cases (failed_under key t)) [
    | inl e ↦ rw e (revived t e h)
    | inr e ↦ rw e h
  ]

  revive_or_read-All : (q : Queue) → All P q.tasks → All P (revive_or_read key now q).0.tasks
  unfolding revive_or_read revive_failed
  revive_or_read-All q h = elim (Option-cases (revive_failed key now q).1) [
    | inl e ↦ rw (e, revive_or_read) (All-map P P _ q.tasks change-kept h)
    | inr (t, e) ↦ rw (e, revive_or_read) (All-map P P _ q.tasks change-kept h)
  ]

  after_insert-All :
      (r : Queue × Result (Option Task)) → All P r.0.tasks → All P (after_insert key now r).0.tasks
  unfolding after_insert
  after_insert-All (q, ok (some t)) h = h
  after_insert-All (q, ok none) h = revive_or_read-All q h
  after_insert-All (q, err e) h = h

pub insert_task-All :
    (P : Task → Type 0) (n : NewTask) (fresh wall now : ℕ) (q : Queue)
    → P (new_row n fresh wall now)
    → All P q.tasks
    → All P (insert_task n fresh wall now q).0.tasks
unfolding insert_task
insert_task-All P n fresh wall now q new h =
    elim (Option-cases (first (has_key n.idempotency_key) q.tasks)) [
      | inr (t, e) ↦ rw (e, insert_task) h
      | inl e ↦ elim (Option-cases (first (has_id fresh) q.tasks)) [
        | inr (t, d) ↦ rw (e, d, insert_task) h
        | inl d ↦ rw (e, d, insert_task) (All-append P q.tasks _ h (new, tt))
      ]
    ]

-- What the rows have, the row that is new has, and a row that is revived keeps.
pub enqueue-All :
    (P : Task → Type 0) (n : NewTask) (fresh wall now : ℕ) (q : Queue)
    → ((t : Task) → failed_under n.idempotency_key t ≡ true → P t → P (revive_row now t))
    → P (new_row n fresh wall now)
    → All P q.tasks
    → All P (enqueue n fresh wall now q).0.tasks
unfolding enqueue
enqueue-All P n fresh wall now q revived new h =
    elim (Bool-cases (str_eq n.kind "" || str_eq n.idempotency_key "")) [
      | inl e ↦ rw e h
      | inr e ↦ rw e (
          after_insert-All P n.idempotency_key now revived (insert_task n fresh wall now q)
            (insert_task-All P n fresh wall now q new h))
    ]
