-- ===== src/Queue/Close.antt =====
-- How a worker reports on a task that it holds: `Extend`, `Succeed`, `Fail` and `FailPermanently` of
-- go/internal/dbstore/tasks.go.
use ai_env_mgr.Base.{
  ℕ, ◌+◌, String, Option, none, some, ℤ, positive_or, minute, update_where, first, affected,
}
use ai_env_mgr.Task.{
  Outcome, Task, lease_lost, Result, ok, err, or_else, holds, is_attempt, after_failure,
}
use ai_env_mgr.Task.Updates.{
  extend_row, succeed_row, fail_row, close_attempt, outcome_of, fail_permanently_row,
}
use ai_env_mgr.Queue.{Queue, touched}

unfoldable pub extend : ℕ → String → ℤ → ℕ → Queue → Queue × Result (Unit {0})
extend id owner lease now q = (
  record q {
    tasks = update_where (holds id owner now) (extend_row (positive_or minute lease) now) q.tasks;
  },
  touched (affected (holds id owner now) q.tasks) lease_lost,
)

unfoldable pub succeed : ℕ → String → String → ℕ → Queue → Queue × Result (Unit {0})
succeed id owner ref now q = elim (first (holds id owner now) q.tasks) [
  | none ↦ (q, err lease_lost)
  | some t ↦ (
    record q {
      tasks = update_where (holds id owner now) (succeed_row now) q.tasks;
      log =
          update_where (is_attempt t.id t.attempts)
            (λ a. record a {
              ended_at = some now;
              outcome = some Outcome.succeeded;
              external_ref = ref;
            })
            q.log;
    },
    ok tt,
  )
]

-- `Fail`; the zero time for `retry_at` is `none`, and `wall` is the caller's clock.
unfoldable pub fail :
    ℕ → String → Option ℕ → String → String → String → ℕ → ℕ → Queue → Queue × Result Task
fail id owner retry_at class detail ref wall now q =
    let next = or_else retry_at (wall + minute) in
    elim (first (holds id owner now) q.tasks) [
      | none ↦ (q, err lease_lost)
      | some t ↦ (
        record q {
          tasks = update_where (holds id owner now) (fail_row next detail now) q.tasks;
          log =
              update_where (is_attempt t.id t.attempts)
                (close_attempt (outcome_of (after_failure t)) class detail ref now) q.log;
        },
        ok (fail_row next detail now t),
      )
    ]

unfoldable pub fail_permanently :
    ℕ → String → String → String → String → ℕ → Queue → Queue × Result Task
fail_permanently id owner class detail ref now q = elim (first (holds id owner now) q.tasks) [
  | none ↦ (q, err lease_lost)
  | some t ↦ (
    record q {
      tasks = update_where (holds id owner now) (fail_permanently_row detail now) q.tasks;
      log =
          update_where (is_attempt t.id t.attempts)
            (close_attempt Outcome.failed class detail ref now) q.log;
    },
    ok (fail_permanently_row detail now t),
  )
]
