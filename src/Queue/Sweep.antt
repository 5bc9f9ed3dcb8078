-- ===== src/Queue/Sweep.antt =====
-- How tasks are taken back: `Supersede`, `SupersedeOpenForEmployee` and `ReleaseExpiredLeases` of
-- go/internal/dbstore/tasks.go.
use ai_env_mgr.Base.{
  ℕ, String, Bool, false, not, ◌&&◌, ◌||◌, some, List, [], ◌∷◌, is_some, update_where, select,
  affected,
}
use ai_env_mgr.Task.{
  Outcome, Task, Attempt, not_found, Result, left, is_attempt, open_with_id, overtaken, expired,
}
use ai_env_mgr.Task.Updates.{supersede_row, expire_row}
use ai_env_mgr.Queue.{Queue, touched}

unfoldable pub supersede : ℕ → String → ℕ → Queue → Queue × Result (Unit {0})
supersede id reason now q = (
  record q {
    tasks = update_where (open_with_id id) (supersede_row (left 2000 reason) now) q.tasks;
  },
  touched (affected (open_with_id id) q.tasks) not_found,
)

unfoldable pub supersede_open : ℕ → ℕ → ℕ → Queue → Queue × ℕ
supersede_open employee epoch now q = (
  record q {
    tasks =
        update_where (overtaken employee epoch)
          (supersede_row "superseded: the employee moved to a newer epoch" now) q.tasks;
  },
  affected (overtaken employee epoch) q.tasks,
)

abbrev pub closes : List Task → Attempt → Bool
closes [] a = false
closes (t ∷ ts) a = (is_attempt t.id t.attempts a && not (is_some a.ended_at)) || closes ts a

unfoldable pub release_expired : ℕ → Queue → Queue × ℕ
release_expired now q = (
  record q {
    tasks = update_where (expired now) (expire_row now) q.tasks;
    log =
        update_where (closes (select (expired now) q.tasks))
          (λ a. record a {
            ended_at = some now;
            outcome = some Outcome.failed;
            error_class = "lease_expired";
          })
          q.log;
  },
  affected (expired now) q.tasks,
)
