-- ===== src/Queue/Invariant.antt =====
-- What holds of every row of `tasks` between two statements of go/internal/dbstore/tasks.go.
use ai_env_mgr.Base.{
  String, ℕ, ◌<◌, ◌≡◌, Bool, true, not, List, [], ◌∷◌, arith, All, All-map_mem, All-append, is_some,
}
use ai_env_mgr.Task.{Task, NewTask, retry_wait, is_running, is_open}
use ai_env_mgr.Task.Updates.{
  new_row, revive_row, claim_row, extend_row, succeed_row, fail_row, fail_permanently_row,
  supersede_row, expire_row,
}
use ai_env_mgr.Queue.{Queue}
use ai_env_mgr.Queue.Steps.{Op, apply, run, empty}
use ai_env_mgr.Queue.Effect.{
  RowStep, stays, revived, claimed, extended, completed, retried, given_up, overtook, timed_out,
  Effect, appends, moves, apply-Effect,
}
use ai_env_mgr.Queue.Unique.{HasUniqueRows, apply-HasUniqueRows}

-- A row is leased, to somebody and until some time, exactly while it runs, and finished exactly
-- when it is not open; what runs has been tried, and what waits for a retry has tries left.
pub record IsSound (t : Task) : Type 0 where
  pub capped : 0 < t.max_attempts
  pub leased : is_some t.lease_until ≡ is_running t.status
  pub owned : is_some t.lease_owner ≡ is_running t.status
  pub finished : is_some t.finished_at ≡ not (is_open t.status)
  pub tried : is_running t.status ≡ true → 0 < t.attempts
  pub retrying : t.status ≡ retry_wait → (0 < t.attempts) × (t.attempts < t.max_attempts)

new_row-IsSound : (n : NewTask) (fresh wall now : ℕ) → IsSound (new_row n fresh wall now)
unfolding new_row
new_row-IsSound n fresh wall now = ground arith

pub RowStep-IsSound :
    {asked : String → Bool} (t u : Task) → RowStep asked t u → IsSound t → IsSound u
unfolding revive_row claim_row extend_row succeed_row fail_row fail_permanently_row supersede_row
    expire_row
RowStep-IsSound t u (stays e) s = rw e s
RowStep-IsSound t u (revived now h a e) s = rw e (ground arith)
RowStep-IsSound t u (claimed owner lease now h e) s = rw e (ground arith)
RowStep-IsSound t u (extended lease now h e) s = rw e (ground arith)
RowStep-IsSound t u (completed now h e) s = rw e (ground arith)
RowStep-IsSound t u (retried at now detail h e) s = rw e (ground arith)
RowStep-IsSound t u (given_up now detail h e) s = rw e (ground arith)
RowStep-IsSound t u (overtook now reason h e) s = rw e (ground arith)
RowStep-IsSound t u (timed_out now h e) s = rw e (ground arith)

Effect-IsSound :
    {asked : String → Bool} (xs ys : List Task)
    → Effect asked xs ys
    → All IsSound xs
    → All IsSound ys
Effect-IsSound xs ys (appends n fresh wall now k i e) s =
    rw e (All-append IsSound xs _ s (new_row-IsSound n fresh wall now, tt))
Effect-IsSound xs ys (moves f step e) s =
    rw e (All-map_mem IsSound IsSound f xs (λ t m h. RowStep-IsSound t (f t) (step t m) h) s)

pub record IsWellFormed (q : Queue) : Type 0 where
  pub rows : HasUniqueRows q.tasks
  pub sound : All IsSound q.tasks

-- Every statement, at any time and by anybody, keeps a queue well formed: ids and idempotency keys
-- unique, and every row sound.
pub apply-IsWellFormed : (o : Op) (q : Queue) → IsWellFormed q → IsWellFormed (apply o q)
apply-IsWellFormed o q w = record {
  rows = apply-HasUniqueRows o q w.rows;
  sound = Effect-IsSound q.tasks _ (apply-Effect o q w.rows.ids) w.sound;
}

pub run-IsWellFormed : (os : List Op) (q : Queue) → IsWellFormed q → IsWellFormed (run os q)
unfolding run
run-IsWellFormed [] q w = w
run-IsWellFormed (o ∷ os) q w = run-IsWellFormed os (apply o q) (apply-IsWellFormed o q w)

pub empty-IsWellFormed : IsWellFormed empty
empty-IsWellFormed = record { rows = record { ids = tt; keys = tt }; sound = tt }
