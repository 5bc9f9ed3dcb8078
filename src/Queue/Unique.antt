-- ===== src/Queue/Unique.antt =====
-- The primary key and the unique index of the table `tasks`
-- (go/db/migrations/0001_init.up.sql), under every statement of go/internal/dbstore/tasks.go.
use ai_env_mgr.Base.{String, Bool, ◌≡◌, refl, List, [], ◌∷◌, Unique, Unique-map, Unique-append}
use ai_env_mgr.Task.{Task}
use ai_env_mgr.Task.Updates.{
  new_row, revive_row, claim_row, extend_row, succeed_row, fail_row, fail_permanently_row,
  supersede_row, expire_row,
}
use ai_env_mgr.Queue.{Queue}
use ai_env_mgr.Queue.Steps.{Op, apply, run}
use ai_env_mgr.Queue.Effect.{
  RowStep, stays, revived, claimed, extended, completed, retried, given_up, overtook, timed_out,
  Effect, appends, moves, apply-Effect,
}

pub record HasUniqueRows (xs : List Task) : Type 0 where
  pub ids : Unique (λ (t : Task). t.id) xs
  pub keys : Unique (λ (t : Task). t.idempotency_key) xs

-- What no statement changes in a row.
pub RowStep-same :
    {asked : String → Bool} (t u : Task)
    → RowStep asked t u
    → (u.id ≡ t.id)
      × (u.idempotency_key ≡ t.idempotency_key)
      × (u.kind ≡ t.kind)
      × (u.payload ≡ t.payload)
      × (u.max_attempts ≡ t.max_attempts)
      × (u.target_epoch ≡ t.target_epoch)
      × (u.employee_id ≡ t.employee_id)
unfolding revive_row claim_row extend_row succeed_row fail_row fail_permanently_row supersede_row
    expire_row
RowStep-same t u (stays e) = rw e (refl, refl, refl, refl, refl, refl, refl)
RowStep-same t u (revived now h a e) = rw e (refl, refl, refl, refl, refl, refl, refl)
RowStep-same t u (claimed owner lease now h e) = rw e (refl, refl, refl, refl, refl, refl, refl)
RowStep-same t u (extended lease now h e) = rw e (refl, refl, refl, refl, refl, refl, refl)
RowStep-same t u (completed now h e) = rw e (refl, refl, refl, refl, refl, refl, refl)
RowStep-same t u (retried at now detail h e) = rw e (refl, refl, refl, refl, refl, refl, refl)
RowStep-same t u (given_up now detail h e) = rw e (refl, refl, refl, refl, refl, refl, refl)
RowStep-same t u (overtook now reason h e) = rw e (refl, refl, refl, refl, refl, refl, refl)
RowStep-same t u (timed_out now h e) = rw e (refl, refl, refl, refl, refl, refl, refl)

Effect-HasUniqueRows :
    {asked : String → Bool} (xs ys : List Task)
    → Effect asked xs ys
    → HasUniqueRows xs
    → HasUniqueRows ys
unfolding new_row
Effect-HasUniqueRows xs ys (appends n fresh wall now no_key no_id e) u = rw e (record {
  ids = Unique-append _ xs (new_row n fresh wall now) u.ids no_id;
  keys = Unique-append _ xs (new_row n fresh wall now) u.keys no_key;
})
Effect-HasUniqueRows xs ys (moves f step e) u = rw e (record {
  ids = Unique-map _ f xs (λ t m. (RowStep-same t (f t) (step t m)).0) u.ids;
  keys = Unique-map _ f xs (λ t m. (RowStep-same t (f t) (step t m)).1) u.keys;
})

pub apply-HasUniqueRows :
    (o : Op) (q : Queue) → HasUniqueRows q.tasks → HasUniqueRows (apply o q).tasks
apply-HasUniqueRows o q u = Effect-HasUniqueRows q.tasks _ (apply-Effect o q u.ids) u

pub run-HasUniqueRows :
    (os : List Op) (q : Queue) → HasUniqueRows q.tasks → HasUniqueRows (run os q).tasks
unfolding run
run-HasUniqueRows [] q u = u
run-HasUniqueRows (o ∷ os) q u = run-HasUniqueRows os (apply o q) (apply-HasUniqueRows o q u)
