-- ===== src/Queue/History.antt =====
-- What the statements of go/internal/dbstore/tasks.go do to one task over any schedule.
use mathlib.Core.List.Memᴰ
use mathlib.Core.List.{Memᴰ}
use ai_env_mgr.Base.{
  String, ℕ, suc, ◌+◌, ◌<◌, ◌≤◌, ◌≡◌, subst, Bool, true, false, List, [], ◌∷◌, ◌++◌, map, arith,
  All, All-map_mem, All-append, All-imp, All-Memᴰ, if◌then◌else◌,
}
use ai_env_mgr.Task.{Task, NewTask, is_waiting, Status, succeeded, superseded}
use ai_env_mgr.Task.Updates.{
  new_row, revive_row, claim_row, extend_row, succeed_row, fail_row, fail_permanently_row,
  supersede_row, expire_row,
}
use ai_env_mgr.Queue.{Queue}
use ai_env_mgr.Queue.Steps.{Op, apply, run, empty}
use ai_env_mgr.Queue.Effect.{
  RowStep, stays, revived, claimed, extended, completed, retried, given_up, overtook, timed_out,
  Effect, appends, moves, asks, apply-Effect,
}
use ai_env_mgr.Queue.Unique.{HasUniqueRows, RowStep-same, apply-HasUniqueRows}

-- `finished` and never to be asked for again: a failed task may be revived, these may not.
abbrev pub is_final : Status → Bool
is_final succeeded = true
is_final superseded = true
is_final _ = false

RowStep-final :
    {asked : String → Bool} (t u : Task) → RowStep asked t u → is_final t.status ≡ true → u ≡ t
RowStep-final t u (stays e) f = e
RowStep-final t u (revived now h a e) f = absurd (ground arith)
RowStep-final t u (claimed owner lease now h e) f = absurd (ground arith)
RowStep-final t u (extended lease now h e) f = absurd (ground arith)
RowStep-final t u (completed now h e) f = absurd (ground arith)
RowStep-final t u (retried at now detail h e) f = absurd (ground arith)
RowStep-final t u (given_up now detail h e) f = absurd (ground arith)
RowStep-final t u (overtook now reason h e) f = absurd (ground arith)
RowStep-final t u (timed_out now h e) f = absurd (ground arith)

Memᴰ-append : (xs : List Task) (t u : Task) → Memᴰ t xs → Memᴰ t (xs ++ u ∷ [])
Memᴰ-append [] t u m = elim m [ ]
Memᴰ-append (x ∷ xs) t u (Memᴰ.head e) = Memᴰ.head e
Memᴰ-append (x ∷ xs) t u (Memᴰ.tail m) = Memᴰ.tail (Memᴰ-append xs t u m)

Effect-final :
    {asked : String → Bool} (xs ys : List Task) (t : Task)
    → Effect asked xs ys
    → is_final t.status ≡ true
    → Memᴰ t xs
    → Memᴰ t ys
Effect-final xs ys t (appends n fresh wall now k i e) f m = rw e (Memᴰ-append xs t _ m)
Effect-final xs ys t (moves g step e) f m =
    rw e (subst (λ v. Memᴰ v (map g xs)) (RowStep-final t (g t) (step t m) f) (Memᴰ.map g m))

-- In a table of unique rows, a task that succeeded or was superseded stays as it is, whatever
-- statements follow,
-- by whatever workers and at whatever times: no late report, claim or sweep changes its row.
pub run-final :
    (os : List Op) (q : Queue) (t : Task)
    → HasUniqueRows q.tasks
    → Memᴰ t q.tasks
    → is_final t.status ≡ true
    → Memᴰ t (run os q).tasks
unfolding run
run-final [] q t u m f = m
run-final (o ∷ os) q t u m f =
    run-final os (apply o q) t (apply-HasUniqueRows o q u)
      (Effect-final q.tasks _ t (apply-Effect o q u.ids) f m) f

-- How often a schedule asks again for an idempotency key that had failed.
pub requests : String → List Op → ℕ
requests key [] = 0
requests key (o ∷ os) = let rest = requests key os in if asks o key then suc rest else rest

-- With `n` requests made so far, a waiting task has tries left and no task has overspent.
abbrev Within : ℕ → Task → Type 0
Within n t =
    (t.attempts ≤ t.max_attempts + n)
    × (is_waiting t.status ≡ true → t.attempts < t.max_attempts + n)

RowStep-Within :
    {asked : String → Bool} (n : ℕ) (t u : Task)
    → RowStep asked t u
    → Within n t
    → Within (if asked t.idempotency_key then suc n else n) u
unfolding revive_row claim_row extend_row succeed_row fail_row fail_permanently_row supersede_row
    expire_row
RowStep-Within n t u (stays e) w = rw e (ground arith)
RowStep-Within n t u (revived now h a e) w = rw (e, a) (ground arith)
RowStep-Within n t u (claimed owner lease now h e) w = rw e (ground arith)
RowStep-Within n t u (extended lease now h e) w = rw e (ground arith)
RowStep-Within n t u (completed now h e) w = rw e (ground arith)
RowStep-Within n t u (retried at now detail h e) w = rw e (ground arith)
RowStep-Within n t u (given_up now detail h e) w = rw e (ground arith)
RowStep-Within n t u (overtook now reason h e) w = rw e (ground arith)
RowStep-Within n t u (timed_out now h e) w = rw e (ground arith)

abbrev Counted : (String → ℕ) → List Task → Type 0
Counted base = All (λ t. Within (base t.idempotency_key) t)

abbrev one_more : (String → Bool) → (String → ℕ) → String → ℕ
one_more asked base key = if asked key then suc (base key) else base key

new_row-Within : (k : ℕ) (n : NewTask) (fresh wall now : ℕ) → Within k (new_row n fresh wall now)
unfolding new_row
new_row-Within k n fresh wall now = ground arith

Within-mono : (a b : ℕ) (t : Task) → a ≤ b → Within a t → Within b t
Within-mono a b t h w = ground arith

Effect-Counted :
    {asked : String → Bool} (base : String → ℕ) (xs ys : List Task)
    → Effect asked xs ys
    → Counted base xs
    → Counted (one_more asked base) ys
Effect-Counted {asked} base xs ys (appends n fresh wall now k i e) c = rw e (
    All-append (λ t. Within (one_more asked base t.idempotency_key) t) xs _
      (All-imp _ _ xs (λ t w. Within-mono (base t.idempotency_key) _ t (ground arith) w) c)
      (new_row-Within _ n fresh wall now, tt))
Effect-Counted {asked} base xs ys (moves f step e) c = rw e (All-map_mem _ _ f xs row c)
  where
    row :
        (t : Task)
        → Memᴰ t xs
        → Within (base t.idempotency_key) t
        → Within (one_more asked base (f t).idempotency_key) (f t)
    row t m w =
        rw (RowStep-same t (f t) (step t m)).1
          (RowStep-Within (base t.idempotency_key) t (f t) (step t m) w)

run-Counted :
    (os : List Op) (base : String → ℕ) (q : Queue)
    → HasUniqueRows q.tasks
    → Counted base q.tasks
    → Counted (λ key. base key + requests key os) (run os q).tasks
unfolding run requests
run-Counted [] base q u c =
    All-imp _ _ q.tasks (λ t w. Within-mono (base t.idempotency_key) _ t (omega arith) w) c
run-Counted (o ∷ os) base q u c =
    All-imp _ _ _
      (λ t w.
        Within-mono (one_more (asks o) base t.idempotency_key + requests t.idempotency_key os) _ t
          (ground arith) w)
      (run-Counted os (one_more (asks o) base) (apply o q) (apply-HasUniqueRows o q u)
        (Effect-Counted base q.tasks _ (apply-Effect o q u.ids) c))

-- Whatever the schedule, from the empty queue on, a task is tried at most `max_attempts` times, and
-- once more for each time that the statement which revives a failed task ran under its key.
pub attempts-le :
    (os : List Op) (t : Task)
    → Memᴰ t (run os empty).tasks
    → t.attempts ≤ t.max_attempts + requests t.idempotency_key os
attempts-le os t m =
    (All-Memᴰ (λ v. Within (requests v.idempotency_key os) v) (run os empty).tasks t
      (All-imp _ _ _ (λ v w. Within-mono _ _ v (omega arith) w)
        (run-Counted os (λ key. 0) empty (record { ids = tt; keys = tt }) tt))
      m).0
