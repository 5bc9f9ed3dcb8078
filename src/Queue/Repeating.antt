-- ===== src/Queue/Repeating.antt =====
-- Asking for the same work again: `Enqueue` of go/internal/dbstore/tasks.go under a key that was used
-- before, whatever happened to the task since.
use mathlib.Core.List.Memᴰ
use mathlib.Core.List.{Memᴰ}
use ai_env_mgr.Base.{
  ℕ, String, ◌≡◌, ◌≢◌, ◌⊎◌, refl, sym, ap, ◌∙◌, subst, inl, inr, Bool, true, false, ◌||◌, none,
  some, List, [], ◌∷◌, ◌++◌, map, arith, All-Memᴰ, Bool-cases, Option-cases, first, first-some,
  first-none, change-Memᴰ, update_where, Unique, str_eq, eq_iff,
}
use ai_env_mgr.Task.{Task, NewTask, pending, ok, has_key, is_failed}
use ai_env_mgr.Task.Updates.{revive_row, failed_under}
use ai_env_mgr.Queue.{Queue, enqueue}
use ai_env_mgr.Queue.Steps.{Op, apply, run}
use ai_env_mgr.Queue.Effect.{Effect, appends, moves, apply-Effect}
use ai_env_mgr.Queue.Unique.{HasUniqueRows, RowStep-same, apply-HasUniqueRows, run-HasUniqueRows}
use ai_env_mgr.Queue.Enqueueing.{
  revived_queue, revive_or_read-hit, revive_or_read-miss, key-Unique, alive_of_miss, enqueue-known,
  enqueue-Settled, failed_under-parts,
}

-- The row of a task later on.
record HasRow (t : Task) (xs : List Task) : Type 0 where
  row : Task
  listed : Memᴰ row xs
  same_id : row.id ≡ t.id
  same_key : row.idempotency_key ≡ t.idempotency_key

append-Memᴰ : (xs ys : List Task) (t : Task) → Memᴰ t xs → Memᴰ t (xs ++ ys)
append-Memᴰ [] ys t m = elim m [ ]
append-Memᴰ (x ∷ xs) ys t (Memᴰ.head e) = Memᴰ.head e
append-Memᴰ (x ∷ xs) ys t (Memᴰ.tail m) = Memᴰ.tail (append-Memᴰ xs ys t m)

Effect-HasRow :
    {asked : String → Bool} (xs ys : List Task) (t : Task)
    → Effect asked xs ys
    → HasRow t xs
    → HasRow t ys
Effect-HasRow xs ys t (appends n fresh wall now k i e) h = record {
  row = h.row;
  listed = rw e (append-Memᴰ xs _ h.row h.listed);
  same_id = h.same_id;
  same_key = h.same_key;
}
Effect-HasRow xs ys t (moves f step e) h =
    let kept = RowStep-same h.row (f h.row) (step h.row h.listed) in
    record {
      row = f h.row;
      listed = rw e (Memᴰ.map f h.listed);
      same_id = kept.0 ∙ h.same_id;
      same_key = kept.1 ∙ h.same_key;
    }

run-HasRow :
    (os : List Op) (q : Queue) (t : Task)
    → HasUniqueRows q.tasks
    → HasRow t q.tasks
    → HasRow t (run os q).tasks
unfolding run
run-HasRow [] q t u h = h
run-HasRow (o ∷ os) q t u h =
    run-HasRow os (apply o q) t (apply-HasUniqueRows o q u)
      (Effect-HasRow q.tasks _ t (apply-Effect o q u.ids) h)

-- The row is found under its key.
first-keyed :
    (key : String) (xs : List Task) (t : Task)
    → Unique (λ (v : Task). v.idempotency_key) xs
    → Memᴰ t xs
    → t.idempotency_key ≡ key
    → first (has_key key) xs ≡ some t
first-keyed key xs t unique m e =
    let mine : has_key key t ≡ true = (eq_iff t.idempotency_key key).1 e in
    elim (Option-cases (first (has_key key) xs)) [
      | inl d ↦
          let other : has_key key t ≡ false = All-Memᴰ _ xs t (first-none (has_key key) xs d) m in
          absurd (ground (arith, mine, other))
      | inr (x, d) ↦ d ∙ ap some (sym (key-Unique key xs x t unique d m mine))
    ]

-- A failed task is back on the queue: `v` is its row now.
pub record IsRevived (now : ℕ) (u v : Task) (before after : List Task) : Type 0 where
  pub same : (v.id ≡ u.id) × (v.attempts ≡ u.attempts)
  pub waits : (v.status ≡ pending) × (v.next_run_at ≡ now) × (v.finished_at ≡ none)
  pub listed : Memᴰ v after
  pub others : (w : Task) → Memᴰ w before → w.id ≢ u.id → Memᴰ w after
  pub no_new : map (λ (w : Task). w.id) after ≡ map (λ (w : Task). w.id) before

update-ids :
    (p : Task → Bool) (now : ℕ) (xs : List Task)
    → map (λ (w : Task). w.id) (update_where p (revive_row now) xs) ≡ map (λ (w : Task). w.id) xs
unfolding revive_row
update-ids p now [] = refl
update-ids p now (x ∷ xs) = elim (Bool-cases (p x)) [
  | inl e ↦ rw e (ap (◌∷◌ x.id) (update-ids p now xs))
  | inr e ↦ rw e (ap (◌∷◌ x.id) (update-ids p now xs))
]

revive_row-IsRevived :
    (key : String) (now : ℕ) (q : Queue) (u : Task)
    → Unique (λ (v : Task). v.idempotency_key) q.tasks
    → Memᴰ u q.tasks
    → failed_under key u ≡ true
    → first (has_key key) q.tasks ≡ some u
    → IsRevived now u (revive_row now u) q.tasks (revived_queue key now q).tasks
unfolding revived_queue
revive_row-IsRevived key now q u unique m f e = record {
  same = unfold revive_row in (refl, refl);
  waits = unfold revive_row in (refl, refl, refl);
  listed =
      subst (λ v. Memᴰ v (update_where (failed_under key) (revive_row now) q.tasks)) (rw f)
        (change-Memᴰ (failed_under key) (revive_row now) q.tasks u m);
  others = λ w n ne.
      subst (λ v. Memᴰ v (update_where (failed_under key) (revive_row now) q.tasks))
        (rw (calm w n ne)) (change-Memᴰ (failed_under key) (revive_row now) q.tasks w n);
  no_new = update-ids (failed_under key) now q.tasks;
}
  where
    calm : (w : Task) → Memᴰ w q.tasks → w.id ≢ u.id → failed_under key w ≡ false
    calm w n ne = elim (Bool-cases (failed_under key w)) [
      | inr h ↦ h
      | inl h ↦ absurd (
          ne (
            ap (λ (v : Task). v.id)
              (key-Unique key q.tasks u w unique e n (failed_under-parts key w h).0)))
    ]

-- `Enqueue` under a key whose row is `u`: the row is handed back as not created and nothing changes, or
-- it had failed and is revived.
enqueue-row :
    (m : NewTask) (fresh wall now : ℕ) (q : Queue) (u : Task)
    → Unique (λ (v : Task). v.idempotency_key) q.tasks
    → (str_eq m.kind "" || str_eq m.idempotency_key "") ≡ false
    → Memᴰ u q.tasks
    → first (has_key m.idempotency_key) q.tasks ≡ some u
    → ((is_failed u.status ≡ false) × (enqueue m fresh wall now q ≡ (q, ok (u, false))))
      ⊎ ((v : Task) × (is_failed u.status ≡ true)
          × ((enqueue m fresh wall now q).1 ≡ ok (v, true))
          × IsRevived now u v q.tasks (enqueue m fresh wall now q).0.tasks)
enqueue-row m fresh wall now q u unique named listed found =
    let known = enqueue-known m fresh wall now q u named found in
    elim (Option-cases (first (failed_under m.idempotency_key) q.tasks)) [
      | inl d ↦ inl (
        alive_of_miss m.idempotency_key q u d found,
        known ∙ revive_or_read-miss m.idempotency_key now q u d found,
      )
      | inr (x, d) ↦
          let (p, n) = first-some (failed_under m.idempotency_key) q.tasks x d in
          let parts = failed_under-parts m.idempotency_key x p in
          let same : x ≡ u = key-Unique m.idempotency_key q.tasks u x unique found n parts.0 in
          let whole = known ∙ revive_or_read-hit m.idempotency_key now q x d in
          inr (
            revive_row now u,
            rw (← same) parts.1,
            rw whole (ap (λ (v : Task). ok (revive_row now v, true)) same),
            rw whole (
                revive_row-IsRevived m.idempotency_key now q u unique listed (rw (← same) p) found),
          )
    ]

-- One key is one task: in tables of unique rows, once `Enqueue` was answered with a task under a key
-- that is not empty, and whatever statements follow, `Enqueue` under the same key, of a kind that is
-- not empty, with any other fields, finds that task's row. If the task has not failed, the row is
-- handed back as not created and the tables stay as they are. If it has failed, it is put back on the
-- queue with the attempts it has had and reported as created; no row is added, and the other rows
-- stay.
pub enqueue_again :
    (n m : NewTask) (fresh wall now fresh' wall' now' : ℕ) (q q' : Queue) (t : Task)
    (created : Bool) (os : List Op)
    → HasUniqueRows q.tasks
    → HasUniqueRows q'.tasks
    → m.kind ≢ ""
    → n.idempotency_key ≢ ""
    → m.idempotency_key ≡ n.idempotency_key
    → enqueue n fresh wall now q ≡ (q', ok (t, created))
    → (u : Task) × Memᴰ u (run os q').tasks
      × (u.id ≡ t.id)
      × (((is_failed u.status ≡ false)
            × (enqueue m fresh' wall' now' (run os q') ≡ (run os q', ok (u, false))))
          ⊎ ((v : Task) × (is_failed u.status ≡ true)
              × ((enqueue m fresh' wall' now' (run os q')).1 ≡ ok (v, true))
              × IsRevived now' u v
                  (run os q').tasks
                  (enqueue m fresh' wall' now' (run os q')).0.tasks))
enqueue_again n m fresh wall now fresh' wall' now' q q' t created os u u' kind key same h =
    let s = enqueue-Settled n fresh wall now q q' t created u.keys h in
    let (mine, there) = first-some (has_key n.idempotency_key) q'.tasks t s.found in
    let kept =
      run-HasRow os q' t u' (record { row = t; listed = there; same_id = refl; same_key = refl }) in
    let unique = run-HasUniqueRows os q' u' in
    let named : (str_eq m.kind "" || str_eq m.idempotency_key "") ≡ false =
      rw same (ground (arith, eq_iff m.kind "", eq_iff n.idempotency_key "")) in
    let under : kept.row.idempotency_key ≡ m.idempotency_key =
      kept.same_key ∙ (eq_iff t.idempotency_key n.idempotency_key).0 mine ∙ sym same in
    (
      kept.row,
      kept.listed,
      kept.same_id,
      enqueue-row m fresh' wall' now' (run os q') kept.row unique.keys named kept.listed
          (first-keyed m.idempotency_key (run os q').tasks kept.row unique.keys kept.listed under),
    )
