-- ===== src/Queue/Enqueueing.antt =====
-- `Enqueue` of go/internal/dbstore/tasks.go: one piece of work for one idempotency key.
use mathlib.Core.List.{Memᴰ}
use ai_env_mgr.Base.{
  ℕ, String, ◌≡◌, refl, sym, ap, ◌∙◌, inl, inr, Bool, true, false, ◌||◌, none, some, List, [], ◌∷◌,
  ◌++◌, arith, All, All-Memᴰ, All-of_Memᴰ, Unique-eq, Bool-cases, Option-cases, first, first-some,
  first-none, change, update_where, update_where_id, Unique, str_eq, eq_iff, &&-eq-true,
}
use ai_env_mgr.Task.{Task, NewTask, Result, ok, has_id, has_key, is_failed}
use ai_env_mgr.Task.Updates.{new_row, revive_row, failed_under}
use ai_env_mgr.Queue.{
  Queue, insert_task, revive_failed, existing, after_insert, revive_or_read, enqueue,
}

-- The row of a key, in a table where keys are unique.
abbrev Keyed : String → Task → List Task → Type 0
Keyed key t xs = first (has_key key) xs ≡ some t

first-append_miss :
    (p : Task → Bool) (xs : List Task) (y : Task)
    → first p xs ≡ none
    → p y ≡ true
    → first p (xs ++ y ∷ []) ≡ some y
first-append_miss p [] y h e = rw e
first-append_miss p (x ∷ xs) y h e = elim (Bool-cases (p x)) [
  | inl d ↦ absurd (ground arith)
  | inr d ↦ rw d (first-append_miss p xs y (ground arith) e)
]

-- An update that keeps a test passing finds the same row, updated.
first-update :
    (p q : Task → Bool) (f : Task → Task) (xs : List Task) (t : Task)
    → ((x : Task) → p (change q f x) ≡ p x)
    → first p xs ≡ some t
    → first p (update_where q f xs) ≡ some (change q f t)
first-update p q f [] t keep h = absurd (ground arith)
first-update p q f (x ∷ xs) t keep h = elim (Bool-cases (p x)) [
  | inl d ↦ let same : x ≡ t = ground arith in rw (keep x, d) (ap (λ v. some (change q f v)) same)
  | inr d ↦ rw (keep x, d) (first-update p q f xs t keep (ground arith))
]

-- The row that answers for a key, and that it has not failed.
pub record Settled (key : String) (t : Task) (q : Queue) : Type 0 where
  pub found : first (has_key key) q.tasks ≡ some t
  pub alive : is_failed t.status ≡ false

pub failed_under-parts :
    (key : String) (t : Task)
    → failed_under key t ≡ true
    → (has_key key t ≡ true) × (is_failed t.status ≡ true)
failed_under-parts key t h = &&-eq-true (has_key key t) (is_failed t.status) h

pub revive_row-keyed :
    (key : String) (now : ℕ) (t : Task)
    → (has_key key (change (failed_under key) (revive_row now) t) ≡ has_key key t)
      × (is_failed (revive_row now t).status ≡ false)
unfolding revive_row
revive_row-keyed key now t = (ground arith, refl)

pub key-Unique :
    (key : String) (xs : List Task) (t u : Task)
    → Unique (λ (v : Task). v.idempotency_key) xs
    → first (has_key key) xs ≡ some t
    → Memᴰ u xs
    → has_key key u ≡ true
    → u ≡ t
key-Unique key xs t u unique e m h =
    let (d, n) = first-some (has_key key) xs t e in
    Unique-eq _ xs u t unique m n
      ((eq_iff u.idempotency_key key).0 h ∙ sym ((eq_iff t.idempotency_key key).0 d))

-- The row of the key has not failed, so nothing is revived.
nothing_failed :
    (key : String) (q : Queue) (t : Task)
    → Unique (λ (v : Task). v.idempotency_key) q.tasks
    → Settled key t q
    → All (λ u. failed_under key u ≡ false) q.tasks
nothing_failed key q t unique s = All-of_Memᴰ _ q.tasks row
  where
    row : (u : Task) → Memᴰ u q.tasks → failed_under key u ≡ false
    row u m = elim (Bool-cases (failed_under key u)) [
      | inr h ↦ h
      | inl h ↦
          let parts = failed_under-parts key u h in
          let same : u ≡ t = key-Unique key q.tasks t u unique s.found m parts.0 in
          let gone : is_failed t.status ≡ true = rw (← same) parts.1 in
          let alive : is_failed t.status ≡ false = s.alive in cc
    ]

unfoldable pub revived_queue : String → ℕ → Queue → Queue
revived_queue key now q = record q {
  tasks = update_where (failed_under key) (revive_row now) q.tasks;
}

-- A failed row under the key is put back on the queue and reported as created.
pub revive_or_read-hit :
    (key : String) (now : ℕ) (q : Queue) (x : Task)
    → first (failed_under key) q.tasks ≡ some x
    → revive_or_read key now q ≡ (revived_queue key now q, ok (revive_row now x, true))
unfolding revive_or_read revive_failed revived_queue
revive_or_read-hit key now q x d = rw (d, revive_or_read)

-- Otherwise the row is handed back as it is.
pub revive_or_read-miss :
    (key : String) (now : ℕ) (q : Queue) (old : Task)
    → first (failed_under key) q.tasks ≡ none
    → first (has_key key) q.tasks ≡ some old
    → revive_or_read key now q ≡ (q, ok (old, false))
unfolding revive_or_read revive_failed existing
revive_or_read-miss key now q old d e = rw (
  d,
  revive_or_read,
  update_where_id (failed_under key) (revive_row now) q.tasks (first-none _ q.tasks d),
  e,
  existing,
)

answer-eq :
    (q q' : Queue) (t t' : Task) (c c' : Bool)
    → ◌≡◌ {A = Queue × Result (Task × Bool)} (q, ok (t, c)) (q', ok (t', c'))
    → (q.tasks ≡ q'.tasks) × (t ≡ t')
answer-eq q q' t t' c c' e = (ground arith, ground arith)

revived-Settled :
    (key : String) (now : ℕ) (q : Queue) (old : Task)
    → first (has_key key) q.tasks ≡ some old
    → failed_under key old ≡ true
    → Settled key (revive_row now old) (revived_queue key now q)
unfolding revived_queue
revived-Settled key now q old e hit = record {
  found =
      first-update (has_key key) (failed_under key) (revive_row now) q.tasks old
        (λ v. (revive_row-keyed key now v).0) e
      ∙ rw hit;
  alive = (revive_row-keyed key now old).1;
}

pub alive_of_miss :
    (key : String) (q : Queue) (old : Task)
    → first (failed_under key) q.tasks ≡ none
    → first (has_key key) q.tasks ≡ some old
    → is_failed old.status ≡ false
alive_of_miss key q old d e =
    let (h, m) = first-some (has_key key) q.tasks old e in
    let free : failed_under key old ≡ false = All-Memᴰ _ q.tasks old (first-none _ q.tasks d) m in
    ground (arith, h, free)

Settled-subst :
    (key : String) (t u : Task) (q q' : Queue)
    → q.tasks ≡ q'.tasks
    → t ≡ u
    → Settled key t q
    → Settled key u q'
Settled-subst key t u q q' p e s = record {
  found = rw (← p, ← e) s.found;
  alive = rw (← e) s.alive;
}

revive_or_read-Settled :
    (key : String) (now : ℕ) (q q' : Queue) (old t : Task) (created : Bool)
    → Unique (λ (v : Task). v.idempotency_key) q.tasks
    → first (has_key key) q.tasks ≡ some old
    → revive_or_read key now q ≡ (q', ok (t, created))
    → Settled key t q'
revive_or_read-Settled key now q q' old t created unique e h =
    elim (Option-cases (first (failed_under key) q.tasks)) [
      | inr (x, d) ↦
          let (p, m) = first-some (failed_under key) q.tasks x d in
          let same : x ≡ old =
            key-Unique key q.tasks old x unique e m (failed_under-parts key x p).0 in
          let (there, answer) =
            answer-eq _ q' _ t true created (sym (revive_or_read-hit key now q x d) ∙ h) in
          Settled-subst key (revive_row now old) t (revived_queue key now q) q' there
            (ap (revive_row now) (sym same) ∙ answer)
            (revived-Settled key now q old e (rw (← same) p))
      | inl d ↦
          let (there, answer) =
            answer-eq q q' old t false created (sym (revive_or_read-miss key now q old d e) ∙ h) in
          Settled-subst key old t q q' there answer
            (record { found = e; alive = alive_of_miss key q old d e })
    ]

new_row-keyed :
    (n : NewTask) (fresh wall now : ℕ)
    → (has_key n.idempotency_key (new_row n fresh wall now) ≡ true)
      × (is_failed (new_row n fresh wall now).status ≡ false)
unfolding new_row
new_row-keyed n fresh wall now = ((eq_iff n.idempotency_key n.idempotency_key).1 refl, refl)

insert_task-new :
    (n : NewTask) (fresh wall now : ℕ) (q : Queue)
    → first (has_key n.idempotency_key) q.tasks ≡ none
    → first (has_id fresh) q.tasks ≡ none
    → insert_task n fresh wall now q ≡ (
      record q { tasks = q.tasks ++ new_row n fresh wall now ∷ [] },
      ok (some (new_row n fresh wall now)),
    )
unfolding insert_task
insert_task-new n fresh wall now q e d = rw (e, insert_task, d)

insert_task-known :
    (n : NewTask) (fresh wall now : ℕ) (q : Queue) (old : Task)
    → first (has_key n.idempotency_key) q.tasks ≡ some old
    → insert_task n fresh wall now q ≡ (q, ok none)
unfolding insert_task
insert_task-known n fresh wall now q old e = rw (e, insert_task)

-- A key that no row has, and a fresh id: one row is appended.
enqueue-new :
    (n : NewTask) (fresh wall now : ℕ) (q : Queue)
    → (str_eq n.kind "" || str_eq n.idempotency_key "") ≡ false
    → first (has_key n.idempotency_key) q.tasks ≡ none
    → first (has_id fresh) q.tasks ≡ none
    → enqueue n fresh wall now q ≡ (
      record q { tasks = q.tasks ++ new_row n fresh wall now ∷ [] },
      ok (new_row n fresh wall now, true),
    )
unfolding enqueue
enqueue-new n fresh wall now q b e d =
    rw (b, enqueue)
      (ap (after_insert n.idempotency_key now) (insert_task-new n fresh wall now q e d))

-- A key that some row has: nothing is inserted.
pub enqueue-known :
    (n : NewTask) (fresh wall now : ℕ) (q : Queue) (old : Task)
    → (str_eq n.kind "" || str_eq n.idempotency_key "") ≡ false
    → first (has_key n.idempotency_key) q.tasks ≡ some old
    → enqueue n fresh wall now q ≡ revive_or_read n.idempotency_key now q
unfolding enqueue
enqueue-known n fresh wall now q old b e =
    rw (b, enqueue)
      (ap (after_insert n.idempotency_key now) (insert_task-known n fresh wall now q old e))

-- The row that `Enqueue` answers with is the row of the key, and it has not failed.
pub enqueue-Settled :
    (n : NewTask) (fresh wall now : ℕ) (q q' : Queue) (t : Task) (created : Bool)
    → Unique (λ (v : Task). v.idempotency_key) q.tasks
    → enqueue n fresh wall now q ≡ (q', ok (t, created))
    → Settled n.idempotency_key t q'
unfolding enqueue insert_task
enqueue-Settled n fresh wall now q q' t created unique h =
    elim (Bool-cases (str_eq n.kind "" || str_eq n.idempotency_key "")) [
      | inl b ↦ absurd (ground arith)
      | inr b ↦ elim (Option-cases (first (has_key n.idempotency_key) q.tasks)) [
        | inr (old, e) ↦
            revive_or_read-Settled n.idempotency_key now q q' old t created unique e
              (sym (enqueue-known n fresh wall now q old b e) ∙ h)
        | inl e ↦ elim (Option-cases (first (has_id fresh) q.tasks)) [
          | inr (other, d) ↦ absurd (ground arith)
          | inl d ↦
              let row : Task = new_row n fresh wall now in
              let grown : Queue = record q { tasks = q.tasks ++ row ∷ [] } in
              let (there, answer) =
                answer-eq grown q' row t true created
                  (sym (enqueue-new n fresh wall now q b e d) ∙ h) in
              Settled-subst n.idempotency_key row t grown q' there answer (record {
                found = first-append_miss _ q.tasks _ e (new_row-keyed n fresh wall now).0;
                alive = (new_row-keyed n fresh wall now).1;
              })
        ]
      ]
    ]
