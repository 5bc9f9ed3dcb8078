-- ===== src/Queue/Effect.antt =====
-- What a statement does to the table of tasks: it appends a new row, or it moves every row by one of
-- the transitions below.
use mathlib.Core.List.{Memᴰ}
use ai_env_mgr.Base.{
  ℕ, ℤ, String, ◌≡◌, refl, sym, ap, inl, inr, Bool, true, false, Option, List, [], ◌∷◌, ◌++◌, map,
  arith, All, Bool-cases, Option-cases, change, update_where, select, first, first-none,
  select-Memᴰ, Absent, Unique, Unique-eq, ==_iff, eq_iff, &&-eq-true, str_eq, positive_or, minute,
}
use ai_env_mgr.Task.{
  Task, NewTask, is_running, is_failed, is_waiting, is_open, has_id, has_key, runnable, holds,
  open_with_id, overtaken, expired, left,
}
use ai_env_mgr.Task.Updates.{
  new_row, revive_row, claim_row, extend_row, succeed_row, fail_row, fail_permanently_row,
  supersede_row, expire_row, failed_under,
}
use ai_env_mgr.Queue.{Queue, insert_task, revive_failed, claim, take, earliest}
use ai_env_mgr.Queue.Earliest.{earliest-Memᴰ}
use ai_env_mgr.Queue.Close.{extend, succeed, fail, fail_permanently}
use ai_env_mgr.Queue.Sweep.{supersede, supersede_open, release_expired}
use ai_env_mgr.Queue.Steps.{
  Op, apply, inserts, revives, claims, extends, succeeds, fails, fails_permanently, supersedes,
  supersedes_open, releases,
}

-- One row before and after a statement; `asked` are the idempotency keys that it asks for again.
pub data RowStep (asked : String → Bool) (t u : Task) : Type 0 where
  stays : u ≡ t → RowStep asked t u
  revived :
      (now : ℕ)
      → is_failed t.status ≡ true
      → asked t.idempotency_key ≡ true
      → u ≡ revive_row now t
      → RowStep asked t u
  claimed :
      (owner : String) (lease now : ℕ)
      → is_waiting t.status ≡ true
      → u ≡ claim_row owner lease now t
      → RowStep asked t u
  extended :
      (lease now : ℕ) → is_running t.status ≡ true → u ≡ extend_row lease now t → RowStep asked t u
  completed : (now : ℕ) → is_running t.status ≡ true → u ≡ succeed_row now t → RowStep asked t u
  retried :
      (at now : ℕ) (detail : String)
      → is_running t.status ≡ true
      → u ≡ fail_row at detail now t
      → RowStep asked t u
  given_up :
      (now : ℕ) (detail : String)
      → is_running t.status ≡ true
      → u ≡ fail_permanently_row detail now t
      → RowStep asked t u
  overtook :
      (now : ℕ) (reason : String)
      → is_open t.status ≡ true
      → u ≡ supersede_row reason now t
      → RowStep asked t u
  timed_out : (now : ℕ) → is_running t.status ≡ true → u ≡ expire_row now t → RowStep asked t u

-- The table before and after a statement.
pub data Effect (asked : String → Bool) (xs ys : List Task) : Type 0 where
  appends :
      (n : NewTask) (fresh wall now : ℕ)
      → Absent (λ (t : Task). t.idempotency_key) n.idempotency_key xs
      → Absent (λ (t : Task). t.id) fresh xs
      → ys ≡ xs ++ new_row n fresh wall now ∷ []
      → Effect asked xs ys
  moves :
      (f : Task → Task)
      → ((t : Task) → Memᴰ t xs → RowStep asked t (f t))
      → ys ≡ map f xs
      → Effect asked xs ys

change-RowStep :
    (asked : String → Bool) (p : Task → Bool) (f : Task → Task)
    → ((t : Task) → p t ≡ true → RowStep asked t (f t))
    → (t : Task) → RowStep asked t (change p f t)
change-RowStep asked p f step t = elim (Bool-cases (p t)) [
  | inl e ↦ rw e (step t e)
  | inr e ↦ rw e (stays refl)
]

updates :
    {asked : String → Bool} (p : Task → Bool) (f : Task → Task) (xs : List Task)
    → ((t : Task) → p t ≡ true → RowStep asked t (f t))
    → Effect asked xs (update_where p f xs)
updates {asked} p f xs step = moves (change p f) (λ t m. change-RowStep asked p f step t) refl

map_id : (xs : List Task) → map (λ t. t) xs ≡ xs
map_id [] = refl
map_id (x ∷ xs) = ap (◌∷◌ x) (map_id xs)

unchanged : {asked : String → Bool} (xs : List Task) → Effect asked xs xs
unchanged xs = moves (λ t. t) (λ t m. stays refl) (sym (map_id xs))

no_key :
    (key : String) (xs : List Task)
    → All (λ x. has_key key x ≡ false) xs
    → Absent (λ (t : Task). t.idempotency_key) key xs
no_key key [] h = tt
no_key key (x ∷ xs) h = ((λ e. ground (arith, eq_iff x.idempotency_key key)), no_key key xs h.1)

no_id :
    (id : ℕ) (xs : List Task)
    → All (λ x. has_id id x ≡ false) xs
    → Absent (λ (t : Task). t.id) id xs
no_id id [] h = tt
no_id id (x ∷ xs) h = ((λ e. ground arith), no_id id xs h.1)

-- The keys that a statement asks for again.
pub asks : Op → String → Bool
asks (revives key now) k = str_eq k key
asks _ k = false

insert_task-Effect :
    {asked : String → Bool} (n : NewTask) (fresh wall now : ℕ) (q : Queue)
    → Effect asked q.tasks (insert_task n fresh wall now q).0.tasks
unfolding insert_task
insert_task-Effect n fresh wall now q =
    elim (Option-cases (first (has_key n.idempotency_key) q.tasks)) [
      | inr (old, e) ↦ rw (e, insert_task) (unchanged q.tasks)
      | inl e ↦ elim (Option-cases (first (has_id fresh) q.tasks)) [
        | inr (other, d) ↦ rw (e, d, insert_task) (unchanged q.tasks)
        | inl d ↦
            rw (e, d, insert_task)
              (appends n fresh wall now (no_key _ q.tasks (first-none _ q.tasks e))
                (no_id fresh q.tasks (first-none _ q.tasks d)) refl)
      ]
    ]

revive_failed-Effect :
    (key : String) (now : ℕ) (q : Queue)
    → Effect (λ k. str_eq k key) q.tasks (revive_failed key now q).0.tasks
unfolding revive_failed
revive_failed-Effect key now q = updates (failed_under key) (revive_row now) q.tasks (λ t e.
    let (same, gone) = &&-eq-true (has_key key t) (is_failed t.status) e in
    revived now gone same refl)

holds-running :
    (id : ℕ) (owner : String) (now : ℕ) (t : Task)
    → holds id owner now t ≡ true
    → is_running t.status ≡ true
unfolding holds
holds-running id owner now t h = ground arith

runnable-waiting :
    (kinds : List String) (now : ℕ) (epoch_of : ℕ → Option ℕ) (locked : ℕ → Bool) (t : Task)
    → runnable kinds now epoch_of locked t ≡ true
    → is_waiting t.status ≡ true
unfolding runnable
runnable-waiting kinds now epoch_of locked t h = (&&-eq-true (is_waiting t.status) _ h).0

overtaken-open :
    (employee epoch : ℕ) (t : Task) → overtaken employee epoch t ≡ true → is_open t.status ≡ true
unfolding overtaken
overtaken-open employee epoch t h = ground arith

expired-running : (now : ℕ) (t : Task) → expired now t ≡ true → is_running t.status ≡ true
unfolding expired
expired-running now t h = ground arith

-- Only the row that was chosen has its id, so `Claim` moves a waiting row.
take-Effect :
    {asked : String → Bool} (owner : String) (lease now : ℕ) (t : Task) (q : Queue)
    → Unique (λ (u : Task). u.id) q.tasks
    → Memᴰ t q.tasks
    → is_waiting t.status ≡ true
    → Effect asked q.tasks (take owner lease now t q).0.tasks
unfolding take
take-Effect {asked} owner lease now t q u m w =
    moves (change (has_id t.id) (claim_row owner lease now)) row refl
  where
    row :
        (x : Task)
        → Memᴰ x q.tasks
        → RowStep asked x (change (has_id t.id) (claim_row owner lease now) x)
    row x n = elim (Bool-cases (has_id t.id x)) [
      | inl e ↦
          let same : x ≡ t = Unique-eq _ q.tasks x t u n m ((==_iff x.id t.id).0 e) in
          rw e (claimed owner lease now (rw same w) refl)
      | inr e ↦ rw e (stays refl)
    ]

claim-Effect :
    {asked : String → Bool} (owner : String) (kinds : List String) (lease : ℤ) (now : ℕ)
    (epoch_of : ℕ → Option ℕ) (locked : ℕ → Bool) (q : Queue)
    → Unique (λ (u : Task). u.id) q.tasks
    → Effect asked q.tasks (claim owner kinds lease now epoch_of locked q).0.tasks
unfolding claim
claim-Effect owner kinds lease now epoch_of locked q u = elim (Bool-cases (str_eq owner "")) [
  | inl e ↦ rw e (unchanged q.tasks)
  | inr e ↦ elim (Option-cases (earliest (select (runnable kinds now epoch_of locked) q.tasks))) [
    | inl d ↦ rw (e, d) (unchanged q.tasks)
    | inr (t, d) ↦
        let (fits, m) =
          select-Memᴰ (runnable kinds now epoch_of locked) q.tasks t (earliest-Memᴰ _ t d) in
        rw (e, d)
          (take-Effect owner (positive_or minute lease) now t q u m
            (runnable-waiting kinds now epoch_of locked t fits))
  ]
]

-- A report changes the row that its worker holds, if there is one.
succeed-Effect :
    {asked : String → Bool} (id : ℕ) (owner ref : String) (now : ℕ) (q : Queue)
    → Effect asked q.tasks (succeed id owner ref now q).0.tasks
unfolding succeed
succeed-Effect id owner ref now q = elim (Option-cases (first (holds id owner now) q.tasks)) [
  | inl e ↦ rw (e, succeed) (unchanged q.tasks)
  | inr (t, e) ↦
      rw (e, succeed)
        (updates (holds id owner now) (succeed_row now) q.tasks
          (λ x h. completed now (holds-running id owner now x h) refl))
]

fail-Effect :
    {asked : String → Bool} (id : ℕ) (owner : String) (retry_at : Option ℕ)
    (class detail ref : String) (wall now : ℕ) (q : Queue)
    → Effect asked q.tasks (fail id owner retry_at class detail ref wall now q).0.tasks
unfolding fail
fail-Effect id owner retry_at class detail ref wall now q =
    elim (Option-cases (first (holds id owner now) q.tasks)) [
      | inl e ↦ rw (e, fail) (unchanged q.tasks)
      | inr (t, e) ↦
          rw (e, fail)
            (updates (holds id owner now) (fail_row _ detail now) q.tasks
              (λ x h. retried _ now detail (holds-running id owner now x h) refl))
    ]

fail_permanently-Effect :
    {asked : String → Bool} (id : ℕ) (owner class detail ref : String) (now : ℕ) (q : Queue)
    → Effect asked q.tasks (fail_permanently id owner class detail ref now q).0.tasks
unfolding fail_permanently
fail_permanently-Effect id owner class detail ref now q =
    elim (Option-cases (first (holds id owner now) q.tasks)) [
      | inl e ↦ rw (e, fail_permanently) (unchanged q.tasks)
      | inr (t, e) ↦
          rw (e, fail_permanently)
            (updates (holds id owner now) (fail_permanently_row detail now) q.tasks
              (λ x h. given_up now detail (holds-running id owner now x h) refl))
    ]

-- Every statement has one of the two effects.
pub apply-Effect :
    (o : Op) (q : Queue)
    → Unique (λ (t : Task). t.id) q.tasks
    → Effect (asks o) q.tasks (apply o q).tasks
unfolding apply asks extend supersede supersede_open release_expired
apply-Effect (inserts n fresh wall now) q u = insert_task-Effect n fresh wall now q
apply-Effect (revives key now) q u = revive_failed-Effect key now q
apply-Effect (claims owner kinds lease now epoch_of locked) q u =
    claim-Effect owner kinds lease now epoch_of locked q u
apply-Effect (extends id owner lease now) q u =
    updates (holds id owner now) (extend_row (positive_or minute lease) now) q.tasks
      (λ x h. extended _ now (holds-running id owner now x h) refl)
apply-Effect (succeeds id owner ref now) q u = succeed-Effect id owner ref now q
apply-Effect (fails id owner retry_at class detail ref wall now) q u =
    fail-Effect id owner retry_at class detail ref wall now q
apply-Effect (fails_permanently id owner class detail ref now) q u =
    fail_permanently-Effect id owner class detail ref now q
apply-Effect (supersedes id reason now) q u =
    updates (open_with_id id) (supersede_row (left 2000 reason) now) q.tasks
      (λ x h. overtook now _ (&&-eq-true (has_id id x) _ h).1 refl)
apply-Effect (supersedes_open employee epoch now) q u =
    updates (overtaken employee epoch) (supersede_row _ now) q.tasks
      (λ x h. overtook now _ (overtaken-open employee epoch x h) refl)
apply-Effect (releases now) q u =
    updates (expired now) (expire_row now) q.tasks
      (λ x h. timed_out now (expired-running now x h) refl)
