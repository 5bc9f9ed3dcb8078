-- ===== src/Queue/Reports.antt =====
-- Reports on a task: `Extend`, `Succeed`, `Fail` and `FailPermanently` of
-- go/internal/dbstore/tasks.go, with the lease refused or held.
use mathlib.Core.List.{Memᴰ}
use ai_env_mgr.Base.{
  ℕ, ℤ, String, ◌≡◌, ◌≢◌, subst, inl, inr, true, false, Option, some, arith, All, Bool-cases,
  positive_or, minute, first, first-some, first-none_of_All, change-Memᴰ, update_where,
  update_where_id, select-nil_of_All,
}
use ai_env_mgr.Task.{Task, lease_lost, err, holds}
use ai_env_mgr.Task.Updates.{extend_row}
use ai_env_mgr.Queue.{Queue}
use ai_env_mgr.Queue.Close.{extend, succeed, fail, fail_permanently}

-- Nobody holds the task under this name at this time.
abbrev pub Unheld : ℕ → String → ℕ → Queue → Type 0
Unheld id owner now q = All (λ t. holds id owner now t ≡ false) q.tasks

-- The report was taken: `t` is a row that the owner holds, `f` was done to it, and the rows of the
-- other tasks are as they were.
pub record Taken (id : ℕ) (owner : String) (now : ℕ) (f : Task → Task) (q q' : Queue) (t : Task)
    : Type 0 where
  pub listed : Memᴰ t q.tasks
  pub held : holds id owner now t ≡ true
  pub done : Memᴰ (f t) q'.tasks
  pub others : (u : Task) → Memᴰ u q.tasks → u.id ≢ id → Memᴰ u q'.tasks

pub holds-id :
    (id : ℕ) (owner : String) (now : ℕ) (t : Task) → holds id owner now t ≡ true → t.id ≡ id
unfolding holds
holds-id id owner now t h = ground arith

pub taken :
    (id : ℕ) (owner : String) (now : ℕ) (f : Task → Task) (q q' : Queue) (t : Task)
    → first (holds id owner now) q.tasks ≡ some t
    → q'.tasks ≡ update_where (holds id owner now) f q.tasks
    → Taken id owner now f q q' t
taken id owner now f q q' t e same =
    let (h, m) = first-some (holds id owner now) q.tasks t e in
    record {
      listed = m;
      held = h;
      done = rw same (hit h m);
      others = λ u n ne. rw same (miss u n ne);
    }
  where
    hit :
        holds id owner now t ≡ true
        → Memᴰ t q.tasks
        → Memᴰ (f t) (update_where (holds id owner now) f q.tasks)
    hit h m =
        subst (λ v. Memᴰ v (update_where (holds id owner now) f q.tasks)) (rw h)
          (change-Memᴰ (holds id owner now) f q.tasks t m)

    miss :
        (u : Task)
        → Memᴰ u q.tasks
        → u.id ≢ id
        → Memᴰ u (update_where (holds id owner now) f q.tasks)
    miss u n ne =
        let unheld : holds id owner now u ≡ false = elim (Bool-cases (holds id owner now u)) [
          | inl h ↦ absurd (ne (holds-id id owner now u h))
          | inr h ↦ h
        ] in
        subst (λ v. Memᴰ v (update_where (holds id owner now) f q.tasks)) (rw unheld)
          (change-Memᴰ (holds id owner now) f q.tasks u n)

-- With no lease all four reports are refused, and none of them changes anything.
pub Unheld-refused :
    (id : ℕ) (owner class detail ref : String) (retry_at : Option ℕ) (lease : ℤ) (wall now : ℕ)
    (q : Queue)
    → Unheld id owner now q
    → (extend id owner lease now q ≡ (q, err lease_lost))
      × (succeed id owner ref now q ≡ (q, err lease_lost))
      × (fail id owner retry_at class detail ref wall now q ≡ (q, err lease_lost))
      × (fail_permanently id owner class detail ref now q ≡ (q, err lease_lost))
unfolding extend succeed fail fail_permanently
Unheld-refused id owner class detail ref retry_at lease wall now q h =
    let gone = first-none_of_All (holds id owner now) q.tasks h in
    (
      rw (
        extend,
        update_where_id (holds id owner now) (extend_row (positive_or minute lease) now) q.tasks h,
        select-nil_of_All (holds id owner now) q.tasks h,
      ),
      rw (gone, succeed),
      rw (gone, fail),
      rw (gone, fail_permanently),
    )
