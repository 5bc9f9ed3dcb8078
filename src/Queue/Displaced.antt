-- ===== src/Queue/Displaced.antt =====
-- A worker whose lease ran out while another claimed the task: what becomes of the late reports of the
-- former owner (`Extend`, `Succeed`, `Fail` and `FailPermanently` of go/internal/dbstore/tasks.go).
use mathlib.Core.List.{Memᴰ}
use native.Mathlib.Decide.{ℕ_discrete}
use ai_env_mgr.Base.{
  ℕ, ℤ, String, ◌≡◌, ◌≢◌, sym, ap, ◌∙◌, inl, inr, Bool, false, Option, List, arith, All, Bool-cases,
  Option-cases, positive_or, minute, first, update_where, All-of_Memᴰ, Unique, Unique-eq, eq_iff,
  ◌&&◌, All-imp,
}
use ai_env_mgr.Task.{Task, lease_lost, ok, err, holds, has_id, owned_by}
use ai_env_mgr.Task.Updates.{extend_row, succeed_row, fail_row, fail_permanently_row, claim_row}
use ai_env_mgr.Queue.{Queue, claim}
use ai_env_mgr.Queue.Close.{extend, succeed, fail, fail_permanently}
use ai_env_mgr.Queue.Claiming.{claim-ok, claimed-Memᴰ, claim_row-same}
use ai_env_mgr.Base.{change, All-map, select, str_eq, ◌+◌, [], ◌∷◌}
use ai_env_mgr.Task.{NewTask, runnable, or_else}
use ai_env_mgr.Task.Updates.{new_row, revive_row, supersede_row, expire_row}
use ai_env_mgr.Queue.{revive_failed, take, earliest}
use ai_env_mgr.Queue.Sweep.{supersede, supersede_open, release_expired}
use ai_env_mgr.Queue.Steps.{
  Op, apply, run, inserts, revives, claims, extends, succeeds, fails, fails_permanently, supersedes,
  supersedes_open, releases,
}
use ai_env_mgr.Queue.Every.{insert_task-All}
use ai_env_mgr.Queue.Reports.{Unheld, Unheld-refused}

-- The statement is no claim by this worker.
unfoldable pub IsOther : String → Op → Type 0
IsOther owner (claims other kinds lease now epoch_of locked) = owner ≢ other
IsOther owner _ = Unit

-- The schedule has no claim by this worker.
unfoldable pub NeverClaims : String → List Op → Type 0
NeverClaims owner [] = Unit
NeverClaims owner (o ∷ os) = IsOther owner o × NeverClaims owner os

-- The lease on the task is not in this worker's name.
abbrev pub NotOwned : ℕ → String → Task → Type 0
NotOwned id owner t = (has_id id t && owned_by owner t) ≡ false

pub NotOwned-Unheld :
    (id : ℕ) (owner : String) (now : ℕ) (q : Queue)
    → All (NotOwned id owner) q.tasks
    → Unheld id owner now q
unfolding holds
NotOwned-Unheld id owner now q h = All-imp _ _ q.tasks (λ t k. ground arith) h

other_owner :
    (id : ℕ) (owner other : String) (lease now : ℕ) (t : Task)
    → owner ≢ other
    → NotOwned id owner (claim_row other lease now t)
unfolding claim_row
other_owner id owner other lease now t ne = ground (arith, eq_iff other owner)

-- In the tables that a claim left, ids being unique, nobody of another name has the claimed task.
pub claim-NotOwned :
    (owner other : String) (kinds : List String) (lease : ℤ) (now : ℕ) (epoch_of : ℕ → Option ℕ)
    (locked : ℕ → Bool) (q q' : Queue) (t' : Task)
    → Unique (λ (v : Task). v.id) q'.tasks
    → owner ≢ other
    → claim other kinds lease now epoch_of locked q ≡ (q', ok t')
    → All (NotOwned t'.id owner) q'.tasks
claim-NotOwned owner other kinds lease now epoch_of locked q q' t' unique ne h =
    All-of_Memᴰ _ q'.tasks row
  where
    row : (u : Task) → Memᴰ u q'.tasks → NotOwned t'.id owner u
    row u n =
        let (t, done) = claim-ok other kinds lease now epoch_of locked q q' t' h in
        let mine : Task = claim_row other (positive_or minute lease) now t in
        let there : Memᴰ mine q'.tasks =
          rw done.left (claimed-Memᴰ other (positive_or minute lease) now q t done.listed) in
        let named : t'.id ≡ t.id =
          ap (λ (v : Task). v.id) done.taken
          ∙ (claim_row-same other (positive_or minute lease) now t).0 in
        elim (ℕ_discrete u.id t.id) [
          | yes e ↦
              let one : u ≡ mine =
                Unique-eq _ q'.tasks u mine unique n there
                  (e ∙ sym (claim_row-same other (positive_or minute lease) now t).0) in
              rw one (other_owner t'.id owner other (positive_or minute lease) now t ne)
          | no d ↦ ground arith
        ]

module _ (id : ℕ) (owner : String) where
  update-NotOwned :
      (p : Task → Bool) (f : Task → Task) (xs : List Task)
      → ((t : Task) → NotOwned id owner t → NotOwned id owner (f t))
      → All (NotOwned id owner) xs
      → All (NotOwned id owner) (update_where p f xs)
  update-NotOwned p f xs keep h =
      All-map _ _ (change p f) xs
        (λ t k. elim (Bool-cases (p t)) [ inl e ↦ rw e (keep t k) | inr e ↦ rw e k ]) h

  new_row-NotOwned :
      (n : NewTask) (fresh wall now : ℕ) → NotOwned id owner (new_row n fresh wall now)
  unfolding new_row
  new_row-NotOwned n fresh wall now = ground arith

  claim-keeps :
      (other : String) (kinds : List String) (lease : ℤ) (now : ℕ) (epoch_of : ℕ → Option ℕ)
      (locked : ℕ → Bool) (q : Queue)
      → owner ≢ other
      → All (NotOwned id owner) q.tasks
      → All (NotOwned id owner) (claim other kinds lease now epoch_of locked q).0.tasks
  unfolding claim take
  claim-keeps other kinds lease now epoch_of locked q ne h = elim (Bool-cases (str_eq other "")) [
    | inl e ↦ rw e h
    | inr e ↦
        rw e (elim (Option-cases (earliest (select (runnable kinds now epoch_of locked) q.tasks))) [
          | inl d ↦ rw d h
          | inr (t, d) ↦ rw d (
              update-NotOwned (has_id t.id) (claim_row other (positive_or minute lease) now) q.tasks
                (λ v k. other_owner id owner other (positive_or minute lease) now v ne) h)
        ])
  ]

  -- The reports keep the lease in its name or give it up.
  succeed-keeps :
      (task : ℕ) (by ref : String) (now : ℕ) (q : Queue)
      → All (NotOwned id owner) q.tasks
      → All (NotOwned id owner) (succeed task by ref now q).0.tasks
  unfolding succeed succeed_row
  succeed-keeps task by ref now q h = elim (Option-cases (first (holds task by now) q.tasks)) [
    | inl e ↦ rw (e, succeed) h
    | inr (t, e) ↦
        rw (e, succeed) (update-NotOwned _ (succeed_row now) q.tasks (λ v k. ground arith) h)
  ]

  fail-keeps :
      (task : ℕ) (by : String) (retry_at : Option ℕ) (class detail ref : String) (wall now : ℕ)
      (q : Queue)
      → All (NotOwned id owner) q.tasks
      → All (NotOwned id owner) (fail task by retry_at class detail ref wall now q).0.tasks
  unfolding fail fail_row
  fail-keeps task by retry_at class detail ref wall now q h =
      elim (Option-cases (first (holds task by now) q.tasks)) [
        | inl e ↦ rw (e, fail) h
        | inr (t, e) ↦
            rw (e, fail)
              (update-NotOwned _ (fail_row (or_else retry_at (wall + minute)) detail now) q.tasks
                (λ v k. ground arith) h)
      ]

  fail_permanently-keeps :
      (task : ℕ) (by class detail ref : String) (now : ℕ) (q : Queue)
      → All (NotOwned id owner) q.tasks
      → All (NotOwned id owner) (fail_permanently task by class detail ref now q).0.tasks
  unfolding fail_permanently fail_permanently_row
  fail_permanently-keeps task by class detail ref now q h =
      elim (Option-cases (first (holds task by now) q.tasks)) [
        | inl e ↦ rw (e, fail_permanently) h
        | inr (t, e) ↦
            rw (e, fail_permanently)
              (update-NotOwned _ (fail_permanently_row detail now) q.tasks (λ v k. ground arith) h)
      ]

  apply-keeps :
      (o : Op) (q : Queue)
      → IsOther owner o
      → All (NotOwned id owner) q.tasks
      → All (NotOwned id owner) (apply o q).tasks
  unfolding IsOther apply revive_failed revive_row extend extend_row supersede supersede_row
      supersede_open release_expired expire_row
  apply-keeps (inserts n fresh wall now) q other h =
      insert_task-All _ n fresh wall now q (new_row-NotOwned n fresh wall now) h
  apply-keeps (revives key now) q other h =
      update-NotOwned _ (revive_row now) q.tasks (λ v k. ground arith) h
  apply-keeps (claims by kinds lease now epoch_of locked) q other h =
      claim-keeps by kinds lease now epoch_of locked q other h
  apply-keeps (extends task by lease now) q other h =
      update-NotOwned _ (extend_row (positive_or minute lease) now) q.tasks (λ v k. k) h
  apply-keeps (succeeds task by ref now) q other h = succeed-keeps task by ref now q h
  apply-keeps (fails task by retry_at class detail ref wall now) q other h =
      fail-keeps task by retry_at class detail ref wall now q h
  apply-keeps (fails_permanently task by class detail ref now) q other h =
      fail_permanently-keeps task by class detail ref now q h
  apply-keeps (supersedes task reason now) q other h =
      update-NotOwned _ (supersede_row _ now) q.tasks (λ v k. ground arith) h
  apply-keeps (supersedes_open employee epoch now) q other h =
      update-NotOwned _ (supersede_row _ now) q.tasks (λ v k. ground arith) h
  apply-keeps (releases now) q other h =
      update-NotOwned _ (expire_row now) q.tasks (λ v k. ground arith) h

  run-keeps :
      (os : List Op) (q : Queue)
      → NeverClaims owner os
      → All (NotOwned id owner) q.tasks
      → All (NotOwned id owner) (run os q).tasks
  unfolding NeverClaims run
  run-keeps [] q never h = h
  run-keeps (o ∷ os) q never h = run-keeps os (apply o q) never.1 (apply-keeps o q never.0 h)

-- A lease is not a lock: once a worker of another name has claimed a task, ids being unique in the
-- tables that this claim left, whatever statements follow, as long as none of them is a claim by the
-- former owner, and at whatever time, each of the four reports of the former owner on the task is
-- refused as a lost lease and changes nothing.
pub claim-refused :
    (owner other : String) (kinds : List String) (lease : ℤ) (now : ℕ) (epoch_of : ℕ → Option ℕ)
    (locked : ℕ → Bool) (q q' : Queue) (t' : Task) (os : List Op) (class detail ref : String)
    (retry_at : Option ℕ) (longer : ℤ) (wall later : ℕ)
    → Unique (λ (v : Task). v.id) q'.tasks
    → owner ≢ other
    → claim other kinds lease now epoch_of locked q ≡ (q', ok t')
    → NeverClaims owner os
    → (extend t'.id owner longer later (run os q') ≡ (run os q', err lease_lost))
      × (succeed t'.id owner ref later (run os q') ≡ (run os q', err lease_lost))
      × (fail t'.id owner retry_at class detail ref wall later (run os q')
          ≡ (run os q', err lease_lost))
      × (fail_permanently t'.id owner class detail ref later (run os q')
          ≡ (run os q', err lease_lost))
claim-refused owner other kinds lease now epoch_of locked q q' t' os class detail ref retry_at
      longer wall later unique ne h never =
    Unheld-refused t'.id owner class detail ref retry_at longer wall later (run os q') (
      NotOwned-Unheld t'.id owner later (run os q') (
        run-keeps t'.id owner os q' never
          (claim-NotOwned owner other kinds lease now epoch_of locked q q' t' unique ne h)))
