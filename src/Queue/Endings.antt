-- ===== src/Queue/Endings.antt =====
-- What `Succeed`, `Fail` and `FailPermanently` of go/internal/dbstore/tasks.go make of the task that is
-- held and of its attempt.
use mathlib.Core.List.{Memᴰ}
use ai_env_mgr.Base.{
  ℕ, String, ◌≡◌, ◌⊎◌, ap, subst, inl, inr, Bool, true, some, List, arith, Option-cases, first,
  first-none, change-Memᴰ, update_where, refl, none, ◌≤◌, ◌<◌, ltb, if◌then◌else◌,
}
use ai_env_mgr.Task.{
  Outcome, Attempt, Task, succeeded, failed, retry_wait, lease_lost, ok, err, holds, is_attempt,
  after_failure,
}
use ai_env_mgr.Task.Updates.{succeed_row, fail_row, fail_permanently_row, close_attempt, outcome_of}
use ai_env_mgr.Queue.{Queue}
use ai_env_mgr.Queue.Close.{succeed, fail, fail_permanently}
use ai_env_mgr.Queue.Reports.{Unheld, Taken, taken}

abbrev done_attempt : String → ℕ → Attempt → Attempt
done_attempt ref now a = record a {
  ended_at = some now;
  outcome = some Outcome.succeeded;
  external_ref = ref;
}

changed-Memᴰ :
    (p : Attempt → Bool) (f : Attempt → Attempt) (log : List Attempt) (a : Attempt)
    → Memᴰ a log
    → p a ≡ true
    → Memᴰ (f a) (update_where p f log)
changed-Memᴰ p f log a m h =
    subst (λ v. Memᴰ v (update_where p f log)) (rw h) (change-Memᴰ p f log a m)

-- A task that is closed as done: by its row, and by the rows of the attempt that was made.
pub record IsDone (ref : String) (now : ℕ) (t u : Task) (log' : List Attempt) (log : List Attempt)
    : Type 0 where
  pub same : (u.id ≡ t.id) × (u.attempts ≡ t.attempts)
  pub status : u.status ≡ succeeded
  pub finished : u.finished_at ≡ some now
  pub released : (u.lease_owner ≡ none) × (u.lease_until ≡ none)
  pub logged :
      (a : Attempt)
      → Memᴰ a log
      → is_attempt t.id t.attempts a ≡ true
      → (b : Attempt) × Memᴰ b log'
        × (b.outcome ≡ some Outcome.succeeded)
        × (b.ended_at ≡ some now)
        × (b.external_ref ≡ ref)

succeed_row-IsDone :
    (ref : String) (now : ℕ) (t : Task) (log : List Attempt)
    → IsDone ref now t
        (succeed_row now t)
        (update_where (is_attempt t.id t.attempts) (done_attempt ref now) log)
        log
unfolding succeed_row
succeed_row-IsDone ref now t log = record {
  same = (refl, refl);
  status = refl;
  finished = refl;
  released = (refl, refl);
  logged = λ a m h. (
    done_attempt ref now a,
    changed-Memᴰ (is_attempt t.id t.attempts) (done_attempt ref now) log a m h,
    refl,
    refl,
    refl,
  );
}

-- `Succeed` either finds no lease, answers with the error and changes nothing, or closes the task that
-- is held as succeeded and finished now, gives up the lease, writes the end of the attempt, and leaves
-- the rows of the other tasks.
pub succeed-cases :
    (id : ℕ) (owner ref : String) (now : ℕ) (q : Queue)
    → (Unheld id owner now q × (succeed id owner ref now q ≡ (q, err lease_lost)))
      ⊎ ((t : Task) × Taken id owner now (succeed_row now) q (succeed id owner ref now q).0 t
          × IsDone ref now t (succeed_row now t) (succeed id owner ref now q).0.log q.log
          × ((succeed id owner ref now q).1 ≡ ok tt))
unfolding succeed
succeed-cases id owner ref now q = elim (Option-cases (first (holds id owner now) q.tasks)) [
  | inl e ↦ inl (first-none _ q.tasks e, rw (e, succeed))
  | inr (t, e) ↦ inr (
    t,
    taken id owner now (succeed_row now) q _ t e (rw (e, succeed)),
    rw (e, succeed) (succeed_row-IsDone ref now t q.log),
    rw (e, succeed),
  )
]

-- A task that was tried and failed: closed as failed if that was its last try, and otherwise waiting
-- for the time of the retry; by its row, and by the rows of the attempt that was made.
pub record IsTried (retry_at : ℕ) (class detail ref : String) (now : ℕ) (t u : Task)
    (log' log : List Attempt) : Type 0 where
  pub same : (u.id ≡ t.id) × (u.attempts ≡ t.attempts)
  pub spent : t.max_attempts ≤ t.attempts → (u.status ≡ failed) × (u.finished_at ≡ some now)
  pub again :
      t.attempts < t.max_attempts
      → (u.status ≡ retry_wait) × (u.finished_at ≡ none) × (u.next_run_at ≡ retry_at)
  pub released : (u.lease_owner ≡ none) × (u.lease_until ≡ none)
  pub logged :
      (a : Attempt)
      → Memᴰ a log
      → is_attempt t.id t.attempts a ≡ true
      → (b : Attempt) × Memᴰ b log'
        × (b.outcome
            ≡ some (if ltb t.attempts t.max_attempts then Outcome.retry else Outcome.failed))
        × (b.ended_at ≡ some now)
        × (b.error_class ≡ class)
        × (b.external_ref ≡ ref)

outcome_after :
    (t : Task)
    → outcome_of (after_failure t)
      ≡ (if ltb t.attempts t.max_attempts then Outcome.retry else Outcome.failed)
outcome_after t = ground arith

fail_row-IsTried :
    (retry_at : ℕ) (class detail ref : String) (now : ℕ) (t : Task) (log : List Attempt)
    → IsTried retry_at class detail ref now t
        (fail_row retry_at detail now t)
        (update_where
          (is_attempt t.id t.attempts)
          (close_attempt (outcome_of (after_failure t)) class detail ref now)
          log)
        log
unfolding fail_row
fail_row-IsTried retry_at class detail ref now t log =
    let f = close_attempt (outcome_of (after_failure t)) class detail ref now in
    record {
      same = (refl, refl);
      spent = λ h. ground arith;
      again = λ h. ground arith;
      released = (refl, refl);
      logged = λ a m h. (
        f a,
        changed-Memᴰ (is_attempt t.id t.attempts) f log a m h,
        ap some (outcome_after t),
        refl,
        refl,
        refl,
      );
    }

-- `Fail` either finds no lease, answers with the error and changes nothing, or answers with the row
-- that it wrote over the task that is held: failed and finished now if the tries are used up, waiting
-- for the retry otherwise, with the lease given up and the end of the attempt written; the rows of
-- the other tasks are left.
pub fail-cases :
    (id : ℕ) (owner : String) (retry_at : ℕ) (class detail ref : String) (wall now : ℕ) (q : Queue)
    → (Unheld id owner now q
        × (fail id owner (some retry_at) class detail ref wall now q ≡ (q, err lease_lost)))
      ⊎ ((t : Task) × Taken id owner now
            (fail_row retry_at detail now)
            q
            (fail id owner (some retry_at) class detail ref wall now q).0
            t
          × IsTried retry_at class detail ref now t
              (fail_row retry_at detail now t)
              (fail id owner (some retry_at) class detail ref wall now q).0.log
              q.log
          × ((fail id owner (some retry_at) class detail ref wall now q).1
              ≡ ok (fail_row retry_at detail now t)))
unfolding fail
fail-cases id owner retry_at class detail ref wall now q =
    elim (Option-cases (first (holds id owner now) q.tasks)) [
      | inl e ↦ inl (first-none _ q.tasks e, rw (e, fail))
      | inr (t, e) ↦ inr (
        t,
        taken id owner now (fail_row retry_at detail now) q _ t e (rw (e, fail)),
        rw (e, fail) (fail_row-IsTried retry_at class detail ref now t q.log),
        rw (e, fail),
      )
    ]

pub fail_permanently-cases :
    (id : ℕ) (owner class detail ref : String) (now : ℕ) (q : Queue)
    → (Unheld id owner now q
        × (fail_permanently id owner class detail ref now q ≡ (q, err lease_lost)))
      ⊎ ((t : Task) × Taken id owner now
            (fail_permanently_row detail now)
            q
            (fail_permanently id owner class detail ref now q).0
            t
          × ((fail_permanently id owner class detail ref now q).1
              ≡ ok (fail_permanently_row detail now t)))
unfolding fail_permanently
fail_permanently-cases id owner class detail ref now q =
    elim (Option-cases (first (holds id owner now) q.tasks)) [
      | inl e ↦ inl (first-none _ q.tasks e, rw (e, fail_permanently))
      | inr (t, e) ↦ inr (
        t,
        taken id owner now (fail_permanently_row detail now) q _ t e (rw (e, fail_permanently)),
        rw (e, fail_permanently),
      )
    ]
