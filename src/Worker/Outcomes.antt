-- ===== src/Worker/Outcomes.antt =====
-- What `RunOnce` of go/internal/worker/worker.go records and reports, on every branch.
use mathlib.Core.List.{Memᴰ}
use ai_env_mgr.Base.{
  ℕ, ◌+◌, ◌≡◌, refl, ap, ◌∙◌, Option, none, some, arith, String, first, first-some, if◌then◌else◌,
  leb, update_where,
}
use ai_env_mgr.Task.{Task, Status, succeeded, failed, retry_wait, ok, holds, after_failure}
use ai_env_mgr.Task.Updates.{succeed_row, fail_row, fail_permanently_row}
use ai_env_mgr.Queue.{Queue}
use ai_env_mgr.Queue.Close.{succeed, fail, fail_permanently}
use ai_env_mgr.Queue.Reports.{taken, holds-id}
use ai_env_mgr.Worker.{
  Fault, is_permanent, classify, message, Config, End, finished, broke, panicked, Verdict, Event,
}
use ai_env_mgr.Worker.Once.{
  World, finish_success, finish_permanently, finish_retry, Ran, worked, reported, told_success,
  told_permanent, told_retry,
}

-- The verdict on a task whose row is `u` when its handler ended so.
abbrev pub verdict_of_end : End → Task → Verdict
verdict_of_end (finished ref note) u = Verdict.succeeded
verdict_of_end (panicked why) u = Verdict.failed
verdict_of_end (broke e ref) u =
    if is_permanent e
    then Verdict.failed
    else if leb u.max_attempts u.attempts
    then Verdict.failed
    else Verdict.retry

-- A kind that has no handler is failed for good.
abbrev pub verdict_of : Option (Task → End) → Task → Task → Verdict
verdict_of none t u = Verdict.failed
verdict_of (some h) t u = verdict_of_end (h t) u

abbrev pub status_of : Verdict → Status
status_of Verdict.succeeded = succeeded
status_of Verdict.failed = failed
status_of Verdict.retry = retry_wait
status_of Verdict.lost = failed

-- The report is on record: the event tells the verdict, and the row with this id carries it.
pub record Recorded (id : ℕ) (v : Verdict) (out : Queue × Ran) : Type 0 where
  pub event : Event
  pub told : out.1 ≡ worked event
  pub verdict : event.outcome ≡ v
  pub row : Task
  pub listed : Memᴰ row out.0.tasks
  pub same : row.id ≡ id
  pub carries : row.status ≡ status_of v

pub Recorded-subst :
    (id : ℕ) (v : Verdict) (out out' : Queue × Ran)
    → out ≡ out'
    → Recorded id v out'
    → Recorded id v out
Recorded-subst id v out out' e r = rw e r

-- The answer of a report by the holder.
succeed-held :
    (id : ℕ) (owner ref : String) (now : ℕ) (q : Queue) (u : Task)
    → first (holds id owner now) q.tasks ≡ some u
    → (q' : Queue) × (succeed id owner ref now q ≡ (q', ok tt))
      × (q'.tasks ≡ update_where (holds id owner now) (succeed_row now) q.tasks)
unfolding succeed
succeed-held id owner ref now q u e =
    ((succeed id owner ref now q).0, rw (e, succeed), rw (e, succeed))

fail-held :
    (id : ℕ) (owner : String) (at : ℕ) (class detail ref : String) (wall now : ℕ) (q : Queue)
    (u : Task)
    → first (holds id owner now) q.tasks ≡ some u
    → (q' : Queue) × (fail id owner (some at) class detail ref wall now q
        ≡ (q', ok (fail_row at detail now u)))
      × (q'.tasks ≡ update_where (holds id owner now) (fail_row at detail now) q.tasks)
unfolding fail
fail-held id owner at class detail ref wall now q u e =
    ((fail id owner (some at) class detail ref wall now q).0, rw (e, fail), rw (e, fail))

fail_permanently-held :
    (id : ℕ) (owner class detail ref : String) (now : ℕ) (q : Queue) (u : Task)
    → first (holds id owner now) q.tasks ≡ some u
    → (q' : Queue) × (fail_permanently id owner class detail ref now q
        ≡ (q', ok (fail_permanently_row detail now u)))
      × (q'.tasks ≡ update_where (holds id owner now) (fail_permanently_row detail now) q.tasks)
unfolding fail_permanently
fail_permanently-held id owner class detail ref now q u e = (
  (fail_permanently id owner class detail ref now q).0,
  rw (e, fail_permanently),
  rw (e, fail_permanently),
)

row_statuses :
    (now at : ℕ) (detail : String) (u : Task)
    → ((succeed_row now u).status ≡ succeeded)
      × ((succeed_row now u).id ≡ u.id)
      × ((fail_permanently_row detail now u).status ≡ failed)
      × ((fail_permanently_row detail now u).id ≡ u.id)
      × ((fail_row at detail now u).status ≡ after_failure u)
      × ((fail_row at detail now u).id ≡ u.id)
unfolding succeed_row fail_permanently_row fail_row
row_statuses now at detail u = (refl, refl, refl, refl, refl, refl)

module _ (c : Config) (w : World) (t : Task) (q : Queue) (u : Task)
    (held : first (holds t.id c.owner w.reported_at) q.tasks ≡ some u) where
  held-id : u.id ≡ t.id
  held-id = holds-id t.id c.owner w.reported_at u (first-some _ q.tasks u held).0

  pub permanently-Recorded :
      (class : String) (e : Fault) (ref : String)
      → Recorded t.id Verdict.failed (reported (finish_permanently c w t class e ref q))
  unfolding finish_permanently told_permanent
  permanently-Recorded class e ref =
      let (q', answer, rows) =
        fail_permanently-held t.id c.owner class (message e) ref w.reported_at q u held in
      let row : Task = fail_permanently_row (message e) w.reported_at u in
      let kept = row_statuses w.reported_at 0 (message e) u in
      Recorded-subst t.id Verdict.failed _ (reported (told_permanent t e ref (q', ok row)))
        (ap (λ r. reported (told_permanent t e ref r)) answer)
        (record {
          event = (told_permanent t e ref (q', ok row)).1;
          told = refl;
          verdict = refl;
          row = row;
          listed =
              (taken t.id c.owner w.reported_at (fail_permanently_row (message e) w.reported_at) q
                q' u held rows).done;
          same = kept.3 ∙ held-id;
          carries = kept.2;
        })

  pub success-Recorded :
      (ref note : String)
      → Recorded t.id Verdict.succeeded (reported (finish_success c w t ref note q))
  unfolding finish_success told_success
  success-Recorded ref note =
      let (q', answer, rows) = succeed-held t.id c.owner ref w.reported_at q u held in
      let kept = row_statuses w.reported_at 0 "" u in
      Recorded-subst t.id Verdict.succeeded _ (reported (told_success t ref note (q', ok tt)))
        (ap (λ r. reported (told_success t ref note r)) answer)
        (record {
          event = (told_success t ref note (q', ok tt)).1;
          told = refl;
          verdict = refl;
          row = succeed_row w.reported_at u;
          listed =
              (taken t.id c.owner w.reported_at (succeed_row w.reported_at) q q' u held rows).done;
          same = kept.1 ∙ held-id;
          carries = kept.0;
        })

  pub retry-Recorded :
      (e : Fault) (ref : String) (wait : ℕ)
      → Recorded t.id
          (if leb u.max_attempts u.attempts then Verdict.failed else Verdict.retry)
          (reported (finish_retry c w t e ref wait q))
  unfolding finish_retry told_retry
  retry-Recorded e ref wait =
      let at : ℕ = w.clock + wait in
      let (q', answer, rows) =
        fail-held t.id c.owner at (classify e) (message e) ref w.clock w.reported_at q u held in
      let row : Task = fail_row at (message e) w.reported_at u in
      let kept = row_statuses w.reported_at at (message e) u in
      let status : row.status ≡ after_failure u = kept.4 in
      Recorded-subst t.id _ _ (reported (told_retry t e ref (q', ok row)))
        (ap (λ r. reported (told_retry t e ref r)) answer)
        (record {
          event = (told_retry t e ref (q', ok row)).1;
          told = refl;
          verdict = ground arith;
          row = row;
          listed =
              (taken t.id c.owner w.reported_at (fail_row at (message e) w.reported_at) q q' u held
                rows).done;
          same = kept.5 ∙ held-id;
          carries = ground arith;
        })
