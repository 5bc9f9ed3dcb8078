-- ===== src/Worker/Runs.antt =====
-- `RunOnce` of go/internal/worker/worker.go as a whole: from the handler's end, and from the claim.
use ai_env_mgr.Base.{
  ℕ, ◌+◌, ◌<◌, ◌≤◌, ◌^◌, ◌≡◌, refl, ap, inl, inr, none, some, String, pos, Bool-cases, Option-cases,
  first, if◌then◌else◌, leb,
}
use ai_env_mgr.Task.{Task, holds, err, lease_lost}
use ai_env_mgr.Queue.{Queue}
use ai_env_mgr.Queue.Reports.{Unheld, Unheld-refused}
use ai_env_mgr.Worker.{
  Fault, is_permanent, classify, message, Config, End, finished, broke, panicked, Verdict, Event,
}
use ai_env_mgr.Worker.Backoff.{backoff-some}
use ai_env_mgr.Worker.Once.{
  World, Handlers, finish_success, finish_permanently, finish_retry, Ran, worked, report, reported,
  told_success, told_permanent, told_retry, handle, recovered, unregistered, retry_after,
}
use ai_env_mgr.Worker.Outcomes.{
  verdict_of_end, verdict_of, Recorded, permanently-Recorded, success-Recorded, retry-Recorded,
}

-- A configuration and a world in which the wait before a retry is computed without overflow.
pub record Sane (c : Config) (w : World) : Type 0 where
  pub drawn : (n : ℕ) → 0 < n → w.draw n < n
  pub base_fits : c.base_backoff < 2 ^ 62
  pub limit_fits : c.max_backoff ≤ 2 ^ 62

module _ (c : Config) (w : World) (t : Task) (q : Queue) (u : Task) (sane : Sane c w)
    (held : first (holds t.id c.owner w.reported_at) q.tasks ≡ some u) where
  broke-Recorded :
      (e : Fault) (ref : String)
      → Recorded t.id
          (if is_permanent e
            then Verdict.failed
            else if leb u.max_attempts u.attempts
            then Verdict.failed
            else Verdict.retry)
          (report c w t (broke e ref) q)
  unfolding report retry_after
  broke-Recorded e ref = elim (Bool-cases (is_permanent e)) [
    | inl p ↦ rw p (permanently-Recorded c w t q u held (classify e) e ref)
    | inr p ↦
        let (wait, answer) =
          backoff-some w.draw c.base_backoff c.max_backoff t.attempts sane.base_fits
            sane.limit_fits in
        rw (p, answer) (retry-Recorded c w t q u held e ref wait)
  ]

  end-Recorded : (end : End) → Recorded t.id (verdict_of_end end u) (report c w t (recovered end) q)
  unfolding report recovered is_permanent
  end-Recorded (finished ref note) = success-Recorded c w t q u held ref note
  end-Recorded (broke e ref) = broke-Recorded e ref
  end-Recorded (panicked why) = permanently-Recorded c w t q u held _ _ ""

-- While the worker's lease is on the row, with backoff settings below 2^62 ns and draws in their
-- range, the report is recorded: success, failure for good (a
-- permanent error, a panic, or no handler), or a retry until the tries are used up. The event says
-- what the row says.
pub handle-Recorded :
    (c : Config) (handlers : Handlers) (w : World) (t : Task) (q : Queue) (u : Task)
    → Sane c w
    → first (holds t.id c.owner w.reported_at) q.tasks ≡ some u
    → Recorded t.id (verdict_of (handlers t.kind) t u) (handle c handlers w t q)
unfolding handle
handle-Recorded c handlers w t q u sane held = elim (Option-cases (handlers t.kind)) [
  | inl e ↦
      rw (e, handle) (permanently-Recorded c w t q u held "unregistered_kind" (unregistered w t) "")
  | inr (h, e) ↦ rw (e, handle) (end-Recorded c w t q u sane held (h t))
]

module _ (c : Config) (w : World) (t : Task) (q : Queue) (sane : Sane c w)
    (gone : Unheld t.id c.owner w.reported_at q) where
  -- The report was not taken: the queue is as it was, and the event says so.
  abbrev Lost : Queue × Ran → Type 0
  Lost out =
      (out.0 ≡ q) × ((event : Event) × (out.1 ≡ worked event) × (event.outcome ≡ Verdict.lost))

  Lost-subst : (out out' : Queue × Ran) → out ≡ out' → Lost out' → Lost out
  Lost-subst out out' e l = rw e l

  permanently-Lost :
      (class : String) (e : Fault) (ref : String)
      → Lost (reported (finish_permanently c w t class e ref q))
  unfolding finish_permanently told_permanent
  permanently-Lost class e ref =
      let no =
        Unheld-refused t.id c.owner class (message e) ref none (pos 0) 0 w.reported_at q gone in
      Lost-subst _ (reported (told_permanent t e ref (q, err lease_lost)))
        (ap (λ r. reported (told_permanent t e ref r)) no.3) (refl, (_, refl, refl))

  success-Lost : (ref note : String) → Lost (reported (finish_success c w t ref note q))
  unfolding finish_success told_success
  success-Lost ref note =
      let no = Unheld-refused t.id c.owner "" "" ref none (pos 0) 0 w.reported_at q gone in
      Lost-subst _ (reported (told_success t ref note (q, err lease_lost)))
        (ap (λ r. reported (told_success t ref note r)) no.1) (refl, (_, refl, refl))

  retry-Lost :
      (e : Fault) (ref : String) (wait : ℕ) → Lost (reported (finish_retry c w t e ref wait q))
  unfolding finish_retry told_retry
  retry-Lost e ref wait =
      let no =
        Unheld-refused t.id c.owner (classify e) (message e) ref (some (w.clock + wait)) (pos 0)
          w.clock w.reported_at q gone in
      Lost-subst _ (reported (told_retry t e ref (q, err lease_lost)))
        (ap (λ r. reported (told_retry t e ref r)) no.2) (refl, (_, refl, refl))

  broke-Lost : (e : Fault) (ref : String) → Lost (report c w t (broke e ref) q)
  unfolding report retry_after
  broke-Lost e ref = elim (Bool-cases (is_permanent e)) [
    | inl p ↦ rw p (permanently-Lost (classify e) e ref)
    | inr p ↦
        let (wait, answer) =
          backoff-some w.draw c.base_backoff c.max_backoff t.attempts sane.base_fits
            sane.limit_fits in
        rw (p, answer) (retry-Lost e ref wait)
  ]

  end-Lost : (end : End) → Lost (report c w t (recovered end) q)
  unfolding report recovered is_permanent
  end-Lost (finished ref note) = success-Lost ref note
  end-Lost (broke e ref) = broke-Lost e ref
  end-Lost (panicked why) = permanently-Lost _ _ ""

-- Once the worker's lease is gone from the row, under the same conditions on the backoff, whatever the
-- handler did, nothing is recorded: the
-- queue stays as the others left it, and the event tells that the task was lost.
pub handle-lost :
    (c : Config) (handlers : Handlers) (w : World) (t : Task) (q : Queue)
    → Sane c w
    → Unheld t.id c.owner w.reported_at q
    → ((handle c handlers w t q).0 ≡ q)
      × ((event : Event) × ((handle c handlers w t q).1 ≡ worked event)
          × (event.outcome ≡ Verdict.lost))
unfolding handle
handle-lost c handlers w t q sane gone = elim (Option-cases (handlers t.kind)) [
  | inl e ↦
      rw (e, handle) (permanently-Lost c w t q sane gone "unregistered_kind" (unregistered w t) "")
  | inr (h, e) ↦ rw (e, handle) (end-Lost c w t q sane gone (h t))
]
