-- ===== src/Worker/Once.antt =====
-- `RunOnce` of go/internal/worker/worker.go with the ways in which it finishes. A run is a claim, the
-- handler, and the report; between the claim and the report the queue goes through whatever
-- statements everybody else makes, the worker's own heartbeat among them.
use Prim.Native.String.{◌++◌}
use ai_env_mgr.Base.{ℕ, String, ◌+◌, Bool, Option, none, some, List, if◌then◌else◌, pos}
use ai_env_mgr.Task.{Task, Error, not_found, Result, ok, err, is_failed}
use ai_env_mgr.Queue.{Queue, claim}
use ai_env_mgr.Queue.Close.{succeed, fail, fail_permanently}
use ai_env_mgr.Queue.Steps.{Op, run}
use ai_env_mgr.Worker.{
  Fault, plain, permanent, message, is_permanent, classify, Config, End, finished, broke, panicked,
  Verdict, Event,
}
use ai_env_mgr.Worker.Backoff.{backoff}

-- What one run meets: the database's time, epochs and locks at the claim, the statements that come
-- between, the worker's clock and the database's time at the report, the random draw, and how `%q`
-- writes a kind.
pub record World : Type 0 where
  pub claimed_at : ℕ
  pub epoch_of : ℕ → Option ℕ
  pub locked : ℕ → Bool
  pub meanwhile : List Op
  pub clock : ℕ
  pub reported_at : ℕ
  pub draw : ℕ → ℕ
  pub quote : String → String

-- The handlers by kind; a handler is what it makes of a task.
abbrev pub Handlers : Type 0
Handlers = String → Option (Task → End)

-- `run`: a panic becomes a permanent error, with no result.
unfoldable pub recovered : End → End
recovered (panicked why) = broke (permanent (plain ("handler panicked: " ++ why))) ""
recovered (finished ref note) = finished ref note
recovered (broke e ref) = broke e ref

abbrev pub lost_event : Task → Fault → String → Event
lost_event t e ref = record {
  task = t;
  outcome = Verdict.lost;
  fault = some e;
  note = "";
  external_ref = ref;
}

abbrev pub lease_fault : Fault
lease_fault = plain "task lease is no longer held"

-- The events for the answers of the store.
unfoldable pub told_success : Task → String → String → Queue × Result (Unit {0}) → Queue × Event
told_success t ref note (q, err e) = (q, lost_event t lease_fault ref)
told_success t ref note (q, ok done) = (
  q,
  record { task = t; outcome = Verdict.succeeded; fault = none; note = note; external_ref = ref },
)

unfoldable pub told_permanent : Task → Fault → String → Queue × Result Task → Queue × Event
told_permanent t e ref (q, err x) = (q, lost_event t lease_fault "")
told_permanent t e ref (q, ok updated) = (
  q,
  record {
    task = updated;
    outcome = Verdict.failed;
    fault = some e;
    note = "";
    external_ref = ref;
  },
)

abbrev pub retry_verdict : Task → Verdict
retry_verdict t = if is_failed t.status then Verdict.failed else Verdict.retry

unfoldable pub told_retry : Task → Fault → String → Queue × Result Task → Queue × Event
told_retry t e ref (q, err x) = (q, lost_event t lease_fault "")
told_retry t e ref (q, ok updated) = (
  q,
  record {
    task = updated;
    outcome = retry_verdict updated;
    fault = some e;
    note = "";
    external_ref = ref;
  },
)

unfoldable pub finish_success : Config → World → Task → String → String → Queue → Queue × Event
finish_success c w t ref note q = told_success t ref note (succeed t.id c.owner ref w.reported_at q)

unfoldable pub finish_permanently :
    Config → World → Task → String → Fault → String → Queue → Queue × Event
finish_permanently c w t class e ref q =
    told_permanent t e ref (fail_permanently t.id c.owner class (message e) ref w.reported_at q)

-- `wait` is what `backoff` gave.
unfoldable pub finish_retry : Config → World → Task → Fault → String → ℕ → Queue → Queue × Event
finish_retry c w t e ref wait q =
    told_retry t e ref (
      fail t.id c.owner (some (w.clock + wait)) (classify e) (message e) ref w.clock w.reported_at
        q)

-- `crashed` is a panic outside the handler: `backoff` on a range that is not positive.
pub data Ran : Type 0 where
  idle : Ran
  fault : Error → Ran
  worked : Event → Ran
  crashed : Ran

abbrev pub reported : Queue × Event → Queue × Ran
reported (q, e) = (q, worked e)

unfoldable pub retry_after : Config → World → Task → Fault → String → Option ℕ → Queue → Queue × Ran
retry_after c w t e ref none q = (q, crashed)
retry_after c w t e ref (some wait) q = reported (finish_retry c w t e ref wait q)

-- The report on what the handler made of the task.
unfoldable pub report : Config → World → Task → End → Queue → Queue × Ran
report c w t (finished ref note) q = reported (finish_success c w t ref note q)
report c w t (broke e ref) q =
    if is_permanent e
    then reported (finish_permanently c w t (classify e) e ref q)
    else retry_after c w t e ref (backoff w.draw c.base_backoff c.max_backoff t.attempts) q
report c w t (panicked why) q = (q, crashed)

abbrev pub unregistered : World → Task → Fault
unregistered w t = plain ("no handler is registered for " ++ w.quote t.kind)

-- A claimed task, and the queue as it is when the worker reports.
unfoldable pub handle : Config → Handlers → World → Task → Queue → Queue × Ran
handle c handlers w t q = elim (handlers t.kind) [
  | none ↦ reported (finish_permanently c w t "unregistered_kind" (unregistered w t) "" q)
  | some h ↦ report c w t (recovered (h t)) q
]

unfoldable pub after_claim : Config → Handlers → World → Queue × Result Task → Queue × Ran
after_claim c handlers w (q, ok t) = handle c handlers w t (run w.meanwhile q)
after_claim c handlers w (q, err not_found) = (q, idle)
after_claim c handlers w (q, err e) = (q, fault e)

unfoldable pub run_once : Config → Handlers → World → Queue → Queue × Ran
run_once c handlers w q =
    after_claim c handlers w
      (claim c.owner c.kinds (pos c.lease) w.claimed_at w.epoch_of w.locked q)
