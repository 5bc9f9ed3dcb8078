-- ===== src/Worker/Tests.antt =====
-- The worker on small inputs, and the theorems at inputs that meet their hypotheses.
use ai_env_mgr.Base.{
  ℕ, ◌*◌, ◌-◌, ◌/◌, ◌≤◌, ◌<◌, ◌≡◌, refl, inl, false, none, some, [], ◌∷◌, arith, pos, second,
  minute, first, All,
}
use ai_env_mgr.Task.{Task, NewTask, holds, ok, runnable}
use ai_env_mgr.Task.Updates.{new_row, claim_row}
use ai_env_mgr.Queue.{Queue, claim, take, earliest}
use ai_env_mgr.Worker.{
  Config, new, broke, plain, wrap, Verdict, Event, is_permanent, classify, class_of, is_deadline,
  deadline,
}
use ai_env_mgr.Worker.Backoff.{grow, backoff, capped, grow-capped, backoff_bounds}
use ai_env_mgr.Worker.Once.{World, Handlers, handle, worked, run_once}
use ai_env_mgr.Worker.Outcomes.{Recorded, verdict_of}
use ai_env_mgr.Worker.Undisturbed.{run_once-Recorded}
use ai_env_mgr.Worker.Runs.{Sane, handle-Recorded, handle-lost}

classify_runs : classify (wrap "fetch: deadline" deadline) ≡ "timeout"
unfolding classify class_of is_permanent is_deadline
classify_runs = refl

-- 10 s, 20 s, 40 s, ... and no more than 10 minutes.
grow_runs :
    (grow 0 (10 * minute) (10 * second) ≡ 10 * second)
    × (grow 2 (10 * minute) (10 * second) ≡ 40 * second)
    × (grow 9 (10 * minute) (10 * second) ≡ 10 * minute)
unfolding grow
grow_runs = (refl, refl, refl)

abbrev low : ℕ → ℕ
low n = 0

low_drawn : (n : ℕ) → 0 < n → low n < n
low_drawn n h = h

grow-capped_example :
    grow (5 - 1) (10 * minute) (10 * second) ≡ capped (10 * second) (10 * minute) (5 - 1)
grow-capped_example =
    grow-capped (10 * second) (10 * minute) 5 (omega arith) (omega arith) (inl (omega arith))

backoff_bounds_example :
    (w : ℕ) × (backoff low (10 * second) (10 * minute) 5 ≡ some w)
    × (capped (10 * second) (10 * minute) (5 - 1) / 2 ≤ w)
    × (w ≤ capped (10 * second) (10 * minute) (5 - 1))
    × (w ≤ 10 * minute)
backoff_bounds_example =
    backoff_bounds low (10 * second) (10 * minute) 5 low_drawn (omega arith) (omega arith)
      (inl (omega arith))

abbrev config : Config
config = record {
  owner = "w1";
  kinds = [];
  lease = 2 * minute;
  poll = 5 * second;
  base_backoff = 10 * second;
  max_backoff = 10 * minute;
}

config-new :
    new "w1" (record {
      owner = "";
      kinds = [];
      lease = pos 0;
      poll = pos 0;
      base_backoff = pos 0;
      max_backoff = pos 0;
    })
    ≡ config
unfolding new
config-new = refl

abbrev world : World
world = record {
  claimed_at = 100;
  epoch_of = λ e. none;
  locked = λ id. false;
  meanwhile = [];
  clock = 200;
  reported_at = 200;
  draw = low;
  quote = λ s. s;
}

abbrev work : NewTask
work = record {
  kind = "oss_export";
  idempotency_key = "oss_export:1";
  payload = "";
  target_epoch = none;
  employee_id = none;
  device_id = none;
  max_attempts = pos 3;
  not_before = none;
}

abbrev claimed_row : Task
claimed_row = claim_row "w1" (2 * minute) 100 (new_row work 1 50 50)

abbrev busy : Queue
busy = record { tasks = claimed_row ∷ []; log = [] }

abbrev breaking : Handlers
breaking kind = some (λ t. broke (plain "bucket unreachable") "")

config-Sane : Sane config world
config-Sane = record { drawn = low_drawn; base_fits = omega arith; limit_fits = omega arith }

busy_held : first (holds claimed_row.id "w1" 200) busy.tasks ≡ some claimed_row
unfolding holds claim_row new_row
busy_held = refl

handle-Recorded_example :
    Recorded claimed_row.id
      (verdict_of (breaking claimed_row.kind) claimed_row claimed_row)
      (handle config breaking world claimed_row busy)
handle-Recorded_example =
    handle-Recorded config breaking world claimed_row busy claimed_row config-Sane busy_held

-- Somebody else's name on the lease.
abbrev taken_over : Queue
taken_over = record { tasks = record claimed_row { lease_owner = some "w2" } ∷ []; log = [] }

taken_over_unheld : All (λ t. holds claimed_row.id "w1" 200 t ≡ false) taken_over.tasks
unfolding holds claim_row new_row
taken_over_unheld = (refl, tt)

handle-lost_example :
    ((handle config breaking world claimed_row taken_over).0 ≡ taken_over)
    × ((event : Event) × ((handle config breaking world claimed_row taken_over).1 ≡ worked event)
        × (event.outcome ≡ Verdict.lost))
handle-lost_example =
    handle-lost config breaking world claimed_row taken_over config-Sane taken_over_unheld

abbrev idle : Queue
idle = record { tasks = new_row work 1 50 50 ∷ []; log = [] }

idle-claim :
    claim "w1" [] (pos (2 * minute)) 100 (λ e. none) (λ id. false) idle
    ≡ ((take "w1" (2 * minute) 100 (new_row work 1 50 50) idle).0, ok claimed_row)
unfolding claim earliest runnable new_row take claim_row
idle-claim = refl

run_once-Recorded_example :
    Recorded claimed_row.id
      (verdict_of (breaking claimed_row.kind) claimed_row claimed_row)
      (run_once config breaking world idle)
unfolding take claim_row new_row
run_once-Recorded_example =
    run_once-Recorded config breaking world idle
      (take "w1" (2 * minute) 100 (new_row work 1 50 50) idle).0 claimed_row config-Sane idle-claim
      (tt, tt) refl (omega arith) (omega arith)
