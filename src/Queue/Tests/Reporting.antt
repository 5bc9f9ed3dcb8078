-- ===== src/Queue/Tests/Reporting.antt =====
-- The theorems on repeated requests, reports and sweeps at inputs that meet their hypotheses.
use ai_env_mgr.Base.{
  List, ◌+◌, ◌*◌, ◌≤◌, ◌≡◌, ◌⊎◌, refl, true, false, some, [], ◌∷◌, arith, pos, minute, eq_iff,
  affected,
}
use ai_env_mgr.Task.{
  Task, holds, left, is_failed, ok, err, lease_lost, runnable, overtaken, expired,
}
use ai_env_mgr.Task.Updates.{
  new_row, claim_row, succeed_row, fail_row, fail_permanently_row, supersede_row, expire_row,
}
use ai_env_mgr.Queue.{Queue, claim, insert_task, enqueue, earliest, take}
use ai_env_mgr.Queue.Close.{extend, succeed, fail, fail_permanently}
use ai_env_mgr.Queue.Sweep.{supersede_open, release_expired}
use ai_env_mgr.Queue.Steps.{Op, apply, run, empty, claims, extends, fails_permanently}
use ai_env_mgr.Queue.Repeating.{IsRevived, enqueue_again}
use ai_env_mgr.Queue.Reports.{Unheld, Taken}
use ai_env_mgr.Queue.Endings.{IsDone, IsTried, succeed-cases, fail-cases}
use ai_env_mgr.Queue.Displaced.{IsOther, NeverClaims, claim-refused}
use ai_env_mgr.Queue.Listing.{count_recent, listed_under}
use mathlib.Core.List.{Memᴰ}
use ai_env_mgr.Queue.Sweeping.{
  Swept, overtaken_reason, supersede_open-Swept, supersede_open-claim, release_expired-Swept,
}
use ai_env_mgr.Queue.Tests.{
  provision, export_task, two_queued, epochs, free, second_taken, after_first,
}

abbrev one_queued : Queue
one_queued = record { tasks = new_row provision 1 100 100 ∷ []; log = [] }

enqueue_runs :
    enqueue provision 1 100 100 empty ≡ (one_queued, ok (new_row provision 1 100 100, true))
unfolding enqueue insert_task new_row
enqueue_runs = refl

-- The task was claimed and failed for good, and somebody asks for it again.
abbrev failing : List Op
failing =
    claims "w1" [] (pos 0) 110 epochs free ∷ fails_permanently 1 "w1" "error" "boom" "" 120 ∷ []

abbrev failed_task : Task
failed_task =
    fail_permanently_row "boom" 120 (claim_row "w1" minute 110 (new_row provision 1 100 100))

failing_runs : (run failing one_queued).tasks ≡ failed_task ∷ []
unfolding run apply claim earliest runnable new_row take claim_row fail_permanently
    fail_permanently_row holds left
failing_runs = refl

enqueue_again_example :
    (u : Task) × Memᴰ u (run failing one_queued).tasks
    × (u.id ≡ (new_row provision 1 100 100).id)
    × (((is_failed u.status ≡ false)
          × (enqueue provision 2 150 150 (run failing one_queued)
              ≡ (run failing one_queued, ok (u, false))))
        ⊎ ((v : Task) × (is_failed u.status ≡ true)
            × ((enqueue provision 2 150 150 (run failing one_queued)).1 ≡ ok (v, true))
            × IsRevived 150 u v
                (run failing one_queued).tasks
                (enqueue provision 2 150 150 (run failing one_queued)).0.tasks))
enqueue_again_example =
    enqueue_again provision provision 1 100 100 2 150 150 empty one_queued
      (new_row provision 1 100 100) true failing (record { ids = tt; keys = tt })
      (record { ids = (tt, tt); keys = (tt, tt) })
      (λ e. ground (arith, eq_iff "gateway_provision" ""))
      (λ e. ground (arith, eq_iff "gateway_provision:7:2" "")) refl enqueue_runs

succeed-cases_example :
    (Unheld 2 "w1" 300 after_first
      × (succeed 2 "w1" "ref" 300 after_first ≡ (after_first, err lease_lost)))
    ⊎ ((t : Task) × Taken 2 "w1" 300
          (succeed_row 300)
          after_first
          (succeed 2 "w1" "ref" 300 after_first).0
          t
        × IsDone "ref" 300 t
            (succeed_row 300 t)
            (succeed 2 "w1" "ref" 300 after_first).0.log
            after_first.log
        × ((succeed 2 "w1" "ref" 300 after_first).1 ≡ ok tt))
succeed-cases_example = succeed-cases 2 "w1" "ref" 300 after_first

fail-cases_example :
    (Unheld 2 "w1" 300 after_first
      × (fail 2 "w1" (some 400) "error" "boom" "" 300 300 after_first
          ≡ (after_first, err lease_lost)))
    ⊎ ((t : Task) × Taken 2 "w1" 300
          (fail_row 400 "boom" 300)
          after_first
          (fail 2 "w1" (some 400) "error" "boom" "" 300 300 after_first).0
          t
        × IsTried 400 "error" "boom" "" 300 t
            (fail_row 400 "boom" 300 t)
            (fail 2 "w1" (some 400) "error" "boom" "" 300 300 after_first).0.log
            after_first.log
        × ((fail 2 "w1" (some 400) "error" "boom" "" 300 300 after_first).1
            ≡ ok (fail_row 400 "boom" 300 t)))
fail-cases_example = fail-cases 2 "w1" 400 "error" "boom" "" 300 300 after_first

abbrev long_task : Task
long_task = record (new_row export_task 2 50 50) { max_attempts = 5 }

abbrev long_taken : Task
long_taken = claim_row "w1" minute 200 long_task

abbrev long_queue : Queue
long_queue = (take "w1" minute 200 long_task (record { tasks = long_task ∷ []; log = [] })).0

-- The lease of `w1` runs out and is swept, and `w2` claims; then `w1` reports.
abbrev second_again : Task
second_again = claim_row "w2" minute (100 * minute) (expire_row (90 * minute) long_taken)

abbrev swept_queue : Queue
swept_queue = (release_expired (90 * minute) long_queue).0

other_claims : claim "w2" [] (pos 0) (100 * minute) epochs free swept_queue ≡ (
  (take "w2" minute (100 * minute) (expire_row (90 * minute) long_taken) swept_queue).0,
  ok second_again,
)
unfolding claim earliest runnable new_row take claim_row release_expired expired expire_row
other_claims = refl

abbrev after_other : Queue
after_other = (take "w2" minute (100 * minute) (expire_row (90 * minute) long_taken) swept_queue).0

abbrev later_on : List Op
later_on =
    extends 2 "w2" (pos minute) (100 * minute + 10)
    ∷ claims "w3" [] (pos 0) (100 * minute + 20) epochs free
    ∷ []

claim-refused_example :
    (extend second_again.id "w1" (pos minute) (101 * minute) (run later_on after_other)
      ≡ (run later_on after_other, err lease_lost))
    × (succeed second_again.id "w1" "ref" (101 * minute) (run later_on after_other)
        ≡ (run later_on after_other, err lease_lost))
    × (fail second_again.id "w1"
          (some 400)
          "error"
          "boom"
          "ref"
          300
          (101 * minute)
          (run later_on after_other)
        ≡ (run later_on after_other, err lease_lost))
    × (fail_permanently second_again.id "w1" "error" "boom" "ref"
          (101 * minute)
          (run later_on after_other)
        ≡ (run later_on after_other, err lease_lost))
unfolding take claim_row new_row release_expired expired expire_row NeverClaims IsOther
claim-refused_example =
    claim-refused "w1" "w2" [] (pos 0) (100 * minute) epochs free swept_queue after_other
      second_again later_on "error" "boom" "ref" (some 400) (pos minute) 300 (101 * minute) (tt, tt)
      (λ e. ground (arith, eq_iff "w1" "w2")) other_claims
      (tt, ((λ e. ground (arith, eq_iff "w1" "w3")), tt))

supersede_open-Swept_example :
    Swept
      (overtaken 7 3)
      (supersede_row overtaken_reason 300)
      two_queued
      (supersede_open 7 3 300 two_queued).0
    × ((supersede_open 7 3 300 two_queued).1 ≡ affected (overtaken 7 3) two_queued.tasks)
supersede_open-Swept_example = supersede_open-Swept 7 3 300 two_queued

-- A sweep to the epoch that the tasks aim at leaves them, and they are claimed.
abbrev swept : Queue
swept = (supersede_open 7 2 190 two_queued).0

swept-claim :
    claim "w1" [] (pos 0) 200 epochs free swept
    ≡ ((take "w1" minute 200 (new_row export_task 2 50 50) swept).0, ok second_taken)
unfolding claim earliest runnable new_row take supersede_open overtaken
swept-claim = refl

supersede_open-claim_example : ◌≤◌ 2 2
unfolding claim_row new_row
supersede_open-claim_example =
    supersede_open-claim 7 2 190 two_queued "w1" [] (pos 0) 200 epochs free
      (take "w1" minute 200 (new_row export_task 2 50 50) swept).0 second_taken 2 swept-claim refl
      refl

release_expired-Swept_example :
    Swept
      (expired (300 * minute))
      (expire_row (300 * minute))
      after_first
      (release_expired (300 * minute) after_first).0
    × ((release_expired (300 * minute) after_first).1
        ≡ affected (expired (300 * minute)) after_first.tasks)
release_expired-Swept_example = release_expired-Swept (300 * minute) after_first

both_counted : count_recent "open" "" two_queued ≡ 2
unfolding count_recent listed_under new_row
both_counted = refl
