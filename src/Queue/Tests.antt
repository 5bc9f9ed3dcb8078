-- ===== src/Queue/Tests.antt =====
-- The queue on small inputs, and the theorems at inputs that meet their hypotheses.
mod Reporting
use mathlib.Core.List.{Memᴰ}
use ai_env_mgr.Base.{
  ◌∙◌, ℕ, ◌+◌, ◌≤◌, ◌↔◌, ◌≡◌, ◌≢◌, refl, Bool, false, Option, none, some, List, [], ◌∷◌, arith, pos,
  minute, eq_iff, All,
}
use ai_env_mgr.Task.{Task, NewTask, ok, err, not_found, runnable, holds, left}
use ai_env_mgr.Task.Updates.{new_row, claim_row, succeed_row, revive_row, fail_permanently_row}
use ai_env_mgr.Queue.{Queue, claim, insert_task, earliest, take, revive_failed}
use ai_env_mgr.Queue.Close.{fail_permanently}
use ai_env_mgr.Queue.Steps.{
  Op, apply, run, empty, inserts, claims, succeeds, fails_permanently, revives, releases,
}
use ai_env_mgr.Queue.Invariant.{
  IsWellFormed, apply-IsWellFormed, empty-IsWellFormed, run-IsWellFormed,
}
use ai_env_mgr.Queue.History.{run-final, attempts-le, requests}
use ai_env_mgr.Queue.Claiming.{Claimed, claim-ok, claim-not_found, claim-current, claim_twice, fits}

abbrev provision : NewTask
provision = record {
  kind = "gateway_provision";
  idempotency_key = "gateway_provision:7:2";
  payload = "";
  target_epoch = some 2;
  employee_id = some 7;
  device_id = none;
  max_attempts = pos 1;
  not_before = none;
}

abbrev export_task : NewTask
export_task = record provision { kind = "oss_export"; idempotency_key = "oss_export:7:2" }

abbrev two_queued : Queue
two_queued = record {
  tasks = new_row provision 1 100 100 ∷ new_row export_task 2 50 50 ∷ [];
  log = [];
}

abbrev epochs : ℕ → Option ℕ
epochs e = some 2

abbrev free : ℕ → Bool
free id = false

abbrev second_taken : Task
second_taken = claim_row "w1" minute 200 (new_row export_task 2 50 50)

two_queued_runs :
    run (inserts provision 1 100 100 ∷ inserts export_task 2 50 50 ∷ []) empty ≡ two_queued
unfolding run apply insert_task new_row
two_queued_runs = refl

first_claim_takes :
    claim "w1" [] (pos 0) 200 epochs free two_queued
    ≡ take "w1" minute 200 (new_row export_task 2 50 50) two_queued
unfolding claim earliest runnable new_row take
first_claim_takes = refl

take_answer :
    take "w1" minute 200 (new_row export_task 2 50 50) two_queued
    ≡ ((take "w1" minute 200 (new_row export_task 2 50 50) two_queued).0, ok second_taken)
unfolding take
take_answer = refl

apply-IsWellFormed_example : IsWellFormed (apply (inserts provision 1 100 100) empty)
apply-IsWellFormed_example =
    apply-IsWellFormed (inserts provision 1 100 100) empty empty-IsWellFormed

run-IsWellFormed_example :
    IsWellFormed (run (inserts provision 1 100 100 ∷ releases 300 ∷ []) empty)
run-IsWellFormed_example =
    run-IsWellFormed (inserts provision 1 100 100 ∷ releases 300 ∷ []) empty empty-IsWellFormed

abbrev done_row : Task
done_row = succeed_row 300 second_taken

abbrev settled : Queue
settled = record { tasks = done_row ∷ []; log = [] }

-- A second report, a sweep and a repeated request come too late.
abbrev late : List Op
late = succeeds 2 "w2" "" 400 ∷ releases 500 ∷ revives "oss_export:7:2" 600 ∷ []

run-final_example : Memᴰ done_row (run late settled).tasks
unfolding succeed_row
run-final_example =
    run-final late settled done_row (record { ids = (tt, tt); keys = (tt, tt) }) (Memᴰ.head refl)
      refl

-- One try, given up, asked for again, tried again: two attempts where `max_attempts` is one.
abbrev retried : List Op
retried =
    inserts provision 1 100 100
    ∷ claims "w1" [] (pos 0) 200 epochs free
    ∷ fails_permanently 1 "w1" "permanent" "bad payload" "" 210
    ∷ revives "gateway_provision:7:2" 220
    ∷ claims "w1" [] (pos 0) 230 epochs free
    ∷ []

abbrev tried_twice : Task
tried_twice = claim_row "w1" minute 230 (
    revive_row 220 (
      fail_permanently_row "bad payload" 210
        (claim_row "w1" minute 200 (new_row provision 1 100 100))))

retried_runs : (run retried empty).tasks ≡ tried_twice ∷ []
unfolding run apply insert_task claim earliest runnable new_row take claim_row fail_permanently
    holds fail_permanently_row revive_failed revive_row left
retried_runs = refl

attempts-le_example :
    tried_twice.attempts ≤ tried_twice.max_attempts + requests tried_twice.idempotency_key retried
attempts-le_example = attempts-le retried tried_twice (rw retried_runs (Memᴰ.head refl))

claim-ok_example :
    (t : Task) × Claimed "w1" []
      (pos 0)
      200
      epochs
      free
      two_queued
      (take "w1" minute 200 (new_row export_task 2 50 50) two_queued).0
      t
      second_taken
claim-ok_example =
    claim-ok "w1" [] (pos 0) 200 epochs free two_queued
      (take "w1" minute 200 (new_row export_task 2 50 50) two_queued).0 second_taken
      (first_claim_takes ∙ take_answer)

claim-not_found_example :
    (claim "w1" [] (pos 0) 20 epochs free two_queued ≡ (two_queued, err not_found))
    ↔ All (λ t. fits "w1" [] (pos 0) 20 epochs free two_queued t ≡ false) two_queued.tasks
claim-not_found_example =
    claim-not_found "w1" [] (pos 0) 20 epochs free two_queued (λ e. ground (arith, eq_iff "w1" ""))

claim-current_example : ◌≤◌ 2 2
unfolding claim_row new_row
claim-current_example =
    claim-current "w1" [] (pos 0) 200 epochs free two_queued
      (take "w1" minute 200 (new_row export_task 2 50 50) two_queued).0 second_taken 2 7 2
      (first_claim_takes ∙ take_answer) refl refl refl

abbrev after_first : Queue
after_first = (take "w1" minute 200 (new_row export_task 2 50 50) two_queued).0

abbrev first_taken : Task
first_taken = claim_row "w2" minute 201 (new_row provision 1 100 100)

second_claim_takes :
    claim "w2" [] (pos 0) 201 epochs free after_first
    ≡ ((take "w2" minute 201 (new_row provision 1 100 100) after_first).0, ok first_taken)
unfolding claim earliest runnable new_row take claim_row
second_claim_takes = refl

claim_twice_example : second_taken.id ≢ first_taken.id
unfolding take claim_row new_row
claim_twice_example =
    claim_twice "w1" "w2" [] [] (pos 0) (pos 0) 200 201 epochs epochs free free two_queued
      after_first (take "w2" minute 201 (new_row provision 1 100 100) after_first).0 second_taken
      first_taken (((λ e. omega arith), tt), (tt, tt)) (first_claim_takes ∙ take_answer)
      second_claim_takes
