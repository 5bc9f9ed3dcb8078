-- ===== src/Queue/Steps.antt =====
-- The statements of go/internal/dbstore/tasks.go as the steps of one queue that any number of
-- workers and administrators share. `Enqueue` is two writing statements here, so that a schedule may
-- put anything between them.
use ai_env_mgr.Base.{ℕ, String, Bool, Option, List, [], ◌∷◌, ℤ}
use ai_env_mgr.Task.{NewTask}
use ai_env_mgr.Queue.{Queue, insert_task, revive_failed, claim}
use ai_env_mgr.Queue.Close.{extend, succeed, fail, fail_permanently}
use ai_env_mgr.Queue.Sweep.{supersede, supersede_open, release_expired}

pub data Op : Type 0 where
  inserts : NewTask → ℕ → ℕ → ℕ → Op
  revives : String → ℕ → Op
  claims : String → List String → ℤ → ℕ → (ℕ → Option ℕ) → (ℕ → Bool) → Op
  extends : ℕ → String → ℤ → ℕ → Op
  succeeds : ℕ → String → String → ℕ → Op
  fails : ℕ → String → Option ℕ → String → String → String → ℕ → ℕ → Op
  fails_permanently : ℕ → String → String → String → String → ℕ → Op
  supersedes : ℕ → String → ℕ → Op
  supersedes_open : ℕ → ℕ → ℕ → Op
  releases : ℕ → Op

unfoldable pub apply : Op → Queue → Queue
apply (inserts n fresh wall now) q = (insert_task n fresh wall now q).0
apply (revives key now) q = (revive_failed key now q).0
apply (claims owner kinds lease now epoch_of locked) q =
    (claim owner kinds lease now epoch_of locked q).0
apply (extends id owner lease now) q = (extend id owner lease now q).0
apply (succeeds id owner ref now) q = (succeed id owner ref now q).0
apply (fails id owner retry_at class detail ref wall now) q =
    (fail id owner retry_at class detail ref wall now q).0
apply (fails_permanently id owner class detail ref now) q =
    (fail_permanently id owner class detail ref now q).0
apply (supersedes id reason now) q = (supersede id reason now q).0
apply (supersedes_open employee epoch now) q = (supersede_open employee epoch now q).0
apply (releases now) q = (release_expired now q).0

unfoldable pub run : List Op → Queue → Queue
run [] q = q
run (o ∷ os) q = run os (apply o q)

abbrev pub empty : Queue
empty = record { tasks = []; log = [] }
