-- ===== src/Account/Epochs.antt =====
-- The epochs of employees: what go/internal/ops/ops.go and go/internal/dbstore/employees.go do to
-- `auth_epoch`.
use ai_env_mgr.Base.{
  ◌≤◌, ◌≡◌, refl, ◌∙◌, inl, inr, Bool, List, [], ◌∷◌, ◌++◌, arith, Bool-cases, change, change-Memᴰ,
}
use mathlib.Core.List.{Memᴰ}
use ai_env_mgr.Account.{Employee}
use ai_env_mgr.Account.Steps.{Op, run}
use ai_env_mgr.Account.Keeps.{IsRise, Preserved}
use ai_env_mgr.Account.Keeps.Operations.{run-keeps}
use ai_env_mgr.Release.{Store, Call}

-- The row of an employee later on.
pub record IsLater (e later : Employee) : Type 0 where
  pub same_id : later.id ≡ e.id
  pub same_user : later.windows_user ≡ e.windows_user
  pub rises : e.auth_epoch ≤ later.auth_epoch

abbrev HasLater : Employee → List Employee → Type 0
HasLater e rows = (later : Employee) × (Memᴰ later rows × IsLater e later)

append-HasLater :
    (e : Employee) (rows : List Employee) (x : Employee)
    → HasLater e rows
    → HasLater e (rows ++ x ∷ [])
append-HasLater e [] x (d, (m, l)) = elim m [ ]
append-HasLater e (y ∷ rows) x (d, (Memᴰ.head h, l)) = (d, (Memᴰ.head h, l))
append-HasLater e (y ∷ rows) x (d, (Memᴰ.tail m, l)) =
    let (g, (n, k)) = append-HasLater e rows x (d, (m, l)) in (g, (Memᴰ.tail n, k))

changed-IsLater :
    (p : Employee → Bool) (f : Employee → Employee) (e later : Employee)
    → IsRise f
    → IsLater e later
    → IsLater e (change p f later)
changed-IsLater p f e later rise l = elim (Bool-cases (p later)) [
  | inr d ↦ rw d l
  | inl d ↦ rw d (record {
    same_id = rise.same_id later ∙ l.same_id;
    same_user = rise.same_user later ∙ l.same_user;
    rises = omega (arith, rise.rises later, l.rises);
  })
]

later-Preserved : (e : Employee) → Preserved (λ s. HasLater e s.employees)
later-Preserved e = record {
  queues = λ q n s h. h;
  logs = λ rows s h. h;
  grants = λ rows s h. h;
  credentials = λ rows s h. h;
  quotas = λ rows s h. h;
  models = λ rows s h. h;
  devices = λ rows n s h. h;
  hires = λ x n s h. append-HasLater e s.employees x h;
  changes = λ p f s rise h. (
    change p f h.0,
    (change-Memᴰ p f s.employees h.0 h.1.0, changed-IsLater p f e h.0 rise h.1.1),
  );
  binds = λ b n s o k h. h;
  settles = λ p f s settle h. h;
}

-- An employee who is on record stays on record, whatever is done to accounts and machines, under the
-- same id and user name, and the epoch never goes down.
pub run-IsLater :
    (ops : List (Call × Op)) (s : Store) (e : Employee)
    → Memᴰ e s.employees
    → (later : Employee) × (Memᴰ later (run ops s).employees × IsLater e later)
run-IsLater ops s e m =
    run-keeps (λ t. HasLater e t.employees) (later-Preserved e) ops s
      (e, (m, record { same_id = refl; same_user = refl; rises = omega arith }))
