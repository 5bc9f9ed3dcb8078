-- ===== src/Account/Keeps.antt =====
-- What every statement that the operations of go/internal/ops/ops.go are made of keeps, the operations
-- keep.
pub mod Rows
pub mod Statements
pub mod Operations
use ai_env_mgr.Base.{
  ℕ, ◌+◌, ◌≤◌, String, ◌≡◌, refl, inl, inr, Bool, true, false, not, ◌&&◌, ◌||◌, Option, none, some,
  List, [], ◌∷◌, ◌++◌, arith, Bool-cases, Option-cases, if◌then◌else◌, str_eq, ◌==◌, first, is_some,
  update_where, affected,
}
use ai_env_mgr.Version.{trim_left, trim_right}
use ai_env_mgr.Task.{Task, Result, ok, err, NewTask}
use ai_env_mgr.Queue.{Queue, enqueue}
use ai_env_mgr.Account.{
  Employee, NewEmployee, Profile, is_active, is_deleted, Quota, QuotaRow, Binding, is_bound, Grant,
  Credential, purpose_codex_gateway,
}
use ai_env_mgr.Account.Employees.{
  has_id, at_version, employee_by_id, employee_named, is_taken, create_employee, new_employee,
  updated, update_employee, explain_miss, breaks_external, profile_row, update_profile_row,
  offboarded_row, current_if, offboard_row, reopened_row, reopen_row, deleted_row, delete_miss,
  delete_row, bumped_row, bump_row, models_if, with_models, set_model_rows,
}
use ai_env_mgr.Account.Limits.{
  quota_of, set_quota_row, set_valid_quota, insert_quota, update_quota, quota_at, is_valid_quota,
  with_quota_defaults,
}
use ai_env_mgr.Account.Access.{
  bound_to, open_binding, last_epoch, new_binding, bind_row, update_bound, unbound_row, unbind_row,
  restart_row, request_restart, active_grant, revoke_row, update_grant, has_grant_id, retire,
}
use ai_env_mgr.Release.{
  Device, AuditRow, Store, Refusal, Ran, done, refused, Tx, go_on, found, refuse_if, committed,
  in_tx, Call, gets,
}
use ai_env_mgr.Release.Service.{enqueued, enqueue_export, audit_target}

-- What is true of the answer and the store, where the transaction is not refused.
abbrev pub Holds : {A : Type 0} → (A → Store → Type 0) → Ran A → Type 0
Holds Q (done a s) = Q a s
Holds Q (refused e) = Unit

pub go_on-Holds :
    {A B : Type 0} (P : A → Store → Type 0) (Q : B → Store → Type 0) (r : Ran A) (k : A → Tx B)
    → Holds P r
    → ((a : A) (s : Store) → P a s → Holds Q (k a s))
    → Holds Q (go_on r k)
unfolding go_on
go_on-Holds P Q (done a s) k h next = next a s h
go_on-Holds P Q (refused e) k h next = tt

pub found-Holds :
    {A : Type 0} (I : Store → Type 0) (o : Option A) (s : Store)
    → I s
    → Holds (λ a t. I t) (found o s)
found-Holds I none s h = tt
found-Holds I (some a) s h = h

refuse_if-Holds :
    (I : Store → Type 0) (b : Bool) (e : Refusal) (s : Store)
    → I s
    → Holds (λ u t. I t) (refuse_if b e s)
refuse_if-Holds I true e s h = tt
refuse_if-Holds I false e s h = h

pub committed-Holds :
    {A : Type 0} (I : Store → Type 0) (s : Store) (r : Ran A)
    → I s
    → Holds (λ a t. I t) r
    → I (committed s r)
committed-Holds I s (done a t) h k = k
committed-Holds I s (refused e) h k = h

-- An update of employees that keeps who they are and never lowers an epoch.
pub record IsRise (f : Employee → Employee) : Type 0 where
  pub same_id : (e : Employee) → (f e).id ≡ e.id
  pub same_user : (e : Employee) → (f e).windows_user ≡ e.windows_user
  pub rises : (e : Employee) → e.auth_epoch ≤ (f e).auth_epoch

-- An update of bindings that opens none.
pub record IsSettling (f : Binding → Binding) : Type 0 where
  pub same_device : (b : Binding) → (f b).device_id ≡ b.device_id
  pub same_epoch : (b : Binding) → (f b).epoch ≡ b.epoch
  pub stays_unbound : (b : Binding) → is_bound b ≡ false → is_bound (f b) ≡ false

-- What the statements keep.
pub record Preserved (I : Store → Type 0) : Type 0 where
  pub queues : (q : Queue) (n : ℕ) (s : Store) → I s → I (record s { queue = q; next_id = n })
  pub logs : (rows : List AuditRow) (s : Store) → I s → I (record s { audit = rows })
  pub grants : (rows : List Grant) (s : Store) → I s → I (record s { grants = rows })
  pub credentials : (rows : List Credential) (s : Store) → I s → I (record s { credentials = rows })
  pub quotas : (rows : List QuotaRow) (s : Store) → I s → I (record s { quotas = rows })
  pub models : (rows : List (ℕ × String)) (s : Store) → I s → I (record s { models = rows })
  pub devices :
      (rows : List Device) (n : ℕ) (s : Store) → I s → I (record s { devices = rows; next_id = n })
  pub hires :
      (e : Employee) (n : ℕ) (s : Store)
      → I s
      → I (record s { employees = s.employees ++ e ∷ []; next_id = n })
  pub changes :
      (p : Employee → Bool) (f : Employee → Employee) (s : Store)
      → IsRise f
      → I s
      → I (record s { employees = update_where p f s.employees })
  pub binds :
      (b : Binding) (n : ℕ) (s : Store)
      → open_binding b.device_id s ≡ none
      → b.epoch ≡ last_epoch b.device_id s.bindings + 1
      → I s
      → I (record s { bindings = s.bindings ++ b ∷ []; next_id = n })
  pub settles :
      (p : Binding → Bool) (f : Binding → Binding) (s : Store)
      → IsSettling f
      → I s
      → I (record s { bindings = update_where p f s.bindings })

-- A transaction that keeps `I`.
pub record Keeps {A : Type 0} (I : Store → Type 0) (m : Tx A) : Type 0 where
  pub at : (s : Store) → I s → Holds (λ a t. I t) (m s)

pub refuse_if-Keeps : (I : Store → Type 0) (b : Bool) (e : Refusal) → Keeps I (refuse_if b e)
refuse_if-Keeps I b e = record { at = λ s h. refuse_if-Holds I b e s h }

pub gets-Keeps : {A : Type 0} (I : Store → Type 0) (f : Store → A) → Keeps I (gets f)
gets-Keeps I f = record { at = λ s h. h }

module _ (I : Store → Type 0) (p : Preserved I) where
  pub then-Keeps :
      {A B : Type 0} (m : Tx A) (k : A → Tx B)
      → Keeps I m
      → ((a : A) → Keeps I (k a))
      → Keeps I (λ s. go_on (m s) k)
  then-Keeps m k first next = record {
    at = λ s h.
        go_on-Holds (λ a t. I t) (λ b t. I t) (m s) k (first.at s h) (λ a t i. (next a).at t i);
  }

  pub in_tx-keeps : (A : Type 0) (m : Tx A) (s : Store) → Keeps I m → I s → I (in_tx m s).0
  unfolding in_tx
  in_tx-keeps A m s k h = committed-Holds I s (m s) h (k.at s h)

  pub enqueued-Holds :
      (r : Queue × Result (Task × Bool)) (s : Store) → I s → Holds (λ u t. I t) (enqueued r s)
  enqueued-Holds (q, ok t) s h = p.queues q (s.next_id + 1) s h
  enqueued-Holds (q, err e) s h = tt

  pub updated-Keeps :
      (q : Employee → Bool) (f : Employee → Employee) (miss : Tx Employee) (o : Option Employee)
      → IsRise f
      → Keeps I miss
      → Keeps I (updated q f miss o)
  updated-Keeps q f miss none rise k = record { at = λ s h. k.at s h }
  updated-Keeps q f miss (some e) rise k = record { at = λ s h. p.changes q f s rise h }

  pub current_if-Keeps :
      (q : Employee → Bool) (id version : ℕ) (o : Option Employee)
      → Keeps I (current_if q id version o)
  current_if-Keeps q id version none = record { at = λ s h. tt }
  current_if-Keeps q id version (some e) = record {
    at = λ s h. elim (Bool-cases (q e)) [ inl d ↦ rw d h | inr d ↦ rw d tt ];
  }

  pub delete_miss-Keeps :
      (id version : ℕ) (o : Option Employee) → Keeps I (delete_miss id version o)
  delete_miss-Keeps id version none = record { at = λ s h. tt }
  delete_miss-Keeps id version (some e) = record {
    at = λ s h. elim (Bool-cases (is_deleted e)) [
      | inl d ↦ rw d h
      | inr d ↦ rw d (elim (Bool-cases (is_active e)) [ inl g ↦ rw g tt | inr g ↦ rw g tt ])
    ];
  }

  pub create_employee-Keeps :
      (n : NewEmployee) (user : String) (now : ℕ) → Keeps I (create_employee n user now)
  unfolding create_employee
  create_employee-Keeps n user now = record {
    at = λ s h. elim (Bool-cases (str_eq user "")) [
      | inl e ↦ rw e tt
      | inr e ↦
          rw e
            (elim (Bool-cases
              (is_some (employee_named user s) || is_taken s.next_id n.external_id s.employees)) [
                | inl d ↦ rw d tt
                | inr d ↦ rw d (p.hires (new_employee n user s.next_id now) (s.next_id + 1) s h)
              ])
    ];
  }
