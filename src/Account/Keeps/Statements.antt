-- ===== src/Account/Keeps/Statements.antt =====
-- The statements on bindings, grants, credentials, tasks and machines, one by one.
use ai_env_mgr.Base.{
  ℕ, ◌+◌, String, refl, inl, inr, Option, none, some, Bool-cases, Option-cases, str_eq,
}
use ai_env_mgr.Version.{trim_left, trim_right}
use ai_env_mgr.Account.{Employee, Binding, Grant}
use ai_env_mgr.Account.Access.{
  bound_to, open_binding, last_epoch, new_binding, bind_row, update_bound, unbound_row, unbind_row,
  restart_row, request_restart, revoke_row, update_grant, retire,
}
use ai_env_mgr.Release.{Device, Store, Ran, done, refused, not_found, Tx, answer, Call}
use ai_env_mgr.Release.Service.{enqueue_export, audit_target}
use ai_env_mgr.Account.Keeps.{
  Holds, found-Holds, IsSettling, Preserved, Keeps, then-Keeps, enqueued-Holds,
}
use ai_env_mgr.Account.Service.{
  enqueue_gateway_work, enqueue_employee_export, supersede_work, revoke_if, revoke_grant,
}
use ai_env_mgr.Account.Machines.{
  device_by_hostname, device_or_new, ensure_device, revoke_found, revoke_device, or_nothing,
}

unbound_row-IsSettling : (by : String) (now : ℕ) → IsSettling (unbound_row by now)
unfolding unbound_row
unbound_row-IsSettling by now = record {
  same_device = λ b. refl;
  same_epoch = λ b. refl;
  stays_unbound = λ b h. refl;
}

restart_row-IsSettling : (nonce : String) (now : ℕ) → IsSettling (restart_row nonce now)
unfolding restart_row
restart_row-IsSettling nonce now = record {
  same_device = λ b. refl;
  same_epoch = λ b. refl;
  stays_unbound = λ b h. h;
}

module _ (I : Store → Type 0) (p : Preserved I) where
  update_bound-Keeps :
      (device : ℕ) (f : Binding → Binding) (o : Option Binding)
      → IsSettling f
      → Keeps I (update_bound device f o)
  update_bound-Keeps device f none settle = record { at = λ s h. tt }
  update_bound-Keeps device f (some b) settle = record {
    at = λ s h. p.settles (bound_to device) f s settle h;
  }

  pub unbind_row-Keeps : (device : ℕ) (by : String) (now : ℕ) → Keeps I (unbind_row device by now)
  unfolding unbind_row
  unbind_row-Keeps device by now = record {
    at = λ s h. (update_bound-Keeps device _ _ (unbound_row-IsSettling by now)).at s h;
  }

  pub request_restart-Keeps :
      (device : ℕ) (nonce : String) (now : ℕ) → Keeps I (request_restart device nonce now)
  unfolding request_restart
  request_restart-Keeps device nonce now = record {
    at = λ s h. elim (Bool-cases (str_eq nonce "")) [
      | inl e ↦ rw e tt
      | inr e ↦ rw e ((update_bound-Keeps device _ _ (restart_row-IsSettling nonce now)).at s h)
    ];
  }

  pub bind_row-Keeps :
      (device employee : ℕ) (note by : String) (now : ℕ)
      → Keeps I (bind_row device employee note by now)
  unfolding bind_row new_binding
  bind_row-Keeps device employee note by now = record {
    at = λ s h. elim (Option-cases (open_binding device s)) [
      | inr (b, e) ↦ rw e tt
      | inl e ↦ rw e (
          p.binds
            (new_binding s.next_id device employee (last_epoch device s.bindings + 1) note by now)
            (s.next_id + 1) s e refl h)
    ];
  }

  update_grant-Keeps :
      (id : ℕ) (f : Grant → Grant) (o : Option Grant) → Keeps I (update_grant id f o)
  update_grant-Keeps id f none = record { at = λ s h. tt }
  update_grant-Keeps id f (some g) = record { at = λ s h. p.grants _ s h }

  revoke_row-Keeps : (id now : ℕ) → Keeps I (revoke_row id now)
  unfolding revoke_row
  revoke_row-Keeps id now = record { at = λ s h. (update_grant-Keeps id _ _).at s h }

  revoke_if-Keeps : (o : Option Grant) (now : ℕ) → Keeps I (revoke_if o now)
  revoke_if-Keeps none now = record { at = λ s h. h }
  revoke_if-Keeps (some g) now = record {
    at = λ s h.
        (then-Keeps I p (revoke_row g.id now) (λ a. answer tt) (revoke_row-Keeps g.id now)
            (λ a. record { at = λ t i. i })).at
          s h;
  }

  pub revoke_grant-Keeps : (c : Call) (e : Employee) → Keeps I (revoke_grant c e)
  unfolding revoke_grant
  revoke_grant-Keeps c e = record { at = λ s h. (revoke_if-Keeps _ c.now).at s h }

  pub retire-Keeps :
      (employee : ℕ) (purpose : String) (now : ℕ) → Keeps I (retire employee purpose now)
  unfolding retire
  retire-Keeps employee purpose now = record { at = λ s h. p.credentials _ s h }

  pub supersede_work-Keeps : (employee epoch now : ℕ) → Keeps I (supersede_work employee epoch now)
  unfolding supersede_work
  supersede_work-Keeps employee epoch now = record { at = λ s h. p.queues _ s.next_id s h }

  pub enqueue_gateway_work-Keeps :
      (c : Call) (e : Employee) (kind marker : String)
      → Keeps I (enqueue_gateway_work c e kind marker)
  unfolding enqueue_gateway_work
  enqueue_gateway_work-Keeps c e kind marker = record { at = λ s h. enqueued-Holds I p _ s h }

  pub enqueue_employee_export-Keeps :
      (c : Call) (e : Employee) (marker : String) → Keeps I (enqueue_employee_export c e marker)
  unfolding enqueue_employee_export
  enqueue_employee_export-Keeps c e marker = record { at = λ s h. enqueued-Holds I p _ s h }

  pub enqueue_export-Keeps :
      (c : Call) (d : Device) (marker : String) → Keeps I (enqueue_export c d marker)
  unfolding enqueue_export
  enqueue_export-Keeps c d marker = record { at = λ s h. enqueued-Holds I p _ s h }

  pub audit_target-Keeps :
      (c : Call) (action kind : String) (id : ℕ) → Keeps I (audit_target c action kind id)
  unfolding audit_target
  audit_target-Keeps c action kind id = record { at = λ s h. p.logs _ s h }

  device_or_new-Keeps : (name : String) (o : Option Device) → Keeps I (device_or_new name o)
  device_or_new-Keeps name none = record { at = λ s h. p.devices _ (s.next_id + 1) s h }
  device_or_new-Keeps name (some d) = record { at = λ s h. h }

  pub ensure_device-Keeps : (c : Call) (hostname : String) → Keeps I (ensure_device c hostname)
  unfolding ensure_device
  ensure_device-Keeps c hostname = record {
    at = λ s h. elim (Bool-cases (str_eq (trim_right (trim_left hostname)) "")) [
      | inl e ↦ rw e tt
      | inr e ↦ rw e ((device_or_new-Keeps _ _).at s h)
    ];
  }

  pub device_by_hostname-Keeps :
      (c : Call) (hostname : String) → Keeps I (device_by_hostname c hostname)
  unfolding device_by_hostname
  device_by_hostname-Keeps c hostname = record { at = λ s h. found-Holds I _ s h }

  or_nothing-Holds :
      (A : Type 0) (s : Store) (r : Ran A)
      → I s
      → Holds (λ a t. I t) r
      → Holds (λ o t. I t) (or_nothing s r)
  or_nothing-Holds A s (done a t) h k = k
  or_nothing-Holds A s (refused not_found) h k = h
  or_nothing-Holds A s (refused e) h k = tt

  pub or_nothing-Keeps : (A : Type 0) (m : Tx A) → Keeps I m → Keeps I (λ s. or_nothing s (m s))
  or_nothing-Keeps A m k = record { at = λ s h. or_nothing-Holds A s (m s) h (k.at s h) }

  revoke_found-Keeps : (id : ℕ) (o : Option Device) → Keeps I (revoke_found id o)
  revoke_found-Keeps id none = record { at = λ s h. tt }
  revoke_found-Keeps id (some d) = record { at = λ s h. p.devices _ s.next_id s h }

  pub revoke_device-Keeps : (id : ℕ) → Keeps I (revoke_device id)
  unfolding revoke_device
  revoke_device-Keeps id = record { at = λ s h. (revoke_found-Keeps id _).at s h }
