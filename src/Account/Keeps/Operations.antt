-- ===== src/Account/Keeps/Operations.antt =====
-- The operations of go/internal/ops/ops.go and machines.go on accounts and machines, and any of
-- them in a row.
use ai_env_mgr.Base.{
  ℕ, ◌+◌, String, inl, inr, Bool, true, false, not, Option, none, some, List, [], ◌∷◌, Bool-cases,
  str_eq, ◌==◌,
}
use ai_env_mgr.Account.{Employee, Profile, is_active, Quota, Binding, purpose_codex_gateway}
use ai_env_mgr.Account.Employees.{normalize_windows_user, employee_named}
use ai_env_mgr.Account.Limits.{quota_of}
use ai_env_mgr.Account.Access.{open_binding}
use ai_env_mgr.Release.{Store, Call}
use ai_env_mgr.Account.Keeps.{
  refuse_if-Keeps, gets-Keeps, Preserved, Keeps, then-Keeps, in_tx-keeps, create_employee-Keeps,
}
use ai_env_mgr.Account.Keeps.Rows.{
  employee_by_id-Keeps, update_profile_row-Keeps, offboard_row-Keeps, reopen_row-Keeps,
  delete_row-Keeps, bump_row-Keeps, set_model_rows-Keeps, set_quota_row-Keeps,
}
use ai_env_mgr.Account.Keeps.Statements.{
  unbind_row-Keeps, request_restart-Keeps, bind_row-Keeps, revoke_grant-Keeps, retire-Keeps,
  supersede_work-Keeps, enqueue_gateway_work-Keeps, enqueue_employee_export-Keeps,
  enqueue_export-Keeps, audit_target-Keeps, ensure_device-Keeps, device_by_hostname-Keeps,
  or_nothing-Keeps, revoke_device-Keeps,
}
use ai_env_mgr.Account.Service.{
  OnboardSpec, replace_outstanding_work, apply_profile, quota_version, apply_quota, opened, raised,
  onboard_in, onboard, offboard_tx, offboard, delete_account, reissue_tx, set_quota, set_models,
  update_profile,
}
use ai_env_mgr.Account.Machines.{
  unbind_if, export_former, bind_tx, bind_machine, unbind_machine, request_codex_restart,
  export_forgotten, forget_tx, forget_machine,
}
use ai_env_mgr.Account.Steps.{
  Op, onboards, offboards, deletes, reissues, rotates, limits, grants_models, relabels, binds,
  unbinds, restarts, forgets, apply, run,
}

module _ (I : Store → Type 0) (p : Preserved I) where
  replace-Keeps : (c : Call) (e : Employee) → Keeps I (replace_outstanding_work c e)
  unfolding replace_outstanding_work
  replace-Keeps c e = then-Keeps I p _ _ (supersede_work-Keeps I p e.id e.auth_epoch c.now) (λ n.
      then-Keeps I p _ _ (revoke_grant-Keeps I p c e) (λ u.
        then-Keeps I p _ _ (enqueue_gateway_work-Keeps I p c e _ _)
          (λ v. enqueue_employee_export-Keeps I p c e _)))

  opened-Keeps :
      (c : Call) (spec : OnboardSpec) (user : String) (o : Option Employee)
      → Keeps I (opened c spec user o)
  unfolding apply_profile
  opened-Keeps c spec user none =
      then-Keeps I p _ _ (create_employee-Keeps I p _ user c.now) (λ e. record { at = λ s h. h })
  opened-Keeps c spec user (some old) =
      then-Keeps I p _ _ (update_profile_row-Keeps I p old.id old.version _ c.now)
        (λ e. record { at = λ s h. h })

  raised-Keeps : (c : Call) (e : Employee) (was_active : Bool) → Keeps I (raised c e was_active)
  raised-Keeps c e true = bump_row-Keeps I p e.id e.version c.now
  raised-Keeps c e false = reopen_row-Keeps I p e.id e.version c.now

  apply_quota-Keeps : (c : Call) (id : ℕ) (q : Quota) → Keeps I (apply_quota c id q)
  unfolding apply_quota
  apply_quota-Keeps c id q = record {
    at = λ s h. (set_quota_row-Keeps I p id q (quota_version (quota_of id s)) c.now).at s h;
  }

  onboard_in-Keeps :
      (c : Call) (spec : OnboardSpec) (user : String) (o : Option Employee)
      → Keeps I (onboard_in c spec user o)
  onboard_in-Keeps c spec user o = then-Keeps I p _ _ (opened-Keeps c spec user o) (λ r.
      then-Keeps I p _ _ (raised-Keeps c r.0 r.1) (λ e.
        then-Keeps I p _ _ (apply_quota-Keeps c e.id spec.quota) (λ q.
          then-Keeps I p _ _ (set_model_rows-Keeps I p e.id spec.models) (λ u.
            then-Keeps I p _ _ (replace-Keeps c e) (λ v.
              then-Keeps I p _ _ (audit_target-Keeps I p c _ _ e.id)
                (λ w. record { at = λ s h. h }))))))

  onboard-keeps : (c : Call) (spec : OnboardSpec) (s : Store) → I s → I (onboard c spec s).0
  unfolding onboard
  onboard-keeps c spec s h =
      elim (Bool-cases (str_eq (normalize_windows_user c.lower spec.windows_user) "")) [
        | inl e ↦ rw e h
        | inr e ↦ rw e (
            in_tx-keeps I p _
              (λ t.
                onboard_in c spec (normalize_windows_user c.lower spec.windows_user)
                  (employee_named (normalize_windows_user c.lower spec.windows_user) t) t)
              s
              (record {
                at = λ t k.
                    (onboard_in-Keeps c spec (normalize_windows_user c.lower spec.windows_user)
                        (employee_named (normalize_windows_user c.lower spec.windows_user) t)).at
                      t k;
              })
              h)
      ]

  offboard_tx-Keeps : (c : Call) (id : ℕ) → Keeps I (offboard_tx c id)
  unfolding offboard_tx
  offboard_tx-Keeps c id = then-Keeps I p _ _ (employee_by_id-Keeps I p id) (λ old.
      then-Keeps I p _ _ (offboard_row-Keeps I p old.id old.version c.now) (λ e.
        then-Keeps I p _ _ (supersede_work-Keeps I p e.id e.auth_epoch c.now) (λ n.
          then-Keeps I p _ _ (retire-Keeps I p e.id purpose_codex_gateway c.now) (λ m.
            then-Keeps I p _ _ (revoke_grant-Keeps I p c e) (λ u.
              then-Keeps I p _ _ (enqueue_gateway_work-Keeps I p c e _ _) (λ v.
                then-Keeps I p _ _ (enqueue_employee_export-Keeps I p c e _) (λ w.
                  then-Keeps I p _ _ (audit_target-Keeps I p c _ _ e.id)
                    (λ x. record { at = λ s h. h }))))))))

  delete-keeps : (c : Call) (id : ℕ) (s : Store) → I s → I (delete_account c id s).0
  unfolding delete_account
  delete-keeps c id s h =
      in_tx-keeps I p _ _ s
        (then-Keeps I p _ _ (employee_by_id-Keeps I p id) (λ old.
          then-Keeps I p _ _ (refuse_if-Keeps I (is_active old) _) (λ y.
            then-Keeps I p _ _ (delete_row-Keeps I p old.id old.version c.now) (λ e.
              then-Keeps I p _ _ (supersede_work-Keeps I p e.id (e.auth_epoch + 1) c.now) (λ n.
                then-Keeps I p _ _ (enqueue_gateway_work-Keeps I p c e _ _) (λ v.
                  then-Keeps I p _ _ (enqueue_employee_export-Keeps I p c e _) (λ w.
                    then-Keeps I p _ _ (audit_target-Keeps I p c _ _ e.id)
                      (λ x. record { at = λ t k. k }))))))))
        h

  reissue_tx-Keeps : (c : Call) (action : String) (id : ℕ) → Keeps I (reissue_tx c action id)
  unfolding reissue_tx
  reissue_tx-Keeps c action id = then-Keeps I p _ _ (employee_by_id-Keeps I p id) (λ old.
      then-Keeps I p _ _ (refuse_if-Keeps I (not (is_active old)) _) (λ y.
        then-Keeps I p _ _ (bump_row-Keeps I p old.id old.version c.now) (λ e.
          then-Keeps I p _ _ (replace-Keeps c e) (λ v.
            then-Keeps I p _ _ (audit_target-Keeps I p c action _ e.id)
              (λ x. record { at = λ s h. h })))))

  set_quota-keeps :
      (c : Call) (id : ℕ) (q : Quota) (version : ℕ) (s : Store)
      → I s
      → I (set_quota c id q version s).0
  unfolding set_quota
  set_quota-keeps c id q version s h =
      in_tx-keeps I p _ _ s
        (then-Keeps I p _ _ (employee_by_id-Keeps I p id) (λ e.
          then-Keeps I p _ _ (set_quota_row-Keeps I p id q version c.now) (λ after.
            then-Keeps I p _ _ (enqueue_gateway_work-Keeps I p c e _ _)
              (λ v. audit_target-Keeps I p c _ _ e.id))))
        h

  set_models-keeps :
      (c : Call) (id : ℕ) (models : List String) (s : Store) → I s → I (set_models c id models s).0
  unfolding set_models
  set_models-keeps c id models s h =
      in_tx-keeps I p _ _ s
        (then-Keeps I p _ _ (employee_by_id-Keeps I p id) (λ e.
          then-Keeps I p _ _ (set_model_rows-Keeps I p id models) (λ u.
            then-Keeps I p _ _ (enqueue_gateway_work-Keeps I p c e _ _) (λ v.
              then-Keeps I p _ _ (enqueue_employee_export-Keeps I p c e _)
                (λ w. audit_target-Keeps I p c _ _ e.id)))))
        h

  update_profile-keeps :
      (c : Call) (id version : ℕ) (q : Profile) (s : Store)
      → I s
      → I (update_profile c id version q s).0
  unfolding update_profile
  update_profile-keeps c id version q s h =
      in_tx-keeps I p _ _ s
        (then-Keeps I p _ _ (employee_by_id-Keeps I p id) (λ before.
          then-Keeps I p _ _ (update_profile_row-Keeps I p id version q c.now) (λ e.
            then-Keeps I p _ _ (enqueue_gateway_work-Keeps I p c e _ _)
              (λ v. audit_target-Keeps I p c _ _ e.id))))
        h

  unbind_if-Keeps : (c : Call) (device : ℕ) (o : Option Binding) → Keeps I (unbind_if c device o)
  unbind_if-Keeps c device none = record { at = λ s h. h }
  unbind_if-Keeps c device (some b) =
      then-Keeps I p _ _ (unbind_row-Keeps I p device c.actor c.now) (λ a. record { at = λ s h. h })

  export_former-Keeps :
      (c : Call) (employee : ℕ) (marker : String) (o : Option Binding)
      → Keeps I (export_former c employee marker o)
  export_former-Keeps c employee marker none = record { at = λ s h. h }
  export_former-Keeps c employee marker (some b) = elim (Bool-cases (b.employee_id == employee)) [
    | inl e ↦ rw e (record { at = λ s h. h })
    | inr e ↦ rw e (
        then-Keeps I p _ _ (employee_by_id-Keeps I p b.employee_id)
          (λ former. enqueue_employee_export-Keeps I p c former marker))
  ]

  bind_tx-Keeps :
      (c : Call) (hostname : String) (employee : ℕ) (note : String)
      → Keeps I (bind_tx c hostname employee note)
  unfolding bind_tx
  bind_tx-Keeps c hostname employee note =
      then-Keeps I p _ _ (ensure_device-Keeps I p c hostname) (λ d.
        then-Keeps I p _ _ (employee_by_id-Keeps I p employee) (λ e.
          then-Keeps I p _ _ (refuse_if-Keeps I (not (is_active e)) _) (λ y.
            then-Keeps I p _ _ (gets-Keeps I (open_binding d.id)) (λ previous.
              then-Keeps I p _ _ (unbind_if-Keeps c d.id previous) (λ u.
                then-Keeps I p _ _ (bind_row-Keeps I p d.id e.id note c.actor c.now) (λ b.
                  then-Keeps I p _ _ (enqueue_export-Keeps I p c d _) (λ v.
                    then-Keeps I p _ _ (enqueue_employee_export-Keeps I p c e _) (λ w.
                      then-Keeps I p _ _ (export_former-Keeps c e.id _ previous) (λ x.
                        then-Keeps I p _ _ (audit_target-Keeps I p c _ _ d.id)
                          (λ z. record { at = λ t k. k }))))))))))

  unbind-keeps :
      (c : Call) (hostname : String) (s : Store) → I s → I (unbind_machine c hostname s).0
  unfolding unbind_machine
  unbind-keeps c hostname s h =
      in_tx-keeps I p _ _ s
        (then-Keeps I p _ _ (device_by_hostname-Keeps I p c hostname) (λ d.
          then-Keeps I p _ _ (unbind_row-Keeps I p d.id c.actor c.now) (λ b.
            then-Keeps I p _ _ (enqueue_export-Keeps I p c d _)
              (λ u. audit_target-Keeps I p c _ _ d.id))))
        h

  restart-keeps :
      (c : Call) (hostname : String) (s : Store) → I s → I (request_codex_restart c hostname s).0
  unfolding request_codex_restart
  restart-keeps c hostname s h =
      in_tx-keeps I p _ _ s
        (then-Keeps I p _ _ (device_by_hostname-Keeps I p c hostname) (λ d.
          then-Keeps I p _ _ (request_restart-Keeps I p d.id c.nonce c.now) (λ b.
            then-Keeps I p _ _ (enqueue_export-Keeps I p c d _) (λ u.
              then-Keeps I p _ _ (audit_target-Keeps I p c _ _ d.id)
                (λ x. record { at = λ t k. k })))))
        h

  export_forgotten-Keeps :
      (c : Call) (device : ℕ) (o : Option Binding) → Keeps I (export_forgotten c device o)
  export_forgotten-Keeps c device none = record { at = λ s h. h }
  export_forgotten-Keeps c device (some b) =
      then-Keeps I p _ _ (employee_by_id-Keeps I p b.employee_id)
        (λ e. enqueue_employee_export-Keeps I p c e _)

  forget_tx-Keeps : (c : Call) (hostname : String) → Keeps I (forget_tx c hostname)
  unfolding forget_tx
  forget_tx-Keeps c hostname = then-Keeps I p _ _ (device_by_hostname-Keeps I p c hostname) (λ d.
      then-Keeps I p _ _ (or_nothing-Keeps I p _ _ (unbind_row-Keeps I p d.id c.actor c.now))
        (λ former. then-Keeps I p _ _ (export_forgotten-Keeps c d.id former) (λ u.
          then-Keeps I p _ _ (revoke_device-Keeps I p d.id) (λ v.
            then-Keeps I p _ _ (enqueue_export-Keeps I p c d _)
              (λ w. audit_target-Keeps I p c _ _ d.id)))))

  apply-keeps : (c : Call) (op : Op) (s : Store) → I s → I (apply c op s)
  unfolding apply offboard bind_machine forget_machine
  apply-keeps c (onboards spec) s h = onboard-keeps c spec s h
  apply-keeps c (offboards id) s h = in_tx-keeps I p _ _ s (offboard_tx-Keeps c id) h
  apply-keeps c (deletes id) s h = delete-keeps c id s h
  apply-keeps c (reissues id) s h = in_tx-keeps I p _ _ s (reissue_tx-Keeps c _ id) h
  apply-keeps c (rotates id) s h = in_tx-keeps I p _ _ s (reissue_tx-Keeps c _ id) h
  apply-keeps c (limits id q version) s h = set_quota-keeps c id q version s h
  apply-keeps c (grants_models id models) s h = set_models-keeps c id models s h
  apply-keeps c (relabels id version q) s h = update_profile-keeps c id version q s h
  apply-keeps c (binds hostname employee note) s h =
      in_tx-keeps I p _ _ s (bind_tx-Keeps c hostname employee note) h
  apply-keeps c (unbinds hostname) s h = unbind-keeps c hostname s h
  apply-keeps c (restarts hostname) s h = restart-keeps c hostname s h
  apply-keeps c (forgets hostname) s h = in_tx-keeps I p _ _ s (forget_tx-Keeps c hostname) h

  pub run-keeps : (ops : List (Call × Op)) (s : Store) → I s → I (run ops s)
  unfolding run
  run-keeps [] s h = h
  run-keeps ((c, op) ∷ ops) s h = run-keeps ops (apply c op s) (apply-keeps c op s h)
