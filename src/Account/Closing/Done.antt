-- ===== src/Account/Closing/Done.antt =====
-- `Offboard` of go/internal/ops/ops.go as a whole.
use ai_env_mgr.Base.{
  ℕ, ◌≡◌, refl, sym, ap, subst, Option, none, some, All, ==_iff, first, first-some,
}
use ai_env_mgr.Account.{Employee, purpose_codex_gateway}
use ai_env_mgr.Account.Employees.{has_id, employee_by_id, offboard_row}
use ai_env_mgr.Account.Access.{active_grant, retire}
use ai_env_mgr.Account.Service.{
  epoch_marker, enqueue_gateway_work, enqueue_employee_export, supersede_work, revoke_grant,
  offboard_tx, offboard,
}
use ai_env_mgr.Account.Keeps.{Holds, go_on-Holds}
use ai_env_mgr.Release.{Store, Ran, done, Tx, go_on, found, Call, in_tx}
use ai_env_mgr.Release.Service.{audit_target}
use ai_env_mgr.Account.Closing.{
  IsAimed, IsSingle, NoCredential, IsClosed, Off, Ready, Swept, Stripped,
}
use ai_env_mgr.Account.Closing.Row.{offboard_row-Off}
use ai_env_mgr.Account.Closing.Stripping.{supersede_work-Swept, retire-Swept, revoke_if-Stripped}
use ai_env_mgr.Account.Closing.Work.{enqueue_for-Stripped, audit_target-IsClosed}

-- What `Offboard` does with the row of the closed account.
abbrev close_rest : Call → Employee → Tx Employee
close_rest c e s = go_on (supersede_work e.id e.auth_epoch c.now s) (λ n s1.
    go_on (retire e.id purpose_codex_gateway c.now s1) (λ m s2. go_on (revoke_grant c e s2) (λ u s3.
      go_on (enqueue_gateway_work c e "gateway_revoke" "" s3) (λ v s4.
        go_on (enqueue_employee_export c e (epoch_marker c e) s4) (λ w s5.
          go_on (audit_target c "account.offboard" "employee" e.id s5) (λ x s6. done e s6))))))

rest-IsClosed :
    (c : Call) (id : ℕ) (e : Employee) (s : Store)
    → Off c id e s
    → Holds IsClosed (close_rest c e s)
unfolding revoke_grant enqueue_gateway_work enqueue_employee_export
rest-IsClosed c id e s off =
    go_on-Holds (λ n t. Swept c e t) IsClosed _ _ (supersede_work-Swept c id e s off)
      (λ n s1 h1.
        go_on-Holds (λ n t. Swept c e t × NoCredential e t) IsClosed _ _
          (retire-Swept c e c.now s1 h1)
          (λ m s2 h2.
            go_on-Holds (λ u t. Stripped c e t) IsClosed _ _
              (revoke_if-Stripped c e (active_grant "" e.id s2) s2 refl h2.0 h2.1)
              (λ u s3 h3.
                go_on-Holds (λ u t. Stripped c e t) IsClosed _ _
                  (enqueue_for-Stripped c e _ _ s3 (λ t k i. i.1.0 k) h3)
                  (λ v s4 h4.
                    go_on-Holds (λ u t. Stripped c e t) IsClosed _ _
                      (enqueue_for-Stripped c e _ _ s4 (λ t k i. i.1.1 k) h4)
                      (λ w s5 h5.
                        go_on-Holds (λ u t. IsClosed e t) IsClosed _ _
                          (audit_target-IsClosed c _ _ e s5 h5) (λ x s6 h6. h6))))))

located-IsClosed :
    (c : Call) (id : ℕ) (o : Option Employee) (s : Store)
    → ((old : Employee) → o ≡ some old → old.id ≡ id)
    → Ready c id s
    → Holds IsClosed (
        go_on (found o s) (λ old t. go_on (offboard_row old.id old.version c.now t) (close_rest c)))
unfolding go_on
located-IsClosed c id none s mine r = tt
located-IsClosed c id (some old) s mine r =
    go_on-Holds (Off c id) IsClosed (offboard_row old.id old.version c.now s) (close_rest c)
      (subst (λ v. Holds (Off c id) (offboard_row v old.version c.now s)) (sym (mine old refl))
        (offboard_row-Off c id old.version c.now s r))
      (λ e t h. rest-IsClosed c id e t h)

offboard_tx-IsClosed :
    (c : Call) (id : ℕ) (s : Store) → Ready c id s → Holds IsClosed (offboard_tx c id s)
unfolding offboard_tx employee_by_id
offboard_tx-IsClosed c id s r =
    located-IsClosed c id (first (has_id id) s.employees) s
      (λ old h. (==_iff old.id id).0 (first-some (has_id id) s.employees old h).0) r

-- Where each employee has one wanted grant at a gateway, and the tasks under the keys of an epoch are
-- aimed at that epoch or above: once `Offboard` is done, the account is closed, no task that is aimed
-- below its epoch is open, it has no live credential for the gateway and no grant is wanted for it at
-- the default gateway.
pub offboard-IsClosed :
    (c : Call) (id : ℕ) (s s' : Store) (e : Employee)
    → IsSingle s.grants
    → All (λ t. (x : Employee) → x.id ≡ id → IsAimed c x t) s.queue.tasks
    → offboard c id s ≡ (s', done e s')
    → IsClosed e s'
unfolding offboard in_tx
offboard-IsClosed c id s s' e single aimed h =
    subst (λ r. Holds IsClosed r) (ap (λ (x : Store × Ran Employee). x.1) h)
      (offboard_tx-IsClosed c id s (single, aimed))
