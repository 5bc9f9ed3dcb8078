-- ===== src/Account/Closing/Work.antt =====
-- The tasks that `Offboard` of go/internal/ops/ops.go queues.
use ai_env_mgr.Base.{
  ℕ, ◌≡◌, refl, inl, inr, String, Bool, true, false, ◌&&◌, some, arith, All, All-imp, Bool-cases,
  &&-eq-true, is, ltb,
}
use ai_env_mgr.Task.{NewTask, Task, Result, ok, err, has_key, overtaken, below}
use ai_env_mgr.Task.Updates.{new_row, revive_row}
use ai_env_mgr.Queue.{Queue}
use ai_env_mgr.Queue.Every.{enqueue-All}
use ai_env_mgr.Account.{Employee}
use ai_env_mgr.Account.Service.{enqueue_for}
use ai_env_mgr.Account.Keeps.{Holds}
use ai_env_mgr.Release.{Store, Call}
use ai_env_mgr.Release.Service.{enqueued, audit_target}
use ai_env_mgr.Account.Closing.{IsIdle, IsClosed, Stripped}

revive_row-IsIdle :
    (c : Call) (e : Employee) (now : ℕ) (t : Task)
    → below t.target_epoch e.auth_epoch ≡ false
    → IsIdle c e t
    → IsIdle c e (revive_row now t)
unfolding revive_row overtaken
revive_row-IsIdle c e now t b (idle, aimed) = (rw b still, aimed)
  where
    still : (is t.employee_id e.id && (true && false)) ≡ false
    still = elim (Bool-cases (is t.employee_id e.id)) [ inl d ↦ rw d refl | inr d ↦ rw d refl ]

enqueue_for-idle :
    (c : Call) (e : Employee) (kind key : String) (r : Queue × Result (Task × Bool)) (s : Store)
    → All (IsIdle c e) r.0.tasks
    → Stripped c e s
    → Holds (λ u t. Stripped c e t) (enqueued r s)
enqueue_for-idle c e kind key (q, ok t) s idle h = ((h.0.0, idle), h.1)
enqueue_for-idle c e kind key (q, err x) s idle h = tt

new_row-IsIdle :
    (c : Call) (e : Employee) (n : NewTask) (fresh wall now : ℕ)
    → n.target_epoch ≡ some e.auth_epoch
    → IsIdle c e (new_row n fresh wall now)
unfolding new_row overtaken
new_row-IsIdle c e n fresh wall now h =
    (rw (h, none_below) never, ((λ k. rw h none_below), (λ k. rw h none_below)))
  where
    none_below : ltb e.auth_epoch e.auth_epoch ≡ false
    none_below = ground arith

    never : (is n.employee_id e.id && (true && false)) ≡ false
    never = elim (Bool-cases (is n.employee_id e.id)) [ inl d ↦ rw d refl | inr d ↦ rw d refl ]

pub enqueue_for-Stripped :
    (c : Call) (e : Employee) (kind key : String) (s : Store)
    → ((t : Task) → has_key key t ≡ true → IsIdle c e t → below t.target_epoch e.auth_epoch ≡ false)
    → Stripped c e s
    → Holds (λ u t. Stripped c e t) (enqueue_for c e kind key s)
enqueue_for-Stripped c e kind key s aimed h =
    enqueue_for-idle c e kind key _ s
      (enqueue-All (IsIdle c e) _ s.next_id c.wall c.now s.queue
        (λ t f i. revive_row-IsIdle c e c.now t (aimed t (&&-eq-true (has_key key t) _ f).0 i) i)
        (new_row-IsIdle c e _ s.next_id c.wall c.now refl) h.0.1)
      h

IsClosed-of_Stripped : (c : Call) (e : Employee) (s : Store) → Stripped c e s → IsClosed e s
IsClosed-of_Stripped c e s h = record {
  shut = h.0.0;
  no_work = All-imp (IsIdle c e) _ s.queue.tasks (λ t i. i.0) h.0.1;
  no_credential = h.1.0;
  no_grant = h.1.1;
}

pub audit_target-IsClosed :
    (c : Call) (action kind : String) (e : Employee) (s : Store)
    → Stripped c e s
    → Holds (λ u t. IsClosed e t) (audit_target c action kind e.id s)
unfolding audit_target
audit_target-IsClosed c action kind e s h =
    let k = IsClosed-of_Stripped c e s h in
    record {
      shut = k.shut;
      no_work = k.no_work;
      no_credential = k.no_credential;
      no_grant = k.no_grant;
    }
