-- ===== src/Account/Closing/Stripping.antt =====
-- The work, the credential and the grant of an account that is closed: the first half of `Offboard` of
-- go/internal/ops/ops.go.
use ai_env_mgr.Base.{
  ℕ, ◌≡◌, refl, inl, inr, String, Bool, true, false, Option, none, some, List, [], ◌∷◌, arith, All,
  All-imp, All-map, All-Memᴰ, All-of_Memᴰ, Bool-cases, ◌==◌, first-some, first-none, change,
  update_where,
}
use mathlib.Core.List.{Memᴰ}
use ai_env_mgr.Task.{Task, overtaken}
use ai_env_mgr.Task.Updates.{supersede_row}
use ai_env_mgr.Queue.{Queue}
use ai_env_mgr.Queue.Sweep.{supersede_open}
use ai_env_mgr.Queue.Sweeping.{supersede_open-Swept}
use ai_env_mgr.Account.{Employee, Grant, Credential, purpose_codex_gateway}
use ai_env_mgr.Account.Access.{
  is_grant_of, active_grant, has_grant_id, revoke_row, revoked_row, update_grant, is_live, retire,
}
use ai_env_mgr.Account.Service.{supersede_work, revoke_if}
use ai_env_mgr.Account.Keeps.{Holds, go_on-Holds}
use ai_env_mgr.Release.{Store, Call}
use ai_env_mgr.Account.Closing.{IsAimed, IsIdle, NoCredential, Off, Swept, Stripped}

supersede_row-IsAimed :
    (c : Call) (e : Employee) (why : String) (now : ℕ) (t : Task)
    → IsAimed c e t
    → IsAimed c e (supersede_row why now t)
unfolding supersede_row
supersede_row-IsAimed c e why now t h = h

changed-IsAimed :
    (c : Call) (e : Employee) (p : Task → Bool) (why : String) (now : ℕ) (t : Task)
    → IsAimed c e t
    → IsAimed c e (change p (supersede_row why now) t)
changed-IsAimed c e p why now t h = elim (Bool-cases (p t)) [
  | inl d ↦ rw d (supersede_row-IsAimed c e why now t h)
  | inr d ↦ rw d h
]

supersede_open-IsAimed :
    (c : Call) (e : Employee) (employee epoch now : ℕ) (q : Queue)
    → All (IsAimed c e) q.tasks
    → All (IsAimed c e) (supersede_open employee epoch now q).0.tasks
unfolding supersede_open
supersede_open-IsAimed c e employee epoch now q h =
    All-map (IsAimed c e) (IsAimed c e) _ q.tasks
      (λ t k.
        changed-IsAimed c e (overtaken employee epoch)
          "superseded: the employee moved to a newer epoch" now t k)
      h

pub supersede_work-Swept :
    (c : Call) (id : ℕ) (e : Employee) (s : Store)
    → Off c id e s
    → Holds (λ n t. Swept c e t) (supersede_work e.id e.auth_epoch c.now s)
unfolding supersede_work
supersede_work-Swept c id e s ((shut, mine), (single, aimed)) =
    let swept = (supersede_open-Swept e.id e.auth_epoch c.now s.queue).0.none_left in
    let still =
      supersede_open-IsAimed c e e.id e.auth_epoch c.now s.queue
        (All-imp _ (IsAimed c e) s.queue.tasks (λ t h. h e mine) aimed) in
    (
      shut,
      (
        single,
        All-of_Memᴰ (IsIdle c e) _ (λ t m. (All-Memᴰ _ _ t swept m, All-Memᴰ _ _ t still m)),
      ),
    )

retired-none :
    (employee : ℕ) (purpose : String) (now : ℕ) (rows : List Credential)
    → All
        (λ r. is_live employee purpose r ≡ false)
        (update_where (is_live employee purpose) (λ r. record r { retired_at = some now }) rows)
retired-none employee purpose now [] = tt
retired-none employee purpose now (r ∷ rows) = (
  elim (Bool-cases (is_live employee purpose r)) [ inl e ↦ rw e (ground arith) | inr e ↦ rw e e ],
  retired-none employee purpose now rows,
)

pub retire-Swept :
    (c : Call) (e : Employee) (now : ℕ) (s : Store)
    → Swept c e s
    → Holds (λ n t. Swept c e t × NoCredential e t) (retire e.id purpose_codex_gateway now s)
unfolding retire
retire-Swept c e now s h = (h, retired-none e.id purpose_codex_gateway now s.credentials)

revoked_row-off :
    (gateway : String) (employee now : ℕ) (g : Grant)
    → is_grant_of gateway employee (revoked_row now g) ≡ false
unfolding revoked_row
revoked_row-off gateway employee now g = ground arith

-- The one grant that is wanted is the one that is revoked.
revoked-none :
    (employee now : ℕ) (g : Grant) (rows : List Grant)
    → ((h : Grant) → Memᴰ h rows → is_grant_of "litellm" employee h ≡ true → h.id ≡ g.id)
    → All
        (λ h. is_grant_of "litellm" employee h ≡ false)
        (update_where (has_grant_id g.id) (revoked_row now) rows)
revoked-none employee now g [] only = tt
revoked-none employee now g (h ∷ rows) only = (
  elim (Bool-cases (h.id == g.id)) [
    | inl e ↦ rw e (revoked_row-off "litellm" employee now h)
    | inr e ↦ rw e (elim (Bool-cases (is_grant_of "litellm" employee h)) [
      | inr d ↦ d
      | inl d ↦ let same = only h (Memᴰ.head refl) d in absurd (ground arith)
    ])
  ],
  revoked-none employee now g rows (λ x m. only x (Memᴰ.tail m)),
)

update_grant-Stripped :
    (c : Call) (e : Employee) (now : ℕ) (g : Grant) (o : Option Grant) (s : Store)
    → Swept c e s
    → NoCredential e s
    → Memᴰ g s.grants
    → is_grant_of "litellm" e.id g ≡ true
    → Holds (λ a t. Stripped c e t) (update_grant g.id (revoked_row now) o s)
update_grant-Stripped c e now g none s w n m h = tt
update_grant-Stripped c e now g (some x) s (shut, (single, idle)) n m h = (
  (shut, idle),
  (n, revoked-none e.id now g s.grants (λ y k d. single "litellm" e.id y g k m d h)),
)

pub revoke_if-Stripped :
    (c : Call) (e : Employee) (o : Option Grant) (s : Store)
    → active_grant "" e.id s ≡ o
    → Swept c e s
    → NoCredential e s
    → Holds (λ u t. Stripped c e t) (revoke_if o c.now s)
unfolding active_grant revoke_row
revoke_if-Stripped c e none s h w n = ((w.0, w.1.1), (n, first-none _ s.grants h))
revoke_if-Stripped c e (some g) s h w n =
    let (d, m) = first-some _ s.grants g h in
    go_on-Holds (λ a t. Stripped c e t) (λ u t. Stripped c e t) (revoke_row g.id c.now s) _
      (update_grant-Stripped c e c.now g _ s w n m d) (λ a t k. k)
