-- ===== src/Queue/Sweeping.antt =====
-- `SupersedeOpenForEmployee` and `ReleaseExpiredLeases` of go/internal/dbstore/tasks.go.
use mathlib.Core.List.{Memᴰ}
use ai_env_mgr.Base.{
  ℕ, ℤ, ◌≤◌, String, ◌≡◌, refl, sym, ap, ◌∙◌, subst, inl, inr, Bool, true, false, Option, some,
  List, arith, All, All-Memᴰ, All-map, All-of_Memᴰ, Bool-cases, change, change-Memᴰ, update_where,
  affected, positive_or, minute,
}
use ai_env_mgr.Task.{Task, ok, overtaken, expired, is_waiting}
use ai_env_mgr.Task.Updates.{supersede_row, expire_row}
use ai_env_mgr.Queue.{Queue, claim}
use ai_env_mgr.Queue.Sweep.{supersede_open, release_expired}
use ai_env_mgr.Queue.Claiming.{claim-ok, claim_row-same, runnable-parts}

-- What an update over all the rows has done: the rows that it was for have become `f` of them, and
-- the others are as they were.
pub record Swept (p : Task → Bool) (f : Task → Task) (q q' : Queue) : Type 0 where
  pub none_left : All (λ t. p t ≡ false) q'.tasks
  pub became : (t : Task) → Memᴰ t q.tasks → p t ≡ true → Memᴰ (f t) q'.tasks
  pub kept : (t : Task) → Memᴰ t q.tasks → p t ≡ false → Memᴰ t q'.tasks

swept :
    (p : Task → Bool) (f : Task → Task) (q q' : Queue)
    → ((t : Task) → p t ≡ true → p (f t) ≡ false)
    → q'.tasks ≡ update_where p f q.tasks
    → Swept p f q q'
swept p f q q' clears same = record {
  none_left = rw same (
      All-map (λ t. Unit {0}) (λ t. p t ≡ false) (change p f) q.tasks (λ t h. cleared t)
        (All-of_Memᴰ _ q.tasks (λ t m. tt)));
  became = λ t m h.
      rw same (subst (λ v. Memᴰ v (update_where p f q.tasks)) (rw h) (change-Memᴰ p f q.tasks t m));
  kept = λ t m h.
      rw same (subst (λ v. Memᴰ v (update_where p f q.tasks)) (rw h) (change-Memᴰ p f q.tasks t m));
}
  where
    cleared : (t : Task) → p (change p f t) ≡ false
    cleared t = elim (Bool-cases (p t)) [ inl h ↦ rw h (clears t h) | inr h ↦ rw h h ]

abbrev pub overtaken_reason : String
overtaken_reason = "superseded: the employee moved to a newer epoch"

supersede_row-clears :
    (employee epoch now : ℕ) (t : Task)
    → overtaken employee epoch (supersede_row overtaken_reason now t) ≡ false
unfolding overtaken supersede_row
supersede_row-clears employee epoch now t = ground arith

-- After the sweep no open task of this employee aims below the epoch; those that did are superseded,
-- every other row of the table is as it was, and the answer counts the rows that were superseded.
pub supersede_open-Swept :
    (employee epoch now : ℕ) (q : Queue)
    → Swept
        (overtaken employee epoch)
        (supersede_row overtaken_reason now)
        q
        (supersede_open employee epoch now q).0
      × ((supersede_open employee epoch now q).1 ≡ affected (overtaken employee epoch) q.tasks)
unfolding supersede_open
supersede_open-Swept employee epoch now q = (
  swept (overtaken employee epoch) (supersede_row overtaken_reason now) q _
      (λ t h. supersede_row-clears employee epoch now t) refl,
  refl,
)

not_overtaken :
    (employee epoch want : ℕ) (t : Task)
    → overtaken employee epoch t ≡ false
    → is_waiting t.status ≡ true
    → t.employee_id ≡ some employee
    → t.target_epoch ≡ some want
    → epoch ≤ want
unfolding overtaken
not_overtaken employee epoch want t h w e a = ground arith

-- A claim right after the sweep, whatever epochs it reads, hands out none of the overtaken work: what
-- it hands out for this employee with an aim is aimed at the epoch or above.
pub supersede_open-claim :
    (employee epoch swept_at : ℕ) (q : Queue) (owner : String) (kinds : List String) (lease : ℤ)
    (now : ℕ) (epoch_of : ℕ → Option ℕ) (locked : ℕ → Bool) (q' : Queue) (u : Task) (want : ℕ)
    → claim owner kinds lease now epoch_of locked (supersede_open employee epoch swept_at q).0
      ≡ (q', ok u)
    → u.employee_id ≡ some employee
    → u.target_epoch ≡ some want
    → epoch ≤ want
supersede_open-claim employee epoch swept_at q owner kinds lease now epoch_of locked q' u want h e
      a =
    let (t, done) = claim-ok owner kinds lease now epoch_of locked _ q' u h in
    let same = claim_row-same owner (positive_or minute lease) now t in
    let parts = runnable-parts kinds now epoch_of locked t done.fit in
    not_overtaken employee epoch want t
      (All-Memᴰ _ _ t (supersede_open-Swept employee epoch swept_at q).0.none_left done.listed)
      parts.0 (sym same.2 ∙ ap (λ (v : Task). v.employee_id) (sym done.taken) ∙ e)
      (sym same.1 ∙ ap (λ (v : Task). v.target_epoch) (sym done.taken) ∙ a)

expire_row-clears : (now : ℕ) (t : Task) → expired now (expire_row now t) ≡ false
unfolding expired expire_row
expire_row-clears now t = ground arith

-- After `ReleaseExpiredLeases` no task runs on a lease that has run out; those that did are
-- rewritten by `expire_row` and counted, and every other row is as it was.
pub release_expired-Swept :
    (now : ℕ) (q : Queue)
    → Swept (expired now) (expire_row now) q (release_expired now q).0
      × ((release_expired now q).1 ≡ affected (expired now) q.tasks)
unfolding release_expired
release_expired-Swept now q =
    (swept (expired now) (expire_row now) q _ (λ t h. expire_row-clears now t) refl, refl)
