-- ===== src/Queue/Claiming.antt =====
-- `Claim` of go/internal/dbstore/tasks.go.
use mathlib.Core.List.{Memᴰ}
use ai_env_mgr.Base.{
  ℕ, ℤ, ◌≤◌, String, ◌≡◌, ◌≢◌, ◌↔◌, refl, sym, ap, ◌∙◌, subst, inl, inr, Bool, true, false, Option,
  some, List, map, arith, All, Bool-cases, Option-cases, positive_or, minute, select, select-Memᴰ,
  select-All, select-nil, select-nil_of_All, change, change-Memᴰ, ==_refl, Unique, Unique-eq,
  str_eq, eq_iff, leb→le,
}
use ai_env_mgr.Task.{
  Task, not_found, ok, err, runnable, running, is_waiting, has_id, epoch_fits, kind_fits,
}
use ai_env_mgr.Task.Updates.{claim_row}
use ai_env_mgr.Queue.{Queue, claim, take, earliest}
use ai_env_mgr.Queue.Earliest.{earliest-Memᴰ, earliest-none, earliest-le}

module _ (owner : String) (kinds : List String) (lease : ℤ) (now : ℕ) (epoch_of : ℕ → Option ℕ)
    (locked : ℕ → Bool) (q : Queue) where
  abbrev pub fits : Task → Bool
  fits = runnable kinds now epoch_of locked

  -- What a claim that answers with `t'` and leaves `q'` has done: it took `t`, a runnable row due no
  -- later than any other runnable row, and ran the update and the insert for it.
  pub record Claimed (q' : Queue) (t t' : Task) : Type 0 where
    pub listed : Memᴰ t q.tasks
    pub fit : fits t ≡ true
    pub soonest : All (λ u. fits u ≡ true → t.next_run_at ≤ u.next_run_at) q.tasks
    pub taken : t' ≡ claim_row owner (positive_or minute lease) now t
    pub left : q' ≡ (take owner (positive_or minute lease) now t q).0

  -- A claim that answers has taken a runnable row, due no later than any other runnable row, and ran
  -- the update and the insert for it.
  pub claim-ok :
      (q' : Queue) (t' : Task)
      → claim owner kinds lease now epoch_of locked q ≡ (q', ok t')
      → (t : Task) × Claimed q' t t'
  unfolding claim take
  claim-ok q' t' h = elim (Bool-cases (str_eq owner "")) [
    | inl e ↦ absurd (ground arith)
    | inr e ↦ elim (Option-cases (earliest (select fits q.tasks))) [
      | inl d ↦ absurd (ground arith)
      | inr (t, d) ↦
          let (f, m) = select-Memᴰ fits q.tasks t (earliest-Memᴰ _ t d) in
          (
            t,
            record {
              listed = m;
              fit = f;
              soonest = select-All _ fits q.tasks (earliest-le _ t d);
              taken = ground arith;
              left = ground arith;
            },
          )
    ]
  ]

  -- A named worker finds nothing to do exactly when no row is runnable, and then nothing changes.
  pub claim-not_found :
      owner ≢ ""
      → (claim owner kinds lease now epoch_of locked q ≡ (q, err not_found))
        ↔ All (λ t. fits t ≡ false) q.tasks
  unfolding claim take earliest
  claim-not_found named = (there, back)
    where
      unnamed : str_eq owner "" ≡ false
      unnamed = ground (arith, eq_iff owner "")

      taken_ne : (t : Task) → take owner (positive_or minute lease) now t q ≢ (q, err not_found)
      taken_ne t e = ground arith

      there :
          claim owner kinds lease now epoch_of locked q ≡ (q, err not_found)
          → All (λ t. fits t ≡ false) q.tasks
      there h = elim (Option-cases (earliest (select fits q.tasks))) [
        | inl d ↦ select-nil fits q.tasks (earliest-none _ d)
        | inr (t, d) ↦ absurd (taken_ne t (rw (unnamed, d) at h))
      ]

      back :
          All (λ t. fits t ≡ false) q.tasks
          → claim owner kinds lease now epoch_of locked q ≡ (q, err not_found)
      back h = rw (unnamed, select-nil_of_All fits q.tasks h)

pub runnable-parts :
    (kinds : List String) (now : ℕ) (epoch_of : ℕ → Option ℕ) (locked : ℕ → Bool) (t : Task)
    → runnable kinds now epoch_of locked t ≡ true
    → (is_waiting t.status ≡ true)
      × (t.next_run_at ≤ now)
      × (kind_fits kinds t.kind ≡ true)
      × (epoch_fits epoch_of t ≡ true)
      × (locked t.id ≡ false)
unfolding runnable
runnable-parts kinds now epoch_of locked t h = ground arith

pub claim_row-same :
    (owner : String) (lease now : ℕ) (t : Task)
    → ((claim_row owner lease now t).id ≡ t.id)
      × ((claim_row owner lease now t).target_epoch ≡ t.target_epoch)
      × ((claim_row owner lease now t).employee_id ≡ t.employee_id)
      × ((claim_row owner lease now t).status ≡ running)
unfolding claim_row
claim_row-same owner lease now t = (refl, refl, refl, refl)

-- A claim that hands out work aimed at an epoch, for an employee whose epoch it read, hands it out
-- only if the employee has not passed the epoch aimed at.
pub claim-current :
    (owner : String) (kinds : List String) (lease : ℤ) (now : ℕ) (epoch_of : ℕ → Option ℕ)
    (locked : ℕ → Bool) (q q' : Queue) (t' : Task) (want employee epoch : ℕ)
    → claim owner kinds lease now epoch_of locked q ≡ (q', ok t')
    → t'.target_epoch ≡ some want
    → t'.employee_id ≡ some employee
    → epoch_of employee ≡ some epoch
    → epoch ≤ want
claim-current owner kinds lease now epoch_of locked q q' t' want employee epoch h a b c =
    let (t, done) = claim-ok owner kinds lease now epoch_of locked q q' t' h in
    let same = claim_row-same owner (positive_or minute lease) now t in
    let parts = runnable-parts kinds now epoch_of locked t done.fit in
    let aim : t.target_epoch ≡ some want =
      sym same.1 ∙ ap (λ (v : Task). v.target_epoch) (sym done.taken) ∙ a in
    let who : t.employee_id ≡ some employee =
      sym same.2 ∙ ap (λ (v : Task). v.employee_id) (sym done.taken) ∙ b in
    let ok_epoch : epoch_fits epoch_of t ≡ true = parts.3 in
    leb→le epoch want (rw (aim, who, c) at ok_epoch)

pub claimed-Memᴰ :
    (owner : String) (lease now : ℕ) (q : Queue) (t : Task)
    → Memᴰ t q.tasks
    → Memᴰ (claim_row owner lease now t) (take owner lease now t q).0.tasks
unfolding take
claimed-Memᴰ owner lease now q t m =
    subst (λ v. Memᴰ v (map (change (has_id t.id) (claim_row owner lease now)) q.tasks)) hit
      (change-Memᴰ (has_id t.id) (claim_row owner lease now) q.tasks t m)
  where
    hit : change (has_id t.id) (claim_row owner lease now) t ≡ claim_row owner lease now t
    hit = rw (==_refl t.id)

-- Two workers that are both answered, one claim right after the other, whatever they ask for and
-- whenever, are handed different tasks, if ids are unique in between.
pub claim_twice :
    (owner other : String) (kinds more : List String) (lease long : ℤ) (now later : ℕ)
    (epoch_of epochs_later : ℕ → Option ℕ) (locked locked_later : ℕ → Bool) (q q' q'' : Queue)
    (t u : Task)
    → Unique (λ (v : Task). v.id) q'.tasks
    → claim owner kinds lease now epoch_of locked q ≡ (q', ok t)
    → claim other more long later epochs_later locked_later q' ≡ (q'', ok u)
    → t.id ≢ u.id
claim_twice owner other kinds more lease long now later epoch_of epochs_later locked locked_later q
      q' q'' t u unique h k same =
    let (a, first_claim) = claim-ok owner kinds lease now epoch_of locked q q' t h in
    let (b, second) = claim-ok other more long later epochs_later locked_later q' q'' u k in
    let kept = claim_row-same owner (positive_or minute lease) now a in
    let kept' = claim_row-same other (positive_or minute long) later b in
    let parts = runnable-parts more later epochs_later locked_later b second.fit in
    let here : Memᴰ (claim_row owner (positive_or minute lease) now a) q'.tasks =
      rw first_claim.left
        (claimed-Memᴰ owner (positive_or minute lease) now q a first_claim.listed) in
    let one : claim_row owner (positive_or minute lease) now a ≡ b =
      Unique-eq _ q'.tasks _ b unique here second.listed (
        ap (λ (v : Task). v.id) (sym first_claim.taken)
        ∙ same
        ∙ ap (λ (v : Task). v.id) second.taken
        ∙ kept'.0) in
    let idle : is_waiting b.status ≡ true = parts.0 in
    absurd (ground (arith, ap (λ (v : Task). v.status) one))
