-- ===== src/Release/Rollouts.antt =====
-- `CreateRollout` of go/internal/ops/releases.go: a rollout that is made covers every machine it names.
use mathlib.Core.List.{Memᴰ}
use ai_env_mgr.Base.{
  ℕ, ◌+◌, String, ◌≡◌, ◌≢◌, refl, sym, ap, ◌∙◌, subst, Bool, true, false, not, ◌&&◌, Option, none,
  some, List, [], ◌∷◌, ◌++◌, arith, first-some, first-none_of_All, inl, inr, Option-cases, first,
  first-none, All-Memᴰ, eq_iff, str_eq, update_where, change, change-Memᴰ,
}
use ai_env_mgr.Task.{Task, Result, ok, err}
use ai_env_mgr.Queue.{Queue}
use ai_env_mgr.Release.{
  Artifact, Target, Device, Store, duplicate, Ran, done, refused, Refusal, Tx, go_on, found,
  refuse_if, Call, committed,
}
use ai_env_mgr.Release.Rows.{
  is_pending, open_in, create_target, insert_target, new_target, replaced_row, last_generation,
}
use ai_env_mgr.Release.Moves.{none_open}
use ai_env_mgr.Release.Orderly.{append-Memᴰ}
use ai_env_mgr.Release.Service.{enqueue_export, enqueued, audit_target, aim, roll_out_to}
use ai_env_mgr.Version.{agent_can_take_targets, is_older}

-- What a transaction that got through went through.
pub go_on-done :
    {A B : Type 0} (r : Ran A) (k : A → Tx B) (b : B) (s' : Store)
    → go_on r k ≡ done b s'
    → (a : A) × (s : Store) × (r ≡ done a s) × (k a s ≡ done b s')
unfolding go_on
go_on-done (done a s) k b s' h = (a, s, refl, h)
go_on-done (refused e) k b s' h = absurd (ground arith)

pub refuse_if-done :
    (b : Bool) (e : Refusal) (u : Unit {0}) (s s' : Store)
    → refuse_if b e s ≡ done u s'
    → (b ≡ false) × (s' ≡ s)
refuse_if-done true e u s s' h = absurd (ground arith)
refuse_if-done false e u s s' h = (refl, ground arith)

pub found-done :
    {A : Type 0} (o : Option A) (a : A) (s s' : Store)
    → found o s ≡ done a s'
    → (o ≡ some a) × (s' ≡ s)
found-done none a s s' h = absurd (ground arith)
found-done (some b) a s s' h = (ground arith, ground arith)

-- The rows after the first statement of `CreateTarget`.
abbrev pub replaced_targets : ℕ → String → ℕ → Store → List Target
replaced_targets device product now s =
    update_where (open_in device product) (replaced_row now) s.targets

-- The row that it inserts.
abbrev pub opened : ℕ → String → ℕ → ℕ → ℕ → Store → Target
opened device product artifact rollout now s =
    new_target s.next_id device product artifact rollout
      (last_generation device product (replaced_targets device product now s) + 1) now

-- `CreateTarget` with nothing between its two statements: the first clears what the unique index
-- forbids.
pub create_target-done :
    (device artifact rollout now : ℕ) (product : String) (s : Store)
    → create_target device product artifact rollout now s
      ≡ done (opened device product artifact rollout now s) (record s {
        targets =
            replaced_targets device product now s
            ++ opened device product artifact rollout now s ∷ [];
        next_id = s.next_id + 1;
      })
unfolding create_target insert_target new_target
create_target-done device artifact rollout now product s = rw (
  first-none_of_All (open_in device product) (replaced_targets device product now s)
      (none_open device now product s.targets),
  create_target,
  insert_target,
)

last-Memᴰ : (ts : List Target) (t : Target) → Memᴰ t (ts ++ t ∷ [])
last-Memᴰ [] t = Memᴰ.head refl
last-Memᴰ (x ∷ xs) t = Memᴰ.tail (last-Memᴰ xs t)

-- `CreateTarget` with nothing between its two statements supersedes the open targets of the machine and
-- product and appends its own; and in the tables that it leaves, the second statement of another
-- `CreateTarget` for the same machine and product, which did its clearing before, is refused as a
-- duplicate.
pub create_target-race :
    (device artifact rollout now : ℕ) (product : String) (s s' : Store) (late : Target)
    → late.device_id ≡ device
    → late.product ≡ product
    → s' ≡ record s {
      targets =
          replaced_targets device product now s
          ++ opened device product artifact rollout now s ∷ [];
      next_id = s.next_id + 1;
    }
    → (create_target device product artifact rollout now s
        ≡ done (opened device product artifact rollout now s) s')
      × (insert_target late s' ≡ refused duplicate)
unfolding insert_target new_target
create_target-race device artifact rollout now product s s' late d p after = (
  create_target-done device artifact rollout now product s ∙ rw after refl,
  elim (Option-cases (first (open_in late.device_id late.product) s'.targets)) [
    | inr (other, e) ↦ rw (e, insert_target)
    | inl e ↦
        let new = opened device product artifact rollout now s in
        let there : Memᴰ new s'.targets = rw after (last-Memᴰ _ new) in
        let missed = All-Memᴰ _ s'.targets new (first-none _ s'.targets e) there in
        absurd (ground (arith, missed, d, p, eq_iff new.product late.product))
  ],
)

enqueued-same :
    (r : Queue × Result (Task × Bool)) (u : Unit {0}) (s s' : Store)
    → enqueued r s ≡ done u s'
    → (s'.targets ≡ s.targets) × (s'.devices ≡ s.devices)
enqueued-same (q, err e) u s s' h = absurd (ground arith)
enqueued-same (q, ok t) u s s' h =
    let same : s' ≡ record s { queue = q; next_id = s.next_id + 1 } = ground arith in
    rw same (refl, refl)

enqueue_export-same :
    (c : Call) (d : Device) (marker : String) (u : Unit {0}) (s s' : Store)
    → enqueue_export c d marker s ≡ done u s'
    → (s'.targets ≡ s.targets) × (s'.devices ≡ s.devices)
unfolding enqueue_export
enqueue_export-same c d marker u s s' h = enqueued-same _ u s s' h

pub aim-targets :
    (c : Call) (a : Artifact) (rollout : ℕ) (d : Device) (t : Target) (s s' : Store)
    → aim c a rollout d s ≡ done t s'
    → (s'.targets
        ≡ replaced_targets d.id a.product c.now s
          ++ opened d.id a.product a.id rollout c.now s ∷ [])
      × (s'.devices ≡ s.devices)
unfolding aim
aim-targets c a rollout d t s s' h =
    let (made, s1, e1, h1) = go_on-done _ _ t s' h in
    let (u, s2, e2, h2) = go_on-done _ _ t s' h1 in
    let same = enqueue_export-same c d _ u s1 s2 e2 in
    let last : s' ≡ s2 = ground arith in
    let one = ap (committed s) (sym e1 ∙ create_target-done d.id a.id rollout c.now a.product s) in
    (
      rw last (same.0 ∙ ap (λ (x : Store). x.targets) one),
      rw last (same.1 ∙ ap (λ (x : Store). x.devices) one),
    )

-- The machine has a pending target of this rollout for this artifact.
abbrev pub Served : Artifact → ℕ → ℕ → List Target → Type 0
Served a rollout device ts =
    (t : Target) × Memᴰ t ts
    × (t.device_id ≡ device)
    × (t.product ≡ a.product)
    × (t.artifact_id ≡ a.id)
    × (t.rollout_id ≡ rollout)
    × (is_pending t.status ≡ true)

opened-Served :
    (device now rollout : ℕ) (a : Artifact) (s : Store)
    → Served a rollout device
        (replaced_targets device a.product now s ++ opened device a.product a.id rollout now s ∷ [])
unfolding new_target
opened-Served device now rollout a s =
    (opened device a.product a.id rollout now s, last-Memᴰ _ _, refl, refl, refl, refl, refl)

other-Served :
    (device other now rollout : ℕ) (a : Artifact) (s : Store) (new : Target)
    → other ≢ device
    → Served a rollout device s.targets
    → Served a rollout device (replaced_targets other a.product now s ++ new ∷ [])
other-Served device other now rollout a s new ne (t, m, d, p, i, r, o) =
    let apart : open_in other a.product t ≡ false = ground arith in
    let stays : change (open_in other a.product) (replaced_row now) t ≡ t = rw apart in
    let there = change-Memᴰ (open_in other a.product) (replaced_row now) s.targets t m in
    (
      t,
      append-Memᴰ t new (replaced_targets other a.product now s)
          (subst (λ v. Memᴰ v (replaced_targets other a.product now s)) stays there),
      d,
      p,
      i,
      r,
      o,
    )

-- A machine that the rollout may aim at.
abbrev pub Fit : Artifact → ℕ → List Device → Type 0
Fit a id ds =
    (d : Device) × Memᴰ d ds
    × (d.id ≡ id)
    × (d.is_revoked ≡ false)
    × (agent_can_take_targets d.agent_version ≡ true)
    × ((not (str_eq a.min_agent_version "") && is_older d.agent_version a.min_agent_version)
        ≡ false)

pub roll_out_to-done :
    (c : Call) (a : Artifact) (rollout id : ℕ) (u : Unit {0}) (s s' : Store)
    → roll_out_to c a rollout id s ≡ done u s'
    → Fit a id s.devices
      × (s'.devices ≡ s.devices)
      × Served a rollout id s'.targets
      × ((other : ℕ)
          → id ≢ other
          → Served a rollout other s.targets
          → Served a rollout other s'.targets)
unfolding roll_out_to audit_target
roll_out_to-done c a rollout id u s s' h =
    let (d, s1, e1, h1) = go_on-done _ _ u s' h in
    let (u2, s2, e2, h2) = go_on-done _ _ u s' h1 in
    let (u3, s3, e3, h3) = go_on-done _ _ u s' h2 in
    let (u4, s4, e4, h4) = go_on-done _ _ u s' h3 in
    let (t, s5, e5, h5) = go_on-done _ _ u s' h4 in
    let (got, q1) = found-done _ d s s1 e1 in
    let (not_revoked, q2) = refuse_if-done _ _ u2 s1 s2 e2 in
    let (able, q3) = refuse_if-done _ _ u3 s2 s3 e3 in
    let (new_enough, q4) = refuse_if-done _ _ u4 s3 s4 e4 in
    let back : s4 ≡ s = q4 ∙ q3 ∙ q2 ∙ q1 in
    let (is_it, listed) = first-some _ s.devices d got in
    let same : d.id ≡ id = ground arith in
    let (rows, machines) =
      aim-targets c a rollout d t s s5 (ap (λ x. aim c a rollout d x) (sym back) ∙ e5) in
    let logged = sym (ap (committed s) h5) in
    let rows' : s'.targets ≡ _ = ap (λ (x : Store). x.targets) logged ∙ rows in
    let machines' : s'.devices ≡ s.devices = ap (λ (x : Store). x.devices) logged ∙ machines in
    (
      (d, listed, same, not_revoked, ground arith, new_enough),
      machines',
      subst (λ v. Served a rollout v s'.targets) same
          (rw rows' (opened-Served d.id c.now rollout a s)),
      λ other ne served.
          rw rows' (other-Served other d.id c.now rollout a s _ (λ e. ne (sym same ∙ e)) served),
    )
