-- ===== src/Release/Coverage.antt =====
-- `CreateRollout` of go/internal/ops/releases.go as a whole: it is made for every machine it names,
-- or it is not made.
use mathlib.Core.List.{Memᴰ}
use native.Mathlib.Decide.{ℕ_discrete}
use ai_env_mgr.Base.{
  ℕ, ◌≡◌, ◌≢◌, refl, sym, ap, ◌∙◌, subst, inl, inr, true, false, ◌⊎◌, List, [], ◌∷◌, arith,
  Bool-cases, ◌==◌, eq_iff, first-some,
}
use ai_env_mgr.Release.{
  Artifact, Store, no_machine, Ran, done, refused, Refusal, go_on, refuse_if, Call, in_tx,
  committed, tried, Rollout,
}
use ai_env_mgr.Release.Rows.{create_rollout_row}
use ai_env_mgr.Release.Service.{
  RolloutSpec, roll_out_to, member, roll_out_all, roll_out, create_rollout, retired_status, no_ids,
}
use ai_env_mgr.Release.Rollouts.{
  go_on-done, found-done, refuse_if-done, Served, Fit, roll_out_to-done,
}

-- The machine may be aimed at, and it is.
abbrev pub Covered : Artifact → ℕ → ℕ → Store → Type 0
Covered a rollout id s = Fit a id s.devices × Served a rollout id s.targets

abbrev AllCovered : Artifact → ℕ → List ℕ → Store → Type 0
AllCovered a rollout ids s = (id : ℕ) → member id ids ≡ true → Covered a rollout id s

step-AllCovered :
    (c : Call) (a : Artifact) (rollout id : ℕ) (seen : List ℕ) (u : Unit {0}) (s s' : Store)
    → roll_out_to c a rollout id s ≡ done u s'
    → AllCovered a rollout seen s
    → (s'.devices ≡ s.devices) × AllCovered a rollout (id ∷ seen) s'
step-AllCovered c a rollout id seen u s s' h covered =
    let (fit, machines, served, others) = roll_out_to-done c a rollout id u s s' h in
    (machines, λ other m. case other m fit machines served others)
  where
    case :
        (other : ℕ)
        → member other (id ∷ seen) ≡ true
        → Fit a id s.devices
        → s'.devices ≡ s.devices
        → Served a rollout id s'.targets
        → ((x : ℕ) → id ≢ x → Served a rollout x s.targets → Served a rollout x s'.targets)
        → Covered a rollout other s'
    case other m fit machines served others = elim (ℕ_discrete id other) [
      | yes e ↦ subst (λ v. Covered a rollout v s') e (rw machines fit, served)
      | no ne ↦
          let before = covered other (ground arith) in
          (rw machines before.0, others other ne before.1)
    ]

member_skip :
    (id x : ℕ) (seen ids : List ℕ)
    → member x seen ≡ true
    → member id (x ∷ ids) ≡ true
    → member id seen ≡ false
    → member id ids ≡ true
member_skip id x seen ids h m n = elim (ℕ_discrete x id) [
  | yes e ↦
      let same : member id seen ≡ true = subst (λ v. member v seen ≡ true) e h in
      absurd (ground arith)
  | no ne ↦ ground arith
]

roll_out_all-done :
    (c : Call) (a : Artifact) (rollout : ℕ) (seen ids : List ℕ) (u : Unit {0}) (s s' : Store)
    → roll_out_all c a rollout seen ids s ≡ done u s'
    → AllCovered a rollout seen s
    → (s'.devices ≡ s.devices) × AllCovered a rollout seen s' × AllCovered a rollout ids s'
unfolding roll_out_all
roll_out_all-done c a rollout seen [] u s s' h covered =
    let last = sym (ap (committed s) h) in
    (
      ap (λ (x : Store). x.devices) last,
      subst (λ x. AllCovered a rollout seen x) (sym last) covered,
      λ id m. absurd (ground arith),
    )
roll_out_all-done c a rollout seen (x ∷ ids) u s s' h covered = elim (Bool-cases (member x seen)) [
  | inl old ↦
      let rest : roll_out_all c a rollout seen ids s ≡ done u s' = rw (old, roll_out_all) at h in
      let (machines, before, after) = roll_out_all-done c a rollout seen ids u s s' rest covered in
      (
        machines,
        before,
        λ id m. elim (Bool-cases (member id seen)) [
          | inl y ↦ before id y
          | inr n ↦ after id (member_skip id x seen ids old m n)
        ],
      )
  | inr new ↦
      let rest : go_on (roll_out_to c a rollout x s) (λ _. roll_out_all c a rollout (x ∷ seen) ids)
          ≡ done u s' =
        rw (new, roll_out_all) at h in
      let (u1, s1, e1, h1) = go_on-done _ _ u s' rest in
      let (machines, covered1) = step-AllCovered c a rollout x seen u1 s s1 e1 covered in
      let (machines1, before, after) =
        roll_out_all-done c a rollout (x ∷ seen) ids u s1 s' h1 covered1 in
      (
        machines1 ∙ machines,
        λ id m. before id (ground arith),
        λ id m. elim (Bool-cases (x == id)) [
          | inl y ↦ before id (ground arith)
          | inr n ↦ after id (ground arith)
        ],
      )
]

roll_out-done :
    (c : Call) (spec : RolloutSpec) (ro : Rollout) (s s' : Store)
    → roll_out c spec s ≡ done ro s'
    → (a : Artifact) × Memᴰ a s.artifacts
      × (a.id ≡ spec.artifact_id)
      × (a.product ≡ spec.product)
      × (retired_status a.status ≡ false)
      × (s'.devices ≡ s.devices)
      × AllCovered a ro.id spec.device_ids s'
unfolding roll_out create_rollout_row
roll_out-done c spec ro s s' h =
    let (a, s1, e1, h1) = go_on-done _ _ ro s' h in
    let (u2, s2, e2, h2) = go_on-done _ _ ro s' h1 in
    let (u3, s3, e3, h3) = go_on-done _ _ ro s' h2 in
    let (r, s4, e4, h4) = go_on-done _ _ ro s' h3 in
    let (u5, s5, e5, h5) = go_on-done _ _ ro s' h4 in
    let (got, q1) = found-done _ a s s1 e1 in
    let (of_product, q2) = refuse_if-done _ _ u2 s1 s2 e2 in
    let (not_retired, q3) = refuse_if-done _ _ u3 s2 s3 e3 in
    let back : s3 ≡ s = q3 ∙ q2 ∙ q1 in
    let (is_it, listed) = first-some _ s.artifacts a got in
    let machines4 : s4.devices ≡ s.devices =
      ap (λ (x : Store). x.devices) (sym (ap (committed s) e4))
      ∙ ap (λ (x : Store). x.devices) back in
    let none_yet : AllCovered a r.id [] s4 = λ id m. absurd (ground arith) in
    let (machines, before, after) =
      roll_out_all-done c a r.id [] spec.device_ids u5 s4 s5 e5 none_yet in
    let last : s5 ≡ s' = ap (committed s) h5 in
    let named : r ≡ ro = ground arith in
    (
      a,
      listed,
      ground arith,
      ground (arith, eq_iff a.product spec.product),
      not_retired,
      ap (λ (x : Store). x.devices) (sym last) ∙ machines ∙ machines4,
      subst (λ x. AllCovered a x.id spec.device_ids s') named
          (subst (λ x. AllCovered a r.id spec.device_ids x) last after),
    )

-- A rollout is made or it is not: refused, it leaves the store as it was. Made, it is of an artifact
-- of its product that is not retired, and every machine it names is in the fleet, not revoked, new
-- enough, and has in the end a pending target of this rollout for this artifact.
pub create_rollout-covers :
    (c : Call) (spec : RolloutSpec) (s : Store)
    → ((e : Refusal) × (create_rollout c spec s ≡ (s, refused e)))
      ⊎ ((ro : Rollout) × (s' : Store) × (create_rollout c spec s ≡ (s', done ro s'))
          × (a : Artifact) × Memᴰ a s.artifacts
          × (a.id ≡ spec.artifact_id)
          × (a.product ≡ spec.product)
          × (retired_status a.status ≡ false)
          × ((id : ℕ)
              → member id spec.device_ids ≡ true
              → Fit a id s.devices × Served a ro.id id s'.targets))
unfolding create_rollout in_tx
create_rollout-covers c spec s = outcome (whole s) refl
  where
    whole : Store → Ran Rollout
    whole s0 = go_on (refuse_if (no_ids spec.device_ids) no_machine s0) (λ _. roll_out c spec)

    outcome :
        (r : Ran Rollout)
        → whole s ≡ r
        → ((e : Refusal) × (tried s (whole s) ≡ (s, refused e)))
          ⊎ ((ro : Rollout) × (s' : Store) × (tried s (whole s) ≡ (s', done ro s'))
              × (a : Artifact) × Memᴰ a s.artifacts
              × (a.id ≡ spec.artifact_id)
              × (a.product ≡ spec.product)
              × (retired_status a.status ≡ false)
              × ((id : ℕ)
                  → member id spec.device_ids ≡ true
                  → Fit a id s.devices × Served a ro.id id s'.targets))
    outcome (refused e) h = inl (e, ap (tried s) h)
    outcome (done ro s') h =
        let (u, s1, e1, h1) = go_on-done _ _ ro s' h in
        let (some_named, q1) = refuse_if-done _ _ u s s1 e1 in
        let (a, listed, i, p, live, machines, all) =
          roll_out-done c spec ro s s' (ap (roll_out c spec) (sym q1) ∙ h1) in
        inr (
          ro,
          s',
          ap (tried s) h,
          a,
          listed,
          i,
          p,
          live,
          λ id m. (subst (λ v. Fit a id v) machines (all id m).0, (all id m).1),
        )
