-- ===== src/Release/Reported.antt =====
-- When a report settles a target, and how: `SettleTargets` of go/internal/worker/settle.go for one
-- product.
use mathlib.Core.List.{Memᴰ}
use ai_env_mgr.Base.{
  ℕ, ◌<◌, String, ◌≡◌, refl, subst, inl, inr, true, false, some, List, ◌⊎◌, arith, Bool-cases,
  Option-cases, str_eq, eq_iff, ltb, first, first-some, first-none, ◌==◌, All-Memᴰ, update_where,
  change-Memᴰ,
}
use ai_env_mgr.Release.{Artifact, Target, TargetStatus, succeeded, failed, Store, done, Call}
use ai_env_mgr.Release.Rows.{is_pending, open_target, open_id, finish_target, finished_row}
use ai_env_mgr.Release.Orderly.{Moves-Kept}
use ai_env_mgr.Release.Settle.{
  Claim, says_failed, first_error, release_if_global, after_success, settle_target, settle_product,
}
use ai_env_mgr.Release.Settled.{release_if_global-Moves}

-- The target is on record with this status, under its id and generation.
abbrev pub Closed : TargetStatus → Target → Store → Type 0
Closed status t s =
    (u : Target) × Memᴰ u s.targets
    × (u.id ≡ t.id)
    × (u.generation ≡ t.generation)
    × (u.status ≡ status)

finish_target-open :
    (status : TargetStatus) (note reported : String) (now : ℕ) (t : Target) (s : Store)
    → is_pending status ≡ false
    → Memᴰ t s.targets
    → is_pending t.status ≡ true
    → (u : Target) × (s' : Store) × (finish_target t.id status note reported now s ≡ done u s')
      × Memᴰ (finished_row status note reported now t) s'.targets
unfolding finish_target
finish_target-open status note reported now t s p m o =
    elim (Option-cases (first (open_id t.id) s.targets)) [
      | inl h ↦
          let shut = All-Memᴰ _ s.targets t (first-none _ s.targets h) m in absurd (ground arith)
      | inr (u, h) ↦
          let mine : open_id t.id t ≡ true = ground arith in
          (
            finished_row status note reported now u,
            record s {
              targets =
                  update_where (open_id t.id) (finished_row status note reported now) s.targets;
            },
            rw (p, h, finish_target),
            subst
                (λ v.
                  Memᴰ v
                    (update_where (open_id t.id) (finished_row status note reported now) s.targets))
                (rw mine)
                (change-Memᴰ (open_id t.id) (finished_row status note reported now) s.targets t m),
          )
    ]

-- What settles `t`, and how it is left.
abbrev pub Outcome : ℕ → Claim → Target → Artifact → Store → Type 0
Outcome at k t a s' =
    (t.created_at < at)
    × (((k.running ≡ a.version) × Closed succeeded t s')
        ⊎ ((k.target ≡ a.version)
            × (k.generation ≡ t.generation)
            × (k.state ≡ "failed")
            × Closed failed t s'))

settle_target-cases :
    (c : Call) (device at : ℕ) (k : Claim) (errors : List String) (t : Target) (a : Artifact)
    (s : Store)
    → t.created_at < at
    → Memᴰ t s.targets
    → is_pending t.status ≡ true
    → ((settle_target c device k errors t a s).0 ≡ s)
      ⊎ Outcome at k t a (settle_target c device k errors t a s).0
unfolding settle_target after_success finished_row
settle_target-cases c device at k errors t a s late m o =
    elim (Bool-cases (str_eq k.running a.version)) [
      | inl h ↦
          let (u, s1, e, n) = finish_target-open succeeded "" k.running c.now t s refl m o in
          let closed : Closed succeeded t
              (release_if_global c device k.product u.id
                (first (λ r. r.id == t.rollout_id) s1.rollouts) s1).0 =
            Moves-Kept s1.targets _ _ (release_if_global-Moves c device k.product u.id _ s1) n
              refl in
          inr (
            late,
            inl (
              ground (arith, eq_iff k.running a.version),
              rw (h, e, settle_target, after_success) closed,
            ),
          )
      | inr h ↦ elim (Bool-cases (says_failed k a t)) [
        | inr g ↦ inl (rw (h, g, settle_target))
        | inl g ↦
            let (u, s1, e, n) =
              finish_target-open failed (first_error errors k.prefix) k.running c.now t s refl m
                o in
            inr (
              late,
              inr (
                ground (arith, eq_iff k.target a.version),
                ground arith,
                ground (arith, eq_iff k.state "failed"),
                rw (h, g, e, settle_target) (_, n, refl, refl, refl),
              ),
            )
      ]
    ]

-- A report about a product either leaves the store as it was, or settles the open target of the
-- machine for it, which was made before the report: as succeeded if the machine runs the version of
-- the target's artifact, or as failed if it says that it failed at that version in that generation.
pub settle_product-cases :
    (c : Call) (device at : ℕ) (errors : List String) (k : Claim) (s : Store)
    → ((settle_product c device at errors k s).0 ≡ s)
      ⊎ ((t : Target) × (a : Artifact) × (open_target device k.product s ≡ some t)
          × (first (λ x. x.id == t.artifact_id) s.artifacts ≡ some a)
          × Outcome at k t a (settle_product c device at errors k s).0)
unfolding settle_product
settle_product-cases c device at errors k s = elim (Option-cases (open_target device k.product s)) [
  | inl e ↦ inl (rw (e, settle_product))
  | inr (t, e) ↦ elim (Bool-cases (ltb t.created_at at)) [
    | inr h ↦ inl (rw (e, h, settle_product))
    | inl h ↦ elim (Option-cases (first (λ x. x.id == t.artifact_id) s.artifacts)) [
      | inl g ↦ inl (rw (e, h, g, settle_product))
      | inr (a, g) ↦
          let (fits, m) = first-some _ s.targets t e in
          elim (settle_target-cases c device at k errors t a s (ground arith) m (ground arith)) [
            | inl same ↦ inl (rw (e, h, g, settle_product) same)
            | inr out ↦ inr (t, a, e, g, rw (e, h, g, settle_product) out)
          ]
    ]
  ]
]
