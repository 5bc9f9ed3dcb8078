-- ===== src/Release/Settled.antt =====
-- A report and the version library move the table of targets by `Moves` too: go/internal/worker/settle.go
-- and the artifacts of go/internal/ops/releases.go.
use ai_env_mgr.Base.{
  ℕ, String, inl, inr, Bool, Option, none, some, List, Bool-cases, Option-cases, str_eq, ltb, first,
  ◌==◌,
}
use ai_env_mgr.Release.{
  Artifact, ArtifactStatus, NewArtifact, Target, Rollout, Store, Refusal, Ran, done, refused, Call,
  committed,
}
use ai_env_mgr.Release.Rows.{create_artifact, update_artifact, names}
use ai_env_mgr.Release.Moves.{Moves, stay, Moves-trans}
use ai_env_mgr.Release.Kept.{
  Moved, go_on-Moved, found-Moved, refuse_if-Moved, finish_target-Moved, release_succeeded-Moved,
  in_tx-Moves,
}
use ai_env_mgr.Release.Operations.{enqueue_export-Moved}
use ai_env_mgr.Release.Service.{is_private, audit_target}
use ai_env_mgr.Release.Settle.{
  Claim, Report, says_failed, reexport_device, release_if_global, after_success, settle_target,
  with_artifact, settle_open, settle_product, settle_at, settle_targets, unless_failed, about_agent,
  about_codex,
}
use ai_env_mgr.Release.Library.{
  register_or_read, register_artifact, change_status, rewrite_notes, notes_for, change_notes,
}

committed-Moves :
    {A : Type 0} (s : Store) (r : Ran A) → Moved s r → Moves s.targets (committed s r).targets
committed-Moves s (done a s') h = h
committed-Moves s (refused e) h = stay

reexport-Moved :
    (c : Call) (device target : ℕ) (s : Store) → Moved s (reexport_device c device target s)
unfolding reexport_device
reexport-Moved c device target s =
    go_on-Moved s _ _ (found-Moved _ s) (λ d s'. enqueue_export-Moved c d _ s')

pub release_if_global-Moves :
    (c : Call) (device : ℕ) (product : String) (target : ℕ) (o : Option Rollout) (s : Store)
    → Moves s.targets (release_if_global c device product target o s).0.targets
release_if_global-Moves c device product target none s = stay
release_if_global-Moves c device product target (some ro) s =
    elim (Bool-cases (is_private ro.kind)) [
      | inl h ↦ rw h stay
      | inr h ↦ rw h (
          Moves-trans s.targets _ _
            (committed-Moves s _ (release_succeeded-Moved device product c.now s))
            (committed-Moves _ _ (reexport-Moved c device target _)))
    ]

after_success-Moves :
    (c : Call) (device : ℕ) (product : String) (rollout : ℕ) (s : Store) (r : Ran Target)
    → Moved s r
    → Moves s.targets (after_success c device product rollout s r).0.targets
unfolding after_success
after_success-Moves c device product rollout s (refused e) h = stay
after_success-Moves c device product rollout s (done t s') h =
    Moves-trans s.targets s'.targets _ h (release_if_global-Moves c device product t.id _ s')

settle_target-Moves :
    (c : Call) (device : ℕ) (k : Claim) (errors : List String) (t : Target) (a : Artifact)
    (s : Store)
    → Moves s.targets (settle_target c device k errors t a s).0.targets
unfolding settle_target
settle_target-Moves c device k errors t a s = elim (Bool-cases (str_eq k.running a.version)) [
  | inl h ↦ rw h (
      after_success-Moves c device k.product t.rollout_id s _
        (finish_target-Moved t.id _ "" k.running c.now s))
  | inr h ↦ elim (Bool-cases (says_failed k a t)) [
    | inl g ↦ rw (h, g) (committed-Moves s _ (finish_target-Moved t.id _ _ k.running c.now s))
    | inr g ↦ rw (h, g) stay
  ]
]

with_artifact-Moves :
    (c : Call) (device : ℕ) (k : Claim) (errors : List String) (t : Target) (o : Option Artifact)
    (s : Store)
    → Moves s.targets (with_artifact c device k errors t o s).0.targets
with_artifact-Moves c device k errors t none s = stay
with_artifact-Moves c device k errors t (some a) s = settle_target-Moves c device k errors t a s

settle_open-Moves :
    (c : Call) (device at : ℕ) (k : Claim) (errors : List String) (o : Option Target) (s : Store)
    → Moves s.targets (settle_open c device at k errors o s).0.targets
settle_open-Moves c device at k errors none s = stay
settle_open-Moves c device at k errors (some t) s = elim (Bool-cases (ltb t.created_at at)) [
  | inl h ↦ rw h (with_artifact-Moves c device k errors t _ s)
  | inr h ↦ rw h stay
]

settle_product-Moves :
    (c : Call) (device at : ℕ) (errors : List String) (k : Claim) (s : Store)
    → Moves s.targets (settle_product c device at errors k s).0.targets
unfolding settle_product
settle_product-Moves c device at errors k s = settle_open-Moves c device at k errors _ s

unless_failed-Moves :
    (s : Store) (r : Store × Option Refusal) (k : Store → Store × Option Refusal)
    → Moves s.targets r.0.targets
    → ((s' : Store) → Moves s'.targets (k s').0.targets)
    → Moves s.targets (unless_failed r k).0.targets
unless_failed-Moves s (s', some e) k h next = h
unless_failed-Moves s (s', none) k h next = Moves-trans s.targets s'.targets _ h (next s')

settle_at-Moves :
    (c : Call) (device : ℕ) (r : Report) (o : Option ℕ) (s : Store)
    → Moves s.targets (settle_at c device r o s).0.targets
unfolding settle_at
settle_at-Moves c device r none s = stay
settle_at-Moves c device r (some at) s =
    unless_failed-Moves s _ _ (settle_product-Moves c device at r.errors (about_agent r) s)
      (settle_product-Moves c device at r.errors (about_codex r))

pub settle_targets-Moves :
    (c : Call) (device : ℕ) (r : Report) (s : Store)
    → Moves s.targets (settle_targets c device r s).0.targets
settle_targets-Moves c device r s = settle_at-Moves c device r r.reported_at s

create_artifact-Moved : (n : NewArtifact) (now : ℕ) (s : Store) → Moved s (create_artifact n now s)
unfolding create_artifact
create_artifact-Moved n now s =
    elim (Option-cases (first (names n.product n.version) s.artifacts)) [
      | inl h ↦ rw (h, create_artifact) stay
      | inr (a, h) ↦ rw (h, create_artifact) tt
    ]

update_artifact-Moved :
    (id : ℕ) (f : Artifact → Artifact) (s : Store) → Moved s (update_artifact id f s)
unfolding update_artifact
update_artifact-Moved id f s = elim (Option-cases (first (λ a. a.id == id) s.artifacts)) [
  | inl h ↦ rw (h, update_artifact) tt
  | inr (a, h) ↦ rw (h, update_artifact) stay
]

register_or_read-Moved :
    (c : Call) (equal_fold : String → String → Bool) (n : NewArtifact) (o : Option Artifact)
    (s : Store)
    → Moved s (register_or_read c equal_fold n o s)
unfolding register_or_read audit_target
register_or_read-Moved c equal_fold n (some old) s =
    go_on-Moved s _ _ (refuse_if-Moved _ _ s) (λ _ s'. stay)
register_or_read-Moved c equal_fold n none s =
    go_on-Moved s _ _ (create_artifact-Moved n c.now s)
      (λ a s1. go_on-Moved s1 _ _ stay (λ _ s2. stay))

pub register_artifact-Moves :
    (c : Call) (equal_fold : String → String → Bool) (n : NewArtifact) (s : Store)
    → Moves s.targets (register_artifact c equal_fold n s).0.targets
unfolding register_artifact
register_artifact-Moves c equal_fold n s = in_tx-Moves _ s (
    go_on-Moved s _ _ (refuse_if-Moved _ _ s) (λ _ s1.
      go_on-Moved s1 _ _ (refuse_if-Moved _ _ s1)
        (λ _ s2. go_on-Moved s2 _ _ stay (λ o s3. register_or_read-Moved c equal_fold n o s3))))

pub change_status-Moves :
    (c : Call) (id : ℕ) (status : ArtifactStatus) (note : String) (s : Store)
    → Moves s.targets (change_status c id status note s).0.targets
unfolding change_status audit_target
change_status-Moves c id status note s = in_tx-Moves _ s (
    go_on-Moved s _ _ (found-Moved _ s) (λ old s1.
      go_on-Moved s1 _ _ (update_artifact-Moved id _ s1)
        (λ a s2. go_on-Moved s2 _ _ stay (λ _ s3. stay))))

rewrite_notes-Moved :
    (c : Call) (id : ℕ) (notes : String) (old : Artifact) (s : Store)
    → Moved s (rewrite_notes c id notes old s)
unfolding rewrite_notes audit_target
rewrite_notes-Moved c id notes old s = elim (Bool-cases (str_eq old.notes notes)) [
  | inl h ↦ rw h stay
  | inr h ↦ rw h (go_on-Moved s _ _ (update_artifact-Moved id _ s) (λ a s'. stay))
]

pub change_notes-Moves :
    (c : Call) (id : ℕ) (notes : String) (s : Store)
    → Moves s.targets (change_notes c id notes s).0.targets
unfolding change_notes notes_for
change_notes-Moves c id notes s = in_tx-Moves _ s (
    go_on-Moved s _ _ (refuse_if-Moved _ _ s)
      (λ _ s1. go_on-Moved s1 _ _ (found-Moved _ s1) (λ old s2. rewrite_notes-Moved c id _ old s2)))
