-- ===== src/Release/Rows.antt =====
-- The statements of go/internal/dbstore/releases.go.
use Prim.Native.Nat.{max}
use ai_env_mgr.Base.{
  ℕ, zero, ◌+◌, String, Bool, true, false, not, ◌&&◌, Option, none, some, List, [], ◌∷◌, ◌++◌,
  str_eq, ◌==◌, if◌then◌else◌, update_where, select, first, affected, ltb, is_some,
}
use ai_env_mgr.Release.{
  ArtifactStatus, candidate, accepted, stable, Artifact, NewArtifact, Rollout, NewRollout,
  TargetStatus, pending, succeeded, cancelled, superseded, excluded, Target, Store, Refusal,
  not_found, conflict, duplicate, not_terminal, done, refused, Tx, found,
}

abbrev pub is_pending : TargetStatus → Bool
is_pending pending = true
is_pending _ = false

abbrev pub is_succeeded : TargetStatus → Bool
is_succeeded succeeded = true
is_succeeded _ = false

abbrev pub is_excluded : TargetStatus → Bool
is_excluded excluded = true
is_excluded _ = false

-- `status in ('accepted', 'stable')`.
abbrev pub is_approved : ArtifactStatus → Bool
is_approved accepted = true
is_approved stable = true
is_approved _ = false

abbrev pub names : String → String → Artifact → Bool
names product version a = str_eq a.product product && str_eq a.version version

-- The insert, with the unique key on product and version.
unfoldable pub create_artifact : NewArtifact → ℕ → Tx Artifact
create_artifact n now s = elim (first (names n.product n.version) s.artifacts) [
  | some old ↦ refused duplicate
  | none ↦
      let a : Artifact = record {
        id = s.next_id;
        product = n.product;
        version = n.version;
        sha256 = n.sha256;
        size_bytes = n.size_bytes;
        object_key = n.object_key;
        status = candidate;
        notes = n.notes;
        source = n.source;
        min_agent_version = n.min_agent_version;
        acceptance_note = "";
        accepted_by = "";
        accepted_at = none;
        created_by = n.created_by;
        created_at = now;
        updated_at = now;
      } in
      done a (record s { artifacts = s.artifacts ++ a ∷ []; next_id = s.next_id + 1 })
]

abbrev pub artifact_by_id : ℕ → Tx Artifact
artifact_by_id id s = found (first (λ a. a.id == id) s.artifacts) s

abbrev pub artifact_by_version : String → String → Tx Artifact
artifact_by_version product version s = found (first (names product version) s.artifacts) s

unfoldable pub status_row : ArtifactStatus → String → String → ℕ → Artifact → Artifact
status_row status note by now a = record a {
  status = status;
  acceptance_note = if is_approved status then note else a.acceptance_note;
  accepted_by = if is_approved status && not (is_some a.accepted_at) then by else a.accepted_by;
  accepted_at =
      if is_approved status && not (is_some a.accepted_at) then some now else a.accepted_at;
  updated_at = now;
}

-- `update release_artifacts set ... where id = $1 returning`.
unfoldable pub update_artifact : ℕ → (Artifact → Artifact) → Tx Artifact
update_artifact id f s = elim (first (λ a. a.id == id) s.artifacts) [
  | none ↦ refused not_found
  | some a ↦ done (f a) (record s { artifacts = update_where (λ b. b.id == id) f s.artifacts })
]

abbrev pub set_artifact_status : ℕ → ArtifactStatus → String → String → ℕ → Tx Artifact
set_artifact_status id status note by now = update_artifact id (status_row status note by now)

abbrev pub set_artifact_notes : ℕ → String → ℕ → Tx Artifact
set_artifact_notes id notes now =
    update_artifact id (λ a. record a { notes = notes; updated_at = now })

unfoldable pub create_rollout_row : NewRollout → ℕ → Tx Rollout
create_rollout_row n now s =
    let ro : Rollout = record {
      id = s.next_id;
      product = n.product;
      artifact_id = n.artifact_id;
      kind = n.kind;
      rollback_of = n.rollback_of;
      note = n.note;
      created_by = n.created_by;
      created_at = now;
      paused_at = none;
      paused_by = "";
    } in
    done ro (record s { rollouts = s.rollouts ++ ro ∷ []; next_id = s.next_id + 1 })

abbrev pub rollout_by_id : ℕ → Tx Rollout
rollout_by_id id s = found (first (λ r. r.id == id) s.rollouts) s

abbrev paused_row : Bool → String → ℕ → Rollout → Rollout
paused_row paused by now r = record r {
  paused_at = if paused then some now else none;
  paused_by = if paused then by else "";
}

unfoldable pub pause_rollout : ℕ → Bool → String → ℕ → Tx Rollout
pause_rollout id paused by now s = elim (first (λ r. r.id == id) s.rollouts) [
  | none ↦ refused not_found
  | some r ↦
      done (paused_row paused by now r) (record s {
        rollouts = update_where (λ x. x.id == id) (paused_row paused by now) s.rollouts;
      })
]

-- `device_id = $1 and product = $2`.
abbrev pub of_slot : ℕ → String → Target → Bool
of_slot device product t = (t.device_id == device) && str_eq t.product product

abbrev pub open_in : ℕ → String → Target → Bool
open_in device product t = of_slot device product t && is_pending t.status

abbrev pub taken_in : ℕ → String → Target → Bool
taken_in device product t =
    of_slot device product t && (is_succeeded t.status && not (is_some t.released_at))

unfoldable pub replaced_row : ℕ → Target → Target
replaced_row now t = record t {
  status = superseded;
  finished_at = some now;
  updated_at = now;
  result_note = "replaced by a newer target";
}

abbrev higher : ℕ → String → Target → ℕ → ℕ
higher device product t n = if of_slot device product t then max t.generation n else n

-- `coalesce(max(generation), 0)`.
unfoldable pub last_generation : ℕ → String → List Target → ℕ
last_generation device product [] = zero
last_generation device product (t ∷ ts) =
    higher device product t (last_generation device product ts)

unfoldable pub new_target : ℕ → ℕ → String → ℕ → ℕ → ℕ → ℕ → Target
new_target fresh device product artifact rollout generation now = record {
  id = fresh;
  device_id = device;
  product = product;
  artifact_id = artifact;
  rollout_id = rollout;
  generation = generation;
  status = pending;
  result_note = "";
  reported_version = "";
  exclude_reason = "";
  created_at = now;
  updated_at = now;
  finished_at = none;
  released_at = none;
}

-- The insert, with the partial unique index on pending targets.
unfoldable pub insert_target : Target → Tx Target
insert_target t s = elim (first (open_in t.device_id t.product) s.targets) [
  | some other ↦ refused duplicate
  | none ↦ done t (record s { targets = s.targets ++ t ∷ []; next_id = s.next_id + 1 })
]

unfoldable pub create_target : ℕ → String → ℕ → ℕ → ℕ → Tx Target
create_target device product artifact rollout now s =
    let rows = update_where (open_in device product) (replaced_row now) s.targets in
    insert_target
      (new_target s.next_id device product artifact rollout
        (last_generation device product rows + 1) now)
      (record s { targets = rows })

abbrev pub open_target : ℕ → String → Store → Option Target
open_target device product s = first (open_in device product) s.targets

abbrev newer : Target → Option Target → Option Target
newer t none = some t
newer t (some u) = if ltb t.generation u.generation then some u else some t

-- `order by generation desc limit 1`.
unfoldable pub newest : List Target → Option Target
newest [] = none
newest (t ∷ ts) = newer t (newest ts)

abbrev pub last_succeeded : ℕ → String → Store → Option Target
last_succeeded device product s = newest (select (taken_in device product) s.targets)

unfoldable pub released_row : ℕ → Target → Target
released_row now t = record t { released_at = some now; updated_at = now }

unfoldable pub release_succeeded : ℕ → String → ℕ → Tx ℕ
release_succeeded device product now s =
    done (affected (taken_in device product) s.targets)
      (record s { targets = update_where (taken_in device product) (released_row now) s.targets })

abbrev pub target_by_id : ℕ → Tx Target
target_by_id id s = found (first (λ t. t.id == id) s.targets) s

abbrev pub targets_by_rollout : ℕ → Store → List Target
targets_by_rollout id s = select (λ t. t.rollout_id == id) s.targets

abbrev pub open_id : ℕ → Target → Bool
open_id id t = (t.id == id) && is_pending t.status

unfoldable pub finished_row : TargetStatus → String → String → ℕ → Target → Target
finished_row status note reported now t = record t {
  status = status;
  result_note = note;
  reported_version = reported;
  exclude_reason = if is_excluded status then note else t.exclude_reason;
  finished_at = some now;
  updated_at = now;
}

-- An update that found no row: the target is settled already, or there is none.
abbrev pub stale : Option Target → Refusal
stale (some t) = conflict
stale none = not_found

unfoldable pub finish_target : ℕ → TargetStatus → String → String → ℕ → Tx Target
finish_target id status note reported now s =
    if is_pending status then refused not_terminal else elim (first (open_id id) s.targets) [
      | some t ↦ done (finished_row status note reported now t) (record s {
        targets = update_where (open_id id) (finished_row status note reported now) s.targets;
      })
      | none ↦ refused (stale (first (λ t. t.id == id) s.targets))
    ]

unfoldable pub cancelled_row : ℕ → Target → Target
cancelled_row now t = record t {
  status = cancelled;
  result_note = "cancelled before the machine started";
  finished_at = some now;
  updated_at = now;
}

abbrev pub open_of : ℕ → Target → Bool
open_of rollout t = (t.rollout_id == rollout) && is_pending t.status

unfoldable pub cancel_pending : ℕ → ℕ → Tx ℕ
cancel_pending rollout now s =
    done (affected (open_of rollout) s.targets)
      (record s { targets = update_where (open_of rollout) (cancelled_row now) s.targets })
