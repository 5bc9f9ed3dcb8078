-- ===== src/Release/Library.antt =====
-- The version library: `RegisterArtifact`, `SetArtifactStatus` and `SetArtifactNotes` of
-- go/internal/ops/releases.go. `equal_fold` is `strings.EqualFold`.
use Prim.Native.String.{len}
use ai_env_mgr.Base.{
  ℤ, pos, negsuc, true, false, ℕ, zero, suc, String, Bool, not, ◌&&◌, ◌||◌, Option, none, some,
  str_eq, ◌==◌, leb, if◌then◌else◌, first,
}
use ai_env_mgr.Version.{trim_left, trim_right}
use ai_env_mgr.Release.{
  product_agent, product_codex, ArtifactStatus, Artifact, NewArtifact, Store, unknown_product,
  incomplete, other_package, too_long, Ran, Tx, ◌>>=◌, ◌>>◌, answer, refuse_if, in_tx, Call, gets,
}
use ai_env_mgr.Release.Rows.{
  names, artifact_by_id, create_artifact, set_artifact_status, set_artifact_notes,
}
use ai_env_mgr.Release.Service.{audit_target}

abbrev pub is_known : String → Bool
is_known product = str_eq product product_agent || str_eq product product_codex

abbrev is_positive : ℤ → Bool
is_positive (pos zero) = false
is_positive (pos (suc n)) = true
is_positive (negsuc n) = false

abbrev pub is_complete : NewArtifact → Bool
is_complete n =
    not (str_eq (trim_right (trim_left n.version)) "")
    && ((len n.sha256 == 64) && (is_positive n.size_bytes && not (str_eq n.object_key "")))

unfoldable pub register_or_read :
    Call → (String → String → Bool) → NewArtifact → Option Artifact → Tx Artifact
register_or_read c equal_fold n (some old) = do
  refuse_if (not (equal_fold old.sha256 n.sha256)) other_package
  answer old
register_or_read c equal_fold n none = do
  a ← create_artifact n c.now
  audit_target c "release.artifact_register" "artifact" a.id
  answer a

unfoldable pub register_artifact :
    Call → (String → String → Bool) → NewArtifact → Store → Store × Ran Artifact
register_artifact c equal_fold n = in_tx (do
  refuse_if (not (is_known n.product)) unknown_product
  refuse_if (not (is_complete n)) incomplete
  old ← gets (λ s. first (names n.product n.version) s.artifacts)
  register_or_read c equal_fold n old)

unfoldable pub change_status : Call → ℕ → ArtifactStatus → String → Store → Store × Ran Artifact
change_status c id status note = in_tx (do
  old ← artifact_by_id id
  a ← set_artifact_status id status note c.actor c.now
  audit_target c "release.artifact_status" "artifact" id
  answer a)

unfoldable pub rune_count : String → ℕ
rune_count String.[] = zero
rune_count (String.◌∷◌ c s) = suc (rune_count s)

unfoldable pub rewrite_notes : Call → ℕ → String → Artifact → Tx (Unit {0})
rewrite_notes c id notes old = if str_eq old.notes notes then answer tt else (do
  a ← set_artifact_notes id notes c.now
  audit_target c "release.artifact_notes" "artifact" id)

unfoldable pub notes_for : Call → ℕ → String → Tx (Unit {0})
notes_for c id notes = do
  refuse_if (not (leb (rune_count notes) 500)) too_long
  old ← artifact_by_id id
  rewrite_notes c id notes old

unfoldable pub change_notes : Call → ℕ → String → Store → Store × Ran (Unit {0})
change_notes c id notes = in_tx (notes_for c id (trim_right (trim_left notes)))
