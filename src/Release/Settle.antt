-- ===== src/Release/Settle.antt =====
-- A machine's report settles its targets: `SettleTargets` of go/internal/worker/settle.go. It runs
-- outside a transaction, so each statement is committed as it is made.
use Prim.Native.String.{◌++◌}
use ai_env_mgr.Base.{
  ℕ, String, Bool, true, false, ◌&&◌, Option, none, some, List, [], ◌∷◌, str_eq, ltb, ◌==◌,
  if◌then◌else◌, first,
}
use ai_env_mgr.Release.{
  product_agent, product_codex, Artifact, Rollout, succeeded, failed, Target, Store, Refusal,
  not_found, conflict, Ran, done, refused, Tx, ◌>>=◌, Call, committed,
}
use ai_env_mgr.Release.Rows.{open_target, finish_target, release_succeeded}
use ai_env_mgr.Release.Service.{device_by_id, is_private, enqueue_export}

-- What a report says of one product.
pub record Claim : Type 0 where
  pub product : String
  pub running : String
  pub target : String
  pub generation : ℕ
  pub state : String
  pub prefix : String

-- `model.Status`, as far as it is read here; `reported_at` is `LastSync`, if it can be parsed.
pub record Report : Type 0 where
  pub reported_at : Option ℕ
  pub agent_version : String
  pub agent_update_target : String
  pub agent_update_generation : ℕ
  pub agent_update_state : String
  pub codex_version : String
  pub codex_target : String
  pub codex_target_generation : ℕ
  pub codex_state : String
  pub errors : List String

abbrev pub about_agent : Report → Claim
about_agent r = record {
  product = product_agent;
  running = r.agent_version;
  target = r.agent_update_target;
  generation = r.agent_update_generation;
  state = r.agent_update_state;
  prefix = "update:";
}

abbrev pub about_codex : Report → Claim
about_codex r = record {
  product = product_codex;
  running = r.codex_version;
  target = r.codex_target;
  generation = r.codex_target_generation;
  state = r.codex_state;
  prefix = "codex:";
}

unfoldable pub has_prefix : String → String → Bool
has_prefix String.[] s = true
has_prefix (String.◌∷◌ c p) String.[] = false
has_prefix (String.◌∷◌ c p) (String.◌∷◌ d s) =
    str_eq (String.◌∷◌ c "") (String.◌∷◌ d "") && has_prefix p s

unfoldable pub first_error : List String → String → String
first_error [] prefix = "the machine reported failure without a matching error line"
first_error (l ∷ ls) prefix =
    let rest = first_error ls prefix in if has_prefix prefix l then l else rest

-- `CodexFailed` and `AgentUpdateFailed` are the same word.
abbrev pub says_failed : Claim → Artifact → Target → Bool
says_failed k a t =
    str_eq k.target a.version && ((k.generation == t.generation) && str_eq k.state "failed")

-- A conflict is not an error here: somebody else settled the target.
abbrev pub unless_conflict : {A : Type 0} → Ran A → Option Refusal
unless_conflict (done a s) = none
unless_conflict (refused conflict) = none
unless_conflict (refused e) = some e

abbrev pub statement : {A : Type 0} → Store → Ran A → Store × Option Refusal
statement s r = (committed s r, unless_conflict r)

-- `reexportDevice`, with the key that it makes.
unfoldable pub reexport_device : Call → ℕ → ℕ → Tx (Unit {0})
reexport_device c device target = do
  d ← device_by_id device
  enqueue_export c d ("global-settled:" ++ c.text_of target)

abbrev pub release_if_global :
    Call → ℕ → String → ℕ → Option Rollout → Store → Store × Option Refusal
release_if_global c device product target none s = (s, some not_found)
release_if_global c device product target (some ro) s =
    if is_private ro.kind
    then (s, none)
    else let s' = committed s (release_succeeded device product c.now s) in
      statement s' (reexport_device c device target s')

unfoldable pub after_success : Call → ℕ → String → ℕ → Store → Ran Target → Store × Option Refusal
after_success c device product rollout s (refused e) = (s, unless_conflict {A = Target} (refused e))
after_success c device product rollout s (done t s') =
    release_if_global c device product t.id (first (λ r. r.id == rollout) s'.rollouts) s'

-- A target that is open, made before the report, with its artifact.
unfoldable pub settle_target :
    Call → ℕ → Claim → List String → Target → Artifact → Store → Store × Option Refusal
settle_target c device k errors t a s =
    if str_eq k.running a.version
    then after_success c device k.product t.rollout_id s
        (finish_target t.id succeeded "" k.running c.now s)
    else if says_failed k a t
    then statement s (finish_target t.id failed (first_error errors k.prefix) k.running c.now s)
    else (s, none)

abbrev pub with_artifact :
    Call → ℕ → Claim → List String → Target → Option Artifact → Store → Store × Option Refusal
with_artifact c device k errors t none s = (s, some not_found)
with_artifact c device k errors t (some a) s = settle_target c device k errors t a s

abbrev pub settle_open :
    Call → ℕ → ℕ → Claim → List String → Option Target → Store → Store × Option Refusal
settle_open c device reported_at k errors none s = (s, none)
settle_open c device reported_at k errors (some t) s =
    if ltb t.created_at reported_at
    then with_artifact c device k errors t (first (λ a. a.id == t.artifact_id) s.artifacts) s
    else (s, none)

unfoldable pub settle_product : Call → ℕ → ℕ → List String → Claim → Store → Store × Option Refusal
settle_product c device reported_at errors k s =
    settle_open c device reported_at k errors (open_target device k.product s) s

abbrev pub unless_failed :
    Store × Option Refusal → (Store → Store × Option Refusal) → Store × Option Refusal
unless_failed (s, some e) k = (s, some e)
unless_failed (s, none) k = k s

unfoldable pub settle_at : Call → ℕ → Report → Option ℕ → Store → Store × Option Refusal
settle_at c device r none s = (s, none)
settle_at c device r (some at) s =
    unless_failed (settle_product c device at r.errors (about_agent r) s)
      (settle_product c device at r.errors (about_codex r))

abbrev pub settle_targets : Call → ℕ → Report → Store → Store × Option Refusal
settle_targets c device r s = settle_at c device r r.reported_at s
