-- ===== src/Account/Steps.antt =====
-- Whatever is done to accounts and machines, in any order: the operations of
-- go/internal/ops/ops.go and machines.go.
use ai_env_mgr.Base.{ℕ, String, List, [], ◌∷◌}
use ai_env_mgr.Account.{Profile, Quota}
use ai_env_mgr.Account.Service.{
  OnboardSpec, onboard, offboard, delete_account, reissue, rotate, set_quota, set_models,
  update_profile,
}
use ai_env_mgr.Account.Machines.{
  bind_machine, unbind_machine, request_codex_restart, forget_machine,
}
use ai_env_mgr.Release.{Store, Call}

pub data Op : Type 0 where
  onboards : OnboardSpec → Op
  offboards : (id : ℕ) → Op
  deletes : (id : ℕ) → Op
  reissues : (id : ℕ) → Op
  rotates : (id : ℕ) → Op
  limits : (id : ℕ) → Quota → (version : ℕ) → Op
  grants_models : (id : ℕ) → List String → Op
  relabels : (id version : ℕ) → Profile → Op
  binds : (hostname : String) → (employee : ℕ) → (note : String) → Op
  unbinds : (hostname : String) → Op
  restarts : (hostname : String) → Op
  forgets : (hostname : String) → Op

unfoldable pub apply : Call → Op → Store → Store
apply c (onboards spec) s = (onboard c spec s).0
apply c (offboards id) s = (offboard c id s).0
apply c (deletes id) s = (delete_account c id s).0
apply c (reissues id) s = (reissue c id s).0
apply c (rotates id) s = (rotate c id s).0
apply c (limits id q version) s = (set_quota c id q version s).0
apply c (grants_models id models) s = (set_models c id models s).0
apply c (relabels id version p) s = (update_profile c id version p s).0
apply c (binds hostname employee note) s = (bind_machine c hostname employee note s).0
apply c (unbinds hostname) s = (unbind_machine c hostname s).0
apply c (restarts hostname) s = (request_codex_restart c hostname s).0
apply c (forgets hostname) s = (forget_machine c hostname s).0

-- Each operation is called with what is its own.
unfoldable pub run : List (Call × Op) → Store → Store
run [] s = s
run ((c, op) ∷ ops) s = run ops (apply c op s)
