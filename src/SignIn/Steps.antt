-- ===== src/SignIn/Steps.antt =====
-- Whatever is done to accounts and sessions, in any order: the operations of go/internal/authn/authn.go
-- and the statements of go/internal/dbstore/admins.go that other code runs.
use ai_env_mgr.Base.{ℕ, String, Bool, List, [], ◌∷◌}
use ai_env_mgr.SignIn.{Bytes, Admin, NewAdmin, Store, Clock, Crypto}
use ai_env_mgr.SignIn.Rows.{
  create_admin, set_disabled, delete_sessions_for, delete_expired_sessions, reseal_totp,
}
use ai_env_mgr.SignIn.Service.{
  Origin, sign_in, complete_enrolment, change_password, session, sign_out, ensure_first_account,
}

pub data Op : Type 0 where
  signs_in : (username password text : String) → Origin → Clock → (token : String) → Op
  enrols : Admin → (secret text : String) → List String → Clock → Op
  changes_password : Admin → (current next hash : String) → Clock → Op
  uses : (token : String) → Clock → Op
  signs_out : (token : String) → Op
  bootstraps : (username email hash suffix : String) → Clock → Op
  creates : NewAdmin → Clock → Op
  disables : (id : ℕ) → Bool → Clock → Op
  ends_sessions : (id : ℕ) → Op
  sweeps : Clock → Op
  reseals : (id : ℕ) → Bytes → (version : String) → Clock → Op

module _ (c : Crypto) where
  unfoldable pub apply : Op → Store → Store
  apply (signs_in username password text o k token) s =
      (sign_in c username password text o k token s).0
  apply (enrols a secret text hashes k) s = (complete_enrolment c a secret text hashes k s).0
  apply (changes_password a current next hash k) s = (change_password c a current next hash k s).0
  apply (uses token k) s = (session c token k s).0
  apply (signs_out token) s = sign_out c token s
  apply (bootstraps username email hash suffix k) s =
      (ensure_first_account c username email hash suffix k s).0
  apply (creates n k) s = (create_admin c n k.db s).0
  apply (disables id off k) s = (set_disabled id off k.db s).0
  apply (ends_sessions id) s = delete_sessions_for id s
  apply (sweeps k) s = delete_expired_sessions k.db s
  apply (reseals id sealed version k) s = (reseal_totp id sealed version k.db s).0

  unfoldable pub run : List Op → Store → Store
  run [] s = s
  run (op ∷ ops) s = run ops (apply op s)

abbrev pub empty : Store
empty = record { admins = []; sessions = []; attempts = []; next_id = 1 }
