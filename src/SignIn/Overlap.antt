-- ===== src/SignIn/Overlap.antt =====
-- Sign-ins that overlap: `SignIn` of go/internal/authn/authn.go is no transaction. It reads the failures
-- first and writes its row of the log at the end, and other requests may be served in between. What
-- it reads of the account and writes at the end is taken in one step here.
use ai_env_mgr.Base.{ℕ, zero, suc, if◌then◌else◌, ◌≡◌, refl, String, List, [], ◌∷◌}
use ai_env_mgr.SignIn.{Admin, locked, Store, locked_out, Act, Clock, Crypto}
use ai_env_mgr.SignIn.Rows.{admin_named}
use ai_env_mgr.SignIn.Service.{Origin, reject, with_account, is_locked, sign_in}
use ai_env_mgr.SignIn.Steps.{Op, apply}

-- The store as it was so many operations ago.
unfoldable pub back : ℕ → Store → List Store → Store
back zero s past = s
back (suc n) s [] = s
back (suc n) s (r ∷ past) = back n r past

-- What is entered in a history: a sign-in that read the failures so many operations before it is
-- recorded, at the time `k.db`, and is recorded at the time `k.wall`; or another operation.
pub data Entry : Type 0 where
  late :
      (lag : ℕ)
      → (username password text : String) → Origin
      → (k : Clock) → (token : String) → Entry
  does : Op → Entry

module _ (c : Crypto) where
  -- `SignIn` with the failures read from the store `seen`.
  unfoldable pub sign_in_after :
      (seen : Store)
      → (username password text : String) → Origin
      → Clock
      → (token : String) → Act (String × Admin)
  sign_in_after seen username password text o k token s =
      if is_locked c username o k seen
      then reject c username o k locked locked_out s
      else with_account c username password text o k token (admin_named c username s) s

  -- With nothing in between it is `sign_in`.
  pub sign_in-alone :
      (username password text : String) (o : Origin) (k : Clock) (token : String) (s : Store)
      → sign_in c username password text o k token s
        ≡ sign_in_after s username password text o k token s
  unfolding sign_in sign_in_after
  sign_in-alone username password text o k token s = refl

  unfoldable pub enter : Entry → Store → List Store → Store
  enter (late lag username password text o k token) s past =
      (sign_in_after (back lag s past) username password text o k token s).0
  enter (does op) s past = apply c op s

  -- A history, with the stores that it has been through, the last first.
  unfoldable pub run_late : List Entry → Store → List Store → Store
  run_late [] s past = s
  run_late (e ∷ es) s past = run_late es (enter e s past) (s ∷ past)
