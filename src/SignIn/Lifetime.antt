-- ===== src/SignIn/Lifetime.antt =====
-- How long a session is taken: `Session` of go/internal/authn/authn.go with the statements
-- `SessionByToken` and `TouchSession` of go/internal/dbstore/admins.go.
use ai_env_mgr.Base.{
  ℕ, ◌+◌, ◌≤◌, ◌<◌, ◌≡◌, refl, inl, inr, String, Bool, true, ◌&&◌, ◌||◌, Option, none, some, List,
  [], ◌∷◌, arith, All, All-Memᴰ, All-of_Memᴰ, All-append, All-map, Bool-cases, Option-cases,
  &&-eq-true, str_eq, ltb, select, select-Memᴰ, first, first-some, change, subst, sym, ap, ◌∙◌,
  same_bytes, ◌==◌, ==_iff,
}
use ai_env_mgr.SignIn.{
  Bytes, Admin, Session, LoginOutcome, Store, Answer, ok, err, go_on, answer, Clock, Crypto,
  sign_in_failed, not_found,
}
use ai_env_mgr.SignIn.Rows.{
  record_attempt, touch_session, touched_row, is_token, is_live, is_valid, has_id, admin_on,
  may_set, set_disabled, reseal_totp, is_empty, session_by_token,
}
use ai_env_mgr.SignIn.Service.{
  session_idle, session_lifetime, failed_if_missing, refresh, admin_of, session,
}
use ai_env_mgr.SignIn.Steps.{Op, run, empty}
use ai_env_mgr.SignIn.Keeps.{Preserved, OpenedIn}
use ai_env_mgr.SignIn.Keeps.SignIns.{run-keeps}

-- A session whose bounds stand on the time of a sign-in with its token, for its account.
record IsBounded (W : ℕ → Bytes → ℕ → Type 0) (r : Session) : Type 0 where
  wall : ℕ
  at : W wall r.token_sha256 r.principal_id
  absolute : r.absolute_expires_at ≡ wall + session_lifetime
  idle : r.expires_at ≤ r.absolute_expires_at

abbrev AreBounded : (ℕ → Bytes → ℕ → Type 0) → Store → Type 0
AreBounded W s = All (IsBounded W) s.sessions

select-All_lem :
    {A : Type 0} (P : A → Type 0) (p : A → Bool) (xs : List A) → All P xs → All P (select p xs)
select-All_lem P p xs h = All-of_Memᴰ P _ (λ x m. All-Memᴰ P xs x h (select-Memᴰ p xs x m).1)

touched_row-IsBounded :
    (W : ℕ → Bytes → ℕ → Type 0) (p : Session → Bool) (expires now : ℕ) (r : Session)
    → IsBounded W r
    → IsBounded W (change p (touched_row expires now) r)
unfolding touched_row
touched_row-IsBounded W p expires now r b = elim (Bool-cases (p r)) [
  | inl e ↦ rw e (record { wall = b.wall; at = b.at; absolute = b.absolute; idle = omega arith })
  | inr e ↦ rw e b
]

set_disabled-bounded :
    (W : ℕ → Bytes → ℕ → Type 0) (id : ℕ) (off : Bool) (now : ℕ) (s : Store)
    → AreBounded W s
    → AreBounded W (set_disabled id off now s).0
unfolding set_disabled
set_disabled-bounded W id off now s h =
    elim (Option-cases (first (may_set s.admins id off) s.admins)) [
      | inl e ↦ rw (e, set_disabled) h
      | inr (a, e) ↦ rw (e, set_disabled) h
    ]

reseal_totp-bounded :
    (W : ℕ → Bytes → ℕ → Type 0) (id : ℕ) (b : Bytes) (v : String) (now : ℕ) (s : Store)
    → AreBounded W s
    → AreBounded W (reseal_totp id b v now s).0
unfolding reseal_totp
reseal_totp-bounded W id b v now s h = elim (Bool-cases (is_empty b || str_eq v "")) [
  | inl e ↦ rw e h
  | inr e ↦ rw e h
]

bounded-Preserved : (W : ℕ → Bytes → ℕ → Type 0) → Preserved W (AreBounded W)
unfolding touch_session
bounded-Preserved W = record {
  updates = λ id f s e h. h;
  opens = λ r s f h. All-append _ s.sessions (r ∷ []) h (
    record {
      wall = f.wall;
      at = f.at;
      absolute = f.lifetime;
      idle = omega (arith, f.idle, f.lifetime);
    },
    tt,
  );
  touches = λ token expires now s h.
      All-map _ _ _ s.sessions
        (λ r b. touched_row-IsBounded W (λ v. is_token token v && is_live now v) expires now r b) h;
  deletes = λ p s h. select-All_lem _ _ s.sessions h;
  adds = λ a s e h. h;
  disables_row = λ id off now s h. set_disabled-bounded W id off now s h;
  reseals_row = λ id b v now s h. reseal_totp-bounded W id b v now s h;
}

same_bytes-eq : (xs ys : Bytes) → same_bytes xs ys ≡ true → xs ≡ ys
same_bytes-eq [] [] h = refl
same_bytes-eq [] (y ∷ ys) h = absurd (ground arith)
same_bytes-eq (x ∷ xs) [] h = absurd (ground arith)
same_bytes-eq (x ∷ xs) (y ∷ ys) h =
    let (first_one, rest) = &&-eq-true (x == y) (same_bytes xs ys) h in
    let e : x ≡ y = (==_iff x y).0 first_one in rw e (ap (λ v. y ∷ v) (same_bytes-eq xs ys rest))

-- The row of a session that is taken: its token, its account, and its bounds.
accepted-bounded :
    (W : ℕ → Bytes → ℕ → Type 0) (token : Bytes) (now : ℕ) (s : Store) (r : Session)
    → AreBounded W s
    → session_by_token token now s ≡ some r
    → (w : ℕ) × (W w token r.principal_id × (now < w + session_lifetime))
unfolding session_by_token
accepted-bounded W token now s r h e =
    let (valid, m) = first-some (is_valid token now s) s.sessions r e in
    let b = All-Memᴰ _ s.sessions r h m in
    let parts = &&-eq-true (is_token token r) _ valid in
    let live = (&&-eq-true (is_live now r) _ parts.1).0 in
    let late = (&&-eq-true (ltb now r.expires_at) _ live).1 in
    let within : now < r.absolute_expires_at = ground arith in
    let mine = same_bytes-eq r.token_sha256 token parts.0 in
    (b.wall, (subst (λ v. W b.wall v r.principal_id) mine b.at, omega (arith, within, b.absolute)))

missing-kept :
    (c : Crypto) (r : Store × Answer (Unit {0})) (a b : Admin)
    → (go_on (failed_if_missing c r) (λ u. answer a)).1 ≡ ok b
    → a ≡ b
unfolding go_on
missing-kept c (s, ok u) a b h = ground arith
missing-kept c (s, err not_found) a b h = absurd (ground arith)
missing-kept c (s, err e) a b h = absurd (ground arith)

-- A session that is answered was found, and its account is the one answered.
accepted-found :
    (c : Crypto) (token : Bytes) (k : Clock) (found : Option Session) (s : Store) (a : Admin)
    → (refresh c token k (admin_of c found s) s).1 ≡ ok a
    → (r : Session) × ((found ≡ some r) × (a.id ≡ r.principal_id))
accepted-found c token k none s a h = absurd (ground arith)
accepted-found c token k (some r) s a h = (
  r,
  (
    refl,
    elim (Option-cases (admin_on r.principal_id s)) [
      | inl e ↦ absurd (nobody (rw e at h))
      | inr (b, e) ↦
          let same : b ≡ a =
            missing-kept c (touch_session token (k.wall + session_idle) k.db s) b a (rw e at h) in
          let (fits, m) = first-some _ s.admins b e in
          let named = (&&-eq-true (has_id r.principal_id b) _ fits).0 in
          ap (λ (v : Admin). v.id) (sym same) ∙ (==_iff b.id r.principal_id).0 named
    ],
  ),
)
  where
    nobody : (refresh c token k none s).1 ≡ ok a → ⊥
    nobody e = ground arith

logged :
    (W : ℕ → Bytes → ℕ → Type 0) (c : Crypto) (name ip : String) (at : ℕ) (o : LoginOutcome)
    (s : Store)
    → AreBounded W s
    → AreBounded W (record_attempt c name ip at o s)
unfolding record_attempt
logged W c name ip at o s h = h

-- A session that is accepted after any operations from empty tables, for an account, was opened by a
-- sign-in among them with a token of the same hash: no lockout was in force at it, the account was the
-- one of the name that was typed, enabled and enrolled, and the password and the code fitted. That
-- was less than `session_lifetime` before, the sign-in's time being read on the console's clock and
-- the present one on the database's.
pub session-OpenedIn :
    (c : Crypto) (ops : List Op) (token : String) (k : Clock) (a : Admin)
    → (session c token k (run c ops empty)).1 ≡ ok a
    → (w : ℕ) × (OpenedIn c ops empty w (c.hash_token token) a.id × (k.db < w + session_lifetime))
unfolding session
session-OpenedIn c ops token k a h =
    let kept =
      run-keeps (OpenedIn c ops empty) (AreBounded (OpenedIn c ops empty)) (bounded-Preserved _) c
        (λ name ip at o s h. logged _ c name ip at o s h) ops empty (λ w b i m. m) tt in
    elim (Bool-cases (str_eq token "")) [
      | inl e ↦ absurd (refused (rw e at h))
      | inr e ↦
          let (r, (found, mine)) =
            accepted-found c (c.hash_token token) k _ (run c ops empty) a (rw e at h) in
          let (w, (opened, soon)) =
            accepted-bounded (OpenedIn c ops empty) (c.hash_token token) k.db (run c ops empty) r
              kept found in
          (w, (rw mine opened, soon))
    ]
  where
    refused : ◌≡◌ {A = Answer Admin} (err sign_in_failed) (ok a) → ⊥
    refused e = cc
