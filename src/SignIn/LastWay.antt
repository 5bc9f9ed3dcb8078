-- ===== src/SignIn/LastWay.antt =====
-- The last account that is enabled: `SetDisabled` of go/internal/dbstore/admins.go and
-- `NeedsBootstrap` of go/internal/authn/authn.go.
use ai_env_mgr.Base.{
  ℕ, ◌≡◌, refl, inl, inr, String, Bool, true, false, not, ◌&&◌, ◌||◌, none, List, [], ◌∷◌, ◌++◌,
  arith, Bool-cases, Option-cases, &&-eq-true, str_eq, leb, ◌==◌, first, first-some, is_some,
  change, change-Memᴰ, affected, update_where,
}
use mathlib.Core.List.{Memᴰ}
use ai_env_mgr.SignIn.{Bytes, Admin, Store, is_enabled, Crypto}
use ai_env_mgr.SignIn.Rows.{
  record_attempt, touch_session, may_set, set_disabled, disabled_row, reseal_totp, has_seed,
  count_enabled, is_empty,
}
use ai_env_mgr.SignIn.Service.{needs_bootstrap}
use ai_env_mgr.SignIn.Steps.{Op, run}
use ai_env_mgr.SignIn.Keeps.{Preserved}
use ai_env_mgr.SignIn.Keeps.SignIns.{run-keeps}

-- An account that is enabled.
abbrev HasEnabled : List Admin → Type 0
HasEnabled rows = (a : Admin) × (Memᴰ a rows × (is_enabled a ≡ true))

abbrev IsOpen : Store → Type 0
IsOpen s = HasEnabled s.admins

count-HasEnabled : (rows : List Admin) → leb (affected is_enabled rows) 0 ≡ false → HasEnabled rows
count-HasEnabled [] h = absurd (ground arith)
count-HasEnabled (a ∷ rows) h = elim (Bool-cases (is_enabled a)) [
  | inl e ↦ (a, (Memᴰ.head refl, e))
  | inr e ↦ let (b, (m, d)) = count-HasEnabled rows (rw e at h) in (b, (Memᴰ.tail m, d))
]

HasEnabled-count : (rows : List Admin) → HasEnabled rows → leb (affected is_enabled rows) 0 ≡ false
HasEnabled-count [] (a, (m, e)) = elim m [ ]
HasEnabled-count (b ∷ rows) (a, (Memᴰ.head h, e)) = rw (← h, e) (ground arith)
HasEnabled-count (b ∷ rows) (a, (Memᴰ.tail m, e)) = elim (Bool-cases (is_enabled b)) [
  | inl d ↦ rw d (ground arith)
  | inr d ↦ rw d (HasEnabled-count rows (a, (m, e)))
]

append-HasEnabled : (rows : List Admin) (b : Admin) → HasEnabled rows → HasEnabled (rows ++ b ∷ [])
append-HasEnabled [] b (a, (m, e)) = elim m [ ]
append-HasEnabled (x ∷ rows) b (a, (Memᴰ.head h, e)) = (a, (Memᴰ.head h, e))
append-HasEnabled (x ∷ rows) b (a, (Memᴰ.tail m, e)) =
    let (d, (n, f)) = append-HasEnabled rows b (a, (m, e)) in (d, (Memᴰ.tail n, f))

-- An update that does not set `disabled_at` leaves an enabled account enabled.
update-HasEnabled :
    (p : Admin → Bool) (f : Admin → Admin) (rows : List Admin)
    → ((a : Admin) → is_enabled a ≡ true → is_enabled (f a) ≡ true)
    → HasEnabled rows
    → HasEnabled (update_where p f rows)
update-HasEnabled p f rows keep (a, (m, e)) = (
  change p f a,
  (change-Memᴰ p f rows a m, elim (Bool-cases (p a)) [ inl d ↦ rw d (keep a e) | inr d ↦ rw d e ]),
)

enabled_same :
    (a b : Admin) → b.disabled_at ≡ a.disabled_at → is_enabled a ≡ true → is_enabled b ≡ true
enabled_same a b h e = rw h e

-- An account that is closed leaves another one that is enabled.
closing-HasEnabled :
    (id now : ℕ) (a : Admin) (rows : List Admin)
    → may_set rows id true a ≡ true
    → HasEnabled (update_where (may_set rows id true) (disabled_row true now) rows)
closing-HasEnabled id now a rows h =
    elim (Option-cases (first (λ o. not (o.id == a.id) && is_enabled o) rows)) [
      | inl e ↦ absurd (none_other e (&&-eq-true (a.id == id) _ h).1)
      | inr (o, e) ↦
          let (q, m) = first-some _ rows o e in
          let both = &&-eq-true (not (o.id == a.id)) (is_enabled o) q in
          let mine : (a.id == id) ≡ true = (&&-eq-true (a.id == id) _ h).0 in
          let other : (o.id == id) ≡ false = ground (arith, both.0, mine) in
          let same : change (may_set rows id true) (disabled_row true now) o ≡ o = rw other refl in
          (
            change (may_set rows id true) (disabled_row true now) o,
            (change-Memᴰ (may_set rows id true) (disabled_row true now) rows o m, rw same both.1),
          )
    ]
  where
    none_other :
        first (λ o. not (o.id == a.id) && is_enabled o) rows ≡ none
        → (not true || is_some (first (λ o. not (o.id == a.id) && is_enabled o) rows)) ≡ true
        → ⊥
    none_other e d = ground (arith, e, d)

moved-HasEnabled :
    (off : Bool) (id now : ℕ) (a : Admin) (rows : List Admin)
    → may_set rows id off a ≡ true
    → HasEnabled rows
    → HasEnabled (update_where (may_set rows id off) (disabled_row off now) rows)
unfolding disabled_row
moved-HasEnabled true id now a rows d h = closing-HasEnabled id now a rows d
moved-HasEnabled false id now a rows d h =
    update-HasEnabled (may_set rows id false) (disabled_row false now) rows (λ b q. refl) h

set_disabled-IsOpen :
    (id : ℕ) (off : Bool) (now : ℕ) (s : Store) → IsOpen s → IsOpen (set_disabled id off now s).0
unfolding set_disabled
set_disabled-IsOpen id off now s h =
    elim (Option-cases (first (may_set s.admins id off) s.admins)) [
      | inl e ↦ rw (e, set_disabled) h
      | inr (a, e) ↦
          rw (e, set_disabled)
            (moved-HasEnabled off id now a s.admins (first-some _ s.admins a e).0 h)
    ]

reseal_totp-IsOpen :
    (id : ℕ) (b : Bytes) (v : String) (now : ℕ) (s : Store)
    → IsOpen s
    → IsOpen (reseal_totp id b v now s).0
unfolding reseal_totp
reseal_totp-IsOpen id b v now s h = elim (Bool-cases (is_empty b || str_eq v "")) [
  | inl e ↦ rw e h
  | inr e ↦ rw e (update-HasEnabled (has_seed id) _ s.admins (λ a q. q) h)
]

IsOpen-Preserved : Preserved (λ w b i. Unit) IsOpen
unfolding touch_session
IsOpen-Preserved = record {
  updates = λ id f s e h. update-HasEnabled _ f s.admins (λ a q. enabled_same a (f a) (e a) q) h;
  opens = λ r s f h. h;
  touches = λ token expires now s h. h;
  deletes = λ p s h. h;
  adds = λ a s e h. append-HasEnabled s.admins a h;
  disables_row = λ id off now s h. set_disabled-IsOpen id off now s h;
  reseals_row = λ id b v now s h. reseal_totp-IsOpen id b v now s h;
}

-- Once there is an account that is enabled, there is one after any operations: the first account is
-- never called for again.
pub run-needs_bootstrap :
    (c : Crypto) (ops : List Op) (s : Store)
    → needs_bootstrap c s ≡ false
    → needs_bootstrap c (run c ops s) ≡ false
unfolding count_enabled record_attempt
run-needs_bootstrap c ops s h = HasEnabled-count (run c ops s).admins (
    run-keeps (λ w b i. Unit) IsOpen IsOpen-Preserved c (λ name ip at o s h. h) ops s
      (λ w b i m. tt) (count-HasEnabled s.admins h))
