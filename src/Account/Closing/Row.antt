-- ===== src/Account/Closing/Row.antt =====
-- `Offboard` of go/internal/dbstore/employees.go as a part of the operation.
use ai_env_mgr.Base.{
  ℕ, ◌≡◌, refl, sym, ◌∙◌, subst, inl, inr, false, not, ◌&&◌, Option, none, some, Bool-cases,
  &&-eq-true, ◌==◌, ==_iff, first, first-some, change-Memᴰ, update_where,
}
use mathlib.Core.List.{Memᴰ}
use ai_env_mgr.Account.{Employee, is_active}
use ai_env_mgr.Account.Employees.{
  has_id, at_version, offboard_row, offboarded_row, updated, current_if,
}
use ai_env_mgr.Account.Keeps.{Holds}
use ai_env_mgr.Release.{Store, Call}
use ai_env_mgr.Account.Closing.{Off, Ready}

-- One clause for each statement of `Offboard`.
module _ (c : Call) (id : ℕ) where
  offboarded_row-IsShut : (now : ℕ) (e : Employee) → is_active (offboarded_row now e) ≡ false
  unfolding offboarded_row
  offboarded_row-IsShut now e = refl

  offboarded_row-id : (now : ℕ) (e : Employee) → (offboarded_row now e).id ≡ e.id
  unfolding offboarded_row
  offboarded_row-id now e = refl

  current-Off :
      (version : ℕ) (o : Option Employee) (s : Store)
      → o ≡ first (has_id id) s.employees
      → Ready c id s
      → Holds (Off c id) (current_if (λ e. not (is_active e)) id version o s)
  current-Off version none s h r = tt
  current-Off version (some e) s h r = elim (Bool-cases (is_active e)) [
    | inl d ↦ rw d tt
    | inr d ↦
        let (q, m) = first-some (has_id id) s.employees e (sym h) in
        rw d (((d, m), (==_iff e.id id).0 q), r)
  ]

  updated-Off :
      (version now : ℕ) (o : Option Employee) (s : Store)
      → o ≡ first (λ e. at_version id version e && is_active e) s.employees
      → Ready c id s
      → Holds (Off c id) (
          updated
            (λ e. at_version id version e && is_active e)
            (offboarded_row now)
            (λ t. current_if (λ e. not (is_active e)) id version (first (has_id id) t.employees) t)
            o
            s)
  updated-Off version now none s h r = current-Off version _ s refl r
  updated-Off version now (some e) s h r =
      let (q, m) = first-some (λ x. at_version id version x && is_active x) s.employees e (sym h) in
      let mine =
        (&&-eq-true (e.id == id) _ (&&-eq-true (at_version id version e) (is_active e) q).0).0 in
      let moved =
        change-Memᴰ (λ x. at_version id version x && is_active x) (offboarded_row now) s.employees e
          m in
      (
        (
          (
            offboarded_row-IsShut now e,
            subst
                (λ x. Memᴰ x (
                  update_where (λ x. at_version id version x && is_active x) (offboarded_row now)
                    s.employees))
                (rw q refl) moved,
          ),
          offboarded_row-id now e ∙ (==_iff e.id id).0 mine,
        ),
        r,
      )

  pub offboard_row-Off :
      (version now : ℕ) (s : Store)
      → Ready c id s
      → Holds (Off c id) (offboard_row id version now s)
  unfolding offboard_row
  offboard_row-Off version now s r = updated-Off version now _ s refl r
