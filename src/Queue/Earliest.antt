-- ===== src/Queue/Earliest.antt =====
-- `order by next_run_at limit 1` of `Claim` in go/internal/dbstore/tasks.go.
use mathlib.Core.List.{Memᴰ}
use ai_env_mgr.Base.{
  ◌≤◌, ◌≡◌, refl, inl, inr, none, some, List, [], ◌∷◌, arith, All, All-imp, Option-cases,
  Bool-cases, leb, leb→le, ap, ◌∙◌, subst,
}
use ai_env_mgr.Task.{Task}
use ai_env_mgr.Queue.{earliest}

-- What is chosen is one of the rows.
pub earliest-Memᴰ : (xs : List Task) (t : Task) → earliest xs ≡ some t → Memᴰ t xs
unfolding earliest
earliest-Memᴰ [] t h = absurd (ground arith)
earliest-Memᴰ (x ∷ xs) t h = elim (Option-cases (earliest xs)) [
  | inl e ↦ Memᴰ.head (ground arith)
  | inr (u, e) ↦ elim (Bool-cases (leb x.next_run_at u.next_run_at)) [
    | inl d ↦ Memᴰ.head (ground arith)
    | inr d ↦ let same : u ≡ t = ground arith in Memᴰ.tail (earliest-Memᴰ xs t (e ∙ ap some same))
  ]
]

pub earliest-none : (xs : List Task) → earliest xs ≡ none → xs ≡ []
unfolding earliest
earliest-none [] h = refl
earliest-none (x ∷ xs) h = elim (Option-cases (earliest xs)) [
  | inl e ↦ absurd (ground arith)
  | inr (u, e) ↦ absurd (ground arith)
]

abbrev Below : Task → List Task → Type 0
Below t xs = All (λ u. t.next_run_at ≤ u.next_run_at) xs

-- No row is due before it.
pub earliest-le :
    (xs : List Task) (t : Task) → earliest xs ≡ some t → All (λ u. t.next_run_at ≤ u.next_run_at) xs
unfolding earliest
earliest-le [] t h = tt
earliest-le (x ∷ xs) t h = elim (Option-cases (earliest xs)) [
  | inl e ↦
      let same : x ≡ t = ground arith in
      subst (λ v. Below v (x ∷ xs)) same (rw (earliest-none xs e) (omega arith, tt))
  | inr (u, e) ↦ elim (Bool-cases (leb x.next_run_at u.next_run_at)) [
    | inl d ↦
        let same : x ≡ t = ground arith in
        subst (λ v. Below v (x ∷ xs)) same
          (
            omega arith,
            All-imp _ _ xs (λ y h. omega (arith, leb→le x.next_run_at u.next_run_at d))
                (earliest-le xs u e),
          )
    | inr d ↦
        let same : u ≡ t = ground arith in
        subst (λ v. Below v (x ∷ xs)) same (ground arith, earliest-le xs u e)
  ]
]
