-- ===== src/Account/Keeps/Rows.antt =====
-- The statements on employees, models and quotas, one by one.
use ai_env_mgr.Base.{
  ℕ, String, refl, inl, inr, not, ◌&&◌, Option, none, some, List, arith, Bool-cases, ◌==◌, first,
}
use ai_env_mgr.Account.{Employee, Profile, is_active, is_deleted, Quota, QuotaRow}
use ai_env_mgr.Account.Employees.{
  has_id, at_version, employee_by_id, explain_miss, breaks_external, profile_row,
  update_profile_row, offboarded_row, current_if, offboard_row, reopened_row, reopen_row,
  deleted_row, delete_miss, delete_row, bumped_row, bump_row, models_if, set_model_rows,
}
use ai_env_mgr.Account.Limits.{
  set_quota_row, insert_quota, update_quota, is_valid_quota, with_quota_defaults,
}
use ai_env_mgr.Release.{Store}
use ai_env_mgr.Account.Keeps.{
  found-Holds, IsRise, Preserved, Keeps, updated-Keeps, current_if-Keeps, delete_miss-Keeps,
}

profile_row-IsRise : (q : Profile) (now : ℕ) → IsRise (profile_row q now)
unfolding profile_row
profile_row-IsRise q now = record {
  same_id = λ e. refl;
  same_user = λ e. refl;
  rises = λ e. omega arith;
}

offboarded_row-IsRise : (now : ℕ) → IsRise (offboarded_row now)
unfolding offboarded_row
offboarded_row-IsRise now = record {
  same_id = λ e. refl;
  same_user = λ e. refl;
  rises = λ e. omega arith;
}

reopened_row-IsRise : (now : ℕ) → IsRise (reopened_row now)
unfolding reopened_row
reopened_row-IsRise now = record {
  same_id = λ e. refl;
  same_user = λ e. refl;
  rises = λ e. omega arith;
}

deleted_row-IsRise : (now : ℕ) → IsRise (deleted_row now)
unfolding deleted_row
deleted_row-IsRise now = record {
  same_id = λ e. refl;
  same_user = λ e. refl;
  rises = λ e. omega arith;
}

bumped_row-IsRise : (now : ℕ) → IsRise (bumped_row now)
unfolding bumped_row
bumped_row-IsRise now = record {
  same_id = λ e. refl;
  same_user = λ e. refl;
  rises = λ e. omega arith;
}

module _ (I : Store → Type 0) (p : Preserved I) where
  pub employee_by_id-Keeps : (id : ℕ) → Keeps I (employee_by_id id)
  unfolding employee_by_id
  employee_by_id-Keeps id = record { at = λ s h. found-Holds I _ s h }

  pub update_profile_row-Keeps :
      (id version : ℕ) (q : Profile) (now : ℕ) → Keeps I (update_profile_row id version q now)
  unfolding update_profile_row
  update_profile_row-Keeps id version q now = record {
    at = λ s h. elim (Bool-cases (breaks_external id version q.external_id s)) [
      | inl e ↦ rw e tt
      | inr e ↦ rw e (
          (updated-Keeps I p (at_version id version) (profile_row q now) (explain_miss id version) _
              (profile_row-IsRise q now) (record { at = λ t k. tt })).at
            s h)
    ];
  }

  pub offboard_row-Keeps : (id version now : ℕ) → Keeps I (offboard_row id version now)
  unfolding offboard_row
  offboard_row-Keeps id version now = record {
    at = λ s h.
        (updated-Keeps I p (λ e. at_version id version e && is_active e) (offboarded_row now)
            (λ t. current_if (λ e. not (is_active e)) id version (first (has_id id) t.employees) t)
            (first (λ e. at_version id version e && is_active e) s.employees)
            (offboarded_row-IsRise now)
            (record {
              at = λ t k.
                  (current_if-Keeps I p (λ e. not (is_active e)) id version
                      (first (has_id id) t.employees)).at
                    t k;
            })).at
          s h;
  }

  pub reopen_row-Keeps : (id version now : ℕ) → Keeps I (reopen_row id version now)
  unfolding reopen_row
  reopen_row-Keeps id version now = record {
    at = λ s h.
        (updated-Keeps I p (λ e. at_version id version e && not (is_active e)) (reopened_row now)
            (λ t. current_if is_active id version (first (has_id id) t.employees) t)
            (first (λ e. at_version id version e && not (is_active e)) s.employees)
            (reopened_row-IsRise now)
            (record {
              at = λ t k.
                  (current_if-Keeps I p is_active id version (first (has_id id) t.employees)).at t
                    k;
            })).at
          s h;
  }

  pub delete_row-Keeps : (id version now : ℕ) → Keeps I (delete_row id version now)
  unfolding delete_row
  delete_row-Keeps id version now = record {
    at = λ s h.
        (updated-Keeps I p
            (λ e. at_version id version e && (not (is_active e) && not (is_deleted e)))
            (deleted_row now) (λ t. delete_miss id version (first (has_id id) t.employees) t)
            (first (λ e. at_version id version e && (not (is_active e) && not (is_deleted e)))
              s.employees)
            (deleted_row-IsRise now)
            (record {
              at = λ t k. (delete_miss-Keeps I p id version (first (has_id id) t.employees)).at t k;
            })).at
          s h;
  }

  pub bump_row-Keeps : (id version now : ℕ) → Keeps I (bump_row id version now)
  unfolding bump_row
  bump_row-Keeps id version now = record {
    at = λ s h.
        (updated-Keeps I p (at_version id version) (bumped_row now) (explain_miss id version)
            (first (at_version id version) s.employees) (bumped_row-IsRise now)
            (record { at = λ t k. tt })).at
          s h;
  }

  models_if-Keeps :
      (id : ℕ) (models : List String) (o : Option Employee) → Keeps I (models_if id models o)
  models_if-Keeps id models none = record { at = λ s h. tt }
  models_if-Keeps id models (some e) = record { at = λ s h. p.models _ s h }

  pub set_model_rows-Keeps : (id : ℕ) (models : List String) → Keeps I (set_model_rows id models)
  unfolding set_model_rows
  set_model_rows-Keeps id models = record { at = λ s h. (models_if-Keeps id models _).at s h }

  insert_quota-Keeps :
      (id : ℕ) (q : Quota) (now : ℕ) (o : Option QuotaRow) → Keeps I (insert_quota id q now o)
  insert_quota-Keeps id q now (some r) = record { at = λ s h. tt }
  insert_quota-Keeps id q now none = record { at = λ s h. p.quotas _ s h }

  update_quota-Keeps :
      (id : ℕ) (q : Quota) (version now : ℕ) (o : Option QuotaRow)
      → Keeps I (update_quota id q version now o)
  update_quota-Keeps id q version now (some r) = record { at = λ s h. p.quotas _ s h }
  update_quota-Keeps id q version now none = record { at = λ s h. tt }

  pub set_quota_row-Keeps :
      (id : ℕ) (q : Quota) (version now : ℕ) → Keeps I (set_quota_row id q version now)
  unfolding set_quota_row
  set_quota_row-Keeps id q version now = record {
    at = λ s h. elim (Bool-cases (is_valid_quota (with_quota_defaults q))) [
      | inr e ↦ rw e tt
      | inl e ↦ rw e (elim (Bool-cases (version == 0)) [
        | inl d ↦ rw d ((insert_quota-Keeps id (with_quota_defaults q) now _).at s h)
        | inr d ↦ rw d ((update_quota-Keeps id (with_quota_defaults q) version now _).at s h)
      ])
    ];
  }
