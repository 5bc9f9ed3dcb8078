-- ===== src/Account/Employees.antt =====
-- The statements of go/internal/dbstore/employees.go that operations run, with the unique indexes of
-- db/migrations/0006_employee_deleted.up.sql.
use ai_env_mgr.Base.{
  ℕ, ◌+◌, String, Bool, false, not, ◌&&◌, ◌||◌, Option, none, some, List, [], ◌∷◌, ◌++◌, str_eq,
  ◌==◌, if◌then◌else◌, update_where, select, first, is_some, map,
}
use ai_env_mgr.Version.{trim_left, trim_right}
use ai_env_mgr.Account.{active, offboarded, Employee, NewEmployee, Profile, is_active, is_deleted}
use ai_env_mgr.Release.{
  Store, Refusal, not_found, conflict, duplicate, required, wrong_status, still_open, done, refused,
  Tx, found, answer, refuse,
}

abbrev pub has_id : ℕ → Employee → Bool
has_id id e = e.id == id

abbrev pub at_version : ℕ → ℕ → Employee → Bool
at_version id version e = (e.id == id) && (e.version == version)

unfoldable pub employee_by_id : ℕ → Tx Employee
employee_by_id id s = found (first (has_id id) s.employees) s

-- `NormalizeWindowsUser`.
abbrev pub normalize_windows_user : (String → String) → String → String
normalize_windows_user lower name = lower (trim_right (trim_left name))

abbrev pub is_user : String → Employee → Bool
is_user user e = str_eq e.windows_user user && not (is_deleted e)

-- The row that `ByWindowsUser` reads.
unfoldable pub employee_named : String → Store → Option Employee
employee_named user s = first (is_user user) s.employees

-- Another row that is not deleted has this external id; the empty one is null.
abbrev pub has_external : ℕ → String → Employee → Bool
has_external id external e =
    not (e.id == id) && (str_eq e.external_id external && not (is_deleted e))

abbrev pub is_taken : ℕ → String → List Employee → Bool
is_taken id external rows =
    not (str_eq external "") && is_some (first (has_external id external) rows)

unfoldable pub new_employee : NewEmployee → String → ℕ → ℕ → Employee
new_employee n user fresh now = record {
  id = fresh;
  windows_user = user;
  external_id = n.external_id;
  name = n.name;
  department = n.department;
  codex_account = n.codex_account;
  email = n.email;
  status = active;
  auth_epoch = 1;
  version = 1;
  created_at = now;
  updated_at = now;
  offboarded_at = none;
  deleted_at = none;
}

-- `Create`, for a user name that has been normalized.
unfoldable pub create_employee : NewEmployee → String → ℕ → Tx Employee
create_employee n user now s =
    if str_eq user ""
    then refused required
    else if is_some (employee_named user s) || is_taken s.next_id n.external_id s.employees
    then refused duplicate
    else done (new_employee n user s.next_id now) (record s {
      employees = s.employees ++ new_employee n user s.next_id now ∷ [];
      next_id = s.next_id + 1;
    })

-- `update employees set f where p returning`, and what an update that matched no row does.
abbrev pub updated :
    (Employee → Bool) → (Employee → Employee) → Tx Employee → Option Employee → Tx Employee
updated p f miss none s = miss s
updated p f miss (some e) s = done (f e) (record s { employees = update_where p f s.employees })

abbrev pub update_employee : (Employee → Bool) → (Employee → Employee) → Tx Employee → Tx Employee
update_employee p f miss s = updated p f miss (first p s.employees) s

abbrev pub miss_of : ℕ → Option Employee → Refusal
miss_of version none = not_found
miss_of version (some e) = if e.version == version then wrong_status else conflict

-- `explainMiss`.
abbrev pub explain_miss : {A : Type 0} → ℕ → ℕ → Tx A
explain_miss id version s = refused (miss_of version (first (has_id id) s.employees))

unfoldable pub profile_row : Profile → ℕ → Employee → Employee
profile_row p now e = record e {
  name = p.name;
  department = p.department;
  codex_account = p.codex_account;
  external_id = p.external_id;
  email = p.email;
  version = e.version + 1;
  updated_at = now;
}

-- The update would break the index on external ids.
abbrev pub breaks_external : ℕ → ℕ → String → Store → Bool
breaks_external id version external s =
    is_some (first (λ e. at_version id version e && not (is_deleted e)) s.employees)
    && is_taken id external s.employees

unfoldable pub update_profile_row : ℕ → ℕ → Profile → ℕ → Tx Employee
update_profile_row id version p now s =
    if breaks_external id version p.external_id s
    then refused duplicate
    else update_employee (at_version id version) (profile_row p now) (explain_miss id version) s

unfoldable pub offboarded_row : ℕ → Employee → Employee
offboarded_row now e = record e {
  status = offboarded;
  offboarded_at = some now;
  auth_epoch = e.auth_epoch + 1;
  version = e.version + 1;
  updated_at = now;
}

abbrev pub current_if : (Employee → Bool) → ℕ → ℕ → Option Employee → Tx Employee
current_if p id version none = explain_miss id version
current_if p id version (some e) = if p e then answer e else explain_miss id version

-- Somebody who has already left is no error.
unfoldable pub offboard_row : ℕ → ℕ → ℕ → Tx Employee
offboard_row id version now =
    update_employee (λ e. at_version id version e && is_active e) (offboarded_row now)
      (λ s. current_if (λ e. not (is_active e)) id version (first (has_id id) s.employees) s)

unfoldable pub reopened_row : ℕ → Employee → Employee
reopened_row now e = record e {
  status = active;
  offboarded_at = none;
  auth_epoch = e.auth_epoch + 1;
  version = e.version + 1;
  updated_at = now;
}

unfoldable pub reopen_row : ℕ → ℕ → ℕ → Tx Employee
reopen_row id version now =
    update_employee (λ e. at_version id version e && not (is_active e)) (reopened_row now)
      (λ s. current_if is_active id version (first (has_id id) s.employees) s)

unfoldable pub deleted_row : ℕ → Employee → Employee
deleted_row now e = record e { deleted_at = some now; version = e.version + 1; updated_at = now }

abbrev pub delete_miss : ℕ → ℕ → Option Employee → Tx Employee
delete_miss id version none = refuse not_found
delete_miss id version (some e) =
    if is_deleted e
    then answer e
    else if is_active e
    then refuse still_open
    else explain_miss id version

unfoldable pub delete_row : ℕ → ℕ → ℕ → Tx Employee
delete_row id version now =
    update_employee (λ e. at_version id version e && (not (is_active e) && not (is_deleted e)))
      (deleted_row now) (λ s. delete_miss id version (first (has_id id) s.employees) s)

unfoldable pub bumped_row : ℕ → Employee → Employee
bumped_row now e = record e {
  auth_epoch = e.auth_epoch + 1;
  version = e.version + 1;
  updated_at = now;
}

unfoldable pub bump_row : ℕ → ℕ → ℕ → Tx Employee
bump_row id version now =
    update_employee (at_version id version) (bumped_row now) (explain_miss id version)

abbrev pub is_listed : String → List String → Bool
is_listed model [] = false
is_listed model (m ∷ ms) = str_eq m model || is_listed model ms

-- `select distinct unnest`.
unfoldable pub distinct : List String → List String
distinct [] = []
distinct (m ∷ ms) = let rest = distinct ms in if is_listed m rest then rest else m ∷ rest

abbrev pub is_row : ℕ → String → ℕ × String → Bool
is_row id model (e, m) = (e == id) && str_eq m model

abbrev pub is_wanted : ℕ → List String → ℕ × String → Bool
is_wanted id models (e, m) = not (e == id) || is_listed m models

abbrev pub is_new : ℕ → List (ℕ × String) → String → Bool
is_new id rows model = not (is_some (first (is_row id model) rows))

-- `employee_models` after `SetModels`: the rows no longer wanted are gone, the missing ones are there.
unfoldable pub with_models : ℕ → List String → List (ℕ × String) → List (ℕ × String)
with_models id models rows =
    select (is_wanted id models) rows
    ++ map (λ model. (id, model)) (select (is_new id rows) (distinct models))

abbrev pub models_if : ℕ → List String → Option Employee → Tx (Unit {0})
models_if id models none = refuse not_found
models_if id models (some e) = λ s. done tt (record s { models = with_models id models s.models })

unfoldable pub set_model_rows : ℕ → List String → Tx (Unit {0})
set_model_rows id models s = models_if id models (first (has_id id) s.employees) s
