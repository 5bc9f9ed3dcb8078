-- ===== src/Account/Access.antt =====
-- What gives an employee access: the statements of go/internal/dbstore/bindings.go, grants.go and
-- credentials.go, with the unique indexes of db/migrations/0001_init.up.sql.
use Prim.Native.Nat.{max}
use ai_env_mgr.Base.{
  ltb, ℕ, ◌+◌, String, Bool, true, false, not, ◌&&◌, ◌||◌, Option, none, some, List, [], ◌∷◌, ◌++◌,
  str_eq, ◌==◌, if◌then◌else◌, update_where, first, is_some, affected,
}
use ai_env_mgr.Task.{left}
use ai_env_mgr.Account.{
  Actual, missing, Binding, is_bound, Grant, NewGrant, Desired, active, revoked, unknown,
  Credential, NewCredential,
}
use ai_env_mgr.Release.{Store, not_found, duplicate, required, done, refused, Tx, ◌>>◌}

abbrev pub bound_to : ℕ → Binding → Bool
bound_to device b = (b.device_id == device) && is_bound b

-- The row that `Open` reads.
unfoldable pub open_binding : ℕ → Store → Option Binding
open_binding device s = first (bound_to device) s.bindings

-- `coalesce(max(epoch), 0)` of the machine's bindings.
unfoldable pub last_epoch : ℕ → List Binding → ℕ
last_epoch device [] = 0
last_epoch device (b ∷ bs) =
    let rest = last_epoch device bs in if b.device_id == device then max b.epoch rest else rest

unfoldable pub new_binding : ℕ → ℕ → ℕ → ℕ → String → String → ℕ → Binding
new_binding fresh device employee epoch note by now = record {
  id = fresh;
  device_id = device;
  employee_id = employee;
  epoch = epoch;
  note = note;
  bound_at = now;
  bound_by = by;
  unbound_at = none;
  unbound_by = "";
  restart_nonce = "";
  restart_at = none;
}

-- `Bind`; ids that the other tables handed out are not empty.
unfoldable pub bind_row : ℕ → ℕ → String → String → ℕ → Tx Binding
bind_row device employee note by now s =
    let b = new_binding s.next_id device employee (last_epoch device s.bindings + 1) note by now in
    if is_some (open_binding device s)
    then refused duplicate
    else done b (record s { bindings = s.bindings ++ b ∷ []; next_id = s.next_id + 1 })

-- `update device_bindings set f where device_id = $1 and unbound_at is null returning`.
abbrev pub update_bound : ℕ → (Binding → Binding) → Option Binding → Tx Binding
update_bound device f none s = refused not_found
update_bound device f (some b) s =
    done (f b) (record s { bindings = update_where (bound_to device) f s.bindings })

unfoldable pub unbound_row : String → ℕ → Binding → Binding
unbound_row by now b = record b { unbound_at = some now; unbound_by = by }

unfoldable pub unbind_row : ℕ → String → ℕ → Tx Binding
unbind_row device by now s = update_bound device (unbound_row by now) (open_binding device s) s

unfoldable pub restart_row : String → ℕ → Binding → Binding
restart_row nonce now b = record b { restart_nonce = nonce; restart_at = some now }

unfoldable pub request_restart : ℕ → String → ℕ → Tx Binding
request_restart device nonce now s =
    if str_eq nonce ""
    then refused required
    else update_bound device (restart_row nonce now) (open_binding device s) s

abbrev pub default_gateway : String → String
default_gateway name = if str_eq name "" then "litellm" else name

abbrev pub is_wanted : Desired → Bool
is_wanted active = true
is_wanted revoked = false

abbrev pub is_grant_of : String → ℕ → Grant → Bool
is_grant_of gateway employee g =
    str_eq g.gateway gateway && ((g.employee_id == employee) && is_wanted g.desired)

-- The row that `Active` reads.
unfoldable pub active_grant : String → ℕ → Store → Option Grant
active_grant gateway employee s = first (is_grant_of (default_gateway gateway) employee) s.grants

abbrev pub has_grant_id : ℕ → Grant → Bool
has_grant_id id g = g.id == id

-- `update gateway_grants set f where id = $1 returning`.
abbrev pub update_grant : ℕ → (Grant → Grant) → Option Grant → Tx Grant
update_grant id f none s = refused not_found
update_grant id f (some g) s =
    done (f g) (record s { grants = update_where (has_grant_id id) f s.grants })

unfoldable pub revoked_row : ℕ → Grant → Grant
revoked_row now g = record g { desired = revoked; updated_at = now }

unfoldable pub revoke_row : ℕ → ℕ → Tx Grant
revoke_row id now s = update_grant id (revoked_row now) (first (has_grant_id id) s.grants) s

unfoldable pub new_grant : NewGrant → ℕ → ℕ → Grant
new_grant n fresh now = record {
  id = fresh;
  employee_id = n.employee_id;
  epoch = n.epoch;
  gateway = default_gateway n.gateway;
  external_user = n.external_user;
  key_alias = n.key_alias;
  models = n.models;
  desired = active;
  actual = unknown;
  credential_id = n.credential_id;
  reconciled_at = none;
  last_error = "";
  created_at = now;
  updated_at = now;
}

abbrev pub has_alias : String → String → Grant → Bool
has_alias gateway alias g = str_eq g.gateway gateway && str_eq g.key_alias alias

unfoldable pub create_grant : NewGrant → ℕ → Tx Grant
create_grant n now s =
    if (str_eq n.external_user "" || str_eq n.key_alias "") || (n.epoch == 0)
    then refused required
    else if is_some (active_grant n.gateway n.employee_id s)
        || is_some (first (has_alias (default_gateway n.gateway) n.key_alias) s.grants)
    then refused duplicate
    else done (new_grant n s.next_id now)
        (record s { grants = s.grants ++ new_grant n s.next_id now ∷ []; next_id = s.next_id + 1 })

abbrev pub is_live : ℕ → String → Credential → Bool
is_live employee purpose c =
    (c.employee_id == employee) && (str_eq c.purpose purpose && not (is_some c.retired_at))

-- The row that `Live` reads.
unfoldable pub live_credential : ℕ → String → Store → Option Credential
live_credential employee purpose s = first (is_live employee purpose) s.credentials

-- `Retire`; having none is no error.
unfoldable pub retire : ℕ → String → ℕ → Tx ℕ
retire employee purpose now s = done (affected (is_live employee purpose) s.credentials) (record s {
  credentials =
      update_where (is_live employee purpose) (λ c. record c { retired_at = some now })
        s.credentials;
})

abbrev pub is_nothing : List ℕ → Bool
is_nothing [] = true
is_nothing (b ∷ bs) = false

unfoldable pub new_credential : NewCredential → ℕ → ℕ → Credential
new_credential n fresh now = record {
  id = fresh;
  employee_id = n.employee_id;
  epoch = n.epoch;
  purpose = n.purpose;
  ciphertext = n.ciphertext;
  key_version = n.key_version;
  content_sha256 = n.content_sha256;
  created_at = now;
  retired_at = none;
}

abbrev pub insert_credential : NewCredential → ℕ → Tx Credential
insert_credential n now s =
    if is_some (live_credential n.employee_id n.purpose s)
    then refused duplicate
    else done (new_credential n s.next_id now) (record s {
      credentials = s.credentials ++ new_credential n s.next_id now ∷ [];
      next_id = s.next_id + 1;
    })

-- `Store`: the live credential is retired, then the new one is stored.
unfoldable pub store_credential : NewCredential → ℕ → Tx Credential
store_credential n now =
    if (str_eq n.purpose "" || is_nothing n.ciphertext)
      || (str_eq n.key_version "" || (n.epoch == 0))
    then (λ s. refused required)
    else (do retire n.employee_id n.purpose now; insert_credential n now)

-- `RecordActual`, for a state that is one of the four.
unfoldable pub observed_row : Actual → String → ℕ → Grant → Grant
observed_row actual reason now g = record g {
  actual = actual;
  reconciled_at = some now;
  last_error = left 2000 reason;
  updated_at = now;
}

unfoldable pub record_actual : ℕ → Actual → String → ℕ → Tx Grant
record_actual id actual reason now s =
    update_grant id (observed_row actual reason now) (first (has_grant_id id) s.grants) s

-- `SetModels` of a grant.
unfoldable pub set_grant_models : ℕ → List String → ℕ → Tx Grant
set_grant_models id models now s =
    update_grant id (λ g. record g { models = models; updated_at = now })
      (first (has_grant_id id) s.grants) s

-- The row that `ByKeyAlias` reads.
unfoldable pub grant_by_alias : String → String → Store → Option Grant
grant_by_alias gateway alias s = first (has_alias (default_gateway gateway) alias) s.grants

abbrev is_unknown : Actual → Bool
is_unknown unknown = true
is_unknown _ = false

abbrev is_served : Actual → Bool
is_served active = true
is_served _ = false

-- `actual in ('revoked', 'missing')`.
abbrev is_gone : Actual → Bool
is_gone revoked = true
is_gone missing = true
is_gone _ = false

-- `reconciled_at is null or reconciled_at < now() - stale_after`.
abbrev is_stale : ℕ → ℕ → Option ℕ → Bool
is_stale stale_after now none = true
is_stale stale_after now (some t) = ltb (t + stale_after) now

-- The `where` of `NeedsReconcile`.
unfoldable pub needs_reconcile : String → ℕ → ℕ → Grant → Bool
needs_reconcile gateway stale_after now g =
    str_eq g.gateway (default_gateway gateway)
    && (is_unknown g.actual
        || (is_stale stale_after now g.reconciled_at
            || ((is_wanted g.desired && not (is_served g.actual))
                || (not (is_wanted g.desired) && not (is_gone g.actual)))))

abbrev pub has_credential_id : ℕ → Credential → Bool
has_credential_id id c = c.id == id

abbrev pub update_credential : ℕ → (Credential → Credential) → Option Credential → Tx (Unit {0})
update_credential id f none s = refused not_found
update_credential id f (some c) s =
    done tt (record s { credentials = update_where (has_credential_id id) f s.credentials })

-- `Reseal` of a stored credential.
unfoldable pub reseal_credential : ℕ → List ℕ → String → Tx (Unit {0})
reseal_credential id ciphertext version s =
    if is_nothing ciphertext || str_eq version ""
    then refused required
    else update_credential id (λ c. record c { ciphertext = ciphertext; key_version = version })
        (first (has_credential_id id) s.credentials) s
