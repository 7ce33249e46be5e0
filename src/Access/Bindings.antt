-- ===== src/Access/Bindings.antt =====
-- The administration of role bindings: CreateRoleBinding, UpdateRoleBinding and DisableRoleBinding in
-- internal/app/enterprise_identity.go with the checks they make, and the store's methods of the same
-- names in internal/adapters/postgres/enterprise_identity.go. The audit events are left out, and
-- `updated_at`.
use webhookery.Common.{
  ℕ, String, Bool, not, ◌&&◌, ◌||◌, List, [], ◌∷◌, ◌==◌, string_eq, Option, none, some,
  if◌then◌else◌, trim_space, Result, ok, err, ◌>>=◌, update_where,
}
use webhookery.Authz.{Actor}
use webhookery.Access.{RoleBinding, Tables, default_wildcard}
use webhookery.Access.Admin.{AdminError, forbidden, not_found, invalid_input, authorized, given}

pub record CreateRoleBindingRequest : Type 0 where
  pub principal_type : String
  pub principal_id : String
  pub role : String
  pub resource_family : String
  pub resource_id : String
  pub environment : String
  pub reason : String

pub record UpdateRoleBindingRequest : Type 0 where
  pub role : Option String
  pub resource_family : Option String
  pub resource_id : Option String
  pub environment : Option String
  pub state : Option String
  pub reason : String

unfoldable pub valid_role : String → Bool
valid_role role =
    role == "owner"
    || role == "admin"
    || role == "developer"
    || role == "operator"
    || role == "security"
    || role == "auditor"
    || role == "support"

unfoldable pub validate_role_binding : CreateRoleBindingRequest → Result AdminError (Unit {0})
validate_role_binding req =
    if not (req.principal_type == "user") && not (req.principal_type == "group")
    then err (invalid_input "principal_type must be user or group")
    else if trim_space req.principal_id == ""
    then err (invalid_input "principal_id is required")
    else if trim_space req.resource_family == "" || trim_space req.environment == ""
    then err (invalid_input "resource_family and environment are required")
    else if trim_space req.reason == ""
    then err (invalid_input "reason is required")
    else ok tt

unfoldable pub binding_row : String → ℕ → Actor → CreateRoleBindingRequest → RoleBinding
unfolding default_wildcard
binding_row id now actor req = record {
  id = id;
  tenant_id = actor.tenant_id;
  principal_type = trim_space req.principal_type;
  principal_id = trim_space req.principal_id;
  role = req.role;
  resource_family = default_wildcard req.resource_family;
  resource_id = default_wildcard req.resource_id;
  environment = default_wildcard req.environment;
  state = "active";
  reason = req.reason;
  created_by = actor.id;
  created_at = now;
}

abbrev pub with_binding : RoleBinding → Tables → Tables
with_binding row t = record t { role_bindings = row ∷ t.role_bindings }

unfoldable pub create_role_binding :
    String → ℕ → Actor → CreateRoleBindingRequest → Tables → Result AdminError Tables
unfolding authorized validate_role_binding valid_role binding_row
create_role_binding id now actor req t =
    if not (authorized t actor "security:write" "role_binding" "" "")
    then err forbidden
    else validate_role_binding req >>= (λ _.
      if not (valid_role req.role)
      then err (invalid_input "invalid role")
      else ok (with_binding (binding_row id now actor req) t))

unfoldable pub find_binding : String → String → List RoleBinding → Option RoleBinding
find_binding tenant_id id [] = none
find_binding tenant_id id (b ∷ rest) =
    if b.tenant_id == tenant_id && b.id == id then some b else find_binding tenant_id id rest

unfoldable pub rebound : UpdateRoleBindingRequest → RoleBinding → RoleBinding
unfolding given default_wildcard
rebound req b = record b {
  role = given (λ r. r) req.role b.role;
  resource_family = given default_wildcard req.resource_family b.resource_family;
  resource_id = given default_wildcard req.resource_id b.resource_id;
  environment = given default_wildcard req.environment b.environment;
  state = given (λ s. s) req.state b.state;
  reason = req.reason;
}

-- The columns that UPDATE sets.
unfoldable pub set_binding : RoleBinding → RoleBinding → RoleBinding
set_binding item row = record row {
  role = item.role;
  resource_family = item.resource_family;
  resource_id = item.resource_id;
  environment = item.environment;
  state = item.state;
  reason = item.reason;
}

unfoldable pub is_binding : String → String → RoleBinding → Bool
is_binding tenant_id id b = b.tenant_id == tenant_id && b.id == id

-- The store's method.
unfoldable pub update_binding :
    String → String → UpdateRoleBindingRequest → Tables → Result AdminError Tables
unfolding find_binding rebound update_where is_binding set_binding
update_binding tenant_id id req t = elim (find_binding tenant_id id t.role_bindings) [
  | none ↦ err not_found
  | some current ↦ ok (record t {
    role_bindings =
        update_where (is_binding tenant_id id) (set_binding (rebound req current)) t.role_bindings;
  })
]

unfoldable pub update_role_binding :
    Actor → String → UpdateRoleBindingRequest → Tables → Result AdminError Tables
unfolding authorized update_binding
update_role_binding actor id req t =
    if not (authorized t actor "security:write" "role_binding" id "")
    then err forbidden
    else if trim_space req.reason == ""
    then err (invalid_input "reason is required")
    else update_binding actor.tenant_id id req t

unfoldable pub disable_role_binding : Actor → String → String → Tables → Result AdminError Tables
unfolding authorized update_binding
disable_role_binding actor id reason t =
    if not (authorized t actor "security:write" "role_binding" id "")
    then err forbidden
    else if trim_space reason == ""
    then err (invalid_input "reason is required")
    else update_binding actor.tenant_id id
        (record {
          role = none;
          resource_family = none;
          resource_id = none;
          environment = none;
          state = some "disabled";
          reason = reason;
        })
        t
