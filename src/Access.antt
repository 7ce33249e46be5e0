-- ===== src/Access.antt =====
-- The tables behind an access decision and the rows that its queries pick: memberships, role
-- bindings, SCIM group memberships and access policy rules (migrations/004_auth_ops.up.sql,
-- migrations/022_enterprise_identity.up.sql), and the WHERE and ORDER BY clauses of
-- ExplainAuthorization in internal/adapters/postgres/enterprise_identity.go. `created_at` counts the
-- transactions. Of two rows of one time, the one that the table lists first stands for either.
pub mod Rows
pub mod Explain
pub mod Holds
pub mod Justified
pub mod Admin
pub mod Denied
pub mod Lockout
pub mod Changes
pub mod Bindings
pub mod Newest
use webhookery.Common.{
  ℕ, String, Bool, true, false, ◌&&◌, ◌||◌, not, List, [], ◌∷◌, ◌==◌, ltb, string_eq, Option, none,
  some, if◌then◌else◌, trim_space,
}
use webhookery.Authz.{Role, owner, admin, developer, operator, security, auditor, support, other}
use webhookery.Authz.Request.{AuthzExplainRequest}

pub record Membership : Type 0 where
  pub tenant_id : String
  pub user_id : String
  pub role : String
  pub state : String

pub record RoleBinding : Type 0 where
  pub id : String
  pub tenant_id : String
  pub principal_type : String
  pub principal_id : String
  pub role : String
  pub resource_family : String
  pub resource_id : String
  pub environment : String
  pub state : String
  pub reason : String
  pub created_by : String
  pub created_at : ℕ

pub record ScimGroupMembership : Type 0 where
  pub tenant_id : String
  pub group_id : String
  pub user_id : String

pub record AccessPolicyRule : Type 0 where
  pub id : String
  pub tenant_id : String
  pub name : String
  pub action : String
  pub effect : String
  pub resource_family : String
  pub environment : String
  pub conditions : String
  pub state : String
  pub reason : String
  pub created_by : String
  pub created_at : ℕ

pub record Tables : Type 0 where
  pub memberships : List Membership
  pub role_bindings : List RoleBinding
  pub scim_group_memberships : List ScimGroupMembership
  pub access_policy_rules : List AccessPolicyRule

unfoldable pub default_wildcard : String → String
default_wildcard value = if trim_space value == "" then "*" else trim_space value

-- `authz.Role(role)`: any text is a role, and the declared ones are these.
unfoldable pub role_of : String → Role
role_of name =
    if name == "owner"
    then owner
    else if name == "admin"
    then admin
    else if name == "developer"
    then developer
    else if name == "operator"
    then operator
    else if name == "security"
    then security
    else if name == "auditor"
    then auditor
    else if name == "support"
    then support
    else other name

-- `column = '*' OR column = $n`
unfoldable pub covers : String → String → Bool
covers column value = column == "*" || column == value

-- The rows that a WHERE clause keeps.
unfoldable pub rows_where {ℓ} : {Row : Type ℓ} → (Row → Bool) → List Row → List Row
rows_where test [] = []
rows_where test (row ∷ rows) = if test row then row ∷ rows_where test rows else rows_where test rows

-- The row that `preferred` gives over the best of the rows behind it.
unfoldable pub better {ℓ} : {Row : Type ℓ} → (Row → Row → Bool) → Row → Option Row → Option Row
better before row none = some row
better before row (some best) = if before best row then some best else some row

-- `ORDER BY … LIMIT 1`, for an order that `before` decides.
unfoldable pub first_by {ℓ} : {Row : Type ℓ} → (Row → Row → Bool) → List Row → Option Row
unfolding better
first_by before [] = none
first_by before (row ∷ rows) = better before row (first_by before rows)

unfoldable pub is_active_member : String → String → Membership → Bool
is_active_member tenant_id user_id m =
    m.tenant_id == tenant_id && m.user_id == user_id && m.state == "active"

-- The clauses on the resource, which the two queries on role bindings share.
unfoldable pub binding_covers : AuthzExplainRequest → RoleBinding → Bool
unfolding covers default_wildcard
binding_covers req b =
    covers b.resource_family req.resource_family
    && covers b.resource_id (default_wildcard req.resource_id)
    && covers b.environment (default_wildcard req.environment)

unfoldable pub is_user_binding : String → String → AuthzExplainRequest → RoleBinding → Bool
unfolding binding_covers
is_user_binding tenant_id user_id req b =
    b.tenant_id == tenant_id
    && b.principal_type == "user"
    && b.principal_id == user_id
    && b.state == "active"
    && binding_covers req b

-- The JOIN: the user stands in the group that the binding names. The state of the group is not
-- read.
unfoldable pub in_group : String → String → String → List ScimGroupMembership → Bool
in_group tenant_id user_id group_id [] = false
in_group tenant_id user_id group_id (m ∷ rest) =
    (m.tenant_id == tenant_id && m.group_id == group_id && m.user_id == user_id)
    || in_group tenant_id user_id group_id rest

unfoldable pub is_group_binding :
    List ScimGroupMembership → String → String → AuthzExplainRequest → RoleBinding → Bool
unfolding binding_covers in_group
is_group_binding groups tenant_id user_id req b =
    b.tenant_id == tenant_id
    && b.principal_type == "group"
    && b.state == "active"
    && in_group tenant_id user_id b.principal_id groups
    && binding_covers req b

unfoldable pub rule_applies : String → AuthzExplainRequest → AccessPolicyRule → Bool
unfolding covers default_wildcard
rule_applies tenant_id req p =
    p.tenant_id == tenant_id
    && p.state == "active"
    && covers p.action req.action
    && covers p.resource_family req.resource_family
    && covers p.environment (default_wildcard req.environment)

-- `ORDER BY created_at DESC`
unfoldable pub binding_before : RoleBinding → RoleBinding → Bool
binding_before a b = ltb b.created_at a.created_at

-- `ORDER BY CASE effect WHEN 'deny' THEN 0 ELSE 1 END, created_at DESC`
unfoldable pub rule_before : AccessPolicyRule → AccessPolicyRule → Bool
rule_before a b =
    if a.effect == "deny"
    then not (b.effect == "deny") || ltb b.created_at a.created_at
    else not (b.effect == "deny") && ltb b.created_at a.created_at
