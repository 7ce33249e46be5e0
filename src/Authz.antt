-- ===== src/Authz.antt =====
-- internal/authz/policy.go: roles, scopes and the baseline decision `Can`.
pub mod Isolation
pub mod Roles
pub mod Request
pub mod Service
use webhookery.Common.{
  String, Bool, true, false, ◌&&◌, ◌||◌, not, List, [], ◌∷◌, ◌==◌, string_eq, is_nil, contains,
  if◌then◌else◌,
}

-- The declared roles, and any other text.
pub data Role : Type 0 where
  owner admin developer operator security auditor support : Role
  other : String → Role

pub record Actor : Type 0 where
  pub id : String
  pub tenant_id : String
  pub role : Role
  pub scopes : List String
  pub source_id : String

abbrev pub developer_scopes : List String
developer_scopes =
    "sources:read" ∷ "sources:write" ∷ "endpoints:read" ∷ "endpoints:write" ∷ "subscriptions:read"
    ∷ "subscriptions:write" ∷ "routes:read" ∷ "routes:write" ∷ "schemas:read" ∷ "schemas:write"
    ∷ "events:read" ∷ "events:write" ∷ "deliveries:read" ∷ "deliveries:retry" ∷ "replay:read"
    ∷ "replay:write" ∷ "incidents:read" ∷ "incidents:write" ∷ []

abbrev pub operator_scopes : List String
operator_scopes =
    "sources:read" ∷ "endpoints:read" ∷ "subscriptions:read" ∷ "routes:read" ∷ "schemas:read"
    ∷ "events:read" ∷ "events:write" ∷ "deliveries:read" ∷ "deliveries:retry" ∷ "replay:read"
    ∷ "replay:write" ∷ "incidents:read" ∷ "incidents:write" ∷ "ops:read" ∷ "ops:write" ∷ []

abbrev pub security_scopes : List String
security_scopes =
    "security:read" ∷ "security:write" ∷ "audit:read" ∷ "events:read" ∷ "events:raw"
    ∷ "incidents:read" ∷ "incidents:write" ∷ []

abbrev pub auditor_scopes : List String
auditor_scopes =
    "audit:read" ∷ "events:read" ∷ "events:raw" ∷ "deliveries:read" ∷ "replay:read"
    ∷ "security:read" ∷ "incidents:read" ∷ []

abbrev pub support_scopes : List String
support_scopes = "events:read" ∷ "deliveries:read" ∷ "replay:read" ∷ "incidents:read" ∷ []

unfoldable pub has_scope : String → List String → Bool
unfolding contains
has_scope scope allowed = contains allowed scope

unfoldable pub role_allows : Role → String → Bool
unfolding has_scope
role_allows owner scope = true
role_allows admin scope = not (scope == "events:raw") && not (scope == "security:write")
role_allows developer scope = has_scope scope developer_scopes
role_allows operator scope = has_scope scope operator_scopes
role_allows security scope = has_scope scope security_scopes
role_allows auditor scope = has_scope scope auditor_scopes
role_allows support scope = has_scope scope support_scopes
role_allows (other name) scope = false

-- The loop over the actor's own scopes.
unfoldable pub scope_listed : List String → String → Bool
scope_listed [] scope = false
scope_listed (s ∷ rest) scope = (s == scope || s == "*") || scope_listed rest scope

unfoldable pub can : Actor → String → String → Bool
can actor scope resource_tenant_id =
    if actor.tenant_id == ""
      || resource_tenant_id == ""
      || not (actor.tenant_id == resource_tenant_id)
    then false
    else if not (role_allows actor.role scope)
    then false
    else if is_nil actor.scopes
    then true
    else scope_listed actor.scopes scope
