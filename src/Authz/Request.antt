-- ===== src/Authz/Request.antt =====
-- internal/app/authorization.go: `Authorize` asks the enterprise store, if there is one, and falls
-- back on the baseline roles when there is none or when it fails.
use webhookery.Common.{
  String, Bool, true, false, ◌||◌, not, List, [], ◌∷◌, ◌==◌, string_eq, is_nil, trim_space, Option,
  none, some, if◌then◌else◌,
}
use webhookery.Authz.{
  Actor, Role, owner, admin, developer, operator, security, auditor, support, other, can,
}

-- `Attributes` is a map that the service only clears: a list of pairs, empty for nil.
pub record Resource : Type 0 where
  pub tenant_id : String
  pub family : String
  pub id : String
  pub environment : String
  pub attributes : List (String × String)

pub record Decision : Type 0 where
  pub allowed : Bool
  pub action : String
  pub resource : Resource
  pub reason : String
  pub matched_role : String
  pub matched_role_binding_id : String
  pub matched_policy_rule_id : String
  pub required_scopes : List String

pub record AuthorizationRequest : Type 0 where
  pub actor : Actor
  pub tenant_id : String
  pub action : String
  pub resource_family : String
  pub resource_id : String
  pub environment : String

pub record AuthzExplainRequest : Type 0 where
  pub action : String
  pub resource_family : String
  pub resource_id : String
  pub environment : String

-- `ExplainAuthorization` of the enterprise store: tenant, actor and request to a decision or an
-- error. The database behind it is not modelled.
abbrev pub Explain : Type 0
Explain = String → String → AuthzExplainRequest → Option Decision

abbrev pub role_name : Role → String
role_name owner = "owner"
role_name admin = "admin"
role_name developer = "developer"
role_name operator = "operator"
role_name security = "security"
role_name auditor = "auditor"
role_name support = "support"
role_name (other name) = name

-- The loop compares in the other order than `Can`, which makes no difference to the answer.
unfoldable pub star_or_listed : List String → String → Bool
star_or_listed [] action = false
star_or_listed (s ∷ rest) action = (s == "*" || s == action) || star_or_listed rest action

unfoldable pub actor_scopes_allow : Actor → String → Bool
unfolding star_or_listed
actor_scopes_allow actor action =
    if is_nil actor.scopes then true else star_or_listed actor.scopes action

unfoldable pub redact_authorization_decision : Decision → Decision
redact_authorization_decision d = record d { resource = record (d.resource) { attributes = [] } }

-- What becomes of the store's answer.
unfoldable pub narrow : Actor → String → Decision → Decision
narrow actor action explained =
    let redacted =
      redact_authorization_decision (record explained { required_scopes = action ∷ [] }) in
    if not redacted.allowed
    then redacted
    else if not (actor_scopes_allow actor action)
    then record redacted { allowed = false; reason = "actor scope does not allow action" }
    else redacted

unfoldable pub baseline : Actor → String → Decision → Decision
baseline actor action decision =
    if not (can actor action decision.resource.tenant_id)
    then record decision { reason = "baseline role or scope does not allow action" }
    else record decision {
      allowed = true;
      reason = "allowed by baseline role";
      matched_role = role_name actor.role;
    }

unfoldable pub ask : Option Explain → String → String → AuthzExplainRequest → Option Decision
ask none tenant actor req = none
ask (some explain) tenant actor req = explain tenant actor req

abbrev pub resource_of : AuthorizationRequest → Resource
resource_of req = record {
  tenant_id = trim_space req.tenant_id;
  family = trim_space req.resource_family;
  id = trim_space req.resource_id;
  environment = trim_space req.environment;
  attributes = [];
}

abbrev pub explain_request : Decision → AuthzExplainRequest
explain_request d = record {
  action = d.action;
  resource_family = d.resource.family;
  resource_id = d.resource.id;
  environment = d.resource.environment;
}

-- The two ways to an answer once the request is complete and stays in the actor's tenant.
unfoldable pub decide : Option Explain → AuthorizationRequest → Decision → Decision
unfolding narrow baseline ask
decide store req decision =
    elim (ask store decision.resource.tenant_id req.actor.id (explain_request decision)) [
      | some explained ↦ narrow req.actor decision.action explained
      | none ↦ baseline req.actor decision.action decision
    ]

-- The decision that the service starts from.
abbrev pub undecided : AuthorizationRequest → Decision
undecided req = record {
  allowed = false;
  action = trim_space req.action;
  resource = resource_of req;
  reason = "authorization context is incomplete";
  matched_role = "";
  matched_role_binding_id = "";
  matched_policy_rule_id = "";
  required_scopes = trim_space req.action ∷ [];
}

unfoldable pub authorize : Option Explain → AuthorizationRequest → Decision
unfolding decide
authorize store req =
    if req.actor.id == ""
      || req.actor.tenant_id == ""
      || trim_space req.tenant_id == ""
      || trim_space req.action == ""
      || trim_space req.resource_family == ""
    then undecided req
    else if not (req.actor.tenant_id == trim_space req.tenant_id)
    then record (undecided req) { reason = "actor tenant does not match resource tenant" }
    else decide store req (undecided req)
