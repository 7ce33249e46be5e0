-- ===== src/Access/Explain.antt =====
-- ExplainAuthorization in internal/adapters/postgres/enterprise_identity.go: a role that the actor
-- holds grants the action, and the first access policy rule overrules it. A query that fails counts
-- as one that finds no row. The row of authz_decision_logs that the call leaves is left out.
use webhookery.Common.{
  String, true, false, List, [], ◌∷◌, ◌==◌, string_eq, Option, none, some, if◌then◌else◌,
}
use webhookery.Authz.{Actor, can}
use webhookery.Authz.Request.{AuthzExplainRequest, Decision, Explain}
use webhookery.Access.{
  Membership, RoleBinding, AccessPolicyRule, Tables, role_of, rows_where, first_by,
  is_active_member, is_user_binding, is_group_binding, rule_applies, binding_before, rule_before,
}

-- The actor that `authz.Can` is asked about: it has no scope list, so its role alone decides.
unfoldable pub holder : String → String → String → Actor
unfolding role_of
holder tenant_id actor_id role = record {
  id = actor_id;
  tenant_id = tenant_id;
  role = role_of role;
  scopes = [];
  source_id = "";
}

-- The scan of the one row, if there is one.
unfoldable pub first_role : List Membership → Option String
first_role [] = none
first_role (m ∷ rest) = some (m.role)

unfoldable pub membership_role : Tables → String → String → Option String
unfolding first_role rows_where is_active_member
membership_role t tenant_id actor_id =
    first_role (rows_where (is_active_member tenant_id actor_id) t.memberships)

unfoldable pub user_binding : Tables → String → String → AuthzExplainRequest → Option RoleBinding
unfolding rows_where first_by is_user_binding binding_before
user_binding t tenant_id actor_id req =
    first_by binding_before (rows_where (is_user_binding tenant_id actor_id req) t.role_bindings)

unfoldable pub group_binding : Tables → String → String → AuthzExplainRequest → Option RoleBinding
unfolding rows_where first_by is_group_binding binding_before
group_binding t tenant_id actor_id req =
    first_by binding_before (
      rows_where (is_group_binding t.scim_group_memberships tenant_id actor_id req) t.role_bindings)

unfoldable pub policy_rule : Tables → String → AuthzExplainRequest → Option AccessPolicyRule
unfolding rows_where first_by rule_applies rule_before
policy_rule t tenant_id req =
    first_by rule_before (rows_where (rule_applies tenant_id req) t.access_policy_rules)

-- A binding whose role lets the action through grants it; otherwise the next query decides.
unfoldable pub grant_by_binding :
    String
    → String
    → AuthzExplainRequest
    → String
    → Decision
    → Option RoleBinding
    → Decision
    → Decision
unfolding holder can
grant_by_binding tenant_id actor_id req reason d none next = next
grant_by_binding tenant_id actor_id req reason d (some b) next =
    if can (holder tenant_id actor_id b.role) req.action tenant_id
    then record d {
      allowed = true;
      matched_role = b.role;
      matched_role_binding_id = b.id;
      reason = reason;
    }
    else next

unfoldable pub grant_by_membership :
    String → String → AuthzExplainRequest → Decision → Option String → Decision → Decision
unfolding holder can
grant_by_membership tenant_id actor_id req d none next = next
grant_by_membership tenant_id actor_id req d (some role) next =
    if can (holder tenant_id actor_id role) req.action tenant_id
    then record d { allowed = true; matched_role = role; reason = "allowed by baseline role" }
    else next

-- The switch on the effect of the rule; another text leaves the decision as it is.
unfoldable pub overrule : Option AccessPolicyRule → Decision → Decision
overrule none d = d
overrule (some p) d =
    if p.effect == "deny"
    then record d {
      matched_policy_rule_id = p.id;
      allowed = false;
      reason = "denied by access policy";
    }
    else if p.effect == "allow"
    then record d {
      matched_policy_rule_id = p.id;
      allowed = true;
      reason = "allowed by access policy";
    }
    else record d { matched_policy_rule_id = p.id }

unfoldable pub unmatched : String → AuthzExplainRequest → Decision
unmatched tenant_id req = record {
  allowed = false;
  action = req.action;
  resource = record {
    tenant_id = tenant_id;
    family = req.resource_family;
    id = req.resource_id;
    environment = req.environment;
    attributes = [];
  };
  reason = "no matching role binding or baseline role";
  matched_role = "";
  matched_role_binding_id = "";
  matched_policy_rule_id = "";
  required_scopes = [];
}

-- The query that is made last.
unfoldable pub granted_by_group : Tables → String → String → AuthzExplainRequest → Decision
unfolding unmatched group_binding grant_by_binding
granted_by_group t tenant_id actor_id req =
    grant_by_binding tenant_id actor_id req "allowed by group role binding"
      (unmatched tenant_id req) (group_binding t tenant_id actor_id req) (unmatched tenant_id req)

unfoldable pub granted_by_binding : Tables → String → String → AuthzExplainRequest → Decision
unfolding unmatched user_binding grant_by_binding granted_by_group
granted_by_binding t tenant_id actor_id req =
    grant_by_binding tenant_id actor_id req "allowed by resource role binding"
      (unmatched tenant_id req) (user_binding t tenant_id actor_id req)
      (granted_by_group t tenant_id actor_id req)

unfoldable pub granted : Tables → String → String → AuthzExplainRequest → Decision
unfolding unmatched membership_role grant_by_membership granted_by_binding
granted t tenant_id actor_id req =
    grant_by_membership tenant_id actor_id req (unmatched tenant_id req)
      (membership_role t tenant_id actor_id) (granted_by_binding t tenant_id actor_id req)

unfoldable pub explain_authorization : Tables → String → String → AuthzExplainRequest → Decision
unfolding overrule granted policy_rule
explain_authorization t tenant_id actor_id req =
    overrule (policy_rule t tenant_id req) (granted t tenant_id actor_id req)

-- The store as the authorization service asks it.
abbrev pub explain_from : Tables → Explain
explain_from t tenant_id actor_id req = some (explain_authorization t tenant_id actor_id req)
