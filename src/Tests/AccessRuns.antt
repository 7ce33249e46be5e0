-- ===== src/Tests/AccessRuns.antt =====
-- Runs of the access decisions and of the administration of access policy rules
-- (internal/adapters/postgres/enterprise_identity.go, internal/app/enterprise_identity.go).
use webhookery.Common.{
  true, false, List, [], ◌∷◌, some, ◌≡◌, ◌≢◌, ◌↔◌, ◌≤◌, sym, subst, ◌⊎◌, inl, inr, refl, arith,
  eq_iff, trim_space, ok,
}
use mathlib.Core.List.{Memᴰ}
use webhookery.Authz.{Actor, owner, can, role_allows}
use webhookery.Authz.Request.{
  AuthzExplainRequest, authorize, redact_authorization_decision, actor_scopes_allow,
}
use webhookery.Access.{
  RoleBinding, AccessPolicyRule, Tables, default_wildcard, role_of, covers, rows_where, better,
  first_by, is_active_member, binding_covers, is_user_binding, in_group, is_group_binding,
  rule_applies,
}
use webhookery.Access.Explain.{
  holder, first_role, membership_role, user_binding, group_binding, policy_rule, grant_by_binding,
  grant_by_membership, overrule, unmatched, granted_by_group, granted_by_binding, granted,
  explain_authorization,
}
use webhookery.Access.Justified.{Undenied, RuleAllows, RoleGrants, explain_authorization_justified}
use webhookery.Access.Admin.{
  CreateAccessPolicyRuleRequest, UpdateAccessPolicyRuleRequest, authorized, find_rule, name_taken,
  update_access_policy_rule,
}
use webhookery.Access.Bindings.{
  CreateRoleBindingRequest, valid_role, validate_role_binding, binding_row, with_binding,
  create_role_binding,
}
use webhookery.Access.Newest.{create_role_binding_newest}
use webhookery.Access.Denied.{
  Refused, authorized_denied, denying, update_access_policy_rule-Refused,
}
use webhookery.Access.Lockout.{IsOpen}
use webhookery.Access.Changes.{Change, create, update, disable, run_changes, run_changes-IsOpen}

abbrev rule : AccessPolicyRule
rule = record {
  id = "apr_1";
  tenant_id = "ten_1";
  name = "administrators";
  action = "security:write";
  effect = "allow";
  resource_family = "*";
  environment = "*";
  conditions = "{}";
  state = "active";
  reason = "setup";
  created_by = "usr_1";
  created_at = 1;
}

abbrev export_rule : AccessPolicyRule
export_rule = record rule {
  id = "apr_2";
  name = "exports";
  action = "*";
  effect = "deny";
  resource_family = "audit_export";
}

abbrev tables : Tables
tables = record {
  memberships =
      record { tenant_id = "ten_1"; user_id = "usr_1"; role = "owner"; state = "active" } ∷ [];
  role_bindings =
      record {
        id = "rbn_1";
        tenant_id = "ten_1";
        principal_type = "group";
        principal_id = "grp_1";
        role = "operator";
        resource_family = "delivery";
        resource_id = "*";
        environment = "*";
        state = "active";
        reason = "on call";
        created_by = "usr_1";
        created_at = 2;
      }
      ∷ [];
  scim_group_memberships =
      record { tenant_id = "ten_1"; group_id = "grp_1"; user_id = "usr_2" } ∷ [];
  access_policy_rules = rule ∷ export_rule ∷ [];
}

abbrev founder : Actor
founder = record { id = "usr_1"; tenant_id = "ten_1"; role = owner; scopes = []; source_id = "" }

abbrev retrying : AuthzExplainRequest
retrying = record {
  action = "deliveries:retry";
  resource_family = "delivery";
  resource_id = "";
  environment = "prod";
}

member_of_group_runs : (explain_authorization tables "ten_1" "usr_2" retrying).allowed ≡ true
unfolding explain_authorization policy_rule granted granted_by_binding granted_by_group overrule
    unmatched membership_role first_role user_binding group_binding grant_by_membership
    grant_by_binding holder role_of can role_allows rows_where first_by better is_active_member
    is_user_binding is_group_binding in_group binding_covers rule_applies covers default_wildcard
    trim_space
member_of_group_runs = refl

explain_authorization_justified_example :
    Undenied tables "ten_1" retrying
    × (RuleAllows tables "ten_1" retrying ⊎ RoleGrants tables "ten_1" "usr_2" retrying)
explain_authorization_justified_example =
    explain_authorization_justified tables "ten_1" "usr_2" retrying member_of_group_runs

founder_may : authorized tables founder "security:write" "access_policy" "apr_1" "" ≡ true
unfolding authorized authorize redact_authorization_decision actor_scopes_allow
    explain_authorization policy_rule granted granted_by_binding granted_by_group overrule unmatched
    membership_role first_role user_binding group_binding grant_by_membership grant_by_binding
    holder role_of can role_allows rows_where first_by better is_active_member is_user_binding
    is_group_binding in_group binding_covers rule_applies covers default_wildcard trim_space
founder_may = refl

-- An owner is refused by the rule on exports.
authorized_denied_example : authorized tables founder "audit:export" "audit_export" "" "" ≡ false
unfolding trim_space
authorized_denied_example =
    authorized_denied tables founder "audit:export" "audit_export" "" ""
      (Memᴰ.tail (Memᴰ.head refl)) (refl, refl, inl refl, inr refl, inl refl) refl

reason_runs : trim_space "freeze" ≢ ""
unfolding trim_space
reason_runs h = let clash = (eq_iff "freeze" "").1 h in cc clash

update_access_policy_rule-Refused_example :
    (after : Tables) × (update_access_policy_rule founder "apr_1" (denying "freeze") tables
      ≡ ok after)
    × Refused after "ten_1"
unfolding find_rule name_taken
update_access_policy_rule-Refused_example =
    update_access_policy_rule-Refused tables founder "apr_1" "freeze" rule refl refl refl (inr refl)
      refl refl reason_runs founder_may

abbrev freeze : CreateAccessPolicyRuleRequest
freeze = record {
  name = "freeze";
  action = "*";
  effect = "deny";
  resource_family = "Security";
  environment = "*";
  conditions = "";
  reason = "freeze";
}

abbrev narrowed : UpdateAccessPolicyRuleRequest
narrowed = record (denying "freeze") {
  action = some "events:read";
  resource_family = some "endpoint";
  environment = some "*";
}

abbrev changes : List (Actor × Change)
changes =
    (founder, create "apr_3" 3 freeze)
    ∷ (founder, create "apr_4" 4 (record freeze { resource_family = "endpoint" }))
    ∷ (founder, update "apr_1" narrowed)
    ∷ (founder, disable "apr_1" "unused")
    ∷ []

tables-IsOpen : IsOpen tables
tables-IsOpen = (
  λ locks. let clash = (eq_iff "allow" "deny").1 locks.1 in cc clash,
  (
    λ locks. elim locks.3 [
      | inl every ↦ let clash = (eq_iff "audit_export" "*").1 every in cc clash
      | inr own ↦ let clash = (eq_iff "audit_export" "security").1 own in cc clash
    ],
    tt,
  ),
)

run_changes-IsOpen_example : IsOpen (run_changes (λ text. true) changes tables)
run_changes-IsOpen_example =
    run_changes-IsOpen (λ text. true) changes tables
      (tt, (tt, ((λ h. cc h, λ h. cc h, λ h. cc h, λ h. cc h), (tt, tt)))) tables-IsOpen

-- A user with an operator's binding is given a support binding on top.
abbrev operating : Tables
operating = record tables {
  role_bindings =
      record {
        id = "rbn_2";
        tenant_id = "ten_1";
        principal_type = "user";
        principal_id = "usr_3";
        role = "operator";
        resource_family = "*";
        resource_id = "*";
        environment = "*";
        state = "active";
        reason = "on call";
        created_by = "usr_1";
        created_at = 3;
      }
      ∷ [];
}

abbrev support_request : CreateRoleBindingRequest
support_request = record {
  principal_type = "user";
  principal_id = "usr_3";
  role = "support";
  resource_family = "delivery";
  resource_id = "";
  environment = "*";
  reason = "help desk";
}

support_runs :
    create_role_binding "rbn_3" 4 founder support_request operating
    ≡ ok (with_binding (binding_row "rbn_3" 4 founder support_request) operating)
unfolding create_role_binding validate_role_binding valid_role binding_row authorized authorize
    redact_authorization_decision actor_scopes_allow explain_authorization policy_rule granted
    granted_by_binding granted_by_group overrule unmatched membership_role first_role user_binding
    group_binding grant_by_membership grant_by_binding holder role_of can role_allows rows_where
    first_by better is_active_member is_user_binding is_group_binding in_group binding_covers
    rule_applies covers default_wildcard trim_space
support_runs = refl

operator_runs : (explain_authorization operating "ten_1" "usr_3" retrying).allowed ≡ true
unfolding explain_authorization policy_rule granted granted_by_binding granted_by_group overrule
    unmatched membership_role first_role user_binding group_binding grant_by_membership
    grant_by_binding holder role_of can role_allows rows_where first_by better is_active_member
    is_user_binding is_group_binding in_group binding_covers rule_applies covers default_wildcard
    trim_space
operator_runs = refl

create_role_binding_newest_example :
    ((explain_authorization
        (with_binding (binding_row "rbn_3" 4 founder support_request) operating)
        "ten_1"
        "usr_3"
        retrying).allowed
      ≡ true)
    ↔ (role_allows (role_of "support") "deliveries:retry" ≡ true)
unfolding membership_role first_role group_binding policy_rule rows_where first_by better
    is_active_member is_user_binding is_group_binding in_group binding_covers rule_applies covers
    default_wildcard trim_space binding_row
create_role_binding_newest_example =
    create_role_binding_newest "rbn_3" 4 founder support_request operating "usr_3" retrying
      support_runs refl
      (λ r m. elim m [
        | Memᴰ.head p ↦ subst (λ (x : RoleBinding). x.created_at ≤ 4) (sym p) (omega arith)
        | Memᴰ.tail later ↦ elim later [ ]
      ])
      refl refl refl
