-- ===== src/Access/Justified.antt =====
-- What stands behind the decisions of ExplainAuthorization
-- (internal/adapters/postgres/enterprise_identity.go), and what `Authorize`
-- (internal/app/authorization.go) makes of a denied one.
use webhookery.Common.{
  String, true, false, ◌==◌, string_eq, Option, none, some, ◌≡◌, ◌≢◌, ◌⊎◌, inl, inr, refl, arith,
  eq_iff, Bool-cases,
}
use mathlib.Core.List.{Memᴰ}
use webhookery.Authz.{role_allows, can}
use webhookery.Authz.Request.{AuthzExplainRequest, Decision}
use webhookery.Access.{RoleBinding, AccessPolicyRule, Tables, role_of, rule_applies, rule_before}
use webhookery.Access.Explain.{
  holder, membership_role, user_binding, group_binding, policy_rule, grant_by_binding,
  grant_by_membership, overrule, unmatched, granted, granted_by_binding, granted_by_group,
  explain_authorization,
}
use webhookery.Access.Holds.{
  HoldsRole, holder-allows, membership_role-holds, user_binding-holds, group_binding-holds,
}
use webhookery.Access.Rows.{
  Applies, rule_applies_iff, rows_where→mem, mem→rows_where, first_by→mem, first_by-deny,
}

abbrev pub Undenied : Tables → String → AuthzExplainRequest → Type 0
Undenied t tenant_id req =
    (p : AccessPolicyRule)
    → Memᴰ p t.access_policy_rules
    → Applies tenant_id req p
    → p.effect ≢ "deny"

-- A role that the actor holds grants the action.
abbrev pub RoleGrants : Tables → String → String → AuthzExplainRequest → Type 0
RoleGrants t tenant_id actor_id req =
    (role : String) × HoldsRole t tenant_id actor_id req role
    × (role_allows (role_of role) req.action ≡ true)

-- An active rule of the tenant over the request allows it.
abbrev pub RuleAllows : Tables → String → AuthzExplainRequest → Type 0
RuleAllows t tenant_id req =
    (p : AccessPolicyRule) × Memᴰ p t.access_policy_rules
    × Applies tenant_id req p
    × (p.effect ≡ "allow")

grant_by_binding_allowed :
    (tenant_id actor_id : String) (req : AuthzExplainRequest) (reason : String) (d next : Decision)
    (b : Option RoleBinding)
    → (grant_by_binding tenant_id actor_id req reason d b next).allowed ≡ true
    → ((found : RoleBinding) × (b ≡ some found)
        × (can (holder tenant_id actor_id found.role) req.action tenant_id ≡ true))
      ⊎ (next.allowed ≡ true)
unfolding grant_by_binding
grant_by_binding_allowed tenant_id actor_id req reason d next none h = inr h
grant_by_binding_allowed tenant_id actor_id req reason d next (some b) h =
    elim (Bool-cases (can (holder tenant_id actor_id b.role) req.action tenant_id)) [
      | inl can_it ↦ inl (b, refl, can_it)
      | inr cannot ↦ inr (rw cannot at h)
    ]

grant_by_membership_allowed :
    (tenant_id actor_id : String) (req : AuthzExplainRequest) (d next : Decision)
    (role : Option String)
    → (grant_by_membership tenant_id actor_id req d role next).allowed ≡ true
    → ((found : String) × (role ≡ some found)
        × (can (holder tenant_id actor_id found) req.action tenant_id ≡ true))
      ⊎ (next.allowed ≡ true)
unfolding grant_by_membership
grant_by_membership_allowed tenant_id actor_id req d next none h = inr h
grant_by_membership_allowed tenant_id actor_id req d next (some role) h =
    elim (Bool-cases (can (holder tenant_id actor_id role) req.action tenant_id)) [
      | inl can_it ↦ inl (role, refl, can_it)
      | inr cannot ↦ inr (rw cannot at h)
    ]

granted_by_group_allowed :
    (t : Tables) (tenant_id actor_id : String) (req : AuthzExplainRequest)
    → (granted_by_group t tenant_id actor_id req).allowed ≡ true
    → RoleGrants t tenant_id actor_id req
unfolding granted_by_group unmatched
granted_by_group_allowed t tenant_id actor_id req h =
    elim (grant_by_binding_allowed tenant_id actor_id req "allowed by group role binding"
      (unmatched tenant_id req) (unmatched tenant_id req) (group_binding t tenant_id actor_id req)
      h) [
        | inl (b, found, can_it) ↦ (
          b.role,
          group_binding-holds t tenant_id actor_id req found,
          holder-allows tenant_id actor_id b.role req.action can_it,
        )
        | inr next ↦ cc
      ]

granted_by_binding_allowed :
    (t : Tables) (tenant_id actor_id : String) (req : AuthzExplainRequest)
    → (granted_by_binding t tenant_id actor_id req).allowed ≡ true
    → RoleGrants t tenant_id actor_id req
unfolding granted_by_binding
granted_by_binding_allowed t tenant_id actor_id req h =
    elim (grant_by_binding_allowed tenant_id actor_id req "allowed by resource role binding"
      (unmatched tenant_id req) (granted_by_group t tenant_id actor_id req)
      (user_binding t tenant_id actor_id req) h) [
        | inl (b, found, can_it) ↦ (
          b.role,
          user_binding-holds t tenant_id actor_id req found,
          holder-allows tenant_id actor_id b.role req.action can_it,
        )
        | inr next ↦ granted_by_group_allowed t tenant_id actor_id req next
      ]

granted_allowed :
    (t : Tables) (tenant_id actor_id : String) (req : AuthzExplainRequest)
    → (granted t tenant_id actor_id req).allowed ≡ true
    → RoleGrants t tenant_id actor_id req
unfolding granted
granted_allowed t tenant_id actor_id req h =
    elim (grant_by_membership_allowed tenant_id actor_id req (unmatched tenant_id req)
      (granted_by_binding t tenant_id actor_id req) (membership_role t tenant_id actor_id) h) [
        | inl (role, found, can_it) ↦ (
          role,
          membership_role-holds t tenant_id actor_id req found,
          holder-allows tenant_id actor_id role req.action can_it,
        )
        | inr next ↦ granted_by_binding_allowed t tenant_id actor_id req next
      ]

-- A rule that denies the request stands first among the rules.
policy_rule-deny :
    (t : Tables) (tenant_id : String) (req : AuthzExplainRequest) {p : AccessPolicyRule}
    → Memᴰ p t.access_policy_rules
    → Applies tenant_id req p
    → p.effect ≡ "deny"
    → (first : AccessPolicyRule) × (policy_rule t tenant_id req ≡ some first)
      × (first.effect ≡ "deny")
unfolding policy_rule
policy_rule-deny t tenant_id req {p} listed applies denies =
    first_by-deny _
      (mem→rows_where (rule_applies tenant_id req) t.access_policy_rules listed
        ((rule_applies_iff tenant_id req p).1 applies))
      denies

policy_rule→mem :
    (t : Tables) (tenant_id : String) (req : AuthzExplainRequest) {p : AccessPolicyRule}
    → policy_rule t tenant_id req ≡ some p
    → Memᴰ p t.access_policy_rules × Applies tenant_id req p
unfolding policy_rule
policy_rule→mem t tenant_id req {p} h =
    let (listed, kept) =
      rows_where→mem (rule_applies tenant_id req) t.access_policy_rules
        (first_by→mem rule_before _ h) in
    (listed, (rule_applies_iff tenant_id req p).0 kept)

pub explain_authorization_denied :
    (t : Tables) (tenant_id actor_id : String) (req : AuthzExplainRequest) {p : AccessPolicyRule}
    → Memᴰ p t.access_policy_rules
    → Applies tenant_id req p
    → p.effect ≡ "deny"
    → ((explain_authorization t tenant_id actor_id req).allowed ≡ false)
      × ((explain_authorization t tenant_id actor_id req).reason ≡ "denied by access policy")
unfolding explain_authorization overrule
explain_authorization_denied t tenant_id actor_id req listed applies denies =
    let (first, found, first_denies) = policy_rule-deny t tenant_id req listed applies denies in
    let hit = (eq_iff first.effect "deny").1 first_denies in
    (rw (found, hit) refl, rw (found, hit) refl)

overrule_allowed :
    (rule : Option AccessPolicyRule) (d : Decision)
    → (overrule rule d).allowed ≡ true
    → ((p : AccessPolicyRule) × (rule ≡ some p) × (p.effect ≡ "allow")) ⊎ (d.allowed ≡ true)
unfolding overrule
overrule_allowed none d h = inr h
overrule_allowed (some p) d h = elim (Bool-cases (p.effect == "deny")) [
  | inl denies ↦ ground arith
  | inr other ↦ elim (Bool-cases (p.effect == "allow")) [
    | inl allows ↦ inl (p, refl, (eq_iff p.effect "allow").0 allows)
    | inr neither ↦ inr (rw (other, neither) at h)
  ]
]

-- An allowed answer of the store has its grounds in the tables: no active rule of the tenant over
-- the action, family and environment denies it, and either such a rule allows it, or the actor holds
-- a role that grants the action, by an active membership in the tenant, or by an active binding over
-- the resource that names them or a group that they are listed in.
pub explain_authorization_justified :
    (t : Tables) (tenant_id actor_id : String) (req : AuthzExplainRequest)
    → (explain_authorization t tenant_id actor_id req).allowed ≡ true
    → Undenied t tenant_id req × (RuleAllows t tenant_id req ⊎ RoleGrants t tenant_id actor_id req)
explain_authorization_justified t tenant_id actor_id req h = (
  λ p listed applies denies.
      let refused = explain_authorization_denied t tenant_id actor_id req listed applies denies in
      cc (refused.0),
  unfold explain_authorization in
      elim (overrule_allowed (policy_rule t tenant_id req) (granted t tenant_id actor_id req) h) [
        | inl (p, found, allows) ↦
            let (listed, applies) = policy_rule→mem t tenant_id req found in
            inl (p, listed, applies, allows)
        | inr by_role ↦ inr (granted_allowed t tenant_id actor_id req by_role)
      ],
)
