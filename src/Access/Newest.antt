-- ===== src/Access/Newest.antt =====
-- What a new role binding does to the decisions of ExplainAuthorization
-- (internal/adapters/postgres/enterprise_identity.go).
use webhookery.Common.{
  ℕ, ◌≤◌, String, true, false, List, ◌∷◌, ◌==◌, ltb, string_eq, none, some, ◌≡◌, ◌≢◌, ◌↔◌, inl, inr,
  refl, sym, ◌∙◌, subst, arith, eq_iff, Bool-cases, Option-cases, ok, >>=-eq-ok, ok-eq, err-ok,
}
use mathlib.Core.List.{Memᴰ}
use webhookery.Authz.{Actor, role_allows, can}
use webhookery.Authz.Isolation.{can_iff}
use webhookery.Authz.Request.{AuthzExplainRequest}
use webhookery.Authz.Service.{authorize_allowed}
use webhookery.Access.{
  RoleBinding, Tables, role_of, rows_where, better, first_by, is_user_binding, is_group_binding,
  binding_before,
}
use webhookery.Access.Explain.{
  holder, membership_role, user_binding, group_binding, policy_rule, grant_by_binding,
  grant_by_membership, overrule, unmatched, granted_by_group, granted_by_binding, granted,
  explain_authorization,
}
use webhookery.Access.Rows.{rows_where→mem, first_by→mem}
use webhookery.Access.Explain.{explain_from}
use webhookery.Access.Admin.{authorized, request_to}
use webhookery.Access.Bindings.{
  CreateRoleBindingRequest, valid_role, validate_role_binding, binding_row, with_binding,
  create_role_binding,
}

-- A row no older than the others is the one that the query returns.
first_by-newest :
    (b : RoleBinding) (rows : List RoleBinding)
    → ((r : RoleBinding) → Memᴰ r rows → r.created_at ≤ b.created_at)
    → first_by binding_before (b ∷ rows) ≡ some b
unfolding first_by better binding_before
first_by-newest b rows older = elim (Option-cases (first_by binding_before rows)) [
  | inl nothing ↦ rw nothing refl
  | inr (best, found) ↦
      let behind = older best (first_by→mem binding_before rows found) in
      let loses : ltb b.created_at best.created_at ≡ false = ground arith in rw (found, loses) refl
]

user_binding-newest :
    (t : Tables) (tenant_id user_id : String) (req : AuthzExplainRequest) (b : RoleBinding)
    → is_user_binding tenant_id user_id req b ≡ true
    → ((r : RoleBinding) → Memᴰ r t.role_bindings → r.created_at ≤ b.created_at)
    → user_binding (with_binding b t) tenant_id user_id req ≡ some b
unfolding user_binding rows_where
user_binding-newest t tenant_id user_id req b own older = rw own (
    first_by-newest b (rows_where (is_user_binding tenant_id user_id req) t.role_bindings)
      (λ r m. older r (rows_where→mem (is_user_binding tenant_id user_id req) t.role_bindings m).0))

is_group_binding-user :
    (t : Tables) (tenant_id user_id : String) (req : AuthzExplainRequest) (b : RoleBinding)
    → b.principal_type ≡ "user"
    → is_group_binding t.scim_group_memberships tenant_id user_id req b ≡ false
unfolding is_group_binding
is_group_binding-user t tenant_id user_id req b user =
    let no_group : (b.principal_type == "group") ≡ false =
      subst (λ s. (s == "group") ≡ false) (sym user) refl in
    ground (arith, no_group)

is_user_binding-user :
    (tenant_id user_id : String) (req : AuthzExplainRequest) (b : RoleBinding)
    → is_user_binding tenant_id user_id req b ≡ true
    → b.principal_type ≡ "user"
unfolding is_user_binding
is_user_binding-user tenant_id user_id req b own = (eq_iff b.principal_type "user").0 (ground arith)

group_binding-same :
    (t : Tables) (tenant_id user_id : String) (req : AuthzExplainRequest) (b : RoleBinding)
    → b.principal_type ≡ "user"
    → group_binding (with_binding b t) tenant_id user_id req ≡ group_binding t tenant_id user_id req
unfolding group_binding rows_where
group_binding-same t tenant_id user_id req b user =
    rw (is_group_binding-user t tenant_id user_id req b user) refl

-- The role of a holder decides, in a named tenant.
holder_iff :
    (tenant_id actor_id role action : String)
    → tenant_id ≢ ""
    → (can (holder tenant_id actor_id role) action tenant_id ≡ true)
      ↔ (role_allows (role_of role) action ≡ true)
unfolding holder
holder_iff tenant_id actor_id role action named = (
  λ h. ((can_iff (holder tenant_id actor_id role) action tenant_id).0 h).2,
  λ h. (can_iff (holder tenant_id actor_id role) action tenant_id).1 (named, refl, h, inl refl),
)

-- Where a binding is the only thing that speaks for the user, the role of the first one decides.
explain_authorization-user_binding :
    (t : Tables) (tenant_id user_id : String) (asked : AuthzExplainRequest) (b : RoleBinding)
    → tenant_id ≢ ""
    → user_binding t tenant_id user_id asked ≡ some b
    → membership_role t tenant_id user_id ≡ none
    → group_binding t tenant_id user_id asked ≡ none
    → policy_rule t tenant_id asked ≡ none
    → ((explain_authorization t tenant_id user_id asked).allowed ≡ true)
      ↔ (role_allows (role_of b.role) asked.action ≡ true)
unfolding explain_authorization overrule granted grant_by_membership granted_by_binding
    granted_by_group grant_by_binding unmatched
explain_authorization-user_binding t tenant_id user_id asked b named first no_member no_group
      no_rule =
    let decides = holder_iff tenant_id user_id b.role asked.action named in
    elim (Bool-cases (can (holder tenant_id user_id b.role) asked.action tenant_id)) [
      | inl can_it ↦ (λ h. decides.0 can_it, λ h. rw (no_rule, no_member, first, can_it) refl)
      | inr cannot ↦ (
        λ h. let never = rw (no_rule, no_member, first, cannot, no_group) at h in cc never,
        λ h. let never = decides.1 h in cc (never, cannot),
      )
    ]

-- What a created binding has passed.
create_role_binding-row :
    (id : String) (now : ℕ) (actor : Actor) (req : CreateRoleBindingRequest) (t : Tables)
    {after : Tables}
    → create_role_binding id now actor req t ≡ ok after
    → (actor.tenant_id ≢ "") × (with_binding (binding_row id now actor req) t ≡ after)
unfolding create_role_binding authorized
create_role_binding-row id now actor req t h =
    elim (Bool-cases (authorized t actor "security:write" "role_binding" "" "")) [
      | inr refused ↦ absurd (err-ok (rw refused at h))
      | inl may ↦
          let (checked, is_valid, inserted) =
            >>=-eq-ok (validate_role_binding req) _ (rw may at h) in
          elim (Bool-cases (valid_role req.role)) [
            | inr unknown ↦ absurd (err-ok (rw unknown at inserted))
            | inl known ↦ (
              (authorize_allowed (some (explain_from t))
                  (request_to actor "security:write" "role_binding" "" "") may).1,
              ok-eq (rw known at inserted),
            )
          ]
    ]

-- The newest binding of a user decides alone. After an administrator has created a binding for a
-- user, no earlier than the bindings in the table, the answer for a request that it covers is the
-- answer of its role, whatever older bindings of the user say, where no membership, no group binding
-- and no access policy rule speaks.
pub create_role_binding_newest :
    (id : String) (now : ℕ) (actor : Actor) (req : CreateRoleBindingRequest) (t : Tables)
    (user_id : String) (asked : AuthzExplainRequest) {after : Tables}
    → create_role_binding id now actor req t ≡ ok after
    → is_user_binding actor.tenant_id user_id asked (binding_row id now actor req) ≡ true
    → ((r : RoleBinding) → Memᴰ r t.role_bindings → r.created_at ≤ now)
    → membership_role t actor.tenant_id user_id ≡ none
    → group_binding t actor.tenant_id user_id asked ≡ none
    → policy_rule t actor.tenant_id asked ≡ none
    → ((explain_authorization after actor.tenant_id user_id asked).allowed ≡ true)
      ↔ (role_allows (role_of req.role) asked.action ≡ true)
unfolding membership_role policy_rule binding_row
create_role_binding_newest id now actor req t user_id asked {after} h own older no_member no_group
      no_rule =
    let row = binding_row id now actor req in
    let (named, stored) = create_role_binding-row id now actor req t h in
    subst
      (λ (x : Tables).
        ((explain_authorization x actor.tenant_id user_id asked).allowed ≡ true)
        ↔ (role_allows (role_of req.role) asked.action ≡ true))
      stored
      (explain_authorization-user_binding (with_binding row t) actor.tenant_id user_id asked row
        named (user_binding-newest t actor.tenant_id user_id asked row own older) no_member
        (group_binding-same t actor.tenant_id user_id asked row
            (is_user_binding-user actor.tenant_id user_id asked row own)
          ∙ no_group)
        no_rule)
