-- ===== src/Access/Holds.antt =====
-- The rows behind the roles that ExplainAuthorization finds
-- (internal/adapters/postgres/enterprise_identity.go).
use webhookery.Common.{
  String, true, ◌&&◌, List, [], ◌∷◌, ◌==◌, string_eq, some, ◌≡◌, inl, inr, refl, arith, eq_iff,
  Bool-cases, some-eq,
}
use mathlib.Core.List.{Memᴰ}
use webhookery.Authz.{role_allows, can}
use webhookery.Authz.Isolation.{can_iff}
use webhookery.Authz.Request.{AuthzExplainRequest}
use webhookery.Access.{
  Membership, RoleBinding, ScimGroupMembership, Tables, role_of, default_wildcard, rows_where,
  is_active_member, binding_covers, is_user_binding, in_group, is_group_binding, binding_before,
}
use webhookery.Access.Explain.{first_role, holder, membership_role, user_binding, group_binding}
use webhookery.Access.Rows.{Covers, covers_iff, rows_where→mem, first_by→mem}

abbrev pub CoversResource : AuthzExplainRequest → RoleBinding → Type 0
CoversResource req b =
    Covers b.resource_family req.resource_family
    × Covers b.resource_id (default_wildcard req.resource_id)
    × Covers b.environment (default_wildcard req.environment)

-- The actor's ways to a role over the requested resource: a membership, a binding of their own, a
-- binding of a group that they stand in.
pub data HoldsRole (t : Tables) (tenant_id actor_id : String) (req : AuthzExplainRequest)
    (role : String) : Type 0 where
  by_membership :
      (m : Membership)
      → Memᴰ m t.memberships
      → (m.tenant_id ≡ tenant_id) × (m.user_id ≡ actor_id) × (m.state ≡ "active") × (m.role ≡ role)
      → HoldsRole t tenant_id actor_id req role
  by_binding :
      (b : RoleBinding)
      → Memᴰ b t.role_bindings
      → (b.tenant_id ≡ tenant_id)
        × (b.principal_type ≡ "user")
        × (b.principal_id ≡ actor_id)
        × (b.state ≡ "active")
        × (b.role ≡ role)
      → CoversResource req b
      → HoldsRole t tenant_id actor_id req role
  by_group :
      (b : RoleBinding) (g : ScimGroupMembership)
      → Memᴰ b t.role_bindings
      → Memᴰ g t.scim_group_memberships
      → (b.tenant_id ≡ tenant_id)
        × (b.principal_type ≡ "group")
        × (b.state ≡ "active")
        × (b.role ≡ role)
      → (g.tenant_id ≡ tenant_id) × (g.group_id ≡ b.principal_id) × (g.user_id ≡ actor_id)
      → CoversResource req b
      → HoldsRole t tenant_id actor_id req role

pub holder-allows :
    (tenant_id actor_id role action : String)
    → can (holder tenant_id actor_id role) action tenant_id ≡ true
    → role_allows (role_of role) action ≡ true
unfolding holder
holder-allows tenant_id actor_id role action h =
    ((can_iff (holder tenant_id actor_id role) action tenant_id).0 h).2

binding_covers-resource :
    (req : AuthzExplainRequest) (b : RoleBinding)
    → binding_covers req b ≡ true
    → CoversResource req b
unfolding binding_covers
binding_covers-resource req b h = (
  (covers_iff b.resource_family req.resource_family).0 (ground arith),
  (covers_iff b.resource_id (default_wildcard req.resource_id)).0 (ground arith),
  (covers_iff b.environment (default_wildcard req.environment)).0 (ground arith),
)

first_role-listed :
    (rows : List Membership) {role : String}
    → first_role rows ≡ some role
    → (m : Membership) × Memᴰ m rows × (m.role ≡ role)
unfolding first_role
first_role-listed [] h = cc
first_role-listed (m ∷ rest) h = (m, Memᴰ.head refl, some-eq h)

pub membership_role-holds :
    (t : Tables) (tenant_id actor_id : String) (req : AuthzExplainRequest) {role : String}
    → membership_role t tenant_id actor_id ≡ some role
    → HoldsRole t tenant_id actor_id req role
unfolding membership_role is_active_member
membership_role-holds t tenant_id actor_id req h =
    let (m, found, same) =
      first_role-listed (rows_where (is_active_member tenant_id actor_id) t.memberships) h in
    let (listed, kept) = rows_where→mem (is_active_member tenant_id actor_id) t.memberships found in
    HoldsRole.by_membership m listed (
      (eq_iff m.tenant_id tenant_id).0 (ground arith),
      (eq_iff m.user_id actor_id).0 (ground arith),
      (eq_iff m.state "active").0 (ground arith),
      same,
    )

pub user_binding-holds :
    (t : Tables) (tenant_id actor_id : String) (req : AuthzExplainRequest) {b : RoleBinding}
    → user_binding t tenant_id actor_id req ≡ some b
    → HoldsRole t tenant_id actor_id req (b.role)
unfolding user_binding is_user_binding
user_binding-holds t tenant_id actor_id req {b} h =
    let (listed, kept) =
      rows_where→mem (is_user_binding tenant_id actor_id req) t.role_bindings
        (first_by→mem binding_before _ h) in
    HoldsRole.by_binding b listed
      (
        (eq_iff b.tenant_id tenant_id).0 (ground arith),
        (eq_iff b.principal_type "user").0 (ground arith),
        (eq_iff b.principal_id actor_id).0 (ground arith),
        (eq_iff b.state "active").0 (ground arith),
        refl,
      )
      (binding_covers-resource req b (ground arith))

in_group-listed :
    (tenant_id user_id group_id : String) (groups : List ScimGroupMembership)
    → in_group tenant_id user_id group_id groups ≡ true
    → (g : ScimGroupMembership) × Memᴰ g groups
      × (g.tenant_id ≡ tenant_id)
      × (g.group_id ≡ group_id)
      × (g.user_id ≡ user_id)
unfolding in_group
in_group-listed tenant_id user_id group_id [] h = cc
in_group-listed tenant_id user_id group_id (m ∷ rest) h =
    elim (Bool-cases (m.tenant_id == tenant_id && m.group_id == group_id && m.user_id == user_id)) [
      | inl hit ↦ (
        m,
        Memᴰ.head refl,
        (eq_iff m.tenant_id tenant_id).0 (ground arith),
        (eq_iff m.group_id group_id).0 (ground arith),
        (eq_iff m.user_id user_id).0 (ground arith),
      )
      | inr miss ↦
          let later = in_group-listed tenant_id user_id group_id rest (rw miss at h) in
          (later.0, Memᴰ.tail later.1, later.2, later.3, later.4)
    ]

pub group_binding-holds :
    (t : Tables) (tenant_id actor_id : String) (req : AuthzExplainRequest) {b : RoleBinding}
    → group_binding t tenant_id actor_id req ≡ some b
    → HoldsRole t tenant_id actor_id req (b.role)
unfolding group_binding is_group_binding
group_binding-holds t tenant_id actor_id req {b} h =
    let (listed, kept) =
      rows_where→mem (is_group_binding t.scim_group_memberships tenant_id actor_id req)
        t.role_bindings (first_by→mem binding_before _ h) in
    let (g, joined, place, group, user) =
      in_group-listed tenant_id actor_id b.principal_id t.scim_group_memberships (ground arith) in
    HoldsRole.by_group b g listed joined
      (
        (eq_iff b.tenant_id tenant_id).0 (ground arith),
        (eq_iff b.principal_type "group").0 (ground arith),
        (eq_iff b.state "active").0 (ground arith),
        refl,
      )
      (place, group, user) (binding_covers-resource req b (ground arith))
