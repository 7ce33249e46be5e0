-- ===== src/Authz/Roles.antt =====
-- Which role grants more than which (internal/authz/policy.go).
use webhookery.Common.{
  subst, String, Bool, true, List, [], ◌∷◌, ◌≡◌, ◌↔◌, ◌⊎◌, refl, inl, inr, arith, eq_iff, contains,
  ◌==◌, string_eq, Bool-cases, ◌&&◌,
}
use webhookery.Authz.{
  Role, owner, admin, developer, operator, security, auditor, support, other, role_allows,
  has_scope, developer_scopes, operator_scopes, support_scopes,
}

-- Every entry of a list of scopes is granted by a role.
covered : Role → List String → Bool
covered role [] = true
covered role (s ∷ rest) = role_allows role s && covered role rest

covered_sound :
    (role : Role) (scopes : List String) (scope : String)
    → covered role scopes ≡ true
    → contains scopes scope ≡ true
    → role_allows role scope ≡ true
unfolding covered contains
covered_sound role [] scope h c = cc
covered_sound role (s ∷ rest) scope h c = elim (Bool-cases (s == scope)) [
  | inl same ↦ subst (λ x. role_allows role x ≡ true) ((eq_iff s scope).0 same) (ground arith)
  | inr differs ↦
      covered_sound role rest scope (ground (arith, Bool-cases (role_allows role s)))
        (rw differs at c)
]

-- `Above upper lower`, for the roles whose grants are nested.
pub data Above : Role → Role → Type 0 where
  owner_above : (r : Role) → Above owner r
  admin_developer : Above admin developer
  admin_operator : Above admin operator
  operator_support : Above operator support
  auditor_support : Above auditor support
  admin_unknown : (name : String) → Above admin (other name)

-- An owner grants all, an administrator what a developer or an operator grants, an operator and an
-- auditor what support grants; an unknown role grants nothing that any role does not.
pub role_allows-Above :
    {upper lower : Role} (scope : String)
    → Above upper lower
    → role_allows lower scope ≡ true
    → role_allows upper scope ≡ true
unfolding role_allows has_scope covered contains
role_allows-Above scope (owner_above r) h = refl
role_allows-Above scope admin_developer h = covered_sound admin developer_scopes scope refl h
role_allows-Above scope admin_operator h = covered_sound admin operator_scopes scope refl h
role_allows-Above scope operator_support h = covered_sound operator support_scopes scope refl h
role_allows-Above scope auditor_support h = covered_sound auditor support_scopes scope refl h
role_allows-Above scope (admin_unknown name) h = cc

-- Who may read raw payload bodies, and who may change security settings.
pub role_allows_sensitive :
    (role : Role)
    → ((role_allows role "events:raw" ≡ true)
        ↔ ((role ≡ owner) ⊎ (role ≡ security) ⊎ (role ≡ auditor)))
      × ((role_allows role "security:write" ≡ true) ↔ ((role ≡ owner) ⊎ (role ≡ security)))
unfolding role_allows has_scope contains
role_allows_sensitive owner = ground arith
role_allows_sensitive role = ground arith
