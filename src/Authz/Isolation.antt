-- ===== src/Authz/Isolation.antt =====
-- What an allowed decision of `Can` says (internal/authz/policy.go).
use webhookery.Common.{
  String, Bool, true, false, not, ◌||◌, List, [], ◌∷◌, ◌==◌, string_eq, is_nil, ◌≡◌, ◌≢◌, ◌↔◌, ◌⊎◌,
  refl, sym, inl, inr, arith, eq_iff, Bool-cases, if◌then◌else◌,
}
use mathlib.Core.List.{Memᴰ}
use webhookery.Authz.{Actor, role_allows, scope_listed, can}

-- The actor's own scopes let the action through: there are none, or one is it or the star.
abbrev pub Unrestricted : List String → String → Type 0
Unrestricted scopes scope = (scopes ≡ []) ⊎ Memᴰ scope scopes ⊎ Memᴰ "*" scopes

scope_listed→mem :
    (scopes : List String) (scope : String)
    → scope_listed scopes scope ≡ true
    → Memᴰ scope scopes ⊎ Memᴰ "*" scopes
unfolding scope_listed
scope_listed→mem [] scope h = cc
scope_listed→mem (s ∷ rest) scope h = elim (Bool-cases (s == scope)) [
  | inl same ↦ inl (Memᴰ.head (sym ((eq_iff s scope).0 same)))
  | inr differs ↦ elim (Bool-cases (s == "*")) [
    | inl star ↦ inr (Memᴰ.head (sym ((eq_iff s "*").0 star)))
    | inr plain ↦ elim (scope_listed→mem rest scope (rw (differs, plain) at h)) [
      | inl m ↦ inl (Memᴰ.tail m)
      | inr m ↦ inr (Memᴰ.tail m)
    ]
  ]
]

mem→scope_listed :
    {x : String} {scopes : List String} (scope : String)
    → Memᴰ x scopes
    → (x ≡ scope) ⊎ (x ≡ "*")
    → scope_listed scopes scope ≡ true
unfolding scope_listed
mem→scope_listed {scopes = []} scope m e = elim m [ ]
mem→scope_listed {x} {scopes = s ∷ rest} scope (Memᴰ.head p) e =
    ground (arith, eq_iff s scope, eq_iff s "*")
mem→scope_listed {scopes = s ∷ rest} scope (Memᴰ.tail m) e =
    ground (arith, mem→scope_listed scope m e)

pub Unrestricted-iff :
    (scopes : List String) (scope : String)
    → ((if is_nil scopes then true else scope_listed scopes scope) ≡ true)
      ↔ Unrestricted scopes scope
Unrestricted-iff [] scope = (λ _. inl refl, λ _. refl)
Unrestricted-iff (s ∷ rest) scope = (
  λ h. inr (scope_listed→mem (s ∷ rest) scope h),
  λ h. elim h [
    | inl e ↦ cc
    | inr m ↦ elim m [
      | inl own ↦ mem→scope_listed scope own (inl refl)
      | inr star ↦ mem→scope_listed scope star (inr refl)
    ]
  ],
)

tenant_guard_iff :
    (a t : String) → ((a == "" || t == "" || not (a == t)) ≡ false) ↔ ((a ≢ "") × (a ≡ t))
tenant_guard_iff a t = (
  λ h. (λ e. ground (arith, eq_iff a ""), ground (arith, eq_iff a t)),
  λ (named, same). ground (arith, eq_iff a "", eq_iff t "", eq_iff a t),
)

-- The chain of early returns of `Can`, over its three tests.
ladder_iff :
    (refused granted free : Bool)
    → ((if refused then false else if not granted then false else free) ≡ true)
      ↔ ((refused ≡ false) × (granted ≡ true) × (free ≡ true))
ladder_iff refused granted free = ground arith

-- An action is allowed exactly when the actor's tenant is named and is the resource's, the role
-- grants the scope, and the actor's own scope list is empty or holds the scope or a star.
pub can_iff :
    (actor : Actor) (scope tenant : String)
    → (can actor scope tenant ≡ true) ↔ (
        (actor.tenant_id ≢ "")
        × (actor.tenant_id ≡ tenant)
        × (role_allows actor.role scope ≡ true)
        × Unrestricted actor.scopes scope)
unfolding can
can_iff actor scope tenant = (
  λ h.
      let (guarded, granted, free) = (ladder_iff _ _ _).0 h in
      let (named, same) = (tenant_guard_iff actor.tenant_id tenant).0 guarded in
      (named, same, granted, (Unrestricted-iff actor.scopes scope).0 free),
  λ (named, same, granted, free). (ladder_iff _ _ _).1 (
    (tenant_guard_iff actor.tenant_id tenant).1 (named, same),
    granted,
    (Unrestricted-iff actor.scopes scope).1 free,
  ),
)
