-- ===== src/Access/Rows.antt =====
-- What the queries of internal/adapters/postgres/enterprise_identity.go pick from a table, and what
-- the texts of their WHERE clauses say.
use webhookery.Common.{
  String, Bool, true, false, List, [], ◌∷◌, string_eq, some, ◌≡◌, ◌↔◌, ◌⊎◌, inl, inr, refl, sym,
  arith, eq_iff, Bool-cases, Option-cases, some-eq, subst, if◌then◌else◌,
}
use mathlib.Core.List.{Memᴰ}
use webhookery.Authz.Request.{AuthzExplainRequest}
use webhookery.Access.{
  AccessPolicyRule, default_wildcard, covers, rows_where, better, first_by, rule_applies,
  rule_before,
}

-- A column that is a star or the value itself.
abbrev pub Covers : String → String → Type 0
Covers column value = (column ≡ "*") ⊎ (column ≡ value)

abbrev pub Applies : String → AuthzExplainRequest → AccessPolicyRule → Type 0
Applies tenant_id req p =
    (p.tenant_id ≡ tenant_id)
    × (p.state ≡ "active")
    × Covers p.action req.action
    × Covers p.resource_family req.resource_family
    × Covers p.environment (default_wildcard req.environment)

pub covers_iff : (column value : String) → (covers column value ≡ true) ↔ Covers column value
unfolding covers
covers_iff column value = (
  λ h. ground (arith, eq_iff column "*", eq_iff column value),
  λ h. ground (arith, eq_iff column "*", eq_iff column value),
)

pub rule_applies_iff :
    (tenant_id : String) (req : AuthzExplainRequest) (p : AccessPolicyRule)
    → (rule_applies tenant_id req p ≡ true) ↔ Applies tenant_id req p
unfolding rule_applies
rule_applies_iff tenant_id req p =
    let same = eq_iff p.tenant_id tenant_id in
    let active = eq_iff p.state "active" in
    let action = covers_iff p.action req.action in
    let family = covers_iff p.resource_family req.resource_family in
    let place = covers_iff p.environment (default_wildcard req.environment) in
    (
      λ h. (
        same.0 (ground arith),
        active.0 (ground arith),
        action.0 (ground arith),
        family.0 (ground arith),
        place.0 (ground arith),
      ),
      λ (s, a, c, f, e). ground (arith, same.1 s, active.1 a, action.1 c, family.1 f, place.1 e),
    )

pub rows_where→mem {ℓ} :
    {Row : Type ℓ} {row : Row} (test : Row → Bool) (rows : List Row)
    → Memᴰ row (rows_where test rows)
    → Memᴰ row rows × (test row ≡ true)
unfolding rows_where
rows_where→mem test [] m = elim m [ ]
rows_where→mem {row} test (r ∷ rows) m = elim (Bool-cases (test r)) [
  | inl hit ↦
      elim (subst (λ b. Memᴰ row (if b then r ∷ rows_where test rows else rows_where test rows)) hit
        m) [
          | Memᴰ.head p ↦ (Memᴰ.head p, subst (λ x. test x ≡ true) (sym p) hit)
          | Memᴰ.tail n ↦ let (there, kept) = rows_where→mem test rows n in (Memᴰ.tail there, kept)
        ]
  | inr miss ↦
      let n =
        subst (λ b. Memᴰ row (if b then r ∷ rows_where test rows else rows_where test rows)) miss
          m in
      let (there, kept) = rows_where→mem test rows n in (Memᴰ.tail there, kept)
]

pub mem→rows_where {ℓ} :
    {Row : Type ℓ} {row : Row} (test : Row → Bool) (rows : List Row)
    → Memᴰ row rows
    → test row ≡ true
    → Memᴰ row (rows_where test rows)
unfolding rows_where
mem→rows_where test [] m h = elim m [ ]
mem→rows_where test (r ∷ rows) (Memᴰ.head p) h = rw (subst (λ x. test x ≡ true) p h) (Memᴰ.head p)
mem→rows_where {row} test (r ∷ rows) (Memᴰ.tail m) h =
    let n = mem→rows_where test rows m h in
    elim (Bool-cases (test r)) [ inl hit ↦ rw hit (Memᴰ.tail n) | inr miss ↦ rw miss n ]

pub first_by→mem {ℓ} :
    {Row : Type ℓ} {row : Row} (before : Row → Row → Bool) (rows : List Row)
    → first_by before rows ≡ some row
    → Memᴰ row rows
unfolding first_by better
first_by→mem before [] h = cc
first_by→mem before (r ∷ rows) h = elim (Option-cases (first_by before rows)) [
  | inl nothing ↦ Memᴰ.head (sym (some-eq (rw nothing at h)))
  | inr (best, found) ↦ elim (Bool-cases (before best r)) [
    | inl wins ↦ Memᴰ.tail (first_by→mem before rows (cc))
    | inr loses ↦ Memᴰ.head (sym (some-eq (rw (found, loses) at h)))
  ]
]

-- Over a deny rule, `ORDER BY` prefers deny rules only, and a deny rule gives way to one only.
rule_before-denies :
    (a b : AccessPolicyRule)
    → ((b.effect ≡ "deny") → rule_before a b ≡ true → a.effect ≡ "deny")
      × ((a.effect ≡ "deny") → rule_before a b ≡ false → b.effect ≡ "deny")
unfolding rule_before
rule_before-denies a b = (
  λ e h. ground (arith, eq_iff a.effect "deny", eq_iff b.effect "deny"),
  λ e h. ground (arith, eq_iff a.effect "deny", eq_iff b.effect "deny"),
)

-- A deny rule among the rows puts a deny rule first.
pub first_by-deny :
    {p : AccessPolicyRule} (rules : List AccessPolicyRule)
    → Memᴰ p rules
    → p.effect ≡ "deny"
    → (first : AccessPolicyRule) × (first_by rule_before rules ≡ some first)
      × (first.effect ≡ "deny")
unfolding first_by better
first_by-deny [] m denies = elim m [ ]
first_by-deny (r ∷ rules) (Memᴰ.head p) denies =
    let here = subst (λ (x : AccessPolicyRule). x.effect ≡ "deny") p denies in
    elim (Option-cases (first_by rule_before rules)) [
      | inl nothing ↦ (r, rw nothing refl, here)
      | inr (best, found) ↦ elim (Bool-cases (rule_before best r)) [
        | inl wins ↦ (best, rw (found, wins) refl, (rule_before-denies best r).0 here wins)
        | inr loses ↦ (r, rw (found, loses) refl, here)
      ]
    ]
first_by-deny (r ∷ rules) (Memᴰ.tail m) denies =
    let (best, found, best_denies) = first_by-deny rules m denies in
    elim (Bool-cases (rule_before best r)) [
      | inl wins ↦ (best, rw (found, wins) refl, best_denies)
      | inr loses ↦ (r, rw (found, loses) refl, (rule_before-denies best r).1 best_denies loses)
    ]
