-- ===== src/Replay/Covered.antt =====
-- Which replay requests need an approval: CreateReplay and replayApprovalPolicyForReplay in
-- internal/adapters/postgres/store.go.
use webhookery.Common.{
  String, Bool, true, false, List, [], ◌∷◌, ◌==◌, string_eq, Option, none, some, ◌≡◌, ◌≢◌, ◌↔◌, ◌⊎◌,
  inl, inr, refl, arith, eq_iff, Bool-cases, Option-cases, if◌then◌else◌, contains, contains→Memᴰ,
  Memᴰ→contains, is_nil,
}
use mathlib.Core.List.{Memᴰ}
use webhookery.Access.{rows_where, first_by, better}
use webhookery.Access.Rows.{rows_where→mem, mem→rows_where, first_by→mem}
use webhookery.Replay.{ReplayRequest, ReplayApprovalPolicy, ReplayTables}
use webhookery.Replay.Scope.{
  ReplayScope, replay_scope, requires, over_routes, over_scope, updated_before, any_order, or_next,
  route_policy, source_policy, tenant_policy, policy_for_scope, replay_approval_policy_for_replay,
}

-- An active policy of the tenant that requires approval, over the tenant, the source that was
-- collected or one of the routes.
abbrev pub Covers : String → ReplayScope → ReplayApprovalPolicy → Type 0
Covers tenant_id scope p =
    (p.tenant_id ≡ tenant_id)
    × (p.state ≡ "active")
    × (p.require_approval ≡ true)
    × (((p.scope_type ≡ "route") × Memᴰ p.scope_id scope.route_ids)
        ⊎ ((p.scope_type ≡ "source") × (p.scope_id ≡ scope.source_id) × (scope.source_id ≢ ""))
        ⊎ ((p.scope_type ≡ "tenant") × (p.scope_id ≡ "")))

abbrev pub IsCovered : List ReplayApprovalPolicy → String → ReplayScope → Type 0
IsCovered policies tenant_id scope =
    (p : ReplayApprovalPolicy) × Memᴰ p policies × Covers tenant_id scope p

requires_iff :
    (tenant_id kind : String) (p : ReplayApprovalPolicy)
    → (requires tenant_id kind p ≡ true) ↔ (
        (p.tenant_id ≡ tenant_id)
        × (p.scope_type ≡ kind)
        × (p.state ≡ "active")
        × (p.require_approval ≡ true))
unfolding requires
requires_iff tenant_id kind p = (
  λ h. (
    (eq_iff p.tenant_id tenant_id).0 (ground arith),
    (eq_iff p.scope_type kind).0 (ground arith),
    (eq_iff p.state "active").0 (ground arith),
    ground arith,
  ),
  λ (tenant, type_same, active, required). ground (
    arith,
    (eq_iff p.tenant_id tenant_id).1 tenant,
    (eq_iff p.scope_type kind).1 type_same,
    (eq_iff p.state "active").1 active,
  ),
)

abbrev Found : Option ReplayApprovalPolicy → Type 0
Found o = (p : ReplayApprovalPolicy) × (o ≡ some p)

first_by-Found :
    (before : ReplayApprovalPolicy → ReplayApprovalPolicy → Bool) (r : ReplayApprovalPolicy)
    (rows : List ReplayApprovalPolicy)
    → Found (first_by before (r ∷ rows))
unfolding first_by better
first_by-Found before r rows = elim (Option-cases (first_by before rows)) [
  | inl nothing ↦ (r, rw nothing refl)
  | inr (best, found) ↦ (if before best r then best else r, rw found (picked (before best r) best))
]
  where
    picked :
        (wins : Bool) (best : ReplayApprovalPolicy)
        → (if wins then some best else some r) ≡ some (if wins then best else r)
    picked true best = refl
    picked false best = refl

mem-Found :
    (before : ReplayApprovalPolicy → ReplayApprovalPolicy → Bool) {p : ReplayApprovalPolicy}
    {rows : List ReplayApprovalPolicy}
    → Memᴰ p rows
    → Found (first_by before rows)
mem-Found before {rows = []} m = elim m [ ]
mem-Found before {rows = r ∷ rows} m = first_by-Found before r rows

-- Some policy passes the test of a query.
abbrev Passes : (ReplayApprovalPolicy → Bool) → List ReplayApprovalPolicy → Type 0
Passes test policies = (p : ReplayApprovalPolicy) × Memᴰ p policies × (test p ≡ true)

-- A query finds a row exactly when one passes its test.
query_iff :
    (before : ReplayApprovalPolicy → ReplayApprovalPolicy → Bool)
    (test : ReplayApprovalPolicy → Bool) (policies : List ReplayApprovalPolicy)
    → Found (first_by before (rows_where test policies)) ↔ Passes test policies
query_iff before test policies = (
  λ (found, h).
      let (listed, kept) = rows_where→mem test policies (first_by→mem before _ h) in
      (found, listed, kept),
  λ (p, listed, kept). mem-Found before (mem→rows_where test policies listed kept),
)

or_next_iff : (a b : Option ReplayApprovalPolicy) → Found (or_next a b) ↔ (Found a ⊎ Found b)
unfolding or_next
or_next_iff none b = (λ h. inr h, λ h. elim h [ inl (p, never) ↦ cc never | inr found ↦ found ])
or_next_iff (some p) b = (λ h. inl (p, refl), λ h. (p, refl))

route_policy_iff :
    (policies : List ReplayApprovalPolicy) (tenant_id : String) (scope : ReplayScope)
    → Found (route_policy policies tenant_id scope)
      ↔ Passes (over_routes tenant_id scope.route_ids) policies
unfolding route_policy
route_policy_iff policies tenant_id scope = elim (Bool-cases (is_nil scope.route_ids)) [
  | inr full ↦ rw full (query_iff updated_before (over_routes tenant_id scope.route_ids) policies)
  | inl empty ↦ rw empty (
    λ (q, never). cc never,
    λ (p, listed, passes). absurd (nowhere scope.route_ids empty p passes),
  )
]
  where
    nowhere :
        (ids : List String)
        → is_nil ids ≡ true
        → (p : ReplayApprovalPolicy) → over_routes tenant_id ids p ≡ true
        → ⊥
    nowhere [] e p h = unfold over_routes contains in ground arith
    nowhere (i ∷ ids) e p h = cc e

source_policy_iff :
    (policies : List ReplayApprovalPolicy) (tenant_id : String) (scope : ReplayScope)
    → Found (source_policy policies tenant_id scope)
      ↔ ((scope.source_id ≢ "") × Passes (over_scope tenant_id "source" scope.source_id) policies)
unfolding source_policy
source_policy_iff policies tenant_id scope = elim (Bool-cases (scope.source_id == "")) [
  | inl empty ↦ rw empty (
    λ (q, never). cc never,
    λ (named, found). absurd (named ((eq_iff scope.source_id "").0 empty)),
  )
  | inr full ↦
      let found = query_iff any_order (over_scope tenant_id "source" scope.source_id) policies in
      rw full (
        λ h. (λ e. let t = (eq_iff scope.source_id "").1 e in cc (t, full), found.0 h),
        λ (named, passes). found.1 passes,
      )
]

over_routes_iff :
    (tenant_id : String) (ids : List String) (p : ReplayApprovalPolicy)
    → (over_routes tenant_id ids p ≡ true)
      ↔ ((requires tenant_id "route" p ≡ true) × Memᴰ p.scope_id ids)
unfolding over_routes
over_routes_iff tenant_id ids p = (
  λ h. (ground arith, contains→Memᴰ ids p.scope_id (ground arith)),
  λ (required, listed). let known = Memᴰ→contains listed in ground arith,
)

over_scope_iff :
    (tenant_id kind id : String) (p : ReplayApprovalPolicy)
    → (over_scope tenant_id kind id p ≡ true)
      ↔ ((requires tenant_id kind p ≡ true) × (p.scope_id ≡ id))
unfolding over_scope
over_scope_iff tenant_id kind id p = (
  λ h. (ground arith, (eq_iff p.scope_id id).0 (ground arith)),
  λ (required, same). let known = (eq_iff p.scope_id id).1 same in ground arith,
)

policy_for_scope→IsCovered :
    (policies : List ReplayApprovalPolicy) (tenant_id : String) (scope : ReplayScope)
    → Found (policy_for_scope policies tenant_id scope)
    → IsCovered policies tenant_id scope
unfolding policy_for_scope tenant_policy
policy_for_scope→IsCovered policies tenant_id scope h =
    elim ((or_next_iff (route_policy policies tenant_id scope) _).0 h) [
      | inl by_route ↦
          let (p, listed, passes) = (route_policy_iff policies tenant_id scope).0 by_route in
          let (required, place) = (over_routes_iff tenant_id scope.route_ids p).0 passes in
          let (tenant, kind, active, needs) = (requires_iff tenant_id "route" p).0 required in
          (p, listed, (tenant, active, needs, inl (kind, place)))
      | inr later ↦ elim ((or_next_iff (source_policy policies tenant_id scope) _).0 later) [
        | inl by_source ↦
            let (named, found) = (source_policy_iff policies tenant_id scope).0 by_source in
            let (p, listed, passes) = found in
            let (required, same) = (over_scope_iff tenant_id "source" scope.source_id p).0 passes in
            let (tenant, kind, active, needs) = (requires_iff tenant_id "source" p).0 required in
            (p, listed, (tenant, active, needs, inr (inl (kind, same, named))))
        | inr by_tenant ↦
            let (p, listed, passes) =
              (query_iff any_order (over_scope tenant_id "tenant" "") policies).0 by_tenant in
            let (required, same) = (over_scope_iff tenant_id "tenant" "" p).0 passes in
            let (tenant, kind, active, needs) = (requires_iff tenant_id "tenant" p).0 required in
            (p, listed, (tenant, active, needs, inr (inr (kind, same))))
      ]
    ]

IsCovered→policy_for_scope :
    (policies : List ReplayApprovalPolicy) (tenant_id : String) (scope : ReplayScope)
    → IsCovered policies tenant_id scope
    → Found (policy_for_scope policies tenant_id scope)
unfolding policy_for_scope tenant_policy
IsCovered→policy_for_scope policies tenant_id scope (p, listed, (tenant, active, needs, place)) =
    (or_next_iff (route_policy policies tenant_id scope)
        (or_next (source_policy policies tenant_id scope) (tenant_policy policies tenant_id))).1
      (elim place [
        | inl (kind, member) ↦
            let required = (requires_iff tenant_id "route" p).1 (tenant, kind, active, needs) in
            let passes = (over_routes_iff tenant_id scope.route_ids p).1 (required, member) in
            inl ((route_policy_iff policies tenant_id scope).1 (p, listed, passes))
        | inr rest ↦ inr (
            (or_next_iff (source_policy policies tenant_id scope)
                (tenant_policy policies tenant_id)).1
              (elim rest [
                | inl (kind, same, named) ↦
                    let required =
                      (requires_iff tenant_id "source" p).1 (tenant, kind, active, needs) in
                    let passes =
                      (over_scope_iff tenant_id "source" scope.source_id p).1 (required, same) in
                    inl
                      ((source_policy_iff policies tenant_id scope).1 (named, (p, listed, passes)))
                | inr (kind, same) ↦
                    let required =
                      (requires_iff tenant_id "tenant" p).1 (tenant, kind, active, needs) in
                    let passes = (over_scope_iff tenant_id "tenant" "" p).1 (required, same) in
                    inr (
                      (query_iff any_order (over_scope tenant_id "tenant" "") policies).1
                        (p, listed, passes))
              ]))
      ])

pub replay_approval_policy_for_replay_iff :
    (t : ReplayTables) (tenant_id : String) (req : ReplayRequest)
    → ((p : ReplayApprovalPolicy) × (replay_approval_policy_for_replay t tenant_id req ≡ some p))
      ↔ IsCovered t.policies tenant_id (replay_scope t tenant_id req)
unfolding replay_approval_policy_for_replay
replay_approval_policy_for_replay_iff t tenant_id req = (
  policy_for_scope→IsCovered t.policies tenant_id (replay_scope t tenant_id req),
  IsCovered→policy_for_scope t.policies tenant_id (replay_scope t tenant_id req),
)
