-- ===== src/Replay/RouteScope.antt =====
-- The routes of a replay request are the ones that the queries collect
-- (replayApprovalPolicyForReplay in internal/adapters/postgres/store.go).
use mathlib.Core.List.{Memᴰ}
use webhookery.Common.{
  String, ◌++◌, ◌==◌, string_eq, Option, ◌≢◌, ◌↔◌, inl, inr, refl, sym, subst, Bool-cases,
}
use webhookery.Replay.{ReplayRequest, EventRow, ReplayTables}
use webhookery.Replay.Scope.{
  source_of, type_of, delivery_scope, source_routes, original_routes, event_scope, replay_scope,
}
use webhookery.Replay.Requested.{HasKeys, RouteOf}
use webhookery.Replay.Routes.{mem-append→, mem-left, mem-right, is_blank, not_blank}
use webhookery.Replay.Delivered.{scope_routes_iff}
use webhookery.Replay.Collected.{
  EventCases, event_cases, source_lem, type_lem, source_routes_iff, original_routes_iff,
}

module _ (t : ReplayTables) (keys : HasKeys t) (tenant_id : String) (req : ReplayRequest) where
  -- The three lists of routes, for an event that is found or not.
  routes_lem :
      (o : Option EventRow) (r : String)
      → EventCases t keys tenant_id req o
      → req.event_id ≢ ""
      → Memᴰ r (
          (delivery_scope t tenant_id req).route_ids
          ++ (source_routes t tenant_id
                (source_of o (delivery_scope t tenant_id req).source_id)
                (type_of o)
              ++ original_routes t tenant_id req))
        ↔ RouteOf t tenant_id req r
  routes_lem o r cases named = (
    λ m. elim (mem-append→ (delivery_scope t tenant_id req).route_ids _ m) [
      | inl by_delivery ↦ inl ((scope_routes_iff t keys tenant_id req r).0 by_delivery)
      | inr later ↦ elim (mem-append→ (source_routes t tenant_id _ _) _ later) [
        | inl by_source ↦
            let (has_source, (row, there, tenant, source, active, lists, same)) =
              (source_routes_iff t keys tenant_id req _ _ r).0 by_source in
            inr (
              inl (
                _,
                _,
                row,
                (source_lem t keys tenant_id req o _ cases has_source).0 refl,
                (type_lem t keys tenant_id req o _ cases).0 refl,
                named,
                there,
                tenant,
                source,
                active,
                lists,
                same,
              ))
        | inr by_original ↦
            let (d, mode, there, tenant, event, same, full) =
              (original_routes_iff t keys tenant_id req r).0 by_original in
            inr (inr (d, named, mode, there, tenant, event, same, full))
      ]
    ],
    λ route. elim route [
      | inl by_delivery ↦ mem-left _ _ ((scope_routes_iff t keys tenant_id req r).1 by_delivery)
      | inr later ↦ mem-right (delivery_scope t tenant_id req).route_ids _ (elim later [
        | inl
              (
                s, type_name, row, is_source, is_type, n, there, tenant, source, active, lists,
                same,
              ) ↦
            let at_source = (source_lem t keys tenant_id req o s cases is_source.0).1 is_source in
            let at_type = (type_lem t keys tenant_id req o type_name cases).1 is_type in
            mem-left _ _ (
              subst (λ x. Memᴰ r (source_routes t tenant_id x (type_of o))) (sym at_source)
                (subst (λ x. Memᴰ r (source_routes t tenant_id s x)) (sym at_type)
                  ((source_routes_iff t keys tenant_id req s type_name r).1
                    (is_source.0, (row, there, tenant, source, active, lists, same)))))
        | inr (d, n, mode, there, tenant, event, same, full) ↦
            mem-right (source_routes t tenant_id _ _) _ (
              (original_routes_iff t keys tenant_id req r).1
                (d, mode, there, tenant, event, same, full))
      ])
    ],
  )

  pub route_iff :
      (r : String) → Memᴰ r (replay_scope t tenant_id req).route_ids ↔ RouteOf t tenant_id req r
  unfolding replay_scope event_scope
  route_iff r = elim (Bool-cases (req.event_id == "")) [
    | inl blank ↦ rw blank (
      λ m. inl ((scope_routes_iff t keys tenant_id req r).0 m),
      λ route. elim route [
        | inl by_delivery ↦ (scope_routes_iff t keys tenant_id req r).1 by_delivery
        | inr later ↦ elim later [
          | inl
                (
                  s, type_name, row, is_source, is_type, n, there, tenant, source, active, lists,
                  same,
                ) ↦
              absurd (n (is_blank req.event_id blank))
          | inr (d, n, mode, there, tenant, event, same, named) ↦
              absurd (n (is_blank req.event_id blank))
        ]
      ],
    )
    | inr full ↦
        let named = not_blank req.event_id full in
        rw full (routes_lem _ r (event_cases t keys tenant_id req named) named)
  ]
