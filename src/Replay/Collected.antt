-- ===== src/Replay/Collected.antt =====
-- The scope of a replay request is its source and its routes
-- (replayApprovalPolicyForReplay in internal/adapters/postgres/store.go).
use mathlib.Core.List.{Memᴰ}
use webhookery.Common.{
  String, ◌==◌, string_eq, Option, none, some, ◌≡◌, ◌≢◌, ◌↔◌, ◌⊎◌, inl, inr, refl, sym, ap, ◌∙◌,
  eq_iff, Bool-cases, Option-cases,
}
use webhookery.Access.Rows.{rows_where→mem, mem→rows_where}
use webhookery.Replay.{ReplayRequest, DeliveryRow, EventRow, RouteRow, ReplayTables}
use webhookery.Replay.Scope.{
  ReplayScope, find_event, is_route_of, is_delivery_of, source_of, type_of, delivery_scope,
  source_routes, original_routes, event_scope, replay_scope,
}
use webhookery.Replay.Requested.{
  HasKeys, IsDelivery, NamesEvent, SourceOf, TypeOf, find_event→mem, find_event→none,
}
use webhookery.Replay.Routes.{
  is_blank, not_blank, mem-named_routes, mem-route_ids, is_route_of_iff, both_iff,
}
use webhookery.Replay.Delivered.{scope_source_iff, same_event}

module _ (t : ReplayTables) (keys : HasKeys t) (tenant_id : String) (req : ReplayRequest) where
  abbrev pub before : ReplayScope
  before = delivery_scope t tenant_id req

  -- With the event that is found, if any.
  abbrev pub EventCases : Option EventRow → Type 0
  EventCases found =
      ((e : EventRow) × NamesEvent t tenant_id req e × (found ≡ some e))
      ⊎ ((e : EventRow) → ¬ NamesEvent t tenant_id req e) × (found ≡ none)

  pub event_cases : req.event_id ≢ "" → EventCases (find_event tenant_id req.event_id t.events)
  event_cases named = elim (Option-cases (find_event tenant_id req.event_id t.events)) [
    | inl missing ↦ inr (
      λ e (n, (m, tenant, id)).
          find_event→none tenant_id req.event_id t.events missing m (tenant, id),
      missing,
    )
    | inr (e, found) ↦
        let (m, tenant, id) = find_event→mem tenant_id req.event_id t.events found in
        inl (e, (named, (m, tenant, id)), found)
  ]

  abbrev DeliverySource : String → Type 0
  DeliverySource source_id =
      (d : DeliveryRow) × (e : EventRow) × IsDelivery t tenant_id req d e
      × (e.source_id ≡ source_id)

  -- The source, for an event that is found or not.
  pub source_lem :
      (o : Option EventRow) (source_id : String)
      → EventCases o
      → source_id ≢ ""
      → (source_of o before.source_id ≡ source_id) ↔ SourceOf t tenant_id req source_id
  unfolding source_of
  source_lem o source_id (inl (e, here, found)) named = rw found (
    λ same. (named, inl (e, here, same)),
    λ (n, place). elim place [
      | inl (e', there, same) ↦
          ap (λ (y : EventRow). y.source_id) (same_event t keys tenant_id req here there) ∙ same
      | inr (nowhere, rest) ↦ absurd (nowhere e here)
    ],
  )
  source_lem o source_id (inr (nowhere, missing)) named =
      let delivered = scope_source_iff t keys tenant_id req source_id named in
      rw missing (
        λ same. (named, inr (nowhere, delivered.0 same)),
        λ (n, place). elim place [
          | inl (e', there, same) ↦ absurd (nowhere e' there)
          | inr (absent, rest) ↦ delivered.1 rest
        ],
      )

  pub type_lem :
      (o : Option EventRow) (type_name : String)
      → EventCases o
      → (type_of o ≡ type_name) ↔ TypeOf t tenant_id req type_name
  unfolding type_of
  type_lem o type_name (inl (e, here, found)) = rw found (
    λ same. inl (e, here, same),
    λ place. elim place [
      | inl (e', there, same) ↦
          ap (λ (y : EventRow). y.type_name) (same_event t keys tenant_id req here there) ∙ same
      | inr (nowhere, rest) ↦ absurd (nowhere e here)
    ],
  )
  type_lem o type_name (inr (nowhere, missing)) = rw missing (
    λ same. inr (nowhere, sym same),
    λ place. elim place [
      | inl (e', there, same) ↦ absurd (nowhere e' there)
      | inr (absent, same) ↦ sym same
    ],
  )

  pub unnamed : req.event_id ≡ "" → (e : EventRow) → ¬ NamesEvent t tenant_id req e
  unnamed blank e (named, rest) = named blank

  -- The source that is collected is the request's.
  pub source_iff :
      (source_id : String)
      → ((source_id ≢ "") × ((replay_scope t tenant_id req).source_id ≡ source_id))
        ↔ SourceOf t tenant_id req source_id
  unfolding replay_scope event_scope source_of
  source_iff source_id = elim (Bool-cases (req.event_id == "")) [
    | inl blank ↦
        let nowhere = unnamed (is_blank req.event_id blank) in
        rw blank (
          λ (named, same). (source_lem none source_id (inr (nowhere, refl)) named).0 same,
          λ s. (s.0, (source_lem none source_id (inr (nowhere, refl)) s.0).1 s),
        )
    | inr full ↦
        let cases = event_cases (not_blank req.event_id full) in
        rw full (
          λ (named, same). (source_lem _ source_id cases named).0 same,
          λ s. (s.0, (source_lem _ source_id cases s.0).1 s),
        )
  ]

  -- The routes of a source.
  pub source_routes_iff :
      (source_id type_name r : String)
      → Memᴰ r (source_routes t tenant_id source_id type_name) ↔ (
          (source_id ≢ "")
          × ((row : RouteRow) × Memᴰ row t.routes
              × (row.tenant_id ≡ tenant_id)
              × (row.source_id ≡ source_id)
              × (row.state ≡ "active")
              × Memᴰ type_name row.event_types
              × (row.id ≡ r)))
  unfolding source_routes
  source_routes_iff source_id type_name r = elim (Bool-cases (source_id == "")) [
    | inl blank ↦
        rw blank (λ m. elim m [ ], λ (named, rest). absurd (named (is_blank source_id blank)))
    | inr full ↦ rw full (
      λ m.
          let (row, listed, same) = (mem-route_ids _).0 m in
          let (there, hit) = rows_where→mem (is_route_of tenant_id source_id type_name) _ listed in
          let (tenant, source, active, lists) = (is_route_of_iff _ _ _ row).0 hit in
          (not_blank source_id full, (row, there, tenant, source, active, lists, same)),
      λ (named, (row, there, tenant, source, active, lists, same)). (mem-route_ids _).1 (
        row,
        mem→rows_where _ t.routes there
            ((is_route_of_iff tenant_id source_id type_name row).1 (tenant, source, active, lists)),
        same,
      ),
    )
  ]

  -- The routes that the deliveries of the event went by.
  pub original_routes_iff :
      (r : String)
      → Memᴰ r (original_routes t tenant_id req) ↔ (
          (d : DeliveryRow) × (req.config_mode ≡ "original")
          × Memᴰ d t.deliveries
          × (d.tenant_id ≡ tenant_id)
          × (d.event_id ≡ req.event_id)
          × (d.route_id ≡ r)
          × (r ≢ ""))
  unfolding original_routes is_delivery_of
  original_routes_iff r = elim (Bool-cases (req.config_mode == "original")) [
    | inr other ↦ rw other (
      λ m. elim m [ ],
      λ (d, mode, there, tenant, event, same, named).
          let yes_it = (eq_iff req.config_mode "original").1 mode in cc (yes_it, other),
    )
    | inl original ↦ rw original (
      λ m.
          let (d, listed, same, named) = (mem-named_routes _).0 m in
          let (there, hit) = rows_where→mem (is_delivery_of tenant_id req.event_id) _ listed in
          let (tenant, event) = (both_iff d.tenant_id tenant_id d.event_id req.event_id).0 hit in
          (d, (eq_iff _ _).0 original, there, tenant, event, same, named),
      λ (d, mode, there, tenant, event, same, named). (mem-named_routes _).1 (
        d,
        mem→rows_where _ t.deliveries there
            ((both_iff d.tenant_id tenant_id d.event_id req.event_id).1 (tenant, event)),
        same,
        named,
      ),
    )
  ]
