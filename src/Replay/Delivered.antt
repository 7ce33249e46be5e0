-- ===== src/Replay/Delivered.antt =====
-- The scope that the queries collect has the source and the routes that the tables say
-- (replayApprovalPolicyForReplay in internal/adapters/postgres/store.go).
use mathlib.Core.List.{Memᴰ}
use webhookery.Common.{
  String, List, [], ◌∷◌, ◌==◌, string_eq, none, some, ◌≡◌, ◌≢◌, ◌↔◌, ◌⊎◌, inl, inr, refl, sym,
  subst, ap, ◌∙◌, Bool-cases, Option-cases, if◌then◌else◌,
}
use webhookery.Access.{rows_where}
use webhookery.Access.Rows.{rows_where→mem, mem→rows_where}
use webhookery.Replay.{ReplayRequest, DeliveryRow, EventRow, ReplayTables}
use webhookery.Replay.Scope.{
  ReplayScope, is_delivery, find_event, named_routes, first_delivery, delivery_scope,
}
use webhookery.Replay.Requested.{HasKeys, IsDelivery, NamesEvent, find_event→mem, find_event→none}
use webhookery.Replay.Routes.{is_blank, not_blank, mem-named_routes, both_iff}

-- What is collected for a delivery and its event, and when there is none.
scope_of_delivery : DeliveryRow → EventRow → ReplayScope
scope_of_delivery d e = record {
  source_id = e.source_id;
  route_ids = if d.route_id == "" then [] else d.route_id ∷ [];
}

no_scope : ReplayScope
no_scope = record { source_id = ""; route_ids = [] }

module _ (t : ReplayTables) (keys : HasKeys t) (tenant_id : String) (req : ReplayRequest) where
  same_delivery :
      {d d' : DeliveryRow} {e e' : EventRow}
      → IsDelivery t tenant_id req d e
      → IsDelivery t tenant_id req d' e'
      → (d ≡ d') × (e ≡ e')
  same_delivery (n, m, tenant, id, (em, et, ei)) (n', m', tenant', id', (em', et', ei')) =
      let same = keys.deliveries m m' (id ∙ sym id') in
      (same, keys.events em em' (ei ∙ ap (λ (y : DeliveryRow). y.event_id) same ∙ sym ei'))

  pub same_event :
      {e e' : EventRow} → NamesEvent t tenant_id req e → NamesEvent t tenant_id req e' → e ≡ e'
  same_event (n, (m, tenant, id)) (n', (m', tenant', id')) = keys.events m m' (id ∙ sym id')

  abbrev DeliveryCases : ReplayScope → Type 0
  DeliveryCases scope =
      ((d : DeliveryRow) × (e : EventRow) × IsDelivery t tenant_id req d e
        × (scope ≡ scope_of_delivery d e))
      ⊎ ((d : DeliveryRow) (e : EventRow) → ¬ IsDelivery t tenant_id req d e) × (scope ≡ no_scope)

  first_missing :
      (d : DeliveryRow) (rows : List DeliveryRow)
      → find_event tenant_id d.event_id t.events ≡ none
      → first_delivery t tenant_id (d ∷ rows) ≡ no_scope
  unfolding first_delivery no_scope
  first_missing d rows missing = rw (first_delivery, missing) refl

  first_found :
      (d : DeliveryRow) (e : EventRow) (rows : List DeliveryRow)
      → find_event tenant_id d.event_id t.events ≡ some e
      → first_delivery t tenant_id (d ∷ rows) ≡ scope_of_delivery d e
  unfolding first_delivery scope_of_delivery
  first_found d e rows found = rw (first_delivery, found) refl

  rows_cases :
      (rows : List DeliveryRow)
      → req.delivery_id ≢ ""
      → rows_where (is_delivery tenant_id req.delivery_id) t.deliveries ≡ rows
      → DeliveryCases (first_delivery t tenant_id rows)
  unfolding first_delivery is_delivery scope_of_delivery no_scope
  rows_cases [] named same = inr (
    λ d e (n, m, tenant, id, (em, et, ei)).
        let listed =
          mem→rows_where (is_delivery tenant_id req.delivery_id) t.deliveries m
            ((both_iff d.tenant_id tenant_id d.id req.delivery_id).1 (tenant, id)) in
        elim (subst (Memᴰ d) same listed) [ ],
    refl,
  )
  rows_cases (d ∷ rows) named same =
      let (m, hit) =
        rows_where→mem (is_delivery tenant_id req.delivery_id) t.deliveries
          (subst (Memᴰ d) (sym same) (Memᴰ.head refl)) in
      let (tenant, id) = (both_iff d.tenant_id tenant_id d.id req.delivery_id).0 hit in
      elim (Option-cases (find_event tenant_id d.event_id t.events)) [
        | inl missing ↦ inr (
          λ d' e' (n', m', tenant', id', (em', et', ei')).
              let alike = keys.deliveries m' m (id' ∙ sym id) in
              find_event→none tenant_id d.event_id t.events missing em'
                (et', ei' ∙ ap (λ (y : DeliveryRow). y.event_id) alike),
          first_missing d rows missing,
        )
        | inr (e, found) ↦
            let (em, et, ei) = find_event→mem tenant_id d.event_id t.events found in
            inl (d, e, (named, m, tenant, id, (em, et, ei)), first_found d e rows found)
      ]

  delivery_cases : DeliveryCases (delivery_scope t tenant_id req)
  unfolding delivery_scope no_scope
  delivery_cases = elim (Bool-cases (req.delivery_id == "")) [
    | inl blank ↦
        rw blank
          (inr (λ d e (named, m, tenant, id, event). named (is_blank req.delivery_id blank), refl))
    | inr named ↦ rw named (rows_cases _ (not_blank req.delivery_id named) refl)
  ]

  -- The source of the delivery's event.
  pub scope_source_iff :
      (source_id : String)
      → source_id ≢ ""
      → ((delivery_scope t tenant_id req).source_id ≡ source_id) ↔ (
          (d : DeliveryRow) × (e : EventRow) × IsDelivery t tenant_id req d e
          × (e.source_id ≡ source_id))
  unfolding scope_of_delivery no_scope
  scope_source_iff source_id named = elim delivery_cases [
    | inl (d, e, here, shape) ↦ rw shape (
      λ same. (d, e, here, same),
      λ (d', e', there, same).
          ap (λ (y : EventRow). y.source_id) (same_delivery here there).1 ∙ same,
    )
    | inr (nowhere, shape) ↦
        rw shape
          (λ same. absurd (named (sym same)), λ (d', e', there, same). absurd (nowhere d' e' there))
  ]

  -- The route of the delivery.
  pub scope_routes_iff :
      (r : String)
      → Memᴰ r (delivery_scope t tenant_id req).route_ids ↔ (
          (d : DeliveryRow) × (e : EventRow) × IsDelivery t tenant_id req d e
          × (d.route_id ≡ r)
          × (r ≢ ""))
  unfolding scope_of_delivery no_scope named_routes
  scope_routes_iff r = elim delivery_cases [
    | inr (nowhere, shape) ↦
        rw shape (λ m. elim m [ ], λ (d', e', there, same, named). absurd (nowhere d' e' there))
    | inl (d, e, here, shape) ↦
        let column = mem-named_routes {r = r} (d ∷ []) in
        rw shape (
          λ m.
              let (x, listed, same, named) = column.0 m in
              elim listed [
                | Memᴰ.head p ↦
                    (d, e, here, ap (λ (y : DeliveryRow). y.route_id) (sym p) ∙ same, named)
                | Memᴰ.tail n ↦ elim n [ ]
              ],
          λ (d', e', there, same, named).
              column.1 (d', Memᴰ.head (sym (same_delivery here there).0), same, named),
        )
  ]
