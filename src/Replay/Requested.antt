-- ===== src/Replay/Requested.antt =====
-- The source and the routes of a replay request, as the tables say
-- (replayApprovalPolicyForReplay in internal/adapters/postgres/store.go).
use mathlib.Core.List.{Memᴰ}
use webhookery.Common.{
  String, ◌&&◌, List, [], ◌∷◌, ◌==◌, string_eq, none, some, ◌≡◌, ◌≢◌, ◌⊎◌, inl, inr, sym, subst,
  arith, eq_iff, Bool-cases, some-eq,
}
use webhookery.Replay.{ReplayRequest, DeliveryRow, EventRow, RouteRow, ReplayTables}
use webhookery.Replay.Scope.{find_event}

-- The primary keys of events and deliveries.
pub record HasKeys (t : ReplayTables) : Type 0 where
  pub events : {e e' : EventRow} → Memᴰ e t.events → Memᴰ e' t.events → e.id ≡ e'.id → e ≡ e'
  pub deliveries :
      {d d' : DeliveryRow} → Memᴰ d t.deliveries → Memᴰ d' t.deliveries → d.id ≡ d'.id → d ≡ d'

module _ (t : ReplayTables) (tenant_id : String) where
  abbrev pub IsEvent : String → EventRow → Type 0
  IsEvent id e = Memᴰ e t.events × (e.tenant_id ≡ tenant_id) × (e.id ≡ id)

  module _ (req : ReplayRequest) where
    -- The delivery of the request, with its event.
    abbrev pub IsDelivery : DeliveryRow → EventRow → Type 0
    IsDelivery d e =
        (req.delivery_id ≢ "")
        × Memᴰ d t.deliveries
        × (d.tenant_id ≡ tenant_id)
        × (d.id ≡ req.delivery_id)
        × IsEvent d.event_id e

    -- The event that the request names exists.
    abbrev pub NamesEvent : EventRow → Type 0
    NamesEvent e = (req.event_id ≢ "") × IsEvent req.event_id e

    -- The source is the named event's, or else the delivery's event's.
    abbrev pub SourceOf : String → Type 0
    SourceOf source_id =
        (source_id ≢ "")
        × (((e : EventRow) × NamesEvent e × (e.source_id ≡ source_id))
            ⊎ ((e : EventRow) → ¬ NamesEvent e)
              × ((d : DeliveryRow) × (e : EventRow) × IsDelivery d e × (e.source_id ≡ source_id)))

    -- The type of the named event, which is empty when it does not exist.
    abbrev pub TypeOf : String → Type 0
    TypeOf type_name =
        ((e : EventRow) × NamesEvent e × (e.type_name ≡ type_name))
        ⊎ ((e : EventRow) → ¬ NamesEvent e) × (type_name ≡ "")

    -- A route of the request: the delivery went by it; or it is an active route of the source that
    -- takes the type of the named event; or, when the original configuration is asked for, some
    -- delivery of the named event went by it.
    abbrev pub RouteOf : String → Type 0
    RouteOf route_id =
        ((d : DeliveryRow) × (e : EventRow) × IsDelivery d e
          × (d.route_id ≡ route_id)
          × (route_id ≢ ""))
        ⊎ ((source_id : String) × (type_name : String) × (row : RouteRow) × SourceOf source_id
            × TypeOf type_name
            × (req.event_id ≢ "")
            × Memᴰ row t.routes
            × (row.tenant_id ≡ tenant_id)
            × (row.source_id ≡ source_id)
            × (row.state ≡ "active")
            × Memᴰ type_name row.event_types
            × (row.id ≡ route_id))
        ⊎ ((d : DeliveryRow) × (req.event_id ≢ "")
            × (req.config_mode ≡ "original")
            × Memᴰ d t.deliveries
            × (d.tenant_id ≡ tenant_id)
            × (d.event_id ≡ req.event_id)
            × (d.route_id ≡ route_id)
            × (route_id ≢ ""))

-- A row of events that is found is one of the key; when none is found there is none.
pub find_event→mem :
    (tenant_id id : String) (events : List EventRow) {e : EventRow}
    → find_event tenant_id id events ≡ some e
    → Memᴰ e events × (e.tenant_id ≡ tenant_id) × (e.id ≡ id)
unfolding find_event
find_event→mem tenant_id id [] h = cc h
find_event→mem tenant_id id (x ∷ events) h =
    elim (Bool-cases (x.tenant_id == tenant_id && x.id == id)) [
      | inl hit ↦
          let same = some-eq (rw hit at h) in
          let (tenant, named) =
            subst (λ (y : EventRow). (y.tenant_id ≡ tenant_id) × (y.id ≡ id)) same
              ((eq_iff _ _).0 (ground arith), (eq_iff _ _).0 (ground arith)) in
          (Memᴰ.head (sym same), tenant, named)
      | inr miss ↦
          let (m, tenant, named) = find_event→mem tenant_id id events (rw miss at h) in
          (Memᴰ.tail m, tenant, named)
    ]

pub find_event→none :
    (tenant_id id : String) (events : List EventRow) {e : EventRow}
    → find_event tenant_id id events ≡ none
    → Memᴰ e events
    → (e.tenant_id ≡ tenant_id) × (e.id ≡ id)
    → ⊥
unfolding find_event
find_event→none tenant_id id [] h m keys = elim m [ ]
find_event→none tenant_id id (x ∷ events) h m keys =
    elim (Bool-cases (x.tenant_id == tenant_id && x.id == id)) [
      | inl hit ↦ let never = rw hit at h in cc never
      | inr miss ↦ elim m [
        | Memᴰ.head p ↦
            let here = subst (λ (y : EventRow). (y.tenant_id ≡ tenant_id) × (y.id ≡ id)) p keys in
            ground (arith, miss, (eq_iff x.tenant_id tenant_id).1 here.0, (eq_iff x.id id).1 here.1)
        | Memᴰ.tail n ↦ find_event→none tenant_id id events (rw miss at h) n keys
      ]
    ]
