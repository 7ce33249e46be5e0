-- ===== src/Ingest/Consistent.antt =====
-- What holds of the tables of received webhooks (internal/adapters/postgres/store_ingest.go).
use webhookery.Common.{
  String, Bool, true, false, ◌||◌, ◌&&◌, List, [], ◌∷◌, Option, none, some, ◌==◌, string_eq, ◌≡◌,
  refl, ◌⊎◌, inl, inr, arith, All, All-imp, Bool-cases, eq_iff, and-eq-true, sym, ◌∙◌, some-eq,
}
use webhookery.Ingest.{CaptureInboundInput}
use webhookery.Ingest.Tables.{
  Tables, EventRow, OutboxRow, QuarantineRow, FreshIds, event_keyed, route_event, event_row,
  insert_event, insert_receipt, capture_for, capture_inbound,
}

abbrev pub has_event : String → String → List EventRow → Bool
has_event tenant_id id [] = false
has_event tenant_id id (e ∷ es) =
    e.tenant_id == tenant_id && e.id == id || has_event tenant_id id es

abbrev pub has_item : EventRow → List OutboxRow → Bool
has_item e [] = false
has_item e (o ∷ os) =
    (o.kind == route_event && (o.tenant_id == e.tenant_id && o.resource_id == e.id))
    || has_item e os

abbrev pub has_entry : EventRow → List QuarantineRow → Bool
has_entry e [] = false
has_entry e (q ∷ qs) = q.tenant_id == e.tenant_id && q.event_id == e.id || has_entry e qs

abbrev pub Distinct : List EventRow → Type 0
Distinct [] = Unit
Distinct (e ∷ es) = (event_keyed e.tenant_id e.dedupe_key es ≡ none) × Distinct es

abbrev pub Reviewed : List QuarantineRow → EventRow → Type 0
Reviewed qs e = (e.signature_verified ≡ true) ⊎ (has_entry e qs ≡ true)

-- Every event has an item in the outbox to be routed by; items, receipts, payloads and quarantine
-- entries name events of their own tenant; no two events of a tenant have one key.
pub record IsLinked (t : Tables) : Type 0 where
  pub routed : All (λ e. has_item e t.outbox ≡ true) t.events
  pub items_known : All (λ o. has_event o.tenant_id o.resource_id t.events ≡ true) t.outbox
  pub receipts_known :
      All (λ r. has_event r.tenant_id r.event_id t.events ≡ true) t.provider_receipts
  pub payloads_known : All (λ r. has_event r.tenant_id r.event_id t.events ≡ true) t.raw_payloads
  pub entries_known :
      All (λ q. has_event q.tenant_id q.event_id t.events ≡ true) t.quarantine_entries
  pub distinct : Distinct t.events

-- The tables are linked, and an event that is not verified has an entry in quarantine.
pub record IsConsistent (t : Tables) : Type 0 where
  pub linked : IsLinked t
  pub reviewed : All (Reviewed t.quarantine_entries) t.events

later : (x y : Bool) → y ≡ true → (x || y) ≡ true
later x y h = ground arith

first_of : (x y : Bool) → x ≡ true → (x || y) ≡ true
first_of x y h = ground arith

both : (x y : Bool) → x ≡ true → y ≡ true → (x && y) ≡ true
both x y h k = ground arith

pub same_text : (s : String) → (s == s) ≡ true
same_text s = (eq_iff s s).1 refl

pub event_keyed-has_event :
    (tenant_id key : String) (es : List EventRow) {id : String}
    → event_keyed tenant_id key es ≡ some id
    → has_event tenant_id id es ≡ true
unfolding event_keyed
event_keyed-has_event tenant_id key [] h = cc
event_keyed-has_event tenant_id key (e ∷ es) {id} h =
    elim (Bool-cases (e.tenant_id == tenant_id && e.dedupe_key == key)) [
      | inl here ↦ first_of (e.tenant_id == tenant_id && e.id == id) (has_event tenant_id id es) (
          both _ _ (and-eq-true (e.tenant_id == tenant_id) (e.dedupe_key == key) here).0
            ((eq_iff e.id id).1 (some-eq (rw here at h))))
      | inr there ↦ later _ _ (event_keyed-has_event tenant_id key es (rw there at h))
    ]

module _ (lookup_adapter_version : String → String) (ids : FreshIds)
    (input : CaptureInboundInput) where
  abbrev after_receipt : String → String → Tables → Tables
  after_receipt event_id status t =
      insert_receipt lookup_adapter_version ids input event_id status t

  -- The rows of a capture keep the tables linked when its event is known.
  receipt-IsLinked :
      (event_id status : String) (t : Tables)
      → has_event input.source.tenant_id event_id t.events ≡ true
      → IsLinked t
      → IsLinked (after_receipt event_id status t)
  unfolding insert_receipt
  receipt-IsLinked event_id status t known k = record {
    routed = k.routed;
    items_known = k.items_known;
    receipts_known = (known, k.receipts_known);
    payloads_known = (known, k.payloads_known);
    entries_known = elim (Bool-cases input.verification_ok) [
      | inl verified ↦ rw verified k.entries_known
      | inr refused ↦ rw refused (known, k.entries_known)
    ];
    distinct = k.distinct;
  }

  -- They leave reviewed what was, and an event that is not verified is reviewed with its own receipt.
  receipt-Reviewed :
      (event_id status : String) (t : Tables) (e : EventRow)
      → Reviewed t.quarantine_entries e
        ⊎ (e.signature_verified ≡ input.verification_ok)
          × (e.tenant_id ≡ input.source.tenant_id)
          × (e.id ≡ event_id)
      → Reviewed (after_receipt event_id status t).quarantine_entries e
  unfolding insert_receipt
  receipt-Reviewed event_id status t e h = elim (Bool-cases input.verification_ok) [
    | inl verified ↦
        rw verified (elim h [ inl r ↦ r | inr (same, tenant, id) ↦ inl (same ∙ verified) ])
    | inr refused ↦ rw refused (elim h [
      | inl (inl r) ↦ inl r
      | inl (inr r) ↦ inr (later _ _ r)
      | inr (same, tenant, id) ↦ inr (
          first_of _ _ (
            both _ _ ((eq_iff input.source.tenant_id e.tenant_id).1 (sym tenant))
              ((eq_iff event_id e.id).1 (sym id))))
    ])
  ]

  -- A new event, under a key that is free.
  event-IsLinked :
      (t : Tables)
      → event_keyed input.source.tenant_id input.event.dedupe_key t.events ≡ none
      → IsLinked t
      → IsLinked (insert_event lookup_adapter_version ids input t)
  unfolding insert_event event_row
  event-IsLinked t free k = record {
    routed = (
      first_of _ _
          (both _ _ refl (both _ _ (same_text input.source.tenant_id) (same_text ids.event_id))),
      All-imp t.events (λ e h. later _ _ h) k.routed,
    );
    items_known = (
      first_of _ _ (both _ _ (same_text input.source.tenant_id) (same_text ids.event_id)),
      All-imp t.outbox (λ o h. later _ _ h) k.items_known,
    );
    receipts_known = All-imp t.provider_receipts (λ r h. later _ _ h) k.receipts_known;
    payloads_known = All-imp t.raw_payloads (λ r h. later _ _ h) k.payloads_known;
    entries_known = All-imp t.quarantine_entries (λ q h. later _ _ h) k.entries_known;
    distinct = (free, k.distinct);
  }

  capture_for-IsConsistent :
      (t : Tables) (o : Option String)
      → event_keyed input.source.tenant_id input.event.dedupe_key t.events ≡ o
      → IsConsistent t
      → IsConsistent (capture_for lookup_adapter_version ids input t o).1
  unfolding capture_for insert_receipt insert_event event_row
  capture_for-IsConsistent t (some first) taken k = record {
    linked =
        receipt-IsLinked first _ t
          (event_keyed-has_event input.source.tenant_id input.event.dedupe_key t.events taken)
          k.linked;
    reviewed =
        All-imp t.events (λ e r. receipt-Reviewed first "duplicate_suppressed" t e (inl r))
          k.reviewed;
  }
  capture_for-IsConsistent t none free k = record {
    linked =
        receipt-IsLinked ids.event_id "unique" (insert_event lookup_adapter_version ids input t)
          (first_of _ _ (both _ _ (same_text input.source.tenant_id) (same_text ids.event_id)))
          (event-IsLinked t free k.linked);
    reviewed = (
      receipt-Reviewed ids.event_id "unique" (insert_event lookup_adapter_version ids input t)
          (event_row lookup_adapter_version ids input) (inr (refl, refl, refl)),
      All-imp t.events
          (λ e r.
            receipt-Reviewed ids.event_id "unique" (insert_event lookup_adapter_version ids input t)
              e (inl r))
          k.reviewed,
    );
  }

  pub capture_inbound-IsConsistent :
      (t : Tables)
      → IsConsistent t
      → IsConsistent (capture_inbound lookup_adapter_version ids input t).1
  unfolding capture_inbound
  capture_inbound-IsConsistent t k = capture_for-IsConsistent t _ refl k
