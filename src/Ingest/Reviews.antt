-- ===== src/Ingest/Reviews.antt =====
-- The tables of received webhooks over all captures and reviews
-- (internal/adapters/postgres/store_ingest.go and internal/adapters/postgres/store.go).
use webhookery.Common.{
  String, Bool, true, false, not, ◌||◌, ◌&&◌, List, [], ◌∷◌, Option, none, some, ◌==◌, string_eq,
  if◌then◌else◌, ◌≡◌, refl, inl, inr, arith, All, All-imp, All-update_where, Bool-cases, eq_iff,
  subst, ◌∙◌, some-eq, update_where, Result, ok, err,
}
use webhookery.Ingest.{CaptureInboundInput, IngestError}
use webhookery.Ingest.Tables.{Tables, EventRow, OutboxRow, QuarantineRow, FreshIds, capture_inbound}
use webhookery.Ingest.Quarantine.{
  open_entry, set_state, approve_entry, approve_quarantine, reject_entry, reject_quarantine,
}
use webhookery.Ingest.Consistent.{
  has_event, has_entry, Reviewed, IsConsistent, capture_inbound-IsConsistent,
}

-- A review changes the state of entries alone.
entries_lem :
    (tenant_id id state : String) (e : EventRow) (qs : List QuarantineRow)
    → has_entry e (set_state tenant_id id state qs) ≡ has_entry e qs
unfolding set_state update_where
entries_lem tenant_id id state e [] = refl
entries_lem tenant_id id state e (q ∷ qs) =
    rw (entries_lem tenant_id id state e qs)
      (same (q.tenant_id == tenant_id && q.id == id && q.state == "open"))
  where
    same :
        (test : Bool)
        → ((if test then record q { state = state } else q).tenant_id == e.tenant_id
              && (if test then record q { state = state } else q).event_id == e.id
            || has_entry e qs)
          ≡ (q.tenant_id == e.tenant_id && q.event_id == e.id || has_entry e qs)
    same true = refl
    same false = refl

first_and : (x y z : Bool) → (x && y && z) ≡ true → x ≡ true
first_and x y z h = ground arith

open_entry-has_event :
    (tenant_id id : String) (es : List EventRow) (qs : List QuarantineRow) {q : QuarantineRow}
    → All (λ r. has_event r.tenant_id r.event_id es ≡ true) qs
    → open_entry tenant_id id qs ≡ some q
    → has_event tenant_id q.event_id es ≡ true
unfolding open_entry
open_entry-has_event tenant_id id es [] all h = cc
open_entry-has_event tenant_id id es (r ∷ qs) {q} (here, there) h =
    elim (Bool-cases (r.tenant_id == tenant_id && r.id == id && r.state == "open")) [
      | inl hit ↦
          subst (λ (x : QuarantineRow). has_event tenant_id x.event_id es ≡ true)
            (some-eq (rw hit at h))
            (subst (λ s. has_event s r.event_id es ≡ true)
              ((eq_iff r.tenant_id tenant_id).0 (first_and _ (r.id == id) (r.state == "open") hit))
              here)
      | inr miss ↦ open_entry-has_event tenant_id id es qs there (rw miss at h)
    ]

later : (x y : Bool) → y ≡ true → (x || y) ≡ true
later x y h = ground arith

reviewed_lem :
    (tenant_id id state : String) (qs : List QuarantineRow) (es : List EventRow)
    → All (Reviewed qs) es
    → All (Reviewed (set_state tenant_id id state qs)) es
reviewed_lem tenant_id id state qs es all =
    All-imp es
      (λ e r. elim r [
        | inl good ↦ inl good
        | inr held ↦ inr (entries_lem tenant_id id state e qs ∙ held)
      ])
      all

known_lem :
    (tenant_id id state : String) (es : List EventRow) (qs : List QuarantineRow)
    → All (λ q. has_event q.tenant_id q.event_id es ≡ true) qs
    → All (λ q. has_event q.tenant_id q.event_id es ≡ true) (set_state tenant_id id state qs)
unfolding set_state
known_lem tenant_id id state es qs all = All-update_where _ _ qs (λ q hit known. known) all

-- What a review leaves behind, when it succeeds.
abbrev Leaves : Result IngestError (String × Tables) → Type 0
Leaves (ok (event_id, t)) = IsConsistent t
Leaves (err e) = Unit

set_state-IsConsistent :
    (tenant_id entry_id state : String) (t : Tables)
    → IsConsistent t
    → IsConsistent
        (record t { quarantine_entries = set_state tenant_id entry_id state t.quarantine_entries })
set_state-IsConsistent tenant_id entry_id state t k = record {
  linked = record {
    routed = k.linked.routed;
    items_known = k.linked.items_known;
    receipts_known = k.linked.receipts_known;
    payloads_known = k.linked.payloads_known;
    entries_known =
        known_lem tenant_id entry_id state t.events t.quarantine_entries k.linked.entries_known;
    distinct = k.linked.distinct;
  };
  reviewed = reviewed_lem tenant_id entry_id state t.quarantine_entries t.events k.reviewed;
}

-- A further item for an event that is known.
item-IsConsistent :
    (o : OutboxRow) (t : Tables)
    → has_event o.tenant_id o.resource_id t.events ≡ true
    → IsConsistent t
    → IsConsistent (record t { outbox = o ∷ t.outbox })
item-IsConsistent o t known k = record {
  linked = record {
    routed = All-imp t.events (λ e h. later _ _ h) k.linked.routed;
    items_known = (known, k.linked.items_known);
    receipts_known = k.linked.receipts_known;
    payloads_known = k.linked.payloads_known;
    entries_known = k.linked.entries_known;
    distinct = k.linked.distinct;
  };
  reviewed = k.reviewed;
}

reject_entry-Leaves :
    (tenant_id entry_id : String) (t : Tables) (o : Option QuarantineRow)
    → IsConsistent t
    → Leaves (reject_entry tenant_id entry_id t o)
unfolding reject_entry
reject_entry-Leaves tenant_id entry_id t none k = tt
reject_entry-Leaves tenant_id entry_id t (some q) k =
    set_state-IsConsistent tenant_id entry_id "rejected" t k

approve_entry-Leaves :
    (outbox_id tenant_id entry_id : String) (route : Bool) (t : Tables) (o : Option QuarantineRow)
    → open_entry tenant_id entry_id t.quarantine_entries ≡ o
    → IsConsistent t
    → Leaves (approve_entry outbox_id tenant_id entry_id route t o)
unfolding approve_entry
approve_entry-Leaves outbox_id tenant_id entry_id route t none found k = tt
approve_entry-Leaves outbox_id tenant_id entry_id route t (some q) found k =
    elim (Bool-cases (route && not (q.event_id == ""))) [
      | inr alone ↦ rw alone (set_state-IsConsistent tenant_id entry_id "approved" t k)
      | inl routed ↦ rw routed (
          item-IsConsistent _
            (record t {
              quarantine_entries = set_state tenant_id entry_id "approved" t.quarantine_entries;
            })
            (open_entry-has_event tenant_id entry_id t.events t.quarantine_entries
              k.linked.entries_known found)
            (set_state-IsConsistent tenant_id entry_id "approved" t k))
    ]

-- One transaction.
pub data Step (lookup_adapter_version : String → String) : Tables → Tables → Type 0 where
  captured :
      (t : Tables) (ids : FreshIds) (input : CaptureInboundInput)
      → Step lookup_adapter_version t (capture_inbound lookup_adapter_version ids input t).1
  approved :
      (t t' : Tables) (outbox_id tenant_id entry_id event_id : String) (route_after_release : Bool)
      → approve_quarantine outbox_id tenant_id entry_id route_after_release t ≡ ok (event_id, t')
      → Step lookup_adapter_version t t'
  rejected :
      (t t' : Tables) (tenant_id entry_id event_id : String)
      → reject_quarantine tenant_id entry_id t ≡ ok (event_id, t')
      → Step lookup_adapter_version t t'

-- The tables that some sequence of transactions leads to.
pub data Received (lookup_adapter_version : String → String) : Tables → Tables → Type 0 where
  start : (t : Tables) → Received lookup_adapter_version t t
  next :
      (t u v : Tables)
      → Received lookup_adapter_version t u
      → Step lookup_adapter_version u v
      → Received lookup_adapter_version t v

Step-IsConsistent :
    (lookup_adapter_version : String → String) (t t' : Tables)
    → Step lookup_adapter_version t t'
    → IsConsistent t
    → IsConsistent t'
unfolding approve_quarantine reject_quarantine
Step-IsConsistent lookup_adapter_version t t' (captured _ ids input) k =
    capture_inbound-IsConsistent lookup_adapter_version ids input t k
Step-IsConsistent lookup_adapter_version t t'
      (approved _ _ outbox_id tenant_id entry_id event_id route h) k =
    subst Leaves h (approve_entry-Leaves outbox_id tenant_id entry_id route t _ refl k)
Step-IsConsistent lookup_adapter_version t t' (rejected _ _ tenant_id entry_id event_id h) k =
    subst Leaves h (reject_entry-Leaves tenant_id entry_id t _ k)

-- From consistent tables, such as empty ones, any sequence of captures and quarantine reviews leads
-- to tables in which every event has an outbox item that routes it, every event that is not
-- verified has an entry in quarantine, no two events of a tenant have one key, and every item,
-- receipt, payload and entry names an event of its own tenant.
pub Received-IsConsistent :
    (lookup_adapter_version : String → String) (t t' : Tables)
    → Received lookup_adapter_version t t'
    → IsConsistent t
    → IsConsistent t'
Received-IsConsistent lookup_adapter_version t t' (start _) k = k
Received-IsConsistent lookup_adapter_version t t' (next _ u _ r s) k =
    Step-IsConsistent lookup_adapter_version u t' s
      (Received-IsConsistent lookup_adapter_version t u r k)
