-- ===== src/Ingest/Quarantine.antt =====
-- The review of quarantined events (internal/adapters/postgres/store.go).
use webhookery.Common.{
  String, Bool, not, ◌&&◌, List, [], ◌∷◌, Option, none, some, ◌==◌, string_eq, if◌then◌else◌,
  Result, ok, err, update_where,
}
use webhookery.Ingest.{IngestError, not_found}
use webhookery.Ingest.Tables.{QuarantineRow, Tables, route_event}

unfoldable pub open_entry : String → String → List QuarantineRow → Option QuarantineRow
open_entry tenant_id id [] = none
open_entry tenant_id id (q ∷ rows) =
    if q.tenant_id == tenant_id && q.id == id && q.state == "open"
    then some q
    else open_entry tenant_id id rows

unfoldable pub set_state : String → String → String → List QuarantineRow → List QuarantineRow
set_state tenant_id id state =
    update_where (λ q. q.tenant_id == tenant_id && q.id == id && q.state == "open")
      (λ q. record q { state = state })

unfoldable pub approve_entry :
    String
    → String
    → String
    → Bool
    → Tables
    → Option QuarantineRow
    → Result IngestError (String × Tables)
approve_entry outbox_id tenant_id entry_id route_after_release t none = err not_found
approve_entry outbox_id tenant_id entry_id route_after_release t (some q) = ok (
  q.event_id,
  record t {
    quarantine_entries = set_state tenant_id entry_id "approved" t.quarantine_entries;
    outbox =
        if route_after_release && not (q.event_id == "")
        then record {
          id = outbox_id;
          tenant_id = tenant_id;
          kind = route_event;
          resource_id = q.event_id;
        }
          ∷ t.outbox
        else t.outbox;
  },
)

-- `ApproveQuarantine`, and the id of the event; an entry's audit event is left out.
unfoldable pub approve_quarantine :
    String → String → String → Bool → Tables → Result IngestError (String × Tables)
approve_quarantine outbox_id tenant_id entry_id route_after_release t =
    approve_entry outbox_id tenant_id entry_id route_after_release t
      (open_entry tenant_id entry_id t.quarantine_entries)

unfoldable pub reject_entry :
    String → String → Tables → Option QuarantineRow → Result IngestError (String × Tables)
reject_entry tenant_id entry_id t none = err not_found
reject_entry tenant_id entry_id t (some q) = ok (
  q.event_id,
  record t { quarantine_entries = set_state tenant_id entry_id "rejected" t.quarantine_entries },
)

unfoldable pub reject_quarantine : String → String → Tables → Result IngestError (String × Tables)
reject_quarantine tenant_id entry_id t =
    reject_entry tenant_id entry_id t (open_entry tenant_id entry_id t.quarantine_entries)
