-- ===== src/Ingest/Tables.antt =====
-- `CaptureInbound` in internal/adapters/postgres/store_ingest.go. A transaction is one step on the tables, each the list of
-- its rows, the newest first; errors of the database, the tenant's row and where the body is stored
-- are left out.
use webhookery.Common.{
  ℕ, String, Bool, false, not, ◌||◌, ◌&&◌, List, [], ◌∷◌, Option, none, some, ◌==◌, string_eq,
  if◌then◌else◌, is_nil, trim_space,
}
use webhookery.Common.Int.{ℤ}
use webhookery.Ingest.{NormalizedEnvelope, CaptureInboundInput, CaptureInboundResult}

pub record EventRow : Type 0 where
  pub id : String
  pub tenant_id : String
  pub source_id : String
  pub provider : String
  pub type_name : String
  pub provider_event_id : String
  pub raw_payload_id : String
  pub raw_payload_hash : String
  pub signature_verified : Bool
  pub verification_reason : String
  pub dedupe_key : String
  pub dedupe_status : String
  pub received_at : ℤ

pub record RawPayloadRow : Type 0 where
  pub id : String
  pub tenant_id : String
  pub event_id : String
  pub sha256 : String
  pub content_type : String
  pub body : List ℕ

pub record ReceiptRow : Type 0 where
  pub id : String
  pub tenant_id : String
  pub source_id : String
  pub event_id : String
  pub raw_payload_id : String
  pub raw_headers : List (String × String)
  pub remote_ip : String
  pub verification_ok : Bool
  pub verification_reason : String

pub record EnvelopeRow : Type 0 where
  pub id : String
  pub tenant_id : String
  pub event_id : String
  pub adapter_version_id : String
  pub normalized : NormalizedEnvelope

pub record OutboxRow : Type 0 where
  pub id : String
  pub tenant_id : String
  pub kind : String
  pub resource_id : String

pub record IdempotencyRow : Type 0 where
  pub tenant_id : String
  pub dedupe_key : String
  pub resource_id : String

pub record DedupeRow : Type 0 where
  pub tenant_id : String
  pub source_id : String
  pub dedupe_key : String
  pub first_event_id : String
  pub last_receipt_id : String
  pub status : String

pub record QuarantineRow : Type 0 where
  pub id : String
  pub tenant_id : String
  pub event_id : String
  pub reason : String
  pub state : String

pub record Tables : Type 0 where
  pub events : List EventRow
  pub raw_payloads : List RawPayloadRow
  pub provider_receipts : List ReceiptRow
  pub normalized_envelopes : List EnvelopeRow
  pub outbox : List OutboxRow
  pub idempotency_records : List IdempotencyRow
  pub dedupe_records : List DedupeRow
  pub quarantine_entries : List QuarantineRow

-- What `mustID` draws for one capture.
pub record FreshIds : Type 0 where
  pub event_id : String
  pub raw_id : String
  pub receipt_id : String
  pub outbox_id : String
  pub normalized_id : String
  pub quarantine_id : String

-- The event with that tenant and key.
unfoldable pub event_keyed : String → String → List EventRow → Option String
event_keyed tenant_id key [] = none
event_keyed tenant_id key (e ∷ events) =
    if e.tenant_id == tenant_id && e.dedupe_key == key
    then some e.id
    else event_keyed tenant_id key events

unfoldable pub has_idempotency : String → String → List IdempotencyRow → Bool
has_idempotency tenant_id key [] = false
has_idempotency tenant_id key (r ∷ rows) =
    r.tenant_id == tenant_id && r.dedupe_key == key || has_idempotency tenant_id key rows

-- `ON CONFLICT DO UPDATE` of the last receipt and the status.
unfoldable pub upsert_dedupe : DedupeRow → List DedupeRow → List DedupeRow
upsert_dedupe new [] = new ∷ []
upsert_dedupe new (r ∷ rows) =
    if r.tenant_id == new.tenant_id && r.dedupe_key == new.dedupe_key
    then record r { last_receipt_id = new.last_receipt_id; status = new.status } ∷ rows
    else r ∷ upsert_dedupe new rows

abbrev pub route_event : String
route_event = "route_event"

-- `firstNonEmpty` of the store, which trims.
unfoldable pub named_adapter : String → String → String
named_adapter adapter provider =
    if not (trim_space adapter == "")
    then adapter
    else if not (trim_space provider == "")
    then provider
    else ""

module _ (lookup_adapter_version : String → String) (ids : FreshIds) where
  unfoldable pub event_row : CaptureInboundInput → EventRow
  event_row input = record {
    id = ids.event_id;
    tenant_id = input.source.tenant_id;
    source_id = input.source.id;
    provider = input.source.provider;
    type_name = if input.event.type_name == "" then "unknown" else input.event.type_name;
    provider_event_id = input.event.provider_id;
    raw_payload_id = ids.raw_id;
    raw_payload_hash = input.raw_hash;
    signature_verified = input.verification_ok;
    verification_reason = input.verify_reason;
    dedupe_key = input.event.dedupe_key;
    dedupe_status = "unique";
    received_at = input.event.received_at;
  }

  -- The rows of an event that is new: itself, its envelope if there is one, and its outbox item.
  unfoldable pub insert_event : CaptureInboundInput → Tables → Tables
  insert_event input t =
      let envelope : EnvelopeRow = record {
        id = ids.normalized_id;
        tenant_id = input.source.tenant_id;
        event_id = ids.event_id;
        adapter_version_id =
            lookup_adapter_version (named_adapter input.source.adapter input.source.provider);
        normalized = input.normalized;
      } in
      record t {
        events = event_row input ∷ t.events;
        normalized_envelopes =
            if is_nil input.normalized.envelope
            then t.normalized_envelopes
            else envelope ∷ t.normalized_envelopes;
        outbox =
            record {
              id = ids.outbox_id;
              tenant_id = input.source.tenant_id;
              kind = route_event;
              resource_id = ids.event_id;
            }
            ∷ t.outbox;
      }

  -- The rows of every capture, for the event that it belongs to, which the payload's row names at once.
  unfoldable pub insert_receipt : CaptureInboundInput → String → String → Tables → Tables
  insert_receipt input event_id status t =
      let dedupe : DedupeRow = record {
        tenant_id = input.source.tenant_id;
        source_id = input.source.id;
        dedupe_key = input.event.dedupe_key;
        first_event_id = event_id;
        last_receipt_id = ids.receipt_id;
        status = status;
      } in
      let idempotency : IdempotencyRow = record {
        tenant_id = input.source.tenant_id;
        dedupe_key = input.event.dedupe_key;
        resource_id = event_id;
      } in
      let keyed = not (input.event.dedupe_key == "") in
      record t {
        raw_payloads =
            record {
              id = ids.raw_id;
              tenant_id = input.source.tenant_id;
              event_id = event_id;
              sha256 = input.raw_hash;
              content_type = input.content_type;
              body = input.raw_body;
            }
            ∷ t.raw_payloads;
        provider_receipts =
            record {
              id = ids.receipt_id;
              tenant_id = input.source.tenant_id;
              source_id = input.source.id;
              event_id = event_id;
              raw_payload_id = ids.raw_id;
              raw_headers = input.raw_headers;
              remote_ip = input.remote_ip;
              verification_ok = input.verification_ok;
              verification_reason = input.verify_reason;
            }
            ∷ t.provider_receipts;
        idempotency_records =
            if keyed
              && not (
                  has_idempotency input.source.tenant_id input.event.dedupe_key
                    t.idempotency_records)
            then idempotency ∷ t.idempotency_records
            else t.idempotency_records;
        dedupe_records = if keyed then upsert_dedupe dedupe t.dedupe_records else t.dedupe_records;
        quarantine_entries =
            if not input.verification_ok
            then record {
              id = ids.quarantine_id;
              tenant_id = input.source.tenant_id;
              event_id = event_id;
              reason = input.verify_reason;
              state = "open";
            }
              ∷ t.quarantine_entries
            else t.quarantine_entries;
      }

  unfoldable pub captured : String → String → CaptureInboundResult
  captured event_id status = record {
    event_id = event_id;
    receipt_id = ids.receipt_id;
    raw_payload_id = ids.raw_id;
    dedupe_status = status;
  }

  -- What follows the insertion: it conflicts with an event of the tenant that has the key, or the
  -- event is new.
  unfoldable pub capture_for :
      CaptureInboundInput → Tables → Option String → CaptureInboundResult × Tables
  capture_for input t (some first) =
      (captured first "duplicate_suppressed", insert_receipt input first "duplicate_suppressed" t)
  capture_for input t none = (
    captured ids.event_id "unique",
    insert_receipt input ids.event_id "unique" (insert_event input t),
  )

  unfoldable pub capture_inbound : CaptureInboundInput → Tables → CaptureInboundResult × Tables
  capture_inbound input t =
      capture_for input t (event_keyed input.source.tenant_id input.event.dedupe_key t.events)
