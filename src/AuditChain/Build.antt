-- ===== src/AuditChain/Build.antt =====
-- How internal/adapters/postgres/store.go appends to one tenant's chain: `recordAuditEventTx`,
-- `ensureAuditChainHead`, `insertAuditChainEntry` and `backfillTenantAuditChain`. The tables of the
-- tenant are a record; a transaction that fails leaves it as it was. Rows that the SQL selects in
-- order are given as the list `pending`. Fresh identifiers and the clock are arguments.
pub mod Invariant
pub mod Steps
pub mod Backfill
pub mod History
use webhookery.Common.{
  ℕ, zero, suc, ◌+◌, ◌-◌, ◌*◌, ◌/◌, String, Bool, true, false, List, [], ◌∷◌, ◌++◌, Option, none,
  some, ◌==◌, string_eq, if◌then◌else◌,
}
use webhookery.Common.Int.{ℤ, pos, negsuc}
use webhookery.AuditChain.{Platform, AuditEvent, AuditChainEntry, compute_entry}
use webhookery.AuditChain.Proof.{next_sequence}

-- A row of audit_chain_heads.
pub record Head : Type 0 where
  pub sequence : ℤ
  pub chain_hash : String
  pub last_audit_event_id : String

pub record ChainStore : Type 0 where
  pub head : Option Head
  pub events : List AuditEvent
  pub entries : List AuditChainEntry

-- `OccurredAt` of an input is none for the zero time.
pub record AuditEventInput : Type 0 where
  pub tenant_id : String
  pub actor_id : String
  pub action : String
  pub resource : String
  pub resource_id : String
  pub reason : String
  pub occurred_at : Option ℤ
  pub source : String

-- `Truncate(time.Microsecond)` counts from the year 1, so it rounds down on both sides of 1970.
unfoldable pub truncate_micro : ℤ → ℤ
truncate_micro (pos n) = pos (n / 1000 * 1000)
truncate_micro (negsuc n) = negsuc (n / 1000 * 1000 + 999)

-- INSERT … ON CONFLICT (tenant_id) DO NOTHING, then SELECT … FOR UPDATE.
unfoldable pub ensure_audit_chain_head : ChainStore → ChainStore
ensure_audit_chain_head s = elim s.head [
  | none ↦ record s {
    head = some (record { sequence = pos 0; chain_hash = ""; last_audit_event_id = "" });
  }
  | some h ↦ s
]

abbrev pub chained : String → List AuditChainEntry → Bool
chained id [] = false
chained id (e ∷ es) = if e.audit_event_id == id then true else chained id es

abbrev pub has_event : String → List AuditEvent → Bool
has_event id [] = false
has_event id (e ∷ es) = if e.id == id then true else has_event id es

-- ON CONFLICT (tenant_id, audit_event_id) DO NOTHING.
unfoldable pub insert_audit_chain_entry :
    AuditChainEntry → List AuditChainEntry → List AuditChainEntry
insert_audit_chain_entry entry entries =
    if chained entry.audit_event_id entries then entries else entries ++ entry ∷ []

abbrev pub head_of : ChainStore → Head
head_of s = elim s.head [
  | none ↦ record { sequence = pos 0; chain_hash = ""; last_audit_event_id = "" }
  | some h ↦ h
]

-- `lastAuditEventID` after the loop.
abbrev pub last_id : List AuditEvent → String
last_id [] = ""
last_id (e ∷ []) = e.id
last_id (e ∷ f ∷ es) = last_id (f ∷ es)

module _ (os : Platform) where
  -- Reads the head that `ensureAuditChainHead` left, computes the next entry, inserts it and moves
  -- the head on.
  append_entry : String → AuditEvent → String → ℤ → Head → ChainStore → ChainStore
  unfolding insert_audit_chain_entry
  append_entry id event source created_at h s =
      let entry =
        compute_entry os id event (next_sequence h.sequence) h.chain_hash source created_at in
      record s {
        entries = insert_audit_chain_entry entry s.entries;
        head = some (record {
          sequence = entry.sequence;
          chain_hash = entry.chain_hash;
          last_audit_event_id = event.id;
        });
      }

  abbrev event_of : String → ℤ → AuditEventInput → AuditEvent
  event_of id now input = record {
    id = id;
    tenant_id = input.tenant_id;
    actor_id = input.actor_id;
    action = input.action;
    resource = input.resource;
    resource_id = input.resource_id;
    reason = input.reason;
    occurred_at = truncate_micro (elim input.occurred_at [ none ↦ now | some t ↦ t ]);
  }

  -- The new tables; none when the audit event's identifier is taken and the transaction fails.
  unfoldable pub record_audit_event :
      String → String → ℤ → AuditEventInput → ChainStore → Option ChainStore
  unfolding append_entry ensure_audit_chain_head truncate_micro
  record_audit_event audit_id entry_id now input s =
      let event = event_of audit_id now input in
      let source = if input.source == "" then "live" else input.source in
      let ensured = ensure_audit_chain_head (record s { events = s.events ++ event ∷ [] }) in
      if has_event audit_id s.events
      then none
      else some (append_entry entry_id event source event.occurred_at (head_of ensured) ensured)

  -- The loop over the selected events. The head row is written once, after the loop; its sequence
  -- and hash are carried in `h`.
  backfill_loop :
      (AuditEvent → String)
      → ℤ
      → List AuditEvent
      → Head
      → List AuditChainEntry
      → Head × List AuditChainEntry
  unfolding insert_audit_chain_entry
  backfill_loop new_id now [] h entries = (h, entries)
  backfill_loop new_id now (event ∷ rest) h entries =
      let entry =
        compute_entry os (new_id event) event (next_sequence h.sequence) h.chain_hash "backfill"
          now in
      backfill_loop new_id now rest
        (record {
          sequence = entry.sequence;
          chain_hash = entry.chain_hash;
          last_audit_event_id = event.id;
        })
        (insert_audit_chain_entry entry entries)

  unfoldable pub backfill_tenant_audit_chain :
      (AuditEvent → String) → ℤ → List AuditEvent → ChainStore → ChainStore
  unfolding backfill_loop ensure_audit_chain_head
  backfill_tenant_audit_chain new_id now pending s =
      let ensured = ensure_audit_chain_head s in
      let (h, entries) = backfill_loop new_id now pending (head_of ensured) s.entries in
      if last_id pending == ""
      then record ensured { entries = entries }
      else record ensured { head = some h; entries = entries }
