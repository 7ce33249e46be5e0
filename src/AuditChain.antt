-- ===== src/AuditChain.antt =====
-- internal/auditchain/chain.go: the hashes that link a tenant's audit events.
-- SHA-256 (in hex) and the printing of an instant in RFC 3339 are parameters; an instant is its
-- count of nanoseconds.
pub mod Proof
pub mod Verdict
pub mod Build
use Prim.Native.String.{◌++◌ as append}
use webhookery.Common.{String, Bool, List, [], ◌∷◌, ◌▸◌, if◌then◌else◌}
use webhookery.Common.Int.{ℤ, pos, leb_ℤ}
use webhookery.Common.Json.{json_object}

pub record Platform : Type 0 where
  pub sha256_hex : String → String
  pub rfc3339_nano : ℤ → String

pub record AuditEvent : Type 0 where
  pub id : String
  pub tenant_id : String
  pub actor_id : String
  pub action : String
  pub resource : String
  pub resource_id : String
  pub reason : String
  pub occurred_at : ℤ

pub record AuditChainEntry : Type 0 where
  pub id : String
  pub tenant_id : String
  pub sequence : ℤ
  pub audit_event_id : String
  pub event_hash : String
  pub previous_chain_hash : String
  pub chain_hash : String
  pub canonicalization_version : String
  pub source : String
  pub state : String
  pub created_at : ℤ

abbrev pub canonicalization_version : String
canonicalization_version = "audit-chain-v1"

abbrev pub entry_state_active : String
entry_state_active = "active"

unfoldable pub previous_hash_for_sequence : ℤ → String → String
previous_hash_for_sequence sequence previous = if leb_ℤ sequence (pos 1) then "" else previous

module _ (os : Platform) where
  hash : String → String
  hash raw = append "sha256:" (os.sha256_hex raw)

  -- Marshalling a record of texts cannot fail, so the error of `EventHash` does not occur.
  unfoldable pub event_hash : AuditEvent → String
  unfolding hash
  event_hash e = hash (
      json_object (
        ("id", e.id)
        ∷ ("tenant_id", e.tenant_id)
        ∷ ("actor_id", e.actor_id)
        ∷ ("action", e.action)
        ∷ ("resource", e.resource)
        ∷ ("resource_id", e.resource_id)
        ∷ ("reason", e.reason)
        ∷ ("occurred_at", os.rfc3339_nano e.occurred_at)
        ∷ []))

  -- A Go map is marshalled with its keys in order.
  unfoldable pub chain_hash : String → String → String
  unfolding hash
  chain_hash previous event = hash (
      json_object (
        ("canonicalization_version", canonicalization_version)
        ∷ ("event_hash", event)
        ∷ ("previous_chain_hash", previous)
        ∷ []))

  unfoldable pub compute_entry : String → AuditEvent → ℤ → String → String → ℤ → AuditChainEntry
  compute_entry id event sequence previous_chain_hash source created_at =
      let previous = previous_hash_for_sequence sequence previous_chain_hash in
      record {
        id = id;
        tenant_id = event.tenant_id;
        sequence = sequence;
        audit_event_id = event.id;
        event_hash = event_hash event;
        previous_chain_hash = previous;
        chain_hash = chain_hash previous (event_hash event);
        canonicalization_version = canonicalization_version;
        source = source;
        state = entry_state_active;
        created_at = created_at;
      }
