-- ===== src/Tests/ChainRuns.antt =====
-- A chain of two recorded events, hashed by a function without collisions.
use webhookery.Common.{
  ◌≡◌, ◌≢◌, ◌↔◌, refl, ap, Bool, true, false, some, none, String, [], ◌∷◌, length, arith,
}
use webhookery.Common.Int.{pos, wrap64}
use webhookery.Common.Json.{json_object}
use webhookery.Common.Decimal.{itoa_ℤ}
use webhookery.AuditChain.{
  Platform, AuditEvent, AuditChainEntry, compute_entry, chain_hash, event_hash,
  previous_hash_for_sequence,
}
use webhookery.AuditChain.Proof.{
  Linked, ProofResult, decoded, verify_audit_chain_proof, next_sequence,
}
use webhookery.AuditChain.Verdict.{verify_audit_chain_proof-Linked, verify_rejects_segment}
use webhookery.AuditChain.Build.{ChainStore, AuditEventInput, record_audit_event}
use webhookery.AuditChain.Build.History.{History, blank, start, recorded, History-verified}

abbrev plain : Platform
plain = record { sha256_hex = λ s. s; rfc3339_nano = itoa_ℤ }

abbrev input : AuditEventInput
input = record {
  tenant_id = "ten_1";
  actor_id = "usr_1";
  action = "replay.created";
  resource = "replay_job";
  resource_id = "rpl_1";
  reason = "incident";
  occurred_at = some (pos 1_700_000_000_123_456_789);
  source = "";
}

abbrev event : AuditEvent
event = record {
  id = "aud_9";
  tenant_id = "ten_1";
  actor_id = "usr_2";
  action = "source.created";
  resource = "source";
  resource_id = "src_1";
  reason = "";
  occurred_at = pos 5;
}

abbrev first_entry : AuditChainEntry
first_entry = compute_entry plain "ace_1" event (pos 1) "" "live" (pos 7)

abbrev second_entry : AuditChainEntry
second_entry = compute_entry plain "ace_2" event (pos 2) first_entry.chain_hash "live" (pos 8)

verify_audit_chain_proof-Linked_example :
    (r : ProofResult) × (verify_audit_chain_proof plain (decoded (first_entry ∷ second_entry ∷ []))
      ≡ some r)
    × (r.checked ≡ 2)
    × ((r.failures ≡ []) ↔ Linked plain (pos 1) "" (first_entry ∷ second_entry ∷ []))
unfolding compute_entry
verify_audit_chain_proof-Linked_example =
    verify_audit_chain_proof-Linked plain first_entry (second_entry ∷ []) 0 refl (omega arith)

two_verified :
    verify_audit_chain_proof plain (decoded (first_entry ∷ second_entry ∷ []))
    ≡ some (record { failures = []; checked = 2 })
unfolding verify_audit_chain_proof compute_entry chain_hash previous_hash_for_sequence json_object
    next_sequence wrap64 event_hash itoa_ℤ
two_verified = refl

is_blank : String → Bool
is_blank String.[] = true
is_blank s = false

absurd_blank : false ≡ true → ⊥
absurd_blank h = cc

abbrev mismatch : ProofResult
mismatch = record { failures = "chain proof previous hash mismatch at 2" ∷ []; checked = 1 }

segment_rejected : verify_audit_chain_proof plain (decoded (second_entry ∷ [])) ≡ some mismatch
unfolding verify_audit_chain_proof compute_entry chain_hash previous_hash_for_sequence json_object
    next_sequence wrap64 event_hash itoa_ℤ
segment_rejected = refl

second_entry_linked : second_entry.previous_chain_hash ≢ ""
unfolding compute_entry previous_hash_for_sequence chain_hash is_blank json_object event_hash itoa_ℤ
second_entry_linked e = absurd_blank (ap is_blank e)

second_entry_sequence : second_entry.sequence ≡ pos 2
unfolding compute_entry
second_entry_sequence = refl

-- An export that starts at the second entry.
verify_rejects_segment_example : mismatch.failures ≢ []
verify_rejects_segment_example =
    verify_rejects_segment plain second_entry [] 0 mismatch second_entry_sequence (omega arith)
      second_entry_linked segment_rejected

-- The tenant after one recorded event, and after a backfill on top.
one : ChainStore
one = elim (record_audit_event plain "aud_1" "ace_1" (pos 9) input blank) [
  | none ↦ blank
  | some s ↦ s
]

one_committed : record_audit_event plain "aud_1" "ace_1" (pos 9) input blank ≡ some one
unfolding one record_audit_event
one_committed = refl

one-History : History plain one
one-History = recorded "aud_1" "ace_1" (pos 9) input start refl (omega arith) one_committed

abbrev one_entry : AuditChainEntry
one_entry =
    compute_entry plain "ace_1"
      (record {
        id = "aud_1";
        tenant_id = "ten_1";
        actor_id = "usr_1";
        action = "replay.created";
        resource = "replay_job";
        resource_id = "rpl_1";
        reason = "incident";
        occurred_at = pos 1_700_000_000_123_456_000;
      })
      (pos 1) "" "live" (pos 1_700_000_000_123_456_000)

one_entries : one.entries ≡ one_entry ∷ []
unfolding one record_audit_event next_sequence wrap64
one_entries = refl

History-verified_example :
    verify_audit_chain_proof plain (decoded one.entries)
    ≡ some (record { failures = []; checked = length one.entries })
History-verified_example = History-verified plain one_entry [] one-History one_entries (omega arith)
