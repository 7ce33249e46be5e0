-- ===== src/AuditChain/Verdict.antt =====
-- What the offline verdict on an audit chain proof means (internal/evidence/bundle.go).
use mathlib.Core.Path.{subst}
use webhookery.Common.{
  ℕ, suc, ◌+◌, ◌<◌, ◌^◌, ◌≡◌, ◌≢◌, ◌↔◌, ◌∙◌, List, [], ◌∷◌, some, arith, length,
}
use webhookery.Common.Int.{pos}
use webhookery.AuditChain.{Platform, AuditChainEntry, previous_hash_for_sequence}
use webhookery.AuditChain.Proof.{
  ProofResult, verify_audit_chain_proof, failures_from, Linked, decoded, check_from-failures_from,
  failures_from-Linked,
}

module _ (os : Platform) where
  -- Before the first entry the loop expects 0, which stands for the first entry's own sequence.
  failures_from_zero :
      (e : AuditChainEntry) (es : List AuditChainEntry) (n : ℕ)
      → e.sequence ≡ pos (suc n)
      → failures_from os (pos 0) "" (e ∷ es) ≡ failures_from os (pos (suc n)) "" (e ∷ es)
  unfolding failures_from
  failures_from_zero e es n same = rw same (ground arith)

  -- On a proof whose first sequence is positive and whose sequences fit 64 bits, the verifier
  -- returns a result, counts every entry, and reports no failure exactly when the entries are
  -- linked from that sequence on, with the empty hash before the first.
  pub verify_audit_chain_proof-Linked :
      (e : AuditChainEntry) (es : List AuditChainEntry) (n : ℕ)
      → e.sequence ≡ pos (suc n)
      → suc n + length (e ∷ es) < 2 ^ 63
      → (r : ProofResult) × (verify_audit_chain_proof os (decoded (e ∷ es)) ≡ some r)
        × (r.checked ≡ length (e ∷ es))
        × ((r.failures ≡ []) ↔ Linked os (pos (suc n)) "" (e ∷ es))
  unfolding verify_audit_chain_proof
  verify_audit_chain_proof-Linked e es n same fits = (
    record { failures = failures_from os (pos 0) "" (e ∷ es); checked = 0 + length (e ∷ es) },
    check_from-failures_from os (e ∷ es) (pos 0) "" [] 0,
    omega arith,
    rw (failures_from_zero e es n same) (failures_from-Linked os (e ∷ es) n "" fits),
  )

  -- A proof that starts after the first entry of its chain, as an export from a later time does,
  -- is never accepted, however well its entries are linked to what came before.
  pub verify_rejects_segment :
      (e : AuditChainEntry) (es : List AuditChainEntry) (n : ℕ) (r : ProofResult)
      → e.sequence ≡ pos (suc (suc n))
      → suc (suc n) + length (e ∷ es) < 2 ^ 63
      → e.previous_chain_hash ≢ ""
      → verify_audit_chain_proof os (decoded (e ∷ es)) ≡ some r
      → r.failures ≢ []
  unfolding previous_hash_for_sequence
  verify_rejects_segment e es n r same fits linked verdict clean =
      let (r', verdict', counted, iff) = verify_audit_chain_proof-Linked e es (suc n) same fits in
      let agree : r ≡ r' = cc in
      let links = iff.0 (subst (λ x. x.failures ≡ []) agree clean) in
      linked (links.1 ∙ late_previous n)
    where
      late_previous : (k : ℕ) → previous_hash_for_sequence (pos (suc (suc k))) "" ≡ ""
      late_previous k = ground arith
