-- ===== src/AuditChain/Build/History.antt =====
-- Every history of recorded events and backfills of a tenant, and the offline verdict on the chain
-- that it leaves (internal/adapters/postgres/store.go, internal/evidence/bundle.go).
use mathlib.Core.Path.{subst}
use webhookery.Common.{
  ap, ◌∙◌, ℕ, suc, ◌+◌, ◌<◌, ◌^◌, ◌≡◌, refl, String, false, List, [], ◌∷◌, none, some, length,
}
use webhookery.Common.Int.{ℤ, pos}
use webhookery.AuditChain.{Platform, AuditEvent, AuditChainEntry}
use webhookery.AuditChain.Proof.{Linked, ProofResult, decoded, verify_audit_chain_proof}
use webhookery.AuditChain.Verdict.{verify_audit_chain_proof-Linked}
use webhookery.AuditChain.Build.Invariant.{IsChained}
use webhookery.AuditChain.Build.Steps.{record_audit_event-IsChained}
use webhookery.AuditChain.Build.Backfill.{IsPending, backfill-IsChained}
use webhookery.AuditChain.Build.{
  ChainStore, AuditEventInput, chained, record_audit_event, backfill_tenant_audit_chain,
}

abbrev pub blank : ChainStore
blank = record { head = none; events = []; entries = [] }

-- The stores that a tenant can reach, as long as the sequences fit 64 bits: identifiers of recorded
-- events are new, and a backfill selects events without an entry.
pub data History (os : Platform) : ChainStore → Type 0 where
  start : History os blank
  recorded :
      {s s' : ChainStore} (audit_id entry_id : String) (now : ℤ) (input : AuditEventInput)
      → History os s
      → chained audit_id s.entries ≡ false
      → suc (length s.entries) < 2 ^ 63
      → record_audit_event os audit_id entry_id now input s ≡ some s'
      → History os s'
  backfilled :
      {s s' : ChainStore} (new_id : AuditEvent → String) (now : ℤ) (pending : List AuditEvent)
      → History os s
      → IsPending pending s.entries
      → length s.entries + length pending < 2 ^ 63
      → s' ≡ backfill_tenant_audit_chain os new_id now pending s
      → History os s'

module _ (os : Platform) where
  -- Every store that a tenant reaches holds a linked chain that ends in its head row.
  pub History-IsChained : {s : ChainStore} → History os s → IsChained os s
  History-IsChained start = record {
    links = tt;
    ends = record { at_length = refl; at_hash = refl };
  }
  History-IsChained (recorded {s} {s'} audit_id entry_id now input past fresh fits committed) =
      (record_audit_event-IsChained os audit_id entry_id now input s s' (History-IsChained past)
        fresh fits committed).0
  History-IsChained (backfilled {s} {s'} new_id now pending past waiting fits is) =
      rw is (backfill-IsChained os new_id now pending s (History-IsChained past) waiting fits).0

  -- The proof of a whole chain, exported after any history that left at least one entry and room
  -- for two sequences more, is verified offline with no failure, every entry counted.
  pub History-verified :
      {s : ChainStore} (e : AuditChainEntry) (es : List AuditChainEntry)
      → History os s
      → s.entries ≡ e ∷ es
      → 1 + length (e ∷ es) < 2 ^ 63
      → verify_audit_chain_proof os (decoded s.entries)
        ≡ some (record { failures = []; checked = length s.entries })
  History-verified {s} e es past shape fits =
      let links : Linked os (pos 1) "" (e ∷ es) =
        subst (λ l. Linked os (pos 1) "" l) shape (History-IsChained past).links in
      let (r, verdict, counted, iff) = verify_audit_chain_proof-Linked os e es 0 links.0 fits in
      rw shape (verdict ∙ ap some (result_eq r (iff.1 links) counted))
    where
      result_eq :
          (r : ProofResult) {n : ℕ}
          → r.failures ≡ []
          → r.checked ≡ n
          → r ≡ record { failures = []; checked = n }
      result_eq r f c = λ i. record { failures = f i; checked = c i }
