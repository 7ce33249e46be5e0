-- ===== src/AuditChain/Build/Invariant.antt =====
-- The tables of a tenant always hold a linked chain, and the head row is its last link
-- (internal/adapters/postgres/store.go).
use webhookery.Common.{
  ℕ, suc, ◌+◌, ◌<◌, ◌^◌, ◌≡◌, refl, sym, ap, ◌∙◌, String, false, List, [], ◌∷◌, ◌++◌, arith, length,
  length-append, string_eq,
}
use webhookery.Common.Int.{ℤ, pos}
use webhookery.AuditChain.{
  Platform, AuditEvent, AuditChainEntry, compute_entry, chain_hash, previous_hash_for_sequence,
}
use webhookery.AuditChain.Proof.{Linked, next_sequence, next_sequence-pos}
use webhookery.AuditChain.Build.{Head, ChainStore, chained, head_of, insert_audit_chain_entry}

-- The chain hash after the last entry.
abbrev last_hash : String → List AuditChainEntry → String
last_hash previous [] = previous
last_hash previous (e ∷ es) = last_hash e.chain_hash es

-- The entries `es` end in the head `h`.
pub record EndsIn (es : List AuditChainEntry) (h : Head) : Type 0 where
  pub at_length : h.sequence ≡ pos (length es)
  pub at_hash : h.chain_hash ≡ last_hash "" es

pub record IsChained (os : Platform) (s : ChainStore) : Type 0 where
  pub links : Linked os (pos 1) "" s.entries
  pub ends : EndsIn s.entries (head_of s)

last_hash-snoc :
    (previous : String) (es : List AuditChainEntry) (e : AuditChainEntry)
    → last_hash previous (es ++ e ∷ []) ≡ e.chain_hash
last_hash-snoc previous [] e = refl
last_hash-snoc previous (x ∷ es) e = last_hash-snoc x.chain_hash es e

module _ (os : Platform) where
  Linked-snoc :
      (es : List AuditChainEntry) (n : ℕ) (previous : String) (e : AuditChainEntry)
      → suc n + length es < 2 ^ 63
      → Linked os (pos (suc n)) previous es
      → e.sequence ≡ pos (suc n + length es)
      → e.previous_chain_hash ≡ previous_hash_for_sequence e.sequence (last_hash previous es)
      → chain_hash os e.previous_chain_hash e.event_hash ≡ e.chain_hash
      → Linked os (pos (suc n)) previous (es ++ e ∷ [])
  Linked-snoc [] n previous e fits l s p c =
      let here : e.sequence ≡ pos (suc n) = s ∙ ap pos (omega arith) in (here, rw (← here) p, c, tt)
  Linked-snoc (x ∷ es) n previous e fits l s p c =
      let after : next_sequence (pos (suc n)) ≡ pos (suc (suc n)) =
        next_sequence-pos (suc n) (omega arith) in
      (
        l.0,
        l.1,
        l.2,
        rw after (
            Linked-snoc es (suc n) x.chain_hash e (omega arith) (rw after at l.3)
              (s ∙ ap pos (omega arith)) p c),
      )

  -- One entry more, computed from the head, keeps the chain linked and ends in the new head.
  pub extend_lem :
      (id : String) (event : AuditEvent) (source : String) (now : ℤ) (h : Head)
      (es : List AuditChainEntry)
      → let e = compute_entry os id event (next_sequence h.sequence) h.chain_hash source now in
        Linked os (pos 1) "" es
        → EndsIn es h
        → suc (length es) < 2 ^ 63
        → chained event.id es ≡ false
        → (insert_audit_chain_entry e es ≡ es ++ e ∷ [])
          × Linked os (pos 1) "" (es ++ e ∷ [])
          × EndsIn (es ++ e ∷ []) (record {
            sequence = e.sequence;
            chain_hash = e.chain_hash;
            last_audit_event_id = event.id;
          })
  unfolding compute_entry insert_audit_chain_entry
  extend_lem id event source now h es l ends fits fresh =
      let e = compute_entry os id event (next_sequence h.sequence) h.chain_hash source now in
      let at : e.sequence ≡ pos (suc (length es)) =
        ap next_sequence ends.at_length ∙ next_sequence-pos (length es) fits in
      (
        rw fresh,
        Linked-snoc es 0 "" e (omega arith) l (at ∙ ap pos (omega arith)) (rw ends.at_hash refl)
            refl,
        record {
          at_length = at ∙ ap pos (omega (arith, length-append es (e ∷ [])));
          at_hash = sym (last_hash-snoc "" es e);
        },
      )
