-- ===== src/AuditChain/Build/Steps.antt =====
-- Recording an event and backfilling keep a tenant's chain (internal/adapters/postgres/store.go).
use webhookery.Common.{
  some-eq, suc, ◌<◌, ◌^◌, ◌≡◌, ap, String, false, [], ◌∷◌, ◌++◌, none, some, arith, length,
  length-append, string_eq, Bool-cases, inl, inr,
}
use webhookery.Common.Int.{ℤ, pos}
use mathlib.Core.Path.{subst}
use webhookery.AuditChain.{Platform, AuditEvent, compute_entry}
use webhookery.AuditChain.Proof.{Linked, next_sequence}
use webhookery.AuditChain.Build.Invariant.{EndsIn, IsChained, extend_lem}
use webhookery.AuditChain.Build.{
  event_of, Head, ChainStore, AuditEventInput, chained, has_event, head_of, ensure_audit_chain_head,
  append_entry, record_audit_event,
}

pub head_of-ensure : (s : ChainStore) → head_of (ensure_audit_chain_head s) ≡ head_of s
unfolding ensure_audit_chain_head
head_of-ensure s = ground arith

pub entries-ensure : (s : ChainStore) → (ensure_audit_chain_head s).entries ≡ s.entries
unfolding ensure_audit_chain_head
entries-ensure s = ground arith

module _ (os : Platform) where
  append_entry-IsChained :
      (id : String) (event : AuditEvent) (source : String) (now : ℤ) (h : Head) (s : ChainStore)
      → Linked os (pos 1) "" s.entries
      → EndsIn s.entries h
      → suc (length s.entries) < 2 ^ 63
      → chained event.id s.entries ≡ false
      → IsChained os (append_entry os id event source now h s)
        × (length (append_entry os id event source now h s).entries ≡ suc (length s.entries))
  unfolding append_entry
  append_entry-IsChained id event source now h s l ends fits fresh =
      let e = compute_entry os id event (next_sequence h.sequence) h.chain_hash source now in
      let (inserted, links, ends') =
        extend_lem os id event source now h s.entries l ends fits fresh in
      (
        record { links = rw inserted links; ends = rw inserted ends' },
        rw inserted (omega (arith, length-append s.entries (e ∷ []))),
      )

  -- Creating the head row does not change what the tables say.
  ensure-IsChained : (s : ChainStore) → IsChained os s → IsChained os (ensure_audit_chain_head s)
  ensure-IsChained s c = record {
    links = rw (entries-ensure s) c.links;
    ends = rw (entries-ensure s, head_of-ensure s) c.ends;
  }

  append_ensured :
      (id : String) (event : AuditEvent) (source : String) (now : ℤ) (s : ChainStore)
      → IsChained os s
      → suc (length s.entries) < 2 ^ 63
      → chained event.id s.entries ≡ false
      → let t = ensure_audit_chain_head s in
        IsChained os (append_entry os id event source now (head_of t) t)
        × (length (append_entry os id event source now (head_of t) t).entries
            ≡ suc (length s.entries))
  append_ensured id event source now s c fits fresh =
      let t = ensure_audit_chain_head s in
      let c' = ensure-IsChained s c in
      let same = ap length (entries-ensure s) in
      let (kept, longer) =
        append_entry-IsChained id event source now (head_of t) t c'.links c'.ends (omega arith)
          (rw (entries-ensure s) fresh) in
      (kept, omega arith)

  -- Recording an event whose identifier is not chained yet, on a chained tenant with room for one
  -- sequence more: if the transaction commits, the tenant is chained, with one entry more.
  pub record_audit_event-IsChained :
      (audit_id entry_id : String) (now : ℤ) (input : AuditEventInput) (s s' : ChainStore)
      → IsChained os s
      → chained audit_id s.entries ≡ false
      → suc (length s.entries) < 2 ^ 63
      → record_audit_event os audit_id entry_id now input s ≡ some s'
      → IsChained os s' × (length s'.entries ≡ suc (length s.entries))
  unfolding record_audit_event
  record_audit_event-IsChained audit_id entry_id now input s s' chain fresh fits committed =
      elim (Bool-cases (has_event audit_id s.events)) [
        | inl taken ↦ absurd (none_committed (rw taken at committed))
        | inr free ↦
            subst (λ t. IsChained os t × (length t.entries ≡ suc (length s.entries)))
              (some-eq (rw free at committed))
              (append_ensured entry_id _ _ _ (with_event s) (same_chain s chain) fits fresh)
      ]
    where
      none_committed : {t : ChainStore} → none ≡ some t → ⊥
      none_committed h = cc

      with_event : ChainStore → ChainStore
      with_event t = record t { events = t.events ++ event_of os audit_id now input ∷ [] }

      same_chain : (t : ChainStore) → IsChained os t → IsChained os (with_event t)
      same_chain t c = record { links = c.links; ends = c.ends }
