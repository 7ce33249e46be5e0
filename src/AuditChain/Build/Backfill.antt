-- ===== src/AuditChain/Build/Backfill.antt =====
-- A backfill extends the chain by what it selected (internal/adapters/postgres/store.go).
use webhookery.Common.{
  ℕ, ◌+◌, ◌<◌, ◌^◌, ◌≡◌, ◌≢◌, refl, sym, String, true, false, List, [], ◌∷◌, ◌++◌, arith, length,
  length-append, ◌==◌, string_eq, eq_iff, if◌then◌else◌,
}
use webhookery.Common.Int.{ℤ, pos}
use mathlib.Core.Path.{subst}
use webhookery.AuditChain.{Platform, AuditEvent, AuditChainEntry, compute_entry}
use webhookery.AuditChain.Proof.{Linked, next_sequence}
use webhookery.AuditChain.Build.Steps.{head_of-ensure}
use webhookery.AuditChain.Build.Invariant.{EndsIn, IsChained, extend_lem}
use webhookery.AuditChain.Build.{
  Head, ChainStore, chained, has_event, head_of, last_id, ensure_audit_chain_head, backfill_loop,
  backfill_tenant_audit_chain,
}

-- The events that a backfill selects: each has a name, no entry yet, and stands there once.
abbrev pub IsPending : List AuditEvent → List AuditChainEntry → Type 0
IsPending [] es = Unit
IsPending (x ∷ xs) es =
    (x.id ≢ "") × (chained x.id es ≡ false) × (has_event x.id xs ≡ false) × IsPending xs es

chained-snoc :
    (id : String) (es : List AuditChainEntry) (e : AuditChainEntry)
    → chained id (es ++ e ∷ []) ≡ (if chained id es then true else e.audit_event_id == id)
chained-snoc id [] e = ground arith
chained-snoc id (x ∷ es) e = ground (arith, chained-snoc id es e)

IsPending-snoc :
    (xs : List AuditEvent) (es : List AuditChainEntry) (e : AuditChainEntry)
    → has_event e.audit_event_id xs ≡ false
    → IsPending xs es
    → IsPending xs (es ++ e ∷ [])
IsPending-snoc [] es e h p = tt
IsPending-snoc (x ∷ xs) es e h p = (
  p.0,
  ground (
    arith,
    chained-snoc x.id es e,
    eq_iff x.id e.audit_event_id,
    eq_iff e.audit_event_id x.id,
    p.1,
  ),
  p.2,
  IsPending-snoc xs es e (ground arith) p.3,
)

names_event :
    (os : Platform) (id : String) (x : AuditEvent) (n : ℤ) (previous source : String) (now : ℤ)
    → (compute_entry os id x n previous source now).audit_event_id ≡ x.id
unfolding compute_entry
names_event os id x n previous source now = refl

-- A linked list of `n` entries that ends in the head beside it.
abbrev Ended : Platform → ℕ → Head × List AuditChainEntry → Type 0
Ended os n r = Linked os (pos 1) "" r.1 × EndsIn r.1 r.0 × (length r.1 ≡ n)

module _ (os : Platform) (new_id : AuditEvent → String) (now : ℤ) where
  backfill_loop-Ended :
      (pending : List AuditEvent) (h : Head) (es : List AuditChainEntry)
      → IsPending pending es
      → length es + length pending < 2 ^ 63
      → Linked os (pos 1) "" es
      → EndsIn es h
      → Ended os (length es + length pending) (backfill_loop os new_id now pending h es)
  unfolding backfill_loop
  backfill_loop-Ended [] h es p fits l ends = (l, ends, omega arith)
  backfill_loop-Ended (x ∷ xs) h es p fits l ends =
      let n = next_sequence h.sequence in
      let e = compute_entry os (new_id x) x n h.chain_hash "backfill" now in
      let (inserted, links, ends') =
        extend_lem os (new_id x) x "backfill" now h es l ends (omega arith) p.1 in
      let longer : length (es ++ e ∷ []) ≡ length es + 1 = length-append es (e ∷ []) in
      let count : length (es ++ e ∷ []) + length xs ≡ length es + length (x ∷ xs) = omega arith in
      let h' : Head = record {
        sequence = e.sequence;
        chain_hash = e.chain_hash;
        last_audit_event_id = x.id;
      } in
      let unnamed : has_event e.audit_event_id xs ≡ false =
        rw (names_event os (new_id x) x n h.chain_hash "backfill" now) p.2 in
      subst (λ t. Ended os (length es + length (x ∷ xs)) (backfill_loop os new_id now xs h' t))
        (sym inserted)
        (subst (λ k. Ended os k (backfill_loop os new_id now xs h' (es ++ e ∷ []))) count
          (backfill_loop-Ended xs h' (es ++ e ∷ []) (IsPending-snoc xs es e unnamed p.3)
            (omega arith) links ends'))

  last_id-named :
      (x : AuditEvent) (xs : List AuditEvent) (es : List AuditChainEntry)
      → IsPending (x ∷ xs) es
      → last_id (x ∷ xs) ≢ ""
  last_id-named x [] es p = p.0
  last_id-named x (y ∷ ys) es p = last_id-named y ys es p.3

  -- Backfilling any list of pending events into a chained tenant with room for their sequences
  -- leaves it chained, with one entry more for each.
  pub backfill-IsChained :
      (pending : List AuditEvent) (s : ChainStore)
      → IsChained os s
      → IsPending pending s.entries
      → length s.entries + length pending < 2 ^ 63
      → IsChained os (backfill_tenant_audit_chain os new_id now pending s)
        × (length (backfill_tenant_audit_chain os new_id now pending s).entries
            ≡ length s.entries + length pending)
  unfolding backfill_tenant_audit_chain
  backfill-IsChained [] s c p fits = (
    record { links = c.links; ends = subst (EndsIn s.entries) (sym (head_of-ensure s)) c.ends },
    omega arith,
  )
  backfill-IsChained (x ∷ xs) s c p fits =
      let h = head_of (ensure_audit_chain_head s) in
      let (links, ends, count) =
        backfill_loop-Ended (x ∷ xs) h s.entries p fits c.links
          (subst (EndsIn s.entries) (sym (head_of-ensure s)) c.ends) in
      let named : (last_id (x ∷ xs) == "") ≡ false =
        ground (arith, eq_iff (last_id (x ∷ xs)) "", last_id-named x xs s.entries p) in
      rw named (record { links = links; ends = ends }, count)
