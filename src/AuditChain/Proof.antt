-- ===== src/AuditChain/Proof.antt =====
-- `verifyAuditChainProof` of internal/evidence/bundle.go, over the entries that the JSON decoder
-- yields, and what its verdict means.
use Prim.Native.String.{◌++◌ as append}
use mathlib.Core.List.{append-nil, append_assoc}
use native.Mathlib.Nat.{add-zero}
use webhookery.Common.{
  ℕ, suc, ◌+◌, ◌<◌, ◌^◌, ◌≡◌, ◌↔◌, refl, ap, ◌∙◌, String, Bool, true, List, [], ◌∷◌, ◌++◌, Option,
  none, some, arith, ◌==◌, string_eq, eq_iff, if◌then◌else◌, length,
}
use webhookery.Common.Int.{ℤ, pos, ◌+ℤ◌, wrap64, wrap64_small, eq_ℤ, eq_ℤ_iff}
use webhookery.Common.Decimal.{itoa_ℤ}
use webhookery.AuditChain.{Platform, AuditChainEntry, previous_hash_for_sequence, chain_hash}

-- What `dec.Decode` yields: an entry, the end of the input, or an error.
pub data Decoded : Type 0 where
  eof malformed : Decoded
  next : AuditChainEntry → Decoded → Decoded

pub record ProofResult : Type 0 where
  pub failures : List String
  pub checked : ℕ

-- `expectedSequence++` on an int64.
unfoldable pub next_sequence : ℤ → ℤ
unfolding ◌+ℤ◌
next_sequence n = wrap64 (n +ℤ pos 1)

abbrev report : Bool → String → ℤ → List String
report holds text sequence = if holds then [] else append text (itoa_ℤ sequence) ∷ []

module _ (os : Platform) where
  -- The failures of one entry, given the sequence expected and the hash before it.
  unfoldable pub entry_failures : ℤ → String → AuditChainEntry → List String
  entry_failures expected previous e =
      report (eq_ℤ e.sequence expected) "chain proof missing sequence " expected
      ++ (report (e.previous_chain_hash == previous_hash_for_sequence e.sequence previous)
            "chain proof previous hash mismatch at " e.sequence
          ++ report (chain_hash os e.previous_chain_hash e.event_hash == e.chain_hash)
              "chain proof hash mismatch at " e.sequence)

  -- The loop; `expected` is 0 before the first entry, and again after the sequence -1.
  unfoldable pub check_from : ℤ → String → List String → ℕ → Decoded → Option ProofResult
  unfolding entry_failures
  check_from expected previous failures checked eof =
      some (record { failures = failures; checked = checked })
  check_from expected previous failures checked malformed = none
  check_from expected previous failures checked (next e rest) =
      let wanted = if eq_ℤ expected (pos 0) then e.sequence else expected in
      check_from (next_sequence e.sequence) e.chain_hash
        (failures ++ entry_failures wanted previous e) (checked + 1) rest

  unfoldable pub verify_audit_chain_proof : Decoded → Option ProofResult
  unfolding check_from
  verify_audit_chain_proof = check_from (pos 0) "" [] 0

  -- The failures that the loop adds, entry by entry.
  unfoldable pub failures_from : ℤ → String → List AuditChainEntry → List String
  failures_from expected previous [] = []
  failures_from expected previous (e ∷ es) =
      entry_failures (if eq_ℤ expected (pos 0) then e.sequence else expected) previous e
      ++ failures_from (next_sequence e.sequence) e.chain_hash es

  -- The links of a chain: consecutive sequences, each entry naming the hash before it and
  -- carrying the hash of that and of its event.
  abbrev pub Linked : ℤ → String → List AuditChainEntry → Type 0
  Linked sequence previous [] = Unit
  Linked sequence previous (e ∷ es) =
      (e.sequence ≡ sequence)
      × (e.previous_chain_hash ≡ previous_hash_for_sequence sequence previous)
      × (chain_hash os e.previous_chain_hash e.event_hash ≡ e.chain_hash)
      × Linked (next_sequence sequence) e.chain_hash es

abbrev pub decoded : List AuditChainEntry → Decoded
decoded [] = eof
decoded (e ∷ es) = next e (decoded es)

pub next_sequence-pos : (n : ℕ) → suc n < 2 ^ 63 → next_sequence (pos n) ≡ pos (suc n)
unfolding next_sequence
next_sequence-pos n h = ap wrap64 (sum_lem n) ∙ wrap64_small (suc n) h
  where
    sum_lem : (k : ℕ) → pos k +ℤ pos 1 ≡ pos (suc k)
    sum_lem k = unfold ◌+ℤ◌ in ground arith

report_iff : (b : Bool) (text : String) (n : ℤ) → (report b text n ≡ []) ↔ (b ≡ true)
report_iff b text n = ground arith

append-eq-nil : {xs ys : List String} → xs ++ ys ≡ [] → (xs ≡ []) × (ys ≡ [])
append-eq-nil {xs = []} h = (refl, h)
append-eq-nil {xs = x ∷ xs} h = cc

module _ (os : Platform) where
  pub check_from-failures_from :
      (es : List AuditChainEntry) (expected : ℤ) (previous : String) (failures : List String)
      (k : ℕ)
      → check_from os expected previous failures k (decoded es)
        ≡ some (record {
          failures = failures ++ failures_from os expected previous es;
          checked = k + length es;
        })
  unfolding check_from failures_from
  check_from-failures_from [] expected previous failures k = simp (append-nil, add-zero)
  check_from-failures_from (e ∷ es) expected previous failures k =
      let wanted = if eq_ℤ expected (pos 0) then e.sequence else expected in
      check_from-failures_from es (next_sequence e.sequence) e.chain_hash
        (failures ++ entry_failures os wanted previous e) (k + 1)
      ∙ simp (append_assoc) (rw (count k (length es)) refl)
    where
      count : (a b : ℕ) → a + 1 + b ≡ a + suc b
      count a b = omega arith

  entry_failures_iff :
      (expected : ℤ) (previous : String) (e : AuditChainEntry)
      → (entry_failures os expected previous e ≡ []) ↔ (
          (e.sequence ≡ expected)
          × (e.previous_chain_hash ≡ previous_hash_for_sequence e.sequence previous)
          × (chain_hash os e.previous_chain_hash e.event_hash ≡ e.chain_hash))
  unfolding entry_failures
  entry_failures_iff expected previous e = ground (
    arith,
    eq_ℤ_iff e.sequence expected,
    eq_iff e.previous_chain_hash (previous_hash_for_sequence e.sequence previous),
    eq_iff (chain_hash os e.previous_chain_hash e.event_hash) e.chain_hash,
  )

  pub failures_from-cons :
      (expected wanted : ℤ) (previous : String) (e : AuditChainEntry) (es : List AuditChainEntry)
      → (if eq_ℤ expected (pos 0) then e.sequence else expected) ≡ wanted
      → (failures_from os expected previous (e ∷ es) ≡ []) ↔ (
          (entry_failures os wanted previous e ≡ [])
          × (failures_from os (next_sequence e.sequence) e.chain_hash es ≡ []))
  unfolding failures_from
  failures_from-cons expected wanted previous e es w =
      rw w (append-eq-nil, λ (a, b). rw (a, b) refl)

  expected_pos :
      (n : ℕ) (x : ℤ) → (if eq_ℤ (pos (suc n)) (pos 0) then x else pos (suc n)) ≡ pos (suc n)
  expected_pos n x = ground arith

  -- With a positive sequence expected, nothing is reported exactly when the entries are linked.
  pub failures_from-Linked :
      (es : List AuditChainEntry) (n : ℕ) (previous : String)
      → suc n + length es < 2 ^ 63
      → (failures_from os (pos (suc n)) previous es ≡ []) ↔ Linked os (pos (suc n)) previous es
  unfolding failures_from
  failures_from-Linked [] n previous h = (λ _. tt, λ _. refl)
  failures_from-Linked (e ∷ es) n previous h =
      let cons =
        failures_from-cons (pos (suc n)) (pos (suc n)) previous e es (expected_pos n e.sequence) in
      let after : next_sequence (pos (suc n)) ≡ pos (suc (suc n)) =
        next_sequence-pos (suc n) (omega arith) in
      let rest = failures_from-Linked es (suc n) e.chain_hash (omega arith) in
      (
        λ none_reported.
            let (here, later) = cons.0 none_reported in
            let (same, linked, hashed) = (entry_failures_iff (pos (suc n)) previous e).0 here in
            (same, rw (← same) linked, hashed, rw after (rest.0 (rw (same, after) at later))),
        λ (same, linked, hashed, later). cons.1 (
          (entry_failures_iff (pos (suc n)) previous e).1 (same, rw same linked, hashed),
          rw (same, after) (rest.1 (rw after at later)),
        ),
      )
