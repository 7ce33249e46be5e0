-- ===== src/Transform/Parse.antt =====
-- What `ParseOperations` accepts (internal/transform/transform.go).
use webhookery.Common.{
  suc, ◌≤◌, List, [], ◌∷◌, ok, >>=-eq-ok, ok-eq, err-ok, ◌≡◌, refl, subst, inl, inr, All, arith,
  Bool-cases, length, leb, ap,
}
use webhookery.Transform.Apply.{
  Operation, normalize_operation, validate_operation, validate_all, parse_operations,
}

-- The operations of a list, all of which are valid.
pub record AreValid (raw ops : List Operation) : Type 0 where
  pub counted : length ops ≡ length raw
  pub valid : All (λ op. validate_operation op ≡ ok tt) ops

validate_all-AreValid :
    (raw : List Operation) {ops : List Operation} → validate_all raw ≡ ok ops → AreValid raw ops
unfolding validate_all
validate_all-AreValid [] h = subst (AreValid []) (ok-eq h) (record { counted = refl; valid = tt })
validate_all-AreValid (op ∷ raw) h =
    let (checked, first, rest) = >>=-eq-ok (validate_operation (normalize_operation op)) _ h in
    let (ops, others, end) = >>=-eq-ok (validate_all raw) _ rest in
    let v = validate_all-AreValid raw others in
    subst (AreValid (op ∷ raw)) (ok-eq end)
      (record { counted = ap suc v.counted; valid = (first, v.valid) })

-- Parsing that ends well gives between 1 and 100 operations, as many as were read, and each of them
-- passes the validation that `Apply` makes again.
pub parse_operations-AreValid :
    (raw ops : List Operation)
    → parse_operations raw ≡ ok ops
    → (1 ≤ length ops) × (length ops ≤ 100) × AreValid raw ops
unfolding parse_operations
parse_operations-AreValid [] ops h = absurd (err-ok h)
parse_operations-AreValid (op ∷ raw) ops h = elim (Bool-cases (leb (length (op ∷ raw)) 100)) [
  | inl small ↦
      let v = validate_all-AreValid (op ∷ raw) (rw small at h) in
      (omega (arith, v.counted), ground (arith, v.counted), v)
  | inr large ↦ absurd (err-ok (rw large at h))
]
