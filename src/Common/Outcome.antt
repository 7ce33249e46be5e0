-- ===== src/Common/Outcome.antt =====
-- A Go pair `(value, error)` whose error decides which half is used.
use mathlib.Core.Path.{◌≡◌, refl}
use mathlib.Core.Logic.{◌⊎◌, inl, inr}

pub data Result {κ ℓ} (Failure : Type κ) (Value : Type ℓ) : Type (κ ⊔ ℓ) where
  err : Failure → Result Failure Value
  ok : Value → Result Failure Value

module _ {κ} {Failure : Type κ} where
  infixl 5 ◌>>=◌
  abbrev pub ◌>>=◌ {ℓ ι} :
      {Value : Type ℓ} {Next : Type ι}
      → Result Failure Value
      → (Value → Result Failure Next)
      → Result Failure Next
  outcome >>= rest = elim outcome [ err failure ↦ err failure | ok value ↦ rest value ]

  -- A chain that ends well went well at its first call.
  pub >>=-eq-ok {ℓ ι} :
      {Value : Type ℓ} {Next : Type ι} (outcome : Result Failure Value)
      (rest : Value → Result Failure Next) {end : Next}
      → (outcome >>= rest) ≡ ok end
      → (value : Value) × (outcome ≡ ok value) × (rest value ≡ ok end)
  >>=-eq-ok (err failure) rest h = cc
  >>=-eq-ok (ok value) rest h = (value, refl, h)

  pub Result-cases {ℓ} :
      {Value : Type ℓ} (outcome : Result Failure Value)
      → ((value : Value) × (outcome ≡ ok value)) ⊎ ((failure : Failure) × (outcome ≡ err failure))
  Result-cases (ok value) = inl (value, refl)
  Result-cases (err failure) = inr (failure, refl)

  pub ok-eq {ℓ} : {Value : Type ℓ} {a b : Value} → Path (Result Failure Value) (ok a) (ok b) → a ≡ b
  ok-eq h = cc

  pub err-ok {ℓ} :
      {Value : Type ℓ} {failure : Failure} {value : Value}
      → Path (Result Failure Value) (err failure) (ok value)
      → ⊥
  err-ok h = cc
