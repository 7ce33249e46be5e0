-- ===== src/Common/Effects.antt =====
-- Calls that change a store: the new store is returned with the result, also on an error, since
-- every call is a transaction of its own.
use webhookery.Common.Outcome.{Result, ok, err}

abbrev pub Effect {ℓ κ ι} : Type ℓ → Type κ → Type ι → Type (ℓ ⊔ κ ⊔ ι)
Effect Store Failure Value = Store → Result Failure Value × Store

module _ {ℓ κ} {Store : Type ℓ} {Failure : Type κ} where
  unfoldable pub chain {ι υ} :
      {Value : Type ι} {Next : Type υ}
      → Result Failure Value × Store
      → (Value → Effect Store Failure Next)
      → Result Failure Next × Store
  chain (err failure, after) rest = (err failure, after)
  chain (ok value, after) rest = rest value after

  infixl 5 ◌>>=◌ ◌>>◌
  abbrev pub ◌>>=◌ {ι υ} :
      {Value : Type ι} {Next : Type υ}
      → Effect Store Failure Value
      → (Value → Effect Store Failure Next)
      → Effect Store Failure Next
  call >>= rest = λ before. chain (call before) rest

  abbrev pub ◌>>◌ {ι υ} :
      {Value : Type ι} {Next : Type υ}
      → Effect Store Failure Value
      → Effect Store Failure Next
      → Effect Store Failure Next
  first >> second = first >>= λ ignored. second

  abbrev pub done {ι} : {Value : Type ι} → Value → Effect Store Failure Value
  done value store = (ok value, store)

  abbrev pub fail {ι} : {Value : Type ι} → Failure → Effect Store Failure Value
  fail failure store = (err failure, store)

  -- A call that only reads.
  abbrev pub asking {ι} :
      {Value : Type ι} → (Store → Result Failure Value) → Effect Store Failure Value
  asking query store = (query store, store)

  -- What holds of the store before a call holds after it, on every outcome.
  abbrev pub Keeps {ι υ} :
      {Value : Type ι} → (Store → Type υ) → Effect Store Failure Value → Type (ℓ ⊔ υ)
  Keeps Holds call = (store : Store) → Holds store → Holds (call store).1

  pub chain-Keeps {ι υ ω} :
      {Value : Type ι} {Next : Type υ} (Holds : Store → Type ω)
      (outcome : Result Failure Value × Store) (rest : Value → Effect Store Failure Next)
      → Holds outcome.1
      → ((value : Value) → Keeps Holds (rest value))
      → Holds (chain outcome rest).1
  unfolding chain
  chain-Keeps Holds (err failure, after) rest kept then_ = kept
  chain-Keeps Holds (ok value, after) rest kept then_ = then_ value after kept
