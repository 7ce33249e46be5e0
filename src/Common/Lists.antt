-- ===== src/Common/Lists.antt =====
-- Lists over the native numbers, and membership by a test.
use Prim.Native.Nat.{ℕ, zero, suc, ◌+◌}
use mathlib.Core.Path.{◌≡◌, refl, sym, subst}
use mathlib.Core.Logic.{inl, inr}
use mathlib.Core.Bool.{Bool, true, false, ◌||◌}
use mathlib.Core.List.{List, [], ◌∷◌, ◌++◌, Memᴰ}
use mathlib.Core.Option.{Option, none, some}
use native.Mathlib.Omega.{arith}
use webhookery.Common.Tests.{if◌then◌else◌, Comparable, ◌==◌, Bool-cases}

module _ {ℓ} {A : Type ℓ} where
  abbrev pub length : List A → ℕ
  length [] = 0
  length (x ∷ xs) = suc (length xs)

  abbrev pub get_elem? : List A → ℕ → Option A
  get_elem? [] i = none
  get_elem? (x ∷ xs) zero = some x
  get_elem? (x ∷ xs) (suc i) = get_elem? xs i

  abbrev pub is_nil : List A → Bool
  is_nil [] = true
  is_nil (x ∷ xs) = false

  pub length-append : (xs ys : List A) → length (xs ++ ys) ≡ length xs + length ys
  length-append [] ys = omega arith
  length-append (x ∷ xs) ys = omega (arith, length-append xs ys)

  unfoldable pub take : ℕ → List A → List A
  take zero xs = []
  take (suc n) [] = []
  take (suc n) (x ∷ xs) = x ∷ take n xs

  -- Two texts whose first parts have one length are equal only part by part.
  pub append_cancel :
      (xs ys : List A) {us vs : List A}
      → length xs ≡ length ys
      → xs ++ us ≡ ys ++ vs
      → (xs ≡ ys) × (us ≡ vs)
  append_cancel [] [] h e = (refl, e)
  append_cancel [] (y ∷ ys) h e = absurd (omega arith)
  append_cancel (x ∷ xs) [] h e = absurd (omega arith)
  append_cancel (x ∷ xs) (y ∷ ys) h e =
      let (heads, tails) = ∷-eq e in
      let (rest, behind) = append_cancel xs ys (omega arith) tails in
      (rw (heads, rest) refl, behind)
    where
      ∷-eq : {a b : A} {us vs : List A} → a ∷ us ≡ b ∷ vs → (a ≡ b) × (us ≡ vs)
      ∷-eq h = (cc, cc)

  abbrev pub All {κ} : (A → Type κ) → List A → Type κ
  All P [] = Unit
  All P (x ∷ xs) = P x × All P xs

pub All-imp {ℓ κ ι} :
    {A : Type ℓ} {P : A → Type κ} {Q : A → Type ι} (xs : List A)
    → ((x : A) → P x → Q x)
    → All P xs
    → All Q xs
All-imp [] f all = tt
All-imp (x ∷ xs) f (here, there) = (f x here, All-imp xs f there)

-- The source's membership loops: `for _, item := range items { if item == a { return true } }`.
module _ {ℓ} {A : Type ℓ} ⦃e : Comparable A⦄ where
  unfoldable pub contains : List A → A → Bool
  contains [] a = false
  contains (x ∷ xs) a = x == a || contains xs a

  pub contains→Memᴰ : (xs : List A) (a : A) → contains xs a ≡ true → Memᴰ a xs
  unfolding contains
  contains→Memᴰ [] a h = cc
  contains→Memᴰ (x ∷ xs) a h = elim (Bool-cases (x == a)) [
    | inl t ↦ Memᴰ.head (sym ((e.same_iff x a).0 t))
    | inr f ↦ Memᴰ.tail (contains→Memᴰ xs a (rw f at h))
  ]

  pub Memᴰ→contains : {a : A} {xs : List A} → Memᴰ a xs → contains xs a ≡ true
  unfolding contains
  Memᴰ→contains {a} {xs = []} m = elim m [ ]
  Memᴰ→contains {a} {xs = x ∷ xs} (Memᴰ.head p) = rw ((e.same_iff x a).1 (sym p))
  Memᴰ→contains {a} {xs = x ∷ xs} (Memᴰ.tail m) = ground (arith, Memᴰ→contains m)

-- `UPDATE … SET … WHERE …`: every row that the test accepts is rewritten.
module _ {ℓ} {A : Type ℓ} (test : A → Bool) (change : A → A) where
  unfoldable pub update_where : List A → List A
  update_where [] = []
  update_where (x ∷ xs) = (if test x then change x else x) ∷ update_where xs

  -- A property that the new rows have, and that the other rows had, holds of all rows.
  pub All-update_where {κ} :
      {P : A → Type κ} (xs : List A)
      → ((x : A) → test x ≡ true → P x → P (change x))
      → All P xs
      → All P (update_where xs)
  unfolding update_where
  All-update_where [] keeps all = tt
  All-update_where {P} (x ∷ xs) keeps (here, there) = (
    elim (Bool-cases (test x)) [
      | inl hit ↦ subst (λ b. P (if b then change x else x)) (sym hit) (keeps x hit here)
      | inr miss ↦ subst (λ b. P (if b then change x else x)) (sym miss) here
    ],
    All-update_where xs keeps there,
  )

  pub get_elem?-update_where :
      (xs : List A) (i : ℕ) {x : A}
      → get_elem? xs i ≡ some x
      → get_elem? (update_where xs) i ≡ some (if test x then change x else x)
  unfolding update_where
  get_elem?-update_where [] i h = cc
  get_elem?-update_where (y ∷ xs) zero h = cc
  get_elem?-update_where (y ∷ xs) (suc i) h = get_elem?-update_where xs i h
