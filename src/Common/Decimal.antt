-- ===== src/Common/Decimal.antt =====
-- `strconv.Itoa` and `strconv.ParseInt` in base 10.
use Prim.Native.Char.{Char, code}
use native.Mathlib.Nat.{pow-suc}
use webhookery.Common.{
  ℕ, zero, suc, ◌+◌, ◌-◌, ◌*◌, ◌/◌, ◌%◌, ◌^◌, ◌<◌, ◌≡◌, refl, ap, ◌∙◌, String, Bool, true, Option,
  none, some, arith, ltb, leb, nat_eq, if◌then◌else◌, ◌&&◌, ◌▸◌, Bool-cases, inl, inr,
}
use webhookery.Common.Int.{ℤ, pos, negsuc}

char_at : String → ℕ → Char
char_at String.[] n = "?"
char_at (String.◌∷◌ c s) zero = c
char_at (String.◌∷◌ c s) (suc n) = char_at s n

unfoldable pub digit : ℕ → Char
unfolding char_at
digit n = char_at "0123456789" n

-- The digits of `n` in front of `rest`, with fuel.
unfoldable pub itoa_onto : ℕ → ℕ → String → String
itoa_onto zero n rest = rest
itoa_onto (suc f) n rest =
    let here = digit (n % 10) ▸ rest in
    let more = itoa_onto f (n / 10) here in if ltb n 10 then here else more

-- A number below 2 ^ 64 has at most 20 digits.
unfoldable pub itoa : ℕ → String
unfolding itoa_onto digit
itoa n = itoa_onto 20 n ""

unfoldable pub itoa_ℤ : ℤ → String
unfolding itoa
itoa_ℤ (pos n) = itoa n
itoa_ℤ (negsuc n) = "-" ▸ itoa (suc n)

unfoldable pub is_digit : Char → Bool
is_digit c = leb 48 (code c) && leb (code c) 57

-- The digits up to the end of the text, on top of `acc`.
unfoldable pub parse_onto : ℕ → String → Option ℕ
unfolding is_digit
parse_onto acc String.[] = some acc
parse_onto acc (String.◌∷◌ c s) =
    if is_digit c then parse_onto (acc * 10 + (code c - 48)) s else none

digit_range : (n : ℕ) → n < 10 → (is_digit (digit n) ≡ true) × (code (digit n) - 48 ≡ n)
unfolding is_digit digit
digit_range zero h = (refl, refl)
digit_range (suc zero) h = (refl, refl)
digit_range (suc (suc zero)) h = (refl, refl)
digit_range (suc (suc (suc zero))) h = (refl, refl)
digit_range (suc (suc (suc (suc zero)))) h = (refl, refl)
digit_range (suc (suc (suc (suc (suc zero))))) h = (refl, refl)
digit_range (suc (suc (suc (suc (suc (suc zero)))))) h = (refl, refl)
digit_range (suc (suc (suc (suc (suc (suc (suc zero))))))) h = (refl, refl)
digit_range (suc (suc (suc (suc (suc (suc (suc (suc zero)))))))) h = (refl, refl)
digit_range (suc (suc (suc (suc (suc (suc (suc (suc (suc zero))))))))) h = (refl, refl)
digit_range (suc (suc (suc (suc (suc (suc (suc (suc (suc (suc n)))))))))) h = absurd (omega arith)

parse_onto-digit :
    (acc n : ℕ) (rest : String)
    → n < 10
    → parse_onto acc (digit n ▸ rest) ≡ parse_onto (acc * 10 + n) rest
unfolding parse_onto
parse_onto-digit acc n rest h = rw ((digit_range n h).0, (digit_range n h).1)

-- One round of `itoa_onto`, read back.
itoa_onto_small :
    (f n : ℕ) (rest : String)
    → ltb n 10 ≡ true
    → parse_onto 0 (itoa_onto (suc f) n rest) ≡ parse_onto n rest
unfolding itoa_onto
itoa_onto_small f n rest small =
    rw small
      (parse_onto-digit 0 (n % 10) rest (omega arith) ∙ ap (λ k. parse_onto k rest) (ground arith))

parse_onto-itoa_onto :
    (f n : ℕ) (rest : String)
    → n < 10 ^ suc f
    → parse_onto 0 (itoa_onto (suc f) n rest) ≡ parse_onto n rest
unfolding itoa_onto
parse_onto-itoa_onto zero n rest h = itoa_onto_small zero n rest (ground arith)
parse_onto-itoa_onto (suc f) n rest h = elim (Bool-cases (ltb n 10)) [
  | inl small ↦ itoa_onto_small (suc f) n rest small
  | inr large ↦
      let shorter : n < 10 ^ suc f * 10 = rw (pow-suc 10 (suc f)) at h in
      rw large (
        parse_onto-itoa_onto f (n / 10) (digit (n % 10) ▸ rest) (omega arith)
        ∙ parse_onto-digit (n / 10) (n % 10) rest (omega arith)
        ∙ ap (λ k. parse_onto k rest) (omega arith))
]

-- The number that a text of digits stands for; 0 for the empty text.
unfoldable pub parse_digits : String → Option ℕ
unfolding parse_onto
parse_digits = parse_onto 0

-- What `Itoa` prints is read back, for every number of up to 20 digits.
pub parse_digits-itoa : (n : ℕ) → n < 10 ^ 20 → parse_digits (itoa n) ≡ some n
unfolding parse_digits itoa
parse_digits-itoa n h = parse_onto-itoa_onto 19 n "" h
