-- ===== src/Common/Plain.antt =====
-- Texts without separators: what splitting, trimming and cutting make of them, and which printed
-- numbers are such texts.
use Prim.Native.Char.{Char, code}
use webhookery.Common.{
  ℕ, zero, suc, ◌/◌, ◌%◌, ◌<◌, String, Bool, true, false, not, ◌&&◌, List, [], ◌∷◌, none, ◌≡◌, refl,
  ap, inl, inr, arith, ◌==◌, nat_eq, string_eq, ltb, leb, Bool-cases, eq_iff, and-eq-true, All, ◌▸◌,
  is_space, trim_space, split, cut_prefix, onto, trim_left, trim_right, push_trimmed,
}
use webhookery.Common.Bytes.{hex, hex_digit}
use webhookery.Common.Decimal.{itoa, itoa_onto, digit, is_digit}

-- No white space, no comma.
unfoldable pub is_plain : Char → Bool
unfolding is_space
is_plain c = not (is_space c) && not (code c == 44)

abbrev pub all_plain : String → Bool
all_plain String.[] = true
all_plain (String.◌∷◌ c s) = is_plain c && all_plain s

plain_parts : (c : Char) → is_plain c ≡ true → (is_space c ≡ false) × ((code c == 44) ≡ false)
unfolding is_plain
plain_parts c h = (left _ _ h, right _ _ h)
  where
    left : (a b : Bool) → (not a && not b) ≡ true → a ≡ false
    left a b h = ground arith

    right : (a b : Bool) → (not a && not b) ≡ true → b ≡ false
    right a b h = ground arith

pub split-plain : (s : String) → all_plain s ≡ true → split "," s ≡ s ∷ []
unfolding split
split-plain String.[] h = refl
split-plain (String.◌∷◌ c s) h =
    let (here, rest) = and-eq-true (is_plain c) (all_plain s) h in
    rw ((plain_parts c here).1, split-plain s rest) refl

pub split-onto :
    (s t : String) → all_plain s ≡ true → split "," (onto s ("," ▸ t)) ≡ s ∷ split "," t
unfolding split onto
split-onto String.[] t h = refl
split-onto (String.◌∷◌ c s) t h =
    let (here, rest) = and-eq-true (is_plain c) (all_plain s) h in
    rw ((plain_parts c here).1, split-onto s t rest) refl

trim_right-plain : (s : String) → all_plain s ≡ true → trim_right s ≡ s
unfolding trim_right push_trimmed
trim_right-plain String.[] h = refl
trim_right-plain (String.◌∷◌ c s) h =
    let (here, rest) = and-eq-true (is_plain c) (all_plain s) h in
    rw (trim_right-plain s rest) (last s)
  where
    last : (s : String) → push_trimmed c s ≡ c ▸ s
    last String.[] = rw (plain_parts c (and-eq-true (is_plain c) _ h).0).0 refl
    last (String.◌∷◌ d s) = refl

pub trim_space-plain : (s : String) → all_plain s ≡ true → trim_space s ≡ s
unfolding trim_space trim_left
trim_space-plain String.[] h = trim_right-plain "" h
trim_space-plain (String.◌∷◌ c s) h =
    let (here, rest) = and-eq-true (is_plain c) (all_plain s) h in
    rw (plain_parts c here).0 (trim_right-plain (c ▸ s) h)

-- Ten digits, and sixteen.
digit-plain : (n : ℕ) → n < 10 → (is_plain (digit n) ≡ true) × (is_digit (digit n) ≡ true)
unfolding is_plain is_space digit is_digit
digit-plain zero h = (refl, refl)
digit-plain (suc zero) h = (refl, refl)
digit-plain (suc (suc zero)) h = (refl, refl)
digit-plain (suc (suc (suc zero))) h = (refl, refl)
digit-plain (suc (suc (suc (suc zero)))) h = (refl, refl)
digit-plain (suc (suc (suc (suc (suc zero))))) h = (refl, refl)
digit-plain (suc (suc (suc (suc (suc (suc zero)))))) h = (refl, refl)
digit-plain (suc (suc (suc (suc (suc (suc (suc zero))))))) h = (refl, refl)
digit-plain (suc (suc (suc (suc (suc (suc (suc (suc zero)))))))) h = (refl, refl)
digit-plain (suc (suc (suc (suc (suc (suc (suc (suc (suc zero))))))))) h = (refl, refl)
digit-plain (suc (suc (suc (suc (suc (suc (suc (suc (suc (suc n)))))))))) h = absurd (omega arith)

hex_digit-plain : (n : ℕ) → n < 16 → is_plain (hex_digit n "0123456789abcdef") ≡ true
unfolding is_plain is_space hex_digit
hex_digit-plain zero h = refl
hex_digit-plain (suc zero) h = refl
hex_digit-plain (suc (suc zero)) h = refl
hex_digit-plain (suc (suc (suc zero))) h = refl
hex_digit-plain (suc (suc (suc (suc zero)))) h = refl
hex_digit-plain (suc (suc (suc (suc (suc zero))))) h = refl
hex_digit-plain (suc (suc (suc (suc (suc (suc zero)))))) h = refl
hex_digit-plain (suc (suc (suc (suc (suc (suc (suc zero))))))) h = refl
hex_digit-plain (suc (suc (suc (suc (suc (suc (suc (suc n)))))))) h = upper n (omega arith)
  where
    upper : (n : ℕ) → n < 8 → is_plain (hex_digit n "89abcdef") ≡ true
    upper zero h = refl
    upper (suc zero) h = refl
    upper (suc (suc zero)) h = refl
    upper (suc (suc (suc zero))) h = refl
    upper (suc (suc (suc (suc zero)))) h = refl
    upper (suc (suc (suc (suc (suc zero))))) h = refl
    upper (suc (suc (suc (suc (suc (suc zero)))))) h = refl
    upper (suc (suc (suc (suc (suc (suc (suc zero))))))) h = refl
    upper (suc (suc (suc (suc (suc (suc (suc (suc n)))))))) h = absurd (omega arith)

both : (a b : Bool) → a ≡ true → b ≡ true → (a && b) ≡ true
both a b h k = ground arith

pub hex-plain : (bytes : List ℕ) → All (λ b. b < 256) bytes → all_plain (hex bytes) ≡ true
unfolding hex
hex-plain [] all = refl
hex-plain (b ∷ bytes) (small, all) =
    both _ _ (hex_digit-plain (b / 16) (omega arith))
      (both _ _ (hex_digit-plain (b % 16) (omega arith)) (hex-plain bytes all))

-- A text that begins with a digit.
abbrev pub digit_first : String → Bool
digit_first String.[] = false
digit_first (String.◌∷◌ c s) = is_digit c

itoa_onto-plain :
    (f n : ℕ) (rest : String)
    → all_plain rest ≡ true
    → digit_first rest ≡ true
    → (all_plain (itoa_onto f n rest) ≡ true) × (digit_first (itoa_onto f n rest) ≡ true)
unfolding itoa_onto
itoa_onto-plain zero n rest h first = (h, first)
itoa_onto-plain (suc f) n rest h first =
    let (plain, digital) = digit-plain (n % 10) (omega arith) in
    let here : all_plain (digit (n % 10) ▸ rest) ≡ true = both _ _ plain h in
    elim (Bool-cases (ltb n 10)) [
      | inl small ↦ rw small (here, digital)
      | inr large ↦ rw large (itoa_onto-plain f (n / 10) (digit (n % 10) ▸ rest) here digital)
    ]

pub itoa-plain : (n : ℕ) → (all_plain (itoa n) ≡ true) × (digit_first (itoa n) ≡ true)
unfolding itoa itoa_onto
itoa-plain n =
    let (plain, digital) = digit-plain (n % 10) (omega arith) in
    let here : all_plain (digit (n % 10) ▸ "") ≡ true = both _ _ plain refl in
    elim (Bool-cases (ltb n 10)) [
      | inl small ↦ rw small (here, digital)
      | inr large ↦ rw large (itoa_onto-plain 19 (n / 10) (digit (n % 10) ▸ "") here digital)
    ]

abbrev is_blank : String → Bool
is_blank String.[] = true
is_blank (String.◌∷◌ c s) = false

pub named_eq : (c : Char) (s : String) → ((c ▸ s) == "") ≡ false
named_eq c s = elim (Bool-cases ((c ▸ s) == "")) [
  | inl same ↦ absurd (apart (ap is_blank ((eq_iff (c ▸ s) "").0 same)))
  | inr other ↦ other
]
  where
    apart : false ≡ true → ⊥
    apart e = cc

-- A number has no sign in front.
pub unsigned :
    (s : String)
    → digit_first s ≡ true
    → (cut_prefix s "+" ≡ none) × (cut_prefix s "-" ≡ none) × ((s == "") ≡ false)
unfolding cut_prefix is_digit
unsigned String.[] h = cc
unsigned (String.◌∷◌ c s) h = (rw (plus (code c) h) refl, rw (minus (code c) h) refl, named_eq c s)
  where
    plus : (n : ℕ) → (leb 48 n && leb n 57) ≡ true → (n == 43) ≡ false
    plus n h = ground arith

    minus : (n : ℕ) → (leb 48 n && leb n 57) ≡ true → (n == 45) ≡ false
    minus n h = ground arith
