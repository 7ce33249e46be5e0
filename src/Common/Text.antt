-- ===== src/Common/Text.antt =====
-- The parts of Go's `strings` package that the source calls, over the code points of a text.
-- Letters beyond ASCII are left as they are by `to_lower`.
use Prim.Native.Char.{Char, code}
use Prim.Native.String.{String, ◌++◌ as append}
use mathlib.Core.Path.{◌≡◌, refl}
use mathlib.Core.Bool.{Bool, true, false, ◌&&◌, ◌||◌}
use mathlib.Core.List.{List, [], ◌∷◌}
use mathlib.Core.Option.{Option, none, some}
use mathlib.Core.Logic.{inl, inr}
use webhookery.Common.Lists.{is_nil}
use webhookery.Common.Tests.{Bool-cases, leb, ◌==◌, nat_eq, string_eq, if◌then◌else◌}

infixr 67 ◌▸◌
abbrev pub ◌▸◌ : Char → String → String
c ▸ s = String.◌∷◌ c s

-- Two texts, one behind the other.
unfoldable pub onto : String → String → String
onto String.[] t = t
onto (String.◌∷◌ c s) t = c ▸ onto s t

-- `unicode.IsSpace`
unfoldable pub is_space : Char → Bool
is_space c =
    let n = code c in
    leb 9 n && leb n 13
    || n == 32
    || n == 0x85
    || n == 0xA0
    || n == 0x1680
    || leb 0x2000 n && leb n 0x200a
    || n == 0x2028
    || n == 0x2029
    || n == 0x202f
    || n == 0x205f
    || n == 0x3000

-- The letter of `to` that stands where `c` stands in `from`.
translate : String → String → Char → Char
translate (String.◌∷◌ x from) (String.◌∷◌ y to) c =
    if code x == code c then y else translate from to c
translate _ _ c = c

lower_char : Char → Char
unfolding translate
lower_char = translate "ABCDEFGHIJKLMNOPQRSTUVWXYZ" "abcdefghijklmnopqrstuvwxyz"

-- `strings.ToLower`
unfoldable pub to_lower : String → String
unfolding lower_char
to_lower String.[] = String.[]
to_lower (String.◌∷◌ c s) = lower_char c ▸ to_lower s

unfoldable pub trim_left : String → String
unfolding is_space
trim_left String.[] = String.[]
trim_left (String.◌∷◌ c s) = if is_space c then trim_left s else c ▸ s

-- What is left of `c ▸ s` when `rest` is left of `s`.
unfoldable pub push_trimmed : Char → String → String
unfolding is_space
push_trimmed c String.[] = if is_space c then String.[] else c ▸ String.[]
push_trimmed c (String.◌∷◌ d s) = c ▸ (d ▸ s)

unfoldable pub trim_right : String → String
unfolding push_trimmed
trim_right String.[] = String.[]
trim_right (String.◌∷◌ c s) = push_trimmed c (trim_right s)

-- `strings.TrimSpace`
unfoldable pub trim_space : String → String
unfolding trim_left trim_right
trim_space s = trim_right (trim_left s)

-- `strings.CutPrefix`: the rest of the text behind the prefix.
unfoldable pub cut_prefix : String → String → Option String
cut_prefix s String.[] = some s
cut_prefix String.[] (String.◌∷◌ p prefix) = none
cut_prefix (String.◌∷◌ c s) (String.◌∷◌ p prefix) =
    if code c == code p then cut_prefix s prefix else none

-- `strings.HasPrefix`
unfoldable pub has_prefix : String → String → Bool
unfolding cut_prefix
has_prefix s prefix = elim (cut_prefix s prefix) [ none ↦ false | some _ ↦ true ]

-- `strings.TrimPrefix`
unfoldable pub trim_prefix : String → String → String
unfolding cut_prefix
trim_prefix s prefix = elim (cut_prefix s prefix) [ none ↦ s | some rest ↦ rest ]

-- `strings.HasSuffix`
unfoldable pub has_suffix : String → String → Bool
has_suffix String.[] suffix = suffix == ""
has_suffix (String.◌∷◌ c s) suffix = (c ▸ s) == suffix || has_suffix s suffix

-- `strings.Contains`
unfoldable pub contains_text : String → String → Bool
unfolding has_prefix
contains_text String.[] part = part == ""
contains_text (String.◌∷◌ c s) part = has_prefix (c ▸ s) part || contains_text s part

-- Puts a character in front of the first piece.
push_piece : Char → List String → List String
push_piece c [] = (c ▸ "") ∷ []
push_piece c (p ∷ ps) = (c ▸ p) ∷ ps

-- `strings.Split` at a one-character separator.
unfoldable pub split : Char → String → List String
unfolding push_piece
split sep String.[] = "" ∷ []
split sep (String.◌∷◌ c s) =
    if code c == code sep then "" ∷ split sep s else push_piece c (split sep s)

-- The flag says that an `a` was read and is held back until the next character is seen.
replace_from : Char → Char → Char → Bool → String → String
replace_from a b to false String.[] = ""
replace_from a b to true String.[] = a ▸ ""
replace_from a b to false (String.◌∷◌ c s) = elim (code c == code a) [
  | true ↦ replace_from a b to true s
  | false ↦ c ▸ replace_from a b to false s
]
replace_from a b to true (String.◌∷◌ c s) = elim (code c == code b) [
  | true ↦ to ▸ replace_from a b to false s
  | false ↦ elim (code c == code a) [
    | true ↦ a ▸ replace_from a b to true s
    | false ↦ a ▸ (c ▸ replace_from a b to false s)
  ]
]

-- `strings.ReplaceAll` of the two characters `a b`, which differ, by `to`.
unfoldable pub replace_pair : Char → Char → Char → String → String
unfolding replace_from
replace_pair a b to = replace_from a b to false

-- `strings.Join`
unfoldable pub join : String → List String → String
join sep [] = ""
join sep (s ∷ []) = s
join sep (s ∷ t ∷ rest) = append s (append sep (join sep (t ∷ rest)))

trim_space_runs : trim_space " \ta b\n " ≡ "a b"
unfolding trim_space
trim_space_runs = refl

to_lower_runs : to_lower "Stripe-V1" ≡ "stripe-v1"
unfolding to_lower
to_lower_runs = refl

split_runs : split "/" "a//b" ≡ "a" ∷ "" ∷ "b" ∷ []
unfolding split
split_runs = refl

replace_pair_runs : replace_pair "~" "1" "/" "a~1~01" ≡ "a/~01"
unfolding replace_pair
replace_pair_runs = refl

-- `strings.Split` returns at least one piece.
pub split_nonempty : (sep : Char) (s : String) → is_nil (split sep s) ≡ false
unfolding split push_piece
split_nonempty sep String.[] = refl
split_nonempty sep (String.◌∷◌ c s) = elim (Bool-cases (code c == code sep)) [
  | inl here ↦ rw here refl
  | inr further ↦ rw further (pushed c (split sep s))
]
  where
    pushed : (c : Char) (pieces : List String) → is_nil (push_piece c pieces) ≡ false
    pushed c [] = refl
    pushed c (p ∷ ps) = refl
