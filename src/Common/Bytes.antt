-- ===== src/Common/Bytes.antt =====
-- Bytes as numbers: UTF-8, `binary.BigEndian`, `big.Int.SetBytes` and `hex.EncodeToString`.
use Prim.Native.Char.{Char, code}
use native.Mathlib.Nat.{pow-suc}
use webhookery.Common.{
  ℕ, zero, suc, ◌+◌, ◌*◌, ◌/◌, ◌%◌, ◌^◌, ◌<◌, ◌≡◌, refl, ◌∙◌, String, List, [], ◌∷◌, ◌++◌, arith,
  ltb, if◌then◌else◌, length, length-append, ◌▸◌, ◌-◌, ap, All, Option, none, some, ◌&&◌, leb,
}

utf8_char : ℕ → List ℕ
utf8_char n =
    if ltb n 0x80
    then n ∷ []
    else if ltb n 0x800
    then (0xC0 + n / 64) ∷ (0x80 + n % 64) ∷ []
    else if ltb n 0x10000
    then (0xE0 + n / 4096) ∷ (0x80 + n / 64 % 64) ∷ (0x80 + n % 64) ∷ []
    else (0xF0 + n / 262144) ∷ (0x80 + n / 4096 % 64) ∷ (0x80 + n / 64 % 64) ∷ (0x80 + n % 64) ∷ []

-- The bytes of a text.
unfoldable pub utf8 : String → List ℕ
unfolding utf8_char
utf8 String.[] = []
utf8 (String.◌∷◌ c s) = utf8_char (code c) ++ utf8 s

-- The last `k` bytes of `n`, the most significant one first.
unfoldable pub big_endian : ℕ → ℕ → List ℕ
big_endian zero n = []
big_endian (suc k) n = big_endian k (n / 256) ++ n % 256 ∷ []

from_onto : ℕ → List ℕ → ℕ
from_onto acc [] = acc
from_onto acc (b ∷ bs) = from_onto (acc * 256 + b) bs

-- `big.Int.SetBytes`
unfoldable pub from_big_endian : List ℕ → ℕ
unfolding from_onto
from_big_endian = from_onto 0

unfoldable pub hex_digit : ℕ → String → Char
hex_digit n String.[] = "?"
hex_digit zero (String.◌∷◌ c s) = c
hex_digit (suc n) (String.◌∷◌ c s) = hex_digit n s

-- `hex.EncodeToString`
unfoldable pub hex : List ℕ → String
unfolding hex_digit
hex [] = ""
hex (b ∷ bs) =
    hex_digit (b / 16) "0123456789abcdef" ▸ (hex_digit (b % 16) "0123456789abcdef" ▸ hex bs)

pub length-big_endian : (k n : ℕ) → length (big_endian k n) ≡ k
unfolding big_endian
length-big_endian zero n = refl
length-big_endian (suc k) n =
    omega
      (arith, length-append (big_endian k (n / 256)) (n % 256 ∷ []), length-big_endian k (n / 256))

from_onto-append :
    (acc : ℕ) (bs : List ℕ) (b : ℕ) → from_onto acc (bs ++ b ∷ []) ≡ from_onto acc bs * 256 + b
unfolding from_onto
from_onto-append acc [] b = refl
from_onto-append acc (x ∷ bs) b = from_onto-append (acc * 256 + x) bs b

-- A number that fits `k` bytes is read back.
pub from_big_endian-big_endian : (k n : ℕ) → n < 256 ^ k → from_big_endian (big_endian k n) ≡ n
unfolding from_big_endian big_endian
from_big_endian-big_endian zero n h = unfold from_onto in omega arith
from_big_endian-big_endian (suc k) n h =
    let fits : n < 256 ^ k * 256 = rw (pow-suc 256 k) at h in
    from_onto-append 0 (big_endian k (n / 256)) (n % 256)
    ∙ rw (from_big_endian-big_endian k (n / 256) (omega arith)) (omega arith)

bytes_run : utf8 "a€" ≡ 0x61 ∷ 0xE2 ∷ 0x82 ∷ 0xAC ∷ []
unfolding utf8
bytes_run = refl

hex_run : hex (0x0f ∷ 0xa0 ∷ []) ≡ "0fa0"
unfolding hex
hex_run = refl

-- The number of a hexadecimal digit of either case.
hex_value : ℕ → Option ℕ
hex_value n =
    if leb 48 n && leb n 57
    then some (n - 48)
    else if leb 97 n && leb n 102
    then some (n - 87)
    else if leb 65 n && leb n 70
    then some (n - 55)
    else none

join_byte : Option ℕ → Option ℕ → Option (List ℕ) → Option (List ℕ)
join_byte (some high) (some low) (some rest) = some ((high * 16 + low) ∷ rest)
join_byte _ _ _ = none

-- `hex.DecodeString`, none for its errors.
unfoldable pub unhex : String → Option (List ℕ)
unfolding hex_value join_byte
unhex String.[] = some []
unhex (String.◌∷◌ c String.[]) = none
unhex (String.◌∷◌ c (String.◌∷◌ d s)) =
    join_byte (hex_value (code c)) (hex_value (code d)) (unhex s)

hex_value-hex_digit : (n : ℕ) → n < 16 → hex_value (code (hex_digit n "0123456789abcdef")) ≡ some n
unfolding hex_value hex_digit
hex_value-hex_digit zero h = refl
hex_value-hex_digit (suc zero) h = refl
hex_value-hex_digit (suc (suc zero)) h = refl
hex_value-hex_digit (suc (suc (suc zero))) h = refl
hex_value-hex_digit (suc (suc (suc (suc zero)))) h = refl
hex_value-hex_digit (suc (suc (suc (suc (suc zero))))) h = refl
hex_value-hex_digit (suc (suc (suc (suc (suc (suc zero)))))) h = refl
hex_value-hex_digit (suc (suc (suc (suc (suc (suc (suc zero))))))) h = refl
hex_value-hex_digit (suc (suc (suc (suc (suc (suc (suc (suc n)))))))) h = upper n (omega arith)
  where
    upper :
        (n : ℕ)
        → n < 8
        → hex_value
            (code (hex_digit (suc (suc (suc (suc (suc (suc (suc (suc n)))))))) "0123456789abcdef"))
          ≡ some (suc (suc (suc (suc (suc (suc (suc (suc n))))))))
    upper zero h = refl
    upper (suc zero) h = refl
    upper (suc (suc zero)) h = refl
    upper (suc (suc (suc zero))) h = refl
    upper (suc (suc (suc (suc zero)))) h = refl
    upper (suc (suc (suc (suc (suc zero))))) h = refl
    upper (suc (suc (suc (suc (suc (suc zero)))))) h = refl
    upper (suc (suc (suc (suc (suc (suc (suc zero))))))) h = refl
    upper (suc (suc (suc (suc (suc (suc (suc (suc n)))))))) h = absurd (omega arith)

-- Bytes that are printed are read back.
pub unhex-hex : (bytes : List ℕ) → All (λ b. b < 256) bytes → unhex (hex bytes) ≡ some bytes
unfolding unhex hex join_byte
unhex-hex [] all = refl
unhex-hex (b ∷ bytes) (small, all) =
    rw
      (
        hex_value-hex_digit (b / 16) (omega arith),
        hex_value-hex_digit (b % 16) (omega arith),
        unhex-hex bytes all,
      )
      (ap (λ n. some (n ∷ bytes)) (omega arith))
