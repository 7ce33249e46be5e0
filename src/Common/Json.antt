-- ===== src/Common/Json.antt =====
-- `encoding/json` for an object whose values are texts, as `canonicaljson.Marshal` prints it:
-- compact, the fields in the order given, and Go's escapes (the HTML-safe ones included).
use Prim.Native.Char.{Char, code}
use Prim.Native.String.{◌++◌ as append}
use webhookery.Common.{
  ℕ, zero, suc, String, List, [], ◌∷◌, ◌==◌, nat_eq, if◌then◌else◌, ◌▸◌, ◌≡◌, refl, ltb, ◌/◌, ◌%◌,
}

hex_digit : ℕ → Char
hex_digit n = from "0123456789abcdef" n
  where
    from : String → ℕ → Char
    from String.[] k = "0"
    from (String.◌∷◌ c s) zero = c
    from (String.◌∷◌ c s) (suc k) = from s k

-- One character inside a JSON text, with `rest` behind it.
unfoldable pub json_char : Char → String → String
unfolding hex_digit
json_char c rest =
    let n = code c in
    if n == b'"'
    then append "\\\"" rest
    else if n == b'\\'
    then append "\\\\" rest
    else if n == 8
    then append "\\b" rest
    else if n == 12
    then append "\\f" rest
    else if n == 10
    then append "\\n" rest
    else if n == 13
    then append "\\r" rest
    else if n == 9
    then append "\\t" rest
    else if ltb n 32
    then append "\\u00" (hex_digit (n / 16) ▸ (hex_digit (n % 16) ▸ rest))
    else if n == b'<'
    then append "\\u003c" rest
    else if n == b'>'
    then append "\\u003e" rest
    else if n == b'&'
    then append "\\u0026" rest
    else if n == 0x2028
    then append "\\u2028" rest
    else if n == 0x2029
    then append "\\u2029" rest
    else c ▸ rest

json_body : String → String → String
unfolding json_char
json_body String.[] rest = rest
json_body (String.◌∷◌ c s) rest = json_char c (json_body s rest)

-- A quoted text with `rest` behind it.
json_text : String → String → String
unfolding json_body
json_text s rest = "\"" ▸ json_body s ("\"" ▸ rest)

json_fields : List (String × String) → String
unfolding json_text
json_fields [] = "}"
json_fields ((k, v) ∷ []) = json_text k (":" ▸ json_text v "}")
json_fields ((k, v) ∷ f ∷ fields) = json_text k (":" ▸ json_text v ("," ▸ json_fields (f ∷ fields)))

unfoldable pub json_object : List (String × String) → String
unfolding json_fields
json_object fields = "{" ▸ json_fields fields

json_object_runs :
    json_object (("a", "x\"<") ∷ ("b", "\n") ∷ []) ≡ "{\"a\":\"x\\\"\\u003c\",\"b\":\"\\n\"}"
unfolding json_object
json_object_runs = refl
