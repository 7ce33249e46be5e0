-- ===== src/Provider.antt =====
-- internal/provider: who signed a webhook, by the rules of its provider. JSON decoding, base64, HMAC,
-- SHA-256 and RFC 3339 are parameters; the time of a verification is never the zero time.
pub mod Builtin
pub mod Jwt
pub mod Declarative
pub mod Extract
pub mod Registry
pub mod Signed
use webhookery.Common.{
  ℕ, String, Bool, true, false, List, [], ◌∷◌, ◌++◌, Option, none, some, ◌==◌, string_eq,
  if◌then◌else◌, to_lower, ◌&&◌, not, is_nil,
}
use webhookery.Common.Int.{ℤ}
use webhookery.Transform.Tree.{Json, Fields}
use webhookery.Verifier.Verify.{Primitives}

-- `map[string][]string` as the list of its entries.
abbrev pub Headers : Type 0
Headers = List (String × List String)

pub record VerifyInput : Type 0 where
  pub raw_body : List ℕ
  pub headers : Headers
  pub secret : List ℕ
  pub now : ℤ

-- `Timestamp` is left out: nothing reads it.
pub record VerifyResult : Type 0 where
  pub verified : Bool
  pub reason : String
  pub provider : String

pub record Codec : Type 0 where
  pub primitives : Primitives
  pub sha256 : List ℕ → List ℕ
  pub base64_raw_url : String → Option (List ℕ)
  pub base64_url : String → Option (List ℕ)
  -- `json.Unmarshal` into a map, into the header of a token (its algorithm) and into an envelope
  -- (specversion, id, type and source).
  pub decode_map : List ℕ → Option Fields
  pub decode_algorithm : List ℕ → Option String
  pub decode_envelope : List ℕ → Option (String × String × String × String)
  -- A float64 by its text, as an int64 and as `%.0f` prints it.
  pub int64_of : String → ℤ
  pub print_float : String → String
  -- `fmt.Sprint` of a JSON value that is no text, number or null.
  pub sprint : Json → String
  -- `time.Parse` of RFC 3339, in nanoseconds since 1970.
  pub parse_rfc3339 : String → Option ℤ

unfoldable pub result : String → Bool → String → VerifyResult
result provider verified reason = record {
  verified = verified;
  reason = reason;
  provider = provider;
}

-- The first value of the first entry with that name that has one.
unfoldable pub header_from : String → Headers → String
header_from name [] = ""
header_from name ((key, []) ∷ rest) = header_from name rest
header_from name ((key, value ∷ values) ∷ rest) =
    if to_lower key == name then value else header_from name rest

unfoldable pub first_header : Headers → String → String
first_header headers name = header_from (to_lower name) headers

-- `strings.EqualFold` of ASCII texts.
unfoldable pub equal_fold : String → String → Bool
equal_fold s t = to_lower s == to_lower t
