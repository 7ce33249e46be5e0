-- ===== src/Provider/Declarative.antt =====
-- Adapters that a tenant defines (internal/provider/declarative.go): which definitions are accepted,
-- and how a webhook is verified by one. The name of an adapter in its results is in lower case.
use webhookery.Common.{
  ℕ, zero, suc, ◌*◌, ◌+◌, ◌-◌, String, Bool, true, false, not, ◌&&◌, ◌||◌, List, [], ◌∷◌, ◌++◌,
  Option, none, some, ◌==◌, string_eq, nat_eq, if◌then◌else◌, Result, ok, err, ◌>>=◌, to_lower,
  trim_space, trim_prefix, has_prefix, contains_text, ◌▸◌, is_nil, leb, join, ◌≡◌, refl,
}
use Prim.Native.Char.{code}
use webhookery.Common.Bytes.{utf8}
use webhookery.Common.Int.{ℤ, pos, negsuc, ltb_ℤ, ◌+ℤ◌, ◌-ℤ◌, wrap64}
use webhookery.Provider.{VerifyInput, VerifyResult, Codec, result, first_header}
use webhookery.Verifier.Verify.{
  time_of, nanoseconds, saturate, magnitude, verify_hmac_sha256_hex, verify_hmac_sha256_base64,
}

pub record DeclarativeVerification : Type 0 where
  pub type_name : String
  pub signature_header : String
  pub timestamp_header : String
  pub signed_payload : String
  pub encoding : String
  pub replay_window_seconds : ℤ
  pub signature_prefix : String

-- `Deduplication` and `Metadata` are left out: nothing reads them. Extractors are a map.
pub record DeclarativeDefinition : Type 0 where
  pub name : String
  pub version : String
  pub verification : DeclarativeVerification
  pub extractors : List (String × String)
  pub normalization_source : String
  pub normalization_subject : String
  pub normalization_data : String

unfoldable pub refuse_if : Bool → String → Result String (Unit {0})
refuse_if test reason = if test then err reason else ok tt

unfoldable pub template_of : DeclarativeVerification → String
template_of v =
    if trim_space v.signed_payload == "" then "{{raw_body}}" else trim_space v.signed_payload

unfoldable pub encoding_of : DeclarativeVerification → String
encoding_of v = to_lower (trim_space v.encoding)

abbrev pub is_template : String → Bool
is_template payload =
    payload == "{{raw_body}}"
    || payload == "{{timestamp}}.{{raw_body}}"
    || payload == "{{timestamp}}:{{raw_body}}"
    || payload == "v0:{{timestamp}}:{{raw_body}}"

abbrev pub is_encoding : String → Bool
is_encoding encoding = encoding == "" || encoding == "hex" || encoding == "base64"

unfoldable pub validate_declarative_definition : DeclarativeDefinition → Result String (Unit {0})
validate_declarative_definition def = do
  _ ← refuse_if (trim_space def.name == "") "name is required"
  _ ←
      refuse_if (not (to_lower (trim_space def.verification.type_name) == "hmac_sha256"))
        "only hmac_sha256 declarative verification is supported"
  _ ← refuse_if (trim_space def.verification.signature_header == "") "signature_header is required"
  _ ← refuse_if (not (is_encoding (encoding_of def.verification))) "unsupported signature encoding"
  _ ←
      refuse_if (not (is_template (template_of def.verification)))
        "unsupported signed_payload template"
  _ ←
      refuse_if
        (contains_text (template_of def.verification) "{{timestamp}}"
          && trim_space def.verification.timestamp_header == "")
        "timestamp_header is required by signed_payload"
  refuse_if
      (ltb_ℤ def.verification.replay_window_seconds (pos 0)
        || ltb_ℤ (pos 86400) def.verification.replay_window_seconds)
      "replay_window_seconds must be between 0 and 86400"

-- `ParseDeclarativeDefinition`; JSON decoding is the first argument.
unfoldable pub parse_declarative_definition :
    (List ℕ → Option DeclarativeDefinition) → List ℕ → Result String DeclarativeDefinition
parse_declarative_definition decode raw =
    if is_nil raw then err "definition is required" else elim (decode raw) [
      | none ↦ err "invalid JSON"
      | some def ↦ validate_declarative_definition def >>= (λ _. ok def)
    ]

-- `parseInt64`: decimal digits, with the wrap of an int64.
unfoldable pub read_digits : ℤ → String → Option ℤ
read_digits out String.[] = some out
read_digits out (String.◌∷◌ c s) =
    let next = read_digits (wrap64 (times_ten out +ℤ pos (code c - 48))) s in
    if leb 48 (code c) && leb (code c) 57 then next else none
  where
    times_ten : ℤ → ℤ
    times_ten (pos n) = pos (n * 10)
    times_ten (negsuc n) = negsuc (n * 10 + 9)

unfoldable pub parse_int64 : String → Option ℤ
parse_int64 raw = if raw == "" then none else read_digits (pos 0) raw

-- `strings.Split` at a text that is not empty; the number counts what is left of a separator.
unfoldable pub split_from : String → ℕ → ℕ → String → List String
split_from sep size skip String.[] = "" ∷ []
split_from sep size (suc skip) (String.◌∷◌ c s) = split_from sep size skip s
split_from sep size zero (String.◌∷◌ c s) = elim (has_prefix (c ▸ s) sep) [
  | true ↦ "" ∷ split_from sep size (size - 1) s
  | false ↦ elim (split_from sep size zero s) [
    | [] ↦ (c ▸ "") ∷ []
    | piece ∷ pieces ↦ (c ▸ piece) ∷ pieces
  ]
]

-- The pieces of a template around a body, as bytes.
unfoldable pub around : List ℕ → List String → List ℕ
around raw_body [] = []
around raw_body (piece ∷ []) = utf8 piece
around raw_body (piece ∷ next ∷ pieces) =
    utf8 piece ++ (raw_body ++ around raw_body (next ∷ pieces))

-- The template with the timestamp in it, and then the body.
unfoldable pub fill : String → String → List ℕ → List ℕ
fill template timestamp raw_body =
    around raw_body
      (split_from "{{raw_body}}" 12 0 (join timestamp (split_from "{{timestamp}}" 13 0 template)))

module _ (c : Codec) where
  unfoldable pub parse_declarative_timestamp : String → Option ℤ
  parse_declarative_timestamp raw = elim (parse_int64 (trim_space raw)) [
    | some unix ↦ some (time_of unix)
    | none ↦ c.parse_rfc3339 (trim_space raw)
  ]

  unfoldable pub is_stale : ℤ → ℤ → ℤ → Bool
  is_stale now ts seconds =
      let window = wrap64 (nanoseconds seconds) in
      ltb_ℤ (pos 0) window && ltb_ℤ window (magnitude (saturate (now -ℤ ts)))

  -- The signature behind its prefix, none when the prefix is missing.
  unfoldable pub signature_of : DeclarativeVerification → String → Option String
  signature_of v header =
      let signature = trim_space header in
      let prefix = trim_space v.signature_prefix in
      if not (prefix == "")
      then if not (has_prefix signature prefix) then none else some (trim_prefix signature prefix)
      else some (trim_prefix signature "sha256=")

  -- The template of a webhook whose timestamp was read.
  unfoldable pub stamped :
      DeclarativeVerification → VerifyInput → String → Option ℤ → Result String (List ℕ)
  stamped v input ts_header none = err "malformed_header"
  stamped v input ts_header (some ts) =
      if is_stale input.now ts v.replay_window_seconds
      then err "expired_timestamp"
      else ok (fill (template_of v) (trim_space ts_header) input.raw_body)

  -- The bytes that are signed, or why there are none.
  unfoldable pub payload_of : DeclarativeVerification → VerifyInput → Result String (List ℕ)
  payload_of v input =
      let ts_header = first_header input.headers v.timestamp_header in
      if not (contains_text (template_of v) "{{timestamp}}")
      then ok input.raw_body
      else if ts_header == ""
      then err "missing_signature"
      else stamped v input ts_header (parse_declarative_timestamp ts_header)

  unfoldable pub judge : String → Bool → VerifyResult
  judge name good =
      if not good then result name false "invalid_signature" else result name true "ok"

  unfoldable pub check_payload :
      DeclarativeVerification → String → VerifyInput → String → List ℕ → VerifyResult
  check_payload v name input signature payload =
      if encoding_of v == "" || encoding_of v == "hex"
      then judge name (verify_hmac_sha256_hex c.primitives input.secret payload signature)
      else if encoding_of v == "base64"
      then judge name (verify_hmac_sha256_base64 c.primitives input.secret payload signature)
      else result name false "unsupported_algorithm"

  unfoldable pub check_result :
      DeclarativeVerification
      → String
      → VerifyInput
      → String
      → Result String (List ℕ)
      → VerifyResult
  check_result v name input signature (err reason) = result name false reason
  check_result v name input signature (ok payload) = check_payload v name input signature payload

  unfoldable pub check_signature :
      DeclarativeVerification → String → VerifyInput → Option String → VerifyResult
  check_signature v name input none = result name false "malformed_header"
  check_signature v name input (some signature) =
      check_result v name input signature (payload_of v input)

  unfoldable pub declarative_verify : DeclarativeDefinition → VerifyInput → VerifyResult
  declarative_verify def input =
      let name = to_lower def.name in
      let header = first_header input.headers def.verification.signature_header in
      if header == ""
      then result name false "missing_signature"
      else check_signature def.verification name input (signature_of def.verification header)

fill_runs : fill "v0:{{timestamp}}:{{raw_body}}" "17" (1 ∷ 2 ∷ []) ≡ utf8 "v0:17:" ++ (1 ∷ 2 ∷ [])
unfolding fill around split_from join has_prefix utf8
fill_runs = refl
