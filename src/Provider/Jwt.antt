-- ===== src/Provider/Jwt.antt =====
-- `GenericJWTAdapter` in internal/provider/provider.go.
use webhookery.Common.{
  ℕ, ◌/◌, String, Bool, true, false, not, ◌&&◌, ◌||◌, List, [], ◌∷◌, Option, none, some, ◌==◌,
  string_eq, nat_eq, if◌then◌else◌, Result, ok, err, ◌>>=◌, trim_space, split, ◌▸◌,
}
use Prim.Native.Char.{code}
use Prim.Native.String.{◌++◌ as append}
use webhookery.Common.Bytes.{utf8, hex}
use webhookery.Common.Int.{ℤ, pos, negsuc, ltb_ℤ, leb_ℤ, eq_ℤ, ◌+ℤ◌}
use webhookery.Provider.{
  VerifyInput, VerifyResult, Codec, Headers, result, first_header, equal_fold,
}
use webhookery.Provider.Builtin.{five_minutes}
use webhookery.Transform.Tree.{Json, Fields, lookup, number, text}
use webhookery.Verifier.Verify.{same_bytes}

-- `strings.Cut` at a space.
unfoldable pub cut_space : String → Option (String × String)
cut_space String.[] = none
cut_space (String.◌∷◌ c s) =
    let rest = cut_space s in
    if code c == 32 then some ("", s) else elim rest as (λ o. Option (String × String)) [
      | none ↦ none
      | some (head, tail) ↦ some (c ▸ head, tail)
    ]

unfoldable pub bearer_token : String → String
bearer_token header = elim (cut_space (trim_space header)) [
  | none ↦ ""
  | some (prefix, token) ↦ if not (equal_fold prefix "Bearer") then "" else trim_space token
]

-- `time.Time.Unix` of nanoseconds since 1970, rounded down.
unfoldable pub unix_of : ℤ → ℤ
unix_of (pos n) = pos (n / 1_000_000_000)
unix_of (negsuc n) = negsuc (n / 1_000_000_000)

unfoldable pub text_claim : Option Json → String
text_claim (some (text s)) = s
text_claim _ = ""

unfoldable pub token_of : Headers → String
token_of headers =
    let bearer = bearer_token (first_header headers "authorization") in
    if bearer == "" then trim_space (first_header headers "webhook-jwt") else bearer

module _ (c : Codec) where
  unfoldable pub decode_base64_url : String → Option (List ℕ)
  decode_base64_url value = elim (c.base64_raw_url value) [
    | some raw ↦ some raw
    | none ↦ c.base64_url value
  ]

  unfoldable pub jwt_numeric_claim : Fields → String → ℤ
  jwt_numeric_claim claims key = elim (lookup key claims) [
    | some (number n) ↦ c.int64_of n
    | _ ↦ pos 0
  ]

  -- The times and the body of a token whose signature holds.
  unfoldable pub check_claims : VerifyInput → Fields → VerifyResult
  check_claims input claims =
      let exp = jwt_numeric_claim claims "exp" in
      let nbf = jwt_numeric_claim claims "nbf" in
      let iat = jwt_numeric_claim claims "iat" in
      if eq_ℤ exp (pos 0)
      then result "generic-jwt" false "malformed_header"
      else if leb_ℤ exp (unix_of input.now)
      then result "generic-jwt" false "expired_timestamp"
      else if not (eq_ℤ nbf (pos 0)) && ltb_ℤ (unix_of input.now) nbf
      then result "generic-jwt" false "expired_timestamp"
      else if not (eq_ℤ iat (pos 0)) && ltb_ℤ (unix_of (input.now +ℤ five_minutes)) iat
      then result "generic-jwt" false "expired_timestamp"
      else if not (
          equal_fold (trim_space (text_claim (lookup "body_sha256" claims)))
            (hex (c.sha256 input.raw_body)))
      then result "generic-jwt" false "invalid_signature"
      else result "generic-jwt" true "ok"

  -- `decodeJWTPart`
  unfoldable pub decode_jwt_part : {A : Type 0} → (List ℕ → Option A) → String → Option A
  decode_jwt_part decode part = elim (decode_base64_url part) [
    | none ↦ none
    | some raw ↦ decode raw
  ]

  unfoldable pub or_malformed : {A : Type 0} → Option A → Result VerifyResult A
  or_malformed none = err (result "generic-jwt" false "malformed_header")
  or_malformed (some a) = ok a

  unfoldable pub refuse_if : Bool → String → Result VerifyResult (Unit {0})
  refuse_if test reason = if test then err (result "generic-jwt" false reason) else ok tt

  unfoldable pub jwt_claims : VerifyInput → String → String → String → Result VerifyResult Fields
  jwt_claims input header payload signature = do
    algorithm ← or_malformed (decode_jwt_part c.decode_algorithm header)
    _ ← refuse_if (not (algorithm == "HS256")) "unsupported_algorithm"
    claims ← or_malformed (decode_jwt_part c.decode_map payload)
    code ← or_malformed (decode_base64_url signature)
    _ ←
        refuse_if
          (not (
            same_bytes code
              (c.primitives.mac input.secret (utf8 (append header (append "." payload))))))
          "invalid_signature"
    ok claims

  unfoldable pub finish_token : VerifyInput → Result VerifyResult Fields → VerifyResult
  finish_token input (err refused) = refused
  finish_token input (ok claims) = check_claims input claims

  unfoldable pub jwt_parts : VerifyInput → List String → VerifyResult
  jwt_parts input (header ∷ payload ∷ signature ∷ []) =
      if header == "" || payload == "" || signature == ""
      then result "generic-jwt" false "malformed_header"
      else finish_token input (jwt_claims input header payload signature)
  jwt_parts input _ = result "generic-jwt" false "malformed_header"

  unfoldable pub generic_jwt_verify : VerifyInput → VerifyResult
  generic_jwt_verify input =
      let token = token_of input.headers in
      if token == ""
      then result "generic-jwt" false "missing_signature"
      else jwt_parts input (split "." token)
