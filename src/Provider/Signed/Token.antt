-- ===== src/Provider/Signed/Token.antt =====
-- What an accepted token consists of (`GenericJWTAdapter` in internal/provider/provider.go).
use webhookery.Common.{
  ℕ, String, Bool, true, false, not, ◌&&◌, ◌||◌, List, [], ◌∷◌, Option, none, some, ◌==◌, string_eq,
  if◌then◌else◌, ◌≡◌, ◌≢◌, ◌↔◌, ◌⊎◌, refl, arith, eq_iff, Result, ◌>>=◌, split, trim_space,
}
use Prim.Native.String.{◌++◌ as append}
use webhookery.Common.Bytes.{utf8, hex}
use webhookery.Common.Int.{ℤ, pos, ltb_ℤ, leb_ℤ, eq_ℤ, eq_ℤ_iff, ◌+ℤ◌}
use webhookery.Provider.{VerifyInput, VerifyResult, Codec, result, equal_fold}
use webhookery.Provider.Builtin.{five_minutes}
use webhookery.Provider.Jwt.{
  unix_of, text_claim, decode_base64_url, jwt_numeric_claim, check_claims, decode_jwt_part,
  or_malformed, refuse_if, finish_token, jwt_claims, jwt_parts, token_of, generic_jwt_verify,
}
use webhookery.Provider.Signed.Rules.{WhenSome, missing_iff, blocked_iff}
use webhookery.Transform.Tree.{Fields, lookup}
use webhookery.Verifier.Verify.{same_bytes}
use webhookery.Verifier.Valid.{same_bytes_iff}

module _ (c : Codec) (input : VerifyInput) where
  abbrev claim : Fields → String → ℤ
  claim claims key = jwt_numeric_claim c claims key

  -- The token has an expiry, which lies ahead; it is valid by now and was not issued more than five
  -- minutes ahead, where it says so; and it is about this body.
  abbrev pub ClaimsHold : Fields → Type 0
  ClaimsHold claims =
      (claim claims "exp" ≢ pos 0)
      × (ltb_ℤ (unix_of input.now) (claim claims "exp") ≡ true)
      × ((claim claims "nbf" ≡ pos 0) ⊎ (leb_ℤ (claim claims "nbf") (unix_of input.now) ≡ true))
      × ((claim claims "iat" ≡ pos 0)
          ⊎ (leb_ℤ (claim claims "iat") (unix_of (input.now +ℤ five_minutes)) ≡ true))
      × (equal_fold (trim_space (text_claim (lookup "body_sha256" claims)))
            (hex (c.sha256 input.raw_body))
          ≡ true)

  times_iff :
      (exp nbf iat now later : ℤ) (about : Bool)
      → ((if eq_ℤ exp (pos 0)
            then result "generic-jwt" false "malformed_header"
            else if leb_ℤ exp now
            then result "generic-jwt" false "expired_timestamp"
            else if not (eq_ℤ nbf (pos 0)) && ltb_ℤ now nbf
            then result "generic-jwt" false "expired_timestamp"
            else if not (eq_ℤ iat (pos 0)) && ltb_ℤ later iat
            then result "generic-jwt" false "expired_timestamp"
            else if not about
            then result "generic-jwt" false "invalid_signature"
            else result "generic-jwt" true "ok").verified
          ≡ true)
        ↔ ((exp ≢ pos 0)
            × (ltb_ℤ now exp ≡ true)
            × ((nbf ≡ pos 0) ⊎ (leb_ℤ nbf now ≡ true))
            × ((iat ≡ pos 0) ⊎ (leb_ℤ iat later ≡ true))
            × (about ≡ true))
  unfolding result
  times_iff exp nbf iat now later about =
      ground (arith, eq_ℤ_iff exp (pos 0), eq_ℤ_iff nbf (pos 0), eq_ℤ_iff iat (pos 0))

  check_claims_iff :
      (claims : Fields) → ((check_claims c input claims).verified ≡ true) ↔ ClaimsHold claims
  unfolding check_claims
  check_claims_iff claims = times_iff _ _ _ _ _ _

  some_iff :
      {A : Type 0} (o : Option A) (next : A → Result VerifyResult Fields) {P : A → Type 0}
      → ((a : A) → ((finish_token c input (next a)).verified ≡ true) ↔ P a)
      → ((finish_token c input (or_malformed c o >>= next)).verified ≡ true) ↔ WhenSome o P
  unfolding or_malformed finish_token result
  some_iff none next p = (λ h. cc, λ x. absurd x)
  some_iff (some a) next p = p a

  unless_iff :
      (bad : Bool) (reason : String) (next : Unit {0} → Result VerifyResult Fields) {A B : Type 0}
      → (bad ≡ false) ↔ A
      → ((finish_token c input (next tt)).verified ≡ true) ↔ B
      → ((finish_token c input (refuse_if c bad reason >>= next)).verified ≡ true) ↔ (A × B)
  unfolding refuse_if finish_token result
  unless_iff true reason next a b = (λ h. cc, λ (x, y). cc (a.1 x))
  unless_iff false reason next a b = (λ h. (a.0 refl, b.0 h), λ (x, y). b.1 y)

  -- The bytes under the signature.
  abbrev pub token_code : String → String → List ℕ
  token_code header payload =
      c.primitives.mac input.secret (utf8 (append header (append "." payload)))

  abbrev pub ClaimsSigned : String → String → String → Type 0
  ClaimsSigned header payload signature =
      WhenSome (decode_jwt_part c c.decode_algorithm header) (λ algorithm.
        (algorithm ≡ "HS256")
        × WhenSome (decode_jwt_part c c.decode_map payload) (λ claims.
          WhenSome (decode_base64_url c signature)
            (λ code. (code ≡ token_code header payload) × ClaimsHold claims)))

  abbrev pub TokenSigned : List String → Type 0
  TokenSigned (header ∷ payload ∷ signature ∷ []) =
      ((header == "" || payload == "" || signature == "") ≡ false)
      × ClaimsSigned header payload signature
  TokenSigned _ = ⊥

  not_iff : (t : Bool) {A : Type 0} → (t ≡ true) ↔ A → (not t ≡ false) ↔ A
  not_iff true a = (λ h. a.0 refl, λ x. refl)
  not_iff false a = (λ h. a.0 (cc), λ x. cc (a.1 x))

  claims_iff :
      (header payload signature : String)
      → ((finish_token c input (jwt_claims c input header payload signature)).verified ≡ true)
        ↔ ClaimsSigned header payload signature
  unfolding jwt_claims
  claims_iff header payload signature = some_iff _ _ (λ algorithm.
      unless_iff _ "unsupported_algorithm" _
        (not_iff (algorithm == "HS256") (eq_iff algorithm "HS256"))
        (some_iff _ _ (λ claims. some_iff _ _ (λ code.
          unless_iff _ "invalid_signature" _
            (not_iff (same_bytes code (token_code header payload))
              (same_bytes_iff code (token_code header payload)))
            (unfold finish_token in check_claims_iff claims)))))

  parts_iff :
      (parts : List String) → ((jwt_parts c input parts).verified ≡ true) ↔ TokenSigned parts
  unfolding jwt_parts result
  parts_iff [] = (λ h. cc, λ x. absurd x)
  parts_iff (header ∷ []) = (λ h. cc, λ x. absurd x)
  parts_iff (header ∷ payload ∷ []) = (λ h. cc, λ x. absurd x)
  parts_iff (header ∷ payload ∷ signature ∷ []) =
      blocked_iff (header == "" || payload == "" || signature == "") "generic-jwt"
        "malformed_header" _ (λ h. h, λ h. h) (claims_iff header payload signature)
  parts_iff (header ∷ payload ∷ signature ∷ more ∷ rest) = (λ h. cc, λ x. absurd x)

  abbrev pub JwtSigned : Type 0
  JwtSigned = (token_of input.headers ≢ "") × TokenSigned (split "." (token_of input.headers))

  pub generic_jwt_iff : ((generic_jwt_verify c input).verified ≡ true) ↔ JwtSigned
  unfolding generic_jwt_verify
  generic_jwt_iff =
      missing_iff (token_of input.headers) "generic-jwt" "missing_signature" _
        (parts_iff (split "." (token_of input.headers)))
