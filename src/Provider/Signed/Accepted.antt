-- ===== src/Provider/Signed/Accepted.antt =====
-- When an adapter accepts a webhook (internal/provider/provider.go and internal/provider/declarative.go).
use webhookery.Common.{
  ℕ, String, Bool, true, false, ◌||◌, List, Option, none, some, ◌==◌, string_eq, if◌then◌else◌, ◌≡◌,
  ◌≢◌, ◌↔◌, ◌⊎◌, refl, inl, inr, arith, Bool-cases, eq_iff, Result, ok, err, contains_text,
  trim_space, to_lower,
}
use webhookery.Common.Int.{ℤ}
use webhookery.Common.Bytes.{unhex}
use webhookery.Provider.{VerifyInput, Codec, result, first_header}
use webhookery.Provider.Declarative.{
  DeclarativeVerification, DeclarativeDefinition, template_of, encoding_of, fill,
  parse_declarative_timestamp, is_stale, signature_of, stamped, payload_of, judge, check_payload,
  check_result, check_signature, declarative_verify,
}
use webhookery.Provider.Registry.{
  Adapter, stripe, github, shopify, slack, generic_hmac, generic_jwt, cloudevents, internal,
  generic_unsafe, declarative, verify,
}
use webhookery.Provider.Signed.Rules.{
  WhenSome, missing_iff, StripeSigned, GithubSigned, ShopifySigned, SlackSigned, GenericSigned,
  stripe_iff, github_iff, shopify_iff, slack_iff, generic_hmac_iff, cloud_events_unsigned,
}
use webhookery.Provider.Signed.Token.{JwtSigned, generic_jwt_iff}
use webhookery.Verifier.Verify.{verify_hmac_sha256_hex, verify_hmac_sha256_base64}
use webhookery.Verifier.Valid.{IsSound, hex_iff, base64_iff, choice_iff}

module _ (c : Codec) (sound : IsSound c.primitives) (input : VerifyInput) where
  -- The bytes that a definition has signed: the body alone, or its template with the timestamp, which
  -- is a time inside the replay window, and the body in it.
  abbrev pub Payload : DeclarativeVerification → (List ℕ → Type 0) → Type 0
  Payload v P =
      (contains_text (template_of v) "{{timestamp}}" ≡ false) × P input.raw_body
      ⊎ (contains_text (template_of v) "{{timestamp}}" ≡ true)
        × (first_header input.headers v.timestamp_header ≢ "")
        × WhenSome (parse_declarative_timestamp c (first_header input.headers v.timestamp_header))
            (λ ts.
              (is_stale c input.now ts v.replay_window_seconds ≡ false)
              × P (
                  fill (template_of v) (trim_space (first_header input.headers v.timestamp_header))
                    input.raw_body))

  abbrev pub Coded : DeclarativeVerification → String → List ℕ → Type 0
  Coded v signature payload =
      ((encoding_of v ≡ "") ⊎ (encoding_of v ≡ "hex"))
        × (unhex signature ≡ some (c.primitives.mac input.secret payload))
      ⊎ (encoding_of v ≡ "base64")
        × (c.primitives.unbase64 signature ≡ some (c.primitives.mac input.secret payload))

  abbrev pub DefinitionSigned : DeclarativeDefinition → Type 0
  DefinitionSigned def =
      (first_header input.headers def.verification.signature_header ≢ "")
      × WhenSome
          (signature_of c def.verification
            (first_header input.headers def.verification.signature_header))
          (λ signature. Payload def.verification (Coded def.verification signature))

  abbrev pub Signed : Adapter → Type 0
  Signed stripe = StripeSigned c sound input
  Signed github = GithubSigned c sound input
  Signed shopify = ShopifySigned c sound input
  Signed slack = SlackSigned c sound input
  Signed generic_hmac = GenericSigned c sound input
  Signed generic_jwt = JwtSigned c input
  Signed cloudevents = ⊥
  Signed internal = Unit
  Signed generic_unsafe = ⊥
  Signed (declarative def) = DefinitionSigned def

  judged : (name : String) (good : Bool) → (judge c name good).verified ≡ good
  unfolding judge result
  judged name true = refl
  judged name false = refl

  check_payload_lem :
      (v : DeclarativeVerification) (name signature : String) (payload : List ℕ)
      → (check_payload c v name input signature payload).verified ≡ (
          if encoding_of v == "" || encoding_of v == "hex"
          then verify_hmac_sha256_hex c.primitives input.secret payload signature
          else if encoding_of v == "base64"
          then verify_hmac_sha256_base64 c.primitives input.secret payload signature
          else false)
  unfolding check_payload result
  check_payload_lem v name signature payload = ground (
    arith,
    judged name (verify_hmac_sha256_hex c.primitives input.secret payload signature),
    judged name (verify_hmac_sha256_base64 c.primitives input.secret payload signature),
  )

  check_payload_iff :
      (v : DeclarativeVerification) (name signature : String) (payload : List ℕ)
      → ((check_payload c v name input signature payload).verified ≡ true)
        ↔ Coded v signature payload
  check_payload_iff v name signature payload = rw (check_payload_lem v name signature payload) (
      choice_iff c.primitives sound (encoding_of v) _ _
        (hex_iff c.primitives sound input.secret payload signature)
        (base64_iff c.primitives sound input.secret payload signature))

  module _ (v : DeclarativeVerification) (name signature : String) where
    abbrev checked : Result String (List ℕ) → Bool
    checked payload = (check_result c v name input signature payload).verified

    abbrev ts_header : String
    ts_header = first_header input.headers v.timestamp_header

    checked_ok : (payload : List ℕ) → (checked (ok payload) ≡ true) ↔ Coded v signature payload
    unfolding check_result
    checked_ok payload = check_payload_iff v name signature payload

    checked_err : (reason : String) → checked (err reason) ≡ false
    unfolding check_result result
    checked_err reason = refl

    stamped_iff :
        (ts : Option ℤ)
        → (checked (stamped c v input ts_header ts) ≡ true)
          ↔ WhenSome ts (λ t.
            (is_stale c input.now t v.replay_window_seconds ≡ false)
            × Coded v signature (fill (template_of v) (trim_space ts_header) input.raw_body))
    unfolding stamped
    stamped_iff none = (λ h. cc (checked_err "malformed_header"), λ x. absurd x)
    stamped_iff (some t) = elim (Bool-cases (is_stale c input.now t v.replay_window_seconds)) [
      | inl stale ↦ rw stale (λ h. cc (checked_err "expired_timestamp"), λ (x, y). cc)
      | inr fresh ↦ rw fresh (λ h. (refl, (checked_ok _).0 h), λ (x, y). (checked_ok _).1 y)
    ]

    payload_iff : (checked (payload_of c v input) ≡ true) ↔ Payload v (Coded v signature)
    unfolding payload_of
    payload_iff = elim (Bool-cases (contains_text (template_of v) "{{timestamp}}")) [
      | inr plain ↦ rw plain (
        λ h. inl (refl, (checked_ok input.raw_body).0 h),
        λ h. elim h [ inl (x, y) ↦ (checked_ok input.raw_body).1 y | inr (x, y, z) ↦ cc ],
      )
      | inl dated ↦ rw dated (elim (Bool-cases (ts_header == "")) [
        | inl empty ↦ rw empty (
          λ h. cc (checked_err "missing_signature"),
          λ h. elim h [
            | inl (x, y) ↦ cc
            | inr (x, y, z) ↦ absurd (y ((eq_iff ts_header "").0 empty))
          ],
        )
        | inr given ↦ rw given (
          λ h.
              inr (
                refl,
                not_empty given,
                (stamped_iff (parse_declarative_timestamp c ts_header)).0 h,
              ),
          λ h. elim h [
            | inl (x, y) ↦ cc
            | inr (x, y, z) ↦ (stamped_iff (parse_declarative_timestamp c ts_header)).1 z
          ],
        )
      ])
    ]
      where
        not_empty : (ts_header == "") ≡ false → ts_header ≢ ""
        not_empty given e = let same = (eq_iff ts_header "").1 e in cc

  signature_iff :
      (v : DeclarativeVerification) (name : String) (signature : Option String)
      → ((check_signature c v name input signature).verified ≡ true)
        ↔ WhenSome signature (λ s. Payload v (Coded v s))
  unfolding check_signature result
  signature_iff v name none = (λ h. cc, λ x. absurd x)
  signature_iff v name (some s) = payload_iff v name s

  declarative_iff :
      (def : DeclarativeDefinition)
      → ((declarative_verify c def input).verified ≡ true) ↔ DefinitionSigned def
  unfolding declarative_verify
  declarative_iff def =
      missing_iff (first_header input.headers def.verification.signature_header) (to_lower def.name)
        "missing_signature" _ (signature_iff def.verification (to_lower def.name) _)

  -- An adapter verifies a webhook exactly when it is signed as the adapter's provider signs: by the
  -- HMAC-SHA-256 of the secret over the body (GitHub, Shopify, generic), over the timestamp and the
  -- body under a fresh timestamp (Stripe, Slack), over the first two parts of a token that is
  -- timely and names the digest of the body (JWT), or over the payload of a definition. CloudEvents
  -- and unsafe sources never verify, and internal ones always do. HMAC returns bytes and base64
  -- decodes what it encodes.
  pub verify_iff : (adapter : Adapter) → ((verify c adapter input).verified ≡ true) ↔ Signed adapter
  unfolding verify
  verify_iff stripe = stripe_iff c sound input
  verify_iff github = github_iff c sound input
  verify_iff shopify = shopify_iff c sound input
  verify_iff slack = slack_iff c sound input
  verify_iff generic_hmac = generic_hmac_iff c sound input
  verify_iff generic_jwt = generic_jwt_iff c input
  verify_iff cloudevents = (λ h. cc (cloud_events_unsigned c sound input), λ x. absurd x)
  verify_iff internal = unfold result in (λ h. tt, λ x. refl)
  verify_iff generic_unsafe = unfold result in (λ h. cc, λ x. absurd x)
  verify_iff (declarative def) = declarative_iff def
