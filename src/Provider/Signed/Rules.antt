-- ===== src/Provider/Signed/Rules.antt =====
-- One check of an adapter, and the adapters of internal/provider/provider.go that read headers.
use webhookery.Common.{
  ℕ, String, Bool, true, false, not, ◌||◌, List, Option, none, some, ◌==◌, string_eq, if◌then◌else◌,
  ◌≡◌, ◌≢◌, ◌↔◌, refl, inl, inr, arith, Bool-cases, eq_iff, cut_prefix, trim_prefix,
}
use webhookery.Common.Bytes.{unhex}
use webhookery.Common.Int.{ℤ, ltb_ℤ, ◌-ℤ◌}
use webhookery.Provider.{VerifyInput, VerifyResult, Codec, result, first_header}
use webhookery.Provider.Builtin.{
  five_minutes, stripe_input, slack_payload, stripe_verify, github_check, github_verify,
  shopify_verify, slack_check, slack_at, slack_verify, generic_hmac_verify, cloud_events_body,
  cloud_events_verify,
}
use webhookery.Verifier.Verify.{parse_int, time_of, age_of, is_expired}
use webhookery.Verifier.Valid.{
  IsSound, IsFresh, IsSigned, is_expired_iff, hex_iff, base64_iff, verify_timestamped_hmac_iff,
}

abbrev pub WhenSome {ℓ} : {A : Type ℓ} → Option A → (A → Type 0) → Type 0
WhenSome none P = ⊥
WhenSome (some a) P = P a

pub missing_iff :
    (header name reason : String) (next : VerifyResult) {A : Type 0}
    → (next.verified ≡ true) ↔ A
    → ((if header == "" then result name false reason else next).verified ≡ true)
      ↔ ((header ≢ "") × A)
unfolding result
missing_iff header name reason next a = elim (Bool-cases (header == "")) [
  | inl empty ↦ rw empty (λ h. cc, λ (given, x). absurd (given ((eq_iff header "").0 empty)))
  | inr full ↦ rw full (λ h. (λ e. apart full ((eq_iff header "").1 e), a.0 h), λ (given, x). a.1 x)
]
  where
    apart : {t : Bool} → t ≡ false → t ≡ true → ⊥
    apart f t = cc

pub refused_iff :
    (good : Bool) (name reason : String) {A : Type 0}
    → (good ≡ true) ↔ A
    → ((if not good then result name false reason else result name true "ok").verified ≡ true) ↔ A
unfolding result
refused_iff true name reason a = (λ h. a.0 refl, λ x. refl)
refused_iff false name reason a = (λ h. a.0 (cc), λ x. cc (a.1 x))

-- A test that refuses, in front of the rest.
pub blocked_iff :
    (bad : Bool) (name reason : String) (next : VerifyResult) {A B : Type 0}
    → (bad ≡ false) ↔ A
    → (next.verified ≡ true) ↔ B
    → ((if bad then result name false reason else next).verified ≡ true) ↔ (A × B)
unfolding result
blocked_iff true name reason next a b = (λ h. cc, λ (x, y). cc (a.1 x))
blocked_iff false name reason next a b = (λ h. (a.0 refl, b.0 h), λ (x, y). b.1 y)

module _ (c : Codec) (sound : IsSound c.primitives) (input : VerifyInput) where
  abbrev code : List ℕ → List ℕ
  code payload = c.primitives.mac input.secret payload

  abbrev header : String → String
  header name = first_header input.headers name

  abbrev pub StripeSigned : Type 0
  StripeSigned =
      (header "stripe-signature" ≢ "")
      × IsSigned c.primitives sound (stripe_input input (header "stripe-signature"))

  abbrev pub GithubSigned : Type 0
  GithubSigned =
      (header "x-hub-signature-256" ≢ "")
      × WhenSome (cut_prefix (header "x-hub-signature-256") "sha256=")
          (λ signature. unhex signature ≡ some (code input.raw_body))

  abbrev pub ShopifySigned : Type 0
  ShopifySigned =
      (header "x-shopify-hmac-sha256" ≢ "")
      × (c.primitives.unbase64 (header "x-shopify-hmac-sha256") ≡ some (code input.raw_body))

  abbrev pub SlackSigned : Type 0
  SlackSigned =
      ((header "x-slack-request-timestamp" == "" || header "x-slack-signature" == "") ≡ false)
      × WhenSome (parse_int (header "x-slack-request-timestamp")) (λ unix.
        IsFresh five_minutes (input.now -ℤ time_of unix)
        × WhenSome (cut_prefix (header "x-slack-signature") "v0=")
            (λ signature. unhex signature ≡ some (code (slack_payload unix input.raw_body))))

  abbrev pub GenericSigned : Type 0
  GenericSigned =
      (header "webhook-signature" ≢ "")
      × (unhex (trim_prefix (header "webhook-signature") "sha256=") ≡ some (code input.raw_body))

  pub stripe_iff : ((stripe_verify c input).verified ≡ true) ↔ StripeSigned
  unfolding stripe_verify
  stripe_iff =
      missing_iff (header "stripe-signature") "stripe" "missing_signature" _
        (unfold result in verify_timestamped_hmac_iff c.primitives sound _ (omega arith))

  github_check_iff :
      (signature : Option String)
      → ((github_check c input signature).verified ≡ true)
        ↔ WhenSome signature (λ s. unhex s ≡ some (code input.raw_body))
  unfolding github_check result
  github_check_iff none = (λ h. cc, λ x. absurd x)
  github_check_iff (some s) =
      refused_iff _ "github" "invalid_signature"
        (hex_iff c.primitives sound input.secret input.raw_body s)

  pub github_iff : ((github_verify c input).verified ≡ true) ↔ GithubSigned
  unfolding github_verify
  github_iff =
      missing_iff (header "x-hub-signature-256") "github" "missing_signature" _ (github_check_iff _)

  pub shopify_iff : ((shopify_verify c input).verified ≡ true) ↔ ShopifySigned
  unfolding shopify_verify
  shopify_iff =
      missing_iff (header "x-shopify-hmac-sha256") "shopify" "missing_signature" _
        (refused_iff _ _ _ (base64_iff c.primitives sound input.secret input.raw_body _))

  slack_check_iff :
      (unix : ℤ) (signature : Option String)
      → ((slack_check c input unix signature).verified ≡ true)
        ↔ WhenSome signature (λ s. unhex s ≡ some (code (slack_payload unix input.raw_body)))
  unfolding slack_check result
  slack_check_iff unix none = (λ h. cc, λ x. absurd x)
  slack_check_iff unix (some s) =
      refused_iff _ "slack" "invalid_signature"
        (hex_iff c.primitives sound input.secret (slack_payload unix input.raw_body) s)

  fresh_iff :
      (unix : ℤ)
      → (ltb_ℤ five_minutes (age_of input.now unix) ≡ false)
        ↔ IsFresh five_minutes (input.now -ℤ time_of unix)
  unfolding age_of
  fresh_iff unix =
      unfold is_expired in is_expired_iff five_minutes (input.now -ℤ time_of unix) (omega arith)

  slack_at_iff :
      (signature : String) (unix : Option ℤ)
      → ((slack_at c input signature unix).verified ≡ true)
        ↔ WhenSome unix (λ u.
          IsFresh five_minutes (input.now -ℤ time_of u)
          × WhenSome
              (cut_prefix signature "v0=")
              (λ s. unhex s ≡ some (code (slack_payload u input.raw_body))))
  unfolding slack_at result
  slack_at_iff signature none = (λ h. cc, λ x. absurd x)
  slack_at_iff signature (some u) =
      blocked_iff _ "slack" "expired_timestamp" _ (fresh_iff u)
        (slack_check_iff u (cut_prefix signature "v0="))

  pub slack_iff : ((slack_verify c input).verified ≡ true) ↔ SlackSigned
  unfolding slack_verify
  slack_iff =
      blocked_iff (header "x-slack-request-timestamp" == "" || header "x-slack-signature" == "")
        "slack" "missing_signature" _ (λ h. h, λ h. h)
        (slack_at_iff (header "x-slack-signature") (parse_int (header "x-slack-request-timestamp")))

  pub generic_hmac_iff : ((generic_hmac_verify c input).verified ≡ true) ↔ GenericSigned
  unfolding generic_hmac_verify
  generic_hmac_iff =
      missing_iff (header "webhook-signature") "generic-hmac" "missing_signature" _
        (refused_iff _ _ _ (hex_iff c.primitives sound input.secret input.raw_body _))

  body_unsigned :
      (envelope : Option (String × String × String × String))
      → (cloud_events_body c envelope).verified ≡ false
  unfolding cloud_events_body result
  body_unsigned none = refl
  body_unsigned (some (specversion, id, type_name, source)) = ground arith

  pub cloud_events_unsigned : (cloud_events_verify c input).verified ≡ false
  unfolding cloud_events_verify result
  cloud_events_unsigned = ground (arith, body_unsigned (c.decode_envelope input.raw_body))
