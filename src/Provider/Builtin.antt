-- ===== src/Provider/Builtin.antt =====
-- The adapters of internal/provider/provider.go that check a header against the body.
use webhookery.Common.{
  ℕ, String, true, false, not, ◌&&◌, ◌||◌, List, ◌++◌, Option, none, some, ◌==◌, string_eq,
  if◌then◌else◌, to_lower, cut_prefix, trim_prefix, has_prefix,
}
use webhookery.Common.Bytes.{utf8}
use webhookery.Common.Decimal.{itoa_ℤ}
use webhookery.Common.Int.{ℤ, pos, ltb_ℤ}
use webhookery.Provider.{VerifyInput, VerifyResult, Codec, result, first_header}
use webhookery.Verifier.Verify.{
  VerifyTimestampedHmacInput, parse_int, age_of, verify_hmac_sha256_hex, verify_hmac_sha256_base64,
  verify_timestamped_hmac,
}

-- Five minutes, in nanoseconds.
abbrev pub five_minutes : ℤ
five_minutes = pos 300_000_000_000

abbrev pub stripe_input : VerifyInput → String → VerifyTimestampedHmacInput
stripe_input input header = record {
  secret = input.secret;
  raw_body = input.raw_body;
  header = header;
  now = input.now;
  tolerance = five_minutes;
  expected_version = "v1";
  encoding = "hex";
}

-- The bytes that Slack signs: `v0:%d:%s` of the seconds and the body.
unfoldable pub slack_payload : ℤ → List ℕ → List ℕ
slack_payload unix raw_body = utf8 "v0:" ++ (utf8 (itoa_ℤ unix) ++ (utf8 ":" ++ raw_body))

module _ (c : Codec) where
  unfoldable pub stripe_verify : VerifyInput → VerifyResult
  stripe_verify input =
      let header = first_header input.headers "stripe-signature" in
      let res = verify_timestamped_hmac c.primitives (stripe_input input header) in
      if header == ""
      then result "stripe" false "missing_signature"
      else result "stripe" res.valid res.reason

  unfoldable pub github_check : VerifyInput → Option String → VerifyResult
  github_check input none = result "github" false "malformed_header"
  github_check input (some signature) =
      if not (verify_hmac_sha256_hex c.primitives input.secret input.raw_body signature)
      then result "github" false "invalid_signature"
      else result "github" true "ok"

  unfoldable pub github_verify : VerifyInput → VerifyResult
  github_verify input =
      let header = first_header input.headers "x-hub-signature-256" in
      if header == ""
      then result "github" false "missing_signature"
      else github_check input (cut_prefix header "sha256=")

  unfoldable pub shopify_verify : VerifyInput → VerifyResult
  shopify_verify input =
      let header = first_header input.headers "x-shopify-hmac-sha256" in
      if header == ""
      then result "shopify" false "missing_signature"
      else if not (verify_hmac_sha256_base64 c.primitives input.secret input.raw_body header)
      then result "shopify" false "invalid_signature"
      else result "shopify" true "ok"

  unfoldable pub slack_check : VerifyInput → ℤ → Option String → VerifyResult
  slack_check input unix none = result "slack" false "malformed_header"
  slack_check input unix (some signature) =
      if not (
        verify_hmac_sha256_hex c.primitives input.secret (slack_payload unix input.raw_body)
          signature)
      then result "slack" false "invalid_signature"
      else result "slack" true "ok"

  unfoldable pub slack_at : VerifyInput → String → Option ℤ → VerifyResult
  slack_at input header none = result "slack" false "malformed_header"
  slack_at input header (some unix) =
      if ltb_ℤ five_minutes (age_of input.now unix)
      then result "slack" false "expired_timestamp"
      else slack_check input unix (cut_prefix header "v0=")

  unfoldable pub slack_verify : VerifyInput → VerifyResult
  slack_verify input =
      let ts_header = first_header input.headers "x-slack-request-timestamp" in
      let sig_header = first_header input.headers "x-slack-signature" in
      if ts_header == "" || sig_header == ""
      then result "slack" false "missing_signature"
      else slack_at input sig_header (parse_int ts_header)

  unfoldable pub generic_hmac_verify : VerifyInput → VerifyResult
  generic_hmac_verify input =
      let header = first_header input.headers "webhook-signature" in
      if header == ""
      then result "generic-hmac" false "missing_signature"
      else if not (
          verify_hmac_sha256_hex c.primitives input.secret input.raw_body
            (trim_prefix header "sha256="))
      then result "generic-hmac" false "invalid_signature"
      else result "generic-hmac" true "ok"

  unfoldable pub cloud_events_body : Option (String × String × String × String) → VerifyResult
  cloud_events_body none = result "cloudevents" false "malformed_header"
  cloud_events_body (some (specversion, id, type_name, source)) =
      if not (specversion == "") && not (id == "") && not (type_name == "") && not (source == "")
      then result "cloudevents" false "unsigned_cloudevents"
      else result "cloudevents" false "missing_cloudevents_headers"

  unfoldable pub cloud_events_verify : VerifyInput → VerifyResult
  cloud_events_verify input =
      if not (first_header input.headers "ce-id" == "")
        && not (first_header input.headers "ce-type" == "")
      then result "cloudevents" false "unsigned_cloudevents"
      else if has_prefix (to_lower (first_header input.headers "content-type"))
          "application/cloudevents+json"
      then cloud_events_body (c.decode_envelope input.raw_body)
      else result "cloudevents" false "missing_cloudevents_headers"
