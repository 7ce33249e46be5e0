-- ===== src/Tests/IngestRuns.antt =====
-- Runs of internal/provider, internal/app/service.go and internal/adapters/postgres/store_ingest.go.
use webhookery.Common.{
  String, Bool, true, false, List, [], ◌∷◌, none, some, ◌≡◌, ◌≢◌, ◌↔◌, refl, map, string_eq,
  to_lower, cut_prefix, trim_space, join,
}
use webhookery.Common.Bytes.{hex, unhex}
use webhookery.Common.Decimal.{parse_digits}
use webhookery.Common.Int.{ℤ, pos, ◌-ℤ◌, ◌+ℤ◌, wrap64}
use webhookery.Provider.{VerifyInput, Codec, Headers, result, header_from, first_header}
use webhookery.Provider.Builtin.{github_verify, github_check, slack_verify, slack_at, slack_check}
use webhookery.Provider.Registry.{github, slack, verify}
use webhookery.Provider.Signed.Accepted.{Signed, verify_iff}
use webhookery.Ingest.{Source, IngestRequest, CaptureInboundInput, no_envelope}
use webhookery.Ingest.Capture.{Services, adapter_of, secrets_of, inbound_of}
use webhookery.Ingest.Ledger.{
  Capture, told, view, claim_of, run_captures, run_claims, run_captures-run_claims,
}
use webhookery.Ingest.Tables.{
  Tables, EventRow, FreshIds, event_keyed, event_row, insert_event, insert_receipt, captured,
  capture_for, capture_inbound, named_adapter, upsert_dedupe, has_idempotency,
}
use webhookery.Ingest.Consistent.{IsConsistent}
use webhookery.Ingest.Reviews.{Step, start, next, Received-IsConsistent}
use webhookery.Ingest.Trust.{
  SignedBySome, event_at, fanout_event, inbound_of-verified, unverified-event_at,
}
use webhookery.Fanout.{DeliveryFanoutOptions}
use webhookery.Fanout.Run.{is_routable}
use webhookery.Transform.Tree.{no_fields, field, text}
use webhookery.Tests.VerifierRuns.{constant, sound}
use webhookery.Verifier.Verify.{
  verify_hmac_sha256_hex, parse_int, age_of, magnitude, saturate, time_of,
}

-- Every body reads as an object with the id evt_9.
abbrev codec : Codec
codec = record {
  primitives = constant;
  sha256 = λ bytes. 0x0f ∷ [];
  base64_raw_url = λ s. none;
  base64_url = λ s. none;
  decode_map = λ bytes. some (field "id" (text "evt_9") no_fields);
  decode_algorithm = λ bytes. none;
  decode_envelope = λ bytes. none;
  int64_of = λ s. pos 0;
  print_float = λ s. s;
  sprint = λ value. "";
  parse_rfc3339 = λ s. none;
}

abbrev services : Services
services = record {
  codec = codec;
  decode_definition = λ bytes. none;
  normalize = λ input. none;
  active_version = λ tenant_id name. none;
}

abbrev signed_headers : Headers
signed_headers = ("X-Hub-Signature-256", "sha256=ab" ∷ []) ∷ []

abbrev github_input : VerifyInput
github_input = record {
  raw_body = 7 ∷ [];
  headers = signed_headers;
  secret = 1 ∷ [];
  now = pos 1_700_000_100_000_000_000;
}

github_accepts : (verify codec github github_input).verified ≡ true
unfolding verify github_verify github_check first_header header_from to_lower cut_prefix
    verify_hmac_sha256_hex unhex hex result
github_accepts = refl

slack_late :
    (verify codec slack (record github_input {
      headers =
          ("x-slack-request-timestamp", "1699999700" ∷ [])
          ∷ ("x-slack-signature", "v0=ab" ∷ [])
          ∷ [];
    })).reason
    ≡ "expired_timestamp"
unfolding verify slack_verify slack_at slack_check first_header header_from to_lower cut_prefix
    parse_int parse_digits age_of magnitude saturate time_of wrap64 ◌-ℤ◌ ◌+ℤ◌ result
slack_late = refl

verify_iff_example :
    ((verify codec github github_input).verified ≡ true) ↔ Signed codec sound github_input github
verify_iff_example = verify_iff codec sound github_input github

abbrev source : Source
source = record {
  id = "src_1";
  tenant_id = "ten_1";
  provider = "github";
  adapter = "github";
  state = "active";
  verification_secret = 1 ∷ [];
  verification_secrets = [];
}

abbrev request : List (String × String) → IngestRequest
request headers = record {
  tenant_id = "ten_1";
  source_id = "src_1";
  provider = "github";
  raw_body = 7 ∷ [];
  headers = headers;
  content_type = "application/json";
  remote_ip = "192.0.2.1";
}

abbrev now : ℤ
now = pos 1_700_000_100_000_000_000

inbound_of-verified_example :
    ((inbound_of services source
        (request (("X-Hub-Signature-256", "sha256=ab") ∷ []))
        now).verification_ok
      ≡ true)
    ↔ SignedBySome services sound
        (request (("X-Hub-Signature-256", "sha256=ab") ∷ []))
        now
        (adapter_of services source).adapter
        (secrets_of services source)
inbound_of-verified_example =
    inbound_of-verified services sound (request (("X-Hub-Signature-256", "sha256=ab") ∷ [])) now
      source

abbrev inbound : Bool → String → CaptureInboundInput
inbound good reason = record {
  source = source;
  raw_hash = "sha256:0f";
  content_type = "application/json";
  raw_body = 7 ∷ [];
  raw_headers = [];
  remote_ip = "192.0.2.1";
  event = record {
    type_name = "push";
    provider_id = "evt_9";
    dedupe_key = "github:ten_1:src_1:evt_9";
    received_at = now;
  };
  normalized = no_envelope;
  verification_ok = good;
  verify_reason = reason;
}

abbrev ids : String → FreshIds
ids n = record {
  event_id = join "_" ("evt" ∷ n ∷ []);
  raw_id = join "_" ("raw" ∷ n ∷ []);
  receipt_id = join "_" ("rcp" ∷ n ∷ []);
  outbox_id = join "_" ("out" ∷ n ∷ []);
  normalized_id = join "_" ("nenv" ∷ n ∷ []);
  quarantine_id = join "_" ("qua" ∷ n ∷ []);
}

abbrev empty : Tables
empty = record {
  events = [];
  raw_payloads = [];
  provider_receipts = [];
  normalized_envelopes = [];
  outbox = [];
  idempotency_records = [];
  dedupe_records = [];
  quarantine_entries = [];
}

abbrev no_lookup : String → String
no_lookup name = ""

-- A forged webhook, and then the genuine one.
abbrev history : List Capture
history = (ids "1", inbound false "invalid_signature") ∷ (ids "2", inbound true "ok") ∷ []

history_runs :
    map (told no_lookup) (run_captures no_lookup history empty).0
    ≡ ("evt_1", "unique") ∷ ("evt_1", "duplicate_suppressed") ∷ []
unfolding capture_inbound capture_for captured insert_receipt insert_event event_row event_keyed
    join named_adapter trim_space has_idempotency upsert_dedupe
history_runs = refl

run_captures-run_claims_example :
    (map (told no_lookup) (run_captures no_lookup history empty).0
      ≡ (run_claims (map claim_of history) (view empty)).0)
    × (view (run_captures no_lookup history empty).1
        ≡ (run_claims (map claim_of history) (view empty)).1)
run_captures-run_claims_example = run_captures-run_claims no_lookup history empty

empty-IsConsistent : IsConsistent empty
empty-IsConsistent = record {
  linked = record {
    routed = tt;
    items_known = tt;
    receipts_known = tt;
    payloads_known = tt;
    entries_known = tt;
    distinct = tt;
  };
  reviewed = tt;
}

abbrev after_forgery : Tables
after_forgery = (capture_inbound no_lookup (ids "1") (inbound false "invalid_signature") empty).1

Received-IsConsistent_example : IsConsistent after_forgery
Received-IsConsistent_example =
    Received-IsConsistent no_lookup empty after_forgery
      (next empty empty after_forgery (start empty)
        (Step.captured empty (ids "1") (inbound false "invalid_signature")))
      empty-IsConsistent

abbrev forged : EventRow
forged = event_row no_lookup (ids "1") (inbound false "invalid_signature")

abbrev options : DeliveryFanoutOptions
options = record {
  replay_job_id = "";
  config_mode = "";
  rate_limit_per_minute = pos 0;
  allow_recovered = true;
}

forged_at : event_at "ten_1" "github:ten_1:src_1:evt_9" after_forgery.events ≡ some forged
unfolding capture_inbound capture_for insert_receipt insert_event event_row event_keyed
forged_at = refl

forged_unverified : forged.signature_verified ≡ false
unfolding event_row
forged_unverified = refl

forged_reason : forged.verification_reason ≢ "provider_api_reconciliation"
unfolding event_row
forged_reason same =
    let yes = (string_eq.same_iff "invalid_signature" "provider_api_reconciliation").1 same in cc

unverified-event_at_example :
    (event_at "ten_1" "github:ten_1:src_1:evt_9"
        (run_captures no_lookup history after_forgery).1.events
      ≡ some forged)
    × (is_routable options (fanout_event forged) ≡ false)
unverified-event_at_example =
    unverified-event_at no_lookup "ten_1" "github:ten_1:src_1:evt_9" forged history after_forgery
      options forged_at forged_unverified forged_reason
