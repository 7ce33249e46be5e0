-- ===== src/Ingest/Capture.antt =====
-- `capture` in internal/app/service.go. The raw body has one hash and the adapter of the source one
-- definition; `Normalize` and the lookup of a declared adapter are arguments.
use Prim.Native.String.{◌++◌ as append}
use webhookery.Common.{
  ℕ, String, Bool, false, not, ◌||◌, ◌&&◌, List, [], ◌∷◌, Option, none, some, ◌==◌, string_eq,
  if◌then◌else◌, is_nil, Result, ok, err, ◌>>=◌,
}
use webhookery.Common.Bytes.{hex}
use webhookery.Common.Int.{ℤ}
use webhookery.Provider.{Codec, Headers, VerifyResult}
use webhookery.Provider.Declarative.{DeclarativeDefinition, parse_declarative_definition}
use webhookery.Provider.Extract.{declarative_metadata}
use webhookery.Provider.Registry.{Adapter, generic_unsafe, declarative, registry_adapter, verify}
use webhookery.Ingest.{
  Source, IngestRequest, NormalizedEnvelope, no_envelope, CaptureInboundInput, CaptureInboundResult,
  IngestResult, IngestError, invalid_input, canonical_headers,
}
use webhookery.Ingest.Metadata.{extract_event_metadata_for_provider, dedupe_key}

-- `domain.AdapterVersion`, with the fields that ingest reads.
pub record AdapterVersion : Type 0 where
  pub id : String
  pub kind : String
  pub state : String
  pub definition : List ℕ

-- The adapter of a source, its definition and the version it comes from; both are empty for a
-- built-in adapter.
pub record ChosenAdapter : Type 0 where
  pub adapter : Adapter
  pub definition : List ℕ
  pub version_id : String

pub record NormalizeInput : Type 0 where
  pub adapter : String
  pub provider : String
  pub tenant_id : String
  pub source_id : String
  pub raw_body : List ℕ
  pub headers : Headers
  pub verified : Bool
  pub verify_reason : String
  pub raw_hash : String
  pub definition : List ℕ

pub record Services : Type 0 where
  pub codec : Codec
  pub decode_definition : List ℕ → Option DeclarativeDefinition
  pub normalize : NormalizeInput → Option NormalizedEnvelope
  -- `ActiveDeclarativeAdapterVersion`; a store without it has none.
  pub active_version : String → String → Option AdapterVersion

abbrev builtin : Adapter → ChosenAdapter
builtin adapter = record { adapter = adapter; definition = []; version_id = "" }

abbrev or_else : String → String → String
or_else value other = if value == "" then other else value

module _ (s : Services) where
  -- The adapter that a definition declares.
  unfoldable pub declared : Option AdapterVersion → ChosenAdapter
  declared none = builtin generic_unsafe
  declared (some version) =
      if not (version.kind == "declarative") || not (version.state == "active")
      then builtin generic_unsafe
      else elim (parse_declarative_definition s.decode_definition version.definition) [
        | err reason ↦ builtin generic_unsafe
        | ok def ↦ record {
          adapter = declarative def;
          definition = version.definition;
          version_id = version.id;
        }
      ]

  unfoldable pub adapter_of : Source → ChosenAdapter
  adapter_of source = elim (registry_adapter source.adapter) [
    | some adapter ↦ builtin adapter
    | none ↦ elim (registry_adapter source.provider) [
      | some adapter ↦ builtin adapter
      | none ↦ declared (s.active_version source.tenant_id source.adapter)
    ]
  ]

  unfoldable pub secrets_of : Source → List (List ℕ)
  secrets_of source =
      if not (is_nil source.verification_secrets)
      then source.verification_secrets
      else if not (is_nil source.verification_secret)
      then source.verification_secret ∷ []
      else [] ∷ []

  -- The loop over the secrets: the first result that verifies, and otherwise the last one.
  unfoldable pub verify_any :
      Adapter → IngestRequest → ℤ → List (List ℕ) → VerifyResult → VerifyResult
  verify_any adapter req now [] last = last
  verify_any adapter req now (secret ∷ secrets) last =
      let found = verify s.codec adapter (record {
        raw_body = req.raw_body;
        headers = canonical_headers req.headers;
        secret = secret;
        now = now;
      }) in
      let next = verify_any adapter req now secrets found in if found.verified then found else next

  unfoldable pub hash_sha256 : List ℕ → String
  hash_sha256 bytes = append "sha256:" (hex (s.codec.sha256 bytes))

  -- The id and the type that a definition extracts go first.
  unfoldable pub metadata_of : Source → List ℕ → List ℕ → Headers → String × String
  metadata_of source definition raw headers =
      let plain = extract_event_metadata_for_provider s.codec source.adapter raw headers in
      let own = declarative_metadata s.codec s.decode_definition definition raw headers in
      if is_nil definition then plain else (or_else own.0 plain.0, or_else own.1 plain.1)

  unfoldable pub normalized_of :
      Source → IngestRequest → ChosenAdapter → VerifyResult → Option NormalizedEnvelope
  normalized_of source req chosen verified =
      if not verified.verified
      then none
      else s.normalize (record {
        adapter = source.adapter;
        provider = source.provider;
        tenant_id = source.tenant_id;
        source_id = source.id;
        raw_body = req.raw_body;
        headers = canonical_headers req.headers;
        verified = verified.verified;
        verify_reason = verified.reason;
        raw_hash = hash_sha256 req.raw_body;
        definition = chosen.definition;
      })

  -- The envelope that is stored, and the id and the type of the event where they were missing.
  unfoldable pub completed :
      ChosenAdapter
      → Source
      → String × String
      → Option NormalizedEnvelope
      → NormalizedEnvelope × (String × String)
  completed chosen source (id, type_name) none = (no_envelope, (id, type_name))
  completed chosen source (id, type_name) (some env) = (
    record env { adapter_version_id = chosen.version_id; provider = source.provider },
    (or_else id env.provider_event_id, or_else type_name env.type_name),
  )

  -- What `capture` hands to the store.
  unfoldable pub inbound_of : Source → IngestRequest → ℤ → CaptureInboundInput
  inbound_of source req now =
      let chosen = adapter_of source in
      let missing : VerifyResult = record {
        verified = false;
        reason = "missing_signature";
        provider = "";
      } in
      let verified = verify_any chosen.adapter req now (secrets_of source) missing in
      let raw_hash = hash_sha256 req.raw_body in
      let metadata =
        metadata_of source chosen.definition req.raw_body (canonical_headers req.headers) in
      let filled = completed chosen source metadata (normalized_of source req chosen verified) in
      record {
        source = source;
        raw_hash = raw_hash;
        content_type = req.content_type;
        raw_body = req.raw_body;
        raw_headers = req.headers;
        remote_ip = req.remote_ip;
        event = record {
          type_name = filled.1.1;
          provider_id = filled.1.0;
          dedupe_key = dedupe_key source metadata.0 raw_hash;
          received_at = now;
        };
        normalized = filled.0;
        verification_ok = verified.verified;
        verify_reason = verified.reason;
      }

  -- `capture`, over the store's `CaptureInbound`.
  unfoldable pub capture :
      {State : Type 0}
      → (CaptureInboundInput → State → Result IngestError (CaptureInboundResult × State))
      → Source
      → IngestRequest
      → ℤ
      → State
      → Result IngestError (IngestResult × State)
  capture capture_inbound source req now state =
      let input = inbound_of source req now in
      if not (source.state == "") && not (source.state == "active")
      then err (invalid_input "source is not active")
      else capture_inbound input state >>= (λ (captured, after). ok (
        record {
          accepted = input.verification_ok || source.adapter == "cloudevents";
          event_id = captured.event_id;
          receipt_id = captured.receipt_id;
          raw_payload_id = captured.raw_payload_id;
          verify_reason = input.verify_reason;
          dedupe_status = captured.dedupe_status;
        },
        after,
      ))
