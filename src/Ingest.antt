-- ===== src/Ingest.antt =====
-- internal/app/service.go: what becomes of a webhook that is received. The source is looked up by the
-- store; normalization and the store are arguments.
pub mod Metadata
pub mod Capture
pub mod Tables
pub mod Quarantine
pub mod Ledger
pub mod Consistent
pub mod Reviews
pub mod Trust
use webhookery.Common.{
  ℕ, String, Bool, true, false, List, [], ◌∷◌, Option, none, some, ◌==◌, string_eq, if◌then◌else◌,
  to_lower, ◌++◌, is_nil,
}
use webhookery.Common.Int.{ℤ}
use webhookery.Provider.{Headers, VerifyInput, VerifyResult}

pub record Source : Type 0 where
  pub id : String
  pub tenant_id : String
  pub provider : String
  pub adapter : String
  pub state : String
  pub verification_secret : List ℕ
  pub verification_secrets : List (List ℕ)

pub record IngestRequest : Type 0 where
  pub tenant_id : String
  pub source_id : String
  pub provider : String
  pub raw_body : List ℕ
  pub headers : List (String × String)
  pub content_type : String
  pub remote_ip : String

-- The texts and bytes of `domain.NormalizedEnvelope` that ingest fills in.
pub record NormalizedEnvelope : Type 0 where
  pub adapter_version_id : String
  pub provider : String
  pub provider_event_id : String
  pub type_name : String
  pub source : String
  pub subject : String
  pub envelope : List ℕ
  pub content : List ℕ
  pub metadata : List ℕ

abbrev pub no_envelope : NormalizedEnvelope
no_envelope = record {
  adapter_version_id = "";
  provider = "";
  provider_event_id = "";
  type_name = "";
  source = "";
  subject = "";
  envelope = [];
  content = [];
  metadata = [];
}

-- `domain.Event` before it has an id.
pub record CapturedEvent : Type 0 where
  pub type_name : String
  pub provider_id : String
  pub dedupe_key : String
  pub received_at : ℤ

-- `CaptureInboundInput`; the raw payload and the receipt are flat here.
pub record CaptureInboundInput : Type 0 where
  pub source : Source
  pub raw_hash : String
  pub content_type : String
  pub raw_body : List ℕ
  pub raw_headers : List (String × String)
  pub remote_ip : String
  pub event : CapturedEvent
  pub normalized : NormalizedEnvelope
  pub verification_ok : Bool
  pub verify_reason : String

pub record CaptureInboundResult : Type 0 where
  pub event_id : String
  pub receipt_id : String
  pub raw_payload_id : String
  pub dedupe_status : String

pub record IngestResult : Type 0 where
  pub accepted : Bool
  pub event_id : String
  pub receipt_id : String
  pub raw_payload_id : String
  pub verify_reason : String
  pub dedupe_status : String

pub data IngestError : Type 0 where
  not_found : IngestError
  invalid_input : String → IngestError

-- `headers[name] = append(headers[name], value)`
unfoldable pub add_value : String → String → Headers → Headers
add_value name value [] = (name, value ∷ []) ∷ []
add_value name value ((key, values) ∷ rest) =
    if key == name
    then (key, values ++ value ∷ []) ∷ rest
    else (key, values) ∷ add_value name value rest

unfoldable pub add_values : List (String × String) → Headers → Headers
add_values [] headers = headers
add_values ((name, value) ∷ rest) headers =
    add_values rest (add_value (to_lower name) value headers)

unfoldable pub canonical_headers : List (String × String) → Headers
canonical_headers raw = add_values raw []

-- `headers[name]` of a map.
unfoldable pub values_at : String → Headers → List String
values_at name [] = []
values_at name ((key, values) ∷ rest) = if key == name then values else values_at name rest

abbrev pub head_or_empty : List String → String
head_or_empty [] = ""
head_or_empty (value ∷ values) = value

-- `firstHeader` of internal/app/service.go.
unfoldable pub first_value : Headers → String → String
first_value headers name = head_or_empty (values_at (to_lower name) headers)
