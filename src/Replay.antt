-- ===== src/Replay.antt =====
-- Replay requests: ReplayRequest, normalizeReplayRequest and
-- validateReplayReasonCode in internal/app/control.go, and the columns of the tables that
-- internal/adapters/postgres/store.go reads for them. Times count nanoseconds.
pub mod Scope
pub mod Requested
pub mod Routes
pub mod Delivered
pub mod Collected
pub mod RouteScope
pub mod Covered
pub mod Jobs
pub mod Keys
pub mod Governed
pub mod Approved
pub mod Reach
pub mod Stranded
pub mod Needs
pub mod Pending
use webhookery.Common.{
  ℕ, ◌+◌, String, Bool, true, false, not, ◌&&◌, ◌||◌, List, [], ◌∷◌, ◌++◌, ◌==◌, ltb, string_eq,
  Option, none, some, if◌then◌else◌, trim_space, Result, ok, err, ◌>>=◌, contains, is_nil,
}
use webhookery.Common.Int.{ℤ, pos, pos_part, ltb_ℤ}

pub record ReplayRequest : Type 0 where
  pub event_id : String
  pub delivery_id : String
  pub endpoint_id : String
  pub reason_code : String
  pub reason : String
  pub config_mode : String
  pub rate_limit_per_minute : ℤ
  pub require_approval : Bool
  pub approval_expires_at : Option ℕ

pub record ReplayJob : Type 0 where
  pub id : String
  pub tenant_id : String
  pub state : String
  pub request : ReplayRequest
  pub approval_required : Bool
  pub approval_expires_at : Option ℕ
  pub approved_by : String
  pub approved_at : Option ℕ
  pub created_by : String
  pub processed_items : ℕ

pub record ReplayApprovalPolicy : Type 0 where
  pub tenant_id : String
  pub scope_type : String
  pub scope_id : String
  pub require_approval : Bool
  pub default_expiry_seconds : ℤ
  pub state : String
  pub updated_at : ℕ

pub record DeliveryRow : Type 0 where
  pub tenant_id : String
  pub id : String
  pub event_id : String
  pub route_id : String

pub record EventRow : Type 0 where
  pub tenant_id : String
  pub id : String
  pub source_id : String
  pub type_name : String

pub record RouteRow : Type 0 where
  pub tenant_id : String
  pub id : String
  pub source_id : String
  pub event_types : List String
  pub state : String

-- An outbox row of the kind `replay_job`.
pub record ReplayItem : Type 0 where
  pub tenant_id : String
  pub resource_id : String

pub record ReplayTables : Type 0 where
  pub jobs : List ReplayJob
  pub outbox : List ReplayItem
  pub policies : List ReplayApprovalPolicy
  pub deliveries : List DeliveryRow
  pub events : List EventRow
  pub routes : List RouteRow

pub data ReplayError : Type 0 where
  forbidden not_found : ReplayError
  invalid_input : String → ReplayError

-- 24 hours.
abbrev pub replay_approval_default_expiry : ℕ
replay_approval_default_expiry = 86400000000000

abbrev pub replay_reason_codes : List String
replay_reason_codes =
    "receiver_fixed" ∷ "provider_reconciliation" ∷ "operator_requested" ∷ "support_investigation"
    ∷ "customer_dispute" ∷ "test_drill" ∷ "incident_recovery" ∷ []

-- The texts of the request, trimmed, with the default mode.
unfoldable pub trim_request : ReplayRequest → ReplayRequest
trim_request req = record req {
  event_id = trim_space req.event_id;
  delivery_id = trim_space req.delivery_id;
  endpoint_id = trim_space req.endpoint_id;
  reason_code = trim_space req.reason_code;
  reason = trim_space req.reason;
  config_mode = if trim_space req.config_mode == "" then "current" else trim_space req.config_mode;
}

unfoldable pub or_default : ℕ → Option ℕ → ℕ
or_default default none = default
or_default default (some given) = given

-- The end of the approval window of a request that asks for approval.
unfoldable pub window : ℕ → ReplayRequest → ReplayRequest
unfolding or_default
window now req = record req {
  approval_expires_at =
      some (or_default (now + replay_approval_default_expiry) req.approval_expires_at);
}

unfoldable pub is_future : ℕ → Option ℕ → Bool
is_future now none = false
is_future now (some at) = ltb now at

unfoldable pub approval_window : ℕ → ReplayRequest → Result ReplayError ReplayRequest
unfolding window is_future
approval_window now req =
    if not req.require_approval
    then ok req
    else if not (is_future now (window now req).approval_expires_at)
    then err (invalid_input "approval_expires_at must be in the future")
    else ok (window now req)

unfoldable pub is_given : Option ℕ → Bool
is_given none = false
is_given (some at) = true

-- `normalizeReplayRequest` as CreateReplay calls it, with a scope and a reason required; it runs on
-- trimmed texts.
unfoldable pub normalize_trimmed : ℕ → ReplayRequest → Result ReplayError ReplayRequest
unfolding approval_window is_given contains
normalize_trimmed now req =
    if req.reason == ""
    then err (invalid_input "reason is required")
    else if req.reason_code == ""
    then err (invalid_input "reason_code is required")
    else if not (contains replay_reason_codes req.reason_code)
    then err (
        invalid_input
          "reason_code must be one of receiver_fixed, provider_reconciliation, operator_requested, support_investigation, customer_dispute, test_drill, incident_recovery")
    else if not (req.config_mode == "current") && not (req.config_mode == "original")
    then err (invalid_input "config_mode must be current or original")
    else if ltb_ℤ req.rate_limit_per_minute (pos 0) || ltb_ℤ (pos 60000) req.rate_limit_per_minute
    then err (invalid_input "rate_limit_per_minute must be between 0 and 60000")
    else if not req.require_approval && is_given req.approval_expires_at
    then err (invalid_input "approval_expires_at requires require_approval")
    else approval_window now req >>= (λ windowed.
      if windowed.event_id == "" && windowed.delivery_id == ""
      then err (invalid_input "event_id or delivery_id is required")
      else ok windowed)

unfoldable pub normalize_replay_request : ℕ → ReplayRequest → Result ReplayError ReplayRequest
unfolding trim_request normalize_trimmed
normalize_replay_request now req = normalize_trimmed now (trim_request req)
