-- ===== src/Fanout.antt =====
-- internal/app/delivery_fanout.go: the deliveries that an event, a replay of an event or a replay of
-- a delivery creates. The store is the record of its operations, over an abstract state.
pub mod Run
pub mod Schedule
pub mod Events
pub mod Requests
pub mod Confined
use webhookery.Common.{
  ℕ, zero, suc, ◌+◌, ◌*◌, ◌/◌, String, Bool, true, false, List, [], ◌∷◌, Option, none, some, Result,
  ok, err, ◌==◌, string_eq, leb, if◌then◌else◌,
}
use webhookery.Common.Effects.{Effect}
use webhookery.Common.Int.{ℤ, pos, negsuc, ◌+ℤ◌, leb_ℤ, wrap64}

-- `worker.ErrDeferred`, and every other error under its text.
pub data WorkError : Type 0 where
  deferred : WorkError
  failed : String → WorkError

-- The fields of `domain.Event` that the fanout reads.
pub record Event : Type 0 where
  pub source_id : String
  pub type_name : String
  pub verified : Bool
  pub verify_reason : String

pub record DeliveryFanoutTarget : Type 0 where
  pub endpoint_id : String
  pub route_id : String
  pub route_version_id : String
  pub subscription_id : String
  pub subscription_version_id : String
  pub route_retry_policy_id : String
  pub endpoint_retry_policy_id : String
  pub transformation_version_id : String

pub record DeliverySnapshotRequest : Type 0 where
  pub tenant_id : String
  pub event_id : String
  pub endpoint_id : String
  pub route_id : String
  pub route_version_id : String
  pub subscription_id : String
  pub subscription_version_id : String
  pub retry_policy_id : String
  pub replay_job_id : String
  pub original_delivery_id : String
  pub adapter_version_id : String
  pub normalized_envelope_id : String
  pub transformation_version_id : String
  pub delivery_payload_mode : String
  pub source_delivery_payload_id : String
  pub retry_seed : String
  pub next_attempt_at : ℤ
  pub config_mode : String

pub record DeliveryReplaySource : Type 0 where
  pub id : String
  pub event_id : String
  pub endpoint_id : String
  pub route_id : String
  pub route_version_id : String
  pub subscription_id : String
  pub subscription_version_id : String
  pub retry_policy_id : String
  pub adapter_version_id : String
  pub normalized_envelope_id : String
  pub transformation_version_id : String
  pub delivery_payload_id : String

-- `ReplayJobWork` with the fields of its `Request` that the fanout reads.
pub record ReplayJobWork : Type 0 where
  pub event_id : String
  pub delivery_id : String
  pub request_config_mode : String
  pub request_rate_limit : ℤ
  pub state : String
  pub config_mode : String
  pub rate_limit_per_minute : ℤ

pub record DeliveryFanoutOptions : Type 0 where
  pub replay_job_id : String
  pub config_mode : String
  pub rate_limit_per_minute : ℤ
  pub allow_recovered : Bool

-- `DeliveryFanoutStore` and the clock. Reading does not change the state.
pub record FanoutStore (State : Type 0) : Type 0 where
  pub now : State → ℤ
  pub get_event : String → String → State → Result WorkError Event
  pub list_delivery_fanout_targets :
      String → String → String → State → Result WorkError (List DeliveryFanoutTarget)
  pub create_delivery_snapshot : DeliverySnapshotRequest → Effect State WorkError (Unit {0})
  pub get_replay_job_work : String → String → State → Result WorkError ReplayJobWork
  pub start_replay_job : String → String → Effect State WorkError Bool
  pub list_original_delivery_replay_sources :
      String → String → State → Result WorkError (List DeliveryReplaySource)
  pub get_delivery_replay_source : String → String → State → Result WorkError DeliveryReplaySource
  pub get_current_delivery_fanout_target :
      String → String → String → State → Result WorkError (Option DeliveryFanoutTarget)
  pub insert_replay_noop_item :
      String → String → String → String → String → Effect State WorkError (Unit {0})
  pub complete_replay_job : String → String → ℕ → Effect State WorkError (Unit {0})

abbrev pub replay_config_current : String
replay_config_current = "current"

abbrev pub replay_config_original : String
replay_config_original = "original"

abbrev pub materialize : String
materialize = "materialize"

abbrev pub clone : String
clone = "clone"

unfoldable pub first_non_empty : List String → String
first_non_empty [] = ""
first_non_empty (value ∷ values) = if value == "" then first_non_empty values else value

abbrev pub minute : ℕ
minute = 60_000_000_000

-- The quotient of two durations that are not negative; a rate below 1 does not come here.
unfoldable pub replay_schedule_delay : ℕ → ℤ → ℤ
replay_schedule_delay zero rate_limit_per_minute = pos 0
replay_schedule_delay (suc index) (negsuc rate) = pos 0
replay_schedule_delay (suc index) (pos zero) = pos 0
replay_schedule_delay (suc index) (pos (suc rate)) = wrap64 (pos (suc index * (minute / suc rate)))

abbrev pub retry_policy_id : DeliveryFanoutTarget → String
retry_policy_id t = first_non_empty (t.route_retry_policy_id ∷ t.endpoint_retry_policy_id ∷ [])

unfoldable pub delivery_snapshot_request_from_source :
    String → DeliveryReplaySource → DeliveryFanoutOptions → DeliverySnapshotRequest
delivery_snapshot_request_from_source tenant_id source opts = record {
  tenant_id = tenant_id;
  event_id = source.event_id;
  endpoint_id = source.endpoint_id;
  route_id = source.route_id;
  route_version_id = source.route_version_id;
  subscription_id = source.subscription_id;
  subscription_version_id = source.subscription_version_id;
  retry_policy_id = source.retry_policy_id;
  replay_job_id = opts.replay_job_id;
  original_delivery_id = "";
  adapter_version_id = source.adapter_version_id;
  normalized_envelope_id = source.normalized_envelope_id;
  transformation_version_id = source.transformation_version_id;
  delivery_payload_mode = "";
  source_delivery_payload_id = source.delivery_payload_id;
  retry_seed = "";
  next_attempt_at = pos 0;
  config_mode = first_non_empty (opts.config_mode ∷ replay_config_current ∷ []);
}

-- The literal of `createDeliveryFromTarget`, with the time of the attempt.
unfoldable pub target_request :
    String → String → DeliveryFanoutTarget → ℤ → DeliveryFanoutOptions → DeliverySnapshotRequest
target_request tenant_id event_id target at opts = record {
  tenant_id = tenant_id;
  event_id = event_id;
  endpoint_id = target.endpoint_id;
  route_id = target.route_id;
  route_version_id = target.route_version_id;
  subscription_id = target.subscription_id;
  subscription_version_id = target.subscription_version_id;
  retry_policy_id = retry_policy_id target;
  replay_job_id = opts.replay_job_id;
  original_delivery_id = "";
  adapter_version_id = "";
  normalized_envelope_id = "";
  transformation_version_id = target.transformation_version_id;
  delivery_payload_mode = materialize;
  source_delivery_payload_id = "";
  retry_seed = "";
  next_attempt_at = at;
  config_mode = first_non_empty (opts.config_mode ∷ replay_config_current ∷ []);
}
