-- ===== src/Tests/FanoutRuns.antt =====
-- Runs of internal/app/delivery_fanout.go over a store that lists what it is asked to create.
use webhookery.Common.{
  ◌⊎◌, if◌then◌else◌, length, ◌&&◌, ◌==◌, string_eq, ℕ, String, Bool, true, false, List, [], ◌∷◌,
  none, Result, ok, err, ◌≡◌, refl, All,
}
use webhookery.Common.Effects.{chain}
use webhookery.Common.Int.{pos, wrap64}
use webhookery.Fanout.{
  WorkError, failed, Event, DeliveryFanoutTarget, DeliverySnapshotRequest, ReplayJobWork,
  DeliveryFanoutOptions, FanoutStore, replay_schedule_delay, first_non_empty, target_request,
}
use webhookery.Fanout.Run.{
  is_routable, completed, create_delivery_snapshot, create_delivery_from_target, create_for_targets,
  create_deliveries_for_event, process_outbox,
}
use webhookery.Fanout.Events.{IsTrusted, OneEach, routing_store, create_deliveries_for_event-Routed}
use webhookery.Fanout.Requests.{IsProper}
use webhookery.Fanout.Confined.{IsConfined, process_outbox-Keeps}

abbrev target : DeliveryFanoutTarget
target = record {
  endpoint_id = "end_1";
  route_id = "rou_1";
  route_version_id = "rv_1";
  subscription_id = "";
  subscription_version_id = "";
  route_retry_policy_id = "";
  endpoint_retry_policy_id = "pol_1";
  transformation_version_id = "";
}

abbrev event : Bool → String → Event
event verified verify_reason = record {
  source_id = "src_1";
  type_name = "invoice.paid";
  verified = verified;
  verify_reason = verify_reason;
}

abbrev work : String → ReplayJobWork
work state = record {
  event_id = "evt_1";
  delivery_id = "";
  request_config_mode = "";
  request_rate_limit = pos 0;
  state = state;
  config_mode = "";
  rate_limit_per_minute = pos 60;
}

-- The snapshots that were asked for, the last one first.
abbrev log_store : Event → String → FanoutStore (List DeliverySnapshotRequest)
log_store e state = record {
  now = λ log. pos 1000;
  get_event = λ tenant id log. ok e;
  list_delivery_fanout_targets = λ tenant source type_name log. ok (target ∷ target ∷ []);
  create_delivery_snapshot = λ req log. (ok tt, req ∷ log);
  get_replay_job_work = λ tenant job log. ok (work state);
  start_replay_job = λ tenant job log. (ok true, log);
  list_original_delivery_replay_sources = λ tenant id log. ok [];
  get_delivery_replay_source = λ tenant id log. err (failed "not found");
  get_current_delivery_fanout_target = λ tenant route subscription log. ok none;
  insert_replay_noop_item = λ tenant job id mode text log. (ok tt, log);
  complete_replay_job = λ tenant job n log. (ok tt, log);
}

abbrev plain : DeliveryFanoutOptions
plain = record {
  replay_job_id = "";
  config_mode = "";
  rate_limit_per_minute = pos 0;
  allow_recovered = false;
}

schedule_run : replay_schedule_delay 6 (pos 7) ≡ pos 51_428_571_426
unfolding replay_schedule_delay wrap64
schedule_run = refl

abbrev requests_of : Result WorkError ℕ × List DeliverySnapshotRequest → List (String × String)
requests_of (outcome, []) = []
requests_of (outcome, req ∷ log) =
    (req.retry_policy_id, req.config_mode) ∷ requests_of (outcome, log)

two_requests :
    requests_of
      (create_deliveries_for_event (log_store (event true "ok") "") "ten_1" "evt_1" plain [])
    ≡ ("pol_1", "current") ∷ ("pol_1", "current") ∷ []
unfolding create_deliveries_for_event create_for_targets create_delivery_from_target is_routable
    chain create_delivery_snapshot completed target_request first_non_empty
two_requests = refl

-- Only the event of the test is there, and two targets for its source and type.
abbrev events : String → String → Result WorkError Event
events tenant_id event_id =
    if tenant_id == "ten_1" && event_id == "evt_1"
    then ok (event true "ok")
    else err (failed "not found")

abbrev targets_of : String → String → String → Result WorkError (List DeliveryFanoutTarget)
targets_of tenant_id source_id type_name =
    if tenant_id == "ten_1" && source_id == "src_1" && type_name == "invoice.paid"
    then ok (target ∷ target ∷ [])
    else ok []

create_deliveries_for_event-Routed_example :
    (created : List DeliverySnapshotRequest) × (create_deliveries_for_event
        (routing_store (pos 1000) events targets_of)
        "ten_1"
        "evt_1"
        plain
        []
      ≡ (ok (length created), created))
    × ((¬ IsTrusted plain (event true "ok")) × (created ≡ [])
        ⊎ IsTrusted plain (event true "ok")
          × OneEach "ten_1" "evt_1" plain (pos 1000) 0 (target ∷ target ∷ []) created)
create_deliveries_for_event-Routed_example =
    create_deliveries_for_event-Routed (pos 1000) events targets_of "ten_1" "evt_1" plain
      (event true "ok") (target ∷ target ∷ []) [] refl refl

-- Every snapshot in the log is proper for the tenant.
abbrev AllProper : List DeliverySnapshotRequest → Type 0
AllProper = All (IsProper "ten_1")

confined : (e : Event) (state : String) → IsConfined (log_store e state) "ten_1" AllProper
confined e state = record {
  snapshots = λ req proper log all. (proper, all);
  noop_items = λ job id mode text log all. all;
  starts = λ job log all. all;
  ends = λ job n log all. all;
}

process_outbox-Keeps_example :
    AllProper
      (process_outbox (log_store (event true "ok") "scheduled") "replay_job" "ten_1" "job_1" []).1
process_outbox-Keeps_example =
    process_outbox-Keeps (log_store (event true "ok") "scheduled") "ten_1" AllProper
      (confined (event true "ok") "scheduled") "replay_job" "job_1" [] tt
