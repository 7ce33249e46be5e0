-- ===== src/Fanout/Run.antt =====
-- The operations of `DeliveryFanoutService` in internal/app/delivery_fanout.go.
use webhookery.Common.{
  ℕ, zero, suc, ◌+◌, String, Bool, true, false, not, ◌&&◌, ◌||◌, List, [], ◌∷◌, Option, none, some,
  ◌==◌, string_eq, if◌then◌else◌, length,
}
use webhookery.Common.Effects.{Effect, ◌>>=◌, ◌>>◌, done, fail, asking}
use webhookery.Common.Int.{ℤ, pos, ◌+ℤ◌, eq_ℤ}
use webhookery.Fanout.{
  WorkError, deferred, Event, DeliveryFanoutTarget, DeliverySnapshotRequest, DeliveryReplaySource,
  ReplayJobWork, DeliveryFanoutOptions, FanoutStore, replay_config_current, replay_config_original,
  materialize, clone, first_non_empty, replay_schedule_delay, retry_policy_id,
  delivery_snapshot_request_from_source, target_request,
}

-- Whether `CreateDeliveriesForEvent` goes on with an event.
unfoldable pub is_routable : DeliveryFanoutOptions → Event → Bool
is_routable opts event = not (
    not event.verified
    && (not opts.allow_recovered || not (event.verify_reason == "provider_api_reconciliation")))

-- The defaults that `createDeliverySnapshot` puts in.
unfoldable pub completed : DeliverySnapshotRequest → DeliverySnapshotRequest
completed req = record req {
  config_mode = if req.config_mode == "" then replay_config_current else req.config_mode;
  delivery_payload_mode =
      if req.delivery_payload_mode == "" then materialize else req.delivery_payload_mode;
}

-- What `createDeliveriesFromOriginalEvent` asks for.
unfoldable pub original_request :
    String → DeliveryReplaySource → ℤ → DeliveryFanoutOptions → DeliverySnapshotRequest
original_request tenant_id original at opts =
    record (delivery_snapshot_request_from_source tenant_id original opts) {
      original_delivery_id = original.id;
      delivery_payload_mode = clone;
      source_delivery_payload_id = original.delivery_payload_id;
      next_attempt_at = at;
    }

-- `req` in `createDeliveryFromExisting` before the target is looked up.
unfoldable pub existing_request :
    String → String → DeliveryReplaySource → ℤ → DeliveryFanoutOptions → DeliverySnapshotRequest
existing_request tenant_id delivery_id source at opts =
    record (delivery_snapshot_request_from_source tenant_id source opts) {
      original_delivery_id = delivery_id;
      next_attempt_at = at;
    }

unfoldable pub retargeted : DeliveryFanoutTarget → DeliverySnapshotRequest → DeliverySnapshotRequest
retargeted current req = record req {
  endpoint_id = current.endpoint_id;
  route_version_id = current.route_version_id;
  subscription_version_id = current.subscription_version_id;
  retry_policy_id = retry_policy_id current;
  transformation_version_id = current.transformation_version_id;
  adapter_version_id = "";
  normalized_envelope_id = "";
  source_delivery_payload_id = "";
}

-- The payload mode that `createDeliveryFromExisting` ends with.
unfoldable pub with_payload :
    DeliveryReplaySource → DeliveryFanoutOptions → DeliverySnapshotRequest → DeliverySnapshotRequest
with_payload source opts req =
    if not (source.delivery_payload_id == "") && opts.config_mode == replay_config_original
    then record req {
      delivery_payload_mode = clone;
      source_delivery_payload_id = source.delivery_payload_id;
    }
    else record req { delivery_payload_mode = materialize }

module _ {State : Type 0} (store : FanoutStore State) where
  abbrev pub scheduled_delivery_at : ℕ → ℤ → State → ℤ
  scheduled_delivery_at index rate_limit_per_minute s =
      store.now s +ℤ replay_schedule_delay index rate_limit_per_minute

  unfoldable pub create_delivery_snapshot :
      DeliverySnapshotRequest → Effect State WorkError (Unit {0})
  create_delivery_snapshot req = store.create_delivery_snapshot (completed req)

  unfoldable pub create_delivery_from_target :
      String
      → String
      → DeliveryFanoutTarget
      → ℕ
      → DeliveryFanoutOptions
      → Effect State WorkError (Unit {0})
  create_delivery_from_target tenant_id event_id target index opts s =
      create_delivery_snapshot
        (target_request tenant_id event_id target
          (scheduled_delivery_at index opts.rate_limit_per_minute s) opts)
        s

  -- The loop over the targets; the number counts the deliveries that are created.
  unfoldable pub create_for_targets :
      String
      → String
      → DeliveryFanoutOptions
      → List DeliveryFanoutTarget
      → ℕ
      → Effect State WorkError ℕ
  create_for_targets tenant_id event_id opts [] created = done created
  create_for_targets tenant_id event_id opts (target ∷ targets) created =
      create_delivery_from_target tenant_id event_id target created opts
      >> create_for_targets tenant_id event_id opts targets (suc created)

  unfoldable pub create_deliveries_for_event :
      String → String → DeliveryFanoutOptions → Effect State WorkError ℕ
  create_deliveries_for_event tenant_id event_id opts = do
    event ← asking (store.get_event tenant_id event_id)
    if is_routable opts event
        then (asking (store.list_delivery_fanout_targets tenant_id event.source_id event.type_name)
            >>= λ targets. create_for_targets tenant_id event_id opts targets 0)
        else done 0

  -- The loop over the deliveries that the event had, and its index.
  unfoldable pub create_for_originals :
      String
      → DeliveryFanoutOptions
      → List DeliveryReplaySource
      → ℕ
      → Effect State WorkError (Unit {0})
  create_for_originals tenant_id opts [] i = done tt
  create_for_originals tenant_id opts (original ∷ originals) i =
      (λ s.
        create_delivery_snapshot
          (original_request tenant_id original
            (scheduled_delivery_at i opts.rate_limit_per_minute s) opts)
          s)
      >> create_for_originals tenant_id opts originals (suc i)

  unfoldable pub create_deliveries_from_original_event :
      String → String → DeliveryFanoutOptions → Effect State WorkError ℕ
  create_deliveries_from_original_event tenant_id event_id opts = do
    originals ← asking (store.list_original_delivery_replay_sources tenant_id event_id)
    create_for_originals tenant_id opts originals 0
    done (length originals)

  -- The rest of `createDeliveryFromExisting`, once the request has its target.
  unfoldable pub create_existing :
      DeliveryReplaySource
      → DeliveryFanoutOptions
      → DeliverySnapshotRequest
      → Effect State WorkError ℕ
  create_existing source opts req =
      create_delivery_snapshot (with_payload source opts req) >> done 1

  unfoldable pub create_for_current :
      DeliveryReplaySource
      → DeliveryFanoutOptions
      → DeliverySnapshotRequest
      → Option DeliveryFanoutTarget
      → Effect State WorkError ℕ
  create_for_current source opts req none = done 0
  create_for_current source opts req (some current) =
      create_existing source opts (retargeted current req)

  -- The choice of the target in `createDeliveryFromExisting`.
  unfoldable pub create_from_source :
      String
      → DeliveryReplaySource
      → DeliveryFanoutOptions
      → DeliverySnapshotRequest
      → Effect State WorkError ℕ
  create_from_source tenant_id source opts req =
      if not (opts.config_mode == replay_config_original)
        && (not (source.route_id == "") || not (source.subscription_id == ""))
      then (asking (
            store.get_current_delivery_fanout_target tenant_id source.route_id
              source.subscription_id)
          >>= create_for_current source opts req)
      else create_existing source opts req

  unfoldable pub create_delivery_from_existing :
      String → String → DeliveryFanoutOptions → Effect State WorkError ℕ
  create_delivery_from_existing tenant_id delivery_id opts = do
    source ← asking (store.get_delivery_replay_source tenant_id delivery_id)
    λ s.
        create_from_source tenant_id source opts
          (existing_request tenant_id delivery_id source
            (scheduled_delivery_at 0 opts.rate_limit_per_minute s) opts)
          s

  -- The item that stands for an event without a single delivery.
  unfoldable pub note_none :
      String → String → String → String → String → ℕ → Effect State WorkError ℕ
  note_none tenant_id replay_job_id event_id config_mode text zero =
      store.insert_replay_noop_item tenant_id replay_job_id event_id config_mode text >> done 0
  note_none tenant_id replay_job_id event_id config_mode text (suc count) = done (suc count)

  unfoldable pub replay_event :
      String → String → String → DeliveryFanoutOptions → Effect State WorkError ℕ
  replay_event tenant_id replay_job_id event_id opts =
      if opts.config_mode == replay_config_original
      then (create_deliveries_from_original_event tenant_id event_id opts
          >>= note_none tenant_id replay_job_id event_id opts.config_mode
              "no original deliveries found")
      else (create_deliveries_for_event tenant_id event_id opts
          >>= note_none tenant_id replay_job_id event_id opts.config_mode
              "no current route or subscription matched")

  -- What a replay job does once it is started.
  unfoldable pub run_replay_job :
      String → String → ReplayJobWork → Effect State WorkError (Unit {0})
  run_replay_job tenant_id replay_job_id work =
      let opts : DeliveryFanoutOptions = record {
        replay_job_id = replay_job_id;
        config_mode =
            first_non_empty
              (work.config_mode ∷ work.request_config_mode ∷ replay_config_current ∷ []);
        rate_limit_per_minute =
            if eq_ℤ work.rate_limit_per_minute (pos 0)
            then work.request_rate_limit
            else work.rate_limit_per_minute;
        allow_recovered = false;
      } in
      do
        by_event ←
            if work.event_id == ""
            then done 0
            else replay_event tenant_id replay_job_id work.event_id opts
        by_delivery ←
            if work.delivery_id == ""
            then done 0
            else create_delivery_from_existing tenant_id work.delivery_id opts
        store.complete_replay_job tenant_id replay_job_id (by_event + by_delivery)

  unfoldable pub create_replay_deliveries : String → String → Effect State WorkError (Unit {0})
  create_replay_deliveries tenant_id replay_job_id = do
    work ← asking (store.get_replay_job_work tenant_id replay_job_id)
    if work.state == "paused" || work.state == "pending_approval"
        then fail deferred
        else if not (work.state == "scheduled")
        then done tt
        else (store.start_replay_job tenant_id replay_job_id >>= λ started.
            if not started then fail deferred else run_replay_job tenant_id replay_job_id work)

  -- `ProcessOutbox`, by the kind of the item.
  unfoldable pub process_outbox : String → String → String → Effect State WorkError (Unit {0})
  process_outbox kind tenant_id resource_id =
      let opts : Bool → DeliveryFanoutOptions = λ allow_recovered. record {
        replay_job_id = "";
        config_mode = "";
        rate_limit_per_minute = pos 0;
        allow_recovered = allow_recovered;
      } in
      if kind == "route_event"
      then (create_deliveries_for_event tenant_id resource_id (opts false) >> done tt)
      else if kind == "route_recovered_event"
      then (create_deliveries_for_event tenant_id resource_id (opts true) >> done tt)
      else if kind == "replay_job"
      then create_replay_deliveries tenant_id resource_id
      else done tt
