-- ===== src/Fanout/Confined.antt =====
-- A replay or a routing writes for its own tenant only (internal/app/delivery_fanout.go).
use webhookery.Common.{
  ℕ, zero, suc, ◌+◌, String, Bool, true, false, not, ◌&&◌, ◌||◌, List, [], ◌∷◌, Option, none, some,
  ◌≡◌, subst, inl, inr, if◌then◌else◌, ◌==◌, string_eq, eq_iff, Bool-cases,
}
use webhookery.Common.Effects.{done, fail, Keeps, chain-Keeps}
use webhookery.Fanout.{
  deferred, DeliveryFanoutTarget, DeliverySnapshotRequest, DeliveryReplaySource, ReplayJobWork,
  DeliveryFanoutOptions, FanoutStore, replay_config_original, target_request, first_non_empty,
  replay_config_current,
}
use webhookery.Fanout.Run.{
  completed, is_routable, original_request, retargeted, with_payload, create_delivery_snapshot,
  create_delivery_from_target, create_for_targets, create_deliveries_for_event,
  create_for_originals, create_deliveries_from_original_event, create_existing, create_for_current,
  create_from_source, create_delivery_from_existing, note_none, replay_event, run_replay_job,
  create_replay_deliveries, process_outbox, scheduled_delivery_at,
}
use webhookery.Fanout.Requests.{
  IsProper, PayloadOf, completed-IsProper, target_request-PayloadOf, target_request-tenant,
  original_request-tenant, existing_request-config, original_request-PayloadOf,
  with_payload-PayloadOf, with_payload-tenant,
}

module _ {State : Type 0} (store : FanoutStore State) (tenant_id : String)
    (Holds : State → Type 0) where
  -- The writes for one tenant, whose snapshots are proper, keep what holds of the store.
  pub record IsConfined : Type 0 where
    pub snapshots :
        (req : DeliverySnapshotRequest)
        → IsProper tenant_id req
        → Keeps Holds (store.create_delivery_snapshot req)
    pub noop_items :
        (job event mode text : String)
        → Keeps Holds (store.insert_replay_noop_item tenant_id job event mode text)
    pub starts : (job : String) → Keeps Holds (store.start_replay_job tenant_id job)
    pub ends : (job : String) (n : ℕ) → Keeps Holds (store.complete_replay_job tenant_id job n)

  module _ (confined : IsConfined) where
    snapshot-Keeps :
        (req : DeliverySnapshotRequest)
        → req.tenant_id ≡ tenant_id
        → PayloadOf req
        → Keeps Holds (create_delivery_snapshot store req)
    unfolding create_delivery_snapshot
    snapshot-Keeps req owned payload =
        confined.snapshots (completed req)
          (subst (λ t. IsProper t (completed req)) owned (completed-IsProper req payload))

    targets-Keeps :
        (event_id : String) (opts : DeliveryFanoutOptions) (targets : List DeliveryFanoutTarget)
        (created : ℕ)
        → Keeps Holds (create_for_targets store tenant_id event_id opts targets created)
    unfolding create_for_targets create_delivery_from_target
    targets-Keeps event_id opts [] created s holds = holds
    targets-Keeps event_id opts (target ∷ targets) created s holds =
        let at = scheduled_delivery_at store created opts.rate_limit_per_minute s in
        chain-Keeps Holds _ _
          (snapshot-Keeps (target_request tenant_id event_id target at opts)
            (target_request-tenant tenant_id event_id target at opts)
            (target_request-PayloadOf tenant_id event_id target at opts) s holds)
          (λ ignored. targets-Keeps event_id opts targets (suc created))

    event-Keeps :
        (event_id : String) (opts : DeliveryFanoutOptions)
        → Keeps Holds (create_deliveries_for_event store tenant_id event_id opts)
    unfolding create_deliveries_for_event
    event-Keeps event_id opts s holds = chain-Keeps Holds _ _ holds (λ event s holds.
        elim (Bool-cases (is_routable opts event)) [
          | inl goes ↦
              rw goes
                (chain-Keeps Holds _ _ holds (λ targets. targets-Keeps event_id opts targets 0))
          | inr stays ↦ rw stays holds
        ])

    originals-Keeps :
        (opts : DeliveryFanoutOptions) (originals : List DeliveryReplaySource) (i : ℕ)
        → opts.config_mode ≡ replay_config_original
        → Keeps Holds (create_for_originals store tenant_id opts originals i)
    unfolding create_for_originals
    originals-Keeps opts [] i mode s holds = holds
    originals-Keeps opts (original ∷ originals) i mode s holds =
        let at = scheduled_delivery_at store i opts.rate_limit_per_minute s in
        chain-Keeps Holds _ _
          (snapshot-Keeps (original_request tenant_id original at opts)
            (original_request-tenant tenant_id original at opts)
            (original_request-PayloadOf tenant_id original at opts mode) s holds)
          (λ ignored. originals-Keeps opts originals (suc i) mode)

    original-Keeps :
        (event_id : String) (opts : DeliveryFanoutOptions)
        → opts.config_mode ≡ replay_config_original
        → Keeps Holds (create_deliveries_from_original_event store tenant_id event_id opts)
    unfolding create_deliveries_from_original_event
    original-Keeps event_id opts mode s holds = chain-Keeps Holds _ _ holds (λ originals s holds.
        chain-Keeps Holds _ _ (originals-Keeps opts originals 0 mode s holds)
          (λ ignored s holds. holds))

    existing-Keeps :
        (source : DeliveryReplaySource) (opts : DeliveryFanoutOptions)
        (req : DeliverySnapshotRequest)
        → req.tenant_id ≡ tenant_id
        → req.config_mode ≡ first_non_empty (opts.config_mode ∷ replay_config_current ∷ [])
        → Keeps Holds (create_existing store source opts req)
    unfolding create_existing
    existing-Keeps source opts req owned mode s holds =
        chain-Keeps Holds _ _
          (snapshot-Keeps (with_payload source opts req)
            (rw (with_payload-tenant source opts req) owned)
            (with_payload-PayloadOf source opts req mode) s holds)
          (λ ignored s holds. holds)

    current-Keeps :
        (source : DeliveryReplaySource) (opts : DeliveryFanoutOptions)
        (req : DeliverySnapshotRequest) (current : Option DeliveryFanoutTarget)
        → req.tenant_id ≡ tenant_id
        → req.config_mode ≡ first_non_empty (opts.config_mode ∷ replay_config_current ∷ [])
        → Keeps Holds (create_for_current store source opts req current)
    unfolding create_for_current retargeted
    current-Keeps source opts req none owned mode s holds = holds
    current-Keeps source opts req (some current) owned mode s holds =
        existing-Keeps source opts (retargeted current req) owned mode s holds

    source-Keeps :
        (source : DeliveryReplaySource) (opts : DeliveryFanoutOptions)
        (req : DeliverySnapshotRequest)
        → req.tenant_id ≡ tenant_id
        → req.config_mode ≡ first_non_empty (opts.config_mode ∷ replay_config_current ∷ [])
        → Keeps Holds (create_from_source store tenant_id source opts req)
    unfolding create_from_source
    source-Keeps source opts req owned mode s holds =
        elim (Bool-cases (
          not (opts.config_mode == replay_config_original)
          && (not (source.route_id == "") || not (source.subscription_id == "")))) [
            | inl moved ↦ rw moved (
                chain-Keeps Holds _ _ holds
                  (λ current. current-Keeps source opts req current owned mode))
            | inr stays ↦ rw stays (existing-Keeps source opts req owned mode s holds)
          ]

    delivery-Keeps :
        (delivery_id : String) (opts : DeliveryFanoutOptions)
        → Keeps Holds (create_delivery_from_existing store tenant_id delivery_id opts)
    unfolding create_delivery_from_existing
    delivery-Keeps delivery_id opts s holds = chain-Keeps Holds _ _ holds (λ source s holds.
        let at = scheduled_delivery_at store 0 opts.rate_limit_per_minute s in
        let (owned, mode) = existing_request-config tenant_id delivery_id source at opts in
        source-Keeps source opts _ owned mode s holds)

    note-Keeps :
        (job event mode text : String) (count : ℕ)
        → Keeps Holds (note_none store tenant_id job event mode text count)
    unfolding note_none
    note-Keeps job event mode text zero s holds =
        chain-Keeps Holds _ _ (confined.noop_items job event mode text s holds)
          (λ ignored s holds. holds)
    note-Keeps job event mode text (suc count) s holds = holds

    replay_event-Keeps :
        (job event_id : String) (opts : DeliveryFanoutOptions)
        → Keeps Holds (replay_event store tenant_id job event_id opts)
    unfolding replay_event
    replay_event-Keeps job event_id opts s holds =
        elim (Bool-cases (opts.config_mode == replay_config_original)) [
          | inl original ↦ rw original (
              chain-Keeps Holds _ _ (original-Keeps event_id opts ((eq_iff _ _).0 original) s holds)
                (note-Keeps job event_id opts.config_mode _))
          | inr current ↦ rw current (
              chain-Keeps Holds _ _ (event-Keeps event_id opts s holds)
                (note-Keeps job event_id opts.config_mode _))
        ]

    by_event-Keeps :
        (job event_id : String) (opts : DeliveryFanoutOptions)
        → Keeps Holds
            (if event_id == "" then done 0 else replay_event store tenant_id job event_id opts)
    by_event-Keeps job event_id opts s holds = elim (Bool-cases (event_id == "")) [
      | inl none_ ↦ rw none_ holds
      | inr named ↦ rw named (replay_event-Keeps job event_id opts s holds)
    ]

    by_delivery-Keeps :
        (delivery_id : String) (opts : DeliveryFanoutOptions)
        → Keeps Holds (
            if delivery_id == ""
            then done 0
            else create_delivery_from_existing store tenant_id delivery_id opts)
    by_delivery-Keeps delivery_id opts s holds = elim (Bool-cases (delivery_id == "")) [
      | inl none_ ↦ rw none_ holds
      | inr named ↦ rw named (delivery-Keeps delivery_id opts s holds)
    ]

    run-Keeps :
        (job : String) (work : ReplayJobWork)
        → Keeps Holds (run_replay_job store tenant_id job work)
    unfolding run_replay_job
    run-Keeps job work s holds =
        chain-Keeps Holds _ _ (by_event-Keeps job work.event_id _ s holds) (λ by_event s holds.
          chain-Keeps Holds _ _ (by_delivery-Keeps work.delivery_id _ s holds)
            (λ by_delivery. confined.ends job (by_event + by_delivery)))

    started-Keeps :
        (job : String) (work : ReplayJobWork) (started : Bool)
        → Keeps Holds
            (if not started then fail deferred else run_replay_job store tenant_id job work)
    started-Keeps job work true s holds = run-Keeps job work s holds
    started-Keeps job work false s holds = holds

    replay-Keeps : (job : String) → Keeps Holds (create_replay_deliveries store tenant_id job)
    unfolding create_replay_deliveries
    replay-Keeps job s holds = chain-Keeps Holds _ _ holds (λ work s holds.
        elim (Bool-cases (work.state == "paused" || work.state == "pending_approval")) [
          | inl waits ↦ rw waits holds
          | inr goes ↦ elim (Bool-cases (work.state == "scheduled")) [
            | inl scheduled ↦
                rw (goes, scheduled)
                  (chain-Keeps Holds _ _ (confined.starts job s holds) (started-Keeps job work))
            | inr other ↦ rw (goes, other) holds
          ]
        ])

    -- Whatever holds of a store and is kept by the writes for one tenant, if their snapshots belong
    -- to the tenant, name a configuration, and copy a payload only under the original configuration,
    -- is kept by processing any outbox item of that tenant, on every path, errors included.
    pub process_outbox-Keeps :
        (kind resource_id : String) → Keeps Holds (process_outbox store kind tenant_id resource_id)
    unfolding process_outbox
    process_outbox-Keeps kind resource_id s holds = elim (Bool-cases (kind == "route_event")) [
      | inl route ↦
          rw route
            (chain-Keeps Holds _ _ (event-Keeps resource_id _ s holds) (λ ignored s holds. holds))
      | inr other ↦ elim (Bool-cases (kind == "route_recovered_event")) [
        | inl recovered ↦
            rw (other, recovered)
              (chain-Keeps Holds _ _ (event-Keeps resource_id _ s holds) (λ ignored s holds. holds))
        | inr third ↦ elim (Bool-cases (kind == "replay_job")) [
          | inl replay ↦ rw (other, third, replay) (replay-Keeps resource_id s holds)
          | inr unknown ↦ rw (other, third, unknown) holds
        ]
      ]
    ]
