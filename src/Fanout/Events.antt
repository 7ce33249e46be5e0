-- ===== src/Fanout/Events.antt =====
-- Which deliveries routing an event asks for (internal/app/delivery_fanout.go).
use webhookery.Common.{
  ℕ, suc, ◌+◌, String, Bool, true, false, List, [], ◌∷◌, ◌++◌, Result, ok, err, ◌≡◌, refl, sym, ap,
  ◌∙◌, ◌⊎◌, inl, inr, arith, length, ◌==◌, string_eq, eq_iff, Bool-cases, if◌then◌else◌,
}
use mathlib.Core.List.{append_assoc, append-nil}
use webhookery.Common.Int.{ℤ, ◌+ℤ◌}
use webhookery.Common.Effects.{chain}
use webhookery.Fanout.{
  WorkError, deferred, Event, DeliveryFanoutTarget, DeliverySnapshotRequest, DeliveryFanoutOptions,
  FanoutStore, first_non_empty, replay_schedule_delay, target_request,
}
use webhookery.Fanout.Run.{
  is_routable, completed, create_delivery_snapshot, create_delivery_from_target, create_for_targets,
  create_deliveries_for_event,
}

-- The event may be routed: its signature was verified, or it was recovered from the provider and
-- the caller lets recovered events through.
abbrev pub IsTrusted : DeliveryFanoutOptions → Event → Type 0
IsTrusted opts event =
    (event.verified ≡ true)
    ⊎ (opts.allow_recovered ≡ true) × (event.verify_reason ≡ "provider_api_reconciliation")

is_routable→IsTrusted :
    (opts : DeliveryFanoutOptions) (event : Event)
    → is_routable opts event ≡ true
    → IsTrusted opts event
unfolding is_routable
is_routable→IsTrusted opts event h =
    ground (arith, eq_iff event.verify_reason "provider_api_reconciliation")

IsTrusted→is_routable :
    (opts : DeliveryFanoutOptions) (event : Event)
    → IsTrusted opts event
    → is_routable opts event ≡ true
unfolding is_routable
IsTrusted→is_routable opts event t =
    ground (arith, eq_iff event.verify_reason "provider_api_reconciliation")

-- A delivery that is asked for a target, the `i`th one that is made.
pub record IsDeliveryFor (tenant_id event_id : String) (opts : DeliveryFanoutOptions) (now : ℤ)
    (i : ℕ) (target : DeliveryFanoutTarget) (req : DeliverySnapshotRequest) : Type 0 where
  pub owner : (req.tenant_id ≡ tenant_id) × (req.event_id ≡ event_id)
  pub endpoint : req.endpoint_id ≡ target.endpoint_id
  pub route : (req.route_id ≡ target.route_id) × (req.route_version_id ≡ target.route_version_id)
  pub subscription :
      (req.subscription_id ≡ target.subscription_id)
      × (req.subscription_version_id ≡ target.subscription_version_id)
  pub transformation : req.transformation_version_id ≡ target.transformation_version_id
  pub retry_policy : req.retry_policy_id ≡ (
      if target.route_retry_policy_id == ""
      then target.endpoint_retry_policy_id
      else target.route_retry_policy_id)
  pub job : (req.replay_job_id ≡ opts.replay_job_id) × (req.original_delivery_id ≡ "")
  pub payload : (req.delivery_payload_mode ≡ "materialize") × (req.source_delivery_payload_id ≡ "")
  pub config : req.config_mode ≡ (if opts.config_mode == "" then "current" else opts.config_mode)
  pub due : req.next_attempt_at ≡ now +ℤ replay_schedule_delay i opts.rate_limit_per_minute

-- One delivery for each target, in the order of the targets.
abbrev pub OneEach :
    String
    → String
    → DeliveryFanoutOptions
    → ℤ
    → ℕ
    → List DeliveryFanoutTarget
    → List DeliverySnapshotRequest
    → Type 0
OneEach tenant_id event_id opts now i [] [] = Unit {0}
OneEach tenant_id event_id opts now i (target ∷ targets) (req ∷ reqs) =
    IsDeliveryFor tenant_id event_id opts now i target req
    × OneEach tenant_id event_id opts now (suc i) targets reqs
OneEach tenant_id event_id opts now i [] (req ∷ reqs) = ⊥
OneEach tenant_id event_id opts now i (target ∷ targets) [] = ⊥

retry_policy_lem :
    (route endpoint : String)
    → first_non_empty (route ∷ endpoint ∷ []) ≡ (if route == "" then endpoint else route)
unfolding first_non_empty
retry_policy_lem route endpoint = elim (Bool-cases (endpoint == "")) [
  | inl blank ↦
      rw blank (ap (λ e. if route == "" then e else route) (sym ((eq_iff endpoint "").0 blank)))
  | inr named ↦ rw named refl
]

config_lem :
    (mode : String)
    → (if first_non_empty (mode ∷ "current" ∷ []) == ""
        then "current"
        else first_non_empty (mode ∷ "current" ∷ []))
      ≡ (if mode == "" then "current" else mode)
unfolding first_non_empty
config_lem mode = elim (Bool-cases (mode == "")) [
  | inl blank ↦ rw blank refl
  | inr named ↦ rw (named, named) refl
]

abbrev reported :
    ℕ → List DeliverySnapshotRequest → Result WorkError ℕ × List DeliverySnapshotRequest
reported n log = (ok n, log)

same_report :
    {n m : ℕ} {l k : List DeliverySnapshotRequest} → n ≡ m → l ≡ k → reported n l ≡ reported m k
same_report {m} {l} same alike = ap (λ n. reported n l) same ∙ ap (reported m) alike

module _ (now : ℤ) (events : String → String → Result WorkError Event)
    (targets_of : String → String → String → Result WorkError (List DeliveryFanoutTarget)) where
  -- The store as the list of the deliveries that were asked for, over given events and targets. What
  -- a replay asks of a store plays no part.
  abbrev pub routing_store : FanoutStore (List DeliverySnapshotRequest)
  routing_store = record {
    now = λ log. now;
    get_event = λ tenant_id event_id log. events tenant_id event_id;
    list_delivery_fanout_targets =
        λ tenant_id source_id type_name log. targets_of tenant_id source_id type_name;
    create_delivery_snapshot = λ req log. (ok tt, log ++ req ∷ []);
    get_replay_job_work = λ tenant_id job log. err deferred;
    start_replay_job = λ tenant_id job log. (err deferred, log);
    list_original_delivery_replay_sources = λ tenant_id event_id log. err deferred;
    get_delivery_replay_source = λ tenant_id delivery_id log. err deferred;
    get_current_delivery_fanout_target = λ tenant_id route_id subscription_id log. err deferred;
    insert_replay_noop_item = λ tenant_id job event_id mode text log. (err deferred, log);
    complete_replay_job = λ tenant_id job n log. (err deferred, log);
  }

  module _ (tenant_id event_id : String) (opts : DeliveryFanoutOptions) where
    requests : ℕ → List DeliveryFanoutTarget → List DeliverySnapshotRequest
    requests i [] = []
    requests i (target ∷ targets) =
        completed (
          target_request tenant_id event_id target
            (now +ℤ replay_schedule_delay i opts.rate_limit_per_minute) opts)
        ∷ requests (suc i) targets

    requests-OneEach :
        (i : ℕ) (targets : List DeliveryFanoutTarget)
        → OneEach tenant_id event_id opts now i targets (requests i targets)
    unfolding requests completed target_request
    requests-OneEach i [] = tt
    requests-OneEach i (target ∷ targets) = (
      record {
        owner = (refl, refl);
        endpoint = refl;
        route = (refl, refl);
        subscription = (refl, refl);
        transformation = refl;
        retry_policy = retry_policy_lem target.route_retry_policy_id _;
        job = (refl, refl);
        payload = (refl, refl);
        config = config_lem opts.config_mode;
        due = refl;
      },
      requests-OneEach (suc i) targets,
    )

    create_for_targets-requests :
        (targets : List DeliveryFanoutTarget) (i : ℕ) (log : List DeliverySnapshotRequest)
        → create_for_targets routing_store tenant_id event_id opts targets i log
          ≡ (ok (i + length (requests i targets)), log ++ requests i targets)
    unfolding create_for_targets create_delivery_from_target create_delivery_snapshot chain requests
    create_for_targets-requests [] i log = same_report (omega arith) (sym (append-nil log))
    create_for_targets-requests (target ∷ targets) i log =
        create_for_targets-requests targets (suc i) _
        ∙ same_report (omega arith) (append_assoc log (_ ∷ []) (requests (suc i) targets))

    -- When the store has the event, lists its targets and takes every delivery, routing the event
    -- reports the number of deliveries that it asked for. There is none when the event is not
    -- trusted. When it is, there is exactly one for each target, in their order, each for its own
    -- target's endpoint, route, subscription, transformation and retry policy, of the tenant and the
    -- event, due at its place in the rate.
    pub create_deliveries_for_event-Routed :
        (event : Event) (targets : List DeliveryFanoutTarget) (log : List DeliverySnapshotRequest)
        → events tenant_id event_id ≡ ok event
        → targets_of tenant_id event.source_id event.type_name ≡ ok targets
        → (created : List DeliverySnapshotRequest) × (create_deliveries_for_event routing_store
              tenant_id event_id opts log
            ≡ (ok (length created), log ++ created))
          × ((¬ IsTrusted opts event) × (created ≡ [])
              ⊎ IsTrusted opts event × OneEach tenant_id event_id opts now 0 targets created)
    unfolding create_deliveries_for_event chain
    create_deliveries_for_event-Routed event targets log found listed =
        elim (Bool-cases (is_routable opts event)) [
          | inl goes ↦ (
            requests 0 targets,
            rw (found, goes, listed)
                (create_for_targets-requests targets 0 log ∙ same_report (omega arith) refl),
            inr (is_routable→IsTrusted opts event goes, requests-OneEach 0 targets),
          )
          | inr stays ↦ (
            [],
            rw (found, stays) (ap (λ l. (ok 0, l)) (sym (append-nil log))),
            inl (λ t. apart stays (IsTrusted→is_routable opts event t), refl),
          )
        ]
      where
        apart : {b : Bool} → b ≡ false → b ≡ true → ⊥
        apart f t = cc
