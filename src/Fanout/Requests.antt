-- ===== src/Fanout/Requests.antt =====
-- The snapshots that the fanout asks for (internal/app/delivery_fanout.go).
use webhookery.Common.{
  String, Bool, true, false, not, ◌&&◌, [], ◌∷◌, ◌≡◌, ◌≢◌, refl, ◌∙◌, ◌⊎◌, inl, inr, arith,
  if◌then◌else◌, ◌==◌, string_eq, eq_iff, Bool-cases,
}
use webhookery.Common.Int.{ℤ}
use webhookery.Fanout.{
  DeliveryFanoutTarget, DeliverySnapshotRequest, DeliveryReplaySource, DeliveryFanoutOptions,
  materialize, clone, replay_config_original, delivery_snapshot_request_from_source, target_request,
  first_non_empty, replay_config_current,
}
use webhookery.Fanout.Run.{completed, original_request, existing_request, with_payload}

-- A snapshot that is asked for a tenant: it is the tenant's, names a configuration, and a payload is
-- copied from an earlier delivery only under the original configuration.
pub record IsProper (tenant_id : String) (req : DeliverySnapshotRequest) : Type 0 where
  pub owned : req.tenant_id ≡ tenant_id
  pub configured : req.config_mode ≢ ""
  pub payload :
      (req.delivery_payload_mode ≡ materialize)
      ⊎ (req.delivery_payload_mode ≡ clone) × (req.config_mode ≡ replay_config_original)

completed_config : (mode : String) → (if mode == "" then replay_config_current else mode) ≢ ""
completed_config mode h = elim (Bool-cases (mode == "")) [
  | inl blank ↦ current-blank (rw blank at h)
  | inr named ↦ apart ((eq_iff mode "").1 (rw named at h)) named
]
  where
    current-blank : replay_config_current ≡ "" → ⊥
    current-blank e = ground (arith, (eq_iff "current" "").1 e)

    apart : {b : Bool} → b ≡ true → b ≡ false → ⊥
    apart t f = cc

pub PayloadOf : DeliverySnapshotRequest → Type 0
PayloadOf req =
    (req.delivery_payload_mode ≡ materialize)
    ⊎ (req.delivery_payload_mode ≡ clone) × (req.config_mode ≡ replay_config_original)

pub completed-IsProper :
    (req : DeliverySnapshotRequest) → PayloadOf req → IsProper req.tenant_id (completed req)
unfolding completed PayloadOf
completed-IsProper req payload = record {
  owned = refl;
  configured = completed_config req.config_mode;
  payload = elim payload [
    | inl fresh ↦ inl (rw fresh refl)
    | inr (copied, mode) ↦ inr (rw copied refl, rw mode refl)
  ];
}

original_lem :
    (mode : String)
    → mode ≡ replay_config_original
    → first_non_empty (mode ∷ replay_config_current ∷ []) ≡ replay_config_original
unfolding first_non_empty
original_lem mode h = rw h refl

pub original_request-PayloadOf :
    (tenant_id : String) (original : DeliveryReplaySource) (at : ℤ) (opts : DeliveryFanoutOptions)
    → opts.config_mode ≡ replay_config_original
    → PayloadOf (original_request tenant_id original at opts)
unfolding PayloadOf original_request delivery_snapshot_request_from_source
original_request-PayloadOf tenant_id original at opts mode =
    inr (refl, original_lem opts.config_mode mode)

pub target_request-PayloadOf :
    (tenant_id event_id : String) (target : DeliveryFanoutTarget) (at : ℤ)
    (opts : DeliveryFanoutOptions)
    → PayloadOf (target_request tenant_id event_id target at opts)
unfolding PayloadOf target_request
target_request-PayloadOf tenant_id event_id target at opts = inl refl

pub with_payload-PayloadOf :
    (source : DeliveryReplaySource) (opts : DeliveryFanoutOptions) (req : DeliverySnapshotRequest)
    → req.config_mode ≡ first_non_empty (opts.config_mode ∷ replay_config_current ∷ [])
    → PayloadOf (with_payload source opts req)
unfolding PayloadOf with_payload
with_payload-PayloadOf source opts req same =
    elim (Bool-cases
      (not (source.delivery_payload_id == "") && opts.config_mode == replay_config_original)) [
        | inl original ↦ rw original (
            inr (
              refl,
              same ∙ original_lem opts.config_mode ((eq_iff _ _).0 (and_right _ _ original)),
            ))
        | inr other ↦ rw other (inl refl)
      ]
  where
    and_right : (a b : Bool) → (a && b) ≡ true → b ≡ true
    and_right a b h = ground arith

pub with_payload-tenant :
    (source : DeliveryReplaySource) (opts : DeliveryFanoutOptions) (req : DeliverySnapshotRequest)
    → (with_payload source opts req).tenant_id ≡ req.tenant_id
unfolding with_payload
with_payload-tenant source opts req = ground arith

pub target_request-tenant :
    (tenant_id event_id : String) (target : DeliveryFanoutTarget) (at : ℤ)
    (opts : DeliveryFanoutOptions)
    → (target_request tenant_id event_id target at opts).tenant_id ≡ tenant_id
unfolding target_request
target_request-tenant tenant_id event_id target at opts = refl

pub original_request-tenant :
    (tenant_id : String) (original : DeliveryReplaySource) (at : ℤ) (opts : DeliveryFanoutOptions)
    → (original_request tenant_id original at opts).tenant_id ≡ tenant_id
unfolding original_request delivery_snapshot_request_from_source
original_request-tenant tenant_id original at opts = refl

pub existing_request-config :
    (tenant_id delivery_id : String) (source : DeliveryReplaySource) (at : ℤ)
    (opts : DeliveryFanoutOptions)
    → ((existing_request tenant_id delivery_id source at opts).tenant_id ≡ tenant_id)
      × ((existing_request tenant_id delivery_id source at opts).config_mode
          ≡ first_non_empty (opts.config_mode ∷ replay_config_current ∷ []))
unfolding existing_request delivery_snapshot_request_from_source
existing_request-config tenant_id delivery_id source at opts = (refl, refl)
