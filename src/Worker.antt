-- ===== src/Worker.antt =====
-- internal/worker/worker.go: one run of the worker, phase by phase, over the stores and clients that
-- it is given. A nil store or client is none. Every call takes the state of the outside and returns
-- the new one.
pub mod Run
pub mod Phases
pub mod Items
pub mod Sends
use webhookery.Common.{ℕ, String, List, Option, Result, Bool}
use webhookery.Common.Int.{ℤ}
use webhookery.Common.Effects.{Effect}
use webhookery.Deliveries.{DeliveryItem, DeliveryResult}

-- What `errors.Is` tells apart of an error.
pub data RunError : Type 0 where
  deferred : RunError
  context_canceled : RunError
  deadline_exceeded : RunError
  other : String → RunError

pub record OutboxItem : Type 0 where
  pub id : String
  pub tenant_id : String
  pub kind : String
  pub resource_id : String

pub data Phase : Type 0 where
  outbox : Phase
  delivery : Phase
  retention : Phase
  metrics : Phase
  alerts : Phase
  audit_chain_backfill : Phase
  notification : Phase
  siem : Phase

pub record PhaseResult : Type 0 where
  pub phase : Phase
  pub error : Option RunError

-- `OutboxStore` and `OutboxProcessor`.
pub record Outbox (State : Type 0) : Type 0 where
  pub claim_outbox : ℕ → Effect State RunError (List OutboxItem)
  pub process_outbox : Option (OutboxItem → Effect State RunError (Unit {0}))
  pub complete_outbox : String → Effect State RunError (Unit {0})

-- A store and its client, for items and results of one kind: `DeliveryStore` with `DeliveryClient`,
-- and the notification and SIEM stores with their `SignalClient`. A delivery's result comes with its
-- error, if there is one.
pub record Sender (State Item Answer : Type 0) : Type 0 where
  pub claim : ℕ → Effect State RunError (List Item)
  pub deliver : Item → State → (Answer × Option RunError) × State
  pub record_attempt : Item → Answer → Option RunError → Effect State RunError (Unit {0})

-- The fields of `Worker`; `limit` is the batch size that is asked for.
pub record Worker (State Signal SignalAnswer : Type 0) : Type 0 where
  pub outbox_store : Outbox State
  pub deliveries : Option (Sender State DeliveryItem DeliveryResult)
  pub notifications : Option (Sender State Signal SignalAnswer)
  pub enqueue_siem : ℕ → Effect State RunError (Unit {0})
  pub siem_deliveries : Option (Sender State Signal SignalAnswer)
  pub apply_retention_policies : Option (ℕ → Effect State RunError (Unit {0}))
  pub refresh_metrics_rollups : Option (ℕ → Effect State RunError (Unit {0}))
  pub evaluate_alert_rules : Option (ℕ → Effect State RunError (Unit {0}))
  pub backfill_audit_chain : Option (ℕ → Effect State RunError (Unit {0}))
  pub limit : ℤ
