-- ===== src/Deliveries.antt =====
-- Deliveries in internal/adapters/postgres/store.go: the rows that claiming and recording an
-- attempt read and write. A transaction is one step on the tables; times are nanoseconds, and an
-- integer column that reaches 2 ^ 31, where PostgreSQL refuses the update, is not modelled.
pub mod Record
pub mod Queue
pub mod Outcome
pub mod Reach
pub mod Bounded
use webhookery.Common.{ℕ, String, Bool, List, Option, ◌==◌, string_eq, ◌&&◌}
use webhookery.Common.Int.{ℤ}

pub data DeliveryState : Type 0 where
  scheduled : DeliveryState
  in_progress : DeliveryState
  succeeded : DeliveryState
  dead_lettered : DeliveryState
  canceled : DeliveryState

-- A NULL is none.
pub record Delivery : Type 0 where
  pub id : String
  pub tenant_id : String
  pub event_id : String
  pub endpoint_id : String
  pub retry_policy_id : String
  pub retry_seed : String
  pub state : DeliveryState
  pub attempt_count : ℕ
  pub next_attempt_at : Option ℤ
  pub locked_by : Option String
  pub lock_expires_at : Option ℤ

pub record Endpoint : Type 0 where
  pub id : String
  pub tenant_id : String
  pub state : String
  pub circuit_state : String
  pub failure_count : ℕ
  pub disabled_until : Option ℤ

pub record DeliveryAttempt : Type 0 where
  pub id : String
  pub tenant_id : String
  pub delivery_id : String
  pub event_id : String
  pub endpoint_id : String
  pub request_sha256 : String
  pub response_sha256 : String
  pub attempt_no : ℕ
  pub state : String
  pub response_status : ℕ
  pub response_body_truncated : List ℕ
  pub failure_class : String
  pub retryable : Bool
  pub retry_delay_ms : ℤ
  pub next_retry_at : Option ℤ
  pub completed_at : ℤ

pub record DeadLetterEntry : Type 0 where
  pub id : String
  pub tenant_id : String
  pub delivery_id : String
  pub event_id : String
  pub reason : String
  pub state : String

pub record RetryPolicy : Type 0 where
  pub id : String
  pub tenant_id : String
  pub state : String
  pub max_attempts : ℤ
  pub max_duration_seconds : ℕ
  pub initial_delay_seconds : ℕ
  pub max_delay_seconds : ℕ

pub record Tables : Type 0 where
  pub deliveries : List Delivery
  pub endpoints : List Endpoint
  pub delivery_attempts : List DeliveryAttempt
  pub dead_letter_entries : List DeadLetterEntry
  pub retry_policies : List RetryPolicy

pub record DeliveryItem : Type 0 where
  pub id : String
  pub tenant_id : String
  pub event_id : String
  pub endpoint_id : String
  pub attempt_count : ℕ
  pub retry_policy_id : String
  pub retry_seed : String
  pub body : List ℕ

pub record DeliveryResult : Type 0 where
  pub status_code : ℕ
  pub response_body : List ℕ
  pub failure_class : String

pub data StoreError : Type 0 where
  not_found : StoreError
  refused_by_database : StoreError

-- What PostgreSQL checks of a row of delivery_attempts beside the tables below: which bytes it takes
-- for a text value (valid UTF-8 without a zero byte), and which tenants and events there are.
pub record Database : Type 0 where
  pub is_text : List ℕ → Bool
  pub has_tenant : String → Bool
  pub has_event : String → Bool

-- `WHERE tenant_id = … AND id = …`
abbrev pub is_delivery : String → String → Delivery → Bool
is_delivery tenant_id id d = d.tenant_id == tenant_id && d.id == id

abbrev pub is_endpoint : String → String → Endpoint → Bool
is_endpoint tenant_id id e = e.tenant_id == tenant_id && e.id == id
