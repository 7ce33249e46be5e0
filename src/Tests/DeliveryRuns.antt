-- ===== src/Tests/DeliveryRuns.antt =====
-- Runs of deliveries and seeded delays (internal/adapters/postgres/store.go, internal/retry/retry.go).
use webhookery.Common.{
  ℕ, ◌*◌, Bool, true, false, List, [], ◌∷◌, Option, none, some, Result, ok, ◌≡◌, refl, arith,
  update_where, err, leb, ◌&&◌, ◌==◌, string_eq, take, contains, ◌⊎◌,
}
use webhookery.Common.Bytes.{utf8, from_big_endian}
use webhookery.Common.Decimal.{itoa}
use webhookery.Common.Int.{pos, ◌+ℤ◌, wrap64}
use webhookery.Retry.{
  Policy, Digest, default_policy, second, hour, seeded_number, next_deterministic_delay, delay_cap,
  double_until, min_duration, normalize_attempt, classify_status,
}
use webhookery.Retry.Delay.{IsSane}
use webhookery.Retry.Seeded.{seed_material-eq}
use webhookery.Deliveries.{
  DeliveryState, scheduled, in_progress, dead_lettered, canceled, Delivery, Endpoint, Tables,
  DeliveryItem, DeliveryResult, Database, refused_by_database,
}
use webhookery.Deliveries.Record.{
  retry_policy_for_delivery, insert_accepted, record_delivery_attempt, write_attempt, verdict_of,
  delivery_after,
}
use webhookery.Deliveries.Queue.{claim_due_deliveries, release_expired}
use webhookery.Deliveries.Outcome.{IsAccepted, RowsAfter, record_delivery_attempt-RowsAfter}
use webhookery.Deliveries.Reach.{IsConsistent, Step, Reached, Reached-IsConsistent}
use webhookery.Deliveries.Bounded.{Answer, Settled, run_attempts, run_attempts-Settled}

-- A digest that keeps its bytes.
same_bytes : Digest
unfolding Digest
same_bytes = λ bytes. bytes

abbrev sane : IsSane default_policy (10 * second) (6 * hour)
sane = record {
  initial_is = refl;
  max_is = refl;
  initial_small = omega arith;
  cap_small = omega arith;
}

abbrev two_parts : List (List ℕ)
two_parts = utf8 "ten_1" ∷ (7 ∷ []) ∷ []

seed_material-eq_example : two_parts ≡ two_parts
unfolding utf8
seed_material-eq_example =
    seed_material-eq two_parts two_parts (omega arith, (omega arith, tt))
      (omega arith, (omega arith, tt)) refl

-- The bytes of "s", 0 and "2" as a number: 0x730032.
next_deterministic_delay_run :
    next_deterministic_delay same_bytes default_policy (pos 2) "s" ≡ pos 0x730032
unfolding next_deterministic_delay seeded_number same_bytes utf8 itoa from_big_endian delay_cap
    double_until min_duration normalize_attempt wrap64 ◌+ℤ◌
next_deterministic_delay_run = refl

abbrev row : DeliveryState → ℕ → Delivery
row state attempt_count = record {
  id = "del_1";
  tenant_id = "ten_1";
  event_id = "evt_1";
  endpoint_id = "end_1";
  retry_policy_id = "";
  retry_seed = "s";
  state = state;
  attempt_count = attempt_count;
  next_attempt_at = some (pos 0);
  locked_by = none;
  lock_expires_at = none;
}

abbrev endpoint : Endpoint
endpoint = record {
  id = "end_1";
  tenant_id = "ten_1";
  state = "active";
  circuit_state = "closed";
  failure_count = 0;
  disabled_until = none;
}

abbrev tables : Delivery → Tables
tables d = record {
  deliveries = d ∷ [];
  endpoints = endpoint ∷ [];
  delivery_attempts = [];
  dead_letter_entries = [];
  retry_policies = [];
}

abbrev item : DeliveryItem
item = record {
  id = "del_1";
  tenant_id = "ten_1";
  event_id = "evt_1";
  endpoint_id = "end_1";
  attempt_count = 0;
  retry_policy_id = "";
  retry_seed = "s";
  body = [];
}

abbrev unavailable : DeliveryResult
unavailable = record { status_code = 503; response_body = []; failure_class = "" }

-- What the client returns when no connection is made.
abbrev unreachable : DeliveryResult
unreachable = record { status_code = 0; response_body = []; failure_class = "network" }

found : retry_policy_for_delivery (tables (row in_progress 0)) "ten_1" "" ≡ ok default_policy
unfolding retry_policy_for_delivery
found = refl

-- A database that takes ASCII without a zero byte, for the tenant and the event of the tests.
abbrev is_ascii_text : List ℕ → Bool
is_ascii_text [] = true
is_ascii_text (b ∷ bytes) = leb 1 b && leb b 127 && is_ascii_text bytes

abbrev db : Database
db = record {
  is_text = is_ascii_text;
  has_tenant = λ id. id == "ten_1";
  has_event = λ id. id == "evt_1";
}

record_delivery_attempt-RowsAfter_example :
    IsAccepted db item unavailable (tables (row in_progress 0))
      × ((t' : Tables) × (record_delivery_attempt same_bytes db "att_1" "dlq_1"
              (pos 5)
              item
              unavailable
              false
              (tables (row in_progress 0))
            ≡ ok t')
          × RowsAfter default_policy item unavailable false (row in_progress 0 ∷ []) t'.deliveries)
    ⊎ (¬ IsAccepted db item unavailable (tables (row in_progress 0)))
      × (record_delivery_attempt same_bytes db "att_1" "dlq_1"
            (pos 5)
            item
            unavailable
            false
            (tables (row in_progress 0))
          ≡ err refused_by_database)
record_delivery_attempt-RowsAfter_example =
    record_delivery_attempt-RowsAfter same_bytes db "att_1" "dlq_1" (pos 5) item unavailable false
      (tables (row in_progress 0)) default_policy found

-- An answer with a zero byte is not recorded, although it has status 200.
zero_byte_refused :
    record_delivery_attempt same_bytes db "att_1" "dlq_1"
      (pos 5)
      item
      (record { status_code = 200; response_body = 79 ∷ 0 ∷ 75 ∷ []; failure_class = "" })
      false
      (tables (row in_progress 0))
    ≡ err refused_by_database
unfolding record_delivery_attempt retry_policy_for_delivery insert_accepted take
zero_byte_refused = refl

abbrev states_after : DeliveryState → DeliveryResult → Bool → Option DeliveryState
states_after state result deliver_err =
    elim (record_delivery_attempt same_bytes db "att_1" "dlq_1" (pos 5) item result deliver_err
      (tables (row state 0))) [
        | Result.ok t ↦ elim t.deliveries [ [] ↦ none | d ∷ ds ↦ some d.state ]
        | Result.err e ↦ none
      ]

-- A delivery that was canceled while its attempt was under way is scheduled again.
canceled_rescheduled : states_after canceled unavailable false ≡ some scheduled
unfolding record_delivery_attempt write_attempt verdict_of delivery_after classify_status
    retry_policy_for_delivery update_where insert_accepted contains take
canceled_rescheduled = refl

-- A connection that fails at the first attempt is not tried again.
network_dead_lettered : states_after in_progress unreachable true ≡ some dead_lettered
unfolding record_delivery_attempt write_attempt verdict_of delivery_after classify_status
    retry_policy_for_delivery update_where insert_accepted contains take
network_dead_lettered = refl

consistent : IsConsistent (tables (row scheduled 0))
consistent = record {
  buried = (λ dead. cc, tt);
  tripped = (λ three. absurd (omega (arith, three)), tt);
}

claimed_tables : Tables
claimed_tables = claim_due_deliveries "w" (pos 3) (λ d. true) (tables (row scheduled 0))

claiming : Reached same_bytes (tables (row scheduled 0)) claimed_tables
unfolding claimed_tables
claiming =
    Reached.after (tables (row scheduled 0)) _ _ (Reached.here (tables (row scheduled 0)))
      (Step.claimed (tables (row scheduled 0)) "w" (pos 3) (λ d. true))

Reached-IsConsistent_example : IsConsistent claimed_tables
Reached-IsConsistent_example =
    Reached-IsConsistent same_bytes (tables (row scheduled 0)) claimed_tables claiming consistent

-- The row that was due is taken with a lease of a minute.
claimed_row :
    claimed_tables.deliveries
    ≡ record (row in_progress 0) {
      locked_by = some "w";
      lock_expires_at = some (pos 60_000_000_003);
    }
      ∷ []
unfolding claimed_tables claim_due_deliveries release_expired update_where ◌+ℤ◌
claimed_row = refl

abbrev two_attempts : Policy
two_attempts = record default_policy { max_attempts = pos 2 }

abbrev answer : Answer
answer = record {
  result = unavailable;
  deliver_err = false;
  next_retry_at = pos 9;
  retry_seed = "s";
}

run_attempts-Settled_example :
    Settled 2 (run_attempts two_attempts [] (answer ∷ answer ∷ []) (row scheduled 0))
run_attempts-Settled_example =
    run_attempts-Settled two_attempts [] 2 (answer ∷ answer ∷ []) (row scheduled 0) refl refl
      (omega arith) (omega arith)
