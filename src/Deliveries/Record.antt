-- ===== src/Deliveries/Record.antt =====
-- `RecordDeliveryAttempt` and `retryPolicyForDelivery` in internal/adapters/postgres/store.go.
use webhookery.Common.{
  ℕ, ◌+◌, ◌-◌, ◌*◌, ◌/◌, String, Bool, true, false, not, ◌&&◌, ◌||◌, List, [], ◌∷◌, Option, none,
  some, Result, ok, err, ◌>>=◌, ◌==◌, string_eq, leb, if◌then◌else◌, update_where, take, map,
  contains,
}
use webhookery.Common.Int.{ℤ, pos, negsuc, ◌+ℤ◌, ltb_ℤ, wrap64}
use webhookery.Common.Bytes.{hex}
use webhookery.Retry.{
  Policy, Digest, default_policy, second, seed, classify_status, next_deterministic_delay,
}
use webhookery.Deliveries.{
  scheduled, succeeded, dead_lettered, Delivery, Endpoint, RetryPolicy, Tables, DeliveryAttempt,
  DeadLetterEntry, DeliveryItem, DeliveryResult, StoreError, not_found, refused_by_database,
  Database, is_delivery, is_endpoint,
}

abbrev pub find_policy : String → String → List RetryPolicy → Option RetryPolicy
find_policy tenant_id id [] = none
find_policy tenant_id id (p ∷ ps) =
    if p.tenant_id == tenant_id && p.id == id && p.state == "active"
    then some p
    else find_policy tenant_id id ps

abbrev seconds : ℕ → ℤ
seconds n = wrap64 (pos (n * second))

unfoldable pub retry_policy_for_delivery : Tables → String → String → Result StoreError Policy
retry_policy_for_delivery t tenant_id retry_policy_id =
    if retry_policy_id == ""
    then ok default_policy
    else elim (find_policy tenant_id retry_policy_id t.retry_policies) [
      | none ↦ err not_found
      | some p ↦ ok (record {
        max_attempts = p.max_attempts;
        max_duration = seconds p.max_duration_seconds;
        initial_delay = seconds p.initial_delay_seconds;
        max_delay = seconds p.max_delay_seconds;
      })
    ]

-- What `RecordDeliveryAttempt` works out before it writes.
pub record Verdict : Type 0 where
  pub attempt_no : ℕ
  pub succeeds : Bool
  pub retryable : Bool
  pub failure_class : String
  pub will_retry : Bool

unfoldable pub verdict_of : Policy → DeliveryItem → DeliveryResult → Bool → Verdict
verdict_of policy item result deliver_err =
    let attempt_no = item.attempt_count + 1 in
    let fails =
      deliver_err || not (leb 200 result.status_code) || not (leb result.status_code 299) in
    let class = classify_status result.status_code in
    let retryable = fails && class.retryable in
    record {
      attempt_no = attempt_no;
      succeeds = not fails;
      retryable = retryable;
      failure_class =
          if fails && result.failure_class == "" then class.reason else result.failure_class;
      will_retry = fails && retryable && ltb_ℤ (pos attempt_no) policy.max_attempts;
    }

-- `now() + interval 'n minutes'`
abbrev pub in_minutes : ℤ → ℕ → ℤ
in_minutes now n = now +ℤ pos (n * 60 * second)

-- The endpoint's row after a success, after a failure that is tried again, and after the last one.
unfoldable pub endpoint_after : ℤ → Bool → Bool → Endpoint → Endpoint
endpoint_after now true will_retry e = record e {
  failure_count = 0;
  circuit_state = "closed";
  disabled_until = none;
}
endpoint_after now false true e = record e {
  failure_count = e.failure_count + 1;
  circuit_state = if leb 3 (e.failure_count + 1) then "open" else e.circuit_state;
  disabled_until =
      if leb 3 (e.failure_count + 1) then some (in_minutes now 5) else e.disabled_until;
}
endpoint_after now false false e = record e {
  failure_count = e.failure_count + 1;
  circuit_state = "open";
  disabled_until = some (in_minutes now 10);
}

-- The delivery's row after the attempt; the second text and the time are of the next attempt.
unfoldable pub delivery_after : Verdict → ℤ → String → Delivery → Delivery
delivery_after v next_retry_at retry_seed d =
    let released = record d {
      attempt_count = v.attempt_no;
      locked_by = none;
      lock_expires_at = none;
    } in
    if v.succeeds
    then record released { state = succeeded }
    else if v.will_retry
    then record released {
      state = scheduled;
      next_attempt_at = some next_retry_at;
      retry_seed = retry_seed;
    }
    else record released { state = dead_lettered }

abbrev milliseconds : ℤ → ℤ
milliseconds (pos n) = pos (n / 1_000_000)
milliseconds (negsuc n) = if leb 999_999 n then negsuc ((n - 999_999) / 1_000_000) else pos 0

abbrev pub body_limit : ℕ
body_limit = 16384

-- Whether PostgreSQL takes the row that the INSERT into delivery_attempts brings: the bytes of the
-- cut body are a text, and the rows that the foreign keys name are there.
unfoldable pub insert_accepted : Database → DeliveryItem → DeliveryResult → Tables → Bool
unfolding contains
insert_accepted db item result t =
    db.is_text (take body_limit result.response_body)
    && contains (map (λ d. d.id) t.deliveries) item.id
    && contains (map (λ e. e.id) t.endpoints) item.endpoint_id
    && db.has_tenant item.tenant_id
    && db.has_event item.event_id

module _ (sum256 : Digest) where
  -- The rows that one attempt writes, for the policy and the verdict.
  unfoldable pub write_attempt :
      String → String → ℤ → Policy → DeliveryItem → DeliveryResult → Verdict → Tables → Tables
  unfolding Digest
  write_attempt att_id dlq_id now policy item result v t =
      let retry_seed =
        if item.retry_seed == ""
        then seed sum256 (item.tenant_id ∷ item.id ∷ item.event_id ∷ item.endpoint_id ∷ [])
        else item.retry_seed in
      let retry_delay =
        if v.will_retry
        then next_deterministic_delay sum256 policy (pos v.attempt_no) retry_seed
        else pos 0 in
      let next_retry_at = now +ℤ retry_delay in
      let attempt : DeliveryAttempt = record {
        id = att_id;
        tenant_id = item.tenant_id;
        delivery_id = item.id;
        event_id = item.event_id;
        endpoint_id = item.endpoint_id;
        request_sha256 = hex (sum256 item.body);
        response_sha256 = hex (sum256 result.response_body);
        attempt_no = v.attempt_no;
        state = if v.succeeds then "succeeded" else "failed";
        response_status = result.status_code;
        response_body_truncated = take body_limit result.response_body;
        failure_class = v.failure_class;
        retryable = v.retryable;
        retry_delay_ms = milliseconds retry_delay;
        next_retry_at = if v.will_retry then some next_retry_at else none;
        completed_at = now;
      } in
      let dead_letter : DeadLetterEntry = record {
        id = dlq_id;
        tenant_id = item.tenant_id;
        delivery_id = item.id;
        event_id = item.event_id;
        reason = v.failure_class;
        state = "open";
      } in
      record t {
        delivery_attempts = attempt ∷ t.delivery_attempts;
        deliveries =
            update_where (is_delivery item.tenant_id item.id)
              (delivery_after v next_retry_at retry_seed) t.deliveries;
        endpoints =
            update_where (is_endpoint item.tenant_id item.endpoint_id)
              (endpoint_after now v.succeeds v.will_retry) t.endpoints;
        dead_letter_entries =
            if v.succeeds || v.will_retry
            then t.dead_letter_entries
            else dead_letter ∷ t.dead_letter_entries;
      }

  -- The fresh identifiers and the clock come first. A refused INSERT rolls the transaction back.
  unfoldable pub record_delivery_attempt :
      Database
      → String
      → String
      → ℤ
      → DeliveryItem
      → DeliveryResult
      → Bool
      → Tables
      → Result StoreError Tables
  record_delivery_attempt db att_id dlq_id now item result deliver_err t = do
    policy ← retry_policy_for_delivery t item.tenant_id item.retry_policy_id
    if insert_accepted db item result t
        then ok (
            write_attempt att_id dlq_id now policy item result
              (verdict_of policy item result deliver_err) t)
        else err refused_by_database
