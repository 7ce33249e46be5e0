-- ===== src/Deliveries/Queue.antt =====
-- The queue operations in internal/adapters/postgres/store.go: `ClaimDueDeliveries`,
-- `RetryDelivery`, `CancelDelivery` and the update of `ReleaseDeadLetter`.
use webhookery.Common.{
  ◌*◌, String, Bool, true, false, not, ◌&&◌, ◌||◌, List, [], ◌∷◌, Option, none, some, Result, ok,
  err, ◌==◌, string_eq, if◌then◌else◌, update_where,
}
use webhookery.Common.Int.{ℤ, pos, ◌+ℤ◌, leb_ℤ}
use webhookery.Retry.{second}
use webhookery.Deliveries.{
  DeliveryState, scheduled, in_progress, succeeded, dead_lettered, canceled, Delivery, Endpoint,
  Tables, StoreError, not_found, is_delivery, is_endpoint,
}

abbrev pub is_scheduled : DeliveryState → Bool
is_scheduled scheduled = true
is_scheduled _ = false

abbrev pub is_in_progress : DeliveryState → Bool
is_in_progress in_progress = true
is_in_progress _ = false

abbrev pub is_final : DeliveryState → Bool
is_final succeeded = true
is_final dead_lettered = true
is_final canceled = true
is_final _ = false

abbrev pub reached : ℤ → Option ℤ → Bool
reached now none = false
reached now (some at) = leb_ℤ at now

abbrev pub is_open : ℤ → Option ℤ → Bool
is_open now none = true
is_open now (some until) = leb_ℤ until now

-- `state='active' AND (disabled_until IS NULL OR disabled_until <= now())` for the joined row.
abbrev pub endpoint_ready : ℤ → List Endpoint → String → String → Bool
endpoint_ready now [] tenant_id id = false
endpoint_ready now (e ∷ es) tenant_id id =
    is_endpoint tenant_id id e && e.state == "active" && is_open now e.disabled_until
    || endpoint_ready now es tenant_id id

abbrev pub is_due : ℤ → List Endpoint → Delivery → Bool
is_due now endpoints d =
    is_scheduled d.state
    && reached now d.next_attempt_at
    && endpoint_ready now endpoints d.tenant_id d.endpoint_id

-- The first statement: leases that have run out.
unfoldable pub release_expired : ℤ → List Delivery → List Delivery
release_expired now =
    update_where (λ d. is_in_progress d.state && reached now d.lock_expires_at)
      (λ d. record d { state = scheduled; locked_by = none; lock_expires_at = none })

-- The second statement. `chosen` is what the ranking of the candidates, the limit and the rows that
-- other transactions have locked leave of them.
unfoldable pub claim_due_deliveries : String → ℤ → (Delivery → Bool) → Tables → Tables
unfolding release_expired
claim_due_deliveries worker_id now chosen t = record t {
  deliveries =
      update_where (λ d. is_due now t.endpoints d && chosen d)
        (λ d. record d {
          state = in_progress;
          locked_by = some worker_id;
          lock_expires_at = some (now +ℤ pos (60 * second));
        })
        (release_expired now t.deliveries);
}

abbrev pub any_row : (Delivery → Bool) → List Delivery → Bool
any_row test [] = false
any_row test (d ∷ ds) = test d || any_row test ds

-- The updates of `RetryDelivery` and `CancelDelivery`; their audit events are in another module.
unfoldable pub retry_delivery : ℤ → String → String → Tables → Result StoreError Tables
retry_delivery now tenant_id delivery_id t =
    if any_row (is_delivery tenant_id delivery_id) t.deliveries
    then ok (record t {
      deliveries =
          update_where (is_delivery tenant_id delivery_id)
            (λ d. record d {
              state = scheduled;
              next_attempt_at = some now;
              locked_by = none;
              lock_expires_at = none;
            })
            t.deliveries;
    })
    else err not_found

unfoldable pub cancel_delivery : String → String → Tables → Result StoreError Tables
cancel_delivery tenant_id delivery_id t =
    let test : Delivery → Bool =
      λ d. is_delivery tenant_id delivery_id d && not (is_final d.state) in
    if any_row test t.deliveries
    then ok (record t {
      deliveries =
          update_where test
            (λ d. record d { state = canceled; locked_by = none; lock_expires_at = none })
            t.deliveries;
    })
    else err not_found

-- The update of `ReleaseDeadLetter`, once the replay job is stored.
unfoldable pub release_dead_letter : String → String → Tables → Tables
release_dead_letter tenant_id entry_id t = record t {
  dead_letter_entries =
      update_where (λ e. e.tenant_id == tenant_id && e.id == entry_id)
        (λ e. record e { state = "released" }) t.dead_letter_entries;
}
