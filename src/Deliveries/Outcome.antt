-- ===== src/Deliveries/Outcome.antt =====
-- When an attempt is recorded, and what it does to the rows (internal/adapters/postgres/store.go).
use webhookery.Common.{
  ℕ, ◌+◌, ◌≤◌, String, Bool, true, false, List, none, some, ok, ◌≡◌, refl, ◌↔◌, ◌⊎◌, arith,
  get_elem?, get_elem?-update_where, if◌then◌else◌, err, inl, inr, map, take, contains→Memᴰ,
  Memᴰ→contains, Bool-cases, string_eq,
}
use mathlib.Core.List.{Memᴰ}
use webhookery.Common.Int.{ℤ, pos, ltb_ℤ}
use webhookery.Retry.{Policy, Digest, classify_status}
use webhookery.Retry.Status.{classify_status-retryable}
use webhookery.Deliveries.{
  DeliveryState, scheduled, succeeded, dead_lettered, Delivery, Tables, DeliveryItem,
  DeliveryResult, is_delivery, Database, refused_by_database,
}
use webhookery.Deliveries.Record.{
  Verdict, verdict_of, delivery_after, write_attempt, insert_accepted, record_delivery_attempt,
  retry_policy_for_delivery,
}

module _ (policy : Policy) (item : DeliveryItem) (result : DeliveryResult)
    (deliver_err : Bool) where
  abbrev pub Answered : Type 0
  Answered = (deliver_err ≡ false) × (200 ≤ result.status_code) × (result.status_code ≤ 299)

  -- An answer that is tried again, while the policy has attempts left.
  abbrev pub TriedAgain : Type 0
  TriedAgain =
      ((classify_status result.status_code).retryable ≡ true)
      × (ltb_ℤ (pos (item.attempt_count + 1)) policy.max_attempts ≡ true)

  -- A delivery's row after the attempt.
  pub record Ends (d : Delivery) : Type 0 where
    pub counted : d.attempt_count ≡ item.attempt_count + 1
    pub unlocked : (d.locked_by ≡ none) × (d.lock_expires_at ≡ none)
    pub succeeded_iff : (d.state ≡ succeeded) ↔ Answered
    pub scheduled_iff : (d.state ≡ scheduled) ↔ TriedAgain
    pub ended : (d.state ≡ succeeded) ⊎ (d.state ≡ scheduled) ⊎ (d.state ≡ dead_lettered)

  verdict : Verdict
  verdict = verdict_of policy item result deliver_err

  succeeds_iff : (verdict.succeeds ≡ true) ↔ Answered
  unfolding verdict verdict_of
  succeeds_iff = ground arith

  will_retry_iff : (verdict.will_retry ≡ true) ↔ TriedAgain
  unfolding verdict verdict_of
  will_retry_iff = (
    λ h. ground arith,
    λ (retryable, left). ground (arith, (classify_status-retryable result.status_code).0 retryable),
  )

  -- The state that the two tests choose.
  state_after : Bool → Bool → DeliveryState
  state_after true again = succeeded
  state_after false true = scheduled
  state_after false false = dead_lettered

  delivery_after-state :
      (v : Verdict) (at : ℤ) (seed : String) (d : Delivery)
      → (delivery_after v at seed d).state ≡ state_after v.succeeds v.will_retry
  unfolding delivery_after state_after
  delivery_after-state v at seed d = ground arith

  kept :
      (v : Verdict) (at : ℤ) (seed : String) (d : Delivery)
      → ((delivery_after v at seed d).attempt_count ≡ v.attempt_no)
        × ((delivery_after v at seed d).locked_by ≡ none)
        × ((delivery_after v at seed d).lock_expires_at ≡ none)
  unfolding delivery_after
  kept v at seed d = ground arith

  state_after-cases :
      (succeeds again : Bool)
      → ((state_after succeeds again ≡ succeeded) ↔ (succeeds ≡ true))
        × ((state_after succeeds again ≡ scheduled) ↔ (succeeds ≡ false) × (again ≡ true))
        × ((state_after succeeds again ≡ succeeded)
            ⊎ (state_after succeeds again ≡ scheduled)
            ⊎ (state_after succeeds again ≡ dead_lettered))
  unfolding state_after
  state_after-cases succeeds again = ground arith

  apart : TriedAgain → verdict.succeeds ≡ false
  unfolding verdict verdict_of
  apart (retryable, left) =
      ground (arith, (classify_status-retryable result.status_code).0 retryable)

  pub delivery_after-Ends :
      (at : ℤ) (seed : String) (d : Delivery)
      → Ends (delivery_after (verdict_of policy item result deliver_err) at seed d)
  unfolding verdict
  delivery_after-Ends at seed d =
      let (counted, no_owner, no_lease) = kept verdict at seed d in
      let (won, again, cases) = state_after-cases verdict.succeeds verdict.will_retry in
      let same = delivery_after-state verdict at seed d in
      record {
        counted = unfold verdict_of in counted;
        unlocked = (no_owner, no_lease);
        succeeded_iff = rw same (λ h. succeeds_iff.0 (won.0 h), λ h. won.1 (succeeds_iff.1 h));
        scheduled_iff =
            rw same
              (λ h. will_retry_iff.0 (again.0 h).1, λ h. again.1 (apart h, will_retry_iff.1 h));
        ended = rw same cases;
      }

-- The rows of the deliveries before and after an attempt: the item's own row ends as `Ends` says,
-- every other row stays.
abbrev pub RowsAfter :
    Policy → DeliveryItem → DeliveryResult → Bool → List Delivery → List Delivery → Type 0
RowsAfter policy item result deliver_err before after =
    (i : ℕ) (d : Delivery)
    → get_elem? before i ≡ some d
    → (d' : Delivery) × (get_elem? after i ≡ some d')
      × (if is_delivery item.tenant_id item.id d
          then Ends policy item result deliver_err d'
          else d' ≡ d)

-- PostgreSQL takes the row of the attempt: the first 16 KiB of the answer's body are a text, and the
-- item's delivery, endpoint, tenant and event exist.
pub record IsAccepted (db : Database) (item : DeliveryItem) (result : DeliveryResult) (t : Tables)
    : Type 0 where
  pub text : db.is_text (take 16384 result.response_body) ≡ true
  pub delivery : Memᴰ item.id (map (λ d. d.id) t.deliveries)
  pub endpoint : Memᴰ item.endpoint_id (map (λ e. e.id) t.endpoints)
  pub tenant : db.has_tenant item.tenant_id ≡ true
  pub event : db.has_event item.event_id ≡ true

insert_accepted-IsAccepted :
    (db : Database) (item : DeliveryItem) (result : DeliveryResult) (t : Tables)
    → (insert_accepted db item result t ≡ true) ↔ IsAccepted db item result t
unfolding insert_accepted
insert_accepted-IsAccepted db item result t = (
  λ h. record {
    text = ground arith;
    delivery = contains→Memᴰ _ _ (ground arith);
    endpoint = contains→Memᴰ _ _ (ground arith);
    tenant = ground arith;
    event = ground arith;
  },
  λ a.
      let delivery = Memᴰ→contains a.delivery in
      let endpoint = Memᴰ→contains a.endpoint in ground (arith, a.text, a.tenant, a.event),
)

module _ (sum256 : Digest) where
  write_attempt-RowsAfter :
      (att_id dlq_id : String) (now : ℤ) (policy : Policy) (item : DeliveryItem)
      (result : DeliveryResult) (deliver_err : Bool) (t : Tables)
      → RowsAfter policy item result deliver_err t.deliveries
          (write_attempt sum256 att_id dlq_id now policy item result
            (verdict_of policy item result deliver_err)
            t).deliveries
  unfolding write_attempt
  write_attempt-RowsAfter att_id dlq_id now policy item result deliver_err t i d here = (
    _,
    get_elem?-update_where _ _ t.deliveries i here,
    row_lem (is_delivery item.tenant_id item.id d) _ _ d,
  )
    where
      row_lem :
          (hit : Bool) (at : ℤ) (seed : String) (d : Delivery)
          → if hit
            then Ends policy item result deliver_err (
                if hit
                then delivery_after (verdict_of policy item result deliver_err) at seed d
                else d)
            else (if hit
                then delivery_after (verdict_of policy item result deliver_err) at seed d
                else d)
              ≡ d
      row_lem true at seed d = delivery_after-Ends policy item result deliver_err at seed d
      row_lem false at seed d = refl

  -- Under a policy that is found, an attempt is recorded exactly when PostgreSQL takes its row, that
  -- is when the cut body is a text and the item's delivery, endpoint, tenant and event exist; else
  -- the call ends in the database's error and no table changes. In a recorded attempt, the item's
  -- delivery counts one attempt more and is unlocked; it has succeeded exactly when no error was
  -- reported and the status is 2xx; it is scheduled again exactly when the status is retryable and
  -- the policy allows a further attempt; otherwise it is dead-lettered. No other delivery changes.
  -- The row's state before the attempt plays no part.
  pub record_delivery_attempt-RowsAfter :
      (db : Database) (att_id dlq_id : String) (now : ℤ) (item : DeliveryItem)
      (result : DeliveryResult) (deliver_err : Bool) (t : Tables) (policy : Policy)
      → retry_policy_for_delivery t item.tenant_id item.retry_policy_id ≡ ok policy
      → IsAccepted db item result t
          × ((t' : Tables) × (record_delivery_attempt sum256 db att_id dlq_id now item result
                  deliver_err t
                ≡ ok t')
              × RowsAfter policy item result deliver_err t.deliveries t'.deliveries)
        ⊎ (¬ IsAccepted db item result t)
          × (record_delivery_attempt sum256 db att_id dlq_id now item result deliver_err t
              ≡ err refused_by_database)
  unfolding record_delivery_attempt
  record_delivery_attempt-RowsAfter db att_id dlq_id now item result deliver_err t policy found =
      let accepted = insert_accepted-IsAccepted db item result t in
      elim (Bool-cases (insert_accepted db item result t)) [
        | inl taken ↦ inl (
          accepted.0 taken,
          (
            write_attempt sum256 att_id dlq_id now policy item result
                (verdict_of policy item result deliver_err) t,
            rw (found, taken) refl,
            write_attempt-RowsAfter att_id dlq_id now policy item result deliver_err t,
          ),
        )
        | inr refused ↦
            inr (λ a. let taken = accepted.1 a in cc (taken, refused), rw (found, refused) refl)
      ]
