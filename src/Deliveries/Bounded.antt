-- ===== src/Deliveries/Bounded.antt =====
-- How long a delivery is tried (internal/adapters/postgres/store.go and internal/retry/retry.go).
use webhookery.Common.{
  ℕ, ◌+◌, ◌≤◌, ◌<◌, String, Bool, true, false, List, [], ◌∷◌, ◌≡◌, refl, ap, ◌⊎◌, inl, inr, arith,
  length, if◌then◌else◌,
}
use webhookery.Common.Int.{ℤ, pos, negsuc, pos_part, ltb_ℤ}
use webhookery.Retry.{Policy}
use webhookery.Deliveries.{
  scheduled, succeeded, dead_lettered, Delivery, DeliveryItem, DeliveryResult,
}
use webhookery.Deliveries.Record.{verdict_of, delivery_after}
use webhookery.Deliveries.Queue.{is_scheduled}
use webhookery.Deliveries.Outcome.{delivery_after-Ends}

-- What the endpoint answers, and the time and seed that are stored for the next attempt.
pub record Answer : Type 0 where
  pub result : DeliveryResult
  pub deliver_err : Bool
  pub next_retry_at : ℤ
  pub retry_seed : String

-- The columns of the row that `ClaimDueDeliveries` returns.
abbrev pub item_of : List ℕ → Delivery → DeliveryItem
item_of body d = record {
  id = d.id;
  tenant_id = d.tenant_id;
  event_id = d.event_id;
  endpoint_id = d.endpoint_id;
  attempt_count = d.attempt_count;
  retry_policy_id = d.retry_policy_id;
  retry_seed = d.retry_seed;
  body = body;
}

abbrev pub attempt_row : Policy → List ℕ → Answer → Delivery → Delivery
attempt_row policy body a d =
    delivery_after (verdict_of policy (item_of body d) a.result a.deliver_err) a.next_retry_at
      a.retry_seed d

-- The row after answers that are recorded, read as long as the delivery is scheduled.
pub run_attempts : Policy → List ℕ → List Answer → Delivery → Delivery
run_attempts policy body [] d = d
run_attempts policy body (a ∷ answers) d =
    let rest = run_attempts policy body answers (attempt_row policy body a d) in
    if is_scheduled d.state then rest else d

run_attempts_stopped :
    (policy : Policy) (body : List ℕ) (answers : List Answer) (d : Delivery)
    → is_scheduled d.state ≡ false
    → run_attempts policy body answers d ≡ d
unfolding run_attempts
run_attempts_stopped policy body [] d h = refl
run_attempts_stopped policy body (a ∷ answers) d h = rw h refl

run_attempts_next :
    (policy : Policy) (body : List ℕ) (a : Answer) (answers : List Answer) (d : Delivery)
    → d.state ≡ scheduled
    → run_attempts policy body (a ∷ answers) d
      ≡ run_attempts policy body answers (attempt_row policy body a d)
unfolding run_attempts
run_attempts_next policy body a answers d h = rw (ap is_scheduled h) refl

-- A delivery that came to an end within `most` attempts.
pub record Settled (most : ℕ) (d : Delivery) : Type 0 where
  pub ended : (d.state ≡ succeeded) ⊎ (d.state ≡ dead_lettered)
  pub attempts : d.attempt_count ≤ most

stopped-Settled :
    (policy : Policy) (body : List ℕ) (answers : List Answer) (d : Delivery) (most : ℕ)
    → (d.state ≡ succeeded) ⊎ (d.state ≡ dead_lettered)
    → d.attempt_count ≤ most
    → Settled most (run_attempts policy body answers d)
stopped-Settled policy body answers d most e h =
    rw (run_attempts_stopped policy body answers d (ends e)) (record { ended = e; attempts = h })
  where
    ends : (d.state ≡ succeeded) ⊎ (d.state ≡ dead_lettered) → is_scheduled d.state ≡ false
    ends (inl won) = ap is_scheduled won
    ends (inr dead) = ap is_scheduled dead

below : (n m : ℕ) {k : ℕ} (limit : ℤ) → limit ≡ pos m → ltb_ℤ (pos n) limit ≡ true → k ≡ n → k < m
below n m (pos l) same h counted = ground (arith, ap pos_part same)
below n m (negsuc l) same h counted = cc

-- A scheduled delivery that has attempts left under its policy is settled by as many recorded
-- answers as are left, whatever they are: it succeeds or is dead-lettered, and at most
-- `max_attempts` of its attempts are recorded.
pub run_attempts-Settled :
    (policy : Policy) (body : List ℕ) (most : ℕ) (answers : List Answer) (d : Delivery)
    → policy.max_attempts ≡ pos most
    → d.state ≡ scheduled
    → d.attempt_count < most
    → most ≤ d.attempt_count + length answers
    → Settled most (run_attempts policy body answers d)
run_attempts-Settled policy body most [] d limit waiting left enough = absurd (omega arith)
run_attempts-Settled policy body most (a ∷ answers) d limit waiting left enough =
    let next = attempt_row policy body a d in
    let e =
      delivery_after-Ends policy (item_of body d) a.result a.deliver_err a.next_retry_at
        a.retry_seed d in
    rw (run_attempts_next policy body a answers d waiting) (elim e.ended [
      | inl won ↦ stopped-Settled policy body answers next most (inl won) (omega (arith, e.counted))
      | inr other ↦ elim other [
        | inl again ↦
            run_attempts-Settled policy body most answers next limit again
              (below _ _ _ limit (e.scheduled_iff.0 again).1 e.counted) (omega (arith, e.counted))
        | inr dead ↦
            stopped-Settled policy body answers next most (inr dead) (omega (arith, e.counted))
      ]
    ])
