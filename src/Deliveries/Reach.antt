-- ===== src/Deliveries/Reach.antt =====
-- What holds of the tables after any sequence of queue operations
-- (internal/adapters/postgres/store.go).
use webhookery.Common.{
  ℕ, ◌≤◌, String, Bool, true, false, not, ◌&&◌, ◌||◌, List, [], ◌∷◌, none, Result, ok, >>=-eq-ok,
  ok-eq, err-ok, ◌≡◌, ◌≢◌, refl, subst, ◌==◌, string_eq, arith, leb, All, All-imp, All-update_where,
  update_where, if◌then◌else◌, Bool-cases, inl, inr,
}
use webhookery.Common.Int.{ℤ}
use webhookery.Retry.{Policy, Digest}
use webhookery.Deliveries.{
  scheduled, dead_lettered, Delivery, Endpoint, DeadLetterEntry, Tables, DeliveryItem,
  DeliveryResult, is_delivery, Database, refused_by_database,
}
use webhookery.Deliveries.Record.{
  Verdict, verdict_of, delivery_after, endpoint_after, write_attempt, insert_accepted,
  record_delivery_attempt, retry_policy_for_delivery,
}
use webhookery.Deliveries.Queue.{
  release_expired, claim_due_deliveries, retry_delivery, cancel_delivery, release_dead_letter,
  any_row, is_final,
}

-- Some dead letter entry, open or released, names the delivery.
abbrev pub has_entry : String → String → List DeadLetterEntry → Bool
has_entry tenant_id id [] = false
has_entry tenant_id id (e ∷ es) =
    tenant_id == e.tenant_id && id == e.delivery_id || has_entry tenant_id id es

abbrev pub Buried : List DeadLetterEntry → Delivery → Type 0
Buried entries d = d.state ≡ dead_lettered → has_entry d.tenant_id d.id entries ≡ true

-- Three failures in a row open the circuit and disable the endpoint for a time.
abbrev pub Tripped : Endpoint → Type 0
Tripped e = 3 ≤ e.failure_count → (e.circuit_state ≡ "open") × (e.disabled_until ≢ none)

pub record IsConsistent (t : Tables) : Type 0 where
  pub buried : All (Buried t.dead_letter_entries) t.deliveries
  pub tripped : All Tripped t.endpoints

-- One operation on the tables.
pub data Step (sum256 : Digest) : Tables → Tables → Type 0 where
  created :
      (t : Tables) (d : Delivery)
      → d.state ≡ scheduled
      → Step sum256 t (record t { deliveries = d ∷ t.deliveries })
  added :
      (t : Tables) (e : Endpoint)
      → e.failure_count ≡ 0
      → Step sum256 t (record t { endpoints = e ∷ t.endpoints })
  claimed :
      (t : Tables) (worker_id : String) (now : ℤ) (chosen : Delivery → Bool)
      → Step sum256 t (claim_due_deliveries worker_id now chosen t)
  recorded :
      (t t' : Tables) (db : Database) (att_id dlq_id : String) (now : ℤ) (item : DeliveryItem)
      (result : DeliveryResult) (deliver_err : Bool)
      → record_delivery_attempt sum256 db att_id dlq_id now item result deliver_err t ≡ ok t'
      → Step sum256 t t'
  retried :
      (t t' : Tables) (now : ℤ) (tenant_id id : String)
      → retry_delivery now tenant_id id t ≡ ok t'
      → Step sum256 t t'
  withdrawn :
      (t t' : Tables) (tenant_id id : String)
      → cancel_delivery tenant_id id t ≡ ok t'
      → Step sum256 t t'
  released :
      (t : Tables) (tenant_id entry_id : String)
      → Step sum256 t (release_dead_letter tenant_id entry_id t)

endpoint_after-Tripped :
    (now : ℤ) (succeeds again : Bool) (e : Endpoint)
    → Tripped e
    → Tripped (endpoint_after now succeeds again e)
unfolding endpoint_after
endpoint_after-Tripped now true again e h k = absurd (omega (arith, k))
endpoint_after-Tripped now false true e h k = rw (leb-true k) (refl, λ q. cc)
  where
    leb-true : {n : ℕ} → 3 ≤ n → leb 3 n ≡ true
    leb-true h = ground arith
endpoint_after-Tripped now false false e h k = (refl, λ q. cc)

grown :
    (entry : DeadLetterEntry) (entries : List DeadLetterEntry) (d : Delivery)
    → Buried entries d
    → Buried (entry ∷ entries) d
grown entry entries d h dead =
    rw (h dead) (or_lem (d.tenant_id == entry.tenant_id && d.id == entry.delivery_id))
  where
    or_lem : (b : Bool) → (b || true) ≡ true
    or_lem b = ground arith

delivery_after-key :
    (v : Verdict) (at : ℤ) (seed : String) (d : Delivery)
    → ((delivery_after v at seed d).tenant_id ≡ d.tenant_id)
      × ((delivery_after v at seed d).id ≡ d.id)
unfolding delivery_after
delivery_after-key v at seed d = ground arith

dead_after :
    (v : Verdict) (at : ℤ) (seed : String) (d : Delivery)
    → (delivery_after v at seed d).state ≡ dead_lettered
    → (v.succeeds || v.will_retry) ≡ false
unfolding delivery_after
dead_after v at seed d h = ground arith

-- The entries that an attempt leaves.
abbrev buried_by : Bool → DeadLetterEntry → List DeadLetterEntry → List DeadLetterEntry
buried_by spared entry entries = if spared then entries else entry ∷ entries

buried_by-grown :
    (spared : Bool) (entry : DeadLetterEntry) (entries : List DeadLetterEntry) (d : Delivery)
    → Buried entries d
    → Buried (buried_by spared entry entries) d
buried_by-grown true entry entries d h = h
buried_by-grown false entry entries d h = grown entry entries d h

delivery_after-Buried :
    (v : Verdict) (at : ℤ) (seed : String) (entry : DeadLetterEntry)
    (entries : List DeadLetterEntry) (d : Delivery)
    → is_delivery entry.tenant_id entry.delivery_id d ≡ true
    → Buried (buried_by (v.succeeds || v.will_retry) entry entries) (delivery_after v at seed d)
delivery_after-Buried v at seed entry entries d hit dead =
    let (tenant, id) = delivery_after-key v at seed d in
    rw (dead_after v at seed d dead, tenant, id, hit) refl

write_attempt-IsConsistent :
    (sum256 : Digest) (att_id dlq_id : String) (now : ℤ) (policy : Policy) (item : DeliveryItem)
    (result : DeliveryResult) (v : Verdict) (t : Tables)
    → IsConsistent t
    → IsConsistent (write_attempt sum256 att_id dlq_id now policy item result v t)
unfolding write_attempt
write_attempt-IsConsistent sum256 att_id dlq_id now policy item result v t c = record {
  buried =
      All-update_where _ _ t.deliveries (λ d hit h. delivery_after-Buried v _ _ _ _ d hit)
        (All-imp t.deliveries (λ d h. buried_by-grown (v.succeeds || v.will_retry) _ _ d h)
          c.buried);
  tripped =
      All-update_where _ _ t.endpoints
        (λ e hit h. endpoint_after-Tripped now v.succeeds v.will_retry e h) c.tripped;
}

claim_due_deliveries-Buried :
    (worker_id : String) (now : ℤ) (chosen : Delivery → Bool) (t : Tables)
    → All (Buried t.dead_letter_entries) t.deliveries
    → All (Buried t.dead_letter_entries) (claim_due_deliveries worker_id now chosen t).deliveries
unfolding claim_due_deliveries release_expired
claim_due_deliveries-Buried worker_id now chosen t c =
    All-update_where _ _ _ (λ d hit h dead. cc)
      (All-update_where _ _ t.deliveries (λ d hit h dead. cc) c)

retry_delivery-IsConsistent :
    (now : ℤ) (tenant_id id : String) (t t' : Tables)
    → IsConsistent t
    → retry_delivery now tenant_id id t ≡ ok t'
    → IsConsistent t'
unfolding retry_delivery
retry_delivery-IsConsistent now tenant_id id t t' c h =
    elim (Bool-cases (any_row (is_delivery tenant_id id) t.deliveries)) [
      | inl found ↦ subst IsConsistent (ok-eq (rw found at h)) (record {
        buried = All-update_where _ _ t.deliveries (λ d hit b dead. cc) c.buried;
        tripped = c.tripped;
      })
      | inr missing ↦ absurd (err-ok (rw missing at h))
    ]

cancel_delivery-IsConsistent :
    (tenant_id id : String) (t t' : Tables)
    → IsConsistent t
    → cancel_delivery tenant_id id t ≡ ok t'
    → IsConsistent t'
unfolding cancel_delivery
cancel_delivery-IsConsistent tenant_id id t t' c h =
    elim (Bool-cases
      (any_row (λ d. is_delivery tenant_id id d && not (is_final d.state)) t.deliveries)) [
        | inl found ↦ subst IsConsistent (ok-eq (rw found at h)) (record {
          buried = All-update_where _ _ t.deliveries (λ d hit b dead. cc) c.buried;
          tripped = c.tripped;
        })
        | inr missing ↦ absurd (err-ok (rw missing at h))
      ]

has_entry-released :
    (test : DeadLetterEntry → Bool) (tenant_id id : String) (es : List DeadLetterEntry)
    → has_entry tenant_id id (update_where test (λ e. record e { state = "released" }) es)
      ≡ has_entry tenant_id id es
unfolding update_where
has_entry-released test tenant_id id [] = refl
has_entry-released test tenant_id id (e ∷ es) =
    rw (has_entry-released test tenant_id id es) (same (test e))
  where
    same :
        (hit : Bool)
        → (tenant_id == (if hit then record e { state = "released" } else e).tenant_id
              && id == (if hit then record e { state = "released" } else e).delivery_id
            || has_entry tenant_id id es)
          ≡ (tenant_id == e.tenant_id && id == e.delivery_id || has_entry tenant_id id es)
    same true = refl
    same false = refl

release_dead_letter-IsConsistent :
    (tenant_id entry_id : String) (t : Tables)
    → IsConsistent t
    → IsConsistent (release_dead_letter tenant_id entry_id t)
unfolding release_dead_letter
release_dead_letter-IsConsistent tenant_id entry_id t c = record {
  buried =
      All-imp t.deliveries
        (λ d h dead. rw (has_entry-released _ d.tenant_id d.id t.dead_letter_entries) (h dead))
        c.buried;
  tripped = c.tripped;
}

-- A row that was not refused is the one that was written.
taken_lem :
    (accepted : Bool) (u : Tables) {t' : Tables}
    → (if accepted then Result.ok u else Result.err refused_by_database) ≡ Result.ok t'
    → u ≡ t'
taken_lem true u h = ok-eq h
taken_lem false u h = absurd (err-ok h)

Step-IsConsistent :
    (sum256 : Digest) (t t' : Tables) → Step sum256 t t' → IsConsistent t → IsConsistent t'
unfolding record_delivery_attempt claim_due_deliveries
Step-IsConsistent sum256 t t' (created _ d fresh) c = record {
  buried = (λ dead. cc, c.buried);
  tripped = c.tripped;
}
Step-IsConsistent sum256 t t' (added _ e fresh) c = record {
  buried = c.buried;
  tripped = (λ three. absurd (omega (arith, fresh, three)), c.tripped);
}
Step-IsConsistent sum256 t t' (claimed _ worker_id now chosen) c = record {
  buried = claim_due_deliveries-Buried worker_id now chosen t c.buried;
  tripped = c.tripped;
}
Step-IsConsistent sum256 t t' (recorded _ _ db att_id dlq_id now item result deliver_err h) c =
    let (policy, found, written) =
      >>=-eq-ok (retry_policy_for_delivery t item.tenant_id item.retry_policy_id) _ h in
    subst IsConsistent (taken_lem (insert_accepted db item result t) _ written) (
      write_attempt-IsConsistent sum256 att_id dlq_id now policy item result
        (verdict_of policy item result deliver_err) t c)
Step-IsConsistent sum256 t t' (retried _ _ now tenant_id id h) c =
    retry_delivery-IsConsistent now tenant_id id t t' c h
Step-IsConsistent sum256 t t' (withdrawn _ _ tenant_id id h) c =
    cancel_delivery-IsConsistent tenant_id id t t' c h
Step-IsConsistent sum256 t t' (released _ tenant_id entry_id) c =
    release_dead_letter-IsConsistent tenant_id entry_id t c

-- The tables that some sequence of operations leads to.
pub data Reached (sum256 : Digest) : Tables → Tables → Type 0 where
  here : (t : Tables) → Reached sum256 t t
  after : (t u v : Tables) → Reached sum256 t u → Step sum256 u v → Reached sum256 t v

-- From consistent tables, such as those without deliveries and endpoints, any sequence of creating,
-- claiming, recording, retrying, canceling and releasing leads to tables in which every
-- dead-lettered delivery has a dead letter entry, and every endpoint with three failures in a row
-- has an open circuit and a time until which it is disabled.
pub Reached-IsConsistent :
    (sum256 : Digest) (t t' : Tables) → Reached sum256 t t' → IsConsistent t → IsConsistent t'
Reached-IsConsistent sum256 t t' (here _) c = c
Reached-IsConsistent sum256 t t' (after _ u _ r s) c =
    Step-IsConsistent sum256 u t' s (Reached-IsConsistent sum256 t u r c)
