-- ===== src/Policies/Sane.antt =====
-- The delays of a policy that was created (internal/app/control.go, internal/retry/retry.go).
use webhookery.Common.{
  ℕ, ◌*◌, ◌^◌, ◌≤◌, min, String, Bool, true, false, not, ◌||◌, ◌∷◌, ◌==◌, string_eq, nat_eq,
  if◌then◌else◌, Result, ok, err, ◌≡◌, ◌≢◌, refl, arith, Bool-cases, subst, ◌∙◌, inl, inr,
  >>=-eq-ok, ok-eq,
}
use webhookery.Common.Int.{ℤ, pos, negsuc, pos_part, wrap64, wrap64_small, ltb_ℤ, leb_ℤ}
use webhookery.Retry.{Policy, second, delay_cap, normalize_attempt}
use webhookery.Retry.Delay.{IsSane, delay_cap-min}
use webhookery.Deliveries.{Tables}
use webhookery.Deliveries.Record.{retry_policy_for_delivery}
use webhookery.Policies.{
  CreateRetryPolicyRequest, ControlError, refuse_if, trimmed, validate_retry_policy, policy_row,
  create_retry_policy,
}

pub refuse_lem :
    (test : Bool) (reason : String) (next : Result ControlError (Unit {0}))
    → refuse_if test reason next ≡ ok tt
    → (test ≡ false) × (next ≡ ok tt)
unfolding refuse_if
refuse_lem true reason next h = cc
refuse_lem false reason next h = (refl, h)

-- The delays of an accepted request, in seconds.
pub record IsAccepted (req : CreateRetryPolicyRequest) : Type 0 where
  pub initial : ℕ
  pub cap : ℕ
  pub initial_is : req.initial_delay_seconds ≡ pos initial
  pub cap_is : req.max_delay_seconds ≡ pos cap
  pub initial_positive : 1 ≤ initial
  pub ordered : initial ≤ cap
  pub cap_bounded : cap ≤ 86400

pub bounds_lem :
    (i m : ℤ)
    → (leb_ℤ i (pos 0) || ltb_ℤ m i) ≡ false
    → (leb_ℤ m (pos 0) || ltb_ℤ (pos 86400) m) ≡ false
    → (i ≡ pos (pos_part i))
      × (m ≡ pos (pos_part m))
      × (1 ≤ pos_part i)
      × (pos_part i ≤ pos_part m)
      × (pos_part m ≤ 86400)
bounds_lem (pos i) (pos m) h k = (refl, refl, ground arith, ground arith, ground arith)
bounds_lem (pos i) (negsuc m) h k = elim (no_cap k) [ ]
  where
    no_cap : (leb_ℤ (negsuc m) (pos 0) || ltb_ℤ (pos 86400) (negsuc m)) ≡ false → ⊥
    no_cap h = ground arith
bounds_lem (negsuc i) m h k = elim (no_delay h) [ ]
  where
    no_delay : (leb_ℤ (negsuc i) (pos 0) || ltb_ℤ m (negsuc i)) ≡ false → ⊥
    no_delay h = ground arith

pub validate_retry_policy-IsAccepted :
    (req : CreateRetryPolicyRequest) → validate_retry_policy req ≡ ok tt → IsAccepted req
unfolding validate_retry_policy
validate_retry_policy-IsAccepted req h =
    let (state, at_attempts) = refuse_lem _ _ _ h in
    let (attempts, at_duration) = refuse_lem _ _ _ at_attempts in
    let (duration, at_initial) = refuse_lem _ _ _ at_duration in
    let (initial_delay, at_max) = refuse_lem _ _ _ at_initial in
    let (max_delay, at_rate) = refuse_lem _ _ _ at_max in
    let (initial_is, cap_is, positive, ordered, bounded) =
      bounds_lem req.initial_delay_seconds req.max_delay_seconds initial_delay max_delay in
    record {
      initial = pos_part req.initial_delay_seconds;
      cap = pos_part req.max_delay_seconds;
      initial_is = initial_is;
      cap_is = cap_is;
      initial_positive = positive;
      ordered = ordered;
      cap_bounded = bounded;
    }

seconds_lem : (n : ℕ) → n ≤ 86400 → wrap64 (pos (n * second)) ≡ pos (n * second)
seconds_lem n h = wrap64_small (n * second) (omega (arith, h))

-- What `retryPolicyForDelivery` makes of the row of a request.
abbrev policy_of : CreateRetryPolicyRequest → Policy
policy_of req = record {
  max_attempts = req.max_attempts;
  max_duration = wrap64 (pos (pos_part req.max_duration_seconds * second));
  initial_delay = wrap64 (pos (pos_part req.initial_delay_seconds * second));
  max_delay = wrap64 (pos (pos_part req.max_delay_seconds * second));
}

-- What reading back the row in front gives.
read_lem :
    (id tenant_id : String) (req : CreateRetryPolicyRequest) (t : Tables)
    → (id == "") ≡ false
    → req.state ≡ "active"
    → retry_policy_for_delivery
        (record t { retry_policies = policy_row id tenant_id req ∷ t.retry_policies })
        tenant_id
        id
      ≡ ok (policy_of req)
unfolding retry_policy_for_delivery policy_row
read_lem id tenant_id req t named active =
    rw
      (
        named,
        (string_eq.same_iff tenant_id tenant_id).1 refl,
        (string_eq.same_iff id id).1 refl,
        (string_eq.same_iff req.state "active").1 active,
      )
      refl

not_same : (id : String) → id ≢ "" → (id == "") ≡ false
not_same id named = elim (Bool-cases (id == "")) [
  | inl empty ↦ elim (named ((string_eq.same_iff id "").0 empty)) [ ]
  | inr full ↦ full
]

pub unless_err :
    (test : Bool) (e : ControlError) (next : Result ControlError Tables) (t : Tables)
    → (if test then err e else next) ≡ ok t
    → next ≡ ok t
unless_err true e next t h = cc
unless_err false e next t h = h

created_lem :
    (authorized : Bool) (id tenant_id : String) (req : CreateRetryPolicyRequest) (t t' : Tables)
    → create_retry_policy authorized id tenant_id req t ≡ ok t'
    → IsAccepted (trimmed req)
      × ((record t { retry_policies = policy_row id tenant_id (trimmed req) ∷ t.retry_policies })
          ≡ t')
unfolding create_retry_policy
created_lem authorized id tenant_id req t t' h =
    let checks =
      unless_err ((trimmed req).name == "") _ _ t' (unless_err (not authorized) _ _ t' h) in
    let (_, checked, created) = >>=-eq-ok (validate_retry_policy (trimmed req)) _ checks in
    (validate_retry_policy-IsAccepted (trimmed req) checked, ok-eq created)

sane_lem :
    (req : CreateRetryPolicyRequest) (policy : Policy) (accepted : IsAccepted req)
    → policy.initial_delay ≡ wrap64 (pos (pos_part req.initial_delay_seconds * second))
    → policy.max_delay ≡ wrap64 (pos (pos_part req.max_delay_seconds * second))
    → IsSane policy (accepted.initial * second) (accepted.cap * second)
sane_lem req policy accepted initial cap = record {
  initial_is =
      (rw accepted.initial_is at initial)
      ∙ seconds_lem accepted.initial (omega (arith, accepted.ordered, accepted.cap_bounded));
  max_is = (rw accepted.cap_is at cap) ∙ seconds_lem accepted.cap accepted.cap_bounded;
  initial_small = omega (arith, accepted.ordered, accepted.cap_bounded);
  cap_small = omega (arith, accepted.cap_bounded);
}

-- A delivery that names an active policy which was just created finds it, and the cap on its delay
-- at every attempt is the initial delay of the request, doubled with each attempt, up to the
-- maximum of the request, which is at most 24 hours: nothing wraps at 64 bits. The identifier of the
-- policy must not be empty.
pub create_retry_policy-delay_cap :
    (authorized : Bool) (id tenant_id : String) (req : CreateRetryPolicyRequest) (t t' : Tables)
    → id ≢ ""
    → (trimmed req).state ≡ "active"
    → create_retry_policy authorized id tenant_id req t ≡ ok t'
    → (policy : Policy) × (initial : ℕ) × (cap : ℕ) × (retry_policy_for_delivery t' tenant_id id
        ≡ ok policy)
      × (req.initial_delay_seconds ≡ pos initial)
      × (req.max_delay_seconds ≡ pos cap)
      × (initial ≤ cap)
      × (cap ≤ 86400)
      × ((attempt : ℤ)
          → delay_cap policy attempt
            ≡ pos (min (initial * second * 2 ^ normalize_attempt attempt) (cap * second)))
unfolding trimmed
create_retry_policy-delay_cap authorized id tenant_id req t t' named active h =
    let (accepted, created) = created_lem authorized id tenant_id req t t' h in
    let found = read_lem id tenant_id (trimmed req) t (not_same id named) active in
    (
      policy_of (trimmed req),
      accepted.initial,
      accepted.cap,
      subst (λ s. retry_policy_for_delivery s tenant_id id ≡ ok (policy_of (trimmed req))) created
          found,
      accepted.initial_is,
      accepted.cap_is,
      accepted.ordered,
      accepted.cap_bounded,
      λ attempt.
          delay_cap-min _ _ _ attempt
            (sane_lem (trimmed req) (policy_of (trimmed req)) accepted refl refl),
    )
