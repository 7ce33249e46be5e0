-- ===== src/Policies/Bounded.antt =====
-- The bounds of all retry policies under their administration (internal/app/control.go).
use webhookery.Common.{
  ℕ, ◌≤◌, String, Bool, false, not, ◌&&◌, ◌||◌, List, [], ◌∷◌, ◌==◌, ltb, string_eq, Option, none,
  some, ◌≡◌, inl, inr, refl, arith, subst, Bool-cases, Option-cases, some-eq, trim_space, ok,
  >>=-eq-ok, ok-eq, err-ok, All, All-update_where,
}
use webhookery.Common.Int.{ℤ, pos, negsuc, pos_part, ltb_ℤ, leb_ℤ}
use webhookery.Deliveries.{RetryPolicy, Tables}
use webhookery.Policies.{
  CreateRetryPolicyRequest, trimmed, validate_retry_policy, policy_row, create_retry_policy,
}
use webhookery.Policies.Sane.{bounds_lem, refuse_lem, unless_err}
use webhookery.Policies.Update.{
  UpdateRetryPolicyRequest, fails, outside, not_positive, validate_update, replaced, merged,
  find_policy, insert_policy, update_policy, update_retry_policy, is_policy, disabled,
  disable_policy, delete_retry_policy,
}

abbrev pub Within : ℕ → ℕ → Type 0
Within limit n = (1 ≤ n) × (n ≤ limit)

abbrev pub IsBounded : RetryPolicy → Type 0
IsBounded p =
    ((n : ℕ) × (p.max_attempts ≡ pos n) × Within 100 n)
    × Within 2592000 p.max_duration_seconds
    × (1 ≤ p.initial_delay_seconds)
    × (p.initial_delay_seconds ≤ p.max_delay_seconds)
    × (p.max_delay_seconds ≤ 86400)

outside_lem :
    (limit : ℕ) (v : ℤ)
    → outside limit v ≡ false
    → (v ≡ pos (pos_part v)) × Within limit (pos_part v)
unfolding outside
outside_lem limit (pos n) h = (refl, (ground arith, ground arith))
outside_lem limit (negsuc n) h = absurd (no_such h)
  where
    no_such : (leb_ℤ (negsuc n) (pos 0) || ltb_ℤ (pos limit) (negsuc n)) ≡ false → ⊥
    no_such e = ground arith

-- A given count that passed its test, or the current one.
replaced-Within :
    (limit : ℕ) (o : Option ℤ) (old : ℕ)
    → fails (outside limit) o ≡ false
    → Within limit old
    → Within limit (replaced (λ n. pos_part n) o old)
unfolding replaced fails
replaced-Within limit none old passes within = within
replaced-Within limit (some v) old passes within = (outside_lem limit v passes).1

replaced-positive :
    (o : Option ℤ) (old : ℕ)
    → fails not_positive o ≡ false
    → 1 ≤ old
    → 1 ≤ replaced (λ n. pos_part n) o old
unfolding replaced fails not_positive
replaced-positive none old passes before = before
replaced-positive (some (pos n)) old passes before = ground arith
replaced-positive (some (negsuc n)) old passes before = ground arith

replaced-attempts :
    (o : Option ℤ) (old : ℤ)
    → fails (outside 100) o ≡ false
    → ((n : ℕ) × (old ≡ pos n) × Within 100 n)
    → (n : ℕ) × (replaced (λ (v : ℤ). v) o old ≡ pos n) × Within 100 n
unfolding replaced fails
replaced-attempts none old passes within = within
replaced-attempts (some v) old passes within =
    let (is_pos, bounds) = outside_lem 100 v passes in (pos_part v, is_pos, bounds)

abbrev pub IsWithinBounds : Tables → Type 0
IsWithinBounds t = All IsBounded t.retry_policies

find_policy-IsBounded :
    (tenant_id id : String) (rows : List RetryPolicy) {p : RetryPolicy}
    → All IsBounded rows
    → find_policy tenant_id id rows ≡ some p
    → IsBounded p
unfolding find_policy
find_policy-IsBounded tenant_id id [] all h = cc
find_policy-IsBounded tenant_id id (r ∷ rows) (here, there) h =
    elim (Bool-cases (r.tenant_id == tenant_id && r.id == id)) [
      | inl hit ↦ subst IsBounded (some-eq (rw hit at h)) here
      | inr miss ↦ find_policy-IsBounded tenant_id id rows there (rw miss at h)
    ]

-- The tests that an accepted update has passed.
abbrev Passed : UpdateRetryPolicyRequest → Type 0
Passed req =
    (fails (outside 100) req.max_attempts ≡ false)
    × (fails (outside 2592000) req.max_duration_seconds ≡ false)
    × (fails not_positive req.initial_delay_seconds ≡ false)
    × (fails (outside 86400) req.max_delay_seconds ≡ false)

validate_update-Passed : (req : UpdateRetryPolicyRequest) → validate_update req ≡ ok tt → Passed req
unfolding validate_update
validate_update-Passed req h =
    let (something, at_name) = refuse_lem _ _ _ h in
    let (named, at_attempts) = refuse_lem _ _ _ at_name in
    let (attempts, at_duration) = refuse_lem _ _ _ at_attempts in
    let (duration, at_initial) = refuse_lem _ _ _ at_duration in
    let (initial, at_max) = refuse_lem _ _ _ at_initial in
    let (max_delay, rest) = refuse_lem _ _ _ at_max in (attempts, duration, initial, max_delay)

insert_policy-IsWithinBounds :
    (fresh : String) (req : UpdateRetryPolicyRequest) (current : RetryPolicy) (t : Tables)
    {after : Tables}
    → Passed req
    → IsBounded current
    → insert_policy (merged fresh req current) t ≡ ok after
    → IsWithinBounds t
    → IsWithinBounds after
unfolding insert_policy merged
insert_policy-IsWithinBounds fresh req current t {after} (attempts, duration, initial, cap)
      (n, d, i, o, c) h all =
    let row = merged fresh req current in
    elim (Bool-cases (ltb row.max_delay_seconds row.initial_delay_seconds)) [
      | inl crossed ↦ absurd (err-ok (rw crossed at h))
      | inr ordered ↦
          let bounds =
            replaced-Within 86400 req.max_delay_seconds current.max_delay_seconds cap
              (omega (arith, i, o), c) in
          subst IsWithinBounds (ok-eq (rw ordered at h)) (
            (
              replaced-attempts req.max_attempts current.max_attempts attempts n,
              replaced-Within 2592000 req.max_duration_seconds current.max_duration_seconds duration
                  d,
              replaced-positive req.initial_delay_seconds current.initial_delay_seconds initial i,
              ground (arith, ordered),
              bounds.1,
            ),
            all,
          )
    ]

pub update_retry_policy-IsWithinBounds :
    (authorized : Bool) (tenant_id id fresh : String) (req : UpdateRetryPolicyRequest) (t : Tables)
    {after : Tables}
    → update_retry_policy authorized tenant_id id fresh req t ≡ ok after
    → IsWithinBounds t
    → IsWithinBounds after
unfolding update_retry_policy update_policy
update_retry_policy-IsWithinBounds authorized tenant_id id fresh req t {after} h all =
    let allowed = unless_err (not authorized) _ _ after h in
    let complete =
      unless_err (trim_space id == "" || trim_space req.reason == "") _ _ after allowed in
    let (_, valid, updated) = >>=-eq-ok (validate_update req) _ complete in
    elim (Option-cases (find_policy tenant_id id t.retry_policies)) [
      | inl missing ↦ absurd (err-ok (rw (missing, update_policy) at updated))
      | inr (current, found) ↦
          insert_policy-IsWithinBounds fresh req current t (validate_update-Passed req valid)
            (find_policy-IsBounded tenant_id id t.retry_policies all found)
            (rw (found, update_policy) at updated) all
    ]

pub delete_retry_policy-IsWithinBounds :
    (authorized : Bool) (tenant_id id reason : String) (t : Tables) {after : Tables}
    → delete_retry_policy authorized tenant_id id reason t ≡ ok after
    → IsWithinBounds t
    → IsWithinBounds after
unfolding delete_retry_policy disable_policy disabled
delete_retry_policy-IsWithinBounds authorized tenant_id id reason t {after} h all =
    let allowed = unless_err (not authorized) _ _ after h in
    let complete = unless_err (trim_space id == "" || trim_space reason == "") _ _ after allowed in
    elim (Option-cases (find_policy tenant_id id t.retry_policies)) [
      | inl missing ↦ absurd (err-ok (rw (missing, disable_policy) at complete))
      | inr (p, found) ↦ subst IsWithinBounds (ok-eq (rw (found, disable_policy) at complete)) (
          All-update_where (is_policy tenant_id id) disabled t.retry_policies
            (λ q hit bounded. bounded) all)
    ]

pub create_retry_policy-IsWithinBounds :
    (authorized : Bool) (id tenant_id : String) (req : CreateRetryPolicyRequest) (t : Tables)
    {after : Tables}
    → create_retry_policy authorized id tenant_id req t ≡ ok after
    → IsWithinBounds t
    → IsWithinBounds after
unfolding create_retry_policy validate_retry_policy policy_row trimmed outside
create_retry_policy-IsWithinBounds authorized id tenant_id req t {after} h all =
    let checks =
      unless_err ((trimmed req).name == "") _ _ after (unless_err (not authorized) _ _ after h) in
    let (_, valid, created) = >>=-eq-ok (validate_retry_policy (trimmed req)) _ checks in
    let (state, at_attempts) = refuse_lem _ _ _ valid in
    let (attempts, at_duration) = refuse_lem _ _ _ at_attempts in
    let (duration, at_initial) = refuse_lem _ _ _ at_duration in
    let (initial_delay, at_max) = refuse_lem _ _ _ at_initial in
    let (max_delay, at_rate) = refuse_lem _ _ _ at_max in
    let (_, _, positive, ordered, capped) =
      bounds_lem req.initial_delay_seconds req.max_delay_seconds initial_delay max_delay in
    let (counted, in_attempts) = outside_lem 100 req.max_attempts attempts in
    let (timed, in_duration) = outside_lem 2592000 req.max_duration_seconds duration in
    subst IsWithinBounds (ok-eq created) (
      ((pos_part req.max_attempts, counted, in_attempts), in_duration, positive, ordered, capped),
      all,
    )
