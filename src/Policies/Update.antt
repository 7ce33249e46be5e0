-- ===== src/Policies/Update.antt =====
-- Changing retry policies: UpdateRetryPolicy and DeleteRetryPolicy in internal/app/control.go and in
-- internal/adapters/postgres/store.go. An update leaves the row and adds one with a fresh id; the
-- name, the version, the rate limit, the config version and the audit event are left out.
use webhookery.Common.{
  ℕ, String, Bool, true, false, not, ◌&&◌, ◌||◌, List, [], ◌∷◌, ◌==◌, ltb, string_eq, Option, none,
  some, if◌then◌else◌, trim_space, Result, ok, err, ◌>>=◌, update_where,
}
use webhookery.Common.Int.{ℤ, pos, pos_part, ltb_ℤ, leb_ℤ}
use webhookery.Deliveries.{RetryPolicy, Tables}
use webhookery.Policies.{ControlError, forbidden, not_found, invalid_input, refuse_if}

-- `none` for a nil pointer.
pub record UpdateRetryPolicyRequest : Type 0 where
  pub name : Option String
  pub max_attempts : Option ℤ
  pub max_duration_seconds : Option ℤ
  pub initial_delay_seconds : Option ℤ
  pub max_delay_seconds : Option ℤ
  pub rate_limit_per_minute : Option ℤ
  pub state : Option String
  pub reason : String

-- A test of a field that is given.
unfoldable pub fails {ℓ} : {A : Type ℓ} → (A → Bool) → Option A → Bool
fails test none = false
fails test (some value) = test value

unfoldable pub is_absent {ℓ} : {A : Type ℓ} → Option A → Bool
is_absent none = true
is_absent (some value) = false

unfoldable pub names_nothing : UpdateRetryPolicyRequest → Bool
unfolding is_absent
names_nothing req =
    is_absent req.name
    && is_absent req.max_attempts
    && is_absent req.max_duration_seconds
    && is_absent req.initial_delay_seconds
    && is_absent req.max_delay_seconds
    && is_absent req.rate_limit_per_minute
    && is_absent req.state

unfoldable pub is_blank : String → Bool
is_blank s = trim_space s == ""

unfoldable pub is_no_state : String → Bool
is_no_state s = not (trim_space s == "active") && not (trim_space s == "disabled")

unfoldable pub not_positive : ℤ → Bool
not_positive v = leb_ℤ v (pos 0)

-- Outside 1 to the limit.
unfoldable pub outside : ℕ → ℤ → Bool
outside limit v = leb_ℤ v (pos 0) || ltb_ℤ (pos limit) v

unfoldable pub no_rate : ℤ → Bool
no_rate v = ltb_ℤ v (pos 0) || ltb_ℤ (pos 60000) v

unfoldable pub reversed : Option ℤ → Option ℤ → Bool
unfolding fails
reversed none cap = false
reversed (some initial) cap = fails (λ c. ltb_ℤ c initial) cap

unfoldable pub validate_update : UpdateRetryPolicyRequest → Result ControlError (Unit {0})
unfolding fails names_nothing is_blank is_no_state not_positive outside no_rate reversed
validate_update req = refuse_if (names_nothing req) "at least one retry policy field is required" (
    refuse_if (fails is_blank req.name) "name cannot be empty" (
      refuse_if (fails (outside 100) req.max_attempts) "max_attempts must be between 1 and 100" (
        refuse_if (fails (outside 2592000) req.max_duration_seconds)
          "max_duration_seconds must be between 1 and 2592000"
          (refuse_if (fails not_positive req.initial_delay_seconds)
            "initial_delay_seconds must be positive"
            (refuse_if (fails (outside 86400) req.max_delay_seconds)
              "max_delay_seconds must be between 1 and 86400"
              (refuse_if (reversed req.initial_delay_seconds req.max_delay_seconds)
                "initial_delay_seconds must be no greater than max_delay_seconds"
                (refuse_if (fails no_rate req.rate_limit_per_minute)
                  "rate_limit_per_minute must be between 0 and 60000"
                  (refuse_if (fails is_no_state req.state) "state must be active or disabled"
                    (ok tt)))))))))

unfoldable pub replaced {ℓ κ} : {A : Type ℓ} {B : Type κ} → (A → B) → Option A → B → B
replaced use_it none old = old
replaced use_it (some value) old = use_it value

-- The new row: the given fields over the current row.
unfoldable pub merged : String → UpdateRetryPolicyRequest → RetryPolicy → RetryPolicy
unfolding replaced
merged fresh req current = record current {
  id = fresh;
  max_attempts = replaced (λ n. n) req.max_attempts current.max_attempts;
  max_duration_seconds =
      replaced (λ n. pos_part n) req.max_duration_seconds current.max_duration_seconds;
  initial_delay_seconds =
      replaced (λ n. pos_part n) req.initial_delay_seconds current.initial_delay_seconds;
  max_delay_seconds = replaced (λ n. pos_part n) req.max_delay_seconds current.max_delay_seconds;
  state = replaced trim_space req.state current.state;
}

unfoldable pub find_policy : String → String → List RetryPolicy → Option RetryPolicy
find_policy tenant_id id [] = none
find_policy tenant_id id (p ∷ rest) =
    if p.tenant_id == tenant_id && p.id == id then some p else find_policy tenant_id id rest

unfoldable pub insert_policy : RetryPolicy → Tables → Result ControlError Tables
insert_policy item t =
    if ltb item.max_delay_seconds item.initial_delay_seconds
    then err (invalid_input "initial_delay_seconds must be no greater than max_delay_seconds")
    else ok (record t { retry_policies = item ∷ t.retry_policies })

unfoldable pub update_policy :
    String → String → String → UpdateRetryPolicyRequest → Tables → Result ControlError Tables
unfolding find_policy merged insert_policy
update_policy tenant_id id fresh req t = elim (find_policy tenant_id id t.retry_policies) [
  | none ↦ err not_found
  | some current ↦ insert_policy (merged fresh req current) t
]

unfoldable pub update_retry_policy :
    Bool → String → String → String → UpdateRetryPolicyRequest → Tables → Result ControlError Tables
unfolding validate_update update_policy
update_retry_policy authorized tenant_id id fresh req t =
    if not authorized
    then err forbidden
    else if trim_space id == "" || trim_space req.reason == ""
    then err (invalid_input "retry_policy_id and reason are required")
    else validate_update req >>= (λ _. update_policy tenant_id id fresh req t)

unfoldable pub is_policy : String → String → RetryPolicy → Bool
is_policy tenant_id id p = p.tenant_id == tenant_id && p.id == id

unfoldable pub disabled : RetryPolicy → RetryPolicy
disabled p = record p { state = "disabled" }

unfoldable pub disable_policy : String → String → Tables → Result ControlError Tables
unfolding find_policy update_where is_policy disabled
disable_policy tenant_id id t = elim (find_policy tenant_id id t.retry_policies) [
  | none ↦ err not_found
  | some p ↦ ok (record t {
    retry_policies = update_where (is_policy tenant_id id) disabled t.retry_policies;
  })
]

unfoldable pub delete_retry_policy :
    Bool → String → String → String → Tables → Result ControlError Tables
unfolding disable_policy
delete_retry_policy authorized tenant_id id reason t =
    if not authorized
    then err forbidden
    else if trim_space id == "" || trim_space reason == ""
    then err (invalid_input "retry_policy_id and reason are required")
    else disable_policy tenant_id id t
