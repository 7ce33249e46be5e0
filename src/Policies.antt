-- ===== src/Policies.antt =====
-- Creating a retry policy: CreateRetryPolicy and validateRetryPolicy in internal/app/control.go, and
-- CreateRetryPolicy in internal/adapters/postgres/store.go. The name, the version and the rate limit
-- of a row, its config version and its audit event are left out.
pub mod Sane
pub mod Update
pub mod Bounded
pub mod Changes
use webhookery.Common.{
  ℕ, ◌*◌, String, Bool, true, false, not, ◌&&◌, ◌||◌, List, [], ◌∷◌, ◌==◌, string_eq, if◌then◌else◌,
  trim_space, Result, ok, err, ◌>>=◌,
}
use webhookery.Common.Int.{ℤ, pos, pos_part, ltb_ℤ, leb_ℤ}
use webhookery.Deliveries.{RetryPolicy, Tables}

pub record CreateRetryPolicyRequest : Type 0 where
  pub name : String
  pub max_attempts : ℤ
  pub max_duration_seconds : ℤ
  pub initial_delay_seconds : ℤ
  pub max_delay_seconds : ℤ
  pub rate_limit_per_minute : ℤ
  pub state : String

pub data ControlError : Type 0 where
  forbidden not_found : ControlError
  invalid_input : String → ControlError

unfoldable pub normalize_state : String → String
normalize_state state = if trim_space state == "" then "active" else trim_space state

-- Further checks behind a failed one do not run.
unfoldable pub refuse_if :
    Bool → String → Result ControlError (Unit {0}) → Result ControlError (Unit {0})
refuse_if test reason next = if test then err (invalid_input reason) else next

unfoldable pub validate_retry_policy : CreateRetryPolicyRequest → Result ControlError (Unit {0})
validate_retry_policy req =
    refuse_if (not (req.state == "active") && not (req.state == "disabled"))
      "state must be active or disabled"
      (refuse_if (leb_ℤ req.max_attempts (pos 0) || ltb_ℤ (pos 100) req.max_attempts)
        "max_attempts must be between 1 and 100"
        (refuse_if
          (leb_ℤ req.max_duration_seconds (pos 0) || ltb_ℤ (pos 2592000) req.max_duration_seconds)
          "max_duration_seconds must be between 1 and 2592000"
          (refuse_if
            (leb_ℤ req.initial_delay_seconds (pos 0)
              || ltb_ℤ req.max_delay_seconds req.initial_delay_seconds)
            "initial_delay_seconds must be positive and no greater than max_delay_seconds"
            (refuse_if
              (leb_ℤ req.max_delay_seconds (pos 0) || ltb_ℤ (pos 86400) req.max_delay_seconds)
              "max_delay_seconds must be between 1 and 86400"
              (refuse_if
                (ltb_ℤ req.rate_limit_per_minute (pos 0)
                  || ltb_ℤ (pos 60000) req.rate_limit_per_minute)
                "rate_limit_per_minute must be between 0 and 60000" (ok tt))))))

-- The row that the store inserts; the counts of a validated request are positive.
unfoldable pub policy_row : String → String → CreateRetryPolicyRequest → RetryPolicy
policy_row id tenant_id req = record {
  id = id;
  tenant_id = tenant_id;
  state = req.state;
  max_attempts = req.max_attempts;
  max_duration_seconds = pos_part req.max_duration_seconds;
  initial_delay_seconds = pos_part req.initial_delay_seconds;
  max_delay_seconds = pos_part req.max_delay_seconds;
}

unfoldable pub trimmed : CreateRetryPolicyRequest → CreateRetryPolicyRequest
trimmed req = record req { name = trim_space req.name; state = normalize_state req.state }

unfoldable pub create_retry_policy :
    Bool → String → String → CreateRetryPolicyRequest → Tables → Result ControlError Tables
create_retry_policy authorized id tenant_id req t =
    if not authorized
    then err forbidden
    else if (trimmed req).name == ""
    then err (invalid_input "name is required")
    else validate_retry_policy (trimmed req) >>= (λ _.
      ok (record t { retry_policies = policy_row id tenant_id (trimmed req) ∷ t.retry_policies }))
