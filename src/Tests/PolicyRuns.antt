-- ===== src/Tests/PolicyRuns.antt =====
-- Runs of the retry policies of internal/app/control.go.
use webhookery.Common.{
  ℕ, ◌*◌, ◌^◌, ◌≤◌, min, String, true, List, [], ◌∷◌, none, some, ◌≡◌, ◌≢◌, refl, ok, err,
  string_eq, trim_space,
}
use webhookery.Common.Int.{ℤ, pos}
use webhookery.Retry.{Policy, second, delay_cap, normalize_attempt}
use webhookery.Deliveries.{Tables}
use webhookery.Deliveries.Record.{retry_policy_for_delivery}
use webhookery.Policies.{
  CreateRetryPolicyRequest, invalid_input, refuse_if, trimmed, normalize_state,
  validate_retry_policy, policy_row, create_retry_policy,
}
use webhookery.Policies.Sane.{create_retry_policy-delay_cap}
use webhookery.Policies.Update.{
  UpdateRetryPolicyRequest, fails, is_absent, names_nothing, is_blank, is_no_state, not_positive,
  outside, no_rate, reversed, validate_update, replaced, merged, find_policy, insert_policy,
  update_policy, update_retry_policy,
}
use webhookery.Policies.Bounded.{IsWithinBounds}
use webhookery.Policies.Changes.{
  Change, create, update, delete, run_changes, run_changes-IsWithinBounds,
}

abbrev request : CreateRetryPolicyRequest
request = record {
  name = " fast ";
  max_attempts = pos 5;
  max_duration_seconds = pos 3600;
  initial_delay_seconds = pos 2;
  max_delay_seconds = pos 60;
  rate_limit_per_minute = pos 0;
  state = "";
}

abbrev empty : Tables
empty = record {
  deliveries = [];
  endpoints = [];
  delivery_attempts = [];
  dead_letter_entries = [];
  retry_policies = [];
}

abbrev created : Tables
created = record empty { retry_policies = policy_row "rtp_1" "ten_1" (trimmed request) ∷ [] }

reversed_delays :
    validate_retry_policy (record (trimmed request) { max_delay_seconds = pos 1 })
    ≡ err (
        invalid_input
          "initial_delay_seconds must be positive and no greater than max_delay_seconds")
unfolding validate_retry_policy trimmed normalize_state refuse_if trim_space
reversed_delays = refl

request_active : (trimmed request).state ≡ "active"
unfolding trimmed normalize_state trim_space
request_active = refl

create_runs : create_retry_policy true "rtp_1" "ten_1" request empty ≡ ok created
unfolding create_retry_policy validate_retry_policy trimmed normalize_state refuse_if trim_space
create_runs = refl

abbrev policy_id : String
policy_id = "rtp_1"

named_lem : policy_id ≢ ""
named_lem same = let yes = (string_eq.same_iff policy_id "").1 same in cc

create_retry_policy-delay_cap_example :
    (policy : Policy) × (initial : ℕ) × (cap : ℕ) × (retry_policy_for_delivery created "ten_1"
        "rtp_1"
      ≡ ok policy)
    × (request.initial_delay_seconds ≡ pos initial)
    × (request.max_delay_seconds ≡ pos cap)
    × (initial ≤ cap)
    × (cap ≤ 86400)
    × ((attempt : ℤ)
        → delay_cap policy attempt
          ≡ pos (min (initial * second * 2 ^ normalize_attempt attempt) (cap * second)))
create_retry_policy-delay_cap_example =
    create_retry_policy-delay_cap true "rtp_1" "ten_1" request empty created named_lem
      request_active create_runs

-- The initial delay of the policy rises to its maximal delay.
abbrev slower : UpdateRetryPolicyRequest
slower = record {
  name = none;
  max_attempts = none;
  max_duration_seconds = none;
  initial_delay_seconds = some (pos 60);
  max_delay_seconds = none;
  rate_limit_per_minute = none;
  state = none;
  reason = "slow receiver";
}

-- A delay above the maximal delay that the row keeps passes the service and is refused by the store.
slower_runs :
    update_retry_policy true "ten_1" "rtp_1" "rtp_2"
      (record slower { initial_delay_seconds = some (pos 61) })
      created
    ≡ err (invalid_input "initial_delay_seconds must be no greater than max_delay_seconds")
unfolding update_retry_policy validate_update refuse_if fails is_absent names_nothing is_blank
    is_no_state not_positive outside no_rate reversed update_policy find_policy merged replaced
    insert_policy policy_row trimmed normalize_state trim_space
slower_runs = refl

abbrev changes : List Change
changes =
    create true "rtp_1" "ten_1" request
    ∷ update true "ten_1" "rtp_1" "rtp_2" slower
    ∷ delete true "ten_1" "rtp_1" "replaced"
    ∷ []

run_changes-IsWithinBounds_example : IsWithinBounds (run_changes changes empty)
run_changes-IsWithinBounds_example = run_changes-IsWithinBounds changes empty tt
