-- ===== src/Policies/Changes.antt =====
-- Sequences of the calls that administer retry policies (internal/app/control.go).
use webhookery.Common.{String, Bool, List, [], ◌∷◌, ◌≡◌, refl, Result, ok, err}
use webhookery.Deliveries.{Tables}
use webhookery.Policies.{CreateRetryPolicyRequest, ControlError, create_retry_policy}
use webhookery.Policies.Update.{UpdateRetryPolicyRequest, update_retry_policy, delete_retry_policy}
use webhookery.Policies.Bounded.{
  IsWithinBounds, create_retry_policy-IsWithinBounds, update_retry_policy-IsWithinBounds,
  delete_retry_policy-IsWithinBounds,
}

-- One call of the administration, with whether the actor may make it.
pub data Change : Type 0 where
  create : Bool → String → String → CreateRetryPolicyRequest → Change
  update : Bool → String → String → String → UpdateRetryPolicyRequest → Change
  delete : Bool → String → String → String → Change

unfoldable pub make : Change → Tables → Result ControlError Tables
unfolding create_retry_policy update_retry_policy delete_retry_policy
make (create authorized id tenant_id req) t = create_retry_policy authorized id tenant_id req t
make (update authorized tenant_id id fresh req) t =
    update_retry_policy authorized tenant_id id fresh req t
make (delete authorized tenant_id id reason) t =
    delete_retry_policy authorized tenant_id id reason t

make-IsWithinBounds :
    (change : Change) (t : Tables) {after : Tables}
    → make change t ≡ ok after
    → IsWithinBounds t
    → IsWithinBounds after
unfolding make
make-IsWithinBounds (create authorized id tenant_id req) t h all =
    create_retry_policy-IsWithinBounds authorized id tenant_id req t h all
make-IsWithinBounds (update authorized tenant_id id fresh req) t h all =
    update_retry_policy-IsWithinBounds authorized tenant_id id fresh req t h all
make-IsWithinBounds (delete authorized tenant_id id reason) t h all =
    delete_retry_policy-IsWithinBounds authorized tenant_id id reason t h all

-- A refused call changes nothing.
unfoldable pub tables_after : Tables → Result ControlError Tables → Tables
tables_after t (err e) = t
tables_after t (ok after) = after

unfoldable pub run_changes : List Change → Tables → Tables
unfolding make tables_after
run_changes [] t = t
run_changes (change ∷ rest) t = run_changes rest (tables_after t (make change t))

tables_after-IsWithinBounds :
    (t : Tables) (outcome : Result ControlError Tables)
    → ((after : Tables) → outcome ≡ ok after → IsWithinBounds after)
    → IsWithinBounds t
    → IsWithinBounds (tables_after t outcome)
unfolding tables_after
tables_after-IsWithinBounds t (err e) keeps all = all
tables_after-IsWithinBounds t (ok after) keeps all = keeps after refl

-- Creating, updating and deleting retry policies in any order, accepted or refused, keeps every
-- policy within its bounds: 1 to 100 attempts, 1 to 2592000 seconds in all, and an initial delay of
-- at least one second that is no greater than the maximal delay, which is at most a day.
pub run_changes-IsWithinBounds :
    (changes : List Change) (t : Tables) → IsWithinBounds t → IsWithinBounds (run_changes changes t)
unfolding run_changes
run_changes-IsWithinBounds [] t all = all
run_changes-IsWithinBounds (change ∷ rest) t all =
    run_changes-IsWithinBounds rest (tables_after t (make change t)) (
      tables_after-IsWithinBounds t (make change t) (λ after h. make-IsWithinBounds change t h all)
        all)
