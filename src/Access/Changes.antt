-- ===== src/Access/Changes.antt =====
-- Sequences of the calls that administer access policy rules (internal/app/enterprise_identity.go).
use webhookery.Common.{ℕ, String, Bool, List, [], ◌∷◌, ◌≡◌, refl, Result, ok, err, All}
use webhookery.Authz.{Actor}
use webhookery.Access.{Tables}
use webhookery.Access.Admin.{
  CreateAccessPolicyRuleRequest, UpdateAccessPolicyRuleRequest, AdminError,
  create_access_policy_rule, update_access_policy_rule, disable_access_policy_rule,
}
use webhookery.Access.Lockout.{
  IsOpen, IsComplete, create_access_policy_rule-IsOpen, update_access_policy_rule-IsOpen,
  disable_access_policy_rule-IsOpen,
}

-- One call of the service.
pub data Change : Type 0 where
  create : String → ℕ → CreateAccessPolicyRuleRequest → Change
  update : String → UpdateAccessPolicyRuleRequest → Change
  disable : String → String → Change

unfoldable pub make : (String → Bool) → Actor → Change → Tables → Result AdminError Tables
unfolding create_access_policy_rule update_access_policy_rule disable_access_policy_rule
make valid actor (create id now req) t = create_access_policy_rule valid id now actor req t
make valid actor (update id req) t = update_access_policy_rule actor id req t
make valid actor (disable id reason) t = disable_access_policy_rule actor id reason t

-- A failed call changes no row.
unfoldable pub tables_after : Tables → Result AdminError Tables → Tables
tables_after t (err e) = t
tables_after t (ok after) = after

unfoldable pub run_changes : (String → Bool) → List (Actor × Change) → Tables → Tables
unfolding make tables_after
run_changes valid [] t = t
run_changes valid ((actor, change) ∷ rest) t =
    run_changes valid rest (tables_after t (make valid actor change t))

abbrev pub GivesAll : Change → Type 0
GivesAll (create id now req) = Unit
GivesAll (update id req) = IsComplete req
GivesAll (disable id reason) = Unit

make-IsOpen :
    (valid : String → Bool) (actor : Actor) (change : Change) (t : Tables) {after : Tables}
    → GivesAll change
    → IsOpen t
    → make valid actor change t ≡ ok after
    → IsOpen after
unfolding make
make-IsOpen valid actor (create id now req) t complete open_now h =
    create_access_policy_rule-IsOpen valid id now actor req t open_now h
make-IsOpen valid actor (update id req) t complete open_now h =
    update_access_policy_rule-IsOpen actor id req t complete open_now h
make-IsOpen valid actor (disable id reason) t complete open_now h =
    disable_access_policy_rule-IsOpen actor id reason t open_now h

tables_after-IsOpen :
    (t : Tables) (outcome : Result AdminError Tables)
    → ((after : Tables) → outcome ≡ ok after → IsOpen after)
    → IsOpen t
    → IsOpen (tables_after t outcome)
unfolding tables_after
tables_after-IsOpen t (err e) keeps open_now = open_now
tables_after-IsOpen t (ok after) keeps open_now = keeps after refl

-- Creating and disabling rules, and updates that name effect, action, family and environment, by any
-- actors, in any order, accepted or refused, keep lock-outs out of the table: if no active rule
-- denies `security:write` or every action everywhere, over every family or over "security", then
-- none does afterwards.
pub run_changes-IsOpen :
    (valid : String → Bool) (changes : List (Actor × Change)) (t : Tables)
    → All (λ ((actor, change) : Actor × Change). GivesAll change) changes
    → IsOpen t
    → IsOpen (run_changes valid changes t)
unfolding run_changes
run_changes-IsOpen valid [] t complete open_now = open_now
run_changes-IsOpen valid ((actor, change) ∷ rest) t (here, there) open_now =
    run_changes-IsOpen valid rest (tables_after t (make valid actor change t)) there (
      tables_after-IsOpen t (make valid actor change t)
        (λ after h. make-IsOpen valid actor change t here open_now h) open_now)
