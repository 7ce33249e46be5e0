-- ===== src/Access/Admin.antt =====
-- The administration of access policy rules: CreateAccessPolicyRule, UpdateAccessPolicyRule and
-- DisableAccessPolicyRule in internal/app/enterprise_identity.go with the checks they make, and the
-- store's methods of the same names in internal/adapters/postgres/enterprise_identity.go. The audit
-- event that each of them records is left out, and `updated_at`.
use webhookery.Common.{
  ℕ, String, Bool, false, not, ◌&&◌, ◌||◌, List, [], ◌∷◌, ◌==◌, string_eq, Option, none, some,
  if◌then◌else◌, trim_space, Result, ok, err, ◌>>=◌, update_where,
}
use webhookery.Authz.{Actor}
use webhookery.Authz.Request.{AuthorizationRequest, authorize}
use webhookery.Provider.{equal_fold}
use webhookery.Access.{AccessPolicyRule, Tables, default_wildcard}
use webhookery.Access.Explain.{explain_from}

pub record CreateAccessPolicyRuleRequest : Type 0 where
  pub name : String
  pub action : String
  pub effect : String
  pub resource_family : String
  pub environment : String
  pub conditions : String
  pub reason : String

-- `none` for a nil pointer, and for conditions that are absent.
pub record UpdateAccessPolicyRuleRequest : Type 0 where
  pub name : Option String
  pub action : Option String
  pub effect : Option String
  pub resource_family : Option String
  pub environment : Option String
  pub conditions : Option String
  pub state : Option String
  pub reason : String

-- `refused_by_database` is the error of a statement that breaks `UNIQUE (tenant_id, name)`.
pub data AdminError : Type 0 where
  forbidden not_found refused_by_database : AdminError
  invalid_input : String → AdminError

abbrev pub request_to : Actor → String → String → String → String → AuthorizationRequest
request_to actor action resource_family resource_id environment = record {
  actor = actor;
  tenant_id = actor.tenant_id;
  action = action;
  resource_family = resource_family;
  resource_id = resource_id;
  environment = environment;
}

-- The service asks the store that it administers.
unfoldable pub authorized : Tables → Actor → String → String → String → String → Bool
unfolding authorize
authorized t actor action resource_family resource_id environment =
    (authorize (some (explain_from t))
      (request_to actor action resource_family resource_id environment)).allowed

unfoldable pub identity_wildcard : String → String
identity_wildcard value = if trim_space value == "" then "*" else trim_space value

unfoldable pub would_deny_security_write : String → String → String → String → Bool
unfolding identity_wildcard equal_fold
would_deny_security_write effect action resource_family environment =
    equal_fold (trim_space effect) "deny"
    && (trim_space action == "security:write" || trim_space action == "*")
    && (identity_wildcard resource_family == "*"
        || equal_fold (trim_space resource_family) "security")
    && identity_wildcard environment == "*"

-- `valid` stands for `json.Valid`.
unfoldable pub validate_access_policy :
    (String → Bool) → CreateAccessPolicyRuleRequest → Result AdminError (Unit {0})
validate_access_policy valid req =
    if trim_space req.name == ""
      || trim_space req.action == ""
      || trim_space req.resource_family == ""
      || trim_space req.environment == ""
    then err (invalid_input "name, action, resource_family, and environment are required")
    else if not (req.effect == "allow") && not (req.effect == "deny")
    then err (invalid_input "effect must be allow or deny")
    else if trim_space req.reason == ""
    then err (invalid_input "reason is required")
    else if not (req.conditions == "") && not (valid req.conditions)
    then err (invalid_input "conditions must be valid JSON")
    else ok tt

-- A row of the tenant, other than the one of the identifier, has the name.
unfoldable pub name_taken : String → String → String → List AccessPolicyRule → Bool
name_taken tenant_id id name [] = false
name_taken tenant_id id name (p ∷ rest) =
    (p.tenant_id == tenant_id && not (p.id == id) && p.name == name)
    || name_taken tenant_id id name rest

unfoldable pub rule_row : String → ℕ → Actor → CreateAccessPolicyRuleRequest → AccessPolicyRule
unfolding default_wildcard
rule_row id now actor req = record {
  id = id;
  tenant_id = actor.tenant_id;
  name = trim_space req.name;
  action = trim_space req.action;
  effect = trim_space req.effect;
  resource_family = default_wildcard req.resource_family;
  environment = default_wildcard req.environment;
  conditions = if req.conditions == "" then "{}" else req.conditions;
  state = "active";
  reason = req.reason;
  created_by = actor.id;
  created_at = now;
}

unfoldable pub insert_rule : AccessPolicyRule → Tables → Result AdminError Tables
unfolding name_taken
insert_rule row t =
    if name_taken row.tenant_id row.id row.name t.access_policy_rules
    then err refused_by_database
    else ok (record t { access_policy_rules = row ∷ t.access_policy_rules })

abbrev lock_out_refusal : AdminError
lock_out_refusal = invalid_input "refusing policy that can lock out security administration"

unfoldable pub create_access_policy_rule :
    (String → Bool)
    → String
    → ℕ
    → Actor
    → CreateAccessPolicyRuleRequest
    → Tables
    → Result AdminError Tables
unfolding authorized validate_access_policy would_deny_security_write rule_row insert_rule
create_access_policy_rule valid id now actor req t =
    if not (authorized t actor "security:write" "access_policy" "" "")
    then err forbidden
    else validate_access_policy valid req >>= (λ _.
      if would_deny_security_write req.effect req.action req.resource_family req.environment
      then err lock_out_refusal
      else insert_rule (rule_row id now actor req) t)

unfoldable pub find_rule : String → String → List AccessPolicyRule → Option AccessPolicyRule
find_rule tenant_id id [] = none
find_rule tenant_id id (p ∷ rest) =
    if p.tenant_id == tenant_id && p.id == id then some p else find_rule tenant_id id rest

unfoldable pub given {ℓ} : {A : Type ℓ} → (String → A) → Option String → A → A
given change none old = old
given change (some value) old = change value

-- The row with the fields of the request in it.
unfoldable pub changed : UpdateAccessPolicyRuleRequest → AccessPolicyRule → AccessPolicyRule
unfolding given default_wildcard
changed req p = record p {
  name = given trim_space req.name p.name;
  action = given trim_space req.action p.action;
  effect = given trim_space req.effect p.effect;
  resource_family = given default_wildcard req.resource_family p.resource_family;
  environment = given default_wildcard req.environment p.environment;
  conditions = given (λ c. c) req.conditions p.conditions;
  state = given (λ s. s) req.state p.state;
  reason = req.reason;
}

-- The columns that UPDATE sets.
unfoldable pub set_columns : AccessPolicyRule → AccessPolicyRule → AccessPolicyRule
set_columns item row = record row {
  name = item.name;
  action = item.action;
  effect = item.effect;
  resource_family = item.resource_family;
  environment = item.environment;
  conditions = item.conditions;
  state = item.state;
  reason = item.reason;
}

unfoldable pub is_rule : String → String → AccessPolicyRule → Bool
is_rule tenant_id id p = p.tenant_id == tenant_id && p.id == id

unfoldable pub replace_rule : String → String → AccessPolicyRule → Tables → Result AdminError Tables
unfolding name_taken update_where is_rule set_columns
replace_rule tenant_id id item t =
    if name_taken tenant_id id item.name t.access_policy_rules
    then err refused_by_database
    else ok (record t {
      access_policy_rules =
          update_where (is_rule tenant_id id) (set_columns item) t.access_policy_rules;
    })

-- The store's method.
unfoldable pub update_rule :
    String → String → UpdateAccessPolicyRuleRequest → Tables → Result AdminError Tables
unfolding find_rule changed replace_rule
update_rule tenant_id id req t = elim (find_rule tenant_id id t.access_policy_rules) [
  | none ↦ err not_found
  | some current ↦ replace_rule tenant_id id (changed req current) t
]

unfoldable pub or_empty : Option String → String
or_empty none = ""
or_empty (some value) = value

-- The check looks at the request alone, with "" for what it leaves out. Where it leaves out all four
-- the effect is "", which the test refuses nothing for.
unfoldable pub update_access_policy_rule :
    Actor → String → UpdateAccessPolicyRuleRequest → Tables → Result AdminError Tables
unfolding authorized would_deny_security_write update_rule or_empty
update_access_policy_rule actor id req t =
    if not (authorized t actor "security:write" "access_policy" id "")
    then err forbidden
    else if trim_space req.reason == ""
    then err (invalid_input "reason is required")
    else if would_deny_security_write (or_empty req.effect) (or_empty req.action)
        (or_empty req.resource_family) (or_empty req.environment)
    then err lock_out_refusal
    else update_rule actor.tenant_id id req t

abbrev pub disabling : String → UpdateAccessPolicyRuleRequest
disabling reason = record {
  name = none;
  action = none;
  effect = none;
  resource_family = none;
  environment = none;
  conditions = none;
  state = some "disabled";
  reason = reason;
}

unfoldable pub disable_access_policy_rule :
    Actor → String → String → Tables → Result AdminError Tables
unfolding authorized update_rule
disable_access_policy_rule actor id reason t =
    if not (authorized t actor "security:write" "access_policy" id "")
    then err forbidden
    else if trim_space reason == ""
    then err (invalid_input "reason is required")
    else update_rule actor.tenant_id id (disabling reason) t
