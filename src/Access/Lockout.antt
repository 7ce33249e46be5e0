-- ===== src/Access/Lockout.antt =====
-- The rules that shut out the administration of security, and what the checks of
-- internal/app/enterprise_identity.go keep out of the table.
use webhookery.Common.{
  ℕ, String, Bool, true, false, ◌||◌, ◌==◌, string_eq, Option, none, some, ◌≡◌, ◌≢◌, ◌∙◌, inl, inr,
  refl, sym, ap, subst, arith, eq_iff, Bool-cases, Option-cases, trim_space, to_lower, ok,
  >>=-eq-ok, ok-eq, err-ok, All, All-update_where,
}
use webhookery.Authz.{Actor}
use webhookery.Provider.{equal_fold}
use webhookery.Access.{AccessPolicyRule, Tables, default_wildcard}
use webhookery.Access.Rows.{Covers}
use webhookery.Access.Admin.{
  CreateAccessPolicyRuleRequest, UpdateAccessPolicyRuleRequest, authorized, identity_wildcard,
  would_deny_security_write, validate_access_policy, rule_row, insert_rule,
  create_access_policy_rule, find_rule, is_rule, given, changed, set_columns, replace_rule,
  update_rule, or_empty, update_access_policy_rule, disabling, disable_access_policy_rule,
  name_taken,
}

-- An active rule that denies `security:write` everywhere, over every family or over "security".
abbrev pub LocksOut : AccessPolicyRule → Type 0
LocksOut p =
    (p.state ≡ "active")
    × (p.effect ≡ "deny")
    × Covers p.action "security:write"
    × Covers p.resource_family "security"
    × (p.environment ≡ "*")

abbrev pub IsOpen : Tables → Type 0
IsOpen t = All (λ p. LocksOut p → ⊥) t.access_policy_rules

equal_fold-same : (s t : String) → s ≡ t → equal_fold s t ≡ true
unfolding equal_fold
equal_fold-same s t h = (eq_iff (to_lower s) (to_lower t)).1 (ap to_lower h)

wildcards_agree : (s : String) → identity_wildcard s ≡ default_wildcard s
unfolding identity_wildcard default_wildcard
wildcards_agree s = refl

default_wildcard-security :
    (s : String) → default_wildcard s ≡ "security" → trim_space s ≡ "security"
unfolding default_wildcard
default_wildcard-security s h = elim (Bool-cases (trim_space s == "")) [
  | inl empty ↦ let clash = (eq_iff "*" "security").1 (rw empty at h) in cc clash
  | inr full ↦ rw full at h
]

-- What passes the check is no lock-out once it is stored.
would_deny_security_write_lem :
    (effect action family environment : String)
    → would_deny_security_write effect action family environment ≡ false
    → trim_space effect ≡ "deny"
    → Covers (trim_space action) "security:write"
    → Covers (default_wildcard family) "security"
    → default_wildcard environment ≡ "*"
    → ⊥
unfolding would_deny_security_write
would_deny_security_write_lem effect action family environment passes denies covers over
      everywhere =
    let fold = equal_fold-same (trim_space effect) "deny" denies in
    let acts : (trim_space action == "security:write" || trim_space action == "*") ≡ true =
      ground (arith, eq_iff (trim_space action) "security:write", eq_iff (trim_space action) "*") in
    let place : (identity_wildcard environment == "*") ≡ true =
      (eq_iff (identity_wildcard environment) "*").1 (wildcards_agree environment ∙ everywhere) in
    elim over [
      | inl every ↦
          let star : (identity_wildcard family == "*") ≡ true =
            (eq_iff (identity_wildcard family) "*").1 (wildcards_agree family ∙ every) in
          ground (arith, fold, acts, place, star)
      | inr named ↦
          let own =
            equal_fold-same (trim_space family) "security"
              (default_wildcard-security family named) in
          ground (arith, fold, acts, place, own)
    ]

-- An update that names the effect, the action, the family and the environment.
abbrev pub IsComplete : UpdateAccessPolicyRuleRequest → Type 0
IsComplete req =
    (req.effect ≢ none)
    × (req.action ≢ none)
    × (req.resource_family ≢ none)
    × (req.environment ≢ none)

rule_row-opens :
    (id : String) (now : ℕ) (actor : Actor) (req : CreateAccessPolicyRuleRequest)
    → would_deny_security_write req.effect req.action req.resource_family req.environment ≡ false
    → LocksOut (rule_row id now actor req)
    → ⊥
unfolding rule_row
rule_row-opens id now actor req passes (active, denies, covers, over, everywhere) =
    would_deny_security_write_lem req.effect req.action req.resource_family req.environment passes
      denies covers over everywhere

insert_rule-IsOpen :
    (row : AccessPolicyRule) (t : Tables) {after : Tables}
    → (LocksOut row → ⊥)
    → IsOpen t
    → insert_rule row t ≡ ok after
    → IsOpen after
unfolding insert_rule
insert_rule-IsOpen row t {after} opens open_now h =
    elim (Bool-cases (name_taken row.tenant_id row.id row.name t.access_policy_rules)) [
      | inl taken ↦ absurd (err-ok (rw taken at h))
      | inr free ↦ subst IsOpen (ok-eq (rw free at h)) (opens, open_now)
    ]

-- A rule that is created has passed the check.
create_access_policy_rule-insert_rule :
    (valid : String → Bool) (id : String) (now : ℕ) (actor : Actor)
    (req : CreateAccessPolicyRuleRequest) (t : Tables) {after : Tables}
    → create_access_policy_rule valid id now actor req t ≡ ok after
    → (would_deny_security_write req.effect req.action req.resource_family req.environment ≡ false)
      × (insert_rule (rule_row id now actor req) t ≡ ok after)
unfolding create_access_policy_rule
create_access_policy_rule-insert_rule valid id now actor req t h =
    elim (Bool-cases (authorized t actor "security:write" "access_policy" "" "")) [
      | inr refused ↦ absurd (err-ok (rw refused at h))
      | inl may ↦
          let (checked, is_valid, inserted) =
            >>=-eq-ok (validate_access_policy valid req) _ (rw may at h) in
          elim (Bool-cases
            (would_deny_security_write req.effect req.action req.resource_family req.environment)) [
              | inl denied ↦ absurd (err-ok (rw denied at inserted))
              | inr passes ↦ (passes, rw passes at inserted)
            ]
    ]

pub create_access_policy_rule-IsOpen :
    (valid : String → Bool) (id : String) (now : ℕ) (actor : Actor)
    (req : CreateAccessPolicyRuleRequest) (t : Tables) {after : Tables}
    → IsOpen t
    → create_access_policy_rule valid id now actor req t ≡ ok after
    → IsOpen after
create_access_policy_rule-IsOpen valid id now actor req t open_now h =
    let (passes, inserted) = create_access_policy_rule-insert_rule valid id now actor req t h in
    insert_rule-IsOpen (rule_row id now actor req) t (rule_row-opens id now actor req passes)
      open_now inserted

-- The columns of a row that an update has written hold no lock-out, where the new row holds none.
replace_rule-IsOpen :
    (tenant_id id : String) (item : AccessPolicyRule) (t : Tables) {after : Tables}
    → (LocksOut item → ⊥)
    → IsOpen t
    → replace_rule tenant_id id item t ≡ ok after
    → IsOpen after
unfolding replace_rule set_columns
replace_rule-IsOpen tenant_id id item t {after} opens open_now h =
    elim (Bool-cases (name_taken tenant_id id item.name t.access_policy_rules)) [
      | inl taken ↦ absurd (err-ok (rw taken at h))
      | inr free ↦ subst IsOpen (ok-eq (rw free at h)) (
          All-update_where (is_rule tenant_id id) (set_columns item) t.access_policy_rules
            (λ row hit before. opens) open_now)
    ]

update_rule-IsOpen :
    (tenant_id id : String) (req : UpdateAccessPolicyRuleRequest) (t : Tables) {after : Tables}
    → ((p : AccessPolicyRule) → LocksOut (changed req p) → ⊥)
    → IsOpen t
    → update_rule tenant_id id req t ≡ ok after
    → IsOpen after
unfolding update_rule
update_rule-IsOpen tenant_id id req t {after} opens open_now h =
    elim (Option-cases (find_rule tenant_id id t.access_policy_rules)) [
      | inl missing ↦ absurd (err-ok (rw (missing, update_rule) at h))
      | inr (p, found) ↦
          replace_rule-IsOpen tenant_id id (changed req p) t (opens p) open_now
            (rw (found, update_rule) at h)
    ]

given-or_empty :
    (change : String → String) (value : Option String) (old : String)
    → value ≢ none
    → given change value old ≡ change (or_empty value)
unfolding given or_empty
given-or_empty change none old present = absurd (present refl)
given-or_empty change (some value) old present = refl

-- With the four fields given, the row is what was checked.
changed-opens :
    (req : UpdateAccessPolicyRuleRequest)
    → IsComplete req
    → would_deny_security_write
        (or_empty req.effect)
        (or_empty req.action)
        (or_empty req.resource_family)
        (or_empty req.environment)
      ≡ false
    → (p : AccessPolicyRule) → LocksOut (changed req p)
    → ⊥
unfolding changed
changed-opens req (effect, action, family, environment) passes p
      (active, denies, covers, over, everywhere) =
    would_deny_security_write_lem (or_empty req.effect) (or_empty req.action)
      (or_empty req.resource_family) (or_empty req.environment) passes
      (sym (given-or_empty trim_space req.effect p.effect effect) ∙ denies)
      (subst (λ s. Covers s "security:write") (given-or_empty trim_space req.action p.action action)
        covers)
      (subst (λ s. Covers s "security")
        (given-or_empty default_wildcard req.resource_family p.resource_family family) over)
      (sym (given-or_empty default_wildcard req.environment p.environment environment) ∙ everywhere)

pub update_access_policy_rule-IsOpen :
    (actor : Actor) (id : String) (req : UpdateAccessPolicyRuleRequest) (t : Tables)
    {after : Tables}
    → IsComplete req
    → IsOpen t
    → update_access_policy_rule actor id req t ≡ ok after
    → IsOpen after
unfolding update_access_policy_rule
update_access_policy_rule-IsOpen actor id req t complete open_now h =
    elim (Bool-cases (authorized t actor "security:write" "access_policy" id "")) [
      | inr refused ↦ absurd (err-ok (rw refused at h))
      | inl may ↦ elim (Bool-cases (trim_space req.reason == "")) [
        | inl blank ↦ absurd (err-ok (rw (may, blank) at h))
        | inr stated ↦
            elim (Bool-cases (
              would_deny_security_write (or_empty req.effect) (or_empty req.action)
                (or_empty req.resource_family) (or_empty req.environment))) [
                  | inl denied ↦ absurd (err-ok (rw (may, stated, denied) at h))
                  | inr passes ↦
                      update_rule-IsOpen actor.tenant_id id req t
                        (changed-opens req complete passes) open_now (rw (may, stated, passes) at h)
                ]
      ]
    ]

disabling-opens :
    (reason : String) (p : AccessPolicyRule) → LocksOut (changed (disabling reason) p) → ⊥
unfolding changed given
disabling-opens reason p locks = let clash = (eq_iff "disabled" "active").1 (locks.0) in cc clash

pub disable_access_policy_rule-IsOpen :
    (actor : Actor) (id reason : String) (t : Tables) {after : Tables}
    → IsOpen t
    → disable_access_policy_rule actor id reason t ≡ ok after
    → IsOpen after
unfolding disable_access_policy_rule
disable_access_policy_rule-IsOpen actor id reason t open_now h =
    elim (Bool-cases (authorized t actor "security:write" "access_policy" id "")) [
      | inr refused ↦ absurd (err-ok (rw refused at h))
      | inl may ↦ elim (Bool-cases (trim_space reason == "")) [
        | inl blank ↦ absurd (err-ok (rw (may, blank) at h))
        | inr stated ↦
            update_rule-IsOpen actor.tenant_id id (disabling reason) t (disabling-opens reason)
              open_now (rw (may, stated) at h)
      ]
    ]
