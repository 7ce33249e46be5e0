-- ===== src/Access/Denied.antt =====
-- A deny rule in front of the service: `authorized` in internal/app/enterprise_identity.go over
-- ExplainAuthorization in internal/adapters/postgres/enterprise_identity.go, and an update of a rule
-- that shuts every administrator out.
use webhookery.Common.{
  String, Bool, true, false, ◌&&◌, List, [], ◌∷◌, ◌==◌, string_eq, none, some, ◌≡◌, ◌≢◌, ◌∙◌, inl,
  inr, refl, sym, subst, arith, eq_iff, Bool-cases, some-eq, trim_space, ok, update_where,
}
use mathlib.Core.List.{Memᴰ}
use webhookery.Authz.{Actor}
use webhookery.Authz.Request.{AuthzExplainRequest, explain_request, undecided}
use webhookery.Authz.Service.{authorize_refused}
use webhookery.Access.{AccessPolicyRule, Tables}
use webhookery.Access.Explain.{explain_from}
use webhookery.Access.Rows.{Covers, Applies}
use webhookery.Access.Justified.{explain_authorization_denied}
use webhookery.Access.Admin.{
  UpdateAccessPolicyRuleRequest, request_to, authorized, find_rule, is_rule, given, changed,
  set_columns, replace_rule, update_rule, update_access_policy_rule, name_taken, or_empty,
  would_deny_security_write,
}

-- The request that the store is asked about.
abbrev pub asked_about : Actor → String → String → String → String → AuthzExplainRequest
asked_about actor action resource_family resource_id environment =
    explain_request (undecided (request_to actor action resource_family resource_id environment))

-- An active rule of the actor's tenant that denies the action over the family and the environment
-- refuses the actor, whatever role, binding, scope or other rule speaks for them.
pub authorized_denied :
    (t : Tables) (actor : Actor) (action family id environment : String) {p : AccessPolicyRule}
    → Memᴰ p t.access_policy_rules
    → Applies actor.tenant_id (asked_about actor action family id environment) p
    → p.effect ≡ "deny"
    → authorized t actor action family id environment ≡ false
unfolding authorized
authorized_denied t actor action family id environment listed applies denies =
    authorize_refused (some (explain_from t)) (request_to actor action family id environment) refl
      (explain_authorization_denied t actor.tenant_id actor.id
        (asked_about actor action family id environment) listed applies denies).0

abbrev pub Refused : Tables → String → Type 0
Refused t tenant_id =
    (actor : Actor) (family id environment : String)
    → actor.tenant_id ≡ tenant_id
    → authorized t actor "security:write" family id environment ≡ false

-- An active deny rule for `security:write` over every family and environment.
abbrev ShutsOut : AccessPolicyRule → String → Type 0
ShutsOut p tenant_id =
    (p.tenant_id ≡ tenant_id)
    × (p.state ≡ "active")
    × (p.effect ≡ "deny")
    × Covers p.action "security:write"
    × (p.resource_family ≡ "*")
    × (p.environment ≡ "*")

ShutsOut-Refused :
    (t : Tables) (tenant_id : String) {p : AccessPolicyRule}
    → Memᴰ p t.access_policy_rules
    → ShutsOut p tenant_id
    → Refused t tenant_id
unfolding trim_space
ShutsOut-Refused t tenant_id {p} listed (own, active, denies, covers, every, everywhere) actor
      family id environment same =
    authorized_denied t actor "security:write" family id environment listed
      (cc (own, same), active, covers, inl every, inl everywhere) denies

find_rule→mem :
    (tenant_id id : String) (rules : List AccessPolicyRule) {p : AccessPolicyRule}
    → find_rule tenant_id id rules ≡ some p
    → Memᴰ p rules × (is_rule tenant_id id p ≡ true)
unfolding find_rule is_rule
find_rule→mem tenant_id id [] h = cc
find_rule→mem tenant_id id (r ∷ rules) {p} h =
    elim (Bool-cases (r.tenant_id == tenant_id && r.id == id)) [
      | inl hit ↦
          let same = some-eq (rw hit at h) in
          (
            Memᴰ.head (sym same),
            subst (λ (x : AccessPolicyRule). (x.tenant_id == tenant_id && x.id == id) ≡ true) same
                hit,
          )
      | inr miss ↦
          let (later, kept) = find_rule→mem tenant_id id rules (rw miss at h) in
          (Memᴰ.tail later, kept)
    ]

mem→update_where {ℓ} :
    {Row : Type ℓ} (test : Row → Bool) (change : Row → Row) {row : Row} {rows : List Row}
    → Memᴰ row rows
    → test row ≡ true
    → Memᴰ (change row) (update_where test change rows)
unfolding update_where
mem→update_where test change {rows = []} m h = elim m [ ]
mem→update_where test change {rows = r ∷ rows} (Memᴰ.head p) h =
    rw (subst (λ x. test x ≡ true) p h) (Memᴰ.head (λ i. change (p i)))
mem→update_where test change {rows = r ∷ rows} (Memᴰ.tail m) h =
    Memᴰ.tail (mem→update_where test change m h)

-- Only the effect changes.
abbrev pub denying : String → UpdateAccessPolicyRuleRequest
denying reason = record {
  name = none;
  action = none;
  effect = some "deny";
  resource_family = none;
  environment = none;
  conditions = none;
  state = none;
  reason = reason;
}

-- With the action left out the check sees no action that it guards.
denying_unguarded : would_deny_security_write "deny" "" "" "" ≡ false
unfolding would_deny_security_write trim_space
denying_unguarded = ground arith

trim_space-deny : trim_space "deny" ≡ "deny"
unfolding trim_space
trim_space-deny = refl

-- The tables after an update that the database takes.
abbrev rewritten :
    String → String → UpdateAccessPolicyRuleRequest → AccessPolicyRule → Tables → Tables
rewritten tenant_id id req p t = record t {
  access_policy_rules =
      update_where (is_rule tenant_id id) (set_columns (changed req p)) t.access_policy_rules;
}

update_rule-eq :
    (tenant_id id : String) (req : UpdateAccessPolicyRuleRequest) (p : AccessPolicyRule)
    (t : Tables)
    → find_rule tenant_id id t.access_policy_rules ≡ some p
    → name_taken tenant_id id (changed req p).name t.access_policy_rules ≡ false
    → update_rule tenant_id id req t ≡ ok (rewritten tenant_id id req p t)
unfolding update_rule replace_rule
update_rule-eq tenant_id id req p t found free = rw (found, update_rule) (rw free refl)

-- The early returns of the service, none of them taken.
update_access_policy_rule-update_rule :
    (t : Tables) (actor : Actor) (id : String) (req : UpdateAccessPolicyRuleRequest)
    → authorized t actor "security:write" "access_policy" id "" ≡ true
    → trim_space req.reason ≢ ""
    → would_deny_security_write
        (or_empty req.effect)
        (or_empty req.action)
        (or_empty req.resource_family)
        (or_empty req.environment)
      ≡ false
    → update_access_policy_rule actor id req t ≡ update_rule actor.tenant_id id req t
unfolding update_access_policy_rule
update_access_policy_rule-update_rule t actor id req may reason unguarded =
    ground (arith, eq_iff (trim_space req.reason) "")

-- The check on lock-outs looks at the fields of the request only. An administrator who may write the
-- rule turns the effect of an active rule for `security:write`, or for every action, over all
-- families and environments to "deny" by a request that names the effect alone: the update is
-- accepted, and from then on `security:write` is refused to every actor of the tenant, on every
-- family, resource and environment.
pub update_access_policy_rule-Refused :
    (t : Tables) (actor : Actor) (id reason : String) (p : AccessPolicyRule)
    → find_rule actor.tenant_id id t.access_policy_rules ≡ some p
    → name_taken actor.tenant_id id p.name t.access_policy_rules ≡ false
    → p.state ≡ "active"
    → Covers p.action "security:write"
    → p.resource_family ≡ "*"
    → p.environment ≡ "*"
    → trim_space reason ≢ ""
    → authorized t actor "security:write" "access_policy" id "" ≡ true
    → (after : Tables) × (update_access_policy_rule actor id (denying reason) t ≡ ok after)
      × Refused after actor.tenant_id
unfolding changed given or_empty is_rule set_columns
update_access_policy_rule-Refused t actor id reason p found free active covers every everywhere
      stated may =
    let (listed, kept) = find_rule→mem actor.tenant_id id t.access_policy_rules found in
    (
      rewritten actor.tenant_id id (denying reason) p t,
      update_access_policy_rule-update_rule t actor id (denying reason) may stated denying_unguarded
          ∙ update_rule-eq actor.tenant_id id (denying reason) p t found free,
      ShutsOut-Refused (rewritten actor.tenant_id id (denying reason) p t) actor.tenant_id
          (mem→update_where (is_rule actor.tenant_id id) (set_columns (changed (denying reason) p))
            listed kept)
          (
            (eq_iff p.tenant_id actor.tenant_id).0 (ground arith),
            active,
            trim_space-deny,
            covers,
            every,
            everywhere,
          ),
    )
