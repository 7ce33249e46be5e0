-- ===== src/Authz/Service.antt =====
-- What an allowed and a refused answer of `Authorize` say (internal/app/authorization.go).
use webhookery.Common.{
  String, true, false, List, [], ◌∷◌, string_eq, trim_space, Option, none, some, ◌≡◌, ◌≢◌, refl,
  subst, arith, eq_iff, Bool-cases, Option-cases, inl, inr,
}
use webhookery.Authz.{Actor, can, scope_listed}
use webhookery.Authz.Isolation.{Unrestricted, Unrestricted-iff}
use webhookery.Authz.Request.{
  Decision, AuthorizationRequest, AuthzExplainRequest, Explain, role_name, star_or_listed,
  actor_scopes_allow, redact_authorization_decision, narrow, baseline, ask, explain_request, decide,
  undecided, authorize,
}

star_or_listed-scope_listed :
    (scopes : List String) (action : String)
    → star_or_listed scopes action ≡ scope_listed scopes action
unfolding star_or_listed scope_listed
star_or_listed-scope_listed [] action = refl
star_or_listed-scope_listed (s ∷ rest) action =
    ground (arith, star_or_listed-scope_listed rest action)

narrow_allowed :
    (actor : Actor) (action : String) (d : Decision)
    → (narrow actor action d).allowed ≡ true
    → actor_scopes_allow actor action ≡ true
unfolding narrow redact_authorization_decision
narrow_allowed actor action d h = ground arith

baseline_allowed :
    (actor : Actor) (action : String) (d : Decision)
    → d.allowed ≡ false
    → (baseline actor action d).allowed ≡ true
    → (can actor action d.resource.tenant_id ≡ true)
      × ((baseline actor action d).matched_role ≡ role_name actor.role)
unfolding baseline
baseline_allowed actor action d f h = ground arith

can-actor_scopes_allow :
    (actor : Actor) (action tenant : String)
    → can actor action tenant ≡ true
    → actor_scopes_allow actor action ≡ true
unfolding can actor_scopes_allow
can-actor_scopes_allow actor action tenant h =
    ground (arith, star_or_listed-scope_listed actor.scopes action)

decide_allowed :
    (store : Option Explain) (req : AuthorizationRequest) (d : Decision)
    → d.allowed ≡ false
    → (decide store req d).allowed ≡ true
    → actor_scopes_allow req.actor d.action ≡ true
unfolding decide
decide_allowed store req d f h =
    elim (Option-cases (ask store d.resource.tenant_id req.actor.id (explain_request d))) [
      | inl silent ↦
          can-actor_scopes_allow req.actor d.action d.resource.tenant_id
            (baseline_allowed req.actor d.action d f (rw (silent, decide) at h)).0
      | inr (explained, answered) ↦
          narrow_allowed req.actor d.action explained (rw (answered, decide) at h)
    ]

-- What the early returns leave of an allowed decision.
authorize_decides :
    (store : Option Explain) (req : AuthorizationRequest)
    → (authorize store req).allowed ≡ true
    → (req.actor.id ≢ "")
      × (req.actor.tenant_id ≢ "")
      × (req.actor.tenant_id ≡ trim_space req.tenant_id)
      × (authorize store req ≡ decide store req (undecided req))
unfolding authorize
authorize_decides store req h = ground (
  arith,
  eq_iff req.actor.id "",
  eq_iff req.actor.tenant_id "",
  eq_iff req.actor.tenant_id (trim_space req.tenant_id),
)

narrow_refused :
    (actor : Actor) (action : String) (d : Decision)
    → d.allowed ≡ false
    → (narrow actor action d).allowed ≡ false
unfolding narrow redact_authorization_decision
narrow_refused actor action d h = ground arith

decide_refused :
    (store : Option Explain) (req : AuthorizationRequest) (d : Decision) {explained : Decision}
    → ask store d.resource.tenant_id req.actor.id (explain_request d) ≡ some explained
    → explained.allowed ≡ false
    → (decide store req d).allowed ≡ false
unfolding decide
decide_refused store req d {explained} answered refused =
    rw (answered, decide) (narrow_refused req.actor d.action explained refused)

-- A request that the store refuses is refused.
pub authorize_refused :
    (store : Option Explain) (req : AuthorizationRequest) {d : Decision}
    → ask store req.actor.tenant_id req.actor.id (explain_request (undecided req)) ≡ some d
    → d.allowed ≡ false
    → (authorize store req).allowed ≡ false
authorize_refused store req {d} answered refused = elim (Bool-cases (authorize store req).allowed) [
  | inr no_grant ↦ no_grant
  | inl grant ↦
      let (named, tenant, same, decided) = authorize_decides store req grant in
      rw decided (
        decide_refused store req (undecided req)
          (subst (λ place. ask store place req.actor.id (explain_request (undecided req)) ≡ some d)
            same answered)
          refused)
]

-- An allowed decision needs a named actor, a tenant that is the actor's own and, whatever the
-- store answers, an action that the actor's own scope list lets through.
pub authorize_allowed :
    (store : Option Explain) (req : AuthorizationRequest)
    → (authorize store req).allowed ≡ true
    → (req.actor.id ≢ "")
      × (req.actor.tenant_id ≢ "")
      × (req.actor.tenant_id ≡ trim_space req.tenant_id)
      × Unrestricted req.actor.scopes (trim_space req.action)
unfolding actor_scopes_allow
authorize_allowed store req h =
    let (named, tenant, same, decided) = authorize_decides store req h in
    let scoped = decide_allowed store req (undecided req) refl (rw decided at h) in
    (
      named,
      tenant,
      same,
      (Unrestricted-iff req.actor.scopes (trim_space req.action)).0
          (rw star_or_listed-scope_listed at scoped),
    )

-- With no store, or one that fails, an allowed decision is the baseline's, and it names the role
-- that granted it.
pub authorize_baseline :
    (store : Option Explain) (req : AuthorizationRequest)
    → ((tenant actor : String) (r : AuthzExplainRequest) → ask store tenant actor r ≡ none)
    → (authorize store req).allowed ≡ true
    → (can req.actor (trim_space req.action) (trim_space req.tenant_id) ≡ true)
      × ((authorize store req).matched_role ≡ role_name req.actor.role)
authorize_baseline store req silent h =
    let decided = (authorize_decides store req h).3 in
    let is_baseline : decide store req (undecided req)
        ≡ baseline req.actor (trim_space req.action) (undecided req) =
      unfold decide in rw (silent _ _ _, decide) refl in
    rw (decided, is_baseline)
      (baseline_allowed req.actor (trim_space req.action) (undecided req) refl
        (rw (decided, is_baseline) at h))
