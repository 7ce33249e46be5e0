-- ===== src/Tests/AuthzRuns.antt =====
-- Runs of internal/authz/policy.go and internal/app/authorization.go.
use webhookery.Common.{◌≡◌, ◌≢◌, ◌↔◌, refl, none, true, false, [], ◌∷◌, trim_space}
use webhookery.Authz.{Actor, operator, role_allows, can, scope_listed}
use webhookery.Authz.Isolation.{Unrestricted, can_iff}
use webhookery.Authz.Request.{AuthorizationRequest, authorize}
use webhookery.Authz.Service.{authorize_allowed}

abbrev oncall : Actor
oncall = record {
  id = "usr_1";
  tenant_id = "ten_1";
  role = operator;
  scopes = "events:read" ∷ "replay:write" ∷ [];
  source_id = "";
}

abbrev asked : AuthorizationRequest
asked = record {
  actor = oncall;
  tenant_id = " ten_1";
  action = "replay:write";
  resource_family = "replay_job";
  resource_id = "";
  environment = "";
}

can_runs : can oncall "events:read" "ten_1" ≡ true
unfolding can role_allows scope_listed
can_runs = refl

can_other_tenant : can oncall "events:read" "ten_2" ≡ false
unfolding can
can_other_tenant = refl

can_iff_example : (can oncall "events:read" "ten_1" ≡ true) ↔ (
    (oncall.tenant_id ≢ "")
    × (oncall.tenant_id ≡ "ten_1")
    × (role_allows operator "events:read" ≡ true)
    × Unrestricted oncall.scopes "events:read")
can_iff_example = can_iff oncall "events:read" "ten_1"

authorize_allowed_example :
    (asked.actor.id ≢ "")
    × (asked.actor.tenant_id ≢ "")
    × (asked.actor.tenant_id ≡ trim_space asked.tenant_id)
    × Unrestricted asked.actor.scopes (trim_space asked.action)
unfolding authorize can role_allows scope_listed trim_space
authorize_allowed_example = authorize_allowed none asked refl
