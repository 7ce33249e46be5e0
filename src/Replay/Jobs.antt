-- ===== src/Replay/Jobs.antt =====
-- The life of a replay job: CreateReplay, ApproveReplayJob, updateReplayState, StartReplayJob and
-- CompleteReplayJob in internal/adapters/postgres/store.go, and the control service in front of them
-- (internal/app/control.go). The dry run that counts the deliveries for `total_items`, the hash of the
-- scope and the audit events are left out. The id is the primary key of the table of jobs.
use webhookery.Common.{
  ℕ, ◌+◌, ◌*◌, String, Bool, true, false, not, ◌&&◌, ◌||◌, List, [], ◌∷◌, ◌==◌, string_eq, Option,
  none, some, if◌then◌else◌, trim_space, Result, ok, err, ◌>>=◌,
}
use webhookery.Common.Int.{pos, pos_part, leb_ℤ}
use webhookery.Authz.{Actor}
use webhookery.Access.{Tables}
use webhookery.Access.Admin.{authorized}
use webhookery.Replay.{
  ReplayRequest, ReplayJob, ReplayApprovalPolicy, ReplayItem, ReplayTables, ReplayError, forbidden,
  not_found, invalid_input, replay_approval_default_expiry, or_default, is_future,
  normalize_replay_request,
}
use webhookery.Replay.Scope.{replay_approval_policy_for_replay}

unfoldable pub is_job : String → String → ReplayJob → Bool
is_job tenant_id id j = j.tenant_id == tenant_id && j.id == id

unfoldable pub find_job : String → String → List ReplayJob → Option ReplayJob
unfolding is_job
find_job tenant_id id [] = none
find_job tenant_id id (j ∷ rest) =
    if is_job tenant_id id j then some j else find_job tenant_id id rest

unfoldable pub behind : ReplayJob → Option (List ReplayJob) → Option (List ReplayJob)
behind j none = none
behind j (some rest) = some (j ∷ rest)

-- `UPDATE replay_jobs SET … WHERE tenant_id=… AND id=… AND …`: none if it touches no row.
unfoldable pub update_job :
    (ReplayJob → Bool)
    → (ReplayJob → ReplayJob)
    → String
    → String
    → List ReplayJob
    → Option (List ReplayJob)
unfolding is_job behind
update_job test change tenant_id id [] = none
update_job test change tenant_id id (j ∷ rest) =
    if is_job tenant_id id j
    then if test j then some (change j ∷ rest) else none
    else behind j (update_job test change tenant_id id rest)

unfoldable pub default_expiry : ReplayApprovalPolicy → ℕ
default_expiry p =
    if leb_ℤ p.default_expiry_seconds (pos 0)
    then replay_approval_default_expiry
    else pos_part p.default_expiry_seconds * 1000000000

-- What a policy adds to the request.
unfoldable pub under_policy : ℕ → Option ReplayApprovalPolicy → ReplayRequest → ReplayRequest
unfolding or_default default_expiry
under_policy now none req = req
under_policy now (some p) req = record req {
  require_approval = true;
  approval_expires_at = some (or_default (now + default_expiry p) req.approval_expires_at);
}

unfoldable pub with_defaults : ReplayRequest → ReplayRequest
with_defaults req = record req {
  config_mode = if req.config_mode == "" then "current" else req.config_mode;
  reason_code =
      if trim_space req.reason_code == "" then "operator_requested" else trim_space req.reason_code;
  reason = trim_space req.reason;
}

-- The window of a request that needs approval; the service's check may be minutes old.
unfoldable pub with_window : ℕ → ReplayRequest → ReplayRequest
unfolding or_default
with_window now req =
    if req.require_approval
    then record req {
      approval_expires_at =
          some (or_default (now + replay_approval_default_expiry) req.approval_expires_at);
    }
    else req

unfoldable pub job_row : String → String → String → ReplayRequest → ReplayJob
job_row id tenant_id actor_id req = record {
  id = id;
  tenant_id = tenant_id;
  state = if req.require_approval then "pending_approval" else "scheduled";
  request = req;
  approval_required = req.require_approval;
  approval_expires_at = req.approval_expires_at;
  approved_by = "";
  approved_at = none;
  created_by = actor_id;
  processed_items = 0;
}

abbrev pub item_for : String → String → ReplayItem
item_for tenant_id id = record { tenant_id = tenant_id; resource_id = id }

unfoldable pub insert_job : ReplayJob → ReplayTables → ReplayTables
insert_job j t = record t {
  jobs = j ∷ t.jobs;
  outbox = if j.approval_required then t.outbox else item_for j.tenant_id j.id ∷ t.outbox;
}

-- The request as it is stored.
unfoldable pub settled : ℕ → String → ReplayRequest → ReplayTables → ReplayRequest
unfolding with_defaults under_policy with_window replay_approval_policy_for_replay
settled now tenant_id req t = with_window now (
    under_policy now (replay_approval_policy_for_replay t tenant_id (with_defaults req))
      (with_defaults req))

-- The store's method.
unfoldable pub insert_replay :
    String → ℕ → String → String → ReplayRequest → ReplayTables → Result ReplayError ReplayTables
unfolding settled is_future job_row insert_job
insert_replay id now tenant_id actor_id req t =
    let stored = settled now tenant_id req t in
    if stored.require_approval && not (is_future now stored.approval_expires_at)
    then err (invalid_input "approval_expires_at must be in the future")
    else ok (insert_job (job_row id tenant_id actor_id stored) t)

unfoldable pub create_replay :
    Tables → String → ℕ → Actor → ReplayRequest → ReplayTables → Result ReplayError ReplayTables
unfolding authorized normalize_replay_request insert_replay
create_replay access id now actor req t =
    if not (authorized access actor "replay:write" "replay" req.event_id "")
    then err forbidden
    else normalize_replay_request now req
      >>= (λ normal. insert_replay id now actor.tenant_id actor.id normal t)

unfoldable pub with_jobs :
    ReplayTables → List ReplayItem → Option (List ReplayJob) → Result ReplayError ReplayTables
with_jobs t outbox none = err not_found
with_jobs t outbox (some jobs) = ok (record t { jobs = jobs; outbox = outbox })

unfoldable pub awaits : String → ℕ → ReplayJob → Bool
unfolding is_future
awaits actor_id now j =
    j.state == "pending_approval"
    && j.approval_required
    && not (j.created_by == actor_id)
    && is_future now j.approval_expires_at

unfoldable pub approved : String → ℕ → ReplayJob → ReplayJob
approved actor_id now j = record j {
  state = "scheduled";
  approved_by = actor_id;
  approved_at = some now;
}

unfoldable pub approve_replay_job :
    String → String → String → ℕ → ReplayTables → Result ReplayError ReplayTables
unfolding with_jobs update_job awaits approved
approve_replay_job tenant_id id actor_id now t =
    with_jobs t (item_for tenant_id id ∷ t.outbox)
      (update_job (awaits actor_id now) (approved actor_id now) tenant_id id t.jobs)

-- `stateGuard`
unfoldable pub state_guard : String → ReplayJob → Bool
state_guard state j =
    not (j.state == "completed")
    && not (j.state == "canceled")
    && (not (state == "scheduled") || not (j.state == "pending_approval"))

unfoldable pub in_state : String → ReplayJob → ReplayJob
in_state state j = record j { state = state }

unfoldable pub update_replay_state :
    String → String → String → ReplayTables → Result ReplayError ReplayTables
unfolding with_jobs update_job state_guard in_state
update_replay_state tenant_id id state t =
    with_jobs t t.outbox (update_job (state_guard state) (in_state state) tenant_id id t.jobs)

-- The four methods that the service calls with a reason.
pub data StateChange : Type 0 where
  approve pause resume cancel : StateChange

unfoldable pub make_change :
    StateChange → String → String → String → ℕ → ReplayTables → Result ReplayError ReplayTables
unfolding approve_replay_job update_replay_state
make_change approve tenant_id id actor_id now t = approve_replay_job tenant_id id actor_id now t
make_change pause tenant_id id actor_id now t = update_replay_state tenant_id id "paused" t
make_change resume tenant_id id actor_id now t = update_replay_state tenant_id id "scheduled" t
make_change cancel tenant_id id actor_id now t = update_replay_state tenant_id id "canceled" t

unfoldable pub change_replay_state :
    Tables
    → StateChange
    → Actor
    → String
    → String
    → ℕ
    → ReplayTables
    → Result ReplayError ReplayTables
unfolding authorized make_change
change_replay_state access change actor id reason now t =
    if not (authorized access actor "replay:write" "replay" id "")
    then err forbidden
    else if trim_space reason == ""
    then err (invalid_input "reason is required")
    else make_change change actor.tenant_id id actor.id now t

-- The table behind an UPDATE that may touch no row.
unfoldable pub jobs_or : List ReplayJob → Option (List ReplayJob) → List ReplayJob
jobs_or before none = before
jobs_or before (some after) = after

unfoldable pub touched : Option (List ReplayJob) → Bool
touched none = false
touched (some after) = true

unfoldable pub is_scheduled : ReplayJob → Bool
is_scheduled j = j.state == "scheduled"

-- Whether the job was started.
unfoldable pub start_replay_job : String → String → ReplayTables → Bool × ReplayTables
unfolding jobs_or touched update_job is_scheduled in_state
start_replay_job tenant_id id t =
    let updated = update_job is_scheduled (in_state "running") tenant_id id t.jobs in
    (touched updated, record t { jobs = jobs_or t.jobs updated })

unfoldable pub is_open : ReplayJob → Bool
is_open j = not (j.state == "canceled")

unfoldable pub completed_with : ℕ → ReplayJob → ReplayJob
completed_with processed_items j = record j {
  state = "completed";
  processed_items = processed_items;
}

unfoldable pub complete_replay_job : String → String → ℕ → ReplayTables → ReplayTables
unfolding jobs_or update_job is_open completed_with
complete_replay_job tenant_id id processed_items t = record t {
  jobs = jobs_or t.jobs (update_job is_open (completed_with processed_items) tenant_id id t.jobs);
}
