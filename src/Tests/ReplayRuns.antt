-- ===== src/Tests/ReplayRuns.antt =====
-- Runs of the replay jobs (internal/adapters/postgres/store.go, internal/app/control.go).
use mathlib.Core.List.{Memᴰ}
use webhookery.Replay.Requested.{HasKeys}
use webhookery.Common.{
  sym, ◌∙◌, ℕ, String, true, false, [], ◌∷◌, none, some, ◌≡◌, ◌⊎◌, inl, refl, ok, err, trim_space,
  contains,
}
use webhookery.Common.Int.{pos}
use webhookery.Access.{rows_where, first_by, better}
use webhookery.Replay.{
  ReplayRequest, ReplayJob, ReplayApprovalPolicy, EventRow, RouteRow, ReplayTables, not_found,
  or_default, is_future,
}
use webhookery.Replay.Scope.{
  replay_scope, delivery_scope, event_scope, find_event, source_of, type_of, source_routes,
  original_routes, route_ids, is_route_of, requires, over_routes, over_scope, updated_before,
  or_next, route_policy, source_policy, tenant_policy, policy_for_scope,
  replay_approval_policy_for_replay,
}
use webhookery.Replay.Jobs.{
  is_job, find_job, update_job, with_jobs, default_expiry, under_policy, with_defaults, with_window,
  job_row, insert_job, settled, insert_replay, awaits, approved, approve_replay_job, in_state,
  approve, pause, resume, make_change, jobs_or, is_scheduled, start_replay_job,
}
use webhookery.Replay.Governed.{Cleared, has_item}
use webhookery.Replay.Reach.{Reached, Reached-Cleared}
use webhookery.Replay.Stranded.{make_change_stranded}
use webhookery.Replay.Needs.{NeedsApproval}
use webhookery.Replay.Pending.{Waits, Goes, insert_replay-Waits}

abbrev request : ReplayRequest
request = record {
  event_id = "evt_1";
  delivery_id = "";
  endpoint_id = "";
  reason_code = "receiver_fixed";
  reason = "receiver fixed";
  config_mode = "current";
  rate_limit_per_minute = pos 0;
  require_approval = false;
  approval_expires_at = none;
}

abbrev policy : ReplayApprovalPolicy
policy = record {
  tenant_id = "ten_1";
  scope_type = "route";
  scope_id = "rou_1";
  require_approval = true;
  default_expiry_seconds = pos 600;
  state = "active";
  updated_at = 1;
}

abbrev paid : EventRow
paid = record { tenant_id = "ten_1"; id = "evt_1"; source_id = "src_1"; type_name = "order.paid" }

abbrev route : RouteRow
route = record {
  tenant_id = "ten_1";
  id = "rou_1";
  source_id = "src_1";
  event_types = "order.paid" ∷ [];
  state = "active";
}

abbrev start : ReplayTables
start = record {
  jobs = [];
  outbox = [];
  policies = policy ∷ [];
  deliveries = [];
  events = paid ∷ [];
  routes = route ∷ [];
}

-- The policy of the route gives the job ten minutes.
abbrev job : ReplayJob
job =
    job_row "rpl_1" "ten_1" "usr_1"
      (record request { require_approval = true; approval_expires_at = some 600000000005 })

abbrev requested : ReplayTables
requested = insert_job job start

request_runs : insert_replay "rpl_1" 5 "ten_1" "usr_1" request start ≡ ok requested
unfolding insert_replay settled with_defaults under_policy with_window default_expiry or_default
    is_future insert_job job_row replay_approval_policy_for_replay policy_for_scope or_next
    route_policy source_policy tenant_policy replay_scope delivery_scope event_scope find_event
    source_of type_of source_routes original_routes route_ids rows_where first_by better is_route_of
    requires over_routes over_scope updated_before contains trim_space
request_runs = refl

start_keys : HasKeys start
start_keys = record {
  events = λ m m' same. only m ∙ sym (only m');
  deliveries = λ m m' same. elim m [ ];
}
  where
    only : {e : EventRow} → Memᴰ e start.events → e ≡ paid
    only (Memᴰ.head p) = p
    only (Memᴰ.tail m) = elim m [ ]

insert_replay-Waits_example :
    (j : ReplayJob) × (requested.jobs ≡ j ∷ [])
    × ((NeedsApproval start "ten_1" request × Waits 5 start requested j)
        ⊎ ((NeedsApproval start "ten_1" request → ⊥) × Goes start requested j))
insert_replay-Waits_example =
    insert_replay-Waits "rpl_1" 5 "ten_1" "usr_1" request start start_keys request_runs

abbrev cleared_tables : ReplayTables
cleared_tables = record requested {
  jobs = approved "usr_2" 9 job ∷ [];
  outbox = record { tenant_id = "ten_1"; resource_id = "rpl_1" } ∷ [];
}

approval_runs : make_change approve "ten_1" "rpl_1" "usr_2" 9 requested ≡ ok cleared_tables
unfolding make_change approve_replay_job with_jobs update_job is_job awaits approved is_future
    insert_job job_row
approval_runs = refl

self_approval_runs : make_change approve "ten_1" "rpl_1" "usr_1" 9 requested ≡ err not_found
unfolding make_change approve_replay_job with_jobs update_job is_job awaits approved is_future
    insert_job job_row
self_approval_runs = refl

running : Reached (start_replay_job "ten_1" "rpl_1" cleared_tables).1
unfolding has_item
running =
    Reached.started "ten_1" "rpl_1"
      (Reached.changed approve "ten_1" "rpl_1" "usr_2" 9
        (Reached.inserted "rpl_1" 5 "ten_1" "usr_1" request (Reached.empty start refl) refl
          request_runs)
        approval_runs)
      refl

Reached-Cleared_example : Cleared (in_state "running" (approved "usr_2" 9 job))
unfolding start_replay_job jobs_or update_job is_job is_scheduled find_job in_state approved job_row
Reached-Cleared_example =
    Reached-Cleared "ten_1" "rpl_1" (in_state "running" (approved "usr_2" 9 job)) running refl
      (inl refl)

make_change_stranded_example :
    (paused resumed : ReplayTables) × (make_change pause "ten_1" "rpl_1" "usr_1" 9 requested
      ≡ ok paused)
    × (make_change resume "ten_1" "rpl_1" "usr_1" 9 paused ≡ ok resumed)
    × (find_job "ten_1" "rpl_1" resumed.jobs ≡ some (in_state "scheduled" job))
    × (has_item "ten_1" "rpl_1" resumed.outbox ≡ false)
    × ((approver : String) (at : ℕ)
        → make_change approve "ten_1" "rpl_1" approver at resumed ≡ err not_found)
unfolding find_job is_job insert_job job_row has_item
make_change_stranded_example =
    make_change_stranded requested "ten_1" "rpl_1" "usr_1" 9 job refl refl refl
