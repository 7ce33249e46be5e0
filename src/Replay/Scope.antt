-- ===== src/Replay/Scope.antt =====
-- The approval policy that a replay request falls under: replayApprovalPolicyForReplay in
-- internal/adapters/postgres/store.go.
use webhookery.Common.{
  String, Bool, false, ◌&&◌, List, [], ◌∷◌, ◌++◌, ◌==◌, ltb, string_eq, Option, none, some,
  if◌then◌else◌, contains, is_nil,
}
use webhookery.Access.{rows_where, first_by}
use webhookery.Replay.{
  ReplayRequest, ReplayApprovalPolicy, DeliveryRow, EventRow, RouteRow, ReplayTables,
}

unfoldable pub is_delivery : String → String → DeliveryRow → Bool
is_delivery tenant_id id d = d.tenant_id == tenant_id && d.id == id

unfoldable pub find_event : String → String → List EventRow → Option EventRow
find_event tenant_id id [] = none
find_event tenant_id id (e ∷ rest) =
    if e.tenant_id == tenant_id && e.id == id then some e else find_event tenant_id id rest

unfoldable pub named_routes : List DeliveryRow → List String
named_routes [] = []
named_routes (d ∷ rest) =
    if d.route_id == "" then named_routes rest else d.route_id ∷ named_routes rest

unfoldable pub route_ids : List RouteRow → List String
route_ids [] = []
route_ids (r ∷ rest) = r.id ∷ route_ids rest

unfoldable pub is_route_of : String → String → String → RouteRow → Bool
unfolding contains
is_route_of tenant_id source_id type_name r =
    r.tenant_id == tenant_id
    && r.source_id == source_id
    && r.state == "active"
    && contains r.event_types type_name

unfoldable pub is_delivery_of : String → String → DeliveryRow → Bool
is_delivery_of tenant_id event_id d = d.tenant_id == tenant_id && d.event_id == event_id

-- The source and the routes of the request, as the queries collect them. The source of an event takes
-- the place of the one of a delivery.
pub record ReplayScope : Type 0 where
  pub source_id : String
  pub route_ids : List String

unfoldable pub source_of : Option EventRow → String → String
source_of none before = before
source_of (some e) before = e.source_id

unfoldable pub type_of : Option EventRow → String
type_of none = ""
type_of (some e) = e.type_name

unfoldable pub first_delivery : ReplayTables → String → List DeliveryRow → ReplayScope
unfolding find_event
first_delivery t tenant_id [] = record { source_id = ""; route_ids = [] }
first_delivery t tenant_id (d ∷ rest) = elim (find_event tenant_id d.event_id t.events) [
  | none ↦ record { source_id = ""; route_ids = [] }
  | some e ↦ record {
    source_id = e.source_id;
    route_ids = if d.route_id == "" then [] else d.route_id ∷ [];
  }
]

unfoldable pub delivery_scope : ReplayTables → String → ReplayRequest → ReplayScope
unfolding first_delivery rows_where is_delivery
delivery_scope t tenant_id req =
    if req.delivery_id == ""
    then record { source_id = ""; route_ids = [] }
    else first_delivery t tenant_id
        (rows_where (is_delivery tenant_id req.delivery_id) t.deliveries)

unfoldable pub source_routes : ReplayTables → String → String → String → List String
unfolding rows_where route_ids is_route_of
source_routes t tenant_id source_id type_name =
    if source_id == ""
    then []
    else route_ids (rows_where (is_route_of tenant_id source_id type_name) t.routes)

unfoldable pub original_routes : ReplayTables → String → ReplayRequest → List String
unfolding rows_where named_routes is_delivery_of
original_routes t tenant_id req =
    if req.config_mode == "original"
    then named_routes (rows_where (is_delivery_of tenant_id req.event_id) t.deliveries)
    else []

unfoldable pub event_scope : ReplayTables → String → ReplayRequest → ReplayScope → ReplayScope
unfolding find_event source_of type_of source_routes original_routes
event_scope t tenant_id req before =
    let e = find_event tenant_id req.event_id t.events in
    if req.event_id == "" then before else record {
      source_id = source_of e before.source_id;
      route_ids =
          before.route_ids
          ++ (source_routes t tenant_id (source_of e before.source_id) (type_of e)
              ++ original_routes t tenant_id req);
    }

unfoldable pub replay_scope : ReplayTables → String → ReplayRequest → ReplayScope
unfolding delivery_scope event_scope
replay_scope t tenant_id req = event_scope t tenant_id req (delivery_scope t tenant_id req)

-- The clauses that the three queries on policies share.
unfoldable pub requires : String → String → ReplayApprovalPolicy → Bool
requires tenant_id scope_type p =
    p.tenant_id == tenant_id
    && p.scope_type == scope_type
    && p.state == "active"
    && p.require_approval

unfoldable pub over_routes : String → List String → ReplayApprovalPolicy → Bool
unfolding requires contains
over_routes tenant_id ids p = requires tenant_id "route" p && contains ids p.scope_id

unfoldable pub over_scope : String → String → String → ReplayApprovalPolicy → Bool
unfolding requires
over_scope tenant_id scope_type scope_id p =
    requires tenant_id scope_type p && p.scope_id == scope_id

unfoldable pub updated_before : ReplayApprovalPolicy → ReplayApprovalPolicy → Bool
updated_before a b = ltb b.updated_at a.updated_at

unfoldable pub or_next :
    Option ReplayApprovalPolicy → Option ReplayApprovalPolicy → Option ReplayApprovalPolicy
or_next none next = next
or_next (some p) next = some p

-- `LIMIT 1` without an order: the first row of the table stands for any.
unfoldable pub any_order : ReplayApprovalPolicy → ReplayApprovalPolicy → Bool
any_order a b = false

unfoldable pub route_policy :
    List ReplayApprovalPolicy → String → ReplayScope → Option ReplayApprovalPolicy
unfolding rows_where first_by over_routes updated_before
route_policy policies tenant_id scope =
    if is_nil scope.route_ids
    then none
    else first_by updated_before (rows_where (over_routes tenant_id scope.route_ids) policies)

unfoldable pub source_policy :
    List ReplayApprovalPolicy → String → ReplayScope → Option ReplayApprovalPolicy
unfolding rows_where first_by over_scope any_order
source_policy policies tenant_id scope =
    if scope.source_id == ""
    then none
    else first_by any_order (rows_where (over_scope tenant_id "source" scope.source_id) policies)

unfoldable pub tenant_policy : List ReplayApprovalPolicy → String → Option ReplayApprovalPolicy
unfolding rows_where first_by over_scope any_order
tenant_policy policies tenant_id =
    first_by any_order (rows_where (over_scope tenant_id "tenant" "") policies)

-- A route's policy goes before the source's, and that before the tenant's.
unfoldable pub policy_for_scope :
    List ReplayApprovalPolicy → String → ReplayScope → Option ReplayApprovalPolicy
unfolding or_next route_policy source_policy tenant_policy
policy_for_scope policies tenant_id scope =
    or_next (route_policy policies tenant_id scope)
      (or_next (source_policy policies tenant_id scope) (tenant_policy policies tenant_id))

unfoldable pub replay_approval_policy_for_replay :
    ReplayTables → String → ReplayRequest → Option ReplayApprovalPolicy
unfolding policy_for_scope replay_scope
replay_approval_policy_for_replay t tenant_id req =
    policy_for_scope t.policies tenant_id (replay_scope t tenant_id req)
