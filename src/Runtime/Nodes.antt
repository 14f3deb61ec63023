-- ===== src/Runtime/Nodes.antt =====
-- The routes, executions, ports and registrations of application/node_runtime.py.
use agent_code_optimize_plug.Prelude.{
  String, Bool, true, false, Option, List, [], ◌∷◌, ◌++◌, if◌then◌else◌, contains,
}
use agent_code_optimize_plug.Contracts.Errors.{
  Result, ok, err, Exec, undeclared_route, protected_fields,
}
use agent_code_optimize_plug.State.{OptimizationState, Update}
use agent_code_optimize_plug.Ports.Artifacts.{ArtifactStore}
use agent_code_optimize_plug.Ports.Intents.{IntentLedger}
use agent_code_optimize_plug.Ports.Policy.{PolicyPort}
use agent_code_optimize_plug.Runtime.Keys.{NodeSpec}
use agent_code_optimize_plug.Runtime.RouteKeys.{next_route_key}

pub data NodeRoute : Type 0 where
  continue clarification approval rejected missing incomparable : NodeRoute
  revision quarantine merged suppressed refresh closed : NodeRoute

unfoldable pub route_value : NodeRoute → String
route_value NodeRoute.continue = "continue"
route_value NodeRoute.clarification = "clarification"
route_value NodeRoute.approval = "approval"
route_value NodeRoute.rejected = "rejected"
route_value NodeRoute.missing = "missing"
route_value NodeRoute.incomparable = "incomparable"
route_value NodeRoute.revision = "revision"
route_value NodeRoute.quarantine = "quarantine"
route_value NodeRoute.merged = "merged"
route_value NodeRoute.suppressed = "suppressed"
route_value NodeRoute.refresh = "refresh"
route_value NodeRoute.closed = "closed"

-- The dictionary of updates is the list of its entries.
pub record NodeExecution : Type 0 where
  pub route : NodeRoute
  pub updates : List Update

abbrev pub go_on : List Update → NodeExecution
go_on updates = record { route = NodeRoute.continue; updates = updates }

-- The capabilities: the ledger works on `L`, the handlers' ports on `S`.
pub record NodePorts (L S : Type 0) : Type 0 where
  pub artifacts : ArtifactStore S
  pub intents : IntentLedger L
  pub telemetry : Bool
  pub policy : Option PolicyPort

-- A handler that is called without ports gets `none`. No handler of the program uses the ledger.
abbrev pub BusinessNodeHandler : Type 0 → Type 0 → Type 0
BusinessNodeHandler L S = OptimizationState → Option (NodePorts L S) → Exec S NodeExecution

pub record RegisteredNode (L S : Type 0) : Type 0 where
  pub spec : NodeSpec
  pub handler : BusinessNodeHandler L S

-- the key of an update that is an identity field
unfoldable pub identity_field : Update → List String
identity_field (Update.case_id _) = "case_id" ∷ []
identity_field (Update.thread_id _) = "thread_id" ∷ []
identity_field (Update.tenant_id _) = "tenant_id" ∷ []
identity_field (Update.entrypoint _) = "entrypoint" ∷ []
identity_field (Update.lane _) = "lane" ∷ []
identity_field _ = []

unfoldable pub identity_fields : List Update → List String
unfolding identity_field
identity_fields [] = []
identity_fields (u ∷ us) = identity_field u ++ identity_fields us

unfoldable pub no_identity_fields : List String → NodeExecution → Result NodeExecution
no_identity_fields [] e = ok e
no_identity_fields (f ∷ fs) e = err (protected_fields (f ∷ fs))

-- Every update is a field of the state by its type, so the check for unknown fields never fails.
unfoldable pub validate_execution : NodeSpec → NodeExecution → Result NodeExecution
unfolding route_value identity_fields no_identity_fields
validate_execution spec execution =
    if contains (route_value execution.route) spec.allowed_routes
    then no_identity_fields (identity_fields execution.updates) execution
    else err (undeclared_route (route_value execution.route))

-- the keys that the commit overwrites
abbrev pub is_runtime_key : Update → Bool
is_runtime_key (Update.current_node _) = true
is_runtime_key (Update.completed_nodes _) = true
is_runtime_key (Update.node_routes _) = true
is_runtime_key _ = false

abbrev pub without_runtime_keys : List Update → List Update
without_runtime_keys [] = []
without_runtime_keys (u ∷ us) =
    if is_runtime_key u then without_runtime_keys us else u ∷ without_runtime_keys us

unfoldable pub commit : String → NodeExecution → OptimizationState → List Update
unfolding route_value next_route_key
commit node_id execution state =
    let route = route_value execution.route in
    let route_key = next_route_key node_id state.node_routes route in
    without_runtime_keys execution.updates
    ++ (Update.current_node node_id
        ∷ Update.completed_nodes (node_id ∷ [])
        ∷ Update.node_routes ((route_key, route) ∷ [])
        ∷ [])
