-- ===== src/Examples/Intakes.antt =====
-- A second pass of S04 whose workspace is gone.
use agent_code_optimize_plug.Prelude.{ℕ, String, Bool, false, some, [], ◌∷◌, ◌≡◌, refl, arith}
use agent_code_optimize_plug.Prelude.Text.{text_le, decimal}
use agent_code_optimize_plug.Prelude.Dict.{get, put, sort_keys}
use agent_code_optimize_plug.Contracts.Refs.{ArtifactRef}
use agent_code_optimize_plug.Contracts.Errors.{ok}
use agent_code_optimize_plug.State.{
  OptimizationState, apply_updates, apply_update, latest_node, has_dot, merge_node_routes,
  merge_routes_from, record_route, merge_node_ids,
}
use agent_code_optimize_plug.Runtime.RouteKeys.{
  latest_route_key, latest_from, numbered, free_slot, free_slot_from,
}
use agent_code_optimize_plug.Runtime.Nodes.{NodeExecution, commit, route_value}
use agent_code_optimize_plug.Workflow.{s03, s04, next_stage}
use agent_code_optimize_plug.Subgraphs.{end, subgraph, successor}
use agent_code_optimize_plug.S04.Intake.{new_manifest, intake_execution, s04_10}
use agent_code_optimize_plug.S04.Intake.Laws.{s04_10-remembered}
use agent_code_optimize_plug.Examples.Base.{empty_state, patch_ref}

abbrev gone : String → ℕ → Bool
gone path s = false

abbrev plan_ref : ArtifactRef
plan_ref = record patch_ref { artifact_type = "ExecutionPlan"; artifact_id = "case-ExecutionPlan" }

abbrev second_patch_ref : ArtifactRef
second_patch_ref = record patch_ref { artifact_id = "case-S03.80-P1-pass1-PatchArtifact" }

abbrev lost : OptimizationState
lost = record empty_state {
  artifact_refs = plan_ref ∷ second_patch_ref ∷ [];
  completed_nodes = "S04.10" ∷ "S04.90" ∷ [];
  node_routes = ("S04.10", "continue") ∷ [];
  s03_workspace = some "/tmp/w";
  s03_revision_attempts = 1;
}

abbrev rejection : NodeExecution
rejection = intake_execution plan_ref second_patch_ref false

abbrev rejected_state : OptimizationState
rejected_state = record lost {
  current_node = "S04.10";
  node_routes = ("S04.10", "continue") ∷ ("S04.10#2", "rejected") ∷ [];
  s04_manifest = some (new_manifest plan_ref second_patch_ref false);
}

rejects : (s04_10 gone lost 0).0 ≡ ok rejection
unfolding s04_10 decimal
rejects = refl

merges : apply_updates text_le lost (commit "S04.10" rejection lost) ≡ ok rejected_state
unfolding commit intake_execution apply_updates apply_update latest_node has_dot merge_node_routes
    merge_routes_from record_route get latest_route_key latest_from numbered decimal free_slot
    free_slot_from merge_node_ids sort_keys text_le put
merges = refl

s04_10-remembered_example :
    (successor (subgraph s04) "S04.10" (route_value rejection.route) ≡ some end)
    × (next_stage s04 rejected_state ≡ some s03)
unfolding intake_execution
s04_10-remembered_example =
    s04_10-remembered gone text_le lost rejected_state 0 rejection rejects refl merges (omega arith)
