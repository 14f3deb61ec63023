-- ===== src/State.antt =====
-- contracts/state.py: the case state, the partial updates that nodes return, and the reducers by
-- which the graph merges an update into the state. The proofs are in the modules below.
mod Merge
pub mod Nodes
pub mod Refs
pub mod Routes
use agent_code_optimize_plug.Prelude.{
  ℕ, String, Bool, true, false, Option, none, some, List, [], ◌∷◌,
}
use agent_code_optimize_plug.Prelude.Dict.{Dict}
use agent_code_optimize_plug.Contracts.Refs.{ArtifactRef, InterruptEnvelope, ResumeInterruptCommand}
use agent_code_optimize_plug.Contracts.Errors.{Result, ok, err, bind_result}
use agent_code_optimize_plug.Contracts.Strategy.{
  StrategyScore, NormalizedFactors, SelectionApproval, RoutingDecision, DecisionContext,
}
use agent_code_optimize_plug.Contracts.Plan.{PlanDraft, Critique, PlanApproval}
use agent_code_optimize_plug.Contracts.Verify.{
  CheckResult, FailureAttribution, VerificationManifest,
}
use agent_code_optimize_plug.Contracts.Decide.{
  TargetEvaluation, GuardrailEvaluation, PhaseAttribution, Outcome, Intake, RollbackState,
  ApplyState,
}
unfoldable pub use Merge.{
  merge_artifact_refs, add_new, merge_node_ids, merge_node_routes, latest_node, put_ref,
  merge_refs_from, record_route, merge_routes_from, same_key, ref_le, before_dot, after_dot,
  has_dot,
}

-- `OptimizationState`, a `TypedDict` with optional keys: the keys that the runtime, the resume
-- protocol, the outer graph and the stages S01, S02, S04 and S06 read or write. A list, counter or
-- dictionary is empty where the program reads it by `state.get(key) or ...`.
pub record OptimizationState : Type 0 where
  pub case_id : Option String
  pub thread_id : Option String
  pub tenant_id : Option String
  pub current_node : String
  pub pending_interrupt : Option InterruptEnvelope
  pub completed_nodes : List String
  pub node_routes : Dict String
  pub artifact_refs : List ArtifactRef
  pub a3_revision_attempts : ℕ
  pub resume_command : Option ResumeInterruptCommand
  pub resume_attempts : ℕ
  pub resume_target_node : Option String
  pub s01_decision_context : Option DecisionContext
  pub s01_eligible_strategy_ids : List String
  pub s01_normalized_factors : Dict NormalizedFactors
  pub s01_scores : List StrategyScore
  pub s01_ranked_strategy_ids : List String
  pub s01_sensitivity_flags : List String
  pub s01_routing_decision : Option RoutingDecision
  pub s01_approval : Option SelectionApproval
  pub s01_excluded_strategy_ids : List String
  pub s02_resolution_ok : Option Bool
  pub s02_plan_draft : Option PlanDraft
  pub s02_critique : Option Critique
  pub s02_approval : Option PlanApproval
  pub s02_revision_attempts : ℕ
  pub s03_active_phase_id : Option String
  pub s03_workspace : Option String
  pub s03_completed_task_ids : List String
  pub s04_manifest : Option VerificationManifest
  pub s04_check_results : List CheckResult
  pub s04_failure_attributions : List FailureAttribution
  pub s03_revision_attempts : ℕ
  pub s06_target_evaluations : List TargetEvaluation
  pub s06_intake : Option Intake
  pub s06_guardrail_evaluations : List GuardrailEvaluation
  pub s06_attribution : Option PhaseAttribution
  pub s06_decision : Option Outcome
  pub s06_rollback : Option RollbackState
  pub s06_apply : Option ApplyState

-- One entry of an `updates` dictionary: a state key with its value.
pub data Update : Type 0 where
  case_id thread_id tenant_id entrypoint lane : String → Update
  current_node : String → Update
  completed_nodes : List String → Update
  node_routes : Dict String → Update
  artifact_refs : List ArtifactRef → Update
  pending_interrupt : Option InterruptEnvelope → Update
  resume_command : ResumeInterruptCommand → Update
  resume_attempts : ℕ → Update
  resume_target_node : String → Update
  s01_decision_context : DecisionContext → Update
  s01_eligible_strategy_ids : List String → Update
  s01_normalized_factors : Dict NormalizedFactors → Update
  s01_scores : List StrategyScore → Update
  s01_ranked_strategy_ids : List String → Update
  s01_sensitivity_flags : List String → Update
  s01_routing_decision : RoutingDecision → Update
  s01_approval : SelectionApproval → Update
  s01_excluded_strategy_ids : List String → Update
  s02_resolution_ok : Bool → Update
  s02_plan_draft : PlanDraft → Update
  s02_approval : PlanApproval → Update
  s02_revision_attempts : ℕ → Update
  s03_completed_task_ids : List String → Update
  s03_revision_attempts : ℕ → Update
  s04_manifest : VerificationManifest → Update
  s04_check_results : List CheckResult → Update
  s04_failure_attributions : List FailureAttribution → Update
  s06_target_evaluations : List TargetEvaluation → Update
  s06_intake : Intake → Update
  s06_guardrail_evaluations : List GuardrailEvaluation → Update
  s06_attribution : PhaseAttribution → Update
  s06_decision : Outcome → Update
  s06_rollback : RollbackState → Update
  s06_apply : ApplyState → Update

-- The graph's write of one key: the key's reducer, or the last value.
unfoldable pub apply_update :
    (String → String → Bool) → OptimizationState → Update → Result OptimizationState
apply_update id_le s (case_id x) = ok (record s { case_id = some x })
apply_update id_le s (thread_id x) = ok (record s { thread_id = some x })
apply_update id_le s (tenant_id x) = ok (record s { tenant_id = some x })
apply_update id_le s (entrypoint x) = ok s
apply_update id_le s (lane x) = ok s
apply_update id_le s (current_node x) =
    bind_result (latest_node s.current_node x) (λ n. ok (record s { current_node = n }))
apply_update id_le s (completed_nodes xs) =
    ok (record s { completed_nodes = merge_node_ids id_le s.completed_nodes xs })
apply_update id_le s (node_routes d) =
    bind_result (merge_node_routes s.node_routes d) (λ m. ok (record s { node_routes = m }))
apply_update id_le s (artifact_refs rs) =
    bind_result (merge_artifact_refs s.artifact_refs rs) (λ m. ok (record s { artifact_refs = m }))
apply_update id_le s (pending_interrupt x) = ok (record s { pending_interrupt = x })
apply_update id_le s (resume_command x) = ok (record s { resume_command = some x })
apply_update id_le s (resume_attempts x) = ok (record s { resume_attempts = x })
apply_update id_le s (resume_target_node x) = ok (record s { resume_target_node = some x })
apply_update id_le s (s01_decision_context x) = ok (record s { s01_decision_context = some x })
apply_update id_le s (s01_eligible_strategy_ids x) = ok (record s { s01_eligible_strategy_ids = x })
apply_update id_le s (s01_normalized_factors x) = ok (record s { s01_normalized_factors = x })
apply_update id_le s (s01_scores x) = ok (record s { s01_scores = x })
apply_update id_le s (s01_ranked_strategy_ids x) = ok (record s { s01_ranked_strategy_ids = x })
apply_update id_le s (s01_sensitivity_flags x) = ok (record s { s01_sensitivity_flags = x })
apply_update id_le s (s01_routing_decision x) = ok (record s { s01_routing_decision = some x })
apply_update id_le s (s01_approval x) = ok (record s { s01_approval = some x })
apply_update id_le s (s01_excluded_strategy_ids x) = ok (record s { s01_excluded_strategy_ids = x })
apply_update id_le s (s02_resolution_ok x) = ok (record s { s02_resolution_ok = some x })
apply_update id_le s (s02_plan_draft x) = ok (record s { s02_plan_draft = some x })
apply_update id_le s (s02_approval x) = ok (record s { s02_approval = some x })
apply_update id_le s (s02_revision_attempts x) = ok (record s { s02_revision_attempts = x })
apply_update id_le s (s03_completed_task_ids x) = ok (record s { s03_completed_task_ids = x })
apply_update id_le s (s03_revision_attempts x) = ok (record s { s03_revision_attempts = x })
apply_update id_le s (s04_manifest x) = ok (record s { s04_manifest = some x })
apply_update id_le s (s04_check_results x) = ok (record s { s04_check_results = x })
apply_update id_le s (s04_failure_attributions x) = ok (record s { s04_failure_attributions = x })
apply_update id_le s (s06_target_evaluations x) = ok (record s { s06_target_evaluations = x })
apply_update id_le s (s06_intake x) = ok (record s { s06_intake = some x })
apply_update id_le s (s06_guardrail_evaluations x) = ok (record s { s06_guardrail_evaluations = x })
apply_update id_le s (s06_attribution x) = ok (record s { s06_attribution = some x })
apply_update id_le s (s06_decision x) = ok (record s { s06_decision = some x })
apply_update id_le s (s06_rollback x) = ok (record s { s06_rollback = some x })
apply_update id_le s (s06_apply x) = ok (record s { s06_apply = some x })

unfoldable pub apply_updates :
    (String → String → Bool) → OptimizationState → List Update → Result OptimizationState
apply_updates id_le s [] = ok s
apply_updates id_le s (u ∷ us) =
    bind_result (apply_update id_le s u) (λ s'. apply_updates id_le s' us)
