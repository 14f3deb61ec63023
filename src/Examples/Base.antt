-- ===== src/Examples/Base.antt =====
-- The values that the examples share: states of orchestration/shared_workflow.py's cases.
use agent_code_optimize_plug.Prelude.{String, none, some, [], ◌∷◌}
use agent_code_optimize_plug.Contracts.Refs.{ArtifactRef, InterruptEnvelope, ResumeInterruptCommand}
use agent_code_optimize_plug.Contracts.Decide.{keep}
use agent_code_optimize_plug.State.{OptimizationState}

abbrev pub empty_state : OptimizationState
empty_state = record {
  case_id = some "case";
  thread_id = some "thread";
  tenant_id = some "tenant";
  current_node = "";
  pending_interrupt = none;
  completed_nodes = [];
  node_routes = [];
  artifact_refs = [];
  a3_revision_attempts = 0;
  resume_command = none;
  resume_attempts = 0;
  resume_target_node = none;
  s01_decision_context = none;
  s01_eligible_strategy_ids = [];
  s01_normalized_factors = [];
  s01_scores = [];
  s01_ranked_strategy_ids = [];
  s01_sensitivity_flags = [];
  s01_routing_decision = none;
  s01_approval = none;
  s01_excluded_strategy_ids = [];
  s02_resolution_ok = none;
  s02_plan_draft = none;
  s02_critique = none;
  s02_approval = none;
  s02_revision_attempts = 0;
  s03_active_phase_id = some "P1";
  s03_workspace = none;
  s03_completed_task_ids = [];
  s04_manifest = none;
  s04_check_results = [];
  s04_failure_attributions = [];
  s03_revision_attempts = 0;
  s06_target_evaluations = [];
  s06_intake = none;
  s06_guardrail_evaluations = [];
  s06_attribution = none;
  s06_decision = none;
  s06_rollback = none;
  s06_apply = none;
}

abbrev pub report_ref : String → ArtifactRef
report_ref digest = record {
  artifact_type = "Report";
  schema_version = "1.0";
  artifact_id = "case-Report";
  content_digest = digest;
  uri = "store:report";
}

abbrev pub patch_ref : ArtifactRef
patch_ref = record {
  artifact_type = "PatchArtifact";
  schema_version = "1.0";
  artifact_id = "case-S03.80-P1-pass0-PatchArtifact";
  content_digest = "d-patch";
  uri = "store:patch";
}

abbrev pub apply_interrupt : InterruptEnvelope
apply_interrupt = record {
  interrupt_id = "case-S06-APPLY";
  case_id = "case";
  thread_id = "thread";
  stage = "S06.90";
  artifact_digest = "d-patch";
  allowed_decisions = "approve" ∷ "reject" ∷ [];
  required_actor_role = "owner";
  policy_version = "s06-decision-v1";
  issued_at = 10;
  expires_at = 90;
}

abbrev pub approve_command : ResumeInterruptCommand
approve_command = record {
  command_id = "cmd";
  tenant_id = "tenant";
  case_id = "case";
  thread_id = "thread";
  interrupt_id = "case-S06-APPLY";
  actor_id = "ann";
  actor_roles = "owner" ∷ [];
  decision = "approve";
  artifact_digest = "d-patch";
  policy_version = "s06-decision-v1";
  issued_at = 20;
}

abbrev pub halted_state : OptimizationState
halted_state = record empty_state {
  artifact_refs = report_ref "d1" ∷ patch_ref ∷ [];
  node_routes = ("S06.90", "approval") ∷ [];
  pending_interrupt = some apply_interrupt;
  s06_decision = some keep;
}
