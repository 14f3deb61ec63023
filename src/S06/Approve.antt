-- ===== src/S06/Approve.antt =====
-- The handler of the node S06.90 (application/s06_handlers.py): the approval for the real repository.
pub mod Laws
use agent_code_optimize_plug.Prelude.{
  ℕ, ◌+◌, String, Bool, true, false, Option, none, some, List, [], ◌∷◌, ◌&&◌, not, ◌==◌,
  if◌then◌else◌, subset, contains, map, length, or_default, sorted,
}
use agent_code_optimize_plug.Prelude.Text.{decimal, ◌^^◌, text_le}
use agent_code_optimize_plug.Prelude.Dict.{Dict}
use agent_code_optimize_plug.Contracts.Refs.{ArtifactRef, InterruptEnvelope, ResumeInterruptCommand}
use agent_code_optimize_plug.Contracts.Errors.{
  Error, Result, ok, err, Exec, or_raise, missing_port, invalid_model, continue, ◌>>=◌, ◌>>◌, pure,
  raise, lift, bind_result,
}
use agent_code_optimize_plug.Contracts.Plan.{PatchArtifact, SourceSnapshot}
use agent_code_optimize_plug.Contracts.Decide.{
  Intake, PhaseAttribution, Outcome, keep, fix_one_part, revert, escalate, RollbackState,
  RollbackReport, Decision, ApplyState,
}
use agent_code_optimize_plug.Contracts.Artifact.{Content, rollback_report, decision}
use agent_code_optimize_plug.State.{OptimizationState, Update}
use agent_code_optimize_plug.Ports.Policy.{Fact, PolicyRequest, PolicyDecision, PolicyPort}
use agent_code_optimize_plug.Ports.Artifacts.{ArtifactStore}
use agent_code_optimize_plug.Runtime.Nodes.{NodeRoute, NodeExecution, NodePorts, go_on}
use agent_code_optimize_plug.S06.Shared.{
  Outside, required_state_str, active_phase_id, s04_report_stage, s05_measurement_stage,
  s05_statistical_stage, s03_patch_stage, s06_stage, require_stage_ref, read_model, read_required,
  seal, put_envelope, git, as_request, as_snapshot, as_patch, as_verification, as_statistical,
  as_selected,
}
use agent_code_optimize_plug.S06.Evaluate.{evaluate_targets, evaluate_guardrails}
use agent_code_optimize_plug.S06.Decide.{classify, decide, gate_revert}
use agent_code_optimize_plug.S06.Apply.{
  Approved, failed, policy_version, seal_apply_result, apply_patch_to_real_repo,
}

module _ {S : Type 0} (env : Outside S) (store : ArtifactStore S) where
  -- the halt for an approval
  unfoldable pub s06_90_halt : OptimizationState → ArtifactRef → Exec S NodeExecution
  s06_90_halt state patch_ref = lift (required_state_str "case_id" state.case_id) >>= λ case_id.
      (lift (required_state_str "thread_id" state.thread_id) >>= λ thread_id. pure (record {
        route = NodeRoute.approval;
        updates =
            Update.pending_interrupt (
              some (record {
                interrupt_id = case_id ^^ "-S06-APPLY";
                case_id = case_id;
                thread_id = thread_id;
                stage = "S06.90";
                artifact_digest = patch_ref.content_digest;
                allowed_decisions = "approve" ∷ "reject" ∷ [];
                required_actor_role = "owner";
                policy_version = policy_version;
                issued_at = env.now;
                expires_at = env.now + 86400;
              }))
            ∷ Update.s06_apply (record { applied = false; attempted = false })
            ∷ [];
      }))

  abbrev approved : PatchArtifact → ArtifactRef → String → String → Option String → Approved
  approved patch patch_ref phase_id by actor = record {
    patch = patch;
    patch_ref = patch_ref;
    phase_id = phase_id;
    approval_decision = by;
    approval_actor_id = actor;
  }

  unfoldable pub policy_request : OptimizationState → PatchArtifact → String → Result PolicyRequest
  policy_request state patch phase_id =
      bind_result (required_state_str "tenant_id" state.tenant_id) λ tenant_id.
        bind_result (required_state_str "case_id" state.case_id) λ case_id. ok (record {
          decision_type = "apply_to_real_repo";
          policy_version = policy_version;
          tenant_id = tenant_id;
          facts =
              ("phase_id", Fact.text phase_id)
              ∷ ("case_id", Fact.text case_id)
              ∷ ("base_revision", Fact.text patch.base_revision)
              ∷ ("changed_files", Fact.texts patch.changed_files)
              ∷ [];
        })

  unfoldable pub s06_90_decided :
      OptimizationState
      → SourceSnapshot
      → PatchArtifact
      → ArtifactRef
      → String
      → PolicyDecision
      → Exec S NodeExecution
  unfolding seal_apply_result apply_patch_to_real_repo s06_90_halt
  s06_90_decided state snapshot patch patch_ref phase_id answer =
      if not answer.allowed
      then seal_apply_result env store state (approved patch patch_ref phase_id "denied" none)
          (failed "policy denied")
      else if answer.decision == "allow"
      then apply_patch_to_real_repo env store state snapshot
          (approved patch patch_ref patch.phase_id "auto_allowed" none)
      else s06_90_halt state patch_ref

  -- the approval: the policy's where no command was given, else the command's
  unfoldable pub s06_90_approval :
      PolicyPort
      → OptimizationState
      → SourceSnapshot
      → PatchArtifact
      → ArtifactRef
      → String
      → Option ResumeInterruptCommand
      → Exec S NodeExecution
  unfolding policy_request s06_90_decided seal_apply_result apply_patch_to_real_repo
  s06_90_approval policy state snapshot patch patch_ref phase_id none =
      lift (policy_request state patch phase_id) >>= λ request.
      (lift (policy.evaluate request) >>= λ answer.
      s06_90_decided state snapshot patch patch_ref phase_id answer)
  s06_90_approval policy state snapshot patch patch_ref phase_id (some command) =
      if command.decision == "approve"
      then apply_patch_to_real_repo env store state snapshot
          (approved patch patch_ref patch.phase_id "approved" (some command.actor_id))
      else seal_apply_result env store state
          (approved patch patch_ref phase_id "rejected" (some command.actor_id))
          (failed "resumed with another decision")

  unfoldable pub s06_90_keep : Option PolicyPort → OptimizationState → Exec S NodeExecution
  unfolding read_required require_stage_ref s03_patch_stage read_model active_phase_id
      s06_90_approval
  s06_90_keep port state = lift (or_raise port (missing_port "policy")) >>= λ policy.
      (read_required env store as_snapshot state "SourceSnapshot" >>= λ snapshot.
      (lift (require_stage_ref state (s03_patch_stage state) "PatchArtifact") >>= λ patch_ref.
      (read_model env store as_patch state patch_ref >>= λ patch.
      (lift (active_phase_id state) >>= λ phase_id.
      s06_90_approval policy state snapshot patch patch_ref phase_id state.resume_command))))

  unfoldable pub s06_90_for :
      Option Outcome → Option PolicyPort → OptimizationState → Exec S NodeExecution
  unfolding s06_90_keep
  s06_90_for (some keep) port state = s06_90_keep port state
  s06_90_for _ port state =
      pure (go_on (Update.s06_apply (record { applied = false; attempted = false }) ∷ []))

  unfoldable pub s06_90 : Option PolicyPort → OptimizationState → Exec S NodeExecution
  unfolding s06_90_for
  s06_90 port state = s06_90_for state.s06_decision port state
