-- ===== src/S04/Intake.antt =====
-- The node S04.10 of application/s04_handlers.py, the first one of each pass of the stage.
pub mod Laws
use agent_code_optimize_plug.Prelude.{String, Bool, [], ◌∷◌, if◌then◌else◌, or_default}
use agent_code_optimize_plug.Contracts.Refs.{ArtifactRef}
use agent_code_optimize_plug.Contracts.Errors.{ok, Exec, continue, ◌>>=◌, lift}
use agent_code_optimize_plug.Contracts.Verify.{VerificationManifest}
use agent_code_optimize_plug.State.{OptimizationState, Update}
use agent_code_optimize_plug.Runtime.Nodes.{NodeRoute, NodeExecution}
use agent_code_optimize_plug.S04.{empty_manifest}
use agent_code_optimize_plug.S06.Shared.{require_ref, require_stage_ref, s03_patch_stage}

-- the manifest of a new pass, which has no verdict yet
abbrev pub new_manifest : ArtifactRef → ArtifactRef → Bool → VerificationManifest
new_manifest plan_ref patch_ref workspace_ok = record empty_manifest {
  plan_digest = plan_ref.content_digest;
  patch_digest = patch_ref.content_digest;
  workspace_ok = workspace_ok;
}

unfoldable pub intake_execution : ArtifactRef → ArtifactRef → Bool → NodeExecution
intake_execution plan_ref patch_ref workspace_ok = record {
  route = if workspace_ok then NodeRoute.continue else NodeRoute.rejected;
  updates =
      Update.s04_manifest (new_manifest plan_ref patch_ref workspace_ok)
      ∷ Update.s04_check_results []
      ∷ Update.s04_failure_attributions []
      ∷ [];
}

-- `is_directory` says whether a path of the file system exists and is a directory.
module _ {S : Type 0} (is_directory : String → S → Bool) where
  unfoldable pub look_at_workspace :
      OptimizationState → ArtifactRef → ArtifactRef → Exec S NodeExecution
  unfolding intake_execution
  look_at_workspace state plan_ref patch_ref s = (
    ok (intake_execution plan_ref patch_ref (is_directory (or_default state.s03_workspace "") s)),
    s,
  )

  unfoldable pub s04_10 : OptimizationState → Exec S NodeExecution
  unfolding require_ref require_stage_ref s03_patch_stage look_at_workspace
  s04_10 state = lift (require_ref state "ExecutionPlan") >>= λ plan_ref.
      (lift (require_stage_ref state (s03_patch_stage state) "PatchArtifact")
        >>= look_at_workspace state plan_ref)
