-- ===== src/S04.antt =====
-- The nodes S04.70, S04.80 and S04.90 of application/s04_handlers.py: the attribution of failures, the
-- gate, and the sealed report. Its helpers are those of S06/Shared, which have the same text there.
pub mod Gate
pub mod Laws
pub mod Intake
use agent_code_optimize_plug.Prelude.{
  ℕ, ◌+◌, String, Bool, true, false, Option, none, some, List, [], ◌∷◌, not, ◌==◌, if◌then◌else◌,
  sorted, distinct, ◌++◌, filter, map, contains, find,
}
use agent_code_optimize_plug.Prelude.Text.{text_le}
use agent_code_optimize_plug.Contracts.Refs.{ArtifactRef}
use agent_code_optimize_plug.Contracts.Errors.{
  Result, ok, err, Exec, continue, ◌>>=◌, ◌>>◌, pure, lift,
}
use agent_code_optimize_plug.Contracts.Plan.{TaskList, PlanTask, BaselineSnapshot, MetricAggregate}
use agent_code_optimize_plug.Contracts.Verify.{
  CheckResult, VerificationReport, VerificationManifest,
}
use agent_code_optimize_plug.Contracts.Artifact.{
  Content, task_list, baseline_snapshot, verification_report,
}
use agent_code_optimize_plug.State.{OptimizationState, Update}
use agent_code_optimize_plug.Ports.Artifacts.{ArtifactStore}
use agent_code_optimize_plug.Runtime.Nodes.{NodeRoute, NodeExecution}
use agent_code_optimize_plug.S06.Shared.{
  Outside, active_phase_id, s03_patch_stage, require_stage_ref, read_model, read_required, seal,
  put_envelope,
}
unfoldable pub use Gate.{gate, attributions, reported_results, validate_report}

abbrev as_task_list : Content → Option TaskList
as_task_list (task_list x) = some x
as_task_list _ = none

abbrev as_baseline : Content → Option BaselineSnapshot
as_baseline (baseline_snapshot x) = some x
as_baseline _ = none

abbrev pub empty_manifest : VerificationManifest
empty_manifest = record {
  plan_digest = "";
  patch_digest = "";
  workspace_ok = false;
  resolved_kinds = [];
  touched_existing_test_files = [];
  gate_passed = false;
}

-- `{**manifest, "gate_passed": passed}`, where a manifest that is missing has no other key
unfoldable pub with_gate : Option VerificationManifest → Bool → VerificationManifest
with_gate none passed = record empty_manifest { gate_passed = passed }
with_gate (some manifest) passed = record manifest { gate_passed = passed }

-- the loop counter or the completed tasks: what S04.90 writes besides the report
unfoldable pub closing_updates : Bool → OptimizationState → String → TaskList → List Update
closing_updates true state phase_id tasks =
    let phase_task_ids = map (λ t. t.task_id) (filter (λ t. t.phase_id == phase_id) tasks.tasks) in
    Update.s03_completed_task_ids
      (sorted text_le (distinct (phase_task_ids ++ state.s03_completed_task_ids)))
    ∷ []
closing_updates false state phase_id tasks =
    Update.s03_revision_attempts (state.s03_revision_attempts + 1) ∷ []

unfoldable pub s04_80 : OptimizationState → NodeExecution
unfolding gate with_gate
s04_80 state =
    let passed = gate state.s04_check_results in
    record {
      route = if passed then NodeRoute.continue else NodeRoute.revision;
      updates = Update.s04_manifest (with_gate state.s04_manifest passed) ∷ [];
    }

-- The kind of a metric id `{kind}_command_result`, by `str.endswith` and `str.removesuffix`.
module _ {S : Type 0} (command_kind : String → Option String) (env : Outside S)
    (store : ArtifactStore S) where
  unfoldable pub failing_kinds : List MetricAggregate → List String
  failing_kinds [] = []
  failing_kinds (aggregate ∷ aggregates) =
      let rest = failing_kinds aggregates in
      elim (command_kind aggregate.metric_id) [
        | none ↦ rest
        | some kind ↦
            if env.floats.feq aggregate.mean (env.floats.of_ℕ 0) then rest else kind ∷ rest
      ]

  baseline_kinds : OptimizationState → Option ArtifactRef → Exec S (List String)
  unfolding failing_kinds read_model
  baseline_kinds state none = pure []
  baseline_kinds state (some ref) = read_model env store as_baseline state ref >>= λ baseline.
      pure (failing_kinds baseline.aggregates)

  attribute_failed : OptimizationState → List CheckResult → Exec S NodeExecution
  unfolding baseline_kinds attributions
  attribute_failed state [] =
      pure
        (record { route = NodeRoute.continue; updates = Update.s04_failure_attributions [] ∷ [] })
  attribute_failed state (r ∷ rs) =
      baseline_kinds state
        (find (λ ref. ref.artifact_type == "BaselineSnapshot") state.artifact_refs)
      >>= λ kinds. pure (record {
        route = NodeRoute.continue;
        updates = Update.s04_failure_attributions (attributions kinds (r ∷ rs)) ∷ [];
      })

  unfoldable pub s04_70 : OptimizationState → Exec S NodeExecution
  unfolding attribute_failed
  s04_70 state = attribute_failed state (filter (λ r. not r.passed) state.s04_check_results)

  unfoldable pub s04_90 : OptimizationState → Exec S NodeExecution
  unfolding require_stage_ref s03_patch_stage read_required active_phase_id gate reported_results
      validate_report seal put_envelope closing_updates
  s04_90 state =
      lift (require_stage_ref state (s03_patch_stage state) "PatchArtifact") >>= λ patch_ref.
      (lift (require_stage_ref state (s03_patch_stage state) "ExecutionProvenance")
        >>= λ provenance_ref.
            (read_required env store as_task_list state "TaskList" >>= λ tasks.
            (lift (active_phase_id state) >>= λ phase_id.
            (let passed = gate state.s04_check_results in
              lift (
                validate_report (record {
                  patch_digest = patch_ref.content_digest;
                  execution_provenance_digest = provenance_ref.content_digest;
                  phase_id = phase_id;
                  check_results = reported_results state.s04_check_results;
                  failure_attributions = state.s04_failure_attributions;
                  passed = passed;
                }))
              >>= λ report.
                  (lift (
                      seal env store state "S04.90" "VerificationReport"
                        (verification_report report))
                    >>= λ sealed.
                        (put_envelope env store "S04.90" sealed >>= λ ref. pure (record {
                          route = NodeRoute.continue;
                          updates =
                              Update.artifact_refs (ref ∷ [])
                              ∷ closing_updates passed state phase_id tasks;
                        })))))))
