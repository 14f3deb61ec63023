-- ===== src/S06/Shared.antt =====
-- The shared helpers of application/s06_handlers.py: stage ids, references and sealed artifacts.
use agent_code_optimize_plug.Prelude.{
  ℕ, zero, String, Bool, Option, none, some, List, [], ◌&&◌, ◌==◌, if◌then◌else◌, find,
}
use agent_code_optimize_plug.Prelude.Text.{decimal, ◌^^◌}
use agent_code_optimize_plug.Contracts.Refs.{ArtifactRef}
use agent_code_optimize_plug.Contracts.Errors.{
  Result, ok, err, Exec, bind_result, or_raise, missing_state, missing_artifact, invalid_model,
  ◌>>=◌, pure, lift,
}
use agent_code_optimize_plug.Contracts.Request.{FloatOps, OptimizationRequest}
use agent_code_optimize_plug.Contracts.Strategy.{SelectedSolution}
use agent_code_optimize_plug.Contracts.Plan.{PatchArtifact, SourceSnapshot}
use agent_code_optimize_plug.Contracts.Verify.{
  VerificationReport, StatisticalReport, ExitCode, exit,
}
use agent_code_optimize_plug.Contracts.Artifact.{
  Artifact, Content, Canonical, optimization_request, source_snapshot, selected_solution,
  patch_artifact, verification_report, statistical_report,
}
use agent_code_optimize_plug.State.{OptimizationState}
use agent_code_optimize_plug.Ports.Artifacts.{ArtifactStore}

-- What S06 calls outside the source: the sealed form of artifacts, floats, the clock, `subprocess`
-- (`none` for an `OSError` or a timeout), `str.strip`, and the files of the temporary directory.
pub record Outside (S : Type 0) : Type 0 where
  pub canonical : Canonical
  pub floats : FloatOps
  pub now : ℕ
  pub run_git : String → List String → S → Option (ExitCode × String) × S
  pub strip : String → String
  pub ends_with_newline : String → Bool
  pub mkdtemp : String → S → String × S
  pub write_text : String → String → S → S
  pub rmtree : String → S → S

-- `_required_state_str`
abbrev pub required_state_str : String → Option String → Result String
required_state_str key none = err (missing_state key)
required_state_str key (some value) = if value == "" then err (missing_state key) else ok value

unfoldable pub active_phase_id : OptimizationState → Result String
active_phase_id state = required_state_str "s03_active_phase_id" state.s03_active_phase_id

unfoldable pub pass_number : OptimizationState → ℕ
pass_number state = state.s03_revision_attempts

-- f"{node_id}-{phase}-pass{n}"
unfoldable pub pass_stage : String → OptimizationState → Result String
unfolding active_phase_id pass_number
pass_stage node_id state =
    bind_result (active_phase_id state)
      λ phase. ok (node_id ^^ ("-" ^^ (phase ^^ ("-pass" ^^ decimal (pass_number state)))))

unfoldable pub s04_report_stage : OptimizationState → Result String
unfolding pass_stage
s04_report_stage state = pass_stage "S04.90" state

unfoldable pub s05_measurement_stage : OptimizationState → Result String
unfolding pass_stage
s05_measurement_stage state = pass_stage "S05.90" state

unfoldable pub s05_statistical_stage : OptimizationState → Result String
unfolding pass_stage
s05_statistical_stage state = pass_stage "S05.80" state

unfoldable pub s03_patch_stage : OptimizationState → Result String
unfolding pass_stage
s03_patch_stage state = pass_stage "S03.80" state

unfoldable pub s06_stage : String → OptimizationState → Result String
unfolding pass_stage
s06_stage node_id state = pass_stage node_id state

unfoldable pub stage_artifact_id : String → String → String → String
stage_artifact_id case_id node_id artifact_type =
    case_id ^^ ("-" ^^ (node_id ^^ ("-" ^^ artifact_type)))

abbrev pub is_ref : String → String → ArtifactRef → Bool
is_ref artifact_type artifact_id ref =
    (ref.artifact_type == artifact_type) && (ref.artifact_id == artifact_id)

unfoldable pub require_stage_ref : OptimizationState → Result String → String → Result ArtifactRef
unfolding stage_artifact_id
require_stage_ref state stage artifact_type = bind_result stage λ node_id.
    bind_result (required_state_str "case_id" state.case_id) λ case_id.
      or_raise
        (find (is_ref artifact_type (stage_artifact_id case_id node_id artifact_type))
          state.artifact_refs)
        (missing_artifact artifact_type)

-- `_require_ref` over `_try_ref`
unfoldable pub require_ref : OptimizationState → String → Result ArtifactRef
require_ref state artifact_type =
    or_raise (find (λ ref. ref.artifact_type == artifact_type) state.artifact_refs)
      (missing_artifact artifact_type)

module _ {S : Type 0} (env : Outside S) (store : ArtifactStore S) where
  -- what a reference refers to, before its model is known
  unfoldable pub read_artifact : OptimizationState → ArtifactRef → Exec S Artifact
  read_artifact state ref s = (
    bind_result (required_state_str "tenant_id" state.tenant_id)
        λ tenant_id. bind_result (store.read tenant_id ref s) env.canonical.decode,
    s,
  )

  -- `_read_model` for one model, which is picked out of the content
  unfoldable pub read_model :
      {A : Type 0} → (Content → Option A) → OptimizationState → ArtifactRef → Exec S A
  unfolding read_artifact
  read_model model state ref = read_artifact state ref >>= λ artifact.
      lift (or_raise (model artifact.content) (invalid_model ref.artifact_type))

  unfoldable pub read_required :
      {A : Type 0} → (Content → Option A) → OptimizationState → String → Exec S A
  unfolding require_ref read_model
  read_required model state artifact_type =
      lift (require_ref state artifact_type) >>= λ ref. read_model model state ref

  -- `_stage_envelope` and `_seal`: the artifact under the id of its stage
  unfoldable pub seal : OptimizationState → String → String → Content → Result Artifact
  unfolding s06_stage stage_artifact_id
  seal state node_id artifact_type content = bind_result (s06_stage node_id state) λ stage.
      bind_result (required_state_str "case_id" state.case_id) λ case_id.
        bind_result (required_state_str "tenant_id" state.tenant_id) λ tenant_id. ok (record {
          envelope = record {
            artifact_type = artifact_type;
            schema_version = "1.0";
            artifact_id = stage_artifact_id case_id stage artifact_type;
            tenant_id = tenant_id;
            case_id = case_id;
            created_at = env.now;
            parent_digests = [];
          };
          content = content;
        })

  unfoldable pub put_envelope : String → Artifact → Exec S ArtifactRef
  put_envelope node_id artifact =
      store.put_json artifact.envelope.tenant_id (env.canonical.encode artifact)
        (env.canonical.digest artifact)
        (artifact.envelope.case_id
          ^^ (":"
              ^^ (node_id
                  ^^ (":"
                      ^^ (artifact.envelope.artifact_type
                          ^^ (":" ^^ artifact.envelope.artifact_id))))))
      >>= λ generic_ref. pure (record {
        artifact_type = artifact.envelope.artifact_type;
        schema_version = artifact.envelope.schema_version;
        artifact_id = artifact.envelope.artifact_id;
        content_digest = env.canonical.digest artifact;
        uri = generic_ref.uri;
      })

  -- `_git`: the output of a command that ended with exit code 0
  git_output : Option (ExitCode × String) → Option String
  git_output none = none
  git_output (some (exit zero, out)) = some (env.strip out)
  git_output (some (_, out)) = none

  unfoldable pub git : String → List String → S → Option String × S
  unfolding git_output
  git cwd args s = let (result, s') = env.run_git cwd args s in (git_output result, s')

-- the model that a content is read as
abbrev pub as_request : Content → Option OptimizationRequest
as_request (optimization_request x) = some x
as_request _ = none

abbrev pub as_snapshot : Content → Option SourceSnapshot
as_snapshot (source_snapshot x) = some x
as_snapshot _ = none

abbrev pub as_patch : Content → Option PatchArtifact
as_patch (patch_artifact x) = some x
as_patch _ = none

abbrev pub as_verification : Content → Option VerificationReport
as_verification (verification_report x) = some x
as_verification _ = none

abbrev pub as_statistical : Content → Option StatisticalReport
as_statistical (statistical_report x) = some x
as_statistical _ = none

abbrev pub as_selected : Content → Option SelectedSolution
as_selected (selected_solution x) = some x
as_selected _ = none
