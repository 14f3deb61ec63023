-- ===== src/Contracts/Artifact.antt =====
-- The sealed artifacts of the shared workflow: an envelope (contracts/envelope.py) and one of the
-- models. `Canonical` is contracts/canonical.py over `json` and `hashlib`, which are not modelled.
use agent_code_optimize_plug.Prelude.{ℕ, String, List}
use agent_code_optimize_plug.Contracts.Errors.{Result}
use agent_code_optimize_plug.Contracts.Request.{OptimizationRequest}
use agent_code_optimize_plug.Contracts.Strategy.{SolutionPortfolio, RankingResult, SelectedSolution}
use agent_code_optimize_plug.Contracts.Plan.{
  TaskList, ExecutionPlan, PlanQualityReport, PatchArtifact, SourceSnapshot, RepositoryManifest,
  BaselineSnapshot,
}
use agent_code_optimize_plug.Contracts.Verify.{VerificationReport, StatisticalReport}
use agent_code_optimize_plug.Contracts.Decide.{Decision, RollbackReport, RepositoryApplyResult}

pub record ArtifactEnvelope : Type 0 where
  pub artifact_type : String
  pub schema_version : String
  pub artifact_id : String
  pub tenant_id : String
  pub case_id : String
  pub created_at : ℕ
  pub parent_digests : List String

pub data Content : Type 0 where
  optimization_request : OptimizationRequest → Content
  solution_portfolio : SolutionPortfolio → Content
  source_snapshot : SourceSnapshot → Content
  repository_manifest : RepositoryManifest → Content
  baseline_snapshot : BaselineSnapshot → Content
  task_list : TaskList → Content
  execution_plan : ExecutionPlan → Content
  plan_quality_report : PlanQualityReport → Content
  patch_artifact : PatchArtifact → Content
  statistical_report : StatisticalReport → Content
  ranking_result : RankingResult → Content
  selected_solution : SelectedSolution → Content
  verification_report : VerificationReport → Content
  rollback_report : RollbackReport → Content
  decision : Decision → Content
  repository_apply_result : RepositoryApplyResult → Content

pub record Artifact : Type 0 where
  pub envelope : ArtifactEnvelope
  pub content : Content

-- `canonical_json` of an artifact without its digest, reading it back through the model's
-- validation, and `model_content_digest`.
pub record Canonical : Type 0 where
  pub encode : Artifact → String
  pub decode : String → Result Artifact
  pub digest : Artifact → String
