-- ===== src/Examples/Gates.antt =====
-- Judgements of S02.81 and S02.10 (application/s02_handlers/nodes).
use agent_code_optimize_plug.Prelude.{
  ℕ, ◌+◌, ◌<◌, String, Bool, true, false, none, some, List, [], ◌∷◌, ◌≡◌, refl, ◌==◌, if◌then◌else◌,
  all, sorted,
}
use agent_code_optimize_plug.Prelude.Text.{text_le, decimal}
use agent_code_optimize_plug.Prelude.Dict.{get}
use agent_code_optimize_plug.Contracts.Refs.{ArtifactRef}
use agent_code_optimize_plug.Contracts.Errors.{Result, ok}
use agent_code_optimize_plug.Contracts.Strategy.{
  SolutionStrategy, SelectedSolution, code, low, instant, approved,
}
use agent_code_optimize_plug.Contracts.Plan.{PlanDraft, PlanQualityResult}
use agent_code_optimize_plug.Contracts.Artifact.{
  Artifact, Content, source_snapshot, solution_portfolio, selected_solution,
}
use agent_code_optimize_plug.State.{
  OptimizationState, Update, apply_updates, apply_update, merge_artifact_refs, merge_refs_from,
  put_ref, same_key, ref_le,
}
use agent_code_optimize_plug.Ports.Artifacts.{ArtifactStore}
use agent_code_optimize_plug.Runtime.Nodes.{NodeRoute, NodeExecution}
use agent_code_optimize_plug.S02.Gate.{Outside, quality_results, validate_quality_report}
use agent_code_optimize_plug.S02.Seal.{
  s02_81, s02_81_sealed, seal_plan, seal_tasks, put_sealed, finish_gate, seal_report,
  quality_report,
}
use agent_code_optimize_plug.S02.Seal.Laws.{
  validate_quality_report-seal_plan, s02_81-continue, s02_81-revision, IsSound,
}
use agent_code_optimize_plug.Examples.Base.{empty_state}
use agent_code_optimize_plug.Examples.Rankings.{floats}
use agent_code_optimize_plug.Examples.Plans.{chained, phases}

abbrev artifact : Content → Artifact
artifact content = record {
  envelope = record {
    artifact_type = "";
    schema_version = "1.0";
    artifact_id = "";
    tenant_id = "tenant";
    case_id = "case";
    created_at = 1;
    parent_digests = [];
  };
  content = content;
}

abbrev strategy : SolutionStrategy
strategy = record {
  strategy_id = "s1";
  risk_ceiling = code;
  eligible = true;
  reversible = true;
  fully_resolved = true;
  effort = low;
  reversibility = instant;
  uncertainty = record { bits = 1 };
  criterion_impacts = [];
}

abbrev selected : SelectedSolution
selected = record {
  ranking_result_digest = "d";
  solution_portfolio_digest = "d";
  strategy_id = "s1";
  approval = record {
    decision = approved;
    actor_id = none;
    actor_role = none;
    policy_version = "v";
  };
  excluded_strategy_ids = [];
}

-- the artifacts of the store, which keeps their types
abbrev decoded : String → Result Artifact
decoded kind =
    if kind == "SolutionPortfolio"
    then ok (artifact (solution_portfolio (record { strategies = strategy ∷ [] })))
    else if kind == "SelectedSolution"
    then ok (artifact (selected_solution selected))
    else ok (
        artifact
          (source_snapshot (record { canonical_path_ref = "/repo"; git_revision = some "r1" })))

abbrev env : Outside ℕ
env = record {
  base = record {
    canonical = record { encode = λ a. "c"; decode = decoded; digest = λ a. "d" };
    floats = floats;
    now = 30;
    repr = λ t. t;
    fixed2 = λ f. "0.10";
  };
  strings = record { replace = λ t a b. t; lstrip = λ t a. t };
  repr_list = λ ts. "[]";
  repository_file_paths = λ root s. "a.py" ∷ [];
  scope_resolves = λ root strategy s. false;
}

abbrev ref : String → String → ArtifactRef
ref artifact_type artifact_id = record {
  artifact_type = artifact_type;
  schema_version = "1.0";
  artifact_id = artifact_id;
  content_digest = "d";
  uri = "u";
}

abbrev store : ArtifactStore ℕ
store = record {
  put_json = λ tenant content digest key s. (ok (ref "" ""), s + 1);
  read = λ tenant r s. ok r.artifact_type;
}

abbrev draft : PlanDraft
draft = record {
  phases = phases;
  tasks = chained;
  phase_failures = [];
  task_failures = [];
  path_repairs = [];
  acceptance_coverage = ("c1", true) ∷ [];
  rollback_ok = true;
  rollback_reasons = [];
}

abbrev drafted : Bool → OptimizationState
drafted verdict = record empty_state {
  artifact_refs =
      ref "SelectedSolution" "case-S01.90-pass0-SelectedSolution"
      ∷ ref "SourceSnapshot" "case-SourceSnapshot"
      ∷ [];
  s02_plan_draft = some draft;
  s02_critique = some (record { concerns = []; approved = verdict });
}

abbrev results : Bool → List PlanQualityResult
results verdict =
    quality_results env draft (record { concerns = []; approved = verdict }) ("a.py" ∷ [])

abbrev plan_refs : List ArtifactRef
plan_refs = ref "ExecutionPlan" "case-ExecutionPlan" ∷ ref "TaskList" "case-TaskList" ∷ []

abbrev report_ref : ArtifactRef
report_ref = ref "PlanQualityReport" "case-S02.81-pass0-PlanQualityReport"

abbrev passed_execution : NodeExecution
passed_execution = record {
  route = NodeRoute.continue;
  updates =
      Update.artifact_refs (
        ref "ExecutionPlan" "case-ExecutionPlan" ∷ ref "TaskList" "case-TaskList" ∷ report_ref ∷ [])
      ∷ Update.s02_revision_attempts 1
      ∷ [];
}

passes : (s02_81 env store (drafted true) 0).0 ≡ ok passed_execution
unfolding s02_81 s02_81_sealed seal_plan seal_tasks put_sealed finish_gate seal_report decimal get
    sorted
passes = refl

s02_81-continue_example : IsSound draft × (true ≡ true)
s02_81-continue_example = s02_81-continue env store (drafted true) 0 passed_execution passes refl

seals :
    (seal_plan env store
      (all (λ r. r.passed) (results true))
      (drafted true)
      (ref "SelectedSolution" "case-S01.90-pass0-SelectedSolution")
      draft
      0).0
    ≡ ok plan_refs
unfolding seal_plan seal_tasks put_sealed decimal get sorted quality_results
seals = refl

validate_quality_report-seal_plan_example :
    validate_quality_report (quality_report env store (results true) plan_refs)
    ≡ ok (quality_report env store (results true) plan_refs)
validate_quality_report-seal_plan_example =
    validate_quality_report-seal_plan env store (drafted true)
      (ref "SelectedSolution" "case-S01.90-pass0-SelectedSolution") draft (results true) 0 plan_refs
      seals

abbrev sent_back : NodeExecution
sent_back = record {
  route = NodeRoute.revision;
  updates = Update.artifact_refs (report_ref ∷ []) ∷ Update.s02_revision_attempts 1 ∷ [];
}

fails : (s02_81 env store (drafted false) 0).0 ≡ ok sent_back
unfolding s02_81 s02_81_sealed seal_plan seal_tasks put_sealed finish_gate seal_report decimal get
    sorted
fails = refl

abbrev recorded : OptimizationState
recorded = record (drafted false) {
  artifact_refs =
      report_ref
      ∷ ref "SelectedSolution" "case-S01.90-pass0-SelectedSolution"
      ∷ ref "SourceSnapshot" "case-SourceSnapshot"
      ∷ [];
  s02_revision_attempts = 1;
}

merges : apply_updates text_le (drafted false) sent_back.updates ≡ ok recorded
unfolding apply_updates apply_update merge_artifact_refs merge_refs_from put_ref same_key sorted
    ref_le text_le
merges = refl

s02_81-revision_example : (0 < 2) × (1 ≡ 0 + 1)
s02_81-revision_example =
    s02_81-revision env store text_le (drafted false) recorded 0 sent_back fails refl merges

abbrev chosen : OptimizationState
chosen = record empty_state {
  artifact_refs =
      ref "SelectedSolution" "case-S01.90-pass0-SelectedSolution"
      ∷ ref "SolutionPortfolio" "case-SolutionPortfolio"
      ∷ ref "SourceSnapshot" "case-SourceSnapshot"
      ∷ [];
}
