-- ===== src/S02/Gate.antt =====
-- The handlers of the nodes S02.10 and S02.70 and the quality of a plan, which S02.81 judges
-- (application/s02_handlers). Reading of artifacts is that of S01/Shared, which has the same text there.
pub mod Laws
use agent_code_optimize_plug.Prelude.{
  ℕ, String, Bool, true, false, Option, none, some, List, [], ◌∷◌, ◌&&◌, not, ◌==◌, if◌then◌else◌,
  filter, find, map, sorted, is_empty, all, or_default,
}
use agent_code_optimize_plug.Prelude.Text.{◌^^◌, text_le}
use agent_code_optimize_plug.Prelude.Dict.{Dict}
use agent_code_optimize_plug.Contracts.Refs.{ArtifactRef}
use agent_code_optimize_plug.Contracts.Errors.{
  Result, ok, err, Exec, bind_result, or_raise, missing_key, invalid_model, ◌>>=◌, pure, lift,
}
use agent_code_optimize_plug.Contracts.Strategy.{
  SolutionStrategy, SolutionPortfolio, SelectedSolution,
}
use agent_code_optimize_plug.Contracts.Plan.{
  PlanDraft, Critique, PlanQualityResult, PlanQualityReport, SourceSnapshot,
}
use agent_code_optimize_plug.Contracts.Artifact.{
  Artifact, Content, source_snapshot, selected_solution,
}
use agent_code_optimize_plug.State.{OptimizationState, Update}
use agent_code_optimize_plug.Ports.Artifacts.{ArtifactStore}
use agent_code_optimize_plug.Runtime.Nodes.{NodeRoute, NodeExecution, go_on}
use agent_code_optimize_plug.S01.Shared as S01
use agent_code_optimize_plug.S01.Shared.{
  needs_human, required_state_str, s01_pass_number, pass_stage_id, stage_artifact_id,
  require_stage_ref, require_ref, as_portfolio, read_model, read_required, reference,
}
use agent_code_optimize_plug.S02.Acyclic.{check_acyclic}
use agent_code_optimize_plug.S02.Checks.{
  Strings, join, or_none, check_phase_risk_order, check_risk_ladder_order, path_resolution_failures,
  rollback_reasons,
}

-- What S02 calls outside the source, besides what S01 calls: string methods, the list of the
-- repository's files, and whether a path of a snapshot exists.
pub record Outside (S : Type 0) : Type 0 where
  pub base : S01.Outside
  pub strings : Strings
  pub repr_list : List String → String
  pub repository_file_paths : SourceSnapshot → S → List String
  -- whether the entries of the strategy's scope are new or exist under the root
  pub scope_resolves : SourceSnapshot → SolutionStrategy → S → Bool

abbrev pub policy_version : String
policy_version = "s02-plan-v1"

abbrev pub max_revisions : ℕ
max_revisions = 2

abbrev pub as_snapshot : Content → Option SourceSnapshot
as_snapshot (source_snapshot x) = some x
as_snapshot _ = none

abbrev pub as_selected : Content → Option SelectedSolution
as_selected (selected_solution x) = some x
as_selected _ = none

abbrev pub empty_draft : PlanDraft
empty_draft = record {
  phases = [];
  tasks = [];
  phase_failures = [];
  task_failures = [];
  path_repairs = [];
  acceptance_coverage = [];
  rollback_ok = false;
  rollback_reasons = [];
}

abbrev pub no_critique : Critique
no_critique = record { concerns = []; approved = false }

abbrev pub draft_of : OptimizationState → PlanDraft
draft_of state = or_default state.s02_plan_draft empty_draft

abbrev pub critique_of : OptimizationState → Critique
critique_of state = or_default state.s02_critique no_critique

unfoldable pub selected_solution_ref : OptimizationState → Result ArtifactRef
unfolding require_stage_ref s01_pass_number
selected_solution_ref state =
    require_stage_ref state (pass_stage_id "S01.90" (s01_pass_number state)) "SelectedSolution"

unfoldable pub strategy_by_id : List SolutionStrategy → String → Result SolutionStrategy
strategy_by_id strategies strategy_id =
    or_raise (find (λ s. s.strategy_id == strategy_id) strategies) (missing_key strategy_id)

-- S02.70 reads and writes the draft alone.
unfoldable pub s02_70 : OptimizationState → NodeExecution
unfolding rollback_reasons
s02_70 state =
    let draft = draft_of state in
    let reasons = rollback_reasons draft.phases in
    go_on (
      Update.s02_plan_draft
        (record draft { rollback_ok = is_empty reasons; rollback_reasons = reasons })
      ∷ [])

abbrev pub all_covered : Dict Bool → Bool
all_covered coverage = not (is_empty coverage) && all (λ e. e.1) coverage

abbrev pub quality : String → Bool → Option String → PlanQualityResult
quality dimension passed detail = record { dimension = dimension; passed = passed; detail = detail }

abbrev pub detail_of : List String → Option String
detail_of reasons = or_none (join "; " reasons)

module _ {S : Type 0} (env : Outside S) where
  -- the ten dimensions of a plan's quality
  unfoldable pub quality_results : PlanDraft → Critique → List String → List PlanQualityResult
  unfolding join check_acyclic check_phase_risk_order check_risk_ladder_order
      path_resolution_failures
  quality_results draft critique allowed_paths =
      let dag = check_acyclic env.base.repr draft.tasks in
      let risk_order = check_phase_risk_order draft.phases in
      let risk_ladder = check_risk_ladder_order draft.phases in
      let failures = path_resolution_failures env.strings draft.tasks allowed_paths in
      let covered = all_covered draft.acceptance_coverage in
      quality "phases_well_formed" (not (is_empty draft.phases) && is_empty draft.phase_failures)
        (detail_of draft.phase_failures)
      ∷ quality "tasks_well_formed" (not (is_empty draft.tasks) && is_empty draft.task_failures)
          (detail_of draft.task_failures)
      ∷ quality "dependency_dag_acyclic" dag.0 dag.1
      ∷ quality "phase_ordering_by_risk" risk_order.0 risk_order.1
      ∷ quality "risk_ladder_ordering" risk_ladder.0 risk_ladder.1
      ∷ quality "paths_resolve" (is_empty failures) (detail_of failures)
      ∷ quality "no_silent_path_repairs" (is_empty draft.path_repairs)
          (detail_of draft.path_repairs)
      ∷ quality "criteria_coverage" covered (
          if covered
          then none
          else some (
              "uncovered: "
              ^^ env.repr_list (
                  sorted text_le
                    (map (λ e. e.0) (filter (λ e. not e.1) draft.acceptance_coverage)))))
      ∷ quality "rollback_defined" draft.rollback_ok (detail_of draft.rollback_reasons)
      ∷ quality "critic_approved" critique.approved (detail_of critique.concerns)
      ∷ []

  -- `_base_envelope` with the id of the artifact, and `_seal`
  unfoldable pub seal : OptimizationState → String → (String → String) → Content → Result Artifact
  seal state artifact_type artifact_id content =
      bind_result (required_state_str "case_id" state.case_id) λ case_id.
        bind_result (required_state_str "tenant_id" state.tenant_id) λ tenant_id. ok (record {
          envelope = record {
            artifact_type = artifact_type;
            schema_version = "1.0";
            artifact_id = artifact_id case_id;
            tenant_id = tenant_id;
            case_id = case_id;
            created_at = env.base.now;
            parent_digests = [];
          };
          content = content;
        })

abbrev pub scope_execution : Bool → NodeExecution
scope_execution resolved = record {
  route = if resolved then NodeRoute.continue else NodeRoute.rejected;
  updates = Update.s02_resolution_ok resolved ∷ [];
}

abbrev pub none_or_both : Option String → Option String → Bool
none_or_both none tasks = false
none_or_both (some plan) none = false
none_or_both (some plan) (some tasks) = true

-- the validator of `PlanQualityReport`
unfoldable pub validate_quality_report : PlanQualityReport → Result PlanQualityReport
validate_quality_report report =
    if all (λ r. r.passed) report.results
    then (if report.passed && none_or_both report.execution_plan_digest report.task_list_digest
        then ok report
        else err (invalid_model "PlanQualityReport"))
    else (if report.passed then err (invalid_model "PlanQualityReport") else ok report)

module _ {S : Type 0} (env : Outside S) (store : ArtifactStore S) where
  -- the idempotency key names the artifact too
  unfoldable pub put_envelope : String → Artifact → Exec S ArtifactRef
  put_envelope node_id artifact =
      store.put_json artifact.envelope.tenant_id (env.base.canonical.encode artifact)
        (env.base.canonical.digest artifact)
        (artifact.envelope.case_id
          ^^ (":"
              ^^ (node_id
                  ^^ (":"
                      ^^ (artifact.envelope.artifact_type
                          ^^ (":" ^^ artifact.envelope.artifact_id))))))
      >>= λ generic_ref. pure (reference env.base store artifact generic_ref.uri)

  unfoldable pub resolve_scope :
      SolutionPortfolio → SelectedSolution → SourceSnapshot → Exec S NodeExecution
  unfolding strategy_by_id
  resolve_scope portfolio selected snapshot =
      lift (strategy_by_id portfolio.strategies selected.strategy_id) >>= λ strategy.
      λ s. (ok (scope_execution (env.scope_resolves snapshot strategy s)), s)

  unfoldable pub resolve_in_snapshot :
      OptimizationState → SelectedSolution → SolutionPortfolio → Exec S NodeExecution
  unfolding read_required resolve_scope
  resolve_in_snapshot state selected portfolio =
      read_required env.base store as_snapshot state "SourceSnapshot"
      >>= resolve_scope portfolio selected

  unfoldable pub resolve_selected : OptimizationState → SelectedSolution → Exec S NodeExecution
  unfolding read_required resolve_in_snapshot
  resolve_selected state selected =
      read_required env.base store as_portfolio state "SolutionPortfolio"
      >>= resolve_in_snapshot state selected

  unfoldable pub s02_10 : OptimizationState → Exec S NodeExecution
  unfolding selected_solution_ref read_model resolve_selected
  s02_10 state = lift (selected_solution_ref state) >>= λ selected_ref.
      (read_model env.base store as_selected state selected_ref >>= resolve_selected state)
