-- ===== src/S02/Seal.antt =====
-- The handlers of the nodes S02.81 and S02.90 (application/s02_handlers/nodes): the seal of the plan and
-- the halt for its approval.
pub mod Laws
use agent_code_optimize_plug.Prelude.{
  ℕ, ◌+◌, String, Bool, true, false, Option, none, some, List, [], ◌∷◌, ◌++◌, ◌&&◌, ◌||◌, not, ◌==◌,
  if◌then◌else◌, ltb, filter, find, map, contains, sorted, is_empty, all, any, or_default,
}
use agent_code_optimize_plug.Prelude.Text.{◌^^◌, text_le}
use agent_code_optimize_plug.Prelude.Dict.{Dict}
use agent_code_optimize_plug.Contracts.Refs.{ArtifactRef, InterruptEnvelope, ResumeInterruptCommand}
use agent_code_optimize_plug.Contracts.Errors.{
  Result, ok, err, Exec, bind_result, or_raise, missing_artifact, missing_key, invalid_model, ◌>>=◌,
  pure, lift,
}
use agent_code_optimize_plug.Contracts.Strategy.{SolutionStrategy, SelectedSolution}
use agent_code_optimize_plug.Contracts.Plan.{
  PlanTask, ExecutionPhase, PlanDraft, Critique, PlanQualityResult, PlanQualityReport,
  ExecutionPlan, TaskList, PlanDecision, auto_approved, approved, rejected, pending, PlanApproval,
  SourceSnapshot,
}
use agent_code_optimize_plug.Contracts.Artifact.{
  Artifact, Content, source_snapshot, selected_solution, execution_plan, task_list,
  plan_quality_report,
}
use agent_code_optimize_plug.State.{OptimizationState, Update}
use agent_code_optimize_plug.Ports.Artifacts.{ArtifactStore}
use agent_code_optimize_plug.Runtime.Nodes.{NodeRoute, NodeExecution, go_on}
use agent_code_optimize_plug.S01.Shared as S01
use agent_code_optimize_plug.S01.Shared.{
  needs_human, required_state_str, s01_pass_number, pass_stage_id, stage_artifact_id,
  require_stage_ref, require_ref, as_portfolio, read_model, read_required, reference,
}
use agent_code_optimize_plug.S01.Select.{first_of}
use agent_code_optimize_plug.S02.Acyclic.{check_acyclic}
use agent_code_optimize_plug.S02.Checks.{
  Strings, join, or_none, check_phase_risk_order, check_risk_ladder_order, path_resolution_failures,
  rollback_reasons,
}
use agent_code_optimize_plug.S02.Gate.{
  Outside, policy_version, max_revisions, as_snapshot, as_selected, draft_of, critique_of,
  selected_solution_ref, strategy_by_id, quality_results, seal, validate_quality_report,
  put_envelope,
}

abbrev pub case_scoped : String → String → String
case_scoped artifact_type case_id = case_id ^^ ("-" ^^ artifact_type)

abbrev pub stage_scoped : ℕ → String → String
stage_scoped pass_number case_id =
    stage_artifact_id case_id (pass_stage_id "S02.81" pass_number) "PlanQualityReport"

-- the digests of the plan and of its tasks
abbrev pub digests : List ArtifactRef → Option String × Option String
digests (plan_ref ∷ tasks_ref ∷ _) = (some plan_ref.content_digest, some tasks_ref.content_digest)
digests _ = (none, none)

abbrev pub gate_route : Bool → ℕ → NodeRoute
gate_route true pass_number = NodeRoute.continue
gate_route false pass_number =
    if ltb pass_number max_revisions then NodeRoute.revision else NodeRoute.rejected

module _ {S : Type 0} (env : Outside S) (store : ArtifactStore S) where
  -- `_put_envelope(..., _seal(...), node_id="S02.81")`
  unfoldable pub put_sealed :
      OptimizationState → String → (String → String) → Content → Exec S ArtifactRef
  unfolding seal put_envelope
  put_sealed state artifact_type artifact_id content =
      lift (seal env state artifact_type artifact_id content) >>= put_envelope env store "S02.81"

  unfoldable pub seal_tasks :
      OptimizationState → PlanDraft → ArtifactRef → Exec S (List ArtifactRef)
  unfolding put_sealed
  seal_tasks state draft plan_ref =
      put_sealed state "TaskList" (case_scoped "TaskList") (
        task_list (record { execution_plan_digest = plan_ref.content_digest; tasks = draft.tasks }))
      >>= λ tasks_ref. pure (plan_ref ∷ tasks_ref ∷ [])

  -- the plan and the task list, which are sealed where every dimension passed
  unfoldable pub seal_plan :
      Bool → OptimizationState → ArtifactRef → PlanDraft → Exec S (List ArtifactRef)
  unfolding put_sealed seal_tasks
  seal_plan false state selected_ref draft = pure []
  seal_plan true state selected_ref draft =
      put_sealed state "ExecutionPlan" (case_scoped "ExecutionPlan") (
        execution_plan (record {
          selected_solution_digest = selected_ref.content_digest;
          phases = draft.phases;
        }))
      >>= seal_tasks state draft

  abbrev pub quality_report : List PlanQualityResult → List ArtifactRef → PlanQualityReport
  quality_report results refs = record {
    execution_plan_digest = (digests refs).0;
    task_list_digest = (digests refs).1;
    passed = all (λ r. r.passed) results;
    results = results;
  }

  unfoldable pub seal_report :
      OptimizationState → List PlanQualityResult → List ArtifactRef → Exec S ArtifactRef
  unfolding put_sealed validate_quality_report
  seal_report state results refs =
      lift (validate_quality_report (quality_report results refs)) >>= λ report.
      put_sealed state "PlanQualityReport" (stage_scoped state.s02_revision_attempts)
        (plan_quality_report report)

  abbrev pub gate_execution :
      OptimizationState → List PlanQualityResult → List ArtifactRef → ArtifactRef → NodeExecution
  gate_execution state results refs report_ref = record {
    route = gate_route (all (λ r. r.passed) results) state.s02_revision_attempts;
    updates =
        Update.artifact_refs (refs ++ (report_ref ∷ []))
        ∷ Update.s02_revision_attempts (state.s02_revision_attempts + 1)
        ∷ [];
  }

  unfoldable pub finish_gate :
      OptimizationState → List PlanQualityResult → List ArtifactRef → Exec S NodeExecution
  unfolding seal_report
  finish_gate state results refs = seal_report state results refs >>= λ report_ref.
      pure (gate_execution state results refs report_ref)

  unfoldable pub s02_81_sealed :
      OptimizationState → ArtifactRef → List PlanQualityResult → Exec S NodeExecution
  unfolding seal_plan finish_gate
  s02_81_sealed state selected_ref results =
      seal_plan (all (λ r. r.passed) results) state selected_ref (draft_of state)
      >>= finish_gate state results

  abbrev pub results_of : OptimizationState → SourceSnapshot → S → List PlanQualityResult
  results_of state snapshot s =
      quality_results env (draft_of state) (critique_of state)
        (env.repository_file_paths snapshot s)

  unfoldable pub s02_81 : OptimizationState → Exec S NodeExecution
  unfolding selected_solution_ref read_required quality_results s02_81_sealed
  s02_81 state = lift (selected_solution_ref state) >>= λ selected_ref.
      (read_required env.base store as_snapshot state "SourceSnapshot" >>= λ snapshot.
      λ s. s02_81_sealed state selected_ref (results_of state snapshot s) s)

  abbrev pub unattended : PlanDecision → PlanApproval
  unattended decision = record {
    decision = decision;
    actor_id = none;
    actor_role = none;
    policy_version = policy_version;
  }

  unfoldable pub s02_90_halt : OptimizationState → ArtifactRef → Result NodeExecution
  s02_90_halt state plan_ref = bind_result (required_state_str "case_id" state.case_id) λ case_id.
      bind_result (required_state_str "thread_id" state.thread_id) λ thread_id. ok (record {
        route = NodeRoute.approval;
        updates =
            Update.pending_interrupt (
              some (record {
                interrupt_id = case_id ^^ "-S02-PLAN";
                case_id = case_id;
                thread_id = thread_id;
                stage = "S02.90";
                artifact_digest = plan_ref.content_digest;
                allowed_decisions = "approve" ∷ "reject" ∷ [];
                required_actor_role = "owner";
                policy_version = policy_version;
                issued_at = env.base.now;
                expires_at = env.base.now + 86400;
              }))
            ∷ Update.s02_approval (unattended pending)
            ∷ [];
      })

  unfoldable pub s02_90_commanded : ResumeInterruptCommand → Result NodeExecution
  s02_90_commanded command =
      let accepted = command.decision == "approve" in
      bind_result (first_of (sorted text_le command.actor_roles)) λ role. ok (record {
        route = if accepted then NodeRoute.continue else NodeRoute.rejected;
        updates =
            Update.s02_approval (record {
              decision = if accepted then approved else rejected;
              actor_id = some command.actor_id;
              actor_role = some role;
              policy_version = command.policy_version;
            })
            ∷ [];
      })

  unfoldable pub s02_90_asked :
      Option ResumeInterruptCommand → OptimizationState → ArtifactRef → Result NodeExecution
  unfolding s02_90_halt s02_90_commanded
  s02_90_asked none state plan_ref = s02_90_halt state plan_ref
  s02_90_asked (some command) state plan_ref = s02_90_commanded command

  -- by whether the strategy's risk tier asks for an approval
  unfoldable pub s02_90_for : Bool → OptimizationState → ArtifactRef → Result NodeExecution
  unfolding s02_90_asked
  s02_90_for true state plan_ref = s02_90_asked state.resume_command state plan_ref
  s02_90_for false state plan_ref = ok (go_on (Update.s02_approval (unattended auto_approved) ∷ []))

  unfoldable pub s02_90 : OptimizationState → Exec S NodeExecution
  unfolding selected_solution_ref read_model read_required strategy_by_id require_ref s02_90_for
  s02_90 state = lift (selected_solution_ref state) >>= λ selected_ref.
      (read_model env.base store as_selected state selected_ref >>= λ selected.
      (read_required env.base store as_portfolio state "SolutionPortfolio" >>= λ portfolio.
      (lift (strategy_by_id portfolio.strategies selected.strategy_id) >>= λ strategy.
      (lift (require_ref state "ExecutionPlan") >>= λ plan_ref.
      lift (s02_90_for (needs_human strategy.risk_ceiling) state plan_ref)))))
