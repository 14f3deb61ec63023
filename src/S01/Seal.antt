-- ===== src/S01/Seal.antt =====
-- The handlers of the nodes S01.80 and S01.90 (application/s01_handlers/nodes).
use agent_code_optimize_plug.Prelude.{
  ◌+◌, String, Bool, true, false, Option, none, some, List, [], ◌∷◌, ◌||◌, ◌==◌, if◌then◌else◌,
  is_empty, sorted,
}
use agent_code_optimize_plug.Prelude.Text.{◌^^◌, text_le}
use agent_code_optimize_plug.Contracts.Refs.{ArtifactRef, InterruptEnvelope, ResumeInterruptCommand}
use agent_code_optimize_plug.Contracts.Errors.{
  Result, ok, err, Exec, bind_result, or_raise, missing_key, missing_state, invalid_model, ◌>>=◌,
  pure, lift,
}
use agent_code_optimize_plug.Contracts.Strategy.{
  ApprovalDecision, auto_selected, approved, rejected, pending, SelectionApproval, RoutingDecision,
}
use agent_code_optimize_plug.Contracts.Artifact.{Content, ranking_result, selected_solution}
use agent_code_optimize_plug.State.{OptimizationState, Update}
use agent_code_optimize_plug.Ports.Artifacts.{ArtifactStore}
use agent_code_optimize_plug.Runtime.Nodes.{NodeRoute, NodeExecution, go_on}
use agent_code_optimize_plug.S01.Shared.{
  Outside, policy_version, required_state_str, s01_pass_number, pass_stage_id, require_stage_ref,
  require_ref, seal, put_envelope,
}
use agent_code_optimize_plug.S01.Select.{first_of}

module _ (env : Outside) where
  -- the bounds of `RankingResult`'s fields
  unfoldable pub ranking_content : OptimizationState → ArtifactRef → Result Content
  ranking_content state portfolio_ref =
      if is_empty state.s01_scores || is_empty state.s01_ranked_strategy_ids
      then err (invalid_model "RankingResult")
      else ok (
          ranking_result (record {
            solution_portfolio_digest = portfolio_ref.content_digest;
            scores = state.s01_scores;
            ranked_strategy_ids = state.s01_ranked_strategy_ids;
            sensitivity_flags = state.s01_sensitivity_flags;
          }))

  abbrev pub needs_approval : Option RoutingDecision → Bool
  needs_approval none = false
  needs_approval (some routing) = routing.needs_approval

  abbrev pub unattended : ApprovalDecision → SelectionApproval
  unattended decision = record {
    decision = decision;
    actor_id = none;
    actor_role = none;
    policy_version = policy_version;
  }

  abbrev pub halt_interrupt : ArtifactRef → String → String → InterruptEnvelope
  halt_interrupt ranking_ref case_id thread_id = record {
    interrupt_id = case_id ^^ "-S01-SELECTION";
    case_id = case_id;
    thread_id = thread_id;
    stage = "S01.80";
    artifact_digest = ranking_ref.content_digest;
    allowed_decisions = "approve" ∷ "reject" ∷ [];
    required_actor_role = "owner";
    policy_version = policy_version;
    issued_at = env.now;
    expires_at = env.now + 86400;
  }

  abbrev pub halt_updates : ArtifactRef → String → String → List Update
  halt_updates ranking_ref case_id thread_id =
      Update.pending_interrupt (some (halt_interrupt ranking_ref case_id thread_id))
      ∷ Update.s01_approval (unattended pending)
      ∷ []

  -- the halt for an owner's decision: the route is the default one
  abbrev pub halt_execution : ArtifactRef → String → String → NodeExecution
  halt_execution ranking_ref case_id thread_id =
      go_on (Update.artifact_refs (ranking_ref ∷ []) ∷ halt_updates ranking_ref case_id thread_id)

  unfoldable pub s01_80_halt : OptimizationState → ArtifactRef → Result NodeExecution
  s01_80_halt state ranking_ref =
      bind_result (required_state_str "case_id" state.case_id) λ case_id.
        bind_result (required_state_str "thread_id" state.thread_id)
          λ thread_id. ok (halt_execution ranking_ref case_id thread_id)

  unfoldable pub s01_80_commanded : ArtifactRef → ResumeInterruptCommand → Result NodeExecution
  s01_80_commanded ranking_ref command =
      let accepted = command.decision == "approve" in
      bind_result (first_of (sorted text_le command.actor_roles)) λ role. ok (record {
        route = if accepted then NodeRoute.continue else NodeRoute.rejected;
        updates =
            Update.artifact_refs (ranking_ref ∷ [])
            ∷ Update.s01_approval (record {
              decision = if accepted then approved else rejected;
              actor_id = some command.actor_id;
              actor_role = some role;
              policy_version = command.policy_version;
            })
            ∷ [];
      })

  unfoldable pub s01_80_resumed :
      Option ResumeInterruptCommand → OptimizationState → ArtifactRef → Result NodeExecution
  unfolding s01_80_halt s01_80_commanded
  s01_80_resumed none state ranking_ref = s01_80_halt state ranking_ref
  s01_80_resumed (some command) state ranking_ref = s01_80_commanded ranking_ref command

  -- by whether the routing decision asks for an approval
  unfoldable pub s01_80_for : Bool → OptimizationState → ArtifactRef → Result NodeExecution
  unfolding s01_80_resumed
  s01_80_for true state ranking_ref = s01_80_resumed state.resume_command state ranking_ref
  s01_80_for false state ranking_ref = ok (
      go_on (
        Update.artifact_refs (ranking_ref ∷ [])
        ∷ Update.s01_approval (unattended auto_selected)
        ∷ []))

  unfoldable pub s01_80_routed : OptimizationState → ArtifactRef → Result NodeExecution
  unfolding s01_80_for
  s01_80_routed state ranking_ref =
      s01_80_for (needs_approval state.s01_routing_decision) state ranking_ref

  -- the content of `SelectedSolution`
  unfoldable pub selection_content :
      OptimizationState → SelectionApproval → ArtifactRef → ArtifactRef → Result Content
  selection_content state approval ranking_ref portfolio_ref =
      bind_result (or_raise state.s01_routing_decision (missing_key "winner_strategy_id"))
        λ routing.
          if routing.winner_strategy_id == ""
          then err (invalid_model "SelectedSolution")
          else ok (
              selected_solution (record {
                ranking_result_digest = ranking_ref.content_digest;
                solution_portfolio_digest = portfolio_ref.content_digest;
                strategy_id = routing.winner_strategy_id;
                approval = approval;
                excluded_strategy_ids = state.s01_excluded_strategy_ids;
              }))

abbrev pub is_rejected : ApprovalDecision → Bool
is_rejected rejected = true
is_rejected _ = false

module _ {S : Type 0} (env : Outside) (store : ArtifactStore S) where
  unfoldable pub s01_80 : OptimizationState → Exec S NodeExecution
  unfolding require_ref ranking_content seal put_envelope s01_80_routed
  s01_80 state = lift (require_ref state "SolutionPortfolio") >>= λ portfolio_ref.
      (lift (
          bind_result (ranking_content env state portfolio_ref)
            (seal env store state (pass_stage_id "S01.80" (s01_pass_number state)) "RankingResult"))
        >>= λ ranking.
            (put_envelope env store "S01.80" ranking >>= λ ranking_ref.
            lift (s01_80_routed env state ranking_ref)))

  -- the seal of S01.90
  unfoldable pub seal_selected :
      OptimizationState → SelectionApproval → ArtifactRef → ArtifactRef → Exec S ArtifactRef
  unfolding selection_content seal put_envelope
  seal_selected state approval ranking_ref portfolio_ref =
      lift (
        bind_result (selection_content env state approval ranking_ref portfolio_ref) (
          seal env store state (pass_stage_id "S01.90" (s01_pass_number state)) "SelectedSolution"))
      >>= put_envelope env store "S01.90"

  -- the rest of S01.90, by whether the approval is a rejection
  unfoldable pub s01_90_for :
      Bool
      → OptimizationState
      → SelectionApproval
      → ArtifactRef
      → ArtifactRef
      → Exec S NodeExecution
  unfolding seal_selected
  s01_90_for true state approval ranking_ref portfolio_ref = pure (record {
    route = NodeRoute.rejected;
    updates = Update.artifact_refs (ranking_ref ∷ []) ∷ [];
  })
  s01_90_for false state approval ranking_ref portfolio_ref =
      seal_selected state approval ranking_ref portfolio_ref >>= λ ref.
      pure (go_on (Update.artifact_refs (ref ∷ []) ∷ []))

  unfoldable pub s01_90 : OptimizationState → Exec S NodeExecution
  unfolding require_stage_ref require_ref s01_90_for
  s01_90 state =
      lift
        (require_stage_ref state (pass_stage_id "S01.80" (s01_pass_number state)) "RankingResult")
      >>= λ ranking_ref.
          (lift (require_ref state "SolutionPortfolio") >>= λ portfolio_ref.
          (lift (or_raise state.s01_approval (missing_state "s01_approval")) >>= λ approval.
          s01_90_for (is_rejected approval.decision) state approval ranking_ref portfolio_ref))
