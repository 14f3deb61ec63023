-- ===== src/S01/Select.antt =====
-- The handlers of the nodes S01.50 to S01.70 (application/s01_handlers/nodes).
use agent_code_optimize_plug.Prelude.{
  String, Bool, false, List, [], ◌∷◌, ◌++◌, not, ◌==◌, if◌then◌else◌, filter, find, map, length,
  is_empty,
}
use agent_code_optimize_plug.Prelude.Text.{◌^^◌}
use agent_code_optimize_plug.Contracts.Errors.{
  Result, ok, err, Exec, bind_result, or_raise, empty_sequence, ◌>>=◌, pure, lift,
}
use agent_code_optimize_plug.Contracts.Request.{Criterion, OptimizationRequest}
use agent_code_optimize_plug.Contracts.Strategy.{
  CriterionImpact, SolutionStrategy, StrategyScore, RoutingDecision,
}
use agent_code_optimize_plug.State.{OptimizationState, Update}
use agent_code_optimize_plug.Ports.Artifacts.{ArtifactStore}
use agent_code_optimize_plug.Runtime.Nodes.{NodeExecution, go_on}
use agent_code_optimize_plug.S01.Shared.{
  Outside, risk_value, needs_human, is_improves, as_request, as_portfolio, read_required,
}
use agent_code_optimize_plug.S01.Rank.{rank, perturb_score}

-- `xs[0]`
abbrev pub first_of {ℓ} : {A : Type ℓ} → List A → Result A
first_of [] = err empty_sequence
first_of (x ∷ xs) = ok x

module _ (env : Outside) where
  unfoldable pub s01_50 : OptimizationState → Result NodeExecution
  unfolding rank
  s01_50 state =
      bind_result (rank env.floats state.s01_scores)
        λ ids. ok (go_on (Update.s01_ranked_strategy_ids ids ∷ []))

  -- whether a ranking has another first than the winner
  abbrev pub flips : String → List String → Bool
  flips winner [] = false
  flips winner (first ∷ _) = not (first == winner)

  abbrev pub flag : String → String
  flag criterion_id = "top choice changes if " ^^ (env.repr criterion_id ^^ " weight increases 50%")

  -- the ranking under a weight of one criterion that is half as much again
  unfoldable pub perturbed_ranking : List StrategyScore → String → Result (List String)
  unfolding rank perturb_score
  perturbed_ranking scores criterion_id =
      rank env.floats
        (map (λ s. perturb_score env.floats s criterion_id (env.floats.literal 15 1)) scores)

  unfoldable pub sensitivity_flags :
      List StrategyScore → String → List Criterion → Result (List String)
  unfolding perturbed_ranking
  sensitivity_flags scores winner [] = ok []
  sensitivity_flags scores winner (criterion ∷ criteria) =
      bind_result (perturbed_ranking scores criterion.criterion_id) λ ranking.
        bind_result (sensitivity_flags scores winner criteria)
          λ flags. ok (if flips winner ranking then flag criterion.criterion_id ∷ flags else flags)

  unfoldable pub flags_of :
      OptimizationRequest → List StrategyScore → List String → Result (List String)
  unfolding sensitivity_flags
  flags_of request scores [] = ok []
  flags_of request scores (winner ∷ _) = sensitivity_flags scores winner request.criteria

  -- the reasons that the confidence of the impacts gives
  unfoldable pub confidence_reasons : List CriterionImpact → List String
  confidence_reasons [] = "winning strategy has no criterion impact marked 'improves'" ∷ []
  confidence_reasons (i ∷ impacts) =
      let average =
        env.floats.fdiv (env.floats.fsum (map (λ x. x.confidence) (i ∷ impacts)))
          (env.floats.of_ℕ (length (i ∷ impacts))) in
      if env.floats.flt average (env.floats.literal 5 1)
      then ("winning strategy average impact confidence "
          ^^ (env.fixed2 average ^^ " is below 0.5"))
        ∷ []
      else []

  unfoldable pub approval_reasons : SolutionStrategy → List String → List String
  unfolding confidence_reasons
  approval_reasons winner flags =
      (if needs_human winner.risk_ceiling
        then ("winning strategy risk_ceiling=" ^^ env.repr (risk_value winner.risk_ceiling)) ∷ []
        else [])
      ++ ((if is_empty flags then [] else "ranking is sensitive to reasonable weight changes" ∷ [])
          ++ confidence_reasons (filter (λ i. is_improves i.direction) winner.criterion_impacts))

  unfoldable pub routing_decision :
      List SolutionStrategy → List String → List String → Result RoutingDecision
  unfolding approval_reasons
  routing_decision strategies ranked flags = bind_result (first_of ranked) λ winner_id.
      bind_result (or_raise (find (λ s. s.strategy_id == winner_id) strategies) empty_sequence)
        λ winner.
          let reasons = approval_reasons winner flags in
          ok (record {
            needs_approval = not (is_empty reasons);
            reasons = reasons;
            winner_strategy_id = winner_id;
          })

module _ {S : Type 0} (env : Outside) (store : ArtifactStore S) where
  unfoldable pub s01_60 : OptimizationState → Exec S NodeExecution
  unfolding read_required flags_of
  s01_60 state = read_required env store as_request state "OptimizationRequest" >>= λ request.
      (lift (flags_of env request state.s01_scores state.s01_ranked_strategy_ids) >>= λ flags.
      pure (go_on (Update.s01_sensitivity_flags flags ∷ [])))

  unfoldable pub s01_70 : OptimizationState → Exec S NodeExecution
  unfolding read_required routing_decision
  s01_70 state = read_required env store as_portfolio state "SolutionPortfolio" >>= λ portfolio.
      (lift (
          routing_decision env portfolio.strategies state.s01_ranked_strategy_ids
            state.s01_sensitivity_flags)
        >>= λ decision. pure (go_on (Update.s01_routing_decision decision ∷ [])))
