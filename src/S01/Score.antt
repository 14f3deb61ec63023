-- ===== src/S01/Score.antt =====
-- The handlers of the nodes S01.10 to S01.40 (application/s01_handlers/nodes). The bounds of the fields
-- of `StrategyScore` follow from those of the portfolio's fields, so its construction never fails.
use agent_code_optimize_plug.Prelude.{
  String, Bool, List, [], ◌∷◌, ◌&&◌, not, if◌then◌else◌, contains, filter, map, is_empty, last_with,
  or_default,
}
use agent_code_optimize_plug.Prelude.Dict.{Dict, get, collect}
use agent_code_optimize_plug.Contracts.Errors.{
  Result, ok, Exec, bind_result, or_raise, missing_key, ◌>>=◌, pure, lift,
}
use agent_code_optimize_plug.Contracts.Request.{Float, FloatOps, Criterion}
use agent_code_optimize_plug.Contracts.Strategy.{SolutionStrategy, StrategyScore, NormalizedFactors}
use agent_code_optimize_plug.State.{OptimizationState, Update}
use agent_code_optimize_plug.Ports.Artifacts.{ArtifactStore}
use agent_code_optimize_plug.Runtime.Nodes.{NodeRoute, NodeExecution, go_on}
use agent_code_optimize_plug.S01.Shared.{
  Outside, policy_version, is_improves, effort_scale, reversibility_scale, require_ref,
  read_required, as_request, as_portfolio,
}

unfoldable pub s01_10 : OptimizationState → Result NodeExecution
unfolding require_ref
s01_10 state = bind_result (require_ref state "SolutionPortfolio") λ portfolio_ref.
    bind_result (require_ref state "OptimizationRequest") λ request_ref.
      bind_result (require_ref state "ConvergedCase") λ _. ok (
        go_on (
          Update.s01_decision_context (record {
            solution_portfolio_digest = portfolio_ref.content_digest;
            request_digest = request_ref.content_digest;
            excluded_strategy_ids = state.s01_excluded_strategy_ids;
            policy_version = policy_version;
          })
          ∷ []))

-- what S01.20 asks of a strategy
abbrev pub is_candidate : List String → SolutionStrategy → Bool
is_candidate excluded s =
    s.eligible && (s.reversible && (s.fully_resolved && not (contains s.strategy_id excluded)))

unfoldable pub eligible_ids : List String → List SolutionStrategy → List String
eligible_ids excluded strategies =
    map (λ s. s.strategy_id) (filter (is_candidate excluded) strategies)

module _ (floats : FloatOps) where
  abbrev pub normalize : SolutionStrategy → NormalizedFactors
  normalize s = record {
    benefit_by_criterion =
        collect (λ i. i.criterion_id) (λ i. i.confidence)
          (filter (λ i. is_improves i.direction) s.criterion_impacts) [];
    effort_score = effort_scale floats s.effort;
    reversibility_score = reversibility_scale floats s.reversibility;
    risk_penalty = s.uncertainty;
  }

  unfoldable pub normalized_factors : List String → List SolutionStrategy → Dict NormalizedFactors
  unfolding collect
  normalized_factors eligible strategies =
      collect (λ s. s.strategy_id) normalize
        (filter (λ s. contains s.strategy_id eligible) strategies) []

  -- `x or 1.0`
  abbrev pub or_one : Float → Float
  or_one x = if floats.feq x (floats.of_ℕ 0) then floats.literal 10 1 else x

  unfoldable pub weight_by_criterion : List Criterion → Dict Float
  unfolding collect
  weight_by_criterion criteria =
      let total_weight = or_one (floats.fsum (map (λ c. c.weight) criteria)) in
      collect (λ c. c.criterion_id) (λ c. floats.fdiv c.weight total_weight) criteria []

  -- the benefits of one strategy, each under its criterion's weight
  abbrev pub weighted : Dict Float → Dict Float → Dict Float
  weighted weights [] = []
  weighted weights ((criterion_id, benefit) ∷ rest) =
      (
        criterion_id,
        floats.fmul benefit (or_default (get criterion_id weights) (floats.literal 0 1)),
      )
      ∷ weighted weights rest

  unfoldable pub score : Dict Float → SolutionStrategy → String → NormalizedFactors → StrategyScore
  score weights strategy strategy_id factor =
      let criterion_scores = weighted weights factor.benefit_by_criterion in
      record {
        strategy_id = strategy_id;
        risk_tier = strategy.risk_ceiling;
        criterion_scores = criterion_scores;
        effort_score = factor.effort_score;
        reversibility_score = factor.reversibility_score;
        risk_penalty = factor.risk_penalty;
        total_score =
            floats.fsub
              (floats.fadd
                (floats.fadd
                  (floats.fmul (floats.literal 55 2)
                    (floats.fsum (map (λ e. e.1) criterion_scores)))
                  (floats.fmul (floats.literal 2 1) factor.effort_score))
                (floats.fmul (floats.literal 15 2) factor.reversibility_score))
              (floats.fmul (floats.literal 1 1) factor.risk_penalty);
      }

  unfoldable pub scores_of :
      Dict Float → List SolutionStrategy → Dict NormalizedFactors → Result (List StrategyScore)
  unfolding score
  scores_of weights strategies [] = ok []
  scores_of weights strategies ((strategy_id, factor) ∷ rest) =
      bind_result
        (or_raise (last_with (λ s. s.strategy_id) strategy_id strategies) (missing_key strategy_id))
        λ strategy.
          bind_result (scores_of weights strategies rest)
            λ scores. ok (score weights strategy strategy_id factor ∷ scores)

module _ {S : Type 0} (env : Outside) (store : ArtifactStore S) where
  unfoldable pub s01_20 : OptimizationState → Exec S NodeExecution
  unfolding read_required eligible_ids
  s01_20 state = read_required env store as_portfolio state "SolutionPortfolio" >>= λ portfolio.
      let ids = eligible_ids state.s01_excluded_strategy_ids portfolio.strategies in
      pure (record {
        route = if is_empty ids then NodeRoute.rejected else NodeRoute.continue;
        updates = Update.s01_eligible_strategy_ids ids ∷ [];
      })

  unfoldable pub s01_30 : OptimizationState → Exec S NodeExecution
  unfolding read_required normalized_factors
  s01_30 state = read_required env store as_portfolio state "SolutionPortfolio" >>= λ portfolio.
      pure (
        go_on (
          Update.s01_normalized_factors
            (normalized_factors env.floats state.s01_eligible_strategy_ids portfolio.strategies)
          ∷ []))

  unfoldable pub s01_40 : OptimizationState → Exec S NodeExecution
  unfolding read_required scores_of weight_by_criterion
  s01_40 state = read_required env store as_request state "OptimizationRequest" >>= λ request.
      (read_required env store as_portfolio state "SolutionPortfolio" >>= λ portfolio.
      (lift (
          scores_of env.floats (weight_by_criterion env.floats request.criteria)
            portfolio.strategies state.s01_normalized_factors)
        >>= λ scores. pure (go_on (Update.s01_scores scores ∷ []))))
