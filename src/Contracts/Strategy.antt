-- ===== src/Contracts/Strategy.antt =====
-- The solution portfolio (contracts/a3.py) and the models of S01 (contracts/s01.py).
use agent_code_optimize_plug.Prelude.{String, Bool, List, Option}
use agent_code_optimize_plug.Prelude.Dict.{Dict}
use agent_code_optimize_plug.Contracts.Request.{Float}

pub data RiskTier : Type 0 where
  experiment_config prompt code architecture : RiskTier

pub data Effort : Type 0 where
  low medium high : Effort

pub data Reversibility : Type 0 where
  instant fast slow irreversible : Reversibility

pub data ImpactDirection : Type 0 where
  improves worsens neutral unknown : ImpactDirection

pub record CriterionImpact : Type 0 where
  pub criterion_id : String
  pub direction : ImpactDirection
  pub confidence : Float

-- `reversible` is `rollback_plan.reversible`, `fully_resolved` is `scope_resolution.fully_resolved`,
-- `effort` is `tradeoff_analysis.effort`; the rest is of the risk and impact assessments.
pub record SolutionStrategy : Type 0 where
  pub strategy_id : String
  pub risk_ceiling : RiskTier
  pub eligible : Bool
  pub reversible : Bool
  pub fully_resolved : Bool
  pub effort : Effort
  pub reversibility : Reversibility
  pub uncertainty : Float
  pub criterion_impacts : List CriterionImpact

pub record SolutionPortfolio : Type 0 where
  pub strategies : List SolutionStrategy

pub record StrategyScore : Type 0 where
  pub strategy_id : String
  pub risk_tier : RiskTier
  pub criterion_scores : Dict Float
  pub effort_score : Float
  pub reversibility_score : Float
  pub risk_penalty : Float
  pub total_score : Float

-- one entry of `s01_normalized_factors`
pub record NormalizedFactors : Type 0 where
  pub benefit_by_criterion : Dict Float
  pub effort_score : Float
  pub reversibility_score : Float
  pub risk_penalty : Float

pub data ApprovalDecision : Type 0 where
  auto_selected approved rejected pending : ApprovalDecision

pub record SelectionApproval : Type 0 where
  pub decision : ApprovalDecision
  pub actor_id : Option String
  pub actor_role : Option String
  pub policy_version : String

-- `s01_routing_decision`
pub record RoutingDecision : Type 0 where
  pub needs_approval : Bool
  pub reasons : List String
  pub winner_strategy_id : String

-- `s01_decision_context`
pub record DecisionContext : Type 0 where
  pub solution_portfolio_digest : String
  pub request_digest : String
  pub excluded_strategy_ids : List String
  pub policy_version : String

pub record RankingResult : Type 0 where
  pub solution_portfolio_digest : String
  pub scores : List StrategyScore
  pub ranked_strategy_ids : List String
  pub sensitivity_flags : List String

pub record SelectedSolution : Type 0 where
  pub ranking_result_digest : String
  pub solution_portfolio_digest : String
  pub strategy_id : String
  pub approval : SelectionApproval
  pub excluded_strategy_ids : List String
