-- ===== src/S02/Gate/Laws.antt =====
-- What becomes of the answer of S02.10 (application/s02_handlers, orchestration/subgraphs/s02.py).
use agent_code_optimize_plug.Prelude.{◌≡◌}
use agent_code_optimize_plug.Contracts.Errors.{ok}
use agent_code_optimize_plug.State.{OptimizationState}
use agent_code_optimize_plug.Ports.Artifacts.{ArtifactStore}
use agent_code_optimize_plug.Runtime.Nodes.{NodeExecution}
use agent_code_optimize_plug.S02.Gate.{
  Outside, selected_solution_ref, scope_execution, as_selected, as_snapshot, strategy_by_id,
}
use agent_code_optimize_plug.S01.Shared.{read_model, read_required, as_portfolio}
use agent_code_optimize_plug.Contracts.Strategy.{
  SelectedSolution, SolutionPortfolio, SolutionStrategy,
}
use agent_code_optimize_plug.Contracts.Plan.{SourceSnapshot}
use agent_code_optimize_plug.Contracts.Refs.{ArtifactRef}

module _ {S : Type 0} (env : Outside S) (store : ArtifactStore S) (state : OptimizationState)
    (s : S) where
  -- what S02.10 reads, all of it at its start
  pub record ScopeRead : Type 0 where
    pub selected_ref : ArtifactRef
    pub selected : SelectedSolution
    pub portfolio : SolutionPortfolio
    pub snapshot : SourceSnapshot
    pub strategy : SolutionStrategy
    pub ref_is : selected_solution_ref state ≡ ok selected_ref
    pub selected_is : (read_model env.base store as_selected state selected_ref s).0 ≡ ok selected
    pub portfolio_is :
        (read_required env.base store as_portfolio state "SolutionPortfolio" s).0 ≡ ok portfolio
    pub snapshot_is :
        (read_required env.base store as_snapshot state "SourceSnapshot" s).0 ≡ ok snapshot
    pub strategy_is : strategy_by_id portfolio.strategies selected.strategy_id ≡ ok strategy

  -- the execution is the one for what the check of the scope says on what was read
  abbrev IsScopeCheck : NodeExecution → Type 0
  IsScopeCheck e =
      (read : ScopeRead) × (e ≡ scope_execution (env.scope_resolves read.snapshot read.strategy s))
