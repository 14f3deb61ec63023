-- ===== src/S01/Rank.antt =====
-- `_rank` and `_perturb_score` of application/s01_handlers/shared.py.
pub mod Laws
pub mod First
use agent_code_optimize_plug.Prelude.{
  ℕ, zero, suc, String, Bool, Option, none, some, List, [], ◌∷◌, not, ◌==◌, if◌then◌else◌, ltb,
  filter, length, sorted,
}
use agent_code_optimize_plug.Prelude.Dict.{get}
use agent_code_optimize_plug.Contracts.Errors.{
  Result, ok, err, bind_result, empty_sequence, outside,
}
use agent_code_optimize_plug.Contracts.Request.{Float, FloatOps}
use agent_code_optimize_plug.Contracts.Strategy.{StrategyScore}
use agent_code_optimize_plug.S01.Shared.{risk_order, tie_margin}

-- `min(xs, key=f)`: the first of the least
abbrev pub min_by {ℓ} : {A : Type ℓ} → (A → ℕ) → A → List A → A
min_by f x [] = x
min_by f x (y ∷ ys) = min_by f (if ltb (f y) (f x) then y else x) ys

abbrev pub tier : StrategyScore → ℕ
tier s = risk_order s.risk_tier

abbrev pub without : String → List StrategyScore → List StrategyScore
without strategy_id scores = filter (λ s. not (s.strategy_id == strategy_id)) scores

module _ (floats : FloatOps) where
  -- the order of `sorted(..., key=total_score, reverse=True)`, which keeps the order of equal scores
  abbrev pub not_below : StrategyScore → StrategyScore → Bool
  not_below a b = not (floats.flt a.total_score b.total_score)

  -- the tie test of a round, against the round's top score
  abbrev pub is_tied : Float → StrategyScore → Bool
  is_tied top s = floats.fle (floats.fsub top s.total_score) (tie_margin floats)

  -- the winner of a round, where any score ties
  abbrev pub pick : List StrategyScore → Result StrategyScore
  pick [] = err empty_sequence
  pick (s ∷ tied) = ok (min_by tier s tied)

  -- the loop, on fuel: each round removes one strategy at least
  unfoldable pub rank_loop : ℕ → List StrategyScore → Result (List String)
  rank_loop fuel [] = ok []
  rank_loop zero (s ∷ remaining) = err (outside "out of fuel")
  rank_loop (suc fuel) (s ∷ remaining) =
      bind_result (pick (filter (is_tied s.total_score) (s ∷ remaining))) λ winner.
        bind_result (rank_loop fuel (without winner.strategy_id (s ∷ remaining)))
          λ rest. ok (winner.strategy_id ∷ rest)

  unfoldable pub rank : List StrategyScore → Result (List String)
  unfolding rank_loop
  rank scores = rank_loop (length scores) (sorted not_below scores)

  unfoldable pub perturbed : Option Float → Float → StrategyScore → StrategyScore
  perturbed none multiplier score = score
  perturbed (some contribution) multiplier score = record score {
    total_score =
        floats.fadd score.total_score
          (floats.fmul contribution (floats.fsub multiplier (floats.literal 10 1)));
  }

  unfoldable pub perturb_score : StrategyScore → String → Float → StrategyScore
  unfolding perturbed
  perturb_score score criterion_id multiplier =
      perturbed (get criterion_id score.criterion_scores) multiplier score
