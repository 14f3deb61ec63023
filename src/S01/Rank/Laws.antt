-- ===== src/S01/Rank/Laws.antt =====
-- What `_rank` of application/s01_handlers/shared.py returns.
use agent_code_optimize_plug.Prelude.{
  ℕ, zero, suc, ◌≤◌, String, true, List, [], ◌∷◌, ◌≡◌, ◌∙◌, refl, ap, not, ◌==◌, if◌then◌else◌, ltb,
  filter, length, sorted, map, All, contains, count, arith, eq_iff, All-filter, All-sorted,
  contains-sorted, contains-without, length-without, length-sorted, Bool-cases, inl, inr, All-map,
}
use agent_code_optimize_plug.Contracts.Errors.{ok}
use agent_code_optimize_plug.Contracts.Request.{FloatOps}
use agent_code_optimize_plug.Contracts.Strategy.{StrategyScore}
use agent_code_optimize_plug.S01.Rank.{min_by, tier, without, not_below, is_tied, rank_loop, rank}

abbrev id_of : StrategyScore → String
id_of s = s.strategy_id

-- The choice of `min` is one of the elements.
pub All-min_by :
    (P : StrategyScore → Type 0) (f : StrategyScore → ℕ) (x : StrategyScore)
    (xs : List StrategyScore)
    → P x
    → All P xs
    → P (min_by f x xs)
All-min_by P f x [] px h = px
All-min_by P f x (y ∷ ys) px h = elim (Bool-cases (ltb (f y) (f x))) [
  | inl e ↦ rw e (All-min_by P f y ys h.0 h.1)
  | inr e ↦ rw e (All-min_by P f x ys px h.1)
]

-- each name of the scores stands once in the ranking, and nothing else does
abbrev pub RanksOnce : List StrategyScore → List String → Type 0
RanksOnce scores ids =
    (i : String)
    → count (λ j. j == i) ids ≡ (if contains i (map (λ s. s.strategy_id) scores) then 1 else 0)

module _ (floats : FloatOps) where
  -- the score ties with itself: it is a finite number
  abbrev pub IsFinite : StrategyScore → Type 0
  IsFinite s = is_tied floats s.total_score s ≡ true

  ids-contains :
      (scores : List StrategyScore)
      → All (λ s. contains s.strategy_id (map id_of scores) ≡ true) scores
  ids-contains [] = tt
  ids-contains (s ∷ rest) = (
    ground (arith, eq_iff s.strategy_id s.strategy_id),
    All-map (λ t. contains t.strategy_id (map id_of rest) ≡ true)
        (λ t. contains t.strategy_id (map id_of (s ∷ rest)) ≡ true) rest (λ t h. ground arith)
        (ids-contains rest),
  )

  RanksOnce-cons :
      (scores : List StrategyScore) (i : String) (ids : List String)
      → contains i (map id_of scores) ≡ true
      → RanksOnce (without i scores) ids
      → RanksOnce scores (i ∷ ids)
  RanksOnce-cons scores i ids known once j =
      ground (arith, eq_iff i j, contains-without id_of i j scores, once j)

  rank_loop-ranks :
      (fuel : ℕ) (scores : List StrategyScore)
      → length scores ≤ fuel
      → All IsFinite scores
      → (ids : List String) × (rank_loop floats fuel scores ≡ ok ids) × RanksOnce scores ids
  unfolding rank_loop
  rank_loop-ranks fuel [] enough finite = ([], refl, λ i. refl)
  rank_loop-ranks zero (s ∷ rest) enough finite = absurd (omega arith)
  rank_loop-ranks (suc fuel) (s ∷ rest) enough finite =
      let tied = filter (is_tied floats s.total_score) rest in
      let winner = min_by tier s tied in
      let listed = ids-contains (s ∷ rest) in
      let known : contains winner.strategy_id (map id_of (s ∷ rest)) ≡ true =
        All-min_by (λ t. contains t.strategy_id (map id_of (s ∷ rest)) ≡ true) tier s tied listed.0
          (All-map _ _ tied (λ t h. h.0)
            (All-filter _ (is_tied floats s.total_score) rest listed.1)) in
      let (ids, ran, once) =
        rank_loop-ranks fuel (without winner.strategy_id (s ∷ rest))
          (omega (arith, length-without id_of winner.strategy_id (s ∷ rest) known))
          (All-map _ _ (without winner.strategy_id (s ∷ rest)) (λ t h. h.0)
            (All-filter _ (λ t. not (t.strategy_id == winner.strategy_id)) (s ∷ rest) finite)) in
      (
        winner.strategy_id ∷ ids,
        rw (finite.0, ran) refl,
        RanksOnce-cons (s ∷ rest) winner.strategy_id ids known once,
      )

  -- On scores that are finite numbers the ranking ends, whatever ties there are: it lists every
  -- strategy that has a score once, and no other.
  pub rank-RanksOnce :
      (scores : List StrategyScore)
      → All IsFinite scores
      → (ids : List String) × (rank floats scores ≡ ok ids) × RanksOnce scores ids
  unfolding rank
  rank-RanksOnce scores finite =
      let in_order = sorted (not_below floats) scores in
      let (ids, ran, once) =
        rank_loop-ranks (length scores) in_order
          (omega (arith, length-sorted (not_below floats) scores))
          (All-sorted IsFinite (not_below floats) scores finite) in
      (
        ids,
        ran,
        λ i.
            once i
            ∙ ap (λ b. if b then 1 else 0) (contains-sorted id_of (not_below floats) i scores),
      )
