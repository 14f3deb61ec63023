-- ===== src/S01/Laws.antt =====
-- What the handlers of S01 guarantee (application/s01_handlers).
use agent_code_optimize_plug.Prelude.{
  String, Bool, true, some, List, [], ◌∷◌, ◌≡◌, ◌∙◌, refl, sym, ap, ◌==◌, ◌&&◌, ◌||◌, if◌then◌else◌,
  filter, map, All, contains, count, arith, eq_iff, last_with, is_some, Option-cases, inl, inr, any,
}
use agent_code_optimize_plug.Prelude.Dict.{Dict, put, collect}
use agent_code_optimize_plug.Contracts.Errors.{ok}
use agent_code_optimize_plug.Contracts.Request.{Float, FloatOps, Criterion}
use agent_code_optimize_plug.Contracts.Strategy.{SolutionStrategy, StrategyScore, NormalizedFactors}
use agent_code_optimize_plug.S01.Rank.{rank}
use agent_code_optimize_plug.S01.Rank.Laws.{IsFinite, rank-RanksOnce}
use agent_code_optimize_plug.S01.Score.{
  is_candidate, weight_by_criterion, eligible_ids, normalize, normalized_factors, score, scores_of,
}

-- the keys of a dictionary
abbrev keys {ℓ} : {V : Type ℓ} → Dict V → List String
keys d = map (λ e. e.0) d

abbrev name : SolutionStrategy → String
name s = s.strategy_id

contains-keys-put :
    {V : Type 0} (i k : String) (v : V) (d : Dict V)
    → contains i (keys (put k v d)) ≡ ((k == i) || contains i (keys d))
unfolding put
contains-keys-put i k v [] = ground (arith, eq_iff k i)
contains-keys-put i k v ((j, w) ∷ d) =
    ground (arith, eq_iff k i, eq_iff j k, eq_iff j i, contains-keys-put i k v d)

contains-keys-collect :
    {A V : Type 0} (key : A → String) (value : A → V) (i : String) (xs : List A) (d : Dict V)
    → contains i (keys (collect key value xs d)) ≡ (contains i (map key xs) || contains i (keys d))
unfolding collect
contains-keys-collect key value i [] d = refl
contains-keys-collect key value i (x ∷ xs) d =
    contains-keys-collect key value i xs (put (key x) (value x) d)
    ∙ ground (arith, contains-keys-put i (key x) (value x) d)

contains-map-filter :
    {A : Type 0} (key : A → String) (p : String → Bool) (i : String) (xs : List A)
    → contains i (map key (filter (λ x. p (key x)) xs)) ≡ (contains i (map key xs) && p i)
contains-map-filter key p i [] = refl
contains-map-filter key p i (x ∷ xs) =
    ground (arith, eq_iff (key x) i, contains-map-filter key p i xs)

-- A filter keeps only names that are there.
contains-map-filter_le :
    {A : Type 0} (key : A → String) (p : A → Bool) (i : String) (xs : List A)
    → contains i (map key (filter p xs)) ≡ true
    → contains i (map key xs) ≡ true
contains-map-filter_le key p i [] h = h
contains-map-filter_le key p i (x ∷ xs) h =
    ground (arith, eq_iff (key x) i, contains-map-filter_le key p i xs)

is_some-last_with :
    {A : Type 0} (key : A → String) (i : String) (xs : List A)
    → is_some (last_with key i xs) ≡ contains i (map key xs)
is_some-last_with key i [] = refl
is_some-last_with key i (x ∷ xs) = ground (arith, is_some-last_with key i xs)

last_with-known :
    {A : Type 0} (key : A → String) (i : String) (xs : List A)
    → contains i (map key xs) ≡ true
    → (x : A) × (last_with key i xs ≡ some x)
last_with-known key i xs known = elim (Option-cases (last_with key i xs)) [
  | inl missing ↦ cc (missing, is_some-last_with key i xs, known)
  | inr found ↦ found
]

-- The strategies that may be chosen: S01.20's test holds of one that has the name.
contains-eligible_ids-candidate :
    (excluded : List String) (i : String) (strategies : List SolutionStrategy)
    → contains i (eligible_ids excluded strategies)
      ≡ any (λ s. (s.strategy_id == i) && is_candidate excluded s) strategies
unfolding eligible_ids
contains-eligible_ids-candidate excluded i [] = refl
contains-eligible_ids-candidate excluded i (s ∷ rest) =
    ground (arith, contains-eligible_ids-candidate excluded i rest)

module _ (floats : FloatOps) where
  -- Every name of the factors is a strategy's, so no score is missing.
  scores_of-total :
      (weights : Dict Float) (strategies : List SolutionStrategy) (factors : Dict NormalizedFactors)
      → ((i : String) → contains i (keys factors) ≡ true → contains i (map name strategies) ≡ true)
      → (scores : List StrategyScore) × (scores_of floats weights strategies factors ≡ ok scores)
        × (map (λ s. s.strategy_id) scores ≡ keys factors)
  unfolding scores_of score
  scores_of-total weights strategies [] known = ([], refl, refl)
  scores_of-total weights strategies ((i, factor) ∷ rest) known =
      let (strategy, found) =
        last_with-known name i strategies (known i (ground (arith, eq_iff i i))) in
      let (scores, below, named) =
        scores_of-total weights strategies rest (λ j h. known j (ground arith)) in
      (
        score floats weights strategy i factor ∷ scores,
        rw (found, below) refl,
        ap (λ js. i ∷ js) named,
      )

  -- S01.30 normalizes exactly the eligible strategies.
  contains-normalized_factors :
      (excluded : List String) (strategies : List SolutionStrategy) (i : String)
      → contains i (keys (normalized_factors floats (eligible_ids excluded strategies) strategies))
        ≡ contains i (eligible_ids excluded strategies)
  unfolding normalized_factors eligible_ids
  contains-normalized_factors excluded strategies i =
      let eligible = eligible_ids excluded strategies in
      ground (
        arith,
        contains-keys-collect name (normalize floats) i
            (filter (λ s. contains s.strategy_id eligible) strategies) [],
        contains-map-filter name (λ j. contains j eligible) i strategies,
        contains-map-filter_le name (is_candidate excluded) i strategies,
      )

  -- S01.40 finds the strategy of every factor that S01.30 normalized: it never raises there.
  pub scores_of-normalized :
      (excluded : List String) (strategies : List SolutionStrategy) (criteria : List Criterion)
      → (scores : List StrategyScore) × (scores_of floats
            (weight_by_criterion floats criteria)
            strategies
            (normalized_factors floats (eligible_ids excluded strategies) strategies)
          ≡ ok scores)
        × ((i : String)
            → contains i (map (λ s. s.strategy_id) scores)
              ≡ any (λ s. (s.strategy_id == i) && is_candidate excluded s) strategies)
  unfolding normalized_factors eligible_ids
  scores_of-normalized excluded strategies criteria =
      let factors = normalized_factors floats (eligible_ids excluded strategies) strategies in
      let (scores, computed, named) =
        scores_of-total (weight_by_criterion floats criteria) strategies factors (λ i h.
          contains-map-filter_le name (is_candidate excluded) i strategies
            (sym (contains-normalized_factors excluded strategies i) ∙ h)) in
      (
        scores,
        computed,
        λ i.
            ap (contains i) named
            ∙ contains-normalized_factors excluded strategies i
            ∙ contains-eligible_ids-candidate excluded i strategies,
      )

  -- From the portfolio to the ranking, on finite total scores: S01.50 ranks once each name of a
  -- strategy that is eligible, reversible, fully resolved and not excluded by a revert, and no other.
  pub rank-candidates :
      (excluded : List String) (strategies : List SolutionStrategy) (criteria : List Criterion)
      (scores : List StrategyScore)
      → scores_of floats
          (weight_by_criterion floats criteria)
          strategies
          (normalized_factors floats (eligible_ids excluded strategies) strategies)
        ≡ ok scores
      → All (IsFinite floats) scores
      → (ids : List String) × (rank floats scores ≡ ok ids)
        × ((i : String)
            → count (λ j. j == i) ids ≡ (
                if any (λ s. (s.strategy_id == i) && is_candidate excluded s) strategies
                then 1
                else 0))
  rank-candidates excluded strategies criteria scores computed finite =
      let (scores', computed', named) = scores_of-normalized excluded strategies criteria in
      let (ids, ranked, once) = rank-RanksOnce floats scores finite in
      let same : scores ≡ scores' = cc (computed, computed') in
      (
        ids,
        ranked,
        λ i.
            once i
            ∙ ap (λ b. if b then 1 else 0)
                (ap (λ ss. contains i (map (λ s. s.strategy_id) ss)) same ∙ named i),
      )
