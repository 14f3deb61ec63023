-- ===== src/S01/Rank/First.antt =====
-- Which strategy `_rank` of application/s01_handlers/shared.py puts first.
use agent_code_optimize_plug.Prelude.{
  ℕ, zero, suc, ◌≤◌, String, Bool, true, false, List, [], ◌∷◌, ◌≡◌, ◌∙◌, refl, sym, ap, subst,
  if◌then◌else◌, ltb, filter, length, sorted, sorted_insert, All, arith, All-of_mem, All-filter,
  All-sorted, All-sorted_insert, Memᴰ, ltb→lt, All-of_sorted, mem-sorted, Bool-cases, inl, inr,
  All-map,
}
use agent_code_optimize_plug.Contracts.Errors.{Result, ok, err, bind_result, bind_result-eq_ok}
use agent_code_optimize_plug.Contracts.Request.{Float, FloatOps}
use agent_code_optimize_plug.Contracts.Strategy.{StrategyScore}
use agent_code_optimize_plug.S01.Rank.{
  min_by, tier, without, not_below, is_tied, pick, rank_loop, rank,
}
use agent_code_optimize_plug.S01.Rank.Laws.{All-min_by}

module _ (floats : FloatOps) where
  -- What IEEE comparisons satisfy on numbers, a NaN being equal to nothing.
  pub record FloatOrder : Type 0 where
    pub asymmetric : (a b : Float) → floats.flt a b ≡ true → floats.flt b a ≡ false
    pub transitive :
        (a b c : Float)
        → floats.feq b b ≡ true
        → floats.flt a b ≡ false
        → floats.flt b c ≡ false
        → floats.flt a c ≡ false

  abbrev pub IsNumber : StrategyScore → Type 0
  IsNumber s = floats.feq s.total_score s.total_score ≡ true

  -- No score of the list is above `top`'s.
  abbrev pub IsTop : StrategyScore → List StrategyScore → Type 0
  IsTop top scores = All (λ s. floats.flt top.total_score s.total_score ≡ false) scores

  -- the first of a list is at the top of it
  abbrev IsHeaded : List StrategyScore → Type 0
  IsHeaded [] = Unit
  IsHeaded (s ∷ rest) = IsTop s rest

  sorted_insert-IsHeaded :
      FloatOrder
      → (x : StrategyScore) (xs : List StrategyScore) → All IsNumber (x ∷ xs)
      → IsHeaded xs
      → IsHeaded (sorted_insert (not_below floats) x xs)
  unfolding sorted_insert
  sorted_insert-IsHeaded order x [] number h = tt
  sorted_insert-IsHeaded order x (y ∷ ys) number h =
      elim (Bool-cases (floats.flt x.total_score y.total_score)) [
        | inl e ↦ rw e (
            All-sorted_insert (λ s. floats.flt y.total_score s.total_score ≡ false)
              (not_below floats) x ys (order.asymmetric x.total_score y.total_score e) h)
        | inr e ↦ rw e (
          e,
          All-map (λ s. floats.flt y.total_score s.total_score ≡ false)
              (λ s. floats.flt x.total_score s.total_score ≡ false) ys
              (λ s. order.transitive x.total_score y.total_score s.total_score number.1.0 e) h,
        )
      ]

  min_by-le_first :
      (f : StrategyScore → ℕ) (x : StrategyScore) (xs : List StrategyScore)
      → f (min_by f x xs) ≤ f x
  min_by-le_first f x [] = omega arith
  min_by-le_first f x (y ∷ ys) = elim (Bool-cases (ltb (f y) (f x))) [
    | inl e ↦ rw e (omega (arith, min_by-le_first f y ys, ltb→lt (f y) (f x) e))
    | inr e ↦ rw e (min_by-le_first f x ys)
  ]

  min_by-le :
      (f : StrategyScore → ℕ) (x s : StrategyScore) (xs : List StrategyScore)
      → Memᴰ s xs
      → f (min_by f x xs) ≤ f s
  min_by-le f x s [] m = elim m [ ]
  min_by-le f x s (y ∷ ys) (Memᴰ.tail m) = min_by-le f (if ltb (f y) (f x) then y else x) s ys m
  min_by-le f x s (y ∷ ys) (Memᴰ.head here) = elim (Bool-cases (ltb (f y) (f x))) [
    | inl e ↦ rw (e, here) (min_by-le_first f y ys)
    | inr e ↦ rw (e, here) (ground (arith, min_by-le_first f x ys))
  ]

  sorted-IsHeaded :
      FloatOrder
      → (scores : List StrategyScore) → All IsNumber scores
      → IsHeaded (sorted (not_below floats) scores)
  unfolding sorted
  sorted-IsHeaded order [] number = tt
  sorted-IsHeaded order (x ∷ xs) number =
      sorted_insert-IsHeaded order x (sorted (not_below floats) xs)
        (number.0, All-sorted IsNumber (not_below floats) xs number.1)
        (sorted-IsHeaded order xs number.1)

  -- what makes `winner` the first of the ranking of `scores`
  pub record IsFirst (scores : List StrategyScore) (winner : StrategyScore) : Type 0 where
    pub top : StrategyScore
    pub top_in : Memᴰ top scores
    pub winner_in : Memᴰ winner scores
    pub is_top : All (λ s. floats.flt top.total_score s.total_score ≡ false) scores
    pub tied : is_tied floats top.total_score winner ≡ true
    pub least : All (λ s. is_tied floats top.total_score s ≡ true → tier winner ≤ tier s) scores

  least_of :
      (f : StrategyScore → ℕ) (x t : StrategyScore) (xs : List StrategyScore) (w : StrategyScore)
      → w ≡ min_by f x xs
      → Memᴰ t (x ∷ xs)
      → f w ≤ f t
  least_of f x t xs w e (Memᴰ.head here) = rw (e, here) (min_by-le_first f x xs)
  least_of f x t xs w e (Memᴰ.tail m) = rw e (min_by-le f x t xs m)

  mem-filter :
      (p : StrategyScore → Bool) (s : StrategyScore) (xs : List StrategyScore)
      → Memᴰ s xs
      → p s ≡ true
      → Memᴰ s (filter p xs)
  mem-filter p s [] m holds = elim m [ ]
  mem-filter p s (y ∷ ys) (Memᴰ.head here) holds = rw (sym (ap p here) ∙ holds) (Memᴰ.head here)
  mem-filter p s (y ∷ ys) (Memᴰ.tail m) holds = elim (Bool-cases (p y)) [
    | inl e ↦ rw e (Memᴰ.tail (mem-filter p s ys m holds))
    | inr e ↦ rw e (mem-filter p s ys m holds)
  ]

  pick-eq_ok :
      (candidates : List StrategyScore) {winner : StrategyScore}
      → pick floats candidates ≡ ok winner
      → (x : StrategyScore) × (tied : List StrategyScore) × (candidates ≡ x ∷ tied)
        × (winner ≡ min_by tier x tied)
  pick-eq_ok [] h = cc
  pick-eq_ok (x ∷ tied) h = (x, tied, refl, cc)

  first_of_round :
      (rounds : Result (List String)) {i first : String} {others : List String}
      → bind_result rounds (λ rest. ok (i ∷ rest)) ≡ ok (first ∷ others)
      → first ≡ i
  first_of_round (ok rest) h = cc
  first_of_round (err e) h = cc

  -- The first round of the loop.
  rank_loop-first :
      (fuel : ℕ) (s : StrategyScore) (rest : List StrategyScore) {first : String}
      {others : List String}
      → rank_loop floats fuel (s ∷ rest) ≡ ok (first ∷ others)
      → (winner : StrategyScore) × (first ≡ winner.strategy_id)
        × (pick floats (filter (is_tied floats s.total_score) (s ∷ rest)) ≡ ok winner)
  unfolding rank_loop
  rank_loop-first zero s rest h = cc
  rank_loop-first (suc fuel) s rest h =
      let (winner, picked, h') = bind_result-eq_ok _ _ h in
      (
        winner,
        first_of_round (rank_loop floats fuel (without winner.strategy_id (s ∷ rest))) h',
        picked,
      )

  -- The first of a list in order wins its round.
  winner-IsFirst :
      (s : StrategyScore) (rest : List StrategyScore) (winner : StrategyScore)
      → IsTop s (s ∷ rest)
      → pick floats (filter (is_tied floats s.total_score) (s ∷ rest)) ≡ ok winner
      → IsFirst (s ∷ rest) winner
  winner-IsFirst s rest winner at_top picked =
      let (x, tied, listed, chosen) = pick-eq_ok _ picked in
      let kept : All (λ t. Memᴰ t (s ∷ rest) × (is_tied floats s.total_score t ≡ true)) (x ∷ tied) =
        subst (All (λ t. Memᴰ t (s ∷ rest) × (is_tied floats s.total_score t ≡ true))) listed (
          All-filter (λ t. Memᴰ t (s ∷ rest)) (is_tied floats s.total_score) (s ∷ rest)
            (All-of_mem (λ t. Memᴰ t (s ∷ rest)) (s ∷ rest) (λ t m. m))) in
      let won : Memᴰ winner (s ∷ rest) × (is_tied floats s.total_score winner ≡ true) =
        subst (λ t. Memᴰ t (s ∷ rest) × (is_tied floats s.total_score t ≡ true)) (sym chosen)
          (All-min_by (λ t. Memᴰ t (s ∷ rest) × (is_tied floats s.total_score t ≡ true)) tier x tied
            kept.0 kept.1) in
      record {
        top = s;
        top_in = Memᴰ.head refl;
        winner_in = won.0;
        is_top = at_top;
        tied = won.1;
        least = All-of_mem _ (s ∷ rest) (λ t m ties. least_of tier x t tied winner chosen (
            subst (Memᴰ t) listed (mem-filter (is_tied floats s.total_score) t (s ∷ rest) m ties)));
      }

  below_self : FloatOrder → (a : Float) → floats.flt a a ≡ false
  below_self order a = elim (Bool-cases (floats.flt a a)) [
    | inl e ↦ order.asymmetric a a e
    | inr e ↦ e
  ]

  rank_loop-IsFirst :
      FloatOrder
      → (fuel : ℕ) (in_order : List StrategyScore) (first : String) (others : List String)
      → IsHeaded in_order
      → rank_loop floats fuel in_order ≡ ok (first ∷ others)
      → (winner : StrategyScore) × (first ≡ winner.strategy_id) × IsFirst in_order winner
  unfolding rank_loop
  rank_loop-IsFirst order fuel [] first others headed h = cc
  rank_loop-IsFirst order fuel (s ∷ rest) first others headed h =
      let (winner, named, picked) = rank_loop-first fuel s rest h in
      (winner, named, winner-IsFirst s rest winner (below_self order s.total_score, headed) picked)

  -- The first of a ranking is a strategy within the tie margin of the highest score, and no strategy
  -- within that margin has a lower risk tier, where the scores are numbers that compare as IEEE says.
  pub rank-IsFirst :
      FloatOrder
      → (scores : List StrategyScore) (first : String) (others : List String) → All IsNumber scores
      → rank floats scores ≡ ok (first ∷ others)
      → (winner : StrategyScore) × (first ≡ winner.strategy_id) × IsFirst scores winner
  unfolding rank
  rank-IsFirst order scores first others number h =
      let below = not_below floats in
      let (winner, named, is_first) =
        rank_loop-IsFirst order (length scores) (sorted below scores) first others
          (sorted-IsHeaded order scores number) h in
      (
        winner,
        named,
        record {
          top = is_first.top;
          top_in = mem-sorted below is_first.top scores is_first.top_in;
          winner_in = mem-sorted below winner scores is_first.winner_in;
          is_top = All-of_sorted _ below scores is_first.is_top;
          tied = is_first.tied;
          least = All-of_sorted _ below scores is_first.least;
        },
      )
