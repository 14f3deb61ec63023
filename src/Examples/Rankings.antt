-- ===== src/Examples/Rankings.antt =====
-- Rankings and approvals of S01 (application/s01_handlers).
use agent_code_optimize_plug.Prelude.{
  ℕ, ◌+◌, ◌-◌, ◌*◌, String, true, some, List, [], ◌∷◌, ◌≡◌, refl, arith, eqb, leb, ltb, contains,
  map, count, any, ◌==◌, ◌&&◌, if◌then◌else◌, sorted, sorted_insert,
}
use agent_code_optimize_plug.Prelude.Text.{text_le, decimal}
use agent_code_optimize_plug.Prelude.Dict.{collect, put, get}
use agent_code_optimize_plug.Contracts.Refs.{ArtifactRef}
use agent_code_optimize_plug.Contracts.Errors.{ok, err, outside}
use agent_code_optimize_plug.Contracts.Request.{Float, FloatOps, Criterion, minimize}
use agent_code_optimize_plug.Contracts.Strategy.{
  RiskTier, code, prompt, SolutionStrategy, StrategyScore, improves, low, pending, instant,
}
use agent_code_optimize_plug.State.{
  OptimizationState, Update, apply_updates, apply_update, merge_artifact_refs, merge_refs_from,
  put_ref, same_key, ref_le,
}
use agent_code_optimize_plug.Ports.Artifacts.{ArtifactStore}
use agent_code_optimize_plug.Runtime.Nodes.{NodeRoute, go_on}
use agent_code_optimize_plug.S01.Shared.{
  Outside, require_ref, require_stage_ref, s01_pass_number, seal, put_envelope,
}
use agent_code_optimize_plug.S01.Rank.{rank, rank_loop}
use agent_code_optimize_plug.S01.Rank.Laws.{RanksOnce, rank-RanksOnce}
use agent_code_optimize_plug.S01.Rank.First.{FloatOrder, IsFirst, rank-IsFirst}
use agent_code_optimize_plug.S01.Score.{
  is_candidate, eligible_ids, normalized_factors, weight_by_criterion, scores_of, score,
}
use agent_code_optimize_plug.S01.Laws.{scores_of-normalized, rank-candidates}
use agent_code_optimize_plug.S01.Seal.{
  s01_80_routed, s01_80_for, s01_80_resumed, s01_80_halt, halt_execution, halt_interrupt,
  unattended, s01_90, s01_90_for, seal_selected, selection_content,
}
use agent_code_optimize_plug.S01.Approval.{IsHalted, s01_80-pending}
use agent_code_optimize_plug.Examples.Base.{empty_state}

-- floats as natural numbers, a hundredth each
abbrev pub floats : FloatOps
floats = record {
  fle = λ a b. leb a.bits b.bits;
  flt = λ a b. ltb a.bits b.bits;
  feq = λ a b. eqb a.bits b.bits;
  fadd = λ a b. record { bits = a.bits + b.bits };
  fsub = λ a b. record { bits = a.bits - b.bits };
  fmul = λ a b. record { bits = a.bits * b.bits };
  fdiv = λ a b. a;
  fabs = λ a. a;
  of_ℕ = λ n. record { bits = n };
  nan = record { bits = 0 };
  fsum = sum;
  literal = λ n k. record { bits = n };
}
  where
    sum : List Float → Float
    sum [] = record { bits = 0 }
    sum (x ∷ xs) = record { bits = x.bits + (sum xs).bits }

abbrev scored : String → RiskTier → ℕ → StrategyScore
scored strategy_id tier total = record {
  strategy_id = strategy_id;
  risk_tier = tier;
  criterion_scores = [];
  effort_score = record { bits = 0 };
  reversibility_score = record { bits = 0 };
  risk_penalty = record { bits = 0 };
  total_score = record { bits = total };
}

-- the best two scores tie, and the riskier of them is the higher
abbrev scores : List StrategyScore
scores = scored "low" prompt 40 ∷ scored "risky" code 70 ∷ scored "safe" prompt 66 ∷ []

ranked : rank floats scores ≡ ok ("safe" ∷ "risky" ∷ "low" ∷ [])
unfolding rank rank_loop sorted sorted_insert
ranked = refl

rank-RanksOnce_example : (ids : List String) × (rank floats scores ≡ ok ids) × RanksOnce scores ids
rank-RanksOnce_example = rank-RanksOnce floats scores (refl, (refl, (refl, tt)))

numbers : FloatOrder floats
numbers = record {
  asymmetric = λ a b h. ground arith;
  transitive = λ a b c number h k. ground arith;
}

rank-IsFirst_example :
    (winner : StrategyScore) × ("safe" ≡ winner.strategy_id) × IsFirst floats scores winner
rank-IsFirst_example =
    rank-IsFirst floats numbers scores "safe" ("risky" ∷ "low" ∷ []) (refl, (refl, (refl, tt)))
      ranked

abbrev strategy : String → SolutionStrategy
strategy strategy_id = record {
  strategy_id = strategy_id;
  risk_ceiling = code;
  eligible = true;
  reversible = true;
  fully_resolved = true;
  effort = low;
  reversibility = instant;
  uncertainty = record { bits = 1 };
  criterion_impacts =
      record { criterion_id = "c1"; direction = improves; confidence = record { bits = 9 } } ∷ [];
}

abbrev criteria : List Criterion
criteria =
    record {
      criterion_id = "c1";
      metric_id = "latency";
      direction = minimize;
      target_value = record { bits = 80 };
      weight = record { bits = 2 };
    }
    ∷ []

abbrev strategies : List SolutionStrategy
strategies = strategy "s1" ∷ strategy "s2" ∷ []

scores_of-normalized_example :
    (found : List StrategyScore) × (scores_of floats
        (weight_by_criterion floats criteria)
        strategies
        (normalized_factors floats (eligible_ids ("s1" ∷ []) strategies) strategies)
      ≡ ok found)
    × ((i : String)
        → contains i (map (λ s. s.strategy_id) found)
          ≡ any (λ s. (s.strategy_id == i) && is_candidate ("s1" ∷ []) s) strategies)
scores_of-normalized_example = scores_of-normalized floats ("s1" ∷ []) strategies criteria

abbrev found : List StrategyScore
found =
    record {
      strategy_id = "s2";
      risk_tier = code;
      criterion_scores = ("c1", record { bits = 18 }) ∷ [];
      effort_score = record { bits = 10 };
      reversibility_score = record { bits = 10 };
      risk_penalty = record { bits = 1 };
      total_score = record { bits = 1159 };
    }
    ∷ []

computed :
    scores_of floats
      (weight_by_criterion floats criteria)
      strategies
      (normalized_factors floats (eligible_ids ("s1" ∷ []) strategies) strategies)
    ≡ ok found
unfolding scores_of weight_by_criterion normalized_factors eligible_ids score collect put get
computed = refl

rank-candidates_example :
    (ids : List String) × (rank floats found ≡ ok ids)
    × ((i : String)
        → count (λ j. j == i) ids ≡ (
            if any (λ s. (s.strategy_id == i) && is_candidate ("s1" ∷ []) s) strategies
            then 1
            else 0))
rank-candidates_example =
    rank-candidates floats ("s1" ∷ []) strategies criteria found computed (refl, tt)

abbrev env : Outside
env = record {
  canonical = record { encode = λ a. "c"; decode = λ t. err (outside "empty"); digest = λ a. "d" };
  floats = floats;
  now = 30;
  repr = λ t. t;
  fixed2 = λ f. "0.10";
}

abbrev ranking_ref : ArtifactRef
ranking_ref = record {
  artifact_type = "RankingResult";
  schema_version = "1.0";
  artifact_id = "case-S01.80-pass0-RankingResult";
  content_digest = "d-ranking";
  uri = "store:ranking";
}

abbrev store : ArtifactStore ℕ
store = record {
  put_json = λ tenant content digest key s. (ok ranking_ref, s + 1);
  read = λ tenant ref s. ok "c";
}

abbrev selected_ref : ArtifactRef
selected_ref = record {
  artifact_type = "SelectedSolution";
  schema_version = "1.0";
  artifact_id = "case-S01.90-pass0-SelectedSolution";
  content_digest = "d";
  uri = "store:ranking";
}

abbrev portfolio_ref : ArtifactRef
portfolio_ref = record {
  artifact_type = "SolutionPortfolio";
  schema_version = "1.0";
  artifact_id = "case-SolutionPortfolio";
  content_digest = "d-portfolio";
  uri = "store:portfolio";
}

-- a risky winner that nobody has approved
abbrev routed : OptimizationState
routed = record empty_state {
  artifact_refs = portfolio_ref ∷ [];
  s01_routing_decision =
      some (record { needs_approval = true; reasons = "risk" ∷ []; winner_strategy_id = "s2" });
}

abbrev halted : OptimizationState
halted = record routed {
  artifact_refs = ranking_ref ∷ portfolio_ref ∷ [];
  pending_interrupt = some (halt_interrupt env ranking_ref "case" "thread");
  s01_approval = some (unattended env pending);
}

halts : s01_80_routed env routed ranking_ref ≡ ok (halt_execution env ranking_ref "case" "thread")
unfolding s01_80_routed s01_80_for s01_80_resumed s01_80_halt
halts = refl

merges :
    apply_updates text_le routed (halt_execution env ranking_ref "case" "thread").updates
    ≡ ok halted
unfolding apply_updates apply_update merge_artifact_refs merge_refs_from put_ref same_key sorted
    ref_le text_le
merges = refl

selects : (s01_90 env store halted 0).0 ≡ ok (go_on (Update.artifact_refs (selected_ref ∷ []) ∷ []))
unfolding s01_90 s01_90_for seal_selected selection_content require_ref require_stage_ref
    s01_pass_number seal put_envelope decimal
selects = refl

s01_80-pending_example :
    (NodeRoute.continue ≡ NodeRoute.continue)
    × IsHalted ranking_ref halted
    × (NodeRoute.continue ≡ NodeRoute.continue)
s01_80-pending_example =
    s01_80-pending env text_le store routed halted ranking_ref
      (halt_execution env ranking_ref "case" "thread")
      (go_on (Update.artifact_refs (selected_ref ∷ []) ∷ [])) 0 refl refl halts merges selects
