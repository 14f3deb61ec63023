-- ===== src/S06/Decide/Laws.antt =====
-- When a phase is kept, fixed or reverted (application/s06_handlers.py).
use agent_code_optimize_plug.Prelude.{
  ◌<◌, Bool, true, Option, some, List, [], ◌∷◌, ◌≡◌, ◌≢◌, ◌↔◌, refl, length, count, all, arith,
  count-le-length, Bool-cases, inl, inr,
}
use agent_code_optimize_plug.Contracts.Decide.{
  TargetEvaluation, GuardrailEvaluation, Classification, all_targets_met, repairable,
  wrong_direction, no_evidence, Outcome, keep, fix_one_part, revert, escalate, RollbackState,
}
use agent_code_optimize_plug.S06.Decide.{classify, decide, outcome_of, gate_revert, verified_of}

-- The outcome that S06.40, S06.50 and S06.70 come to, from the evaluations and the rollback.
unfoldable pub outcome_after :
    List TargetEvaluation → List GuardrailEvaluation → Option RollbackState → Option Outcome
unfolding classify decide gate_revert
outcome_after targets guardrails rollback =
    gate_revert
      (some
        (decide guardrails (some (record { phase_id = ""; classification = classify targets }))))
      rollback

count-all :
    (p : TargetEvaluation → Bool) (xs : List TargetEvaluation)
    → count p xs ≡ length xs
    → all p xs ≡ true
count-all p [] h = refl
count-all p (x ∷ xs) h = ground (arith, count-all p xs, count-le-length p xs)

all-count :
    (p : TargetEvaluation → Bool) (xs : List TargetEvaluation)
    → all p xs ≡ true
    → count p xs ≡ length xs
all-count p [] h = refl
all-count p (x ∷ xs) h = ground (arith, all-count p xs)

classify-met_iff :
    (xs : List TargetEvaluation)
    → (classify xs ≡ all_targets_met) ↔ ((0 < length xs) × (all (λ e. e.met) xs ≡ true))
unfolding classify
classify-met_iff xs = (
  λ h. (ground arith, ground (arith, count-all (λ e. e.met) xs)),
  λ h. ground (arith, all-count (λ e. e.met) xs h.1),
)

classify-repairable_iff :
    (xs : List TargetEvaluation)
    → (classify xs ≡ repairable)
      ↔ ((0 < count (λ e. e.met) xs) × (count (λ e. e.met) xs < length xs))
unfolding classify
classify-repairable_iff xs =
    (λ h. (ground arith, ground (arith, count-le-length (λ e. e.met) xs)), λ h. ground arith)

outcome_of-keep : (c : Classification) → outcome_of (some c) ≡ keep → c ≡ all_targets_met
unfolding outcome_of
outcome_of-keep all_targets_met h = refl
outcome_of-keep repairable h = absurd cc
outcome_of-keep wrong_direction h = absurd cc
outcome_of-keep no_evidence h = absurd cc

outcome_of-fix : (c : Classification) → outcome_of (some c) ≡ fix_one_part → c ≡ repairable
unfolding outcome_of
outcome_of-fix repairable h = refl
outcome_of-fix all_targets_met h = absurd cc
outcome_of-fix wrong_direction h = absurd cc
outcome_of-fix no_evidence h = absurd cc

-- the gate changes nothing but a revert, and lets only a verified one pass
gate-passes :
    (o : Outcome) (rollback : Option RollbackState) (o' : Outcome)
    → gate_revert (some o) rollback ≡ some o'
    → o' ≢ escalate
    → (o ≡ o') × (o ≡ revert → verified_of rollback ≡ true)
unfolding gate_revert
gate-passes keep rollback o' h ne = (cc, λ e. absurd cc)
gate-passes fix_one_part rollback o' h ne = (cc, λ e. absurd cc)
gate-passes escalate rollback o' h ne = (cc, λ e. absurd cc)
gate-passes revert rollback o' h ne = elim (Bool-cases (verified_of rollback)) [
  | inl verified ↦ (ground (arith, h, verified), λ _. verified)
  | inr not_verified ↦ absurd (ne (ground (arith, h, not_verified)))
]

decided :
    (gs : List GuardrailEvaluation) (c : Classification) (o : Outcome)
    → decide gs (some (record { phase_id = ""; classification = c })) ≡ o
    → o ≢ revert
    → (all (λ g. g.passed) gs ≡ true) × (outcome_of (some c) ≡ o)
unfolding decide
decided gs c o h ne = elim (Bool-cases (all (λ g. g.passed) gs)) [
  | inl passed ↦ (passed, rw passed at h)
  | inr missed ↦ absurd (ne (ground (arith, h, missed)))
]

-- A phase is kept exactly when every guardrail passed, at least one primary criterion was evaluated
-- and every one of them met its target.
pub outcome-keep_iff :
    (targets : List TargetEvaluation) (guardrails : List GuardrailEvaluation)
    (rollback : Option RollbackState)
    → (outcome_after targets guardrails rollback ≡ some keep) ↔ (
        (all (λ g. g.passed) guardrails ≡ true)
        × (0 < length targets)
        × (all (λ e. e.met) targets ≡ true))
unfolding outcome_after decide outcome_of gate_revert
outcome-keep_iff targets guardrails rollback = (
  λ h.
      let (kept, _) = gate-passes _ rollback keep h (λ e. absurd cc) in
      let (passed, o) = decided guardrails (classify targets) keep kept (λ e. absurd cc) in
      let (some_target, all_met) =
        (classify-met_iff targets).0 (outcome_of-keep (classify targets) o) in
      (passed, some_target, all_met),
  λ h. rw (h.0, (classify-met_iff targets).1 (h.1, h.2)),
)

-- A phase is to be fixed exactly when every guardrail passed and some of the primary criteria met
-- their targets but not all.
outcome-fix_iff :
    (targets : List TargetEvaluation) (guardrails : List GuardrailEvaluation)
    (rollback : Option RollbackState)
    → (outcome_after targets guardrails rollback ≡ some fix_one_part) ↔ (
        (all (λ g. g.passed) guardrails ≡ true)
        × (0 < count (λ e. e.met) targets)
        × (count (λ e. e.met) targets < length targets))
unfolding outcome_after decide outcome_of gate_revert
outcome-fix_iff targets guardrails rollback = (
  λ h.
      let (kept, _) = gate-passes _ rollback fix_one_part h (λ e. absurd cc) in
      let (passed, o) = decided guardrails (classify targets) fix_one_part kept (λ e. absurd cc) in
      let (some_met, not_all) =
        (classify-repairable_iff targets).0 (outcome_of-fix (classify targets) o) in
      (passed, some_met, not_all),
  λ h. rw (h.0, (classify-repairable_iff targets).1 (h.1, h.2)),
)

-- A phase is marked as reverted only when its rollback was verified.
outcome-revert_verified :
    (targets : List TargetEvaluation) (guardrails : List GuardrailEvaluation)
    (rollback : Option RollbackState)
    → outcome_after targets guardrails rollback ≡ some revert
    → verified_of rollback ≡ true
unfolding outcome_after
outcome-revert_verified targets guardrails rollback h =
    let (kept, verified) = gate-passes _ rollback revert h (λ e. absurd cc) in verified kept
