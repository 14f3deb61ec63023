-- ===== src/S06/Decide.antt =====
-- The attribution of S06.40, the decision table of S06.50 and the gate of S06.70
-- (application/s06_handlers.py), without their rationale texts.
pub mod Laws
use agent_code_optimize_plug.Prelude.{
  ℕ, String, Bool, true, false, Option, none, some, List, not, if◌then◌else◌, length, count, all,
  eqb,
}
use agent_code_optimize_plug.Contracts.Decide.{
  TargetEvaluation, GuardrailEvaluation, Classification, all_targets_met, repairable,
  wrong_direction, no_evidence, PhaseAttribution, Outcome, keep, fix_one_part, revert, escalate,
  RollbackState,
}

unfoldable pub classify : List TargetEvaluation → Classification
classify evaluations =
    let total = length evaluations in
    let met = count (λ e. e.met) evaluations in
    if eqb total 0
    then no_evidence
    else if eqb met total
    then all_targets_met
    else if eqb met 0
    then wrong_direction
    else repairable

unfoldable pub outcome_of : Option Classification → Outcome
outcome_of (some all_targets_met) = keep
outcome_of (some repairable) = fix_one_part
outcome_of _ = revert

abbrev classification_of : Option PhaseAttribution → Option Classification
classification_of none = none
classification_of (some attribution) = some attribution.classification

unfoldable pub decide : List GuardrailEvaluation → Option PhaseAttribution → Outcome
unfolding outcome_of
decide guardrail_evaluations attribution =
    if all (λ g. g.passed) guardrail_evaluations
    then outcome_of (classification_of attribution)
    else revert

abbrev pub verified_of : Option RollbackState → Bool
verified_of none = false
verified_of (some rollback) = rollback.verified

-- the outcome after S06.70: a revert that is not verified escalates
unfoldable pub gate_revert : Option Outcome → Option RollbackState → Option Outcome
gate_revert (some revert) rollback = if verified_of rollback then some revert else some escalate
gate_revert outcome rollback = outcome
