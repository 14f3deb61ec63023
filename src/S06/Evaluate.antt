-- ===== src/S06/Evaluate.antt =====
-- `_evaluate_target`, `_evaluate_guardrail`, `_apply_operator` of application/s06_handlers.py, with the
-- dictionaries of evidence by which S06.20 and S06.30 look them up.
pub mod Laws
use agent_code_optimize_plug.Prelude.{
  ℕ, suc, String, Bool, true, false, Option, none, some, List, [], ◌∷◌, ◌==◌, if◌then◌else◌,
  last_with,
}
use agent_code_optimize_plug.Prelude.Text.{◌^^◌}
use agent_code_optimize_plug.Contracts.Errors.{Result, ok, err, bind_result, unknown_operator}
use agent_code_optimize_plug.Contracts.Request.{
  Float, FloatOps, Direction, minimize, maximize, target, Criterion, Guardrail,
}
use agent_code_optimize_plug.Contracts.Verify.{CheckResult, EffectResult, ExitCode, exit, negative}
use agent_code_optimize_plug.Contracts.Decide.{
  TargetEvaluation, GuardrailEvaluation, verification_check, statistical_effect, unavailable,
}

abbrev pub check_metric : CheckResult → String
check_metric result = result.kind ^^ "_command_result"

module _ (floats : FloatOps) where
  -- whether a measured value meets its target
  unfoldable pub meets : Direction → Float → Float → Bool
  meets minimize value goal = floats.fle value goal
  meets maximize value goal = floats.fle goal value
  meets target value goal = floats.fle (floats.fabs (floats.fsub value goal)) (floats.literal 1 9)

  unfoldable pub evaluate_target : Criterion → Option EffectResult → TargetEvaluation
  unfolding meets
  evaluate_target criterion none = record {
    criterion_id = criterion.criterion_id;
    metric_id = criterion.metric_id;
    direction = criterion.direction;
    target_value = criterion.target_value;
    treatment_value = floats.nan;
    met = false;
  }
  evaluate_target criterion (some effect) = record {
    criterion_id = criterion.criterion_id;
    metric_id = criterion.metric_id;
    direction = criterion.direction;
    target_value = criterion.target_value;
    treatment_value = effect.treatment_mean;
    met = meets criterion.direction effect.treatment_mean criterion.target_value;
  }

  unfoldable pub evaluate_targets : List Criterion → List EffectResult → List TargetEvaluation
  unfolding evaluate_target
  evaluate_targets [] effects = []
  evaluate_targets (criterion ∷ criteria) effects =
      evaluate_target criterion (last_with (λ e. e.criterion_id) criterion.criterion_id effects)
      ∷ evaluate_targets criteria effects

  unfoldable pub apply_operator : Float → String → Float → Result Bool
  apply_operator value op threshold =
      if op == "lt"
      then ok (floats.flt value threshold)
      else if op == "lte"
      then ok (floats.fle value threshold)
      else if op == "eq"
      then ok (floats.feq value threshold)
      else if op == "gte"
      then ok (floats.fle threshold value)
      else if op == "gt"
      then ok (floats.flt threshold value)
      else err (unknown_operator op)

  -- `float(check.exit_code)`
  unfoldable pub float_of_exit : ExitCode → Float
  float_of_exit (exit n) = floats.of_ℕ n
  float_of_exit (negative n) = floats.fsub (floats.of_ℕ 0) (floats.of_ℕ (suc n))

  unfoldable pub evaluate_guardrail :
      Guardrail → Option EffectResult → Option CheckResult → Result GuardrailEvaluation
  unfolding apply_operator float_of_exit
  evaluate_guardrail guardrail (some effect) check =
      bind_result (apply_operator effect.treatment_mean guardrail.operator guardrail.threshold)
        λ passed. ok (record {
          guardrail_id = guardrail.guardrail_id;
          metric_id = guardrail.metric_id;
          evidence_source = statistical_effect;
          observed_value = some effect.treatment_mean;
          passed = passed;
        })
  evaluate_guardrail guardrail none (some check) =
      bind_result
        (apply_operator (float_of_exit check.exit_code) guardrail.operator guardrail.threshold)
        λ passed. ok (record {
          guardrail_id = guardrail.guardrail_id;
          metric_id = guardrail.metric_id;
          evidence_source = verification_check;
          observed_value = some (float_of_exit check.exit_code);
          passed = passed;
        })
  evaluate_guardrail guardrail none none = ok (record {
    guardrail_id = guardrail.guardrail_id;
    metric_id = guardrail.metric_id;
    evidence_source = unavailable;
    observed_value = none;
    passed = false;
  })

  unfoldable pub evaluate_guardrails :
      List Guardrail → List EffectResult → List CheckResult → Result (List GuardrailEvaluation)
  unfolding evaluate_guardrail
  evaluate_guardrails [] effects checks = ok []
  evaluate_guardrails (guardrail ∷ guardrails) effects checks =
      bind_result
        (evaluate_guardrail guardrail (last_with (λ e. e.metric_id) guardrail.metric_id effects)
          (last_with check_metric guardrail.metric_id checks))
        λ evaluation.
          bind_result (evaluate_guardrails guardrails effects checks)
            λ evaluations. ok (evaluation ∷ evaluations)
