-- ===== src/S06/Evaluate/Laws.antt =====
-- What evaluations that are all positive say of the evidence (application/s06_handlers.py).
use agent_code_optimize_plug.Prelude.{
  true, false, Option, none, some, List, [], ◌∷◌, ◌≡◌, ◌≢◌, ◌⊎◌, refl, ap, ◌∙◌, all, All, and→both,
  inl, inr, last_with,
}
use agent_code_optimize_plug.Contracts.Errors.{ok, bind_result-eq_ok}
use agent_code_optimize_plug.Contracts.Request.{Float, FloatOps, Criterion, Guardrail}
use agent_code_optimize_plug.Contracts.Verify.{CheckResult, EffectResult}
use agent_code_optimize_plug.Contracts.Decide.{GuardrailEvaluation}
use agent_code_optimize_plug.S06.Evaluate.{
  check_metric, meets, evaluate_target, evaluate_targets, apply_operator, float_of_exit,
  evaluate_guardrail, evaluate_guardrails,
}

-- The criterion was measured, and its measured mean meets its target.
pub IsMet : FloatOps → List EffectResult → Criterion → Type 0
IsMet floats effects c =
    (e : EffectResult) × (last_with (λ x. x.criterion_id) c.criterion_id effects ≡ some e)
    × (meets floats c.direction e.treatment_mean c.target_value ≡ true)

-- Some evidence of the guardrail's metric passes its operator and threshold.
pub IsGuarded : FloatOps → List EffectResult → List CheckResult → Guardrail → Type 0
IsGuarded floats effects checks g =
    (value : Float) × (((e : EffectResult) × (last_with (λ x. x.metric_id) g.metric_id effects
          ≡ some e)
        × (e.treatment_mean ≡ value))
      ⊎ ((c : CheckResult) × (last_with check_metric g.metric_id checks ≡ some c)
          × (float_of_exit floats c.exit_code ≡ value)))
    × (apply_operator floats value g.operator g.threshold ≡ ok true)

passed_of : {a b : GuardrailEvaluation} → ok a ≡ ok b → a.passed ≡ b.passed
passed_of e = cc

content_of : {a b : List GuardrailEvaluation} → ok a ≡ ok b → a ≡ b
content_of e = cc

not_passed : false ≢ true
not_passed e = cc

module _ (floats : FloatOps) (effects : List EffectResult) where
  target-met :
      (c : Criterion) (e : Option EffectResult)
      → (evaluate_target floats c e).met ≡ true
      → (x : EffectResult) × (e ≡ some x)
        × (meets floats c.direction x.treatment_mean c.target_value ≡ true)
  unfolding evaluate_target
  target-met c none h = absurd cc
  target-met c (some x) h = (x, refl, h)

  -- The primary criteria are all met only when each was measured and its measured mean meets the
  -- target in its direction.
  evaluate_targets-IsMet :
      (criteria : List Criterion)
      → all (λ e. e.met) (evaluate_targets floats criteria effects) ≡ true
      → All (IsMet floats effects) criteria
  unfolding evaluate_targets IsMet
  evaluate_targets-IsMet [] h = tt
  evaluate_targets-IsMet (c ∷ criteria) h =
      let found = last_with (λ x. x.criterion_id) c.criterion_id effects in
      let (now, later) =
        and→both (evaluate_target floats c found).met
          (all (λ e. e.met) (evaluate_targets floats criteria effects)) h in
      (target-met c found now, evaluate_targets-IsMet criteria later)

  module _ (checks : List CheckResult) where
    guardrail-passed :
        (g : Guardrail) (e : Option EffectResult) (c : Option CheckResult) (r : GuardrailEvaluation)
        → last_with (λ x. x.metric_id) g.metric_id effects ≡ e
        → last_with check_metric g.metric_id checks ≡ c
        → evaluate_guardrail floats g e c ≡ ok r
        → r.passed ≡ true
        → IsGuarded floats effects checks g
    unfolding evaluate_guardrail IsGuarded
    guardrail-passed g (some e) c r he hc h p =
        let (b, op, made) =
          bind_result-eq_ok (apply_operator floats e.treatment_mean g.operator g.threshold) _ h in
        (e.treatment_mean, inl (e, he, refl), op ∙ ap ok (passed_of made ∙ p))
    guardrail-passed g none (some c) r he hc h p =
        let (b, op, made) =
          bind_result-eq_ok
            (apply_operator floats (float_of_exit floats c.exit_code) g.operator g.threshold) _ h in
        (float_of_exit floats c.exit_code, inr (c, hc, refl), op ∙ ap ok (passed_of made ∙ p))
    guardrail-passed g none none r he hc h p = absurd (not_passed (passed_of h ∙ p))

    -- The guardrails all pass only when each has evidence, of a benchmark or else of a check, whose
    -- value passes the guardrail's operator: missing evidence is never a pass.
    pub evaluate_guardrails-IsGuarded :
        (guardrails : List Guardrail) (evaluations : List GuardrailEvaluation)
        → evaluate_guardrails floats guardrails effects checks ≡ ok evaluations
        → all (λ g. g.passed) evaluations ≡ true
        → All (IsGuarded floats effects checks) guardrails
    unfolding evaluate_guardrails
    evaluate_guardrails-IsGuarded [] evaluations h p = tt
    evaluate_guardrails-IsGuarded (g ∷ guardrails) evaluations h p =
        let (r, one, h') =
          bind_result-eq_ok
            (evaluate_guardrail floats g (last_with (λ x. x.metric_id) g.metric_id effects)
              (last_with check_metric g.metric_id checks))
            _ h in
        let (rs, rest, h'') =
          bind_result-eq_ok (evaluate_guardrails floats guardrails effects checks) _ h' in
        let both =
          and→both r.passed (all (λ x. x.passed) rs)
            (ap (all (λ x. x.passed)) (content_of h'') ∙ p) in
        (
          guardrail-passed g _ _ r refl refl one both.0,
          evaluate_guardrails-IsGuarded guardrails rs rest both.1,
        )
