-- ===== src/S06/Judge.antt =====
-- The handlers of the nodes S06.10 to S06.50 (application/s06_handlers.py), which judge the evidence.
-- A decision is its outcome: the rationale texts are left out.
use agent_code_optimize_plug.Prelude.{[], ◌∷◌, ◌&&◌, if◌then◌else◌, subset, map}
use agent_code_optimize_plug.Contracts.Errors.{Exec, ◌>>=◌, pure, lift}
use agent_code_optimize_plug.State.{OptimizationState, Update}
use agent_code_optimize_plug.Ports.Artifacts.{ArtifactStore}
use agent_code_optimize_plug.Runtime.Nodes.{NodeRoute, NodeExecution, go_on}
use agent_code_optimize_plug.S06.Shared.{
  Outside, active_phase_id, s04_report_stage, s05_measurement_stage, s05_statistical_stage,
  require_stage_ref, read_model, read_required, as_request, as_verification, as_statistical,
}
use agent_code_optimize_plug.S06.Evaluate.{evaluate_targets, evaluate_guardrails}
use agent_code_optimize_plug.S06.Decide.{classify, decide}

module _ {S : Type 0} (env : Outside S) (store : ArtifactStore S) where
  unfoldable pub s06_10 : OptimizationState → Exec S NodeExecution
  unfolding read_required read_model require_stage_ref s04_report_stage s05_measurement_stage
      s05_statistical_stage
  s06_10 state = read_required env store as_request state "OptimizationRequest" >>= λ request.
      (lift (require_stage_ref state (s04_report_stage state) "VerificationReport")
        >>= λ verification_ref.
            (read_model env store as_verification state verification_ref >>= λ verification.
            (lift (require_stage_ref state (s05_measurement_stage state) "Measurement")
              >>= λ measurement_ref.
                  (lift (require_stage_ref state (s05_statistical_stage state) "StatisticalReport")
                    >>= λ statistical_ref.
                        (read_model env store as_statistical state statistical_ref
                          >>= λ statistical.
                              (let complete =
                                  verification.passed
                                  && subset (map (λ c. c.criterion_id) request.criteria)
                                      (map (λ e. e.criterion_id) statistical.effects) in
                                pure (record {
                                  route =
                                      if complete then NodeRoute.continue else NodeRoute.rejected;
                                  updates =
                                      Update.s06_intake (record {
                                        verification_digest = verification_ref.content_digest;
                                        measurement_digest = measurement_ref.content_digest;
                                        complete = complete;
                                      })
                                      ∷ [];
                                })))))))

  unfoldable pub s06_20 : OptimizationState → Exec S NodeExecution
  unfolding read_required read_model require_stage_ref s05_statistical_stage evaluate_targets
  s06_20 state = read_required env store as_request state "OptimizationRequest" >>= λ request.
      (lift (require_stage_ref state (s05_statistical_stage state) "StatisticalReport") >>= λ ref.
      (read_model env store as_statistical state ref >>= λ statistical. pure (
        go_on (
          Update.s06_target_evaluations
            (evaluate_targets env.floats request.criteria statistical.effects)
          ∷ []))))

  unfoldable pub s06_30 : OptimizationState → Exec S NodeExecution
  unfolding read_required read_model require_stage_ref s04_report_stage s05_statistical_stage
      evaluate_guardrails
  s06_30 state = read_required env store as_request state "OptimizationRequest" >>= λ request.
      (lift (require_stage_ref state (s04_report_stage state) "VerificationReport")
        >>= λ verification_ref.
            (read_model env store as_verification state verification_ref >>= λ verification.
            (lift (require_stage_ref state (s05_statistical_stage state) "StatisticalReport")
              >>= λ ref.
                  (read_model env store as_statistical state ref >>= λ statistical.
                  (lift (
                      evaluate_guardrails env.floats request.guardrails statistical.effects
                        verification.check_results)
                    >>= λ evaluations.
                        pure (go_on (Update.s06_guardrail_evaluations evaluations ∷ [])))))))

  unfoldable pub s06_40 : OptimizationState → Exec S NodeExecution
  unfolding classify active_phase_id
  s06_40 state = lift (active_phase_id state) >>= λ phase_id. pure (
      go_on (
        Update.s06_attribution
          (record { phase_id = phase_id; classification = classify state.s06_target_evaluations })
        ∷ []))

  unfoldable pub s06_50 : OptimizationState → Exec S NodeExecution
  unfolding decide
  s06_50 state = pure (
      go_on
        (Update.s06_decision (decide state.s06_guardrail_evaluations state.s06_attribution) ∷ []))
