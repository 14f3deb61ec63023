-- ===== src/S04/Laws.antt =====
-- What S04.70, S04.80 and S04.90 agree on (application/s04_handlers.py, contracts/s04.py).
use agent_code_optimize_plug.Prelude.{
  Bool, true, false, Option, none, some, List, [], ◌∷◌, ◌≡◌, ◌↔◌, refl, sym, ap, ◌∙◌, any, all,
  is_empty, arith, contains, filter, not, ◌&&◌, Bool-cases, inl, inr,
}
use agent_code_optimize_plug.Contracts.Errors.{ok}
use agent_code_optimize_plug.Contracts.Verify.{
  CheckResult, VerificationReport, VerificationManifest,
}
use agent_code_optimize_plug.State.{OptimizationState}
use agent_code_optimize_plug.Workflow.{s04, s05, next_stage, gate_passed}
use agent_code_optimize_plug.Workflow.Laws.{next_stage-measure_iff}
use agent_code_optimize_plug.S04.{with_gate}
use agent_code_optimize_plug.S04.Gate.{
  gate, is_mandatory, validator_kinds, computed, reported_results, validate_report, same_bool,
}

gate_passed-with_gate :
    (before : Option VerificationManifest) (passed : Bool)
    → gate_passed (some (with_gate before passed)) ≡ passed
unfolding with_gate
gate_passed-with_gate none passed = refl
gate_passed-with_gate (some m) passed = refl

gate-reported : (results : List CheckResult) → gate (reported_results results) ≡ gate results
unfolding gate reported_results
gate-reported [] = refl
gate-reported (r ∷ rs) = refl

reported-filled : (results : List CheckResult) → is_empty (reported_results results) ≡ false
unfolding reported_results
reported-filled [] = refl
reported-filled (r ∷ rs) = refl

same_refl : (b : Bool) → same_bool b b ≡ true
unfolding same_bool
same_refl true = refl
same_refl false = refl

-- the validator's test for a mandatory result is the handler's
any-is_mandatory :
    (results : List CheckResult)
    → not (is_empty (filter (λ r. contains r.kind validator_kinds) results))
      ≡ any is_mandatory results
any-is_mandatory [] = refl
any-is_mandatory (r ∷ results) = elim (Bool-cases (is_mandatory r)) [
  | inl mandatory ↦ rw mandatory refl
  | inr other ↦ rw other (any-is_mandatory results)
]

computed-gate : (results : List CheckResult) → computed results ≡ gate results
unfolding computed gate
computed-gate results = ap (λ b. b && all (λ r. r.passed) results) (any-is_mandatory results)

-- Whatever checks ran, also none: the report that S04.90 seals, with the verdict of the handler's gate
-- on the checks that ran, is one that the model's validator accepts, which has its own set of
-- mandatory kinds.
pub validate_report-reported :
    (report : VerificationReport) (results : List CheckResult)
    → report.check_results ≡ reported_results results
    → report.passed ≡ gate results
    → validate_report report ≡ ok report
unfolding validate_report
validate_report-reported report results reported verdict = simp (
  reported,
  verdict,
  reported-filled results,
  computed-gate (reported_results results),
  gate-reported results,
  same_refl (gate results),
)

gate_sound :
    (results : List CheckResult)
    → (gate results ≡ true)
      ↔ ((any is_mandatory results ≡ true) × (all (λ r. r.passed) results ≡ true))
unfolding gate
gate_sound results = (λ h. (ground arith, ground arith), λ h. rw (h.0, h.1))

-- After S04.80 set the gate and S04.90 ran, the outer graph goes on to the measurements exactly when a
-- mandatory check ran and every check that ran passed.
pub next_stage-gate_iff :
    (state : OptimizationState) (before : Option VerificationManifest)
    → contains "S04.90" state.completed_nodes ≡ true
    → state.s04_manifest ≡ some (with_gate before (gate state.s04_check_results))
    → (next_stage s04 state ≡ some s05) ↔ (
        (any is_mandatory state.s04_check_results ≡ true)
        × (all (λ r. r.passed) state.s04_check_results ≡ true))
next_stage-gate_iff state before ran set =
    let verdict : gate_passed state.s04_manifest ≡ gate state.s04_check_results =
      ap gate_passed set ∙ gate_passed-with_gate before (gate state.s04_check_results) in
    (
      λ h.
          let (_, passed) = (next_stage-measure_iff state).0 h in
          (gate_sound state.s04_check_results).0 (sym verdict ∙ passed),
      λ h.
          (next_stage-measure_iff state).1
            (ran, verdict ∙ (gate_sound state.s04_check_results).1 h),
    )
