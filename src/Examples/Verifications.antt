-- ===== src/Examples/Verifications.antt =====
-- Gates and reports of application/s04_handlers.py.
use agent_code_optimize_plug.Prelude.{true, none, some, [], ◌∷◌, ◌≡◌, ◌↔◌, refl, any, all}
use agent_code_optimize_plug.Contracts.Errors.{ok}
use agent_code_optimize_plug.Contracts.Verify.{CheckResult, exit, VerificationReport}
use agent_code_optimize_plug.State.{OptimizationState}
use agent_code_optimize_plug.Workflow.{s04, s05, next_stage}
use agent_code_optimize_plug.S04.Gate.{is_mandatory, gate, reported_results, validate_report}
use agent_code_optimize_plug.S04.{with_gate}
use agent_code_optimize_plug.S04.Laws.{validate_report-reported, next_stage-gate_iff}
use agent_code_optimize_plug.Examples.Base.{empty_state}

abbrev unit_check : CheckResult
unit_check = record {
  command_id = "u";
  kind = "unit";
  exit_code = exit 0;
  passed = true;
  output_tail = "";
}

-- the report on a repository that declares no check
abbrev empty_report : VerificationReport
empty_report = record {
  patch_digest = "d";
  execution_provenance_digest = "d";
  phase_id = "P1";
  check_results = reported_results [];
  failure_attributions = [];
  passed = gate [];
}

validate_report-reported_example : validate_report empty_report ≡ ok empty_report
validate_report-reported_example = validate_report-reported empty_report [] refl refl

abbrev verified_state : OptimizationState
verified_state = record empty_state {
  completed_nodes = "S04.90" ∷ [];
  s04_check_results = unit_check ∷ [];
  s04_manifest = some (with_gate none (gate (unit_check ∷ [])));
}

next_stage-gate_iff_example :
    (next_stage s04 verified_state ≡ some s05)
    ↔ ((any is_mandatory (unit_check ∷ []) ≡ true) × (all (λ r. r.passed) (unit_check ∷ []) ≡ true))
next_stage-gate_iff_example = next_stage-gate_iff verified_state none refl refl
