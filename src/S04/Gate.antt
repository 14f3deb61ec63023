-- ===== src/S04/Gate.antt =====
-- The gate of S04.80 and S04.90, the attributions of S04.70 (application/s04_handlers.py) and the
-- validator of the sealed report (contracts/s04.py).
use agent_code_optimize_plug.Prelude.{
  String, Bool, true, false, List, [], ◌∷◌, ◌&&◌, not, if◌then◌else◌, any, all, contains, is_empty,
  filter,
}
use agent_code_optimize_plug.Contracts.Errors.{Result, ok, err, invalid_model}
use agent_code_optimize_plug.Contracts.Verify.{
  CheckResult, FailureAttribution, patch_regression, baseline_existing_failure, VerificationReport,
  exit,
}

abbrev pub mandatory_kinds : List String
mandatory_kinds = "build" ∷ "lint" ∷ "type" ∷ "unit" ∷ []

abbrev pub is_mandatory : CheckResult → Bool
is_mandatory result = contains result.kind mandatory_kinds

-- a mandatory check ran, and every check that ran passed
unfoldable pub gate : List CheckResult → Bool
gate results = any is_mandatory results && all (λ r. r.passed) results

abbrev pub attribution : List String → CheckResult → FailureAttribution
attribution failing result = record {
  check_kind = result.kind;
  classification =
      if contains result.kind failing then baseline_existing_failure else patch_regression;
}

unfoldable pub attributions : List String → List CheckResult → List FailureAttribution
attributions failing [] = []
attributions failing (r ∷ rs) = attribution failing r ∷ attributions failing rs

abbrev no_checks_resolved : CheckResult
no_checks_resolved = record {
  command_id = "no-checks-resolved";
  kind = "integration";
  exit_code = exit 1;
  passed = false;
  output_tail =
      "no build/lint/type/unit check was resolved for this repository, so this phase could not be verified";
}

unfoldable pub reported_results : List CheckResult → List CheckResult
reported_results [] = no_checks_resolved ∷ []
reported_results (r ∷ rs) = r ∷ rs

unfoldable pub same_bool : Bool → Bool → Bool
same_bool true b = b
same_bool false b = not b

-- the validator's own set of mandatory kinds
abbrev pub validator_kinds : List String
validator_kinds = "build" ∷ "lint" ∷ "type" ∷ "unit" ∷ []

-- `bool(mandatory_results) and all(...)` of the validator
unfoldable pub computed : List CheckResult → Bool
computed results =
    not (is_empty (filter (λ r. contains r.kind validator_kinds) results))
    && all (λ r. r.passed) results

-- `min_length=1` of the results, then `validate_passed_matches_checks`
unfoldable pub validate_report : VerificationReport → Result VerificationReport
unfolding computed same_bool
validate_report report =
    if not (is_empty report.check_results)
      && same_bool report.passed (computed report.check_results)
    then ok report
    else err (invalid_model "VerificationReport")
