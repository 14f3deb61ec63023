-- ===== src/Examples/Policies.antt =====
-- Decisions of application/s06_handlers.py and edges of orchestration/shared_workflow.py.
use agent_code_optimize_plug.Prelude.{
  ℕ, ◌+◌, ◌<◌, Bool, true, false, Option, none, some, List, [], ◌∷◌, ◌≡◌, ◌↔◌, ◌⊎◌, refl, All, all,
  eqb, leb, ltb,
}
use agent_code_optimize_plug.Contracts.Errors.{ok, err, outside}
use agent_code_optimize_plug.Contracts.Request.{Float, FloatOps, minimize, Criterion, Guardrail}
use agent_code_optimize_plug.Contracts.Verify.{EffectResult, CheckResult, exit}
use agent_code_optimize_plug.Contracts.Decide.{
  TargetEvaluation, GuardrailEvaluation, verification_check, keep, revert, RollbackState,
}
use agent_code_optimize_plug.State.{OptimizationState}
use agent_code_optimize_plug.Ports.Artifacts.{ArtifactStore}
use agent_code_optimize_plug.Ports.Policy.{PolicyPort}
use agent_code_optimize_plug.Runtime.RouteKeys.{route_for}
use agent_code_optimize_plug.S06.Shared.{Outside}
use agent_code_optimize_plug.S06.Evaluate.{
  evaluate_guardrails, evaluate_guardrail, apply_operator, float_of_exit,
}
use agent_code_optimize_plug.S06.Evaluate.Laws.{IsGuarded, evaluate_guardrails-IsGuarded}
use agent_code_optimize_plug.S06.Decide.{classify, decide, gate_revert, outcome_of}
use agent_code_optimize_plug.S06.Decide.Laws.{outcome_after, outcome-keep_iff}
use agent_code_optimize_plug.S06.Approve.{s06_90}
use agent_code_optimize_plug.S06.Approve.Laws.{s06_90-any_policy}
use agent_code_optimize_plug.Workflow.{
  s02, s03, s04, s06, s07, next_stage, verification_outcome, after_s04,
}
use agent_code_optimize_plug.Workflow.Laws.{next_stage-repair_bounded, next_stage-report_iff}
use agent_code_optimize_plug.Examples.Base.{empty_state, halted_state, approve_command, patch_ref}

-- floats as natural numbers
abbrev floats : FloatOps
floats = record {
  fle = λ a b. leb a.bits b.bits;
  flt = λ a b. ltb a.bits b.bits;
  feq = λ a b. eqb a.bits b.bits;
  fadd = λ a b. a;
  fsub = λ a b. a;
  fmul = λ a b. a;
  fdiv = λ a b. a;
  fabs = λ a. a;
  of_ℕ = λ n. record { bits = n };
  nan = record { bits = 0 };
  fsum = λ xs. record { bits = 0 };
  literal = λ n k. record { bits = n };
}

abbrev float : ℕ → Float
float n = record { bits = n }

abbrev latency : Criterion
latency = record {
  criterion_id = "c1";
  metric_id = "latency";
  direction = minimize;
  target_value = float 80;
  weight = float 1;
}

abbrev effects : List EffectResult
effects = record { criterion_id = "c1"; metric_id = "latency"; treatment_mean = float 70 } ∷ []

abbrev memory : Guardrail
memory = record {
  guardrail_id = "g1";
  metric_id = "test_command_result";
  operator = "eq";
  threshold = float 0;
}

abbrev checks : List CheckResult
checks =
    record { command_id = "t"; kind = "test"; exit_code = exit 0; passed = true; output_tail = "" }
    ∷ []

abbrev guarded : GuardrailEvaluation
guarded = record {
  guardrail_id = "g1";
  metric_id = "test_command_result";
  evidence_source = verification_check;
  observed_value = some (float 0);
  passed = true;
}

judged : evaluate_guardrails floats (memory ∷ []) effects checks ≡ ok (guarded ∷ [])
unfolding evaluate_guardrails evaluate_guardrail apply_operator float_of_exit
judged = refl

evaluate_guardrails-IsGuarded_example : All (IsGuarded floats effects checks) (memory ∷ [])
evaluate_guardrails-IsGuarded_example =
    evaluate_guardrails-IsGuarded floats effects checks (memory ∷ []) (guarded ∷ []) judged refl

abbrev target : Bool → TargetEvaluation
target met = record {
  criterion_id = "c1";
  metric_id = "latency";
  direction = minimize;
  target_value = float 80;
  treatment_value = float 70;
  met = met;
}

outcome-keep_iff_example : (outcome_after (target true ∷ []) (guarded ∷ []) none ≡ some keep) ↔ (
    (all (λ g. g.passed) (guarded ∷ []) ≡ true)
    × (0 < 1)
    × (all (λ e. e.met) (target true ∷ []) ≡ true))
outcome-keep_iff_example = outcome-keep_iff (target true ∷ []) (guarded ∷ []) none

abbrev verified_rollback : Option RollbackState
verified_rollback = some (record { attempted = true; verified = true })

reverted : outcome_after (target false ∷ []) (guarded ∷ []) verified_rollback ≡ some revert
unfolding outcome_after classify decide outcome_of gate_revert
reverted = refl

-- a world that counts the commands, in which every command prints "abc"
abbrev env : Outside ℕ
env = record {
  canonical = record { encode = λ a. "c"; decode = λ t. err (outside "empty"); digest = λ a. "d" };
  floats = floats;
  now = 30;
  run_git = λ cwd args s. (some (exit 0, "abc"), s + 1);
  strip = λ t. t;
  ends_with_newline = λ t. true;
  mkdtemp = λ prefix s. ("/tmp/x", s);
  write_text = λ path text s. s;
  rmtree = λ path s. s;
}

abbrev store : ArtifactStore ℕ
store = record {
  put_json = λ tenant content digest key s. (ok patch_ref, s + 1);
  read = λ tenant ref s. ok "c";
}

abbrev lax : PolicyPort
lax = record {
  evaluate = λ request.
      ok (record { allowed = true; decision = "allow"; policy_version = "v"; reasons = [] });
}

abbrev strict : PolicyPort
strict = record {
  evaluate = λ request.
      ok (record { allowed = false; decision = "deny"; policy_version = "v"; reasons = "no" ∷ [] });
}

-- the command answered the selection's interrupt, not the one of S06.90
abbrev approved_before : OptimizationState
approved_before = record halted_state {
  resume_command = some (record approve_command { interrupt_id = "case-S01-SELECTION" });
}

s06_90-any_policy_example :
    s06_90 env store (some lax) approved_before 0 ≡ s06_90 env store (some strict) approved_before 0
s06_90-any_policy_example =
    s06_90-any_policy env store approved_before
      (record approve_command { interrupt_id = "case-S01-SELECTION" }) lax strict 0 refl

abbrev verified_state : Bool → OptimizationState
verified_state passed = record empty_state {
  completed_nodes = "S04.90" ∷ [];
  s03_revision_attempts = 1;
  s04_manifest = some (record {
    plan_digest = "p";
    patch_digest = "d-patch";
    workspace_ok = true;
    resolved_kinds = [];
    touched_existing_test_files = [];
    gate_passed = passed;
  });
}

repaired : next_stage s04 (verified_state false) ≡ some s03
unfolding next_stage verification_outcome after_s04
repaired = refl

next_stage-repair_bounded_example : (s04 ≡ s02) ⊎ (1 < 5)
next_stage-repair_bounded_example = next_stage-repair_bounded s04 (verified_state false) repaired

next_stage-report_iff_example :
    (next_stage s06 halted_state ≡ some s07)
    ↔ ((route_for "S06.90" (("S06.90", "approval") ∷ []) ≡ "continue") × (some keep ≡ some keep))
next_stage-report_iff_example = next_stage-report_iff halted_state
