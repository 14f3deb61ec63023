-- ===== src/Examples/Registries.antt =====
-- Decisions of adapters/production/python_policy.py and bootstrap_policies.py.
use agent_code_optimize_plug.Prelude.{String, Bool, true, [], ◌∷◌, ◌≡◌, refl, ◌==◌}
use agent_code_optimize_plug.Prelude.Dict.{get, put}
use agent_code_optimize_plug.Contracts.Errors.{ok}
use agent_code_optimize_plug.Ports.Policy.{Fact, PolicyRequest, PolicyDecision}
use agent_code_optimize_plug.Policy.{
  DeterministicPythonPolicy, register, bound_decision, evaluate_with, evaluate,
}
use agent_code_optimize_plug.Policy.Bootstrap.{
  apply_to_real_repo, deny_or, unless_identifier, is_identifier, require_approval,
}

abbrev is_blank : String → Bool
is_blank value = value == ""

abbrev request : PolicyRequest
request = record {
  decision_type = "apply_to_real_repo";
  policy_version = "v1";
  tenant_id = "tenant";
  facts =
      ("phase_id", Fact.text "P1")
      ∷ ("case_id", Fact.text "case")
      ∷ ("base_revision", Fact.text "r1")
      ∷ [];
}

abbrev empty_policy : DeterministicPythonPolicy
empty_policy = record { version = "v1"; registry = [] }

abbrev policy : DeterministicPythonPolicy
policy = record {
  version = "v1";
  registry = ("apply_to_real_repo", apply_to_real_repo is_blank "v1") ∷ [];
}

registered :
    register is_blank "apply_to_real_repo" (apply_to_real_repo is_blank "v1") empty_policy
    ≡ ok policy
unfolding register put
registered = refl

abbrev approval : PolicyDecision
approval = record {
  allowed = true;
  decision = "require_approval";
  policy_version = "v1";
  reasons = "phase requires an owner approval before a real repository write" ∷ [];
}

evaluated : evaluate policy request ≡ ok approval
unfolding evaluate evaluate_with bound_decision get apply_to_real_repo deny_or unless_identifier
    is_identifier require_approval
evaluated = refl
