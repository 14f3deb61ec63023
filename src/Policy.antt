-- ===== src/Policy.antt =====
-- adapters/production/python_policy.py: the registry of decision functions. The decision functions
-- that the program registers are in Policy/Bootstrap.
pub mod Bootstrap
pub mod Laws
use agent_code_optimize_plug.Prelude.{
  String, Bool, true, false, Option, none, some, List, [], ◌∷◌, ◌==◌, if◌then◌else◌,
}
use agent_code_optimize_plug.Prelude.Dict.{Dict, get, put}
use agent_code_optimize_plug.Contracts.Errors.{
  Result, ok, err, policy_version_mismatch, blank_argument,
}
use agent_code_optimize_plug.Ports.Policy.{PolicyRequest, PolicyDecision, PolicyPort}

-- The registry, with `is_blank` for `not text.strip()`.
pub record DeterministicPythonPolicy : Type 0 where
  pub version : String
  pub registry : Dict (PolicyRequest → PolicyDecision)

unfoldable pub new_policy : (String → Bool) → String → Result DeterministicPythonPolicy
new_policy is_blank version =
    if is_blank version
    then err (blank_argument "policy_version")
    else ok (record { version = version; registry = [] })

unfoldable pub register :
    (String → Bool)
    → String
    → (PolicyRequest → PolicyDecision)
    → DeterministicPythonPolicy
    → Result DeterministicPythonPolicy
unfolding put
register is_blank decision_type fn policy =
    if is_blank decision_type
    then err (blank_argument "decision_type")
    else ok (record policy { registry = put decision_type fn policy.registry })

unfoldable pub bootstrap_decision : String → PolicyDecision
bootstrap_decision version = record {
  allowed = false;
  decision = "deny";
  policy_version = version;
  reasons = "business policies are not implemented" ∷ [];
}

-- a registered function's answer, bound to the version
unfoldable pub bound_decision : String → PolicyDecision → Result PolicyDecision
bound_decision version decision =
    if decision.policy_version == version
    then ok decision
    else err (policy_version_mismatch decision.policy_version version)

unfoldable pub evaluate_with :
    String → Option (PolicyRequest → PolicyDecision) → PolicyRequest → Result PolicyDecision
unfolding bootstrap_decision bound_decision
evaluate_with version none request = ok (bootstrap_decision version)
evaluate_with version (some fn) request = bound_decision version (fn request)

unfoldable pub evaluate : DeterministicPythonPolicy → PolicyRequest → Result PolicyDecision
unfolding evaluate_with get
evaluate policy request =
    evaluate_with policy.version (get request.decision_type policy.registry) request

-- The registry as the port that handlers ask.
unfoldable pub policy_port : DeterministicPythonPolicy → PolicyPort
unfolding evaluate
policy_port policy = record { evaluate = evaluate policy }
