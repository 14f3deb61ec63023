-- ===== src/Policy/Laws.antt =====
-- What the registry of policies guarantees (adapters/production/python_policy.py and
-- bootstrap_policies.py).
use agent_code_optimize_plug.Prelude.{
  String, Bool, Option, none, some, List, [], ◌∷◌, ◌≡◌, ◌≢◌, ap, sym, ◌∙◌, ◌==◌, eq_iff,
  if◌then◌else◌, arith, Bool-cases, inl, inr,
}
use agent_code_optimize_plug.Prelude.Dict.{get, get-put}
use agent_code_optimize_plug.Contracts.Errors.{Error, ok, err}
use agent_code_optimize_plug.Ports.Policy.{PolicyRequest, PolicyDecision}
use agent_code_optimize_plug.Policy.{
  DeterministicPythonPolicy, register, bootstrap_decision, bound_decision, evaluate_with, evaluate,
}
use agent_code_optimize_plug.Policy.Bootstrap.{deny, deny_or, apply_to_real_repo, require_approval}

decision_of : {a b : PolicyDecision} → ok a ≡ ok b → a ≡ b
decision_of e = cc

refused : {e : Error} {d : PolicyDecision} → err e ≢ ok d
refused e = cc

no_policy : {e : Error} {p : DeterministicPythonPolicy} → err e ≢ ok p
no_policy e = cc

policy_of : {a b : DeterministicPythonPolicy} → ok a ≡ ok b → a ≡ b
policy_of e = cc

deny_is_not_allow : ◌≢◌ {A = String} "deny" "allow"
deny_is_not_allow e = ground (arith, eq_iff "deny" "allow", e)

approval_is_not_allow : ◌≢◌ {A = String} "require_approval" "allow"
approval_is_not_allow e = ground (arith, eq_iff "require_approval" "allow", e)

bound-version :
    (version : String) (made d : PolicyDecision)
    → bound_decision version made ≡ ok d
    → d.policy_version ≡ version
unfolding bound_decision
bound-version version made d h = elim (Bool-cases (made.policy_version == version)) [
  | inl same ↦
      ap (λ x. x.policy_version) (sym (decision_of (rw same at h)))
      ∙ (eq_iff made.policy_version version).0 same
  | inr other ↦ absurd (refused (rw other at h))
]

with-version :
    (version : String) (fn : Option (PolicyRequest → PolicyDecision)) (request : PolicyRequest)
    (d : PolicyDecision)
    → evaluate_with version fn request ≡ ok d
    → d.policy_version ≡ version
unfolding evaluate_with bootstrap_decision
with-version version none request d h = ap (λ x. x.policy_version) (sym (decision_of h))
with-version version (some fn) request d h = bound-version version (fn request) d h

-- Every decision that the registry gives is bound to its policy version, whatever was registered.
evaluate-version :
    (policy : DeterministicPythonPolicy) (request : PolicyRequest) (d : PolicyDecision)
    → evaluate policy request ≡ ok d
    → d.policy_version ≡ policy.version
unfolding evaluate
evaluate-version policy request d h =
    with-version policy.version (get request.decision_type policy.registry) request d h

-- The registration of a function changes the decisions of its own type, to the function's, and of no
-- other type.
evaluate-register :
    (is_blank : String → Bool) (decision_type : String) (fn : PolicyRequest → PolicyDecision)
    (policy policy' : DeterministicPythonPolicy) (request : PolicyRequest)
    → register is_blank decision_type fn policy ≡ ok policy'
    → evaluate policy' request ≡ (
        if decision_type == request.decision_type
        then bound_decision policy.version (fn request)
        else evaluate policy request)
unfolding evaluate evaluate_with register
evaluate-register is_blank decision_type fn policy policy' request h =
    elim (Bool-cases (is_blank decision_type)) [
      | inl blank ↦ absurd (no_policy (rw blank at h))
      | inr given ↦
          ap (λ p. evaluate p request) (sym (policy_of (rw given at h)))
          ∙ elim (Bool-cases (decision_type == request.decision_type)) [
            | inl same ↦ rw (get-put decision_type request.decision_type fn policy.registry, same)
            | inr other ↦ rw (get-put decision_type request.decision_type fn policy.registry, other)
          ]
    ]

module _ (is_blank : String → Bool) (version : String) where
  deny_or-decision :
      (reasons : List String) (decision : PolicyDecision)
      → decision.decision ≢ "allow"
      → (deny_or is_blank version reasons decision).decision ≢ "allow"
  unfolding deny_or deny
  deny_or-decision [] decision ne = ne
  deny_or-decision (r ∷ rs) decision ne = deny_is_not_allow

  -- The policy for the real repository never answers with a bare `allow`, whatever the facts are.
  apply_to_real_repo-never_allow :
      (request : PolicyRequest) → (apply_to_real_repo is_blank version request).decision ≢ "allow"
  unfolding apply_to_real_repo require_approval
  apply_to_real_repo-never_allow request = deny_or-decision _ _ approval_is_not_allow
