-- ===== src/Policy/Bootstrap.antt =====
-- adapters/production/bootstrap_policies.py: the decision functions that guard the phases, the
-- requests and the real repository, with their registry. Reasons keep their order and their number,
-- the values that their texts quote are left out.
use agent_code_optimize_plug.Prelude.{
  String, Bool, true, false, Option, none, some, List, [], ◌∷◌, ◌++◌, ◌==◌, not, if◌then◌else◌,
  contains,
}
use agent_code_optimize_plug.Prelude.Dict.{Dict, get}
use agent_code_optimize_plug.Ports.Policy.{Fact, null, text, PolicyRequest, PolicyDecision}

unfoldable pub deny : String → List String → PolicyDecision
deny version reasons = record {
  allowed = false;
  decision = "deny";
  policy_version = version;
  reasons = reasons;
}

unfoldable pub allow : String → List String → PolicyDecision
allow version reasons = record {
  allowed = true;
  decision = "allow";
  policy_version = version;
  reasons = reasons;
}

unfoldable pub require_approval : String → List String → PolicyDecision
require_approval version reasons = record {
  allowed = true;
  decision = "require_approval";
  policy_version = version;
  reasons = reasons;
}

module _ (is_blank : String → Bool) (version : String) where
  -- `isinstance(value, str) and value.strip()`
  unfoldable pub is_identifier : Option Fact → Bool
  is_identifier (some (text value)) = not (is_blank value)
  is_identifier _ = false

  -- a reason, where the fact is no identifier
  unfoldable pub unless_identifier : String → Dict Fact → String → List String
  unfolding is_identifier get
  unless_identifier key facts reason = if is_identifier (get key facts) then [] else reason ∷ []

  -- a denial where there are reasons
  unfoldable pub deny_or : List String → PolicyDecision → PolicyDecision
  unfolding deny
  deny_or [] decision = decision
  deny_or (reason ∷ reasons) decision = deny version (reason ∷ reasons)

  unfoldable pub phase_authorization : PolicyRequest → PolicyDecision
  unfolding unless_identifier deny_or allow
  phase_authorization request =
      deny_or
        (unless_identifier "phase_id" request.facts
            "phase_id must identify the phase being authorized"
          ++ unless_identifier "case_id" request.facts "case_id must identify the owning case")
        (allow version ("phase authorized; writes remain bound to its resolved scope" ∷ []))

  unfoldable pub apply_to_real_repo : PolicyRequest → PolicyDecision
  unfolding unless_identifier deny_or require_approval
  apply_to_real_repo request =
      deny_or
        (unless_identifier "phase_id" request.facts "phase_id must identify the phase being applied"
          ++ (unless_identifier "case_id" request.facts "case_id must identify the owning case"
              ++ unless_identifier "base_revision" request.facts
                  "base_revision must identify the commit the patch was built against"))
        (require_approval version
          ("phase requires an owner approval before a real repository write" ∷ []))

  role_decision : Option Fact → PolicyDecision
  unfolding deny allow require_approval
  role_decision (some (text role)) =
      if contains role ("owner" ∷ "approver" ∷ "platform_owner" ∷ [])
      then allow version ("role may approve this request" ∷ [])
      else if role == "requester"
      then require_approval version ("requester role requires an owner approval" ∷ [])
      else deny version ("role cannot submit an A1 request" ∷ [])
  role_decision _ = deny version ("role cannot submit an A1 request" ∷ [])

  unfoldable pub a1_request_approval : PolicyRequest → PolicyDecision
  unfolding role_decision get
  a1_request_approval request = role_decision (get "actor_role" request.facts)

  -- `_present`
  unfoldable pub present : Option Fact → Bool
  present none = false
  present (some null) = false
  present (some (text value)) = not (is_blank value)
  present (some _) = true

  -- `_require_non_empty_facts` for the one required fact that each caller names
  unfoldable pub require_non_empty_fact : String → String → PolicyRequest → PolicyDecision
  unfolding present deny allow get
  require_non_empty_fact required subject request =
      if present (get required request.facts)
      then allow version (subject ∷ [])
      else deny version (subject ∷ [])

  unfoldable pub automatic_intake : PolicyRequest → PolicyDecision
  unfolding require_non_empty_fact
  automatic_intake request = require_non_empty_fact "opportunity_id" "automatic intake" request

  unfoldable pub discovery_read : PolicyRequest → PolicyDecision
  unfolding require_non_empty_fact
  discovery_read request = require_non_empty_fact "query_kind" "historical discovery read" request
