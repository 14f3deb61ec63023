-- ===== src/Ports/Policy.antt =====
-- ports/policy.py and the policy models of contracts/platform.py.
use agent_code_optimize_plug.Prelude.{ℕ, String, Bool, List}
use agent_code_optimize_plug.Prelude.Dict.{Dict}
use agent_code_optimize_plug.Contracts.Errors.{Result}
use agent_code_optimize_plug.Contracts.Request.{Float}

-- A value of a `facts` dictionary.
pub data Fact : Type 0 where
  null : Fact
  boolean : Bool → Fact
  natural : ℕ → Fact
  negative : ℕ → Fact
  floating : Float → Fact
  text : String → Fact
  texts : List String → Fact

pub record PolicyRequest : Type 0 where
  pub decision_type : String
  pub policy_version : String
  pub tenant_id : String
  pub facts : Dict Fact

pub record PolicyDecision : Type 0 where
  pub allowed : Bool
  pub decision : String
  pub policy_version : String
  pub reasons : List String

pub record PolicyPort : Type 0 where
  pub evaluate : PolicyRequest → Result PolicyDecision
