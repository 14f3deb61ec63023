-- ===== src/Contracts/Request.antt =====
-- The optimization request (contracts/a1.py) as the shared workflow reads it, and Python's floats.
-- A float is its bit pattern; what the program computes with floats is `FloatOps`, a parameter.
use agent_code_optimize_plug.Prelude.{ℕ, String, Bool, List}

pub record Float : Type 0 where
  pub bits : ℕ

-- Python's float operations, and the literals of the program.
pub record FloatOps : Type 0 where
  pub fle : Float → Float → Bool
  pub flt : Float → Float → Bool
  pub feq : Float → Float → Bool
  pub fadd : Float → Float → Float
  pub fsub : Float → Float → Float
  pub fmul : Float → Float → Float
  pub fdiv : Float → Float → Float
  pub fabs : Float → Float
  pub of_ℕ : ℕ → Float
  -- `sum(xs)`
  pub fsum : List Float → Float
  pub nan : Float
  -- a decimal literal: its digits without the point, and how many stand behind the point
  pub literal : ℕ → ℕ → Float

pub data Direction : Type 0 where
  minimize maximize target : Direction

pub record Criterion : Type 0 where
  pub criterion_id : String
  pub metric_id : String
  pub direction : Direction
  pub target_value : Float
  pub weight : Float

pub record Guardrail : Type 0 where
  pub guardrail_id : String
  pub metric_id : String
  pub operator : String
  pub threshold : Float

pub record OptimizationRequest : Type 0 where
  pub criteria : List Criterion
  pub guardrails : List Guardrail
