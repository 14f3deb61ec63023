-- ===== src/S02/Acyclic/Path.antt =====
-- Chains of dependencies between the tasks of a plan (application/s02_handlers/shared.py).
use agent_code_optimize_plug.Prelude.{String, ◌≡◌, true, contains}
use agent_code_optimize_plug.Prelude.Dict.{has}
use agent_code_optimize_plug.S02.Acyclic.{Graph, dependencies}

-- a task of the graph that another depends on
abbrev pub IsEdge : Graph → String → String → Type 0
IsEdge graph a b = (contains b (dependencies graph a) ≡ true) × (has b graph ≡ true)

-- `a` depends on `b`, in one step or more
pub data Depends (graph : Graph) : String → String → Type 0 where
  direct : {a b : String} → IsEdge graph a b → Depends graph a b
  further : {a b c : String} → Depends graph a b → IsEdge graph b c → Depends graph a c
