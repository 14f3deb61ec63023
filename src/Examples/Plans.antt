-- ===== src/Examples/Plans.antt =====
-- Plans of S02 (application/s02_handlers) and runs inside the stages (orchestration/subgraphs).
use agent_code_optimize_plug.Prelude.{
  ◌+◌, ◌*◌, ◌≤◌, String, true, false, none, some, List, [], ◌∷◌, ◌≡◌, ◌↔◌, refl, arith, contains,
  Memᴰ, sorted, sorted_insert,
}
use agent_code_optimize_plug.Prelude.Dict.{collect, put, get}
use agent_code_optimize_plug.Contracts.Strategy.{prompt, code}
use agent_code_optimize_plug.Contracts.Plan.{PlanTask, ExecutionPhase, diagnostic, implementation}
use agent_code_optimize_plug.Workflow.{s02}
use agent_code_optimize_plug.Subgraphs.{
  node, subgraph, successor, walk, then_walk, follow, node_ids, edges_of, s02_edges, slice,
  add_linear_edges, allowed_routes, route_overrides, s01_overrides, s02_overrides, s03_overrides,
  s04_overrides, s05_overrides, s06_overrides, s07_overrides, Target,
}
use agent_code_optimize_plug.Subgraphs.Laws.{walk-bounded, successor-allowed, IsInside}
use agent_code_optimize_plug.S02.Acyclic.{
  check_acyclic, task_graph, first_cycle, next_task, visit, visit_all, then_visit, enter, leave,
}
use agent_code_optimize_plug.S02.Acyclic.Path.{Depends}
use agent_code_optimize_plug.S02.Acyclic.Laws.{check_acyclic_iff}
use agent_code_optimize_plug.S02.Checks.{check_risk_ladder_order, tier_of}
use agent_code_optimize_plug.S02.Checks.Laws.{check_risk_ladder_order-tiers}

abbrev task : String → List String → PlanTask
task task_id depends_on = record {
  task_id = task_id;
  phase_id = "P1";
  files = "a.py" ∷ [];
  depends_on = depends_on;
  proposed_creation = false;
}

abbrev looping : List PlanTask
looping = task "T1" ("T2" ∷ []) ∷ task "T2" ("T1" ∷ []) ∷ []

abbrev pub chained : List PlanTask
chained = task "T1" ("T2" ∷ []) ∷ task "T2" ("T9" ∷ []) ∷ []

loops : check_acyclic (λ t. t) looping ≡ (false, some "dependency cycle detected involving T1")
unfolding check_acyclic task_graph first_cycle next_task visit visit_all then_visit enter leave
    collect put get
loops = refl

chains : check_acyclic (λ t. t) chained ≡ (true, none)
unfolding check_acyclic task_graph first_cycle next_task visit visit_all then_visit enter leave
    collect put get
chains = refl

check_acyclic_iff_example :
    ((check_acyclic (λ t. t) looping).0 ≡ true)
    ↔ ((t : String) → ¬ Depends (task_graph looping) t t)
check_acyclic_iff_example = check_acyclic_iff (λ t. t) looping

abbrev probe_phase : ExecutionPhase
probe_phase = record {
  phase_id = "P1";
  sequence = 1;
  phase_kind = diagnostic;
  treatment_variable = "cache";
  risk_tier = prompt;
  rollback_command = none;
}

abbrev change_phase : ExecutionPhase
change_phase = record {
  phase_id = "P2";
  sequence = 2;
  phase_kind = implementation;
  treatment_variable = "cache";
  risk_tier = code;
  rollback_command = some "git checkout .";
}

abbrev pub phases : List ExecutionPhase
phases = change_phase ∷ probe_phase ∷ []

climbs : (check_risk_ladder_order phases).0 ≡ true
unfolding check_risk_ladder_order sorted sorted_insert
climbs = refl

check_risk_ladder_order-tiers_example : tier_of probe_phase ≤ tier_of change_phase
check_risk_ladder_order-tiers_example =
    check_risk_ladder_order-tiers phases probe_phase change_phase climbs
      (Memᴰ.tail (Memᴰ.head refl)) (Memᴰ.head refl) (omega arith)

repaired_once :
    walk (subgraph s02) (node "S02.10") (
      "continue" ∷ "continue" ∷ "continue" ∷ "continue" ∷ "continue" ∷ "continue" ∷ "continue"
      ∷ "continue" ∷ "revision" ∷ "continue" ∷ [])
    ≡ some (node "S02.40")
unfolding walk then_walk subgraph successor follow node_ids edges_of s02_edges slice
    add_linear_edges get
repaired_once = refl

walk-bounded_example : 10 ≤ 10 + 10 * 1
unfolding node_ids
walk-bounded_example =
    walk-bounded s02
      ("continue" ∷ "continue" ∷ "continue" ∷ "continue" ∷ "continue" ∷ "continue" ∷ "continue"
        ∷ "continue" ∷ "revision" ∷ "continue" ∷ [])
      (node "S02.40") repaired_once

may_revise : contains "revision" (allowed_routes "S02.81") ≡ true
unfolding allowed_routes route_overrides s01_overrides s02_overrides s03_overrides s04_overrides
    s05_overrides s06_overrides s07_overrides get
may_revise = refl

successor-allowed_example :
    (target : Target) × (successor (subgraph s02) "S02.81" "revision" ≡ some target)
    × IsInside (node_ids s02) target
unfolding node_ids
successor-allowed_example = successor-allowed s02 "S02.81" "revision" refl may_revise
