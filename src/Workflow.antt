-- ===== src/Workflow.antt =====
-- orchestration/shared_workflow.py and `completed` of orchestration/subgraphs/common.py: the edges of
-- the outer graph between the stages S01 to S07.
pub mod Laws
use agent_code_optimize_plug.Prelude.{
  ℕ, String, Bool, true, false, Option, none, some, List, ◌==◌, ◌&&◌, not, if◌then◌else◌, contains,
  leb,
}
use agent_code_optimize_plug.Contracts.Verify.{VerificationManifest}
use agent_code_optimize_plug.Contracts.Decide.{Outcome, keep, fix_one_part, revert, escalate}
use agent_code_optimize_plug.State.{OptimizationState}
use agent_code_optimize_plug.Runtime.RouteKeys.{route_for}

abbrev pub max_phase_repair_attempts : ℕ
max_phase_repair_attempts = 5

unfoldable pub completed : String → OptimizationState → String
completed required_node state =
    if contains required_node state.completed_nodes then "continue" else "halt"

abbrev pub gate_passed : Option VerificationManifest → Bool
gate_passed none = false
gate_passed (some manifest) = manifest.gate_passed

unfoldable pub verification_outcome : OptimizationState → String
verification_outcome state =
    if not (contains "S04.90" state.completed_nodes)
    then "halt"
    else if gate_passed state.s04_manifest
    then "pass"
    else if leb max_phase_repair_attempts state.s03_revision_attempts
    then "halt"
    else "revision"

-- `decision.get("outcome", "").lower()`, with the bound on repairs
unfoldable pub bounded_outcome : Option Outcome → ℕ → String
bounded_outcome none attempts = "halt"
bounded_outcome (some keep) attempts = "keep"
bounded_outcome (some fix_one_part) attempts =
    if leb max_phase_repair_attempts attempts then "halt" else "fix_one_part"
bounded_outcome (some revert) attempts = "revert"
bounded_outcome (some escalate) attempts = "escalate"

unfoldable pub policy_outcome : OptimizationState → String
unfolding route_for bounded_outcome
policy_outcome state =
    if not (route_for "S06.90" state.node_routes == "continue")
    then "halt"
    else bounded_outcome state.s06_decision state.s03_revision_attempts

pub data Stage : Type 0 where
  s01 s02 s03 s04 s05 s06 s07 : Stage

-- the mapping of an edge, `none` being END
abbrev pub on_continue : String → Stage → Option Stage
on_continue outcome stage = if outcome == "continue" then some stage else none

unfoldable pub after_s04 : String → Option Stage
after_s04 outcome =
    if outcome == "pass" then some s05 else if outcome == "revision" then some s03 else none

unfoldable pub after_s06 : String → Option Stage
after_s06 outcome =
    if outcome == "keep"
    then some s07
    else if outcome == "fix_one_part"
    then some s03
    else if outcome == "revert"
    then some s01
    else none

-- The stage that the outer graph runs after a stage ended in a state.
unfoldable pub next_stage : Stage → OptimizationState → Option Stage
unfolding completed verification_outcome policy_outcome after_s04 after_s06
next_stage s01 state = on_continue (completed "S01.90" state) s02
next_stage s02 state = on_continue (completed "S02.90" state) s03
next_stage s03 state = on_continue (completed "S03.90" state) s04
next_stage s04 state = after_s04 (verification_outcome state)
next_stage s05 state = on_continue (completed "S05.90" state) s06
next_stage s06 state = after_s06 (policy_outcome state)
next_stage s07 state = none
