-- ===== src/Workflow/Laws.antt =====
-- When the outer graph of orchestration/shared_workflow.py goes on, back, or ends.
use agent_code_optimize_plug.Prelude.{
  ℕ, ◌<◌, Bool, true, false, Option, none, some, ◌≡◌, ◌≢◌, ◌↔◌, ◌⊎◌, refl, ◌==◌, not, if◌then◌else◌,
  contains, leb, eq_iff, arith, Bool-cases, inl, inr,
}
use agent_code_optimize_plug.Contracts.Decide.{Outcome, keep, fix_one_part, revert, escalate}
use agent_code_optimize_plug.State.{OptimizationState}
use agent_code_optimize_plug.Runtime.RouteKeys.{route_for}
use agent_code_optimize_plug.Workflow.{
  Stage, s01, s02, s03, s04, s05, s06, s07, completed, on_continue, gate_passed,
  verification_outcome, bounded_outcome, policy_outcome, after_s04, after_s06, next_stage,
  max_phase_repair_attempts,
}

-- the edge out of S04, by what decides it
measure_edge :
    (ran passed late : Bool)
    → after_s04
        (if not ran then "halt" else if passed then "pass" else if late then "halt" else "revision")
      ≡ some s05
    → (ran ≡ true) × (passed ≡ true)
unfolding after_s04
measure_edge true true late h = (refl, refl)
measure_edge true false true h = absurd cc
measure_edge true false false h = absurd cc
measure_edge false passed late h = absurd cc

repair_edge :
    (ran passed late : Bool)
    → after_s04
        (if not ran then "halt" else if passed then "pass" else if late then "halt" else "revision")
      ≡ some s03
    → late ≡ false
unfolding after_s04
repair_edge true true late h = absurd cc
repair_edge true false true h = absurd cc
repair_edge true false false h = refl
repair_edge false passed late h = absurd cc

-- the edge out of S06, by what decides it
report_edge :
    (reached : Bool) (o : Option Outcome) (n : ℕ)
    → after_s06 (if not reached then "halt" else bounded_outcome o n) ≡ some s07
    → (reached ≡ true) × (o ≡ some keep)
unfolding after_s06 bounded_outcome
report_edge true (some keep) n h = (refl, refl)
report_edge true (some fix_one_part) n h = elim (Bool-cases (leb 5 n)) [
  | inl late ↦ let e = rw late at h in absurd cc
  | inr early ↦ let e = rw early at h in absurd cc
]
report_edge true (some revert) n h = absurd cc
report_edge true (some escalate) n h = absurd cc
report_edge true none n h = absurd cc
report_edge false o n h = absurd cc

fix_edge :
    (reached : Bool) (o : Option Outcome) (n : ℕ)
    → after_s06 (if not reached then "halt" else bounded_outcome o n) ≡ some s03
    → n < 5
unfolding after_s06 bounded_outcome
fix_edge true (some fix_one_part) n h = elim (Bool-cases (leb 5 n)) [
  | inl late ↦ let e = rw late at h in absurd cc
  | inr early ↦ ground (arith, early)
]
fix_edge true (some keep) n h = absurd cc
fix_edge true (some revert) n h = absurd cc
fix_edge true (some escalate) n h = absurd cc
fix_edge true none n h = absurd cc
fix_edge false o n h = absurd cc

on_continue-other :
    (b : Bool) (a c : Stage) → a ≢ c → on_continue (if b then "continue" else "halt") a ≢ some c
on_continue-other true a c ne h = ne cc
on_continue-other false a c ne h = cc

-- The graph goes from S04 to the measurements of S05 exactly when S04.90 has run and the gate of the
-- verification passed.
pub next_stage-measure_iff :
    (state : OptimizationState)
    → (next_stage s04 state ≡ some s05)
      ↔ ((contains "S04.90" state.completed_nodes ≡ true) × (gate_passed state.s04_manifest ≡ true))
unfolding next_stage verification_outcome after_s04
next_stage-measure_iff state = (
  measure_edge (contains "S04.90" state.completed_nodes) (gate_passed state.s04_manifest)
      (leb max_phase_repair_attempts state.s03_revision_attempts),
  λ h. rw (h.0, h.1),
)

-- The graph enters S03 only from the plan of S02, or for a repair while fewer than five repairs have
-- been counted.
pub next_stage-repair_bounded :
    (stage : Stage) (state : OptimizationState)
    → next_stage stage state ≡ some s03
    → (stage ≡ s02) ⊎ (state.s03_revision_attempts < 5)
unfolding next_stage completed verification_outcome policy_outcome
next_stage-repair_bounded s01 state h =
    absurd (on_continue-other (contains "S01.90" state.completed_nodes) s02 s03 (λ e. cc) h)
next_stage-repair_bounded s02 state h = inl refl
next_stage-repair_bounded s03 state h =
    absurd (on_continue-other (contains "S03.90" state.completed_nodes) s04 s03 (λ e. cc) h)
next_stage-repair_bounded s04 state h =
    let early =
      repair_edge (contains "S04.90" state.completed_nodes) (gate_passed state.s04_manifest)
        (leb max_phase_repair_attempts state.s03_revision_attempts) h in
    inr (ground (arith, early))
next_stage-repair_bounded s05 state h =
    absurd (on_continue-other (contains "S05.90" state.completed_nodes) s06 s03 (λ e. cc) h)
next_stage-repair_bounded s06 state h = inr (
    fix_edge (route_for "S06.90" state.node_routes == "continue") state.s06_decision
      state.s03_revision_attempts h)
next_stage-repair_bounded s07 state h = absurd cc

-- The graph goes from S06 to the report of S07 exactly when the decision is to keep the phase and the
-- latest route of S06.90 is to continue.
pub next_stage-report_iff :
    (state : OptimizationState)
    → (next_stage s06 state ≡ some s07)
      ↔ ((route_for "S06.90" state.node_routes ≡ "continue") × (state.s06_decision ≡ some keep))
unfolding next_stage policy_outcome after_s06 bounded_outcome
next_stage-report_iff state = (
  λ h.
      let (reached, kept) =
        report_edge (route_for "S06.90" state.node_routes == "continue") state.s06_decision
          state.s03_revision_attempts h in
      ((eq_iff (route_for "S06.90" state.node_routes) "continue").0 reached, kept),
  λ h. rw (h.0, h.1),
)
