-- ===== src/Runtime/RouteKeys/Resumed.antt =====
-- The history that `resume_case` (application/resume.py) hands to a graph without a checkpoint: the
-- halted node's plain entry is popped, its numbered entries stay.
use agent_code_optimize_plug.Prelude.{
  ℕ, ◌-◌, ◌<◌, String, ◌≡◌, ◌∙◌, none, some, [], ◌∷◌, eq_iff, eq_refl, arith,
}
use agent_code_optimize_plug.Prelude.Dict.{Dict, get, pop, get-pop}
use agent_code_optimize_plug.Contracts.Errors.{ok}
use agent_code_optimize_plug.Contracts.Refs.{InterruptEnvelope, ResumeInterruptCommand}
use agent_code_optimize_plug.State.{OptimizationState, merge_node_routes}
use agent_code_optimize_plug.Resume.{resumed_state}
use agent_code_optimize_plug.State.Routes.{merge_node_routes_one}
use agent_code_optimize_plug.Runtime.RouteKeys.{numbered, next_route_key, route_for}
use agent_code_optimize_plug.Runtime.RouteKeys.Slots.{IsDense, slot_key, numbered-ne_plain}
use agent_code_optimize_plug.Runtime.RouteKeys.Laws.{route_for_dense}

module _ (node_id halted : String) (routes : Dict String) (next : ℕ)
    (d : IsDense node_id routes next) (revisited : 2 < next)
    (latest : get (numbered node_id (next - 1)) routes ≡ some halted) where
  -- without the plain entry, any route is merged, and the router reads the latest slot as before
  popped-route_for :
      (route : String)
      → (m : Dict String) × (merge_node_routes
            (pop node_id routes)
            ((next_route_key node_id (pop node_id routes) route, route) ∷ [])
          ≡ ok m)
        × (route_for node_id m ≡ halted)
  unfolding next_route_key
  popped-route_for route =
      let popped = pop node_id routes in
      let gone : get node_id popped ≡ none =
        get-pop node_id node_id routes ∙ rw (eq_refl node_id) in
      let (m, merged, r) = merge_node_routes_one node_id route popped (λ w e. cc) in
      let kept : (n : ℕ) → get (numbered node_id n) m ≡ get (numbered node_id n) routes = λ n.
        ground (
          arith,
          r (numbered node_id n),
          get-pop node_id (numbered node_id n) routes,
          eq_iff node_id (numbered node_id n),
          (λ (e : numbered node_id n ≡ node_id). numbered-ne_plain node_id n e),
        ) in
      let d' : IsDense node_id m next = record {
        starts = d.starts;
        filled = λ n lo hi. rw (kept n) (d.filled n lo hi);
        free = λ n lo. rw (kept n) (d.free n lo);
        plain = λ h. absurd (ground (arith, r node_id, eq_refl node_id));
      } in
      let last : slot_key node_id (next - 1) ≡ numbered node_id (next - 1) = ground arith in
      (
        m,
        rw gone merged,
        route_for_dense halted d' (rw last (kept (next - 1) ∙ latest))
            (ground (arith, r node_id, eq_refl node_id)),
      )

-- After `resume_case` prepared a new state for the halted node, where the latest entry of that node was
-- a numbered slot: whatever route the node then commits, the commit is merged without conflict, and
-- the router reads the route of the halt again.
pub resumed_node-route_for :
    (s : OptimizationState) (command : ResumeInterruptCommand) (interrupt : InterruptEnvelope)
    (halted : String) (next : ℕ)
    → IsDense interrupt.stage s.node_routes next
    → 2 < next
    → get (numbered interrupt.stage (next - 1)) s.node_routes ≡ some halted
    → (route : String)
    → (m : Dict String) × (merge_node_routes (resumed_state s command interrupt).node_routes (
          (
            next_route_key interrupt.stage (resumed_state s command interrupt).node_routes route,
            route,
          )
          ∷ [])
        ≡ ok m)
      × (route_for interrupt.stage m ≡ halted)
unfolding resumed_state
resumed_node-route_for s command interrupt halted next dense revisited latest route =
    popped-route_for interrupt.stage halted s.node_routes next dense revisited latest route
