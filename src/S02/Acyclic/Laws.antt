-- ===== src/S02/Acyclic/Laws.antt =====
-- `_check_acyclic` (application/s02_handlers/shared.py) finds exactly the cycles.
use agent_code_optimize_plug.Prelude.{
  ℕ, suc, ◌<◌, ◌≤◌, String, true, Option, none, some, List, [], ◌∷◌, ◌≡◌, ◌↔◌, refl, sym, ap, subst,
  ◌∙◌, not, ◌==◌, contains, length, count, arith, eq_iff, Bool-cases, inl, inr, is_some, or_default,
}
use agent_code_optimize_plug.Prelude.Dict.{get, has}
use agent_code_optimize_plug.Contracts.Plan.{PlanTask}
use agent_code_optimize_plug.S02.Acyclic.{
  Graph, Marks, Visit, cycle, done, exhausted, visit, first_cycle, next_task, verdict, keys,
  task_graph, check_acyclic,
}
use agent_code_optimize_plug.S02.Acyclic.Path.{Depends}
use agent_code_optimize_plug.S02.Acyclic.Order.{IsOrdered, place-chain}
use agent_code_optimize_plug.S02.Acyclic.Search.{
  open_tasks, GoodVisit, visit-GoodVisit, contains-keys,
}

module _ (graph : Graph) where
  -- how the loop over the tasks `ts` may end
  GoodSearch : List String → List String → Option String → Type 0
  GoodSearch ts visited none =
      (order : List String) × IsOrdered graph order
      × ((t : String) → contains t ts ≡ true → contains t order ≡ true)
      × ((t : String) → contains t visited ≡ true → contains t order ≡ true)
  GoodSearch ts visited (some _) = (t : String) × Depends graph t t

  next-GoodSearch :
      (t : String) (ts : List String) (marks : Marks) (ended : Visit) (next : Marks → Option String)
      → GoodVisit graph (λ x. x ≡ t) marks ended
      → ((after : Marks)
          → after.visiting ≡ marks.visiting
          → IsOrdered graph after.visited
          → GoodSearch ts after.visited (next after))
      → GoodSearch (t ∷ ts) marks.visited (next_task t ended next)
  unfolding GoodVisit GoodSearch next_task
  next-GoodSearch t ts marks cycle next good rest = good
  next-GoodSearch t ts marks exhausted next good rest = absurd good
  next-GoodSearch t ts marks (done after) next good rest =
      weaken (next after) (rest after good.0 good.1)
    where
      weaken :
          (r : Option String) → GoodSearch ts after.visited r → GoodSearch (t ∷ ts) marks.visited r
      weaken (some _) h = h
      weaken none h = (
        h.0,
        h.1,
        λ x listed. elim (Bool-cases (t == x)) [
          | inl e ↦ h.3 x (good.2 x (ground (arith, eq_iff t x)))
          | inr e ↦ h.2 x (ground (arith, listed))
        ],
        λ x before. h.3 x (good.3 x before),
      )

  open_none : (ts : List String) → count (λ k. not (contains k [])) ts ≤ length ts
  open_none [] = omega arith
  open_none (k ∷ ks) = omega (arith, open_none ks)

  length-keys : (d : Graph) → length (keys d) ≡ length d
  length-keys [] = refl
  length-keys (e ∷ d) = ap suc (length-keys d)

  has_dependencies :
      (b : String) (found : Option (List String))
      → contains b (or_default found []) ≡ true
      → is_some found ≡ true
  has_dependencies b none h = cc (h)
  has_dependencies b (some ds) h = refl

  -- a task that depends on something is in the graph
  Depends-has : (a b : String) → Depends graph a b → has a graph ≡ true
  Depends-has a b (Depends.direct edge) = has_dependencies b (get a graph) edge.0
  Depends-has a b (Depends.further {b = m} chain edge) = Depends-has a m chain

  verdict_iff :
      (repr : String → String) (ts : List String) (found : Option String)
      → ((t : String) → has t graph ≡ true → contains t ts ≡ true)
      → GoodSearch ts [] found
      → ((verdict repr found).0 ≡ true) ↔ ((t : String) → ¬ Depends graph t t)
  unfolding GoodSearch
  verdict_iff repr ts (some i) all good = (λ h. cc (h), λ none. absurd (none good.0 good.1))
  verdict_iff repr ts none all good = (
    λ h t chain.
        let (lower, _) =
          place-chain graph t t good.0 good.1 (good.2 t (all t (Depends-has t t chain))) chain in
        omega (arith, lower),
    λ h. refl,
  )

  first_cycle-GoodSearch :
      (fuel : ℕ) (ts : List String) (marks : Marks)
      → ((t : String) → contains t ts ≡ true → has t graph ≡ true)
      → IsOrdered graph marks.visited
      → marks.visiting ≡ []
      → length graph < fuel
      → GoodSearch ts marks.visited (first_cycle fuel graph ts marks)
  unfolding GoodSearch first_cycle
  first_cycle-GoodSearch fuel [] marks known ordered idle bound =
      (marks.visited, ordered, λ t h. cc (h), λ t h. h)
  first_cycle-GoodSearch fuel (t ∷ ts) marks known ordered idle bound =
      next-GoodSearch t ts marks (visit fuel graph t marks) (first_cycle fuel graph ts)
        (visit-GoodVisit graph fuel t marks (known t (ground (arith, eq_iff t t))) ordered
          (λ v h. cc (ap (contains v) idle, h))
          (subst (λ vs. open_tasks graph vs < fuel) (sym idle)
            (omega (arith, bound, open_none (keys graph), length-keys graph))))
        (λ after same ordered'.
          first_cycle-GoodSearch fuel ts after (λ x h. known x (ground (arith, h))) ordered'
            (same ∙ idle) bound)

-- The search finds a cycle exactly where a task depends on itself, directly or over other tasks, and
-- it ends: no depth of the dependencies exhausts the fuel, which is one more than the tasks.
pub check_acyclic_iff :
    (repr : String → String) (tasks : List PlanTask)
    → ((check_acyclic repr tasks).0 ≡ true) ↔ ((t : String) → ¬ Depends (task_graph tasks) t t)
unfolding check_acyclic
check_acyclic_iff repr tasks =
    let graph = task_graph tasks in
    let start : Marks = record { visiting = []; visited = [] } in
    verdict_iff graph repr (keys graph) (first_cycle (suc (length graph)) graph (keys graph) start)
      (λ t h. contains-keys graph t graph ∙ h)
      (first_cycle-GoodSearch graph (suc (length graph)) (keys graph) start
        (λ t h. sym (contains-keys graph t graph) ∙ h) tt refl (omega arith))
