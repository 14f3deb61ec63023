-- ===== src/S02/Acyclic.antt =====
-- `_check_acyclic` of application/s02_handlers/shared.py: a depth-first search over the tasks.
pub mod Path
pub mod Order
pub mod Search
pub mod Laws
use agent_code_optimize_plug.Prelude.{
  ℕ, zero, suc, String, Bool, true, false, Option, none, some, List, [], ◌∷◌, not, ◌==◌,
  if◌then◌else◌, filter, contains, map, length, or_default,
}
use agent_code_optimize_plug.Prelude.Text.{◌^^◌}
use agent_code_optimize_plug.Prelude.Dict.{Dict, get, has, collect}
use agent_code_optimize_plug.Contracts.Plan.{PlanTask}

abbrev pub Graph : Type 0
Graph = Dict (List String)

-- `visiting` and `visited`: sets as lists
pub record Marks : Type 0 where
  pub visiting : List String
  pub visited : List String

-- how a visit ends: `False`, `True` with the marks that it left, or out of the model's fuel
pub data Visit : Type 0 where
  cycle : Visit
  done : Marks → Visit
  exhausted : Visit

unfoldable pub task_graph : List PlanTask → Graph
unfolding collect
task_graph tasks = collect (λ t. t.task_id) (λ t. t.depends_on) tasks []

-- `graph.get(task_id, [])`
abbrev pub dependencies : Graph → String → List String
dependencies graph task_id = or_default (get task_id graph) []

abbrev pub discard : String → List String → List String
discard x xs = filter (λ y. not (y == x)) xs

-- goes on from a visit that succeeded
unfoldable pub then_visit : Visit → (Marks → Visit) → Visit
then_visit cycle next = cycle
then_visit (done marks) next = next marks
then_visit exhausted next = exhausted

-- the loop over the dependencies
unfoldable pub visit_all : (String → Marks → Visit) → Graph → List String → Marks → Visit
unfolding then_visit
visit_all visit graph [] marks = done marks
visit_all visit graph (d ∷ ds) marks =
    then_visit (if has d graph then visit d marks else done marks) (visit_all visit graph ds)

-- the marks after all dependencies of a task
unfoldable pub leave : String → Visit → Visit
leave task_id cycle = cycle
leave task_id (done marks) =
    done (record { visiting = discard task_id marks.visiting; visited = task_id ∷ marks.visited })
leave task_id exhausted = exhausted

-- the tests of a visit, by whether the task was visited and is being visited
unfoldable pub enter : Bool → Bool → String → Marks → (Marks → Visit) → Visit
enter true _ task_id marks search = done marks
enter false true task_id marks search = cycle
enter false false task_id marks search =
    search (record marks { visiting = task_id ∷ marks.visiting })

-- `visit`, on fuel for the depth of the search
unfoldable pub visit : ℕ → Graph → String → Marks → Visit
unfolding visit_all leave enter
visit zero graph task_id marks = exhausted
visit (suc fuel) graph task_id marks =
    enter (contains task_id marks.visited) (contains task_id marks.visiting) task_id marks λ marks'.
      leave task_id (visit_all (visit fuel graph) graph (dependencies graph task_id) marks')

-- goes on to the next tasks, or stops at one whose visit did not succeed
unfoldable pub next_task : String → Visit → (Marks → Option String) → Option String
next_task task_id cycle next = some task_id
next_task task_id (done marks) next = next marks
next_task task_id exhausted next = some task_id

-- the loop over the tasks: the first whose visit does not succeed
unfoldable pub first_cycle : ℕ → Graph → List String → Marks → Option String
unfolding visit next_task
first_cycle fuel graph [] marks = none
first_cycle fuel graph (t ∷ ts) marks =
    next_task t (visit fuel graph t marks) (first_cycle fuel graph ts)

abbrev pub verdict : (String → String) → Option String → Bool × Option String
verdict repr none = (true, none)
verdict repr (some t) = (false, some ("dependency cycle detected involving " ^^ repr t))

abbrev pub keys : Graph → List String
keys graph = map (λ e. e.0) graph

-- `repr` is Python's, of a string
unfoldable pub check_acyclic : (String → String) → List PlanTask → Bool × Option String
unfolding task_graph first_cycle
check_acyclic repr tasks =
    let graph = task_graph tasks in
    verdict repr
      (first_cycle (suc (length graph)) graph (keys graph) (record { visiting = []; visited = [] }))
