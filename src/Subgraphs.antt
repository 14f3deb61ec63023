-- ===== src/Subgraphs.antt =====
-- The graphs inside the stages S01 to S07 (orchestration/subgraphs/*.py, with the node ids of
-- orchestration/catalog.py and the routes that the stages' registrations allow). LangGraph's part is how
-- edges are looked up: after a node the first edge that was added for it is followed.
pub mod Laws
use agent_code_optimize_plug.Prelude.{
  ℕ, zero, suc, String, Bool, true, false, Option, none, some, List, [], ◌∷◌, ◌++◌, ◌==◌,
  if◌then◌else◌, or_default, map,
}
use agent_code_optimize_plug.Prelude.Dict.{Dict, get}
use agent_code_optimize_plug.Workflow.{Stage, s01, s02, s03, s04, s05, s06, s07}

-- where an edge leads: a node, or end
pub data Target : Type 0 where
  end : Target
  node : String → Target

-- `add_edge` and `add_routed_edge`
pub data Edge : Type 0 where
  straight : Target → Edge
  routed : Dict Target → Edge

pub record Subgraph : Type 0 where
  pub entry : String
  pub nodes : List String
  pub edges : Dict Edge

unfoldable pub node_ids : Stage → List String
node_ids s01 =
    "S01.10" ∷ "S01.20" ∷ "S01.30" ∷ "S01.40" ∷ "S01.50" ∷ "S01.60" ∷ "S01.70" ∷ "S01.80" ∷ "S01.90"
    ∷ []
node_ids s02 =
    "S02.10" ∷ "S02.20" ∷ "S02.30" ∷ "S02.40" ∷ "S02.50" ∷ "S02.60" ∷ "S02.70" ∷ "S02.80" ∷ "S02.81"
    ∷ "S02.90" ∷ []
node_ids s03 =
    "S03.10" ∷ "S03.20" ∷ "S03.30" ∷ "S03.40" ∷ "S03.50" ∷ "S03.60" ∷ "S03.70" ∷ "S03.80" ∷ "S03.90"
    ∷ []
node_ids s04 =
    "S04.10" ∷ "S04.20" ∷ "S04.30" ∷ "S04.40" ∷ "S04.50" ∷ "S04.60" ∷ "S04.70" ∷ "S04.80" ∷ "S04.90"
    ∷ []
node_ids s05 =
    "S05.10" ∷ "S05.20" ∷ "S05.30" ∷ "S05.40" ∷ "S05.50" ∷ "S05.60" ∷ "S05.70" ∷ "S05.80" ∷ "S05.90"
    ∷ []
node_ids s06 =
    "S06.10" ∷ "S06.20" ∷ "S06.30" ∷ "S06.40" ∷ "S06.50" ∷ "S06.60" ∷ "S06.70" ∷ "S06.80" ∷ "S06.90"
    ∷ []
node_ids s07 =
    "S07.10" ∷ "S07.20" ∷ "S07.30" ∷ "S07.40" ∷ "S07.50" ∷ "S07.60" ∷ "S07.70" ∷ "S07.80" ∷ "S07.90"
    ∷ []

-- `ids[start:end]`
unfoldable pub slice : ℕ → ℕ → List String → List String
slice start zero ids = []
slice start (suc stop) [] = []
slice zero (suc stop) (x ∷ ids) = x ∷ slice zero stop ids
slice (suc start) (suc stop) (x ∷ ids) = slice start stop ids

unfoldable pub add_linear_edges : List String → Dict Edge
add_linear_edges [] = []
add_linear_edges (x ∷ []) = []
add_linear_edges (x ∷ y ∷ ids) = (x, straight (node y)) ∷ add_linear_edges (y ∷ ids)

abbrev pub go : String → String × Target
go target = ("continue", node target)

abbrev pub rejects : String × Target
rejects = ("rejected", end)

-- the edges of `build_s01_graph`
unfoldable pub s01_edges : Dict Edge
unfolding node_ids slice add_linear_edges
s01_edges =
    ("S01.10", straight (node "S01.20"))
    ∷ ("S01.20", routed (go "S01.30" ∷ rejects ∷ []))
    ∷ (add_linear_edges (slice 2 8 (node_ids s01))
        ++ (("S01.80", routed (go "S01.90" ∷ ("approval", end) ∷ rejects ∷ []))
            ∷ ("S01.90", straight end)
            ∷ []))

-- the edges of `build_s02_graph`
unfoldable pub s02_edges : Dict Edge
unfolding node_ids slice add_linear_edges
s02_edges =
    add_linear_edges (slice 0 9 (node_ids s02))
    ++ (("S02.81", routed (go "S02.90" ∷ ("revision", node "S02.30") ∷ rejects ∷ []))
        ∷ ("S02.90", routed (("continue", end) ∷ ("approval", end) ∷ rejects ∷ []))
        ∷ [])

-- the edges of `build_s03_graph`
unfoldable pub s03_edges : Dict Edge
unfolding node_ids slice add_linear_edges
s03_edges =
    ("S03.10", routed (go "S03.20" ∷ rejects ∷ []))
    ∷ (add_linear_edges (slice 1 6 (node_ids s03))
        ++ (("S03.60", routed (go "S03.70" ∷ rejects ∷ []))
            ∷ ("S03.70", routed (go "S03.80" ∷ rejects ∷ []))
            ∷ ("S03.80", straight (node "S03.90"))
            ∷ ("S03.90", straight end)
            ∷ []))

-- the edges of `build_s04_graph`
unfoldable pub s04_edges : Dict Edge
unfolding node_ids slice add_linear_edges
s04_edges =
    ("S04.10", routed (go "S04.20" ∷ rejects ∷ []))
    ∷ (add_linear_edges (slice 1 8 (node_ids s04))
        ++ (("S04.80", routed (go "S04.90" ∷ ("revision", node "S04.90") ∷ []))
            ∷ ("S04.90", straight end)
            ∷ []))

-- the edges of `build_s05_graph`
unfoldable pub s05_edges : Dict Edge
unfolding node_ids slice add_linear_edges
s05_edges =
    add_linear_edges (slice 0 3 (node_ids s05))
    ++ (("S05.30", routed (go "S05.40" ∷ rejects ∷ []))
        ∷ (add_linear_edges (slice 3 7 (node_ids s05))
            ++ (("S05.70", routed (go "S05.80" ∷ rejects ∷ []))
                ∷ (add_linear_edges (slice 7 9 (node_ids s05))
                    ++ (("S05.90", straight end) ∷ [])))))

-- the edges of `build_s06_graph`
unfoldable pub s06_edges : Dict Edge
unfolding node_ids slice add_linear_edges
s06_edges =
    ("S06.10", routed (go "S06.20" ∷ rejects ∷ []))
    ∷ (add_linear_edges (slice 1 8 (node_ids s06))
        ++ (("S06.80", routed (go "S06.90" ∷ []))
            ∷ ("S06.90", routed (("continue", end) ∷ ("approval", end) ∷ rejects ∷ []))
            ∷ []))

-- the edges of `build_s07_graph`
unfoldable pub s07_edges : Dict Edge
unfolding node_ids slice add_linear_edges
s07_edges =
    ("S07.10", routed (go "S07.20" ∷ rejects ∷ []))
    ∷ (add_linear_edges (slice 1 9 (node_ids s07))
        ++ (("S07.90", routed (("continue", end) ∷ rejects ∷ [])) ∷ []))

unfoldable pub edges_of : Stage → Dict Edge
unfolding s01_edges s02_edges s03_edges s04_edges s05_edges s06_edges s07_edges
edges_of s01 = s01_edges
edges_of s02 = s02_edges
edges_of s03 = s03_edges
edges_of s04 = s04_edges
edges_of s05 = s05_edges
edges_of s06 = s06_edges
edges_of s07 = s07_edges

abbrev pub entry_of : Stage → String
entry_of s01 = "S01.10"
entry_of s02 = "S02.10"
entry_of s03 = "S03.10"
entry_of s04 = "S04.10"
entry_of s05 = "S05.10"
entry_of s06 = "S06.10"
entry_of s07 = "S07.10"

unfoldable pub subgraph : Stage → Subgraph
unfolding node_ids edges_of
subgraph stage = record { entry = entry_of stage; nodes = node_ids stage; edges = edges_of stage }

-- the stage's `_ROUTE_OVERRIDES`
unfoldable pub s01_overrides : Dict (List String)
s01_overrides =
    ("S01.20", "continue" ∷ "rejected" ∷ [])
    ∷ ("S01.80", "continue" ∷ "approval" ∷ "rejected" ∷ [])
    ∷ []

-- the stage's `_ROUTE_OVERRIDES`
unfoldable pub s02_overrides : Dict (List String)
s02_overrides =
    ("S02.10", "continue" ∷ "rejected" ∷ [])
    ∷ ("S02.81", "continue" ∷ "revision" ∷ "rejected" ∷ [])
    ∷ ("S02.90", "continue" ∷ "approval" ∷ "rejected" ∷ [])
    ∷ []

-- the stage's `_ROUTE_OVERRIDES`
unfoldable pub s03_overrides : Dict (List String)
s03_overrides =
    ("S03.10", "continue" ∷ "rejected" ∷ [])
    ∷ ("S03.60", "continue" ∷ "rejected" ∷ [])
    ∷ ("S03.70", "continue" ∷ "rejected" ∷ [])
    ∷ []

-- the stage's `_ROUTE_OVERRIDES`
unfoldable pub s04_overrides : Dict (List String)
s04_overrides =
    ("S04.10", "continue" ∷ "rejected" ∷ []) ∷ ("S04.80", "continue" ∷ "revision" ∷ []) ∷ []

-- the stage's `_ROUTE_OVERRIDES`
unfoldable pub s05_overrides : Dict (List String)
s05_overrides =
    ("S05.30", "continue" ∷ "rejected" ∷ []) ∷ ("S05.70", "continue" ∷ "rejected" ∷ []) ∷ []

-- the stage's `_ROUTE_OVERRIDES`
unfoldable pub s06_overrides : Dict (List String)
s06_overrides =
    ("S06.10", "continue" ∷ "rejected" ∷ [])
    ∷ ("S06.90", "continue" ∷ "approval" ∷ "rejected" ∷ [])
    ∷ []

-- the stage's `_ROUTE_OVERRIDES`
unfoldable pub s07_overrides : Dict (List String)
s07_overrides =
    ("S07.10", "continue" ∷ "rejected" ∷ []) ∷ ("S07.90", "continue" ∷ "rejected" ∷ []) ∷ []

unfoldable pub route_overrides : Dict (List String)
unfolding s01_overrides s02_overrides s03_overrides s04_overrides s05_overrides s06_overrides
    s07_overrides
route_overrides =
    s01_overrides
    ++ (s02_overrides
        ++ (s03_overrides
            ++ (s04_overrides ++ (s05_overrides ++ (s06_overrides ++ s07_overrides)))))

-- the allowed routes of a node's `_spec`
unfoldable pub allowed_routes : String → List String
unfolding get route_overrides
allowed_routes node_id = or_default (get node_id route_overrides) ("continue" ∷ [])

unfoldable pub follow : Option Edge → String → Option Target
unfolding get
follow none route = none
follow (some (straight target)) route = some target
follow (some (routed targets)) route = get route targets

-- where a node's route leads, `none` where the graph has no edge for it
unfoldable pub successor : Subgraph → String → String → Option Target
unfolding get follow
successor graph node_id route = follow (get node_id graph.edges) route

unfoldable pub then_walk : Option Target → (Target → Option Target) → Option Target
then_walk none next = none
then_walk (some target) next = next target

-- the run by which nodes took these routes one after the other: where it stands then
unfoldable pub walk : Subgraph → Target → List String → Option Target
unfolding successor then_walk
walk graph target [] = some target
walk graph end (route ∷ routes) = none
walk graph (node n) (route ∷ routes) =
    then_walk (successor graph n route) (λ target. walk graph target routes)
