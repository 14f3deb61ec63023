-- ===== src/Subgraphs/Laws.antt =====
-- Runs through the graphs inside the stages (orchestration/subgraphs).
use agent_code_optimize_plug.Prelude.{
  ℕ, suc, ◌+◌, ◌*◌, ◌≤◌, ◌<◌, String, Bool, true, false, Option, none, some, List, [], ◌∷◌, ◌≡◌,
  ◌⊎◌, refl, ap, subst, ◌==◌, ◌&&◌, ◌||◌, if◌then◌else◌, ltb, ltb→lt, all, contains, count, length,
  arith, eq_iff, and→both, Bool-cases, inl, inr,
}
use native.Mathlib.Nat.{mul-suc}
use agent_code_optimize_plug.Prelude.Dict.{Dict, get}
use agent_code_optimize_plug.Workflow.{Stage, s01, s02, s03, s04, s05, s06, s07}
use agent_code_optimize_plug.Subgraphs.{
  Target, end, node, Edge, straight, routed, Subgraph, node_ids, slice, add_linear_edges, edges_of,
  s01_edges, s02_edges, s03_edges, s04_edges, s05_edges, s06_edges, s07_edges, entry_of, subgraph,
  route_overrides, s01_overrides, s02_overrides, s03_overrides, s04_overrides, s05_overrides,
  s06_overrides, s07_overrides, allowed_routes, follow, successor, then_walk, walk,
}

-- the place of a node among the nodes
place : String → List String → ℕ
place n [] = 0
place n (x ∷ xs) = if x == n then 0 else suc (place n xs)

is_forward : List String → ℕ → Target → Bool
is_forward nodes here end = true
is_forward nodes here (node n) = ltb here (place n nodes)

-- an edge leads on, unless its route asks for a revision
edge_onward : List String → ℕ → Edge → Bool
edge_onward nodes here (straight target) = is_forward nodes here target
edge_onward nodes here (routed targets) =
    all (λ e. (e.0 == "revision") || is_forward nodes here e.1) targets

is_onward : Subgraph → String × Edge → Bool
is_onward graph (n, e) =
    ltb (place n graph.nodes) (length graph.nodes)
    && edge_onward graph.nodes (place n graph.nodes) e

all-get :
    {V : Type 0} (p : String × V → Bool) (k : String) (d : Dict V) {v : V}
    → all p d ≡ true
    → get k d ≡ some v
    → p (k, v) ≡ true
unfolding get
all-get p k [] h found = cc (found)
all-get p k ((j, w) ∷ d) {v} h found = elim (Bool-cases (j == k)) [
  | inl e ↦
      let here : w ≡ v = cc (found, e) in
      let same : j ≡ k = ground (arith, eq_iff j k, e) in
      subst (λ x. p (k, x) ≡ true) here
        (subst (λ x. p (x, w) ≡ true) same (and→both (p (j, w)) (all p d) h).0)
  | inr e ↦ all-get p k d (and→both (p (j, w)) (all p d) h).1 (cc (found, e))
]

-- how far a run has come: the place of its node, or the end of the nodes
reached : List String → Target → ℕ
reached nodes end = length nodes
reached nodes (node n) = place n nodes

place-le : (n : String) (nodes : List String) → place n nodes ≤ length nodes
unfolding place
place-le n [] = omega arith
place-le n (x ∷ xs) = ground (arith, place-le n xs)

reached-le : (nodes : List String) (target : Target) → reached nodes target ≤ length nodes
unfolding reached
reached-le nodes end = omega arith
reached-le nodes (node n) = place-le n nodes

forward-le :
    (nodes : List String) (here : ℕ) (target : Target)
    → here < length nodes
    → is_forward nodes here target ≡ true
    → suc here ≤ reached nodes target
unfolding is_forward reached
forward-le nodes here end inside h = inside
forward-le nodes here (node n) inside h = ltb→lt here (place n nodes) h

-- One step goes on, or asks for a revision.
step-onward :
    (nodes : List String) (here : ℕ) (e : Edge) (route : String) {target : Target}
    → here < length nodes
    → edge_onward nodes here e ≡ true
    → follow (some e) route ≡ some target
    → (suc here ≤ reached nodes target) ⊎ (route ≡ "revision")
unfolding follow edge_onward
step-onward nodes here (straight t) route {target} inside h found =
    let same : t ≡ target = cc (found) in
    inl (subst (λ x. suc here ≤ reached nodes x) same (forward-le nodes here t inside h))
step-onward nodes here (routed targets) route {target} inside h found =
    let onward =
      all-get (λ e. (e.0 == "revision") || is_forward nodes here e.1) route targets h found in
    elim (Bool-cases (route == "revision")) [
      | inl e ↦ inr ((eq_iff route "revision").0 e)
      | inr e ↦ inl (forward-le nodes here target inside (cc (onward, e)))
    ]

-- every edge of every stage's graph leads on, or is taken by the route `revision` alone
subgraphs-onward : (stage : Stage) → all (is_onward (subgraph stage)) (subgraph stage).edges ≡ true
unfolding is_onward edge_onward is_forward place subgraph node_ids edges_of s01_edges s02_edges
    s03_edges s04_edges s05_edges s06_edges s07_edges slice add_linear_edges
subgraphs-onward s01 = refl
subgraphs-onward s02 = refl
subgraphs-onward s03 = refl
subgraphs-onward s04 = refl
subgraphs-onward s05 = refl
subgraphs-onward s06 = refl
subgraphs-onward s07 = refl

then_walk-eq_some :
    (o : Option Target) (next : Target → Option Target) {to : Target}
    → then_walk o next ≡ some to
    → (target : Target) × (o ≡ some target) × (next target ≡ some to)
unfolding then_walk
then_walk-eq_some none next h = cc (h)
then_walk-eq_some (some target) next h = (target, refl, h)

follow-eq_some :
    (o : Option Edge) (route : String) {to : Target}
    → follow o route ≡ some to
    → (e : Edge) × (o ≡ some e) × (follow (some e) route ≡ some to)
unfolding follow
follow-eq_some none route h = cc (h)
follow-eq_some (some e) route h = (e, refl, h)

more_revisions : (l c : ℕ) (asks : Bool) → l * c ≤ l * (if asks then suc c else c)
more_revisions l c true = rw (mul-suc l c) (omega arith)
more_revisions l c false = omega arith

module _ (graph : Subgraph) (onward : all (is_onward graph) graph.edges ≡ true) where
  successor-onward :
      (n route : String) (next : Target)
      → successor graph n route ≡ some next
      → (place n graph.nodes < length graph.nodes)
        × ((suc (place n graph.nodes) ≤ reached graph.nodes next) ⊎ (route ≡ "revision"))
  unfolding successor is_onward
  successor-onward n route next found =
      let (e, listed, led) = follow-eq_some (get n graph.edges) route found in
      let (inside, leads) =
        and→both (ltb (place n graph.nodes) (length graph.nodes)) _
          (all-get (is_onward graph) n graph.edges onward listed) in
      let within = ltb→lt (place n graph.nodes) (length graph.nodes) inside in
      (within, step-onward graph.nodes (place n graph.nodes) e route within leads led)

  walk-reached :
      (routes : List String) (from to : Target)
      → walk graph from routes ≡ some to
      → length routes + reached graph.nodes from
        ≤ reached graph.nodes to + length graph.nodes * count (λ r. r == "revision") routes
  unfolding walk reached
  walk-reached [] from to h =
      let same : from ≡ to = cc (h) in omega (arith, ap (reached graph.nodes) same)
  walk-reached (route ∷ routes) end to h = cc (h)
  walk-reached (route ∷ routes) (node n) to h =
      let (next, found, h') = then_walk-eq_some (successor graph n route) _ h in
      let (inside, step) = successor-onward n route next found in
      let rest = walk-reached routes next to h' in
      let revisions = count (λ r. r == "revision") routes in
      elim step [
        | inl further ↦ omega (
          arith,
          rest,
          further,
          more_revisions (length graph.nodes) revisions (route == "revision"),
        )
        | inr asks ↦
            rw (asks, mul-suc (length graph.nodes) revisions)
              (omega (arith, rest, place-le n graph.nodes))
      ]

-- A run inside a stage cannot go on for ever without revisions: from the stage's entry, nodes by the
-- routes `routes` are run at most as often as the stage has nodes, once more for each time the route
-- `revision` was taken.
pub walk-bounded :
    (stage : Stage) (routes : List String) (to : Target)
    → walk (subgraph stage) (node (entry_of stage)) routes ≡ some to
    → length routes
      ≤ length (node_ids stage) + length (node_ids stage) * count (λ r. r == "revision") routes
unfolding subgraph
walk-bounded stage routes to h = omega (
  arith,
  walk-reached (subgraph stage) (subgraphs-onward stage) routes (node (entry_of stage)) to h,
  reached-le (node_ids stage) to,
)

-- whether an edge is there for the route, to a node of the graph or to end
leads_in : List String → Option Target → Bool
leads_in nodes none = false
leads_in nodes (some end) = true
leads_in nodes (some (node n)) = contains n nodes

subgraphs-wired :
    (stage : Stage)
    → all
        (λ n.
          all (λ r. leads_in (node_ids stage) (successor (subgraph stage) n r)) (allowed_routes n))
        (node_ids stage)
      ≡ true
unfolding leads_in subgraph node_ids edges_of s01_edges s02_edges s03_edges s04_edges s05_edges
    s06_edges s07_edges slice add_linear_edges successor follow allowed_routes route_overrides
    s01_overrides s02_overrides s03_overrides s04_overrides s05_overrides s06_overrides
    s07_overrides get
subgraphs-wired s01 = refl
subgraphs-wired s02 = refl
subgraphs-wired s03 = refl
subgraphs-wired s04 = refl
subgraphs-wired s05 = refl
subgraphs-wired s06 = refl
subgraphs-wired s07 = refl

all-contains :
    (p : String → Bool) (x : String) (xs : List String)
    → all p xs ≡ true
    → contains x xs ≡ true
    → p x ≡ true
all-contains p x [] h listed = cc (listed)
all-contains p x (y ∷ ys) h listed = elim (Bool-cases (y == x)) [
  | inl e ↦ subst (λ z. p z ≡ true) ((eq_iff y x).0 e) (and→both (p y) (all p ys) h).0
  | inr e ↦ all-contains p x ys (and→both (p y) (all p ys) h).1 (ground (arith, e, listed))
]

abbrev pub IsInside : List String → Target → Type 0
IsInside nodes end = Unit
IsInside nodes (node n) = contains n nodes ≡ true

leads_in-some :
    (nodes : List String) (o : Option Target)
    → leads_in nodes o ≡ true
    → (target : Target) × (o ≡ some target) × IsInside nodes target
unfolding leads_in
leads_in-some nodes none h = cc (h)
leads_in-some nodes (some end) h = (end, refl, tt)
leads_in-some nodes (some (node m)) h = (node m, refl, h)

-- Whatever route a node of a stage may take by its registration, the stage's graph has an edge for it,
-- which leads to a node of the stage or to the end.
pub successor-allowed :
    (stage : Stage) (n route : String)
    → contains n (node_ids stage) ≡ true
    → contains route (allowed_routes n) ≡ true
    → (target : Target) × (successor (subgraph stage) n route ≡ some target)
      × IsInside (node_ids stage) target
successor-allowed stage n route listed allowed =
    leads_in-some (node_ids stage) (successor (subgraph stage) n route) (
      all-contains (λ r. leads_in (node_ids stage) (successor (subgraph stage) n r)) route
        (allowed_routes n)
        (all-contains
          (λ m.
            all (λ r. leads_in (node_ids stage) (successor (subgraph stage) m r))
              (allowed_routes m))
          n (node_ids stage) (subgraphs-wired stage) listed)
        allowed)
