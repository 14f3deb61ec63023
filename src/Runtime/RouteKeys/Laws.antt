-- ===== src/Runtime/RouteKeys/Laws.antt =====
-- What the router reads back after a commit (`_commit` and `route_for` of
-- application/node_runtime.py, with `merge_node_routes` of contracts/state.py).
use agent_code_optimize_plug.Prelude.{
  ℕ, ◌+◌, ◌-◌, String, ◌≡◌, refl, ◌∙◌, true, false, none, some, [], ◌∷◌, ◌==◌, eq_iff, eq_refl,
  if◌then◌else◌, Bool-cases, Option-cases, arith, inl, inr,
}
use agent_code_optimize_plug.Prelude.Dict.{Dict, get, has}
use agent_code_optimize_plug.Contracts.Errors.{ok}
use agent_code_optimize_plug.State.{merge_node_routes}
use agent_code_optimize_plug.State.Routes.{merge_node_routes_one}
use agent_code_optimize_plug.Runtime.RouteKeys.{numbered, next_route_key, route_for}
use agent_code_optimize_plug.Runtime.RouteKeys.Slots.{
  IsDense, slot_key, numbered-injective, numbered-ne_plain, free_slot_dense, latest_route_key_dense,
  has-latest, slot_key_next,
}

-- The history after one more entry.
abbrev Recorded : String → String → Dict String → Dict String → Type 0
Recorded key route old new = (j : String) → get j new ≡ (if key == j then some route else get j old)

-- The history of a node's routes has no gap.
abbrev pub HasHistory : String → Dict String → Type 0
HasHistory node_id routes = (next : ℕ) × IsDense node_id routes next

abbrev pub Committed : String → Dict String → String → Dict String → Type 0
Committed node_id routes route m =
    (merge_node_routes routes ((next_route_key node_id routes route, route) ∷ []) ≡ ok m)
    × (route_for node_id m ≡ route)
    × HasHistory node_id m

module _ (node_id route : String) (routes m : Dict String) where
  -- the first visit
  IsDense-after_first :
      IsDense node_id routes 2
      → has node_id routes ≡ false
      → Recorded node_id route routes m
      → IsDense node_id m 2
  IsDense-after_first d fresh r = record {
    starts = omega arith;
    filled = λ n lo hi. absurd (omega arith);
    free = λ n lo. ground (
      arith,
      r (numbered node_id n),
      eq_iff node_id (numbered node_id n),
      (λ (e : numbered node_id n ≡ node_id). numbered-ne_plain node_id n e),
      d.free n,
    );
    plain = λ h. refl;
  }

  -- a new slot
  IsDense-after_next :
      {next : ℕ}
      → IsDense node_id routes next
      → has node_id routes ≡ true
      → Recorded (numbered node_id next) route routes m
      → IsDense node_id m (next + 1)
  IsDense-after_next {next} d old r = record {
    starts = omega (arith, d.starts);
    filled = λ n lo hi. ground (
      arith,
      r (numbered node_id n),
      eq_iff (numbered node_id next) (numbered node_id n),
      d.filled n,
    );
    free = λ n lo. ground (
      arith,
      r (numbered node_id n),
      eq_iff (numbered node_id next) (numbered node_id n),
      numbered-injective node_id next n,
      d.free n,
    );
    plain = λ h. absurd (
        ground (
          arith,
          r node_id,
          eq_iff (numbered node_id next) node_id,
          numbered-ne_plain node_id next,
        ));
  }

  -- the latest slot again
  IsDense-after_same :
      {next : ℕ} (key : String)
      → IsDense node_id routes next
      → get key routes ≡ some route
      → Recorded key route routes m
      → IsDense node_id m next
  IsDense-after_same {next} key d same r = record {
    starts = d.starts;
    filled = λ n lo hi.
        ground (arith, r (numbered node_id n), eq_iff key (numbered node_id n), d.filled n);
    free = λ n lo.
        ground (arith, r (numbered node_id n), eq_iff key (numbered node_id n), d.free n, same);
    plain = λ h. d.plain (ground (arith, r node_id, eq_iff key node_id));
  }

-- What the router reads where the history has no gap: the entry of the last slot.
pub route_for_dense :
    {node_id : String} {routes : Dict String} {next : ℕ} (route : String)
    → IsDense node_id routes next
    → get (slot_key node_id (next - 1)) routes ≡ some route
    → has node_id routes ≡ true
    → route_for node_id routes ≡ route
unfolding route_for
route_for_dense route d e h = rw (latest_route_key_dense d h, route_for) (rw e)

-- the commit of a first visit
commit_first :
    (node_id route : String) (routes : Dict String)
    → HasHistory node_id routes
    → has node_id routes ≡ false
    → (m : Dict String) × Committed node_id routes route m
unfolding next_route_key
commit_first node_id route routes (next, d) fresh =
    let d2 : IsDense node_id routes 2 = rw (d.plain fresh) at d in
    let (m, merged, r) =
      merge_node_routes_one node_id route routes (λ w e. ground (arith, fresh, e)) in
    let d' = IsDense-after_first node_id route routes m d2 fresh r in
    let recorded : get node_id m ≡ some route = r node_id ∙ rw (eq_refl node_id) in
    (m, (rw fresh merged, route_for_dense route d' recorded (rw recorded), (2, d')))

-- the commit of a visit that repeats the latest route
commit_same :
    (node_id route w : String) (routes : Dict String) (next : ℕ)
    → IsDense node_id routes next
    → has node_id routes ≡ true
    → get (slot_key node_id (next - 1)) routes ≡ some w
    → (w == route) ≡ true
    → (m : Dict String) × Committed node_id routes route m
unfolding next_route_key
commit_same node_id route w routes next d old e same =
    let key = slot_key node_id (next - 1) in
    let same_route : w ≡ route = (eq_iff w route).0 same in
    let kept : get key routes ≡ some route = rw (← same_route) e in
    let (m, merged, r) = merge_node_routes_one key route routes (λ v f. ground (arith, kept, f)) in
    let d' = IsDense-after_same node_id route routes m key d kept r in
    let recorded : get key m ≡ some route = r key ∙ rw (eq_refl key) in
    (
      m,
      (
        rw old (rw (latest_route_key_dense d old) (rw e (rw same merged))),
        route_for_dense route d' recorded (ground (arith, r node_id, old)),
        (next, d'),
      ),
    )

-- the commit of a visit that takes another route
commit_other :
    (node_id route w : String) (routes : Dict String) (next : ℕ)
    → IsDense node_id routes next
    → has node_id routes ≡ true
    → get (slot_key node_id (next - 1)) routes ≡ some w
    → (w == route) ≡ false
    → (m : Dict String) × Committed node_id routes route m
unfolding next_route_key
commit_other node_id route w routes next d old e other =
    let key = numbered node_id next in
    let unused : get key routes ≡ none = ground (arith, d.free next (omega arith)) in
    let (m, merged, r) = merge_node_routes_one key route routes (λ v f. cc) in
    let d' = IsDense-after_next node_id route routes m d old r in
    let recorded : get key m ≡ some route = r key ∙ rw (eq_refl key) in
    let last : slot_key node_id (next + 1 - 1) ≡ key = slot_key_next node_id next d.starts in
    (
      m,
      (
        rw old
            (rw (latest_route_key_dense d old) (rw e (rw other (rw (free_slot_dense d) merged)))),
        route_for_dense route d' (rw last recorded) (ground (arith, r node_id, old)),
        (next + 1, d'),
      ),
    )

-- From a history of a node's routes without a gap, for every route: the commit of that route is
-- never a conflict, the router then reads back exactly that route, and the history still has no
-- gap.
pub commit-route_for :
    (node_id route : String) (routes : Dict String)
    → HasHistory node_id routes
    → (m : Dict String) × Committed node_id routes route m
commit-route_for node_id route routes (next, d) = elim (Bool-cases (has node_id routes)) [
  | inr fresh ↦ commit_first node_id route routes (next, d) fresh
  | inl old ↦ elim (Option-cases (get (slot_key node_id (next - 1)) routes)) [
    | inl missing ↦ absurd (ground (arith, has-latest d old))
    | inr (w, e) ↦ elim (Bool-cases (w == route)) [
      | inl same ↦ commit_same node_id route w routes next d old e same
      | inr other ↦ commit_other node_id route w routes next d old e other
    ]
  ]
]
