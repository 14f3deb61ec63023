-- ===== src/Runtime/RouteKeys.antt =====
-- `_next_route_key`, `_latest_route_key` and `route_for` of application/node_runtime.py: the slots
-- `N`, `N#2`, `N#3`, ... under which the routes of the visits of one node are recorded.
pub mod Slots
pub mod Laws
pub mod Resumed
use agent_code_optimize_plug.Prelude.{
  ℕ, zero, suc, ◌+◌, String, Bool, true, false, Option, none, some, ◌==◌, length, if◌then◌else◌,
  or_default,
}
use agent_code_optimize_plug.Prelude.Text.{decimal, ◌^^◌}
use agent_code_optimize_plug.Prelude.Dict.{Dict, get, has}

-- f"{node_id}#{n}"
unfoldable pub numbered : String → ℕ → String
numbered node_id n = node_id ^^ ("#" ^^ decimal n)

-- `n = 2; while f"{node_id}#{n}" in routes: n += 1`, on fuel
unfoldable pub free_slot_from : ℕ → String → Dict String → ℕ → ℕ
free_slot_from zero node_id routes n = n
free_slot_from (suc fuel) node_id routes n =
    let more = free_slot_from fuel node_id routes (n + 1) in
    if has (numbered node_id n) routes then more else n

-- one round more than there are entries
unfoldable pub free_slot : String → Dict String → ℕ
free_slot node_id routes = free_slot_from (suc (length routes)) node_id routes 2

-- the loop of `_latest_route_key`, which carries the key of the slot before `n`
unfoldable pub latest_from : ℕ → String → Dict String → String → ℕ → String
latest_from zero node_id routes key n = key
latest_from (suc fuel) node_id routes key n =
    let more = latest_from fuel node_id routes (numbered node_id n) (n + 1) in
    if has (numbered node_id n) routes then more else key

unfoldable pub latest_route_key : String → Dict String → Option String
latest_route_key node_id routes =
    if has node_id routes
    then some (latest_from (suc (length routes)) node_id routes node_id 2)
    else none

-- The assertion that a recorded node has a latest key is the fall-back `node_id` of `or_default`,
-- which is never taken there.
unfoldable pub next_route_key : String → Dict String → String → String
next_route_key node_id existing_routes route =
    if has node_id existing_routes
    then (let key = or_default (latest_route_key node_id existing_routes) node_id in
        if or_default (get key existing_routes) "" == route
        then key
        else numbered node_id (free_slot node_id existing_routes))
    else node_id

-- `route_for(node_id)`: the latest recorded route, "continue" for a node that never ran. The key
-- found is always a recorded one.
unfoldable pub route_for : String → Dict String → String
route_for node_id routes = elim (latest_route_key node_id routes) [
  | none ↦ "continue"
  | some key ↦ or_default (get key routes) ""
]
