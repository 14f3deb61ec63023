-- ===== src/State/Routes.antt =====
-- `merge_node_routes` of contracts/state.py as a map from route key to route.
use agent_code_optimize_plug.Prelude.{
  String, ◌≡◌, ◌∙◌, some, [], ◌∷◌, inl, inr, ◌==◌, eq_iff, eq_refl, if◌then◌else◌, Option-cases,
  arith,
}
use agent_code_optimize_plug.Prelude.Dict.{Dict, get, put, sort_keys, get-put, get-sort_keys}
use agent_code_optimize_plug.Contracts.Errors.{ok, bind_result-eq_ok}
use agent_code_optimize_plug.State.Merge.{record_route, merge_routes_from, merge_node_routes}

-- An accepted route is put under its key, and agrees with what was recorded there.
record_route_ok :
    (k v : String) (d m : Dict String)
    → record_route k v d ≡ ok m
    → (m ≡ put k v d) × ((w : String) → get k d ≡ some w → w ≡ v)
unfolding record_route
record_route_ok k v d m h = (ground arith, (λ w e. ground (arith, eq_iff w v)))

record_route_same :
    (k v : String) (d : Dict String)
    → ((w : String) → get k d ≡ some w → w ≡ v)
    → record_route k v d ≡ ok (put k v d)
unfolding record_route
record_route_same k v d same = elim (Option-cases (get k d)) [
  | inl e ↦ ground arith
  | inr (w, e) ↦ ground (arith, same w e, eq_refl v)
]

-- An entry that the history does not contradict is recorded, and no other entry changes.
pub merge_node_routes_one :
    (k v : String) (d : Dict String)
    → ((w : String) → get k d ≡ some w → w ≡ v)
    → (m : Dict String) × (merge_node_routes d ((k, v) ∷ []) ≡ ok m)
      × ((j : String) → get j m ≡ (if k == j then some v else get j d))
unfolding merge_node_routes merge_routes_from
merge_node_routes_one k v d same = (
  sort_keys (put k v d),
  rw (record_route_same k v d same),
  (λ j. get-sort_keys j (put k v d) ∙ get-put k j v d),
)

merge_routes_from-keeps :
    (left right m : Dict String)
    → merge_routes_from left right ≡ ok m
    → (k v : String) → get k left ≡ some v
    → get k m ≡ some v
unfolding merge_routes_from
merge_routes_from-keeps left [] m h k v e = ground arith
merge_routes_from-keeps left ((j, w) ∷ rest) m h k v e =
    let (u, f, g) = bind_result-eq_ok (record_route j w left) (λ u. merge_routes_from u rest) h in
    let (was_put, agrees) = record_route_ok j w left u f in
    merge_routes_from-keeps u rest m g k v
      (ground (arith, was_put, get-put j k w left, eq_iff j k, agrees v))

-- A recorded route is never overwritten: after a merge that succeeds, every key of the history
-- still has the route that it had.
pub merge_node_routes-keeps :
    (left right m : Dict String)
    → merge_node_routes left right ≡ ok m
    → (k v : String) → get k left ≡ some v
    → get k m ≡ some v
unfolding merge_node_routes
merge_node_routes-keeps left right m h k v e =
    let (u, f, g) = bind_result-eq_ok (merge_routes_from left right) (λ u. ok (sort_keys u)) h in
    ground (arith, get-sort_keys k u, merge_routes_from-keeps left right u f k v e)
