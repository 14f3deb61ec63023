-- ===== src/State/Nodes.antt =====
-- What the reducer of `completed_nodes` (contracts/state.py) keeps.
use agent_code_optimize_plug.Prelude.{
  String, Bool, List, [], ◌∷◌, ◌++◌, ◌≡◌, refl, sym, ap, ◌∙◌, ◌&&◌, ◌||◌, not, arith, eq_iff,
  contains, contains-sorted, map, sorted,
}
use agent_code_optimize_plug.State.{add_new, merge_node_ids}

contains-append :
    (x : String) (xs ys : List String) → contains x (xs ++ ys) ≡ contains x xs || contains x ys
contains-append x [] ys = refl
contains-append x (y ∷ xs) ys = ground (arith, contains-append x xs ys)

contains-add_new :
    (x : String) (xs ys : List String)
    → contains x (add_new xs ys) ≡ (contains x ys && not (contains x xs))
unfolding add_new
contains-add_new x xs [] = refl
contains-add_new x xs (y ∷ ys) =
    ground (arith, eq_iff y x, contains-add_new x xs ys, contains-add_new x (y ∷ xs) ys)

map-same : (xs : List String) → map (λ x. x) xs ≡ xs
map-same [] = refl
map-same (x ∷ xs) = ap (λ ys. x ∷ ys) (map-same xs)

contains-sorted_ids :
    (id_le : String → String → Bool) (x : String) (xs : List String)
    → contains x (sorted id_le xs) ≡ contains x xs
contains-sorted_ids id_le x xs =
    ap (contains x) (sym (map-same (sorted id_le xs)))
    ∙ contains-sorted (λ y. y) id_le x xs
    ∙ ap (contains x) (map-same xs)

-- A merge of completed nodes has the nodes of both sides.
pub contains-merge_node_ids :
    (id_le : String → String → Bool) (x : String) (left right : List String)
    → contains x (merge_node_ids id_le left right) ≡ contains x left || contains x right
unfolding merge_node_ids
contains-merge_node_ids id_le x left right =
    contains-sorted_ids id_le x (add_new [] (left ++ right))
    ∙ contains-add_new x [] (left ++ right)
    ∙ ground (arith, contains-append x left right)
