-- ===== src/State/Merge.antt =====
-- The reducers of contracts/state.py.
use Prim.Native.Char.{code}
use agent_code_optimize_plug.Prelude.{
  ℕ, ◌+◌, ◌-◌, ◌*◌, String, Bool, true, false, not, ◌&&◌, none, some, List, [], ◌∷◌, ◌++◌, ◌==◌,
  ltb, leb, eqb, if◌then◌else◌, contains, sorted,
}
use agent_code_optimize_plug.Prelude.Text.{text_le}
use agent_code_optimize_plug.Prelude.Dict.{Dict, get, put, sort_keys}
use agent_code_optimize_plug.Contracts.Refs.{ArtifactRef}
use agent_code_optimize_plug.Contracts.Errors.{
  Result, ok, err, bind_result, artifact_conflict, route_conflict, invalid_model,
}

-- the dictionary key (artifact_type, artifact_id)
unfoldable pub same_key : ArtifactRef → ArtifactRef → Bool
same_key a b = (a.artifact_type == b.artifact_type) && (a.artifact_id == b.artifact_id)

-- one round of the loop of `merge_artifact_refs`
unfoldable pub put_ref : ArtifactRef → List ArtifactRef → Result (List ArtifactRef)
put_ref r [] = ok (r ∷ [])
put_ref r (x ∷ xs) =
    if same_key x r
    then (if x.content_digest == r.content_digest
        then ok (r ∷ xs)
        else err (artifact_conflict r.artifact_type r.artifact_id))
    else bind_result (put_ref r xs) (λ ys. ok (x ∷ ys))

unfoldable pub merge_refs_from : List ArtifactRef → List ArtifactRef → Result (List ArtifactRef)
merge_refs_from merged [] = ok merged
merge_refs_from merged (r ∷ rs) = bind_result (put_ref r merged) (λ m. merge_refs_from m rs)

-- the order of the tuples (artifact_type, artifact_id)
unfoldable pub ref_le : ArtifactRef → ArtifactRef → Bool
ref_le a b =
    if a.artifact_type == b.artifact_type
    then text_le a.artifact_id b.artifact_id
    else text_le a.artifact_type b.artifact_type

unfoldable pub merge_artifact_refs : List ArtifactRef → List ArtifactRef → Result (List ArtifactRef)
merge_artifact_refs left right =
    bind_result (merge_refs_from [] (left ++ right)) (λ merged. ok (sorted ref_le merged))

-- the elements of `ys` that are not in `xs`, once each
unfoldable pub add_new : List String → List String → List String
add_new xs [] = []
add_new xs (y ∷ ys) = if contains y xs then add_new xs ys else y ∷ add_new (y ∷ xs) ys

-- `sorted(set(left) | set(right), key=...)`; the key compares `float(value[1:])`, so which of two
-- ids stands first is an argument
unfoldable pub merge_node_ids : (String → String → Bool) → List String → List String → List String
unfolding add_new
merge_node_ids id_le left right = sorted id_le (add_new [] (left ++ right))

-- one round of the loop of `merge_node_routes`
unfoldable pub record_route : String → String → Dict String → Result (Dict String)
record_route node_id route merged = elim (get node_id merged) [
  | none ↦ ok (put node_id route merged)
  | some existing ↦
      if existing == route
      then ok (put node_id route merged)
      else err (route_conflict node_id existing route)
]

unfoldable pub merge_routes_from : Dict String → Dict String → Result (Dict String)
merge_routes_from merged [] = ok merged
merge_routes_from merged ((node_id, route) ∷ rest) =
    bind_result (record_route node_id route merged) (λ m. merge_routes_from m rest)

unfoldable pub merge_node_routes : Dict String → Dict String → Result (Dict String)
merge_node_routes left right =
    bind_result (merge_routes_from left right) (λ merged. ok (sort_keys merged))

-- `"." in s`
unfoldable pub has_dot : String → Bool
has_dot String.[] = false
has_dot (String.◌∷◌ c s) = if eqb (code c) b'.' then true else has_dot s

-- `s.split(".")[0]`
unfoldable pub before_dot : String → String
before_dot String.[] = ""
before_dot (String.◌∷◌ c s) = if eqb (code c) b'.' then "" else String.◌∷◌ c (before_dot s)

-- `s.split(".", maxsplit=1)[1]`, for a text with a dot
unfoldable pub after_dot : String → String
after_dot String.[] = ""
after_dot (String.◌∷◌ c s) = if eqb (code c) b'.' then s else after_dot s

-- the value of plain digits after `n`
read_digits : ℕ → String → Result ℕ
read_digits n String.[] = ok n
read_digits n (String.◌∷◌ c s) =
    if leb b'0' (code c) && leb (code c) b'9'
    then read_digits (n * 10 + (code c - b'0')) s
    else err (invalid_model "int")

-- `int(s)` of plain digits
read_int : String → Result ℕ
unfolding read_digits
read_int String.[] = err (invalid_model "int")
read_int (String.◌∷◌ c s) = read_digits 0 (String.◌∷◌ c s)

-- `max(left, right)` of the tuples (stage, number, id)
later_of : String → ℕ → String → String → ℕ → String → String
later_of left_stage left_number left right_stage right_number right =
    if left_stage == right_stage
    then (if eqb left_number right_number
        then (if text_le right left then left else right)
        else (if ltb left_number right_number then right else left))
    else (if text_le right_stage left_stage then left else right)

unfoldable pub latest_node : String → String → Result String
unfolding later_of read_int
latest_node left right =
    if not (has_dot left)
    then ok right
    else if not (has_dot right)
    then ok left
    else bind_result (read_int (after_dot left)) λ left_number.
      bind_result (read_int (after_dot right)) λ right_number.
        ok (later_of (before_dot left) left_number left (before_dot right) right_number right)
