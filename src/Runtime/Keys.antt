-- ===== src/Runtime/Keys.antt =====
-- `_derive_idempotency_key` of application/node_runtime.py, with the specification of a node
-- (application/node_contract.py).
pub mod Laws
use agent_code_optimize_plug.Prelude.{
  ℕ, String, Bool, true, false, Option, none, some, List, [], ◌∷◌, ◌&&◌, not, ◌==◌, eqb, contains,
  if◌then◌else◌, leb,
}
use agent_code_optimize_plug.Prelude.Text.{decimal, ◌^^◌}
use agent_code_optimize_plug.Contracts.Errors.{
  Error, Result, ok, err, bind_result, missing_identity, invalid_model,
}
use agent_code_optimize_plug.State.{OptimizationState, before_dot}

pub data SideEffectClass : Type 0 where
  pure read_only idempotent_write external_job : SideEffectClass

-- `NodeSpec`, with the fields that the runtime reads and the one validator's fields.
pub record NodeSpec : Type 0 where
  pub node_id : String
  pub idempotency_key_version : String
  pub side_effect_class : SideEffectClass
  pub max_attempts : ℕ
  pub allowed_routes : List String

may_attempt : SideEffectClass → ℕ → Bool
may_attempt pure attempts = eqb attempts 1
may_attempt _ attempts = true

-- `pure_nodes_do_not_retry`
unfoldable pub validate_spec : NodeSpec → Result NodeSpec
unfolding may_attempt
validate_spec spec =
    if may_attempt spec.side_effect_class spec.max_attempts
    then ok spec
    else err (invalid_model "NodeSpec")

-- `_require` of an identity field
unfoldable pub require : String → Option String → Result String
require key none = err (missing_identity key)
require key (some value) = if value == "" then err (missing_identity key) else ok value

-- f"{base}:{label}{n}", or `base` alone for a counter that is 0
unfoldable pub with_counter : String → String → ℕ → String
with_counter label base n = if eqb n 0 then base else base ^^ (":" ^^ (label ^^ decimal n))

-- the stages whose nodes carry each revision counter
abbrev pub a3_stages : List String
a3_stages = "A3" ∷ []

abbrev pub s02_stages : List String
s02_stages = "S02" ∷ []

abbrev pub s03_stages : List String
s03_stages = "S03" ∷ "S04" ∷ "S05" ∷ "S06" ∷ []

-- the round of the loop for one counter: only the nodes of its own stages carry it
unfoldable pub with_revision : String → List String → ℕ → String → String
unfolding with_counter
with_revision stage stages n base =
    if contains stage stages then with_counter "rev" base n else base

-- `state.get("resume_target_node") == node_id`
unfoldable pub is_target : String → Option String → Bool
is_target node_id none = false
is_target node_id (some target) = target == node_id

-- The revision suffixes, in the order of the table of counters.
unfoldable pub with_revisions : OptimizationState → String → String → String
unfolding with_revision
with_revisions s stage base = with_revision stage s03_stages s.s03_revision_attempts (
    with_revision stage s02_stages s.s02_revision_attempts
      (with_revision stage a3_stages s.a3_revision_attempts base))

unfoldable pub with_resume : OptimizationState → String → String → String
unfolding is_target with_counter
with_resume s node_id base =
    if is_target node_id s.resume_target_node
    then with_counter "resume" base s.resume_attempts
    else base

unfoldable pub base_key : NodeSpec → String → String
base_key spec case_id = case_id ^^ (":" ^^ (spec.node_id ^^ (":" ^^ spec.idempotency_key_version)))

unfoldable pub derive_idempotency_key : NodeSpec → OptimizationState → Result String
derive_idempotency_key spec s = bind_result (require "case_id" s.case_id) λ case_id. ok (
    with_resume s spec.node_id (with_revisions s (before_dot spec.node_id) (base_key spec case_id)))
