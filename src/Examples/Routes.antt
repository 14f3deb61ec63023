-- ===== src/Examples/Routes.antt =====
-- Route keys and idempotency keys of application/node_runtime.py.
use agent_code_optimize_plug.Prelude.{
  ℕ, ◌≤◌, ◌<◌, String, false, none, some, [], ◌∷◌, ◌≡◌, ◌≢◌, refl, ◌==◌, eq_iff, arith,
}
use agent_code_optimize_plug.Prelude.Text.{decimal}
use agent_code_optimize_plug.Prelude.Dict.{Dict, get}
use agent_code_optimize_plug.Contracts.Errors.{ok}
use agent_code_optimize_plug.State.{OptimizationState, merge_node_routes, before_dot}
use agent_code_optimize_plug.Runtime.RouteKeys.{numbered, next_route_key, route_for}
use agent_code_optimize_plug.Runtime.RouteKeys.Slots.{
  IsDense, numbered-ne_plain, numbered-injective,
}
use agent_code_optimize_plug.Runtime.RouteKeys.Laws.{HasHistory, Committed, commit-route_for}
use agent_code_optimize_plug.Runtime.RouteKeys.Resumed.{resumed_node-route_for}
use agent_code_optimize_plug.Runtime.Keys.{NodeSpec, SideEffectClass, derive_idempotency_key}
use agent_code_optimize_plug.Runtime.Keys.Laws.{derive_key-outside_loops, derive_key-other_node}
use agent_code_optimize_plug.Examples.Base.{
  empty_state, halted_state, approve_command, apply_interrupt,
}
use agent_code_optimize_plug.Resume.{resumed_state}

differ : (a b : String) → (a == b) ≡ false → a ≢ b
differ a b h = ground (arith, eq_iff a b)

abbrev halted_once : Dict String
halted_once = ("S06.90", "approval") ∷ []

halted_once-HasHistory : HasHistory "S06.90" halted_once
unfolding get
halted_once-HasHistory = (
  2,
  record {
    starts = omega arith;
    filled = λ n lo hi. absurd (omega arith);
    free = λ n lo. ground (
      arith,
      eq_iff "S06.90" (numbered "S06.90" n),
      (λ (e : numbered "S06.90" n ≡ "S06.90"). numbered-ne_plain "S06.90" n e),
    );
    plain = λ h. absurd cc;
  },
)

commit-route_for_example : (m : Dict String) × Committed "S06.90" halted_once "continue" m
commit-route_for_example = commit-route_for "S06.90" "continue" halted_once halted_once-HasHistory

abbrev halted_twice : Dict String
halted_twice = ("S06.90", "continue") ∷ ("S06.90#2", "approval") ∷ []

second_slot : numbered "S06.90" 2 ≡ "S06.90#2"
unfolding numbered decimal
second_slot = refl

two : (n : ℕ) → 2 ≤ n → n < 3 → n ≡ 2
two n lo hi = omega arith

halted_twice-IsDense : IsDense "S06.90" halted_twice 3
unfolding get
halted_twice-IsDense = record {
  starts = omega arith;
  filled = λ n lo hi. rw (two n lo hi, second_slot);
  free = λ n lo. ground (
    arith,
    eq_iff "S06.90" (numbered "S06.90" n),
    eq_iff "S06.90#2" (numbered "S06.90" n),
    second_slot,
    numbered-injective "S06.90" n 2,
    (λ (e : numbered "S06.90" n ≡ "S06.90"). numbered-ne_plain "S06.90" n e),
  );
  plain = λ h. absurd cc;
}

-- the state of a case that halted at S06.90 for the second time
abbrev halted_again : OptimizationState
halted_again = record halted_state { node_routes = halted_twice }

resumed_node-route_for_example :
    (m : Dict String) × (merge_node_routes
        (resumed_state halted_again approve_command apply_interrupt).node_routes
        ((
          next_route_key "S06.90"
              (resumed_state halted_again approve_command apply_interrupt).node_routes
              "continue",
          "continue",
        )
          ∷ [])
      ≡ ok m)
    × (route_for "S06.90" m ≡ "approval")
unfolding get
resumed_node-route_for_example =
    resumed_node-route_for halted_again approve_command apply_interrupt "approval" 3
      halted_twice-IsDense (omega arith) (rw second_slot refl) "continue"

abbrev node : String → NodeSpec
node node_id = record {
  node_id = node_id;
  idempotency_key_version = "v1";
  side_effect_class = SideEffectClass.idempotent_write;
  max_attempts = 2;
  allowed_routes = "continue" ∷ [];
}

-- after a REVERT the key of an S01 node is the one of the pass before
derive_key-outside_loops_example :
    derive_idempotency_key (node "S01.40") empty_state
    ≡ derive_idempotency_key
        (node "S01.40")
        (record empty_state { s01_excluded_strategy_ids = "A" ∷ [] })
unfolding before_dot
derive_key-outside_loops_example =
    derive_key-outside_loops (node "S01.40") empty_state
      (record empty_state { s01_excluded_strategy_ids = "A" ∷ [] }) (refl, refl, refl) refl refl
      refl

derive_key-other_node_example :
    derive_idempotency_key
      (node "S01.80")
      (record empty_state { resume_attempts = 2; resume_target_node = some "S06.90" })
    ≡ derive_idempotency_key
        (node "S01.80")
        (record empty_state { resume_attempts = 0; resume_target_node = none })
derive_key-other_node_example =
    derive_key-other_node (node "S01.80") empty_state "S06.90" 2 (differ "S06.90" "S01.80" refl)
