-- ===== src/Runtime/RouteKeys/Slots.antt =====
-- The slots of one node: distinct keys, filled without a gap, and found by the two loops.
use agent_code_optimize_plug.Prelude.{
  ℕ, zero, suc, ◌+◌, ◌-◌, ◌≤◌, ◌<◌, String, ◌≡◌, ap, ◌≢◌, true, false, some, eqb, length,
  if◌then◌else◌, Bool-cases, arith, inl, inr, ◌⊎◌,
}
use agent_code_optimize_plug.Prelude.Text.{
  decimal, decimal-injective, char-ne-nil, nil_of_append_self, cancel_front,
}
use agent_code_optimize_plug.Prelude.Dict.{Dict, has, distinct_keys-le-length}
use agent_code_optimize_plug.Runtime.RouteKeys.{
  numbered, free_slot_from, free_slot, latest_from, latest_route_key,
}

pub numbered-injective :
    (node_id : String) (n m : ℕ) → numbered node_id n ≡ numbered node_id m → n ≡ m
unfolding numbered
numbered-injective node_id n m e = decimal-injective n m (cancel_front "#" (cancel_front node_id e))

pub numbered-ne_plain : (node_id : String) (n : ℕ) → numbered node_id n ≢ node_id
unfolding numbered
numbered-ne_plain node_id n e = char-ne-nil "#" "" (nil_of_append_self node_id "#" (decimal n) e)

-- The key of a visit: the plain id is slot 1.
abbrev pub slot_key : String → ℕ → String
slot_key node_id n = if eqb n 1 then node_id else numbered node_id n

pub slot_key_next :
    (node_id : String) (n : ℕ) → 2 ≤ n → slot_key node_id (n + 1 - 1) ≡ numbered node_id n
slot_key_next node_id n lo = let same : n + 1 - 1 ≡ n = omega arith in rw same (ground arith)

-- The slots from 2 up to `next` are filled and those from `next` on are free.
pub record IsDense (node_id : String) (routes : Dict String) (next : ℕ) : Type 0 where
  pub starts : 2 ≤ next
  pub filled : (n : ℕ) → 2 ≤ n → n < next → has (numbered node_id n) routes ≡ true
  pub free : (n : ℕ) → next ≤ n → has (numbered node_id n) routes ≡ false
  pub plain : has node_id routes ≡ false → next ≡ 2

module _ {node_id : String} {routes : Dict String} {next : ℕ}
    (d : IsDense node_id routes next) where
  -- The loops have fuel enough.
  next-le : next ≤ length routes + 2
  next-le =
      let few : next - 2 ≤ length routes =
        distinct_keys-le-length (λ i. numbered node_id (i + 2)) (next - 2) routes
          (λ i j e. omega (arith, numbered-injective node_id (i + 2) (j + 2) e))
          (λ i h. d.filled (i + 2) (omega arith) (omega arith)) in
      omega (arith, few, d.starts)

  free_slot_from_dense :
      (fuel n : ℕ)
      → 2 ≤ n
      → n ≤ next
      → next ≤ n + fuel
      → free_slot_from fuel node_id routes n ≡ next
  unfolding free_slot_from
  free_slot_from_dense zero n lo hi f = omega arith
  free_slot_from_dense (suc fuel) n lo hi f = elim (Bool-cases (has (numbered node_id n) routes)) [
    | inl used ↦
        rw used
          (free_slot_from_dense fuel (n + 1) (omega arith) (ground (arith, d.free n)) (omega arith))
    | inr unused ↦ rw unused (ground (arith, d.filled n))
  ]

  pub free_slot_dense : free_slot node_id routes ≡ next
  unfolding free_slot
  free_slot_dense =
      free_slot_from_dense (suc (length routes)) 2 (omega arith) d.starts (omega (arith, next-le))

  latest_from_dense :
      (fuel n : ℕ)
      → 2 ≤ n
      → n ≤ next
      → next ≤ n + fuel
      → latest_from fuel node_id routes (slot_key node_id (n - 1)) n ≡ slot_key node_id (next - 1)
  unfolding latest_from
  latest_from_dense zero n lo hi f = ap (slot_key node_id) (omega arith)
  latest_from_dense (suc fuel) n lo hi f = elim (Bool-cases (has (numbered node_id n) routes)) [
    | inl used ↦
        let here : slot_key node_id (n + 1 - 1) ≡ numbered node_id n = slot_key_next node_id n lo in
        rw used (
          rw here at
            (latest_from_dense fuel (n + 1) (omega arith) (ground (arith, d.free n)) (omega arith)))
    | inr unused ↦ rw unused (ap (λ k. slot_key node_id (k - 1)) (ground (arith, d.filled n)))
  ]

  pub latest_route_key_dense :
      has node_id routes ≡ true
      → latest_route_key node_id routes ≡ some (slot_key node_id (next - 1))
  unfolding latest_route_key
  latest_route_key_dense h = rw h (
      ap some
        (latest_from_dense (suc (length routes)) 2 (omega arith) d.starts (omega (arith, next-le))))

  pub has-latest : has node_id routes ≡ true → has (slot_key node_id (next - 1)) routes ≡ true
  has-latest h = elim (Bool-cases (eqb (next - 1) 1)) [
    | inl first ↦ rw first h
    | inr later ↦
        rw later (d.filled (next - 1) (ground (arith, d.starts)) (omega (arith, d.starts)))
  ]

all_used :
    (node_id : String) (routes : Dict String) (fuel n : ℕ)
    → has (numbered node_id n) routes ≡ true
    → ((i : ℕ) → i < fuel → has (numbered node_id (n + 1 + i)) routes ≡ true)
    → (i : ℕ) → i < suc fuel
    → has (numbered node_id (n + i)) routes ≡ true
all_used node_id routes fuel n used full zero h =
    let same : n + zero ≡ n = omega arith in rw same used
all_used node_id routes fuel n used full (suc i) h =
    let same : n + suc i ≡ n + 1 + i = omega arith in rw same (full i (omega arith))

module _ (node_id : String) (routes : Dict String) where
  -- Where the loop stops: at a free slot, or after its fuel with every slot on the way in use.
  free_slot_from_stops :
      (fuel n : ℕ)
      → (has (numbered node_id (free_slot_from fuel node_id routes n)) routes ≡ false)
        ⊎ ((i : ℕ) → i < fuel → has (numbered node_id (n + i)) routes ≡ true)
  unfolding free_slot_from
  free_slot_from_stops zero n = inr (λ i h. absurd (omega arith))
  free_slot_from_stops (suc fuel) n = elim (Bool-cases (has (numbered node_id n) routes)) [
    | inr unused ↦ inl (rw unused unused)
    | inl used ↦ elim (free_slot_from_stops fuel (n + 1)) [
      | inl found ↦ inl (rw used found)
      | inr full ↦ inr (all_used node_id routes fuel n used full)
    ]
  ]

  -- The loop that looks for a free slot ends by its own test, whatever the history holds: the slot
  -- found is not in use.
  pub has-free_slot : has (numbered node_id (free_slot node_id routes)) routes ≡ false
  unfolding free_slot
  has-free_slot = elim (free_slot_from_stops (suc (length routes)) 2) [
    | inl found ↦ found
    | inr full ↦ absurd (
        omega (
          arith,
          distinct_keys-le-length (λ i. numbered node_id (2 + i)) (suc (length routes)) routes
              (λ i j e. omega (arith, numbered-injective node_id (2 + i) (2 + j) e)) full,
        ))
  ]
