-- ===== src/S02/Acyclic/Order.antt =====
-- Orders of tasks in which dependencies stand first (application/s02_handlers/shared.py).
use agent_code_optimize_plug.Prelude.{
  ℕ, suc, ◌<◌, ◌≤◌, String, true, List, [], ◌∷◌, ◌≡◌, sym, subst, ◌==◌, if◌then◌else◌, contains,
  length, arith, eq_iff, Bool-cases, inl, inr,
}
use agent_code_optimize_plug.S02.Acyclic.{Graph}
use agent_code_optimize_plug.S02.Acyclic.Path.{IsEdge, Depends}

-- every visited task's dependencies were visited before it
abbrev pub IsOrdered : Graph → List String → Type 0
IsOrdered graph [] = Unit
IsOrdered graph (t ∷ before) =
    ((d : String) → IsEdge graph t d → contains d before ≡ true) × IsOrdered graph before

module _ (graph : Graph) where
  -- the last place of a task among the visited
  abbrev pub place : String → List String → ℕ
  place t [] = 0
  place t (x ∷ xs) = if contains t xs then place t xs else if x == t then suc (length xs) else 0

  place-le : (t : String) (xs : List String) → place t xs ≤ length xs
  place-le t [] = omega arith
  place-le t (x ∷ xs) = ground (arith, place-le t xs)

  -- A dependency stands behind what depends on it.
  place-edge :
      (a b : String) (xs : List String)
      → IsOrdered graph xs
      → contains a xs ≡ true
      → IsEdge graph a b
      → (place b xs < place a xs) × (contains b xs ≡ true)
  place-edge a b [] ordered h edge = cc
  place-edge a b (x ∷ xs) ordered h edge = elim (Bool-cases (contains a xs)) [
    | inl e ↦
        let (lower, there) = place-edge a b xs ordered.1 e edge in ground (arith, lower, there)
    | inr e ↦
        let here : x ≡ a = ground (arith, eq_iff x a) in
        let before = ordered.0 b (subst (λ y. IsEdge graph y b) (sym here) edge) in
        ground (arith, before, eq_iff x a, place-le b xs)
  ]

  -- Among ordered tasks a chain of dependencies only goes back.
  pub place-chain :
      (a b : String) (xs : List String)
      → IsOrdered graph xs
      → contains a xs ≡ true
      → Depends graph a b
      → (place b xs < place a xs) × (contains b xs ≡ true)
  place-chain a b xs ordered h (Depends.direct edge) = place-edge a b xs ordered h edge
  place-chain a b xs ordered h (Depends.further {b = m} chain edge) =
      let (lower, there) = place-chain a m xs ordered h chain in
      let (lower', there') = place-edge m b xs ordered there edge in
      (omega (arith, lower, lower'), there')
