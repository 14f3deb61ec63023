-- ===== src/Runtime/Keys/Laws.antt =====
-- What tells two runs of a node apart, and what does not.
use agent_code_optimize_plug.Prelude.{
  ℕ, String, ◌≡◌, sym, ◌≢◌, true, false, none, some, ◌==◌, eq_iff, eq_refl, eqb, contains,
  Bool-cases, arith, inl, inr,
}
use agent_code_optimize_plug.Prelude.Text.{
  decimal, decimal-injective, ◌^^◌, cancel_front, cancel_back, nil_of_append_self, char-ne-nil,
}
use agent_code_optimize_plug.Contracts.Errors.{ok}
use agent_code_optimize_plug.State.{OptimizationState, before_dot}
use agent_code_optimize_plug.Runtime.Keys.{
  NodeSpec, require, with_counter, with_revision, is_target, with_revisions, with_resume, base_key,
  derive_idempotency_key, a3_stages, s02_stages, s03_stages,
}

-- a suffix that is there is not empty
suffix-ne-nil : (base rest : String) → base ^^ (":" ^^ rest) ≢ base
suffix-ne-nil base rest e = char-ne-nil ":" "" (nil_of_append_self base ":" rest e)

with_counter-injective :
    (label base : String) (n m : ℕ) → with_counter label base n ≡ with_counter label base m → n ≡ m
unfolding with_counter
with_counter-injective label base n m e = elim (Bool-cases (eqb n 0)) [
  | inl n_zero ↦ elim (Bool-cases (eqb m 0)) [
    | inl m_zero ↦ ground arith
    | inr m_pos ↦
        absurd (suffix-ne-nil base (label ^^ decimal m) (sym (rw m_pos at (rw n_zero at e))))
  ]
  | inr n_pos ↦ elim (Bool-cases (eqb m 0)) [
    | inl m_zero ↦ absurd (suffix-ne-nil base (label ^^ decimal n) (rw m_zero at (rw n_pos at e)))
    | inr m_pos ↦
        decimal-injective n m
          (cancel_front label (cancel_front ":" (cancel_front base (rw m_pos at (rw n_pos at e)))))
  ]
]

with_counter_cancel :
    (label a b : String) (n : ℕ) → with_counter label a n ≡ with_counter label b n → a ≡ b
unfolding with_counter
with_counter_cancel label a b n e = elim (Bool-cases (eqb n 0)) [
  | inl none_yet ↦ rw none_yet at e
  | inr some_yet ↦ cancel_back (":" ^^ (label ^^ decimal n)) (rw some_yet at e)
]

with_resume_cancel :
    (s : OptimizationState) (node_id a b : String)
    → with_resume s node_id a ≡ with_resume s node_id b
    → a ≡ b
unfolding with_resume
with_resume_cancel s node_id a b e = elim (Bool-cases (is_target node_id s.resume_target_node)) [
  | inl hit ↦ with_counter_cancel "resume" a b s.resume_attempts (rw hit at e)
  | inr miss ↦ rw miss at e
]

ok-injective : {A : Type 0} {a b : A} → ok a ≡ ok b → a ≡ b
ok-injective e = cc

module _ (spec : NodeSpec) (s : OptimizationState) (c : String)
    (named : require "case_id" s.case_id ≡ ok c) where
  derive_key-s03_injective :
      contains (before_dot spec.node_id) s03_stages ≡ true
      → (n : ℕ)
      → derive_idempotency_key spec (record s { s03_revision_attempts = n })
        ≡ derive_idempotency_key spec s
      → n ≡ s.s03_revision_attempts
  unfolding derive_idempotency_key with_revisions with_resume
  derive_key-s03_injective in_loop n e =
      let stage = before_dot spec.node_id in
      let inner =
        with_revision stage s02_stages s.s02_revision_attempts
          (with_revision stage a3_stages s.a3_revision_attempts (base_key spec c)) in
      with_counter-injective "rev" inner n s.s03_revision_attempts (
        rw in_loop at (
          with_resume_cancel s spec.node_id (with_revision stage s03_stages n inner)
            (with_revision stage s03_stages s.s03_revision_attempts inner)
            (ok-injective (rw named at e))))

  derive_key-s02_injective :
      contains (before_dot spec.node_id) s02_stages ≡ true
      → contains (before_dot spec.node_id) s03_stages ≡ false
      → (n : ℕ)
      → derive_idempotency_key spec (record s { s02_revision_attempts = n })
        ≡ derive_idempotency_key spec s
      → n ≡ s.s02_revision_attempts
  unfolding derive_idempotency_key with_revisions with_resume
  derive_key-s02_injective in_loop outside n e =
      let stage = before_dot spec.node_id in
      let inner = with_revision stage a3_stages s.a3_revision_attempts (base_key spec c) in
      with_counter-injective "rev" inner n s.s02_revision_attempts (
        rw in_loop at (
          with_resume_cancel s spec.node_id (with_revision stage s02_stages n inner)
            (with_revision stage s02_stages s.s02_revision_attempts inner)
            (ok-injective (rw outside at (rw named at e)))))

  derive_key-resume_injective :
      s.resume_target_node ≡ some spec.node_id
      → (n : ℕ)
      → derive_idempotency_key spec (record s { resume_attempts = n })
        ≡ derive_idempotency_key spec s
      → n ≡ s.resume_attempts
  unfolding derive_idempotency_key with_revisions with_resume is_target
  derive_key-resume_injective halted n e =
      let stage = before_dot spec.node_id in
      with_counter-injective "resume"
        (with_revision stage s03_stages s.s03_revision_attempts (
          with_revision stage s02_stages s.s02_revision_attempts
            (with_revision stage a3_stages s.a3_revision_attempts (base_key spec c))))
        n s.resume_attempts
        (rw (eq_refl spec.node_id) at (rw halted at (ok-injective (rw named at e))))

  -- For a node of S03 to S06 in a case that has an id: the keys of two passes with different
  -- counters of the shared repair loop differ, all else in the state being equal.
  derive_key-s03_fresh :
      contains (before_dot spec.node_id) s03_stages ≡ true
      → (n : ℕ) → n ≢ s.s03_revision_attempts
      → derive_idempotency_key spec (record s { s03_revision_attempts = n })
        ≢ derive_idempotency_key spec s
  derive_key-s03_fresh in_loop n ne e = ne (derive_key-s03_injective in_loop n e)

  -- For a node of S02 in a case that has an id: the keys of two passes with different counters of
  -- the redraft loop differ, all else in the state being equal.
  derive_key-s02_fresh :
      contains (before_dot spec.node_id) s02_stages ≡ true
      → contains (before_dot spec.node_id) s03_stages ≡ false
      → (n : ℕ) → n ≢ s.s02_revision_attempts
      → derive_idempotency_key spec (record s { s02_revision_attempts = n })
        ≢ derive_idempotency_key spec s
  derive_key-s02_fresh in_loop outside n ne e = ne (derive_key-s02_injective in_loop outside n e)

  -- For the node that is the target of a resume, in a case that has an id: the keys under different
  -- numbers of resumes differ, all else in the state being equal.
  derive_key-resume_fresh :
      s.resume_target_node ≡ some spec.node_id
      → (n : ℕ) → n ≢ s.resume_attempts
      → derive_idempotency_key spec (record s { resume_attempts = n })
        ≢ derive_idempotency_key spec s
  derive_key-resume_fresh halted n ne e = ne (derive_key-resume_injective halted n e)

-- The stages of no revision loop.
abbrev pub IsOutsideLoops : NodeSpec → Type 0
IsOutsideLoops spec =
    (contains (before_dot spec.node_id) a3_stages ≡ false)
    × (contains (before_dot spec.node_id) s02_stages ≡ false)
    × (contains (before_dot spec.node_id) s03_stages ≡ false)

-- For a node of a stage outside the three revision loops (S01 among them): two states of one case
-- with the same resume fields give the node the same key, whatever else differs, the counters of
-- the loops and the strategies that a REVERT excluded included.
pub derive_key-outside_loops :
    (spec : NodeSpec) (s t : OptimizationState)
    → IsOutsideLoops spec
    → s.case_id ≡ t.case_id
    → s.resume_attempts ≡ t.resume_attempts
    → s.resume_target_node ≡ t.resume_target_node
    → derive_idempotency_key spec s ≡ derive_idempotency_key spec t
unfolding derive_idempotency_key with_revisions with_resume
derive_key-outside_loops spec s t (a3, s02, s03) same_case same_attempts same_target =
    rw (a3, s02, s03, same_case, same_attempts, same_target)

-- A node that is not the target of the latest resume has the key that it has in the same state
-- without any resume.
pub derive_key-other_node :
    (spec : NodeSpec) (s : OptimizationState) (halted : String) (n : ℕ)
    → halted ≢ spec.node_id
    → derive_idempotency_key spec
        (record s { resume_attempts = n; resume_target_node = some halted })
      ≡ derive_idempotency_key spec (record s { resume_attempts = 0; resume_target_node = none })
unfolding derive_idempotency_key with_revisions with_resume is_target
derive_key-other_node spec s halted n ne =
    let miss : (halted == spec.node_id) ≡ false = ground (arith, eq_iff halted spec.node_id) in
    rw miss
