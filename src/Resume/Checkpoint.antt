-- ===== src/Resume/Checkpoint.antt =====
-- The two ways in which `resume_case` (application/resume.py) prepares the state: replaced by a new
-- state, or merged into the checkpoint by the state's reducers.
use agent_code_optimize_plug.Prelude.{
  String, Bool, not, none, some, List, [], ◌∷◌, ◌≡◌, ◌≢◌, sym, ap, ◌∙◌, ◌==◌, eq_iff, eq_refl,
  arith, filter, All, or_else, Bool-cases, Option-cases, inl, inr,
}
use agent_code_optimize_plug.Prelude.Dict.{get, pop, get-pop}
use agent_code_optimize_plug.Contracts.Refs.{ArtifactRef, InterruptEnvelope, ResumeInterruptCommand}
use agent_code_optimize_plug.Contracts.Errors.{ok, bind_result-eq_ok}
use agent_code_optimize_plug.State.{
  OptimizationState, Update, apply_update, apply_updates, merge_artifact_refs, merge_node_routes,
}
use agent_code_optimize_plug.State.Refs.{digest_at, merge_artifact_refs-keeps}
use agent_code_optimize_plug.State.Routes.{merge_node_routes-keeps}
use agent_code_optimize_plug.Resume.{fresh_refs, resumed_state, resume_updates}

-- a filter finds nothing where there was nothing
digest_at-filter-none :
    (p : ArtifactRef → Bool) (t i : String) (xs : List ArtifactRef)
    → digest_at t i xs ≡ none
    → digest_at t i (filter p xs) ≡ none
digest_at-filter-none p t i [] h = h
digest_at-filter-none p t i (x ∷ xs) h = ground (arith, digest_at-filter-none p t i xs)

or_else-filter :
    (p : ArtifactRef → Bool) (t i : String) (xs : List ArtifactRef)
    → or_else (digest_at t i xs) (digest_at t i (filter p xs)) ≡ digest_at t i xs
or_else-filter p t i xs = elim (Option-cases (digest_at t i xs)) [
  | inl e ↦ rw (e, digest_at-filter-none p t i xs e)
  | inr (d, e) ↦ rw e
]

ok-injective : {A : Type 0} {a b : A} → ok a ≡ ok b → a ≡ b
ok-injective e = cc

-- A resume that is merged into a checkpoint removes nothing: after it every reference is found with
-- the digest that it had, that of the halted node included, and every recorded route stays.
pub resume_updates-keep :
    (id_le : String → String → Bool) (s s' : OptimizationState) (command : ResumeInterruptCommand)
    (interrupt : InterruptEnvelope)
    → apply_updates id_le s (resume_updates s command interrupt) ≡ ok s'
    → ((t i : String) → digest_at t i s'.artifact_refs ≡ digest_at t i s.artifact_refs)
      × ((k v : String) → get k s.node_routes ≡ some v → get k s'.node_routes ≡ some v)
unfolding resume_updates apply_updates apply_update
resume_updates-keep id_le s s' command interrupt h =
    let (s1, refs, h1) =
      bind_result-eq_ok
        (apply_update id_le s (Update.artifact_refs (fresh_refs interrupt s.artifact_refs))) _ h in
    let (m, merged, to_s1) =
      bind_result-eq_ok (merge_artifact_refs s.artifact_refs (fresh_refs interrupt s.artifact_refs))
        _ refs in
    let (s2, routes, h2) =
      bind_result-eq_ok
        (apply_update id_le s1 (Update.node_routes (pop interrupt.stage s.node_routes))) _ h1 in
    let (n, merged', to_s2) =
      bind_result-eq_ok (merge_node_routes s1.node_routes (pop interrupt.stage s.node_routes)) _
        routes in
    let e1 : record s { artifact_refs = m } ≡ s1 = ok-injective to_s1 in
    let e2 : record s1 { node_routes = n } ≡ s2 = ok-injective to_s2 in
    let e3 = ok-injective h2 in
    let refs_are : s'.artifact_refs ≡ m =
      ap (λ x. x.artifact_refs) (sym e3)
      ∙ ap (λ x. x.artifact_refs) (sym e2)
      ∙ ap (λ x. x.artifact_refs) (sym e1) in
    let routes_are : s'.node_routes ≡ n =
      ap (λ x. x.node_routes) (sym e3) ∙ ap (λ x. x.node_routes) (sym e2) in
    let routes_before : s1.node_routes ≡ s.node_routes = ap (λ x. x.node_routes) (sym e1) in
    (
      λ t i.
          ap (digest_at t i) refs_are
          ∙ (merge_artifact_refs-keeps s.artifact_refs (fresh_refs interrupt s.artifact_refs) m
                merged).0
              t i
          ∙ or_else-filter (λ r. not (r.content_digest == interrupt.artifact_digest)) t i
              s.artifact_refs,
      λ k v e.
          ap (get k) routes_are
          ∙ merge_node_routes-keeps s1.node_routes (pop interrupt.stage s.node_routes) n merged' k v
              (ap (get k) routes_before ∙ e),
    )

fresh-All :
    (interrupt : InterruptEnvelope) (refs : List ArtifactRef)
    → All (λ r. r.content_digest ≢ interrupt.artifact_digest) (fresh_refs interrupt refs)
fresh-All interrupt [] = tt
fresh-All interrupt (r ∷ refs) = elim (Bool-cases (r.content_digest == interrupt.artifact_digest)) [
  | inl stale ↦ rw stale (fresh-All interrupt refs)
  | inr other ↦ rw other (
    (λ e. ground (arith, eq_iff r.content_digest interrupt.artifact_digest, e, other)),
    fresh-All interrupt refs,
  )
]

-- A resume from a new state leaves no reference with the digest of the interrupt and no route under
-- the plain key of the halted stage, and keeps every other route.
resumed_state-drops :
    (s : OptimizationState) (command : ResumeInterruptCommand) (interrupt : InterruptEnvelope)
    → All
        (λ r. r.content_digest ≢ interrupt.artifact_digest)
        (resumed_state s command interrupt).artifact_refs
      × (get interrupt.stage (resumed_state s command interrupt).node_routes ≡ none)
      × ((k : String)
          → k ≢ interrupt.stage
          → get k (resumed_state s command interrupt).node_routes ≡ get k s.node_routes)
unfolding resumed_state
resumed_state-drops s command interrupt = (
  fresh-All interrupt s.artifact_refs,
  get-pop interrupt.stage interrupt.stage s.node_routes ∙ rw (eq_refl interrupt.stage),
  λ k ne. ground (arith, get-pop interrupt.stage k s.node_routes, eq_iff interrupt.stage k),
)
