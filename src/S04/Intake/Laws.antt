-- ===== src/S04/Intake/Laws.antt =====
-- Where a pass of S04 that ends at its first node goes on (application/s04_handlers.py,
-- orchestration/subgraphs/s04.py, orchestration/shared_workflow.py).
use agent_code_optimize_plug.Prelude.{
  ◌<◌, String, Bool, true, false, none, some, [], ◌∷◌, ◌≡◌, refl, sym, ap, subst, ◌∙◌,
  if◌then◌else◌, not, arith, leb, contains, or_default,
}
use agent_code_optimize_plug.Prelude.Dict.{Dict, get}
use agent_code_optimize_plug.Contracts.Refs.{ArtifactRef}
use agent_code_optimize_plug.Contracts.Errors.{
  ok, Returns, continue-Returns, pure-Returns, bind_result-eq_ok,
}
use agent_code_optimize_plug.Contracts.Verify.{VerificationManifest}
use agent_code_optimize_plug.State.{
  OptimizationState, Update, apply_update, apply_updates, merge_node_ids, merge_node_routes,
  latest_node,
}
use agent_code_optimize_plug.State.Nodes.{contains-merge_node_ids}
use agent_code_optimize_plug.Runtime.Nodes.{NodeRoute, NodeExecution, route_value, commit}
use agent_code_optimize_plug.Workflow.{
  s03, s04, next_stage, verification_outcome, after_s04, gate_passed, max_phase_repair_attempts,
}
use agent_code_optimize_plug.Subgraphs.{
  end, subgraph, successor, follow, edges_of, s04_edges, add_linear_edges, slice, node_ids,
}
use agent_code_optimize_plug.S06.Shared.{require_ref, require_stage_ref, s03_patch_stage}
use agent_code_optimize_plug.S04.Intake.{new_manifest, intake_execution, look_at_workspace, s04_10}

-- what the merge of a commit of S04.10 leaves of what the outer graph looks at
record NewPass (id_le : String → String → Bool) (manifest : VerificationManifest)
    (s s' : OptimizationState) : Type 0 where
  manifest_is : s'.s04_manifest ≡ some manifest
  nodes_are : s'.completed_nodes ≡ merge_node_ids id_le s.completed_nodes ("S04.10" ∷ [])
  attempts_are : s'.s03_revision_attempts ≡ s.s03_revision_attempts

ok-same : {A : Type 0} {a b : A} → ok a ≡ ok b → a ≡ b
ok-same e = cc

merged-NewPass :
    (id_le : String → String → Bool) (s s' : OptimizationState) (manifest : VerificationManifest)
    (routes : Dict String)
    → apply_updates id_le s (
        Update.s04_manifest manifest
        ∷ Update.s04_check_results []
        ∷ Update.s04_failure_attributions []
        ∷ Update.current_node "S04.10"
        ∷ Update.completed_nodes ("S04.10" ∷ [])
        ∷ Update.node_routes routes
        ∷ [])
      ≡ ok s'
    → NewPass id_le manifest s s'
unfolding apply_updates apply_update
merged-NewPass id_le s s' manifest routes h =
    let s0 : OptimizationState = record s {
      s04_manifest = some manifest;
      s04_check_results = [];
      s04_failure_attributions = [];
    } in
    let (s1, one, h1) =
      bind_result-eq_ok (apply_update id_le s0 (Update.current_node "S04.10")) _ h in
    let (n, _, to_s1) = bind_result-eq_ok (latest_node s0.current_node "S04.10") _ one in
    let s2 : OptimizationState = record s1 {
      completed_nodes = merge_node_ids id_le s1.completed_nodes ("S04.10" ∷ []);
    } in
    let (s3, two, h3) =
      bind_result-eq_ok (apply_update id_le s2 (Update.node_routes routes)) _ h1 in
    let (m, _, to_s3) = bind_result-eq_ok (merge_node_routes s2.node_routes routes) _ two in
    let e1 : record s0 { current_node = n } ≡ s1 = ok-same to_s1 in
    let e3 : record s2 { node_routes = m } ≡ s3 = ok-same to_s3 in
    let e4 : s3 ≡ s' = ok-same h3 in
    record {
      manifest_is =
          ap (λ x. x.s04_manifest) (sym e4)
          ∙ ap (λ x. x.s04_manifest) (sym e3)
          ∙ ap (λ x. x.s04_manifest) (sym e1);
      nodes_are =
          ap (λ x. x.completed_nodes) (sym e4)
          ∙ ap (λ x. x.completed_nodes) (sym e3)
          ∙ ap (λ x. merge_node_ids id_le x.completed_nodes ("S04.10" ∷ [])) (sym e1);
      attempts_are =
          ap (λ x. x.s03_revision_attempts) (sym e4)
          ∙ ap (λ x. x.s03_revision_attempts) (sym e3)
          ∙ ap (λ x. x.s03_revision_attempts) (sym e1);
    }

-- the edge out of S04 for a manifest without a verdict
repair_or_halt :
    (ran : Bool)
    → after_s04 (if not ran then "halt" else "revision") ≡ (if ran then some s03 else none)
unfolding after_s04
repair_or_halt true = refl
repair_or_halt false = refl

NewPass-next_stage :
    (id_le : String → String → Bool) (manifest : VerificationManifest) (s s' : OptimizationState)
    → manifest.gate_passed ≡ false
    → NewPass id_le manifest s s'
    → s.s03_revision_attempts < 5
    → next_stage s04 s' ≡ (if contains "S04.90" s.completed_nodes then some s03 else none)
unfolding next_stage verification_outcome
NewPass-next_stage id_le manifest s s' unset pass early =
    let ran : contains "S04.90" s'.completed_nodes ≡ contains "S04.90" s.completed_nodes =
      ap (contains "S04.90") pass.nodes_are
      ∙ contains-merge_node_ids id_le "S04.90" s.completed_nodes ("S04.10" ∷ [])
      ∙ ground arith in
    let failed : gate_passed s'.s04_manifest ≡ false = ap gate_passed pass.manifest_is ∙ unset in
    let left : leb max_phase_repair_attempts s'.s03_revision_attempts ≡ false =
      rw pass.attempts_are (ground (arith, early)) in
    rw (ran, failed, left) (repair_or_halt (contains "S04.90" s.completed_nodes))

module _ {S : Type 0} (is_directory : String → S → Bool) where
  abbrev IsIntake : NodeExecution → Type 0
  IsIntake e =
      (plan_ref patch_ref : ArtifactRef) × (workspace_ok : Bool) × (e
        ≡ intake_execution plan_ref patch_ref workspace_ok)

  s04_10-IsIntake :
      (state : OptimizationState) (s : S) → Returns IsIntake (s04_10 is_directory state s)
  unfolding s04_10 look_at_workspace
  s04_10-IsIntake state s =
      continue-Returns IsIntake (require_ref state "ExecutionPlan") _ s (λ plan_ref _.
        continue-Returns IsIntake (require_stage_ref state (s03_patch_stage state) "PatchArtifact")
          _ s
          (λ patch_ref _.
            pure-Returns IsIntake _ s
              (plan_ref, patch_ref, is_directory (or_default state.s03_workspace "") s, refl)))

  -- Where S04.10 rejects its pass, as the workspace is gone, the stage ends there; with fewer than five
  -- repairs counted the outer graph then goes back to S03 exactly where S04.90 had completed in an
  -- earlier pass, and halts in a first pass.
  pub s04_10-remembered :
      (id_le : String → String → Bool) (state state' : OptimizationState) (s : S)
      (e : NodeExecution)
      → (s04_10 is_directory state s).0 ≡ ok e
      → e.route ≡ NodeRoute.rejected
      → apply_updates id_le state (commit "S04.10" e state) ≡ ok state'
      → state.s03_revision_attempts < 5
      → (successor (subgraph s04) "S04.10" (route_value e.route) ≡ some end)
        × (next_stage s04 state'
            ≡ (if contains "S04.90" state.completed_nodes then some s03 else none))
  unfolding Returns successor subgraph follow edges_of s04_edges add_linear_edges slice node_ids get
      commit intake_execution
  s04_10-remembered id_le state state' s e ran rejected merged early =
      let (plan_ref, patch_ref, workspace_ok, same) = s04_10-IsIntake state s e ran in
      (
        rw rejected refl,
        NewPass-next_stage id_le (new_manifest plan_ref patch_ref workspace_ok) state state' refl
            (merged-NewPass id_le state state' _ _ (
              subst (λ x. apply_updates id_le state (commit "S04.10" x state) ≡ ok state') same
                merged))
            early,
      )
