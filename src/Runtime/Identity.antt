-- ===== src/Runtime/Identity.antt =====
-- No node changes the identity of its case: contracts/state.py and the check of
-- application/node_runtime.py for protected fields.
use agent_code_optimize_plug.Prelude.{
  String, Bool, List, [], ◌∷◌, ◌++◌, ◌≡◌, refl, ◌∙◌, Bool-cases, inl, inr, arith, contains,
}
use agent_code_optimize_plug.Contracts.Errors.{ok, bind_result-eq_ok}
use agent_code_optimize_plug.State.{
  OptimizationState, Update, apply_update, apply_updates, latest_node, merge_node_routes,
  merge_artifact_refs,
}
use agent_code_optimize_plug.Runtime.Keys.{NodeSpec}
use agent_code_optimize_plug.Runtime.Nodes.{
  NodeExecution, route_value, validate_execution, no_identity_fields, identity_field,
  identity_fields, commit, is_runtime_key, without_runtime_keys,
}

-- The two states belong to the same case.
pub record SameIdentity (s s' : OptimizationState) : Type 0 where
  pub case : s'.case_id ≡ s.case_id
  pub thread : s'.thread_id ≡ s.thread_id
  pub tenant : s'.tenant_id ≡ s.tenant_id

same_refl : (s : OptimizationState) → SameIdentity s s
same_refl s = record { case = refl; thread = refl; tenant = refl }

same_trans : {a b c : OptimizationState} → SameIdentity a b → SameIdentity b c → SameIdentity a c
same_trans x y = record {
  case = y.case ∙ x.case;
  thread = y.thread ∙ x.thread;
  tenant = y.tenant ∙ x.tenant;
}

same_of_ok : {s a b : OptimizationState} → ok a ≡ ok b → SameIdentity s a → SameIdentity s b
same_of_ok {s} {a} {b} e same = rw e' at same
  where
    e' : a ≡ b
    e' = cc

no_field : {A : Type 0} {f : String} {fs : List String} → (f ∷ fs) ≡ [] → A
no_field e = absurd cc

-- One update of a field that is not protected keeps the identity.
apply_update-SameIdentity :
    (id_le : String → String → Bool) (s s' : OptimizationState) (u : Update)
    → identity_field u ≡ []
    → apply_update id_le s u ≡ ok s'
    → SameIdentity s s'
unfolding apply_update identity_field
apply_update-SameIdentity id_le s s' (Update.case_id x) free e = no_field free
apply_update-SameIdentity id_le s s' (Update.thread_id x) free e = no_field free
apply_update-SameIdentity id_le s s' (Update.tenant_id x) free e = no_field free
apply_update-SameIdentity id_le s s' (Update.entrypoint x) free e = no_field free
apply_update-SameIdentity id_le s s' (Update.lane x) free e = no_field free
apply_update-SameIdentity id_le s s' (Update.current_node x) free e =
    let (m, _, e') =
      bind_result-eq_ok (latest_node s.current_node x) (λ m. ok (record s { current_node = m }))
        e in
    same_of_ok e' (record { case = refl; thread = refl; tenant = refl })
apply_update-SameIdentity id_le s s' (Update.completed_nodes x) free e =
    same_of_ok e (record { case = refl; thread = refl; tenant = refl })
apply_update-SameIdentity id_le s s' (Update.node_routes x) free e =
    let (m, _, e') =
      bind_result-eq_ok (merge_node_routes s.node_routes x) (λ m. ok (record s { node_routes = m }))
        e in
    same_of_ok e' (record { case = refl; thread = refl; tenant = refl })
apply_update-SameIdentity id_le s s' (Update.artifact_refs x) free e =
    let (m, _, e') =
      bind_result-eq_ok (merge_artifact_refs s.artifact_refs x)
        (λ m. ok (record s { artifact_refs = m })) e in
    same_of_ok e' (record { case = refl; thread = refl; tenant = refl })
apply_update-SameIdentity id_le s s' (Update.pending_interrupt x) free e =
    same_of_ok e (record { case = refl; thread = refl; tenant = refl })
apply_update-SameIdentity id_le s s' (Update.resume_command x) free e =
    same_of_ok e (record { case = refl; thread = refl; tenant = refl })
apply_update-SameIdentity id_le s s' (Update.resume_attempts x) free e =
    same_of_ok e (record { case = refl; thread = refl; tenant = refl })
apply_update-SameIdentity id_le s s' (Update.resume_target_node x) free e =
    same_of_ok e (record { case = refl; thread = refl; tenant = refl })
apply_update-SameIdentity id_le s s' (Update.s01_decision_context x) free e =
    same_of_ok e (record { case = refl; thread = refl; tenant = refl })
apply_update-SameIdentity id_le s s' (Update.s01_eligible_strategy_ids x) free e =
    same_of_ok e (record { case = refl; thread = refl; tenant = refl })
apply_update-SameIdentity id_le s s' (Update.s01_normalized_factors x) free e =
    same_of_ok e (record { case = refl; thread = refl; tenant = refl })
apply_update-SameIdentity id_le s s' (Update.s01_scores x) free e =
    same_of_ok e (record { case = refl; thread = refl; tenant = refl })
apply_update-SameIdentity id_le s s' (Update.s01_ranked_strategy_ids x) free e =
    same_of_ok e (record { case = refl; thread = refl; tenant = refl })
apply_update-SameIdentity id_le s s' (Update.s01_sensitivity_flags x) free e =
    same_of_ok e (record { case = refl; thread = refl; tenant = refl })
apply_update-SameIdentity id_le s s' (Update.s01_routing_decision x) free e =
    same_of_ok e (record { case = refl; thread = refl; tenant = refl })
apply_update-SameIdentity id_le s s' (Update.s01_approval x) free e =
    same_of_ok e (record { case = refl; thread = refl; tenant = refl })
apply_update-SameIdentity id_le s s' (Update.s01_excluded_strategy_ids x) free e =
    same_of_ok e (record { case = refl; thread = refl; tenant = refl })
apply_update-SameIdentity id_le s s' (Update.s02_resolution_ok x) free e =
    same_of_ok e (record { case = refl; thread = refl; tenant = refl })
apply_update-SameIdentity id_le s s' (Update.s02_plan_draft x) free e =
    same_of_ok e (record { case = refl; thread = refl; tenant = refl })
apply_update-SameIdentity id_le s s' (Update.s02_approval x) free e =
    same_of_ok e (record { case = refl; thread = refl; tenant = refl })
apply_update-SameIdentity id_le s s' (Update.s02_revision_attempts x) free e =
    same_of_ok e (record { case = refl; thread = refl; tenant = refl })
apply_update-SameIdentity id_le s s' (Update.s03_completed_task_ids x) free e =
    same_of_ok e (record { case = refl; thread = refl; tenant = refl })
apply_update-SameIdentity id_le s s' (Update.s03_revision_attempts x) free e =
    same_of_ok e (record { case = refl; thread = refl; tenant = refl })
apply_update-SameIdentity id_le s s' (Update.s04_manifest x) free e =
    same_of_ok e (record { case = refl; thread = refl; tenant = refl })
apply_update-SameIdentity id_le s s' (Update.s04_check_results x) free e =
    same_of_ok e (record { case = refl; thread = refl; tenant = refl })
apply_update-SameIdentity id_le s s' (Update.s04_failure_attributions x) free e =
    same_of_ok e (record { case = refl; thread = refl; tenant = refl })
apply_update-SameIdentity id_le s s' (Update.s06_target_evaluations x) free e =
    same_of_ok e (record { case = refl; thread = refl; tenant = refl })
apply_update-SameIdentity id_le s s' (Update.s06_intake x) free e =
    same_of_ok e (record { case = refl; thread = refl; tenant = refl })
apply_update-SameIdentity id_le s s' (Update.s06_guardrail_evaluations x) free e =
    same_of_ok e (record { case = refl; thread = refl; tenant = refl })
apply_update-SameIdentity id_le s s' (Update.s06_attribution x) free e =
    same_of_ok e (record { case = refl; thread = refl; tenant = refl })
apply_update-SameIdentity id_le s s' (Update.s06_decision x) free e =
    same_of_ok e (record { case = refl; thread = refl; tenant = refl })
apply_update-SameIdentity id_le s s' (Update.s06_rollback x) free e =
    same_of_ok e (record { case = refl; thread = refl; tenant = refl })
apply_update-SameIdentity id_le s s' (Update.s06_apply x) free e =
    same_of_ok e (record { case = refl; thread = refl; tenant = refl })

append-nil : (xs ys : List String) → (xs ++ ys) ≡ [] → (xs ≡ []) × (ys ≡ [])
append-nil [] ys e = (refl, e)
append-nil (x ∷ xs) ys e = no_field e

apply_updates-SameIdentity :
    (id_le : String → String → Bool) (s s' : OptimizationState) (us : List Update)
    → identity_fields us ≡ []
    → apply_updates id_le s us ≡ ok s'
    → SameIdentity s s'
unfolding apply_updates identity_fields
apply_updates-SameIdentity id_le s s' [] free e = same_of_ok e (same_refl s)
apply_updates-SameIdentity id_le s s' (u ∷ us) free e =
    let both = append-nil (identity_field u) (identity_fields us) free in
    let (m, one, rest) =
      bind_result-eq_ok (apply_update id_le s u) (λ x. apply_updates id_le x us) e in
    same_trans (apply_update-SameIdentity id_le s m u both.0 one)
      (apply_updates-SameIdentity id_le m s' us both.1 rest)

identity_fields-without :
    (us rest : List Update)
    → identity_fields us ≡ []
    → identity_fields rest ≡ []
    → identity_fields (without_runtime_keys us ++ rest) ≡ []
unfolding identity_fields
identity_fields-without [] rest free free' = free'
identity_fields-without (u ∷ us) rest free free' =
    let both = append-nil (identity_field u) (identity_fields us) free in
    let more = identity_fields-without us rest both.1 free' in
    elim (Bool-cases (is_runtime_key u)) [
      | inl overwritten ↦ rw overwritten more
      | inr kept ↦ rw (kept, both.0) more
    ]

checked-free :
    (fields : List String) (e e' : NodeExecution)
    → no_identity_fields fields e ≡ ok e'
    → fields ≡ []
unfolding no_identity_fields
checked-free [] e e' h = refl
checked-free (f ∷ fs) e e' h = absurd cc

validate_execution-free :
    (spec : NodeSpec) (e e' : NodeExecution)
    → validate_execution spec e ≡ ok e'
    → identity_fields e.updates ≡ []
unfolding validate_execution
validate_execution-free spec e e' valid =
    elim (Bool-cases (contains (route_value e.route) spec.allowed_routes)) [
      | inl declared ↦ checked-free (identity_fields e.updates) e e' (rw declared at valid)
      | inr other ↦ absurd (ground (arith, other, valid))
    ]

-- Whatever a handler returned, if it passed the runtime's check and the commit was merged into the
-- state, then the state still has the same case, thread and tenant.
pub commit-SameIdentity :
    (id_le : String → String → Bool) (spec : NodeSpec) (node_id : String) (e e' : NodeExecution)
    (s s' : OptimizationState)
    → validate_execution spec e ≡ ok e'
    → apply_updates id_le s (commit node_id e s) ≡ ok s'
    → SameIdentity s s'
unfolding commit identity_fields identity_field
commit-SameIdentity id_le spec node_id e e' s s' valid merged =
    apply_updates-SameIdentity id_le s s' (commit node_id e s)
      (identity_fields-without e.updates _ (validate_execution-free spec e e' valid) refl) merged
