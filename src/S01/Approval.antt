-- ===== src/S01/Approval.antt =====
-- How S01.80 and S01.90 treat an approval (application/s01_handlers/nodes).
use agent_code_optimize_plug.Prelude.{
  String, Bool, true, false, Option, none, some, List, [], ◌∷◌, ◌≡◌, ◌∙◌, refl, sym, ap, subst,
  if◌then◌else◌,
}
use agent_code_optimize_plug.Contracts.Refs.{ArtifactRef, InterruptEnvelope}
use agent_code_optimize_plug.Contracts.Errors.{
  Error, Result, ok, err, bind_result-eq_ok, bind_result, Returns, pure-Returns, continue-Returns,
  bind-Returns, Returns-map, pure, missing_state, or_raise,
}
use agent_code_optimize_plug.Contracts.Strategy.{SelectionApproval, pending}
use agent_code_optimize_plug.State.{
  OptimizationState, Update, apply_updates, apply_update, merge_artifact_refs,
}
use agent_code_optimize_plug.Ports.Artifacts.{ArtifactStore}
use agent_code_optimize_plug.Runtime.Nodes.{NodeRoute, NodeExecution, go_on}
use agent_code_optimize_plug.S01.Shared.{
  Outside, pass_stage_id, s01_pass_number, require_stage_ref, require_ref, required_state_str,
}
use agent_code_optimize_plug.S01.Seal.{
  needs_approval, s01_80_resumed, s01_80_for, halt_updates, halt_interrupt, s01_80_routed,
  s01_80_halt, halt_execution, s01_90, s01_90_for, seal_selected, is_rejected, unattended,
}

ok-route : {a b : NodeExecution} → Result.ok a ≡ ok b → a.route ≡ b.route
ok-route e = cc

or_raise-eq_ok : {A : Type 0} (o : Option A) (x : Error) {a : A} → or_raise o x ≡ ok a → o ≡ some a
or_raise-eq_ok none x h = cc
or_raise-eq_ok (some a) x h = cc

-- the outcome that an approval asks for
abbrev pub FollowsApproval : OptimizationState → NodeExecution → Type 0
FollowsApproval state e =
    (a : SelectionApproval) × (state.s01_approval ≡ some a)
    × (e.route ≡ (if is_rejected a.decision then NodeRoute.rejected else NodeRoute.continue))

module _ {S : Type 0} (env : Outside) (store : ArtifactStore S) where
  s01_90_for-route :
      (b : Bool) (state : OptimizationState) (a : SelectionApproval)
      (ranking_ref portfolio_ref : ArtifactRef) (s : S)
      → Returns
          (λ e. e.route ≡ (if b then NodeRoute.rejected else NodeRoute.continue))
          (s01_90_for env store b state a ranking_ref portfolio_ref s)
  unfolding s01_90_for
  s01_90_for-route true state a ranking_ref portfolio_ref s = pure-Returns _ _ s refl
  s01_90_for-route false state a ranking_ref portfolio_ref s =
      bind-Returns _ (seal_selected env store state a ranking_ref portfolio_ref)
        (λ ref. pure (go_on (Update.artifact_refs (ref ∷ []) ∷ []))) s
        (λ ref s' _. pure-Returns _ _ s' refl)

  s01_90-FollowsApproval :
      (state : OptimizationState) (s : S)
      → Returns (FollowsApproval state) (s01_90 env store state s)
  unfolding s01_90
  s01_90-FollowsApproval state s =
      let stage = pass_stage_id "S01.80" (s01_pass_number state) in
      continue-Returns _ (require_stage_ref state stage "RankingResult") _ s (λ ranking_ref _.
        continue-Returns _ (require_ref state "SolutionPortfolio") _ s (λ portfolio_ref _.
          continue-Returns _ (or_raise state.s01_approval (missing_state "s01_approval")) _ s
            (λ a known.
              Returns-map _ _ _ (λ e routed. (a, or_raise-eq_ok state.s01_approval _ known, routed))
                (s01_90_for-route (is_rejected a.decision) state a ranking_ref portfolio_ref s))))

  -- S01.90 returns only where an approval is recorded, and its route is `rejected` exactly where that
  -- approval is a rejection.
  pub s01_90-route :
      (state : OptimizationState) (s : S) (e : NodeExecution)
      → (s01_90 env store state s).0 ≡ ok e
      → (a : SelectionApproval) × (state.s01_approval ≡ some a)
        × (e.route ≡ (if is_rejected a.decision then NodeRoute.rejected else NodeRoute.continue))
  unfolding Returns
  s01_90-route state s e h = s01_90-FollowsApproval state s e h

-- what a halt records
abbrev pub IsHalted : ArtifactRef → OptimizationState → Type 0
IsHalted ref state =
    (a : SelectionApproval) × (state.s01_approval ≡ some a)
    × (a.decision ≡ pending)
    × ((i : InterruptEnvelope) × (state.pending_interrupt ≡ some i)
        × (i.artifact_digest ≡ ref.content_digest))

module _ (env : Outside) (id_le : String → String → Bool) where
  -- the halt's execution, where the identity of the case is there
  halt-eq_ok :
      (state : OptimizationState) (ref : ArtifactRef) (e : NodeExecution)
      → s01_80_halt env state ref ≡ ok e
      → (case_id : String) × (thread_id : String) × (halt_execution env ref case_id thread_id ≡ e)
  unfolding s01_80_halt
  halt-eq_ok state ref e h =
      let (case_id, known, h') =
        bind_result-eq_ok (required_state_str "case_id" state.case_id) _ h in
      let (thread_id, known', h'') =
        bind_result-eq_ok (required_state_str "thread_id" state.thread_id) _ h' in
      (case_id, thread_id, cc (h''))

  -- the halt's updates on a state whose references were merged
  merged-IsHalted :
      (refs : Result (List ArtifactRef)) (state state' : OptimizationState) (ref : ArtifactRef)
      (case_id thread_id : String)
      → bind_result
          (bind_result refs (λ m. ok (record state { artifact_refs = m })))
          (λ s. apply_updates id_le s (halt_updates env ref case_id thread_id))
        ≡ ok state'
      → IsHalted ref state'
  unfolding apply_updates apply_update
  merged-IsHalted (ok m) state state' ref case_id thread_id h =
      let same : record state {
        artifact_refs = m;
        pending_interrupt = some (halt_interrupt env ref case_id thread_id);
        s01_approval = some (unattended env pending);
      }
          ≡ state' =
        cc h in
      subst (IsHalted ref) same
        (unattended env pending, refl, refl, (halt_interrupt env ref case_id thread_id, refl, refl))
  merged-IsHalted (err x) state state' ref case_id thread_id h = cc

  s01_80_halt-IsHalted :
      (state state' : OptimizationState) (ref : ArtifactRef) (e : NodeExecution)
      → s01_80_halt env state ref ≡ ok e
      → apply_updates id_le state e.updates ≡ ok state'
      → (e.route ≡ NodeRoute.continue) × IsHalted ref state'
  unfolding apply_updates apply_update
  s01_80_halt-IsHalted state state' ref e h merged =
      let (case_id, thread_id, same) = halt-eq_ok state ref e h in
      (
        sym (ap (λ x. x.route) same),
        merged-IsHalted (merge_artifact_refs state.artifact_refs (ref ∷ [])) state state' ref
            case_id thread_id (ap (λ x. apply_updates id_le state x.updates) same ∙ merged),
      )

  -- Where the routing decision asks for an approval and no command was given, S01.80 goes on by the
  -- route `continue`, with a pending approval and an interrupt for the ranking on record; the execution
  -- that S01.90 then returns goes on too, as it does after an approval.
  pub s01_80-pending :
      {S : Type 0} (store : ArtifactStore S) (state state' : OptimizationState) (ref : ArtifactRef)
      (e80 e90 : NodeExecution) (s : S)
      → needs_approval env state.s01_routing_decision ≡ true
      → state.resume_command ≡ none
      → s01_80_routed env state ref ≡ ok e80
      → apply_updates id_le state e80.updates ≡ ok state'
      → (s01_90 env store state' s).0 ≡ ok e90
      → (e80.route ≡ NodeRoute.continue) × IsHalted ref state' × (e90.route ≡ NodeRoute.continue)
  unfolding s01_80_routed s01_80_for s01_80_resumed
  s01_80-pending store state state' ref e80 e90 s asked silent ran80 merged ran90 =
      let halted : s01_80_halt env state ref ≡ ok e80 =
        sym (ap (λ c. s01_80_resumed env c state ref) silent)
        ∙ sym (ap (λ b. s01_80_for env b state ref) asked)
        ∙ ran80 in
      let (onward, on_record) = s01_80_halt-IsHalted state state' ref e80 halted merged in
      let (a, known, routed) = s01_90-route env store state' s e90 ran90 in
      let (b, known', is_pending, _) = on_record in
      let same : a ≡ b = cc (known, known') in
      let waits : is_rejected a.decision ≡ false =
        ap (λ x. is_rejected x.decision) same ∙ ap is_rejected is_pending in
      (
        onward,
        on_record,
        routed ∙ ap (λ r. if r then NodeRoute.rejected else NodeRoute.continue) waits,
      )
