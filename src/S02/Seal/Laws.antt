-- ===== src/S02/Seal/Laws.antt =====
-- What S02.81 seals and lets through (application/s02_handlers/nodes).
use agent_code_optimize_plug.Prelude.{
  ℕ, ◌+◌, ◌<◌, String, Bool, true, false, List, [], ◌∷◌, ◌++◌, ◌≡◌, refl, sym, ap, subst, ◌∙◌, not,
  ltb, ltb→lt, and→both, all, All, filter, is_empty, arith, Bool-cases, inl, inr,
}
use agent_code_optimize_plug.Contracts.Refs.{ArtifactRef}
use agent_code_optimize_plug.Contracts.Errors.{
  Result, ok, err, bind_result, Returns, pure, pure-Returns, continue-Returns, bind-Returns,
  Returns-map,
}
use agent_code_optimize_plug.Contracts.Plan.{PlanDraft, PlanQualityResult}
use agent_code_optimize_plug.State.{
  OptimizationState, Update, apply_updates, apply_update, merge_artifact_refs,
}
use agent_code_optimize_plug.Ports.Artifacts.{ArtifactStore}
use agent_code_optimize_plug.Runtime.Nodes.{NodeRoute, NodeExecution}
use agent_code_optimize_plug.S02.Acyclic.{task_graph}
use agent_code_optimize_plug.S02.Acyclic.Path.{Depends}
use agent_code_optimize_plug.S02.Acyclic.Laws.{check_acyclic_iff}
use agent_code_optimize_plug.S02.Checks.{is_diagnostic}
use agent_code_optimize_plug.S02.Checks.Laws.{check_phase_risk_order_iff}
use agent_code_optimize_plug.S02.Gate.{
  Outside, draft_of, critique_of, as_snapshot, selected_solution_ref, quality_results,
  validate_quality_report,
}
use agent_code_optimize_plug.S02.Seal.{
  gate_route, seal_plan, put_sealed, seal_tasks, finish_gate, quality_report, seal_report,
  gate_execution, s02_81_sealed, results_of, s02_81,
}
use agent_code_optimize_plug.S01.Shared.{read_required}

-- two references where the plan is sealed, none where it is not
abbrev HasDigests : Bool → List ArtifactRef → Type 0
HasDigests true refs = (a b : ArtifactRef) × (refs ≡ a ∷ b ∷ [])
HasDigests false refs = refs ≡ []

-- a draft that passes the deterministic dimensions
pub record IsSound (draft : PlanDraft) : Type 0 where
  pub phases_there : is_empty draft.phases ≡ false
  pub phases_formed : is_empty draft.phase_failures ≡ true
  pub tasks_there : is_empty draft.tasks ≡ false
  pub tasks_formed : is_empty draft.task_failures ≡ true
  pub acyclic : (t : String) → ¬ Depends (task_graph draft.tasks) t t
  pub diagnostics_first :
      All
        (λ p. All (λ q. p.sequence < q.sequence) (filter (λ r. not (is_diagnostic r)) draft.phases))
        (filter is_diagnostic draft.phases)
  pub no_repairs : is_empty draft.path_repairs ≡ true
  pub covered : all (λ e. e.1) draft.acceptance_coverage ≡ true
  pub rollback : draft.rollback_ok ≡ true

all_passed :
    (results : List PlanQualityResult)
    → all (λ r. r.passed) results ≡ true
    → All (λ r. r.passed ≡ true) results
all_passed [] h = tt
all_passed (r ∷ rs) h =
    let (here, rest) = and→both r.passed (all (λ x. x.passed) rs) h in (here, all_passed rs rest)

gate_route-continue :
    (passed : Bool) (n : ℕ) → gate_route passed n ≡ NodeRoute.continue → passed ≡ true
gate_route-continue true n h = refl
gate_route-continue false n h = elim (Bool-cases (ltb n 2)) [
  | inl e ↦ cc (h, e)
  | inr e ↦ cc (h, e)
]

gate_route-revision : (passed : Bool) (n : ℕ) → gate_route passed n ≡ NodeRoute.revision → n < 2
gate_route-revision true n h = cc (h)
gate_route-revision false n h = elim (Bool-cases (ltb n 2)) [
  | inl e ↦ ltb→lt n 2 e
  | inr e ↦ cc (h, e)
]

merged-attempts :
    (id_le : String → String → Bool) (refs : Result (List ArtifactRef))
    (state state' : OptimizationState)
    → bind_result (bind_result refs (λ m. ok (record state { artifact_refs = m }))) (λ s.
      apply_updates id_le s (Update.s02_revision_attempts (state.s02_revision_attempts + 1) ∷ []))
      ≡ ok state'
    → state'.s02_revision_attempts ≡ state.s02_revision_attempts + 1
unfolding apply_updates apply_update
merged-attempts id_le (ok m) state state' h =
    let same : record state {
      artifact_refs = m;
      s02_revision_attempts = state.s02_revision_attempts + 1;
    }
        ≡ state' =
      cc h in
    sym (ap (λ x. x.s02_revision_attempts) same)
merged-attempts id_le (err x) state state' h = cc

module _ {S : Type 0} (env : Outside S) (store : ArtifactStore S) where
  abbrev IsGated : OptimizationState → List PlanQualityResult → NodeExecution → Type 0
  IsGated state results e =
      (refs : List ArtifactRef) × (report_ref : ArtifactRef) × (e
        ≡ gate_execution env store state results refs report_ref)

  seal_tasks-HasDigests :
      (state : OptimizationState) (draft : PlanDraft) (plan_ref : ArtifactRef) (s : S)
      → Returns (HasDigests true) (seal_tasks env store state draft plan_ref s)
  unfolding seal_tasks
  seal_tasks-HasDigests state draft plan_ref s =
      bind-Returns (HasDigests true) (put_sealed env store state "TaskList" _ _)
        (λ tasks_ref. pure (plan_ref ∷ tasks_ref ∷ [])) s
        (λ tasks_ref s' _. pure-Returns (HasDigests true) _ s' (plan_ref, tasks_ref, refl))

  seal_plan-HasDigests :
      (passed : Bool) (state : OptimizationState) (selected_ref : ArtifactRef) (draft : PlanDraft)
      (s : S)
      → Returns (HasDigests passed) (seal_plan env store passed state selected_ref draft s)
  unfolding seal_plan
  seal_plan-HasDigests false state selected_ref draft s = pure-Returns (HasDigests false) [] s refl
  seal_plan-HasDigests true state selected_ref draft s =
      bind-Returns (HasDigests true) (put_sealed env store state "ExecutionPlan" _ _)
        (seal_tasks env store state draft) s
        (λ plan_ref s' _. seal_tasks-HasDigests state draft plan_ref s')

  finish_gate-execution :
      (state : OptimizationState) (results : List PlanQualityResult) (refs : List ArtifactRef)
      (s : S)
      → Returns (IsGated state results) (finish_gate env store state results refs s)
  unfolding finish_gate
  finish_gate-execution state results refs s =
      bind-Returns (IsGated state results) (seal_report env store state results refs)
        (λ report_ref. pure (gate_execution env store state results refs report_ref)) s
        (λ report_ref s' _. pure-Returns (IsGated state results) _ s' (refs, report_ref, refl))

  -- The execution of S02.81 is the gate's, on some references.
  s02_81_sealed-gate :
      (state : OptimizationState) (selected_ref : ArtifactRef) (results : List PlanQualityResult)
      (s : S)
      → Returns (IsGated state results) (s02_81_sealed env store state selected_ref results s)
  unfolding s02_81_sealed
  s02_81_sealed-gate state selected_ref results s =
      bind-Returns (IsGated state results)
        (seal_plan env store (all (λ r. r.passed) results) state selected_ref (draft_of state))
        (finish_gate env store state results) s
        (λ refs s' _. finish_gate-execution state results refs s')

  -- the gate on the quality of the draft, against some files
  abbrev IsJudged : OptimizationState → NodeExecution → Type 0
  IsJudged state e =
      (files : List String) × IsGated state
        (quality_results env (draft_of state) (critique_of state) files) e

  s02_81-IsJudged :
      (state : OptimizationState) (s : S) → Returns (IsJudged state) (s02_81 env store state s)
  unfolding s02_81
  s02_81-IsJudged state s =
      continue-Returns (IsJudged state) (selected_solution_ref state) _ s (λ selected_ref _.
        bind-Returns (IsJudged state)
          (read_required env.base store as_snapshot state "SourceSnapshot")
          (λ snapshot s'.
            s02_81_sealed env store state selected_ref (results_of env store state snapshot s') s')
          s
          (λ snapshot s' _.
            Returns-map (IsGated state (results_of env store state snapshot s')) (IsJudged state) _
              (λ e gated. (env.repository_file_paths snapshot s', gated))
              (s02_81_sealed-gate state selected_ref (results_of env store state snapshot s') s')))

  validate-HasDigests :
      (results : List PlanQualityResult) (refs : List ArtifactRef)
      → HasDigests (all (λ r. r.passed) results) refs
      → validate_quality_report (quality_report env store results refs)
        ≡ ok (quality_report env store results refs)
  unfolding validate_quality_report
  validate-HasDigests results refs has = elim (Bool-cases (all (λ r. r.passed) results)) [
    | inl e ↦ let (a, b, both) = subst (λ p. HasDigests p refs) e has in rw (e, both) refl
    | inr e ↦ rw e refl
  ]

  -- The report that S02.81 seals on the references of the plan is one that the model's validator
  -- accepts, whatever the dimensions are: it has both digests exactly where every dimension passed.
  pub validate_quality_report-seal_plan :
      (state : OptimizationState) (selected_ref : ArtifactRef) (draft : PlanDraft)
      (results : List PlanQualityResult) (s : S) (refs : List ArtifactRef)
      → (seal_plan env store (all (λ r. r.passed) results) state selected_ref draft s).0 ≡ ok refs
      → validate_quality_report (quality_report env store results refs)
        ≡ ok (quality_report env store results refs)
  unfolding Returns
  validate_quality_report-seal_plan state selected_ref draft results s refs sealed =
      validate-HasDigests results refs
        (seal_plan-HasDigests (all (λ r. r.passed) results) state selected_ref draft s refs sealed)

  quality_results-IsSound :
      (state : OptimizationState) (files : List String)
      → all (λ r. r.passed) (quality_results env (draft_of state) (critique_of state) files) ≡ true
      → IsSound (draft_of state) × ((critique_of state).approved ≡ true)
  unfolding quality_results
  quality_results-IsSound state files h =
      let draft = draft_of state in
      let dims = all_passed (quality_results env draft (critique_of state) files) h in
      let phases = and→both (not (is_empty draft.phases)) (is_empty draft.phase_failures) dims.0 in
      let tasks = and→both (not (is_empty draft.tasks)) (is_empty draft.task_failures) dims.1.0 in
      let coverage = dims.1.1.1.1.1.1.1.0 in
      (
        record {
          phases_there = ground (arith, phases.0);
          phases_formed = phases.1;
          tasks_there = ground (arith, tasks.0);
          tasks_formed = tasks.1;
          acyclic = (check_acyclic_iff env.base.repr draft.tasks).0 dims.1.1.0;
          diagnostics_first = (check_phase_risk_order_iff draft.phases).0 dims.1.1.1.0;
          no_repairs = dims.1.1.1.1.1.1.0;
          covered =
              (and→both (not (is_empty draft.acceptance_coverage))
                (all (λ e. e.1) draft.acceptance_coverage) coverage).1;
          rollback = dims.1.1.1.1.1.1.1.1.0;
        },
        dims.1.1.1.1.1.1.1.1.1.0,
      )

  -- Where S02.81 goes on, the plan and its tasks are not empty and without failures, no task depends on
  -- itself, every diagnostic phase stands before every implementation phase, every criterion is
  -- covered, and rollback and critic agree.
  pub s02_81-continue :
      (state : OptimizationState) (s : S) (e : NodeExecution)
      → (s02_81 env store state s).0 ≡ ok e
      → e.route ≡ NodeRoute.continue
      → IsSound (draft_of state) × ((critique_of state).approved ≡ true)
  unfolding Returns
  s02_81-continue state s e ran onward =
      let (files, judged) = s02_81-IsJudged state s e ran in
      let (refs, report_ref, gated) = judged in
      let results = quality_results env (draft_of state) (critique_of state) files in
      quality_results-IsSound state files (
        gate_route-continue (all (λ r. r.passed) results) state.s02_revision_attempts
          (sym (ap (λ x. x.route) gated) ∙ onward))

  -- Where S02.81 asks for a revision, fewer than two were counted before, and the merged state counts
  -- one more: a redraft loop ends after the third judgement at the latest.
  pub s02_81-revision :
      (id_le : String → String → Bool) (state state' : OptimizationState) (s : S)
      (e : NodeExecution)
      → (s02_81 env store state s).0 ≡ ok e
      → e.route ≡ NodeRoute.revision
      → apply_updates id_le state e.updates ≡ ok state'
      → (state.s02_revision_attempts < 2)
        × (state'.s02_revision_attempts ≡ state.s02_revision_attempts + 1)
  unfolding Returns apply_updates apply_update
  s02_81-revision id_le state state' s e ran again merged =
      let (files, judged) = s02_81-IsJudged state s e ran in
      let (refs, report_ref, gated) = judged in
      let results = quality_results env (draft_of state) (critique_of state) files in
      (
        gate_route-revision (all (λ r. r.passed) results) state.s02_revision_attempts
            (sym (ap (λ x. x.route) gated) ∙ again),
        merged-attempts id_le (merge_artifact_refs state.artifact_refs (refs ++ (report_ref ∷ [])))
            state state' (sym (ap (λ x. apply_updates id_le state x.updates) gated) ∙ merged),
      )
