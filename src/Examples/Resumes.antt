-- ===== src/Examples/Resumes.antt =====
-- Resumes of a case that halted for the approval of S06.90 (application/resume.py).
use agent_code_optimize_plug.Prelude.{String, true, none, some, [], ◌∷◌, ◌≡◌, ◌↔◌, refl}
use agent_code_optimize_plug.Prelude.Dict.{get, put, pop, sort_keys}
use agent_code_optimize_plug.Prelude.Text.{text_le}
use agent_code_optimize_plug.Prelude.{sorted}
use agent_code_optimize_plug.Contracts.Refs.{DateTime, InterruptEnvelope, ActorContext}
use agent_code_optimize_plug.Contracts.Errors.{ok}
use agent_code_optimize_plug.State.{
  OptimizationState, apply_updates, apply_update, merge_artifact_refs, merge_refs_from, put_ref,
  same_key, ref_le, merge_node_routes, merge_routes_from, record_route,
}
use agent_code_optimize_plug.State.Refs.{digest_at}
use agent_code_optimize_plug.Resume.{
  authorize_resume, resume_case, resume_graph, Graph, resumed_state, resume_updates, resume_checks,
  deny_if_any,
}
use agent_code_optimize_plug.Resume.Laws.{
  IsAuthorized, authorize_resume-accepts_iff, resume_case-ok,
}
use agent_code_optimize_plug.Resume.Checkpoint.{resume_updates-keep}
use agent_code_optimize_plug.Examples.Base.{
  report_ref, patch_ref, apply_interrupt, approve_command, halted_state,
}

abbrev ann : ActorContext
ann = record { actor_id = "ann"; tenant_id = "tenant"; roles = "dev" ∷ "owner" ∷ [] }

abbrev in_time : DateTime
in_time = record { aware = true; ticks = 50 }

authorize_resume-accepts_iff_example :
    (authorize_resume approve_command apply_interrupt ann in_time ≡ ok tt)
    ↔ IsAuthorized approve_command apply_interrupt ann in_time
authorize_resume-accepts_iff_example =
    authorize_resume-accepts_iff approve_command apply_interrupt ann in_time

-- a graph whose run is the state that it is run from
abbrev graph : Graph OptimizationState OptimizationState
graph = record { update_state = λ s us. s; invoke_from = λ s. s; invoke_again = λ s. s }

resumed :
    resume_case graph halted_state approve_command ann in_time none
    ≡ ok (resumed_state halted_state approve_command apply_interrupt)
unfolding resume_case resume_graph authorize_resume resume_checks deny_if_any
resumed = refl

resume_case-ok_example :
    (interrupt : InterruptEnvelope) × (halted_state.pending_interrupt ≡ some interrupt)
    × IsAuthorized approve_command interrupt ann in_time
    × (resume_graph graph halted_state approve_command interrupt none
        ≡ resumed_state halted_state approve_command apply_interrupt)
resume_case-ok_example =
    resume_case-ok graph halted_state approve_command ann in_time none
      (resumed_state halted_state approve_command apply_interrupt) resumed

abbrev checkpointed : OptimizationState
checkpointed = record halted_state {
  artifact_refs = patch_ref ∷ report_ref "d1" ∷ [];
  resume_command = some approve_command;
  resume_attempts = 1;
  resume_target_node = some "S06.90";
  pending_interrupt = none;
}

merged :
    apply_updates
      (λ a b. true)
      halted_state
      (resume_updates halted_state approve_command apply_interrupt)
    ≡ ok checkpointed
unfolding apply_updates apply_update resume_updates merge_artifact_refs merge_refs_from put_ref
    same_key ref_le sorted text_le merge_node_routes merge_routes_from record_route get put pop
    sort_keys
merged = refl

resume_updates-keep_example :
    ((t i : String)
      → digest_at t i checkpointed.artifact_refs ≡ digest_at t i halted_state.artifact_refs)
    × ((k v : String)
        → get k halted_state.node_routes ≡ some v
        → get k checkpointed.node_routes ≡ some v)
resume_updates-keep_example =
    resume_updates-keep (λ a b. true) halted_state checkpointed approve_command apply_interrupt
      merged
