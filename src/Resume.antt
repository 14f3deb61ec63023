-- ===== src/Resume.antt =====
-- application/resume.py: who may resume a halted case, and the state that the graph is then run from.
pub mod Laws
pub mod Checkpoint
use agent_code_optimize_plug.Prelude.{
  ℕ, ◌+◌, String, Bool, true, false, Option, none, some, List, [], ◌∷◌, not, ◌==◌, if◌then◌else◌,
  leb, contains, subset, filter, is_empty,
}
use agent_code_optimize_plug.Prelude.Dict.{Dict, pop}
use agent_code_optimize_plug.Contracts.Refs.{
  ArtifactRef, DateTime, InterruptEnvelope, ResumeInterruptCommand, ActorContext,
}
use agent_code_optimize_plug.Contracts.Errors.{
  Result, ok, err, bind_result, or_raise, naive_time, no_pending_interrupt, resume_denied,
}
use agent_code_optimize_plug.State.{OptimizationState, Update}

-- the eleven checks, in their order: a reason with whether its check failed
unfoldable pub resume_checks :
    ResumeInterruptCommand → InterruptEnvelope → ActorContext → DateTime → Dict Bool
resume_checks command interrupt actor now =
    ("expired interrupt", leb interrupt.expires_at now.ticks)
    ∷ ("actor identity mismatch", not (command.actor_id == actor.actor_id))
    ∷ ("tenant mismatch", not (command.tenant_id == actor.tenant_id))
    ∷ ("case mismatch", not (command.case_id == interrupt.case_id))
    ∷ ("thread mismatch", not (command.thread_id == interrupt.thread_id))
    ∷ ("interrupt mismatch", not (command.interrupt_id == interrupt.interrupt_id))
    ∷ ("artifact digest mismatch", not (command.artifact_digest == interrupt.artifact_digest))
    ∷ ("policy version mismatch", not (command.policy_version == interrupt.policy_version))
    ∷ ("decision is not allowed", not (contains command.decision interrupt.allowed_decisions))
    ∷ ("required actor role is missing", not (contains interrupt.required_actor_role actor.roles))
    ∷ ("asserted roles exceed authenticated roles", not (subset command.actor_roles actor.roles))
    ∷ []

-- `[reason for reason, failed in checks.items() if failed]`
abbrev pub failed_reasons : Dict Bool → List String
failed_reasons [] = []
failed_reasons ((reason, failed) ∷ checks) =
    if failed then reason ∷ failed_reasons checks else failed_reasons checks

unfoldable pub deny_if_any : List String → Result (Unit {0})
deny_if_any [] = ok tt
deny_if_any (reason ∷ reasons) = err (resume_denied (reason ∷ reasons))

unfoldable pub authorize_resume :
    ResumeInterruptCommand → InterruptEnvelope → ActorContext → DateTime → Result (Unit {0})
unfolding resume_checks deny_if_any
authorize_resume command interrupt actor now =
    if now.aware
    then deny_if_any (failed_reasons (resume_checks command interrupt actor now))
    else err naive_time

-- the references that the halted node did not seal
abbrev pub fresh_refs : InterruptEnvelope → List ArtifactRef → List ArtifactRef
fresh_refs interrupt refs =
    filter (λ ref. not (ref.content_digest == interrupt.artifact_digest)) refs

-- the state that a graph without checkpoints is run from
unfoldable pub resumed_state :
    OptimizationState → ResumeInterruptCommand → InterruptEnvelope → OptimizationState
unfolding pop
resumed_state state command interrupt = record state {
  artifact_refs = fresh_refs interrupt state.artifact_refs;
  node_routes = pop interrupt.stage state.node_routes;
  resume_command = some command;
  resume_attempts = state.resume_attempts + 1;
  resume_target_node = some interrupt.stage;
  pending_interrupt = none;
}

-- the values that a checkpointed graph is given to merge into its state
unfoldable pub resume_updates :
    OptimizationState → ResumeInterruptCommand → InterruptEnvelope → List Update
unfolding pop
resume_updates state command interrupt =
    Update.artifact_refs (fresh_refs interrupt state.artifact_refs)
    ∷ Update.node_routes (pop interrupt.stage state.node_routes)
    ∷ Update.resume_command command
    ∷ Update.resume_attempts (state.resume_attempts + 1)
    ∷ Update.resume_target_node interrupt.stage
    ∷ Update.pending_interrupt none
    ∷ []

-- The compiled graph, which is LangGraph's: `update_state` with a configuration, a run from a state
-- and a run that continues a configuration.
pub record Graph (Config Out : Type 0) : Type 0 where
  pub update_state : Config → List Update → Config
  pub invoke_from : OptimizationState → Out
  pub invoke_again : Config → Out

unfoldable pub resume_graph :
    {Config Out : Type 0}
    → Graph Config Out
    → OptimizationState
    → ResumeInterruptCommand
    → InterruptEnvelope
    → Option Config
    → Out
unfolding resumed_state resume_updates
resume_graph graph state command interrupt none =
    graph.invoke_from (resumed_state state command interrupt)
resume_graph graph state command interrupt (some config) =
    graph.invoke_again (graph.update_state config (resume_updates state command interrupt))

unfoldable pub resume_case :
    {Config Out : Type 0}
    → Graph Config Out
    → OptimizationState
    → ResumeInterruptCommand
    → ActorContext
    → DateTime
    → Option Config
    → Result Out
unfolding authorize_resume resume_graph
resume_case graph state command actor now config =
    bind_result (or_raise state.pending_interrupt no_pending_interrupt) (λ interrupt.
      bind_result (authorize_resume command interrupt actor now)
        (λ _. ok (resume_graph graph state command interrupt config)))
