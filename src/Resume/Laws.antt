-- ===== src/Resume/Laws.antt =====
-- Who may resume a case (application/resume.py).
use agent_code_optimize_plug.Prelude.{
  ◌<◌, String, Bool, true, false, not, Option, some, List, [], ◌∷◌, ◌≡◌, ◌↔◌, All, eq_refl, refl,
  sym, ◌==◌, eq_iff, leb, contains, subset, arith, Bool-cases, inl, inr,
}
use agent_code_optimize_plug.Prelude.Dict.{Dict}
use agent_code_optimize_plug.Contracts.Refs.{
  DateTime, InterruptEnvelope, ResumeInterruptCommand, ActorContext,
}
use agent_code_optimize_plug.Contracts.Errors.{
  Error, Result, ok, err, bind_result-eq_ok, or_raise, no_pending_interrupt,
}
use agent_code_optimize_plug.State.{OptimizationState}
use agent_code_optimize_plug.Resume.{
  authorize_resume, resume_checks, failed_reasons, deny_if_any, resume_case, resume_graph, Graph,
}

-- The command, of that actor and at that time, may resume the interrupt.
pub record IsAuthorized (command : ResumeInterruptCommand) (interrupt : InterruptEnvelope)
    (actor : ActorContext) (now : DateTime) : Type 0 where
  pub aware : now.aware ≡ true
  pub in_time : now.ticks < interrupt.expires_at
  pub same_actor : command.actor_id ≡ actor.actor_id
  pub same_tenant : command.tenant_id ≡ actor.tenant_id
  pub same_case : command.case_id ≡ interrupt.case_id
  pub same_thread : command.thread_id ≡ interrupt.thread_id
  pub same_interrupt : command.interrupt_id ≡ interrupt.interrupt_id
  pub same_digest : command.artifact_digest ≡ interrupt.artifact_digest
  pub same_policy : command.policy_version ≡ interrupt.policy_version
  pub decision_allowed : contains command.decision interrupt.allowed_decisions ≡ true
  pub has_role : contains interrupt.required_actor_role actor.roles ≡ true
  pub only_own_roles : subset command.actor_roles actor.roles ≡ true

deny_if_any-accepts : (reasons : List String) → deny_if_any reasons ≡ ok tt → reasons ≡ []
unfolding deny_if_any
deny_if_any-accepts [] h = refl
deny_if_any-accepts (r ∷ rs) h = absurd cc

-- No reason is left only when no check failed.
none_failed : (checks : Dict Bool) → failed_reasons checks ≡ [] → All (λ c. c.1 ≡ false) checks
none_failed [] h = tt
none_failed ((reason, true) ∷ checks) h = absurd cc
none_failed ((reason, false) ∷ checks) h = (refl, none_failed checks h)

not-same : (a b : String) → not (a == b) ≡ false → a ≡ b
not-same a b h = ground (arith, eq_iff a b)

holds : (b : Bool) → not b ≡ false → b ≡ true
holds true h = refl
holds false h = sym h

refused : {e : Error} → Path (Result (Unit {0})) (err e) (ok tt) → ⊥
refused h = cc

accepted-aware :
    (command : ResumeInterruptCommand) (interrupt : InterruptEnvelope) (actor : ActorContext)
    (now : DateTime)
    → authorize_resume command interrupt actor now ≡ ok tt
    → (now.aware ≡ true) × (failed_reasons (resume_checks command interrupt actor now) ≡ [])
unfolding authorize_resume
accepted-aware command interrupt actor now h = elim (Bool-cases now.aware) [
  | inl aware ↦ (aware, deny_if_any-accepts _ (rw aware at h))
  | inr naive ↦ absurd (refused (rw naive at h))
]

accepted :
    (command : ResumeInterruptCommand) (interrupt : InterruptEnvelope) (actor : ActorContext)
    (now : DateTime)
    → authorize_resume command interrupt actor now ≡ ok tt
    → IsAuthorized command interrupt actor now
unfolding resume_checks
accepted command interrupt actor now h =
    let (aware, f0) = accepted-aware command interrupt actor now h in
    let (c1, r1) = none_failed (resume_checks command interrupt actor now) f0 in
    let (c2, r2) = r1 in
    let (c3, r3) = r2 in
    let (c4, r4) = r3 in
    let (c5, r5) = r4 in
    let (c6, r6) = r5 in
    let (c7, r7) = r6 in
    let (c8, r8) = r7 in
    let (c9, r9) = r8 in
    let (c10, r10) = r9 in
    let (c11, r11) = r10 in
    record {
      aware = aware;
      in_time = ground (arith, c1);
      same_actor = not-same command.actor_id actor.actor_id c2;
      same_tenant = not-same command.tenant_id actor.tenant_id c3;
      same_case = not-same command.case_id interrupt.case_id c4;
      same_thread = not-same command.thread_id interrupt.thread_id c5;
      same_interrupt = not-same command.interrupt_id interrupt.interrupt_id c6;
      same_digest = not-same command.artifact_digest interrupt.artifact_digest c7;
      same_policy = not-same command.policy_version interrupt.policy_version c8;
      decision_allowed = holds _ c9;
      has_role = holds _ c10;
      only_own_roles = holds _ c11;
    }

-- A resume is authorized exactly when the time has a zone, the interrupt has not expired, the command
-- is that of the authenticated actor and tenant, is bound to the interrupt's case, thread, id, digest
-- and policy, asks for an allowed decision, and the actor has the required role and every role that
-- the command asserts.
pub authorize_resume-accepts_iff :
    (command : ResumeInterruptCommand) (interrupt : InterruptEnvelope) (actor : ActorContext)
    (now : DateTime)
    → (authorize_resume command interrupt actor now ≡ ok tt)
      ↔ IsAuthorized command interrupt actor now
unfolding authorize_resume resume_checks deny_if_any
authorize_resume-accepts_iff command interrupt actor now = (
  accepted command interrupt actor now,
  λ a.
      let late : leb interrupt.expires_at now.ticks ≡ false = ground (arith, a.in_time) in
      rw
        (
          a.aware,
          late,
          a.same_actor,
          a.same_tenant,
          a.same_case,
          a.same_thread,
          a.same_interrupt,
          a.same_digest,
          a.same_policy,
          a.decision_allowed,
          a.has_role,
          a.only_own_roles,
          eq_refl actor.actor_id,
          eq_refl actor.tenant_id,
          eq_refl interrupt.case_id,
          eq_refl interrupt.thread_id,
          eq_refl interrupt.interrupt_id,
          eq_refl interrupt.artifact_digest,
          eq_refl interrupt.policy_version,
        )
        refl,
)

-- A case is resumed only from a pending interrupt, by an authorized command, and then the graph is
-- run from what the resume prepared.
pub resume_case-ok :
    {Config Out : Type 0} (graph : Graph Config Out) (state : OptimizationState)
    (command : ResumeInterruptCommand) (actor : ActorContext) (now : DateTime)
    (config : Option Config) (out : Out)
    → resume_case graph state command actor now config ≡ ok out
    → (interrupt : InterruptEnvelope) × (state.pending_interrupt ≡ some interrupt)
      × IsAuthorized command interrupt actor now
      × (resume_graph graph state command interrupt config ≡ out)
unfolding resume_case
resume_case-ok graph state command actor now config out h =
    let (interrupt, pending, rest) =
      bind_result-eq_ok (or_raise state.pending_interrupt no_pending_interrupt) _ h in
    let (_, authorized, run) =
      bind_result-eq_ok (authorize_resume command interrupt actor now) _ rest in
    (interrupt, ground arith, accepted command interrupt actor now authorized, ground arith)
