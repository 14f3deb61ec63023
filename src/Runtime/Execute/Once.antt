-- ===== src/Runtime/Execute/Once.antt =====
-- A run of a node with an effect takes its effect at most once: once it returned, a later run under
-- the same key replays it, and a run that raised is left open.
use agent_code_optimize_plug.Prelude.{
  String, Bool, true, false, Option, none, some, ◌≡◌, ◌≢◌, refl, ◌∙◌,
}
use agent_code_optimize_plug.Contracts.Refs.{
  ArtifactRef, IntentRecord, IntentStatus, completed, pending,
}
use agent_code_optimize_plug.Contracts.Errors.{Error, Result, ok, err}
use agent_code_optimize_plug.State.{OptimizationState}
use agent_code_optimize_plug.Ports.Artifacts.{ArtifactStoreLaws}
use agent_code_optimize_plug.Ports.Intents.{IntentLedgerLaws, Records, IsOpen, prepared}
use agent_code_optimize_plug.Runtime.Nodes.{
  NodeExecution, NodePorts, RegisteredNode, validate_execution, commit,
}
use agent_code_optimize_plug.Runtime.Execute.{
  NodeRuntime, World, replayable, output_of, pending_intent, finish, sent, success_event,
  after_handler, run_or_replay, execute,
}
use agent_code_optimize_plug.Runtime.Execute.Laws.{
  IsEffectful, IsKeyed, execute-looked_up, execute-replay,
}

output_of_open :
    (status : IntentStatus) (ref : Option ArtifactRef)
    → status ≢ completed
    → output_of status ref ≡ none
unfolding output_of
output_of_open completed ref ne = absurd (ne refl)
output_of_open pending ref ne = refl
output_of_open IntentStatus.unknown ref ne = refl
output_of_open IntentStatus.failed ref ne = refl

open-not_replayable : (old : Option IntentRecord) → IsOpen old → replayable old ≡ none
unfolding replayable output_of
open-not_replayable none o = refl
open-not_replayable (some r) o = output_of_open r.status r.output_ref o

prepared-status :
    (intent : IntentRecord) (old : Option IntentRecord)
    → (prepared intent old).status ≡ intent.status
prepared-status intent none = refl
prepared-status intent (some r) = refl

module _ {L S : Type 0} (runtime : NodeRuntime L S) (ports : NodePorts L S) (node_id : String)
    (registration : RegisteredNode L S) (has_case : L → String → String → Bool)
    (ledger_laws : IntentLedgerLaws ports.intents has_case)
    (effectful : IsEffectful runtime ports node_id registration) (state : OptimizationState)
    (tenant_id case_id key : String) (keyed : IsKeyed registration.spec state tenant_id case_id key)
    (w : World L S) (old : Option IntentRecord)
    (recorded : Records ports.intents w.intents tenant_id key old) (is_open : IsOpen old) where
  -- With a lawful ledger, where no run is completed under the key and the ledger has no row for the
  -- case: the run raises, the handler does not run, and nothing of the world changes.
  execute-unknown_case :
      has_case w.intents tenant_id case_id ≡ false
      → (e : Error) × (execute runtime node_id state w ≡ (err e, w))
  unfolding run_or_replay pending_intent
  execute-unknown_case unknown =
      let intent = pending_intent runtime node_id state tenant_id case_id key in
      let (e, refused) =
        ledger_laws.prepare_refused w.intents intent old recorded is_open unknown in
      (
        e,
        execute-looked_up runtime ports node_id registration effectful state tenant_id case_id key
              keyed w old recorded
            ∙ rw (open-not_replayable old is_open, refused),
      )

  -- the intent is prepared first, and what follows is the handler's
  execute-open :
      has_case w.intents tenant_id case_id ≡ true
      → (l : L) × Records ports.intents l tenant_id key
          (some (prepared (pending_intent runtime node_id state tenant_id case_id key) old))
        × ((answer : Result NodeExecution) (s : S)
            → registration.handler state (some ports) w.outside ≡ (answer, s)
            → execute runtime node_id state w
              ≡ after_handler runtime ports registration node_id state tenant_id case_id key answer
                  (record { intents = l; outside = s; events = w.events }))
  unfolding run_or_replay pending_intent
  execute-open known =
      let intent = pending_intent runtime node_id state tenant_id case_id key in
      let (l, e, r) = ledger_laws.prepare_open w.intents intent old recorded is_open known in
      (
        l,
        r,
        λ answer s h.
            execute-looked_up runtime ports node_id registration effectful state tenant_id case_id
              key keyed w old recorded
            ∙ rw (open-not_replayable old is_open, e, h),
      )

  -- With a lawful ledger that has a row for the case, where no run is completed under the key and the
  -- handler raises: the error is raised again, what the handler wrote stays written, and the intent is
  -- recorded as unknown.
  pub execute-failure :
      has_case w.intents tenant_id case_id ≡ true
      → (e : Error) (s : S) → registration.handler state (some ports) w.outside ≡ (err e, s)
      → (w' : World L S) × (r : IntentRecord) × (execute runtime node_id state w ≡ (err e, w'))
        × (w'.outside ≡ s)
        × Records ports.intents w'.intents tenant_id key (some r)
        × (r.status ≡ IntentStatus.unknown)
  unfolding after_handler pending_intent
  execute-failure known e s h =
      let (l, rec, run) = execute-open known in
      let (l', r', marked, rec', is) =
        ledger_laws.mark_unknown_pending l tenant_id key _ rec
          (prepared-status (pending_intent runtime node_id state tenant_id case_id key) old) in
      (
        record { intents = l'; outside = s; events = w.events },
        r',
        run (err e) s h ∙ rw marked,
        refl,
        rec',
        is,
      )

  -- With a lawful store and a lawful ledger that has a row for the case, where no run is completed
  -- under the key: if the handler returns a valid execution that is stored, and whose stored form is
  -- loaded as it was, then the run commits it, and from then on a run of the node under the same key,
  -- from whatever state, commits that execution and changes nothing.
  pub execute-once :
      has_case w.intents tenant_id case_id ≡ true
      → ArtifactStoreLaws ports.artifacts
      → (execution : NodeExecution) (s s' : S) (ref : ArtifactRef)
      → runtime.codec.load_execution (runtime.codec.encode execution) ≡ ok execution
      → registration.handler state (some ports) w.outside ≡ (ok execution, s)
      → validate_execution registration.spec execution ≡ ok execution
      → ports.artifacts.put_json tenant_id
          (runtime.codec.encode execution)
          (runtime.codec.digest (runtime.codec.encode execution))
          key
          s
        ≡ (ok ref, s')
      → (w' : World L S) × (execute runtime node_id state w
          ≡ (ok (commit node_id execution state), w'))
        × ((later : OptimizationState)
            → IsKeyed registration.spec later tenant_id case_id key
            → execute runtime node_id later w' ≡ (ok (commit node_id execution later), w'))
  unfolding after_handler finish
  execute-once known store_laws execution s s' ref faithful h valid stored =
      let (l, rec, run) = execute-open known in
      let (l', r', done, rec', is) = ledger_laws.complete_recorded l tenant_id key ref _ rec in
      let w' : World L S = record {
        intents = l';
        outside = s';
        events = sent ports.telemetry (success_event node_id state case_id execution) w.events;
      } in
      let returned : execute runtime node_id state w ≡ (ok (commit node_id execution state), w') =
        run (ok execution) s h ∙ rw (valid, stored, done) in
      (
        w',
        returned,
        λ later later_keyed.
            execute-replay runtime ports node_id registration effectful later tenant_id case_id key
              later_keyed w' r' ref (runtime.codec.encode execution) execution rec' is
              (store_laws.read-put tenant_id (runtime.codec.encode execution)
                (runtime.codec.digest (runtime.codec.encode execution)) key ref s s' stored)
              faithful,
      )
