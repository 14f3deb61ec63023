-- ===== src/Runtime/Execute.antt =====
-- `NodeRuntime` of application/node_runtime.py: the execution of one node, with the ledger of
-- intents in front of every handler that has an effect.
pub mod Laws
pub mod Once
use agent_code_optimize_plug.Prelude.{
  ℕ, String, Bool, true, false, Option, none, some, List, [], ◌∷◌, ◌++◌, if◌then◌else◌, or_default,
  ◌==◌,
}
use agent_code_optimize_plug.Prelude.Dict.{Dict, get}
use agent_code_optimize_plug.Contracts.Refs.{
  ArtifactRef, IntentRecord, IntentStatus, TelemetryEvent, completed, pending,
}
use agent_code_optimize_plug.Contracts.Errors.{
  Error, Result, ok, err, Exec, node_not_enabled, continue, ◌>>=◌, ◌>>◌, pure, raise, lift,
}
use agent_code_optimize_plug.State.{OptimizationState, Update}
use agent_code_optimize_plug.Runtime.Keys.{SideEffectClass, require, derive_idempotency_key}
use agent_code_optimize_plug.Runtime.Nodes.{
  NodeRoute, NodeExecution, NodePorts, RegisteredNode, route_value, validate_execution, commit,
}

-- What `json`, `hashlib` and pydantic do for the runtime: the digest of a node's input, the stored
-- form of an execution with its digest, and `_load_execution`.
pub record Codec : Type 0 where
  pub input_digest : String → OptimizationState → String
  pub encode : NodeExecution → String
  pub digest : String → String
  pub load_execution : String → Result NodeExecution

-- The registered nodes, the optional ports, and the clock's reading.
pub record NodeRuntime (L S : Type 0) : Type 0 where
  pub registrations : Dict (RegisteredNode L S)
  pub ports : Option (NodePorts L S)
  pub codec : Codec
  pub now : ℕ

-- The ledger, what the handlers and the artifact store work on, and the telemetry sent so far.
pub record World (L S : Type 0) : Type 0 where
  pub intents : L
  pub outside : S
  pub events : List TelemetryEvent

unfoldable pub output_of : IntentStatus → Option ArtifactRef → Option ArtifactRef
output_of completed ref = ref
output_of _ ref = none

-- the output of a completed intent that has one
unfoldable pub replayable : Option IntentRecord → Option ArtifactRef
unfolding output_of
replayable none = none
replayable (some r) = output_of r.status r.output_ref

unfoldable pub success_event : String → OptimizationState → String → NodeExecution → TelemetryEvent
unfolding route_value
success_event node_id state case_id execution = record {
  case_id = case_id;
  thread_id = or_default state.thread_id "";
  node_id = node_id;
  attempt = 1;
  result_code = route_value execution.route;
}

abbrev pub sent : Bool → TelemetryEvent → List TelemetryEvent → List TelemetryEvent
sent true event events = events ++ (event ∷ [])
sent false event events = events

module _ {L S : Type 0} where
  -- an operation of the ledger, as one on the world
  abbrev pub on_intents : {A : Type 0} → Exec L A → Exec (World L S) A
  on_intents m w = let (r, l) = m w.intents in (r, record w { intents = l })

  -- a handler or an operation of the store, as one on the world
  abbrev pub on_outside : {A : Type 0} → Exec S A → Exec (World L S) A
  on_outside m w = let (r, s) = m w.outside in (r, record w { outside = s })

  -- an event for the telemetry port, where there is one
  abbrev pub emit : Bool → TelemetryEvent → Exec (World L S) Unit
  emit given event w = (ok tt, record w { events = sent given event w.events })

  unfoldable pub pending_intent :
      NodeRuntime L S → String → OptimizationState → String → String → String → IntentRecord
  pending_intent runtime node_id state tenant_id case_id key = record {
    tenant_id = tenant_id;
    idempotency_key = key;
    node_id = node_id;
    case_id = case_id;
    status = pending;
    input_digest = runtime.codec.input_digest node_id state;
    output_ref = none;
    updated_at = runtime.now;
  }

  -- the end of a run whose handler returned: validate, store, complete, report, commit
  unfoldable pub finish :
      NodeRuntime L S
      → NodePorts L S
      → RegisteredNode L S
      → String
      → OptimizationState
      → String
      → String
      → String
      → NodeExecution
      → Exec (World L S) (List Update)
  unfolding validate_execution commit success_event
  finish runtime ports registration node_id state tenant_id case_id key execution =
      lift (validate_execution registration.spec execution) >>= λ valid.
      (let content = runtime.codec.encode execution in
        on_outside (ports.artifacts.put_json tenant_id content (runtime.codec.digest content) key)
        >>= λ output_ref.
            (on_intents (ports.intents.complete tenant_id key output_ref)
              >> emit ports.telemetry (success_event node_id state case_id execution)
              >> pure (commit node_id execution state)))

  -- the answer of the handler: a raise marks the intent as unknown and is raised again
  unfoldable pub after_handler :
      NodeRuntime L S
      → NodePorts L S
      → RegisteredNode L S
      → String
      → OptimizationState
      → String
      → String
      → String
      → Result NodeExecution
      → Exec (World L S) (List Update)
  unfolding finish
  after_handler runtime ports registration node_id state tenant_id case_id key (ok execution) =
      finish runtime ports registration node_id state tenant_id case_id key execution
  after_handler runtime ports registration node_id state tenant_id case_id key (err e) =
      on_intents (ports.intents.mark_unknown tenant_id key) >> raise e

  -- `_execute_idempotent` from the lookup's answer on
  unfoldable pub run_or_replay :
      NodeRuntime L S
      → NodePorts L S
      → RegisteredNode L S
      → String
      → OptimizationState
      → String
      → String
      → String
      → Option ArtifactRef
      → Exec (World L S) (List Update)
  unfolding pending_intent after_handler commit
  run_or_replay runtime ports registration node_id state tenant_id case_id key (some ref) w =
      (lift (ports.artifacts.read tenant_id ref w.outside) >>= λ payload.
      (lift (runtime.codec.load_execution payload) >>= λ execution.
      pure (commit node_id execution state)))
        w
  run_or_replay runtime ports registration node_id state tenant_id case_id key none w =
      (on_intents
            (ports.intents.prepare (pending_intent runtime node_id state tenant_id case_id key))
          >> λ w1.
              (let (answer, s) = registration.handler state (some ports) w1.outside in
                after_handler runtime ports registration node_id state tenant_id case_id key answer
                  (record w1 { outside = s })))
        w

  unfoldable pub execute_idempotent :
      NodeRuntime L S
      → NodePorts L S
      → String
      → RegisteredNode L S
      → OptimizationState
      → Exec (World L S) (List Update)
  unfolding require derive_idempotency_key replayable run_or_replay
  execute_idempotent runtime ports node_id registration state =
      lift (require "tenant_id" state.tenant_id) >>= λ tenant_id.
      (lift (require "case_id" state.case_id) >>= λ case_id.
      (lift (derive_idempotency_key registration.spec state) >>= λ key.
      (on_intents (ports.intents.get tenant_id key) >>= λ existing.
      run_or_replay runtime ports registration node_id state tenant_id case_id key
        (replayable existing))))

  -- the direct run of a pure node, or of a runtime without ports
  unfoldable pub execute_direct :
      NodeRuntime L S
      → String
      → RegisteredNode L S
      → OptimizationState
      → Exec (World L S) (List Update)
  unfolding validate_execution commit
  execute_direct runtime node_id registration state =
      on_outside (registration.handler state runtime.ports) >>= λ execution.
      (lift (validate_execution registration.spec execution)
        >> pure (commit node_id execution state))

  unfoldable pub execute_registered :
      NodeRuntime L S
      → String
      → OptimizationState
      → RegisteredNode L S
      → SideEffectClass
      → Option (NodePorts L S)
      → Exec (World L S) (List Update)
  unfolding execute_direct execute_idempotent
  execute_registered runtime node_id state registration SideEffectClass.pure ports =
      execute_direct runtime node_id registration state
  execute_registered runtime node_id state registration _ none =
      execute_direct runtime node_id registration state
  execute_registered runtime node_id state registration _ (some ports) =
      execute_idempotent runtime ports node_id registration state

  unfoldable pub execute_found :
      NodeRuntime L S
      → String
      → OptimizationState
      → Option (RegisteredNode L S)
      → Exec (World L S) (List Update)
  unfolding execute_registered
  execute_found runtime node_id state none = raise (node_not_enabled node_id)
  execute_found runtime node_id state (some registration) =
      execute_registered runtime node_id state registration registration.spec.side_effect_class
        runtime.ports

  unfoldable pub execute :
      NodeRuntime L S → String → OptimizationState → Exec (World L S) (List Update)
  unfolding execute_found get
  execute runtime node_id state =
      execute_found runtime node_id state (get node_id runtime.registrations)
