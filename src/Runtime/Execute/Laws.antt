-- ===== src/Runtime/Execute/Laws.antt =====
-- What one run of a node with an effect does: it replays a completed run, it completes at most once,
-- and a raise leaves an intent that is not completed.
use agent_code_optimize_plug.Prelude.{String, Option, some, ◌≡◌, ◌≢◌, refl, ap, ◌∙◌}
use agent_code_optimize_plug.Prelude.Dict.{get}
use agent_code_optimize_plug.Contracts.Refs.{ArtifactRef, IntentRecord}
use agent_code_optimize_plug.Contracts.Errors.{ok}
use agent_code_optimize_plug.State.{OptimizationState}
use agent_code_optimize_plug.Ports.Intents.{Records, IsCompletedBy}
use agent_code_optimize_plug.Runtime.Keys.{
  NodeSpec, SideEffectClass, require, derive_idempotency_key,
}
use agent_code_optimize_plug.Runtime.Nodes.{NodeExecution, NodePorts, RegisteredNode, commit}
use agent_code_optimize_plug.Runtime.Execute.{
  NodeRuntime, World, replayable, output_of, run_or_replay, execute_idempotent, execute_registered,
  execute_found, execute,
}

-- A node with an effect, in a runtime with ports.
pub record IsEffectful {L S : Type 0} (runtime : NodeRuntime L S) (ports : NodePorts L S)
    (node_id : String) (registration : RegisteredNode L S) : Type 0 where
  pub registered : get node_id runtime.registrations ≡ some registration
  pub effect : registration.spec.side_effect_class ≢ SideEffectClass.pure
  pub with_ports : runtime.ports ≡ some ports

-- The identity and the key under which a run of the node is recorded.
pub record IsKeyed (spec : NodeSpec) (state : OptimizationState) (tenant_id case_id key : String)
    : Type 0 where
  pub tenant : require "tenant_id" state.tenant_id ≡ ok tenant_id
  pub case : require "case_id" state.case_id ≡ ok case_id
  pub key_is : derive_idempotency_key spec state ≡ ok key

module _ {L S : Type 0} (runtime : NodeRuntime L S) (ports : NodePorts L S) (node_id : String)
    (registration : RegisteredNode L S) where
  registered_with_ports :
      (state : OptimizationState) (c : SideEffectClass)
      → c ≢ SideEffectClass.pure
      → (w : World L S)
      → execute_registered runtime node_id state registration c (some ports) w
        ≡ execute_idempotent runtime ports node_id registration state w
  unfolding execute_registered
  registered_with_ports state SideEffectClass.pure ne w = absurd (ne refl)
  registered_with_ports state SideEffectClass.read_only ne w = refl
  registered_with_ports state SideEffectClass.idempotent_write ne w = refl
  registered_with_ports state SideEffectClass.external_job ne w = refl

  execute-effectful :
      IsEffectful runtime ports node_id registration
      → (state : OptimizationState) (w : World L S)
      → execute runtime node_id state w
        ≡ execute_idempotent runtime ports node_id registration state w
  unfolding execute execute_found
  execute-effectful e state w =
      ap (λ o. execute_found runtime node_id state o w) e.registered
      ∙ ap
          (λ p.
            execute_registered runtime node_id state registration
              registration.spec.side_effect_class p w)
          e.with_ports
      ∙ registered_with_ports state registration.spec.side_effect_class e.effect w

  -- the run from the ledger's answer on
  pub execute-looked_up :
      IsEffectful runtime ports node_id registration
      → (state : OptimizationState) (tenant_id case_id key : String)
      → IsKeyed registration.spec state tenant_id case_id key
      → (w : World L S) (old : Option IntentRecord)
      → Records ports.intents w.intents tenant_id key old
      → execute runtime node_id state w
        ≡ run_or_replay runtime ports registration node_id state tenant_id case_id key
            (replayable old)
            w
  unfolding execute_idempotent
  execute-looked_up e state tenant_id case_id key k w old recorded =
      execute-effectful e state w ∙ rw (k.key_is, k.tenant, k.case, recorded)

  -- A completed intent whose output is read and loaded is replayed: the stored execution is committed,
  -- whatever the handler is, and nothing of the world changes.
  pub execute-replay :
      IsEffectful runtime ports node_id registration
      → (state : OptimizationState) (tenant_id case_id key : String)
      → IsKeyed registration.spec state tenant_id case_id key
      → (w : World L S) (r : IntentRecord) (ref : ArtifactRef) (payload : String)
        (execution : NodeExecution)
      → Records ports.intents w.intents tenant_id key (some r)
      → IsCompletedBy ref r
      → ports.artifacts.read tenant_id ref w.outside ≡ ok payload
      → runtime.codec.load_execution payload ≡ ok execution
      → execute runtime node_id state w ≡ (ok (commit node_id execution state), w)
  unfolding run_or_replay replayable output_of
  execute-replay e state tenant_id case_id key k w r ref payload execution recorded c read loads =
      execute-looked_up e state tenant_id case_id key k w (some r) recorded
      ∙ rw (c.0, c.1, read, loads)
