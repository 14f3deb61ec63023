-- ===== src/Examples/Runs.antt =====
-- Runs of one node of application/node_runtime.py against a table of intents.
use agent_code_optimize_plug.Prelude.{
  ℕ, ◌+◌, String, true, none, some, [], ◌∷◌, ◌≡◌, ◌≢◌, refl, sym, ap, ◌∙◌,
}
use agent_code_optimize_plug.Prelude.Dict.{get as lookup, put, sort_keys}
use agent_code_optimize_plug.Contracts.Refs.{ArtifactRef, IntentRecord, IntentStatus, completed}
use agent_code_optimize_plug.Contracts.Errors.{Result, ok, err, outside}
use agent_code_optimize_plug.State.{
  OptimizationState, Update, apply_updates, apply_update, latest_node, has_dot, merge_node_routes,
  merge_routes_from, record_route, merge_node_ids, before_dot,
}
use agent_code_optimize_plug.Ports.Artifacts.{ArtifactStore, ArtifactStoreLaws}
use agent_code_optimize_plug.Ports.Intents.{Records}
use agent_code_optimize_plug.Ledger.{Row, Table, has_case, get, select, intent_record_from_row}
use agent_code_optimize_plug.Ledger.Port.{postgres_ledger, postgres_ledger-lawful}
use agent_code_optimize_plug.Runtime.Keys.{
  NodeSpec, SideEffectClass, derive_idempotency_key, require, with_resume, with_revisions, base_key,
}
use agent_code_optimize_plug.Runtime.Nodes.{
  NodeRoute, NodeExecution, NodePorts, RegisteredNode, validate_execution, commit,
}
use agent_code_optimize_plug.Runtime.Execute.{Codec, NodeRuntime, World, execute}
use agent_code_optimize_plug.Runtime.Execute.Laws.{IsEffectful, IsKeyed, execute-replay}
use agent_code_optimize_plug.Runtime.Execute.Once.{execute-once, execute-failure}
use agent_code_optimize_plug.Runtime.Identity.{SameIdentity, commit-SameIdentity}
use agent_code_optimize_plug.Examples.Base.{empty_state}

-- a store whose references carry the content
abbrev reference : String → ArtifactRef
reference content = record {
  artifact_type = "NodeExecution";
  schema_version = "1.0";
  artifact_id = "id";
  content_digest = "d";
  uri = content;
}

abbrev echo_store : ArtifactStore ℕ
echo_store = record {
  put_json = λ tenant content digest key s. (ok (reference content), s + 1);
  read = λ tenant ref s. ok ref.uri;
}

put_uri :
    (content : String) (ref : ArtifactRef) (s s' : ℕ)
    → Path (Result ArtifactRef × ℕ) (ok (reference content), s) (ok ref, s')
    → ref.uri ≡ content
put_uri content ref s s' e = sym (uri_of (ap (λ p. p.0) e))
  where
    uri_of : {a b : ArtifactRef} → ok a ≡ ok b → a.uri ≡ b.uri
    uri_of h = cc

echo_store-lawful : ArtifactStoreLaws echo_store
echo_store-lawful = record {
  read-put = λ tenant content digest key ref s s' e. ap ok (put_uri content ref (s + 1) s' e);
}

abbrev ports : NodePorts Table ℕ
ports = record {
  artifacts = echo_store;
  intents = postgres_ledger;
  telemetry = true;
  policy = none;
}

abbrev spec : NodeSpec
spec = record {
  node_id = "S06.80";
  idempotency_key_version = "v1";
  side_effect_class = SideEffectClass.idempotent_write;
  max_attempts = 2;
  allowed_routes = "continue" ∷ [];
}

abbrev bump : NodeExecution
bump = record { route = NodeRoute.continue; updates = Update.s03_revision_attempts 1 ∷ [] }

abbrev working : RegisteredNode Table ℕ
working = record { spec = spec; handler = λ state given s. (ok bump, s + 1) }

abbrev failing : RegisteredNode Table ℕ
failing = record { spec = spec; handler = λ state given s. (err (outside "no disk"), s + 1) }

abbrev codec : Codec
codec = record {
  input_digest = λ node_id state. "in";
  encode = λ x. "stored";
  digest = λ x. "d";
  load_execution = λ x. ok bump;
}

abbrev runtime : RegisteredNode Table ℕ → NodeRuntime Table ℕ
runtime node = record {
  registrations = ("S06.80", node) ∷ [];
  ports = some ports;
  codec = codec;
  now = 7;
}

abbrev key : String
key = "case:S06.80:v1"

effectful :
    (node : RegisteredNode Table ℕ)
    → node.spec ≡ spec
    → IsEffectful (runtime node) ports "S06.80" node
unfolding lookup
effectful node e = record {
  registered = refl;
  effect = λ pure. not_pure (sym (ap (λ x. x.side_effect_class) e) ∙ pure);
  with_ports = refl;
}
  where
    not_pure : SideEffectClass.idempotent_write ≢ SideEffectClass.pure
    not_pure h = cc

keyed : IsKeyed spec empty_state "tenant" "case" key
unfolding derive_idempotency_key require with_resume with_revisions before_dot base_key
keyed = record { tenant = refl; case = refl; key_is = refl }

abbrev fresh_world : World Table ℕ
fresh_world = record {
  intents = record { cases = ("tenant", "case") ∷ []; rows = []; now = 9 };
  outside = 0;
  events = [];
}

nothing_recorded : Records postgres_ledger fresh_world.intents "tenant" key none
unfolding postgres_ledger get select
nothing_recorded = refl

known : has_case fresh_world.intents "tenant" "case" ≡ true
unfolding has_case
known = refl

valid : validate_execution spec bump ≡ ok bump
unfolding validate_execution
valid = refl

execute-once_example :
    (w' : World Table ℕ) × (execute (runtime working) "S06.80" empty_state fresh_world
      ≡ (ok (commit "S06.80" bump empty_state), w'))
    × ((later : OptimizationState)
        → IsKeyed spec later "tenant" "case" key
        → execute (runtime working) "S06.80" later w' ≡ (ok (commit "S06.80" bump later), w'))
execute-once_example =
    execute-once (runtime working) ports "S06.80" working has_case postgres_ledger-lawful
      (effectful working refl) empty_state "tenant" "case" key keyed fresh_world none
      nothing_recorded tt known echo_store-lawful bump 1 2 (reference "stored") refl refl valid refl

execute-failure_example :
    (w' : World Table ℕ) × (r : IntentRecord) × (execute
        (runtime failing)
        "S06.80"
        empty_state
        fresh_world
      ≡ (err (outside "no disk"), w'))
    × (w'.outside ≡ 1)
    × Records postgres_ledger w'.intents "tenant" key (some r)
    × (r.status ≡ IntentStatus.unknown)
execute-failure_example =
    execute-failure (runtime failing) ports "S06.80" failing has_case postgres_ledger-lawful
      (effectful failing refl) empty_state "tenant" "case" key keyed fresh_world none
      nothing_recorded tt known (outside "no disk") 1 refl

abbrev completed_intent : Row
completed_intent = record {
  tenant_id = "tenant";
  idempotency_key = key;
  case_id = "case";
  node_id = "S06.80";
  input_digest = "in";
  status = completed;
  output_artifact_type = some "NodeExecution";
  output_schema_version = some "1.0";
  output_artifact_id = some "id";
  output_digest = some "d";
  output_uri = some "stored";
  updated_at = 3;
}

abbrev replay_world : World Table ℕ
replay_world = record {
  intents = record { cases = ("tenant", "case") ∷ []; rows = completed_intent ∷ []; now = 9 };
  outside = 4;
  events = [];
}

abbrev recorded_intent : IntentRecord
recorded_intent = record {
  tenant_id = "tenant";
  idempotency_key = key;
  node_id = "S06.80";
  case_id = "case";
  status = completed;
  input_digest = "in";
  output_ref = some (reference "stored");
  updated_at = 3;
}

completion_recorded :
    Records postgres_ledger replay_world.intents "tenant" key (some recorded_intent)
unfolding postgres_ledger get select intent_record_from_row
completion_recorded = refl

-- the handler of this runtime fails, the replay does not call it
execute-replay_example :
    execute (runtime failing) "S06.80" empty_state replay_world
    ≡ (ok (commit "S06.80" bump empty_state), replay_world)
execute-replay_example =
    execute-replay (runtime failing) ports "S06.80" failing (effectful failing refl) empty_state
      "tenant" "case" key keyed replay_world recorded_intent (reference "stored") "stored" bump
      completion_recorded (refl, refl) refl refl

abbrev committed_state : OptimizationState
committed_state = record empty_state {
  current_node = "S06.80";
  completed_nodes = "S06.80" ∷ [];
  node_routes = ("S06.80", "continue") ∷ [];
  s03_revision_attempts = 1;
}

merged :
    apply_updates (λ a b. true) empty_state (commit "S06.80" bump empty_state) ≡ ok committed_state
unfolding apply_updates commit apply_update latest_node has_dot merge_node_routes merge_routes_from
    record_route lookup merge_node_ids sort_keys put
merged = refl

commit-SameIdentity_example : SameIdentity empty_state committed_state
commit-SameIdentity_example =
    commit-SameIdentity (λ a b. true) spec "S06.80" bump bump empty_state committed_state valid
      merged
