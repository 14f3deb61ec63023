-- ===== src/Contracts/Refs.antt =====
-- contracts/artifacts.py, contracts/interrupts.py, contracts/commands.py and the actor, intent and
-- policy models of contracts/platform.py. A time is a number of ticks with its time zone's presence.
use agent_code_optimize_plug.Prelude.{ℕ, String, Bool, Option, List}

pub record ArtifactRef : Type 0 where
  pub artifact_type : String
  pub schema_version : String
  pub artifact_id : String
  pub content_digest : String
  pub uri : String

pub record DateTime : Type 0 where
  pub aware : Bool
  pub ticks : ℕ

pub record InterruptEnvelope : Type 0 where
  pub interrupt_id : String
  pub case_id : String
  pub thread_id : String
  pub stage : String
  pub artifact_digest : String
  pub allowed_decisions : List String
  pub required_actor_role : String
  pub policy_version : String
  pub issued_at : ℕ
  pub expires_at : ℕ

pub record ResumeInterruptCommand : Type 0 where
  pub command_id : String
  pub tenant_id : String
  pub case_id : String
  pub thread_id : String
  pub interrupt_id : String
  pub actor_id : String
  pub actor_roles : List String
  pub decision : String
  pub artifact_digest : String
  pub policy_version : String
  pub issued_at : ℕ

pub record ActorContext : Type 0 where
  pub actor_id : String
  pub tenant_id : String
  pub roles : List String

pub data IntentStatus : Type 0 where
  pending completed unknown failed : IntentStatus

pub record IntentRecord : Type 0 where
  pub tenant_id : String
  pub idempotency_key : String
  pub node_id : String
  pub case_id : String
  pub status : IntentStatus
  pub input_digest : String
  pub output_ref : Option ArtifactRef
  pub updated_at : ℕ

pub record OutboxRecord : Type 0 where
  pub event_id : String
  pub tenant_id : String
  pub case_id : String
  pub topic : String
  pub payload_ref : String
  pub payload_digest : String
  pub available_at : ℕ
  pub delivered_at : Option ℕ
  pub attempts : ℕ
  pub last_error_ref : Option String

pub record TelemetryEvent : Type 0 where
  pub case_id : String
  pub thread_id : String
  pub node_id : String
  pub attempt : ℕ
  pub result_code : String
