-- ===== src/Examples/Outboxes.antt =====
-- The outbox at a table with three events of a tenant, of which one was delivered.
use agent_code_optimize_plug.Prelude.{
  String, Bool, true, false, Option, none, some, List, [], ◌∷◌, ◌≡◌, refl, ◌==◌, if◌then◌else◌, All,
  Memᴰ, length, arith,
}
use agent_code_optimize_plug.Contracts.Refs.{OutboxRecord}
use agent_code_optimize_plug.Contracts.Errors.{ok, err, outside}
use agent_code_optimize_plug.Outbox.{
  Table, has_event, claimable, claim, publish, mark_delivered, Step, Run,
}
use agent_code_optimize_plug.Outbox.Delivery.{mark_delivered-unclaimed}
use agent_code_optimize_plug.Outbox.Publish.{publish-again, publish-claimed}

abbrev event : String → OutboxRecord
event id = record {
  event_id = id;
  tenant_id = "tenant";
  case_id = "case";
  topic = "handoff";
  payload_ref = "s3://payload";
  payload_digest = "sha256:p";
  available_at = 3;
  delivered_at = none;
  attempts = 0;
  last_error_ref = none;
}

abbrev lower : String → Option String
lower id = if id == "BAD" then none else some (if id == "E3" then "e3" else id)

abbrev cases : String → String → Bool
cases tenant_id case_id = case_id == "case"

abbrev table : Table
table = record {
  rows =
      event "e1"
      ∷ record (event "e2") { delivered_at = some 4; available_at = 1 }
      ∷ event "e0"
      ∷ [];
  now = 5;
}

abbrev free : String → Bool
free id = false

abbrev delivered_table : Table
delivered_table = (mark_delivered lower cases "tenant" "e1" table).1

abbrev replayed : Table
replayed = (publish lower cases (event "e1") delivered_table).1

mark_delivered_first :
    (mark_delivered lower cases "tenant" "e1" table).0
    ≡ ok (record (event "e1") { delivered_at = some 5 })
unfolding mark_delivered
mark_delivered_first = refl

replay : Run lower cases delivered_table replayed
replay = Run.then_step (Step.publishes (event "e1") delivered_table) (Run.still replayed)

mark_delivered-unclaimed_example : All (λ c. has_event "tenant" "e1" c ≡ false) (event "e0" ∷ [])
unfolding claim agent_code_optimize_plug.Prelude.sorted publish mark_delivered
mark_delivered-unclaimed_example =
    mark_delivered-unclaimed lower cases "tenant" "e1" table replayed
      (record (event "e1") { delivered_at = some 5 }) free "tenant" 10 (event "e0" ∷ [])
      mark_delivered_first replay other_claimed
  where
    other_claimed : (claim free "tenant" 10 replayed).0 ≡ ok (event "e0" ∷ [])
    other_claimed = refl

publish_upper : (publish lower cases (event "E3") table).0 ≡ ok (event "e3")
unfolding publish
publish_upper = refl

publish_no_uuid :
    (publish lower cases (event "BAD") table).0 ≡ err (outside "invalid input syntax for type uuid")
unfolding publish
publish_no_uuid = refl

publish-again_example :
    publish lower cases (event "E3") (publish lower cases (event "E3") table).1
    ≡ (ok (event "e3"), (publish lower cases (event "E3") table).1)
publish-again_example = publish-again lower cases (event "E3") (event "e3") table publish_upper

publish-claimed_example :
    (rs : List OutboxRecord) × ((claim free "tenant" 3 (publish lower cases (event "E3") table).1).0
      ≡ ok rs)
    × Memᴰ (event "e3") rs
unfolding publish claimable agent_code_optimize_plug.Prelude.sorted
publish-claimed_example =
    publish-claimed lower cases (event "E3") (event "e3") table free 3 publish_upper refl
      (omega arith) refl (omega arith)
