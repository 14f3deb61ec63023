-- ===== src/Ledger.antt =====
-- adapters/production/postgres_intent_ledger.py: the table `node_intents` and its four statements.
-- A table is its rows in some order, with the database clock and the keys of the table `cases`, to
-- which migrations/001_control_plane.sql has a foreign key.
pub mod Laws
pub mod Port
use agent_code_optimize_plug.Prelude.{
  ℕ, String, Bool, true, false, Option, none, some, List, [], ◌∷◌, ◌&&◌, ◌||◌, not, any, ◌==◌,
  if◌then◌else◌,
}
use agent_code_optimize_plug.Contracts.Refs.{
  ArtifactRef, IntentRecord, IntentStatus, pending, completed,
}
use agent_code_optimize_plug.Contracts.Errors.{
  Result, ok, err, Exec, no_prepared_intent, no_pending_intent, outside,
}

-- A row; a column that is NULL is `none`.
pub record Row : Type 0 where
  pub tenant_id : String
  pub idempotency_key : String
  pub case_id : String
  pub node_id : String
  pub input_digest : String
  pub status : IntentStatus
  pub output_artifact_type : Option String
  pub output_schema_version : Option String
  pub output_artifact_id : Option String
  pub output_digest : Option String
  pub output_uri : Option String
  pub updated_at : ℕ

pub record Table : Type 0 where
  -- tenant and case of each row of `cases`
  pub cases : List (String × String)
  pub rows : List Row
  pub now : ℕ

unfoldable pub artifact_ref_from_columns :
    Option String
    → Option String
    → Option String
    → Option String
    → Option String
    → Option ArtifactRef
artifact_ref_from_columns (some t) (some v) (some i) (some d) (some u) =
    some (record {
      artifact_type = t;
      schema_version = v;
      artifact_id = i;
      content_digest = d;
      uri = u;
    })
artifact_ref_from_columns _ _ _ _ _ = none

unfoldable pub artifact_ref_from_row : Row → Option ArtifactRef
unfolding artifact_ref_from_columns
artifact_ref_from_row r =
    artifact_ref_from_columns r.output_artifact_type r.output_schema_version r.output_artifact_id
      r.output_digest r.output_uri

unfoldable pub intent_record_from_row : Row → IntentRecord
unfolding artifact_ref_from_row
intent_record_from_row r = record {
  tenant_id = r.tenant_id;
  idempotency_key = r.idempotency_key;
  node_id = r.node_id;
  case_id = r.case_id;
  status = r.status;
  input_digest = r.input_digest;
  output_ref = artifact_ref_from_row r;
  updated_at = r.updated_at;
}

abbrev pub is_completed : IntentStatus → Bool
is_completed completed = true
is_completed _ = false

abbrev pub is_pending : IntentStatus → Bool
is_pending pending = true
is_pending _ = false

-- WHERE tenant_id = %s AND idempotency_key = %s
abbrev pub has_key : String → String → Row → Bool
has_key tenant key r = (r.tenant_id == tenant) && (r.idempotency_key == key)

-- SELECT ... WHERE, for the table's primary key
unfoldable pub select : String → String → List Row → Option Row
select tenant key [] = none
select tenant key (r ∷ rows) = if has_key tenant key r then some r else select tenant key rows

-- UPDATE ... SET ... WHERE, for the table's primary key
unfoldable pub update : String → String → (Row → Row) → List Row → List Row
update tenant key change [] = []
update tenant key change (r ∷ rows) =
    if has_key tenant key r then change r ∷ rows else r ∷ update tenant key change rows

unfoldable pub inserted_row : IntentRecord → Row
inserted_row intent = record {
  tenant_id = intent.tenant_id;
  idempotency_key = intent.idempotency_key;
  case_id = intent.case_id;
  node_id = intent.node_id;
  input_digest = intent.input_digest;
  status = intent.status;
  output_artifact_type = none;
  output_schema_version = none;
  output_artifact_id = none;
  output_digest = none;
  output_uri = none;
  updated_at = intent.updated_at;
}

-- ON CONFLICT ... DO UPDATE SET ... WHERE status <> 'completed'
unfoldable pub conflict_row : IntentRecord → Row → Row
conflict_row intent r = if is_completed r.status then r else record r {
  case_id = intent.case_id;
  node_id = intent.node_id;
  input_digest = intent.input_digest;
  status = intent.status;
  updated_at = intent.updated_at;
}

-- the rows after the statement, where its foreign key holds
unfoldable pub upserted_rows : IntentRecord → List Row → List Row
unfolding inserted_row conflict_row
upserted_rows intent [] = inserted_row intent ∷ []
upserted_rows intent (r ∷ rows) =
    if has_key intent.tenant_id intent.idempotency_key r
    then conflict_row intent r ∷ rows
    else r ∷ upserted_rows intent rows

-- FOREIGN KEY (tenant_id, case_id) REFERENCES cases
unfoldable pub has_case : Table → String → String → Bool
has_case t tenant case = any (λ c. (c.0 == tenant) && (c.1 == case)) t.cases

-- whether the statement writes a row: it does not where the row of the key is completed
unfoldable pub writes : Option Row → Bool
writes none = true
writes (some r) = not (is_completed r.status)

-- the row that a statement returned, or the refusal
unfoldable pub found_row : Option Row → Result IntentRecord
unfolding intent_record_from_row
found_row none = err (outside "intent prepare did not persist a row")
found_row (some r) = ok (intent_record_from_row r)

-- INSERT ... ON CONFLICT ... RETURNING, by whether the foreign key holds: its violation is raised with
-- nothing written
unfoldable pub upsert : Bool → IntentRecord → Exec Table IntentRecord
unfolding upserted_rows select found_row
upsert false intent t = (err (outside "foreign key violation"), t)
upsert true intent t =
    let rows = upserted_rows intent t.rows in
    (found_row (select intent.tenant_id intent.idempotency_key rows), record t { rows = rows })

-- The foreign key is looked at where a row is written.
unfoldable pub prepare : IntentRecord → Exec Table IntentRecord
unfolding upsert has_case writes select
prepare intent t =
    upsert
      (not (writes (select intent.tenant_id intent.idempotency_key t.rows))
        || has_case t intent.tenant_id intent.case_id)
      intent t

unfoldable pub get : String → String → Exec Table (Option IntentRecord)
unfolding select intent_record_from_row
get tenant key t = (
  elim (select tenant key t.rows) [
    | none ↦ ok none
    | some r ↦ ok (some (intent_record_from_row r))
  ],
  t,
)

unfoldable pub completed_row : ArtifactRef → ℕ → Row → Row
completed_row ref now r = record r {
  status = completed;
  output_artifact_type = some ref.artifact_type;
  output_schema_version = some ref.schema_version;
  output_artifact_id = some ref.artifact_id;
  output_digest = some ref.content_digest;
  output_uri = some ref.uri;
  updated_at = now;
}

unfoldable pub complete_found :
    String → String → ArtifactRef → Table → Option Row → Result IntentRecord × Table
unfolding update completed_row intent_record_from_row
complete_found tenant key ref t none = (err (no_prepared_intent key), t)
complete_found tenant key ref t (some r) = (
  ok (intent_record_from_row (completed_row ref t.now r)),
  record t { rows = update tenant key (completed_row ref t.now) t.rows },
)

unfoldable pub complete : String → String → ArtifactRef → Exec Table IntentRecord
unfolding select complete_found
complete tenant key ref t = complete_found tenant key ref t (select tenant key t.rows)

unfoldable pub unknown_row : ℕ → Row → Row
unknown_row now r = record r { status = IntentStatus.unknown; updated_at = now }

unfoldable pub mark_found : String → String → Table → Option Row → Result IntentRecord × Table
unfolding update unknown_row intent_record_from_row
mark_found tenant key t none = (err (no_pending_intent key), t)
mark_found tenant key t (some r) =
    if is_pending r.status
    then (
      ok (intent_record_from_row (unknown_row t.now r)),
      record t { rows = update tenant key (unknown_row t.now) t.rows },
    )
    else (err (no_pending_intent key), t)

unfoldable pub mark_unknown : String → String → Exec Table IntentRecord
unfolding select mark_found
mark_unknown tenant key t = mark_found tenant key t (select tenant key t.rows)
