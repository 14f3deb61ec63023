-- ===== src/Ledger/Port.antt =====
-- The table of adapters/production/postgres_intent_ledger.py as an intent ledger, with the laws that
-- the runtime relies on.
use agent_code_optimize_plug.Prelude.{
  String, Bool, true, false, not, ◌||◌, subst, Option, none, some, ◌≡◌, ◌≢◌, refl, ap, sym, ◌∙◌,
  Option-cases, inl, inr,
}
use agent_code_optimize_plug.Contracts.Refs.{
  ArtifactRef, IntentRecord, IntentStatus, pending, completed,
}
use agent_code_optimize_plug.Contracts.Errors.{Error, ok, err, outside}
use agent_code_optimize_plug.Ports.Intents.{
  IntentLedger, IntentLedgerLaws, Records, IsOpen, prepared,
}
use agent_code_optimize_plug.Ledger.{
  Row, Table, intent_record_from_row, artifact_ref_from_row, artifact_ref_from_columns, select,
  update, upserted_rows, has_case, writes, upsert, inserted_row, conflict_row, completed_row,
  unknown_row, is_completed, prepare, get, complete, mark_unknown, found_row, complete_found,
  mark_found,
}
use agent_code_optimize_plug.Ledger.Laws.{
  upserted_row, select-has_key, select-update, select-upserted_rows,
}

unfoldable pub postgres_ledger : IntentLedger Table
postgres_ledger = record {
  prepare = prepare;
  get = get;
  complete = complete;
  mark_unknown = mark_unknown;
}

-- the record that a lookup shows for a row
abbrev shown : Option Row → Option IntentRecord
unfolding intent_record_from_row
shown none = none
shown (some r) = some (intent_record_from_row r)

get-eq :
    (t : Table) (tenant key : String)
    → get tenant key t ≡ (ok (shown (select tenant key t.rows)), t)
unfolding get
get-eq t tenant key = elim (Option-cases (select tenant key t.rows)) [
  | inl missing ↦ rw missing
  | inr (row, found) ↦ rw found
]

payload : {A : Type 0} {a b : A} → ok a ≡ ok b → a ≡ b
payload e = cc

-- what a lookup shows belongs to the row that it found
shown_of_records :
    (t : Table) (tenant key : String) (r : Option IntentRecord)
    → get tenant key t ≡ (ok r, t)
    → shown (select tenant key t.rows) ≡ r
shown_of_records t tenant key r h = payload (ap (λ p. p.0) (sym (get-eq t tenant key) ∙ h))

row_of_records :
    (t : Table) (tenant key : String) (r : IntentRecord)
    → get tenant key t ≡ (ok (some r), t)
    → (row : Row) × (select tenant key t.rows ≡ some row) × (intent_record_from_row row ≡ r)
unfolding shown
row_of_records t tenant key r h = elim (Option-cases (select tenant key t.rows)) [
  | inl missing ↦
      let e : none ≡ some r = rw missing at (shown_of_records t tenant key (some r) h) in absurd cc
  | inr (row, found) ↦
      let e : some (intent_record_from_row row) ≡ some r =
        rw found at (shown_of_records t tenant key (some r) h) in
      (row, found, cc)
]

-- a row found after a statement is what the ledger then records
records_of_row :
    (t : Table) (tenant key : String) (row : Row)
    → select tenant key t.rows ≡ some row
    → get tenant key t ≡ (ok (some (intent_record_from_row row)), t)
unfolding shown intent_record_from_row
records_of_row t tenant key row found = get-eq t tenant key ∙ rw found

prepare-eq :
    (t : Table) (intent : IntentRecord) (row : Row)
    → upserted_row intent (select intent.tenant_id intent.idempotency_key t.rows) ≡ row
    → upsert true intent t
      ≡ (ok (intent_record_from_row row), record t { rows = upserted_rows intent t.rows })
unfolding upsert found_row
prepare-eq t intent row e = rw (select-upserted_rows intent t.rows, e)

-- Preparing leaves the row that the statement made of the earlier one.
prepare_lem :
    (t : Table) (intent : IntentRecord) (row : Row)
    → not (writes (select intent.tenant_id intent.idempotency_key t.rows))
        || has_case t intent.tenant_id intent.case_id
      ≡ true
    → upserted_row intent (select intent.tenant_id intent.idempotency_key t.rows) ≡ row
    → (t' : Table) × (prepare intent t ≡ (ok (intent_record_from_row row), t'))
      × Records postgres_ledger t' intent.tenant_id intent.idempotency_key
          (some (intent_record_from_row row))
unfolding postgres_ledger prepare
prepare_lem t intent row checked e =
    let t' : Table = record t { rows = upserted_rows intent t.rows } in
    (
      t',
      ap (λ b. upsert b intent t) checked ∙ prepare-eq t intent row e,
      records_of_row t' intent.tenant_id intent.idempotency_key row
          (select-upserted_rows intent t.rows ∙ ap some e),
    )

prepare_to :
    (t : Table) (intent r : IntentRecord) (row : Row)
    → not (writes (select intent.tenant_id intent.idempotency_key t.rows))
        || has_case t intent.tenant_id intent.case_id
      ≡ true
    → upserted_row intent (select intent.tenant_id intent.idempotency_key t.rows) ≡ row
    → intent_record_from_row row ≡ r
    → (t' : Table) × (prepare intent t ≡ (ok r, t'))
      × Records postgres_ledger t' intent.tenant_id intent.idempotency_key (some r)
prepare_to t intent r row checked e is = rw is at (prepare_lem t intent row checked e)

or_true : (b c : Bool) → c ≡ true → b || c ≡ true
or_true true c h = refl
or_true false c h = h

complete_lem :
    (t : Table) (tenant key : String) (ref : ArtifactRef) (row : Row)
    → select tenant key t.rows ≡ some row
    → (t' : Table) × (complete tenant key ref t
        ≡ (ok (intent_record_from_row (completed_row ref t.now row)), t'))
      × Records postgres_ledger t' tenant key
          (some (intent_record_from_row (completed_row ref t.now row)))
unfolding postgres_ledger complete complete_found completed_row
complete_lem t tenant key ref row found =
    let t' : Table = record t { rows = update tenant key (completed_row ref t.now) t.rows } in
    (
      t',
      rw found,
      records_of_row t' tenant key (completed_row ref t.now row)
          (select-update tenant key (completed_row ref t.now) t.rows (λ tn k r. refl) ∙ rw found),
    )

mark_unknown_lem :
    (t : Table) (tenant key : String) (row : Row)
    → select tenant key t.rows ≡ some row
    → row.status ≡ pending
    → (t' : Table) × (mark_unknown tenant key t
        ≡ (ok (intent_record_from_row (unknown_row t.now row)), t'))
      × Records postgres_ledger t' tenant key
          (some (intent_record_from_row (unknown_row t.now row)))
unfolding postgres_ledger mark_unknown mark_found unknown_row
mark_unknown_lem t tenant key row found is =
    let t' : Table = record t { rows = update tenant key (unknown_row t.now) t.rows } in
    (
      t',
      rw (found, is),
      records_of_row t' tenant key (unknown_row t.now row)
          (select-update tenant key (unknown_row t.now) t.rows (λ tn k r. refl) ∙ rw found),
    )

not_completed : (status : IntentStatus) → status ≢ completed → is_completed status ≡ false
not_completed completed ne = absurd (ne refl)
not_completed pending ne = refl
not_completed IntentStatus.unknown ne = refl
not_completed IntentStatus.failed ne = refl

open_row :
    (intent : IntentRecord) (row : Row)
    → row.status ≢ completed
    → row.tenant_id ≡ intent.tenant_id
    → row.idempotency_key ≡ intent.idempotency_key
    → intent_record_from_row (upserted_row intent (some row))
      ≡ prepared intent (some (intent_record_from_row row))
unfolding upserted_row conflict_row intent_record_from_row artifact_ref_from_row
open_row intent row ne same_tenant same_key =
    rw (not_completed row.status ne, same_tenant, same_key)

completed_stays :
    (intent : IntentRecord) (row : Row)
    → row.status ≡ completed
    → upserted_row intent (some row) ≡ row
unfolding upserted_row conflict_row
completed_stays intent row is = simp is

prepare_open_lem :
    (t : Table) (intent : IntentRecord) (old : Option IntentRecord)
    → Records postgres_ledger t intent.tenant_id intent.idempotency_key old
    → IsOpen old
    → has_case t intent.tenant_id intent.case_id ≡ true
    → (t' : Table) × (prepare intent t ≡ (ok (prepared intent old), t'))
      × Records postgres_ledger t' intent.tenant_id intent.idempotency_key
          (some (prepared intent old))
unfolding postgres_ledger upserted_row inserted_row intent_record_from_row artifact_ref_from_row
    artifact_ref_from_columns shown
prepare_open_lem t intent none h is_open known =
    elim (Option-cases (select intent.tenant_id intent.idempotency_key t.rows)) [
      | inl missing ↦ prepare_lem t intent (inserted_row intent) (or_true _ _ known) (rw missing)
      | inr (row, found) ↦
          let e : some (intent_record_from_row row) ≡ none =
            rw found at (shown_of_records t intent.tenant_id intent.idempotency_key none h) in
          absurd cc
    ]
prepare_open_lem t intent (some r) h is_open known =
    let (row, found, is) = row_of_records t intent.tenant_id intent.idempotency_key r h in
    let same = select-has_key intent.tenant_id intent.idempotency_key t.rows row found in
    let ne : row.status ≢ completed = λ e. is_open (ap (λ x. x.status) (sym is) ∙ e) in
    prepare_to t intent (prepared intent (some r)) (upserted_row intent (some row))
      (or_true _ _ known) (rw found)
      (open_row intent row ne same.0 same.1 ∙ ap (λ x. prepared intent (some x)) is)

-- nothing is written, and so no key is looked at, where the row is completed
completed-unwritten :
    (t : Table) (intent : IntentRecord) (row : Row)
    → select intent.tenant_id intent.idempotency_key t.rows ≡ some row
    → row.status ≡ completed
    → not (writes (select intent.tenant_id intent.idempotency_key t.rows))
        || has_case t intent.tenant_id intent.case_id
      ≡ true
unfolding writes
completed-unwritten t intent row found is = rw (found, is)

-- an open intent is one that the statement would write
open-writes :
    (t : Table) (tenant key : String) (old : Option IntentRecord)
    → Records postgres_ledger t tenant key old
    → IsOpen old
    → writes (select tenant key t.rows) ≡ true
unfolding postgres_ledger writes shown intent_record_from_row
open-writes t tenant key old h is_open = elim (Option-cases (select tenant key t.rows)) [
  | inl missing ↦ rw missing
  | inr (row, found) ↦
      let is : some (intent_record_from_row row) ≡ old =
        rw found at (shown_of_records t tenant key old h) in
      let open_row : IsOpen (some (intent_record_from_row row)) = subst IsOpen (sym is) is_open in
      rw (found, not_completed row.status open_row)
]

prepare_refused_lem :
    (t : Table) (intent : IntentRecord) (old : Option IntentRecord)
    → Records postgres_ledger t intent.tenant_id intent.idempotency_key old
    → IsOpen old
    → has_case t intent.tenant_id intent.case_id ≡ false
    → (e : Error) × (prepare intent t ≡ (err e, t))
unfolding prepare upsert
prepare_refused_lem t intent old h is_open unknown = (
  outside "foreign key violation",
  rw (open-writes t intent.tenant_id intent.idempotency_key old h is_open, unknown),
)

-- The table of intents, with its foreign key, is a ledger that the runtime can rely on: an intent that
-- is not completed is prepared and recorded where its case has a row, and refused with nothing
-- written where it has none; a completed one is never downgraded, a recorded one is completed with
-- the reference that it is given, and a pending one is marked as unknown.
pub postgres_ledger-lawful : IntentLedgerLaws postgres_ledger has_case
unfolding postgres_ledger completed_row unknown_row intent_record_from_row artifact_ref_from_row
    artifact_ref_from_columns
postgres_ledger-lawful = record {
  prepare_open = prepare_open_lem;
  prepare_refused = prepare_refused_lem;
  prepare_completed = λ t intent r h is_completed.
      let (row, found, is) = row_of_records t intent.tenant_id intent.idempotency_key r h in
      let stays = completed_stays intent row (ap (λ x. x.status) is ∙ is_completed) in
      prepare_to t intent r row
        (completed-unwritten t intent row found (ap (λ x. x.status) is ∙ is_completed))
        (ap (upserted_row intent) found ∙ stays) is;
  complete_recorded = λ t tenant key ref r h.
      let (row, found, is) = row_of_records t tenant key r h in
      let (t', e, records) = complete_lem t tenant key ref row found in
      (t', intent_record_from_row (completed_row ref t.now row), e, records, (refl, refl));
  mark_unknown_pending = λ t tenant key r h is_pending.
      let (row, found, is) = row_of_records t tenant key r h in
      let (t', e, records) =
        mark_unknown_lem t tenant key row found (ap (λ x. x.status) is ∙ is_pending) in
      (t', intent_record_from_row (unknown_row t.now row), e, records, refl);
}
