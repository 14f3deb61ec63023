-- ===== src/Ledger/Laws.antt =====
-- What the statements of adapters/production/postgres_intent_ledger.py do to the rows of the table.
use agent_code_optimize_plug.Prelude.{
  String, true, Option, none, some, List, [], ◌∷◌, ◌≡◌, refl, ◌==◌, eq_iff, eq_refl, arith,
  Bool-cases, and→both, ap, sym, ◌∙◌, inl, inr,
}
use mathlib.Core.Option.{some-injective}
use agent_code_optimize_plug.Contracts.Refs.{IntentRecord}
use agent_code_optimize_plug.Ledger.{
  Row, has_key, select, update, upserted_rows, inserted_row, conflict_row,
}

-- the row that `upserted_rows` leaves under the intent's key
unfoldable pub upserted_row : IntentRecord → Option Row → Row
unfolding inserted_row conflict_row
upserted_row intent none = inserted_row intent
upserted_row intent (some r) = conflict_row intent r

-- A change of a row that keeps its key.
abbrev pub KeepsKey : (Row → Row) → Type 0
KeepsKey f = (tenant key : String) (r : Row) → has_key tenant key (f r) ≡ has_key tenant key r

abbrev pub map_row : (Row → Row) → Option Row → Option Row
map_row f none = none
map_row f (some r) = some (f r)

-- A row that is found under a key has the key.
pub select-has_key :
    (tenant key : String) (rows : List Row) (r : Row)
    → select tenant key rows ≡ some r
    → (r.tenant_id ≡ tenant) × (r.idempotency_key ≡ key)
unfolding select
select-has_key tenant key [] r h = cc
select-has_key tenant key (q ∷ rows) r h = elim (Bool-cases (has_key tenant key q)) [
  | inl here ↦
      let both = and→both (q.tenant_id == tenant) (q.idempotency_key == key) here in
      let same : q ≡ r = some-injective q r (rw here at h) in
      (
        ap (λ x. x.tenant_id) (sym same) ∙ (eq_iff q.tenant_id tenant).0 both.0,
        ap (λ x. x.idempotency_key) (sym same) ∙ (eq_iff q.idempotency_key key).0 both.1,
      )
  | inr there ↦ select-has_key tenant key rows r (rw there at h)
]

-- The update changes the row of its key.
pub select-update :
    (tenant key : String) (f : Row → Row) (rows : List Row)
    → KeepsKey f
    → select tenant key (update tenant key f rows) ≡ map_row f (select tenant key rows)
unfolding select update
select-update tenant key f [] keeps = refl
select-update tenant key f (r ∷ rows) keeps =
    ground (arith, keeps tenant key r, select-update tenant key f rows keeps)

pub has_key-inserted_row :
    (intent : IntentRecord)
    → has_key intent.tenant_id intent.idempotency_key (inserted_row intent) ≡ true
unfolding inserted_row
has_key-inserted_row intent = rw (eq_refl intent.tenant_id, eq_refl intent.idempotency_key)

pub has_key-conflict_row :
    (intent : IntentRecord) (tenant key : String) (r : Row)
    → has_key tenant key (conflict_row intent r) ≡ has_key tenant key r
unfolding conflict_row
has_key-conflict_row intent tenant key r = ground arith

-- The upserted_rows leaves one row under the key of the intent.
pub select-upserted_rows :
    (intent : IntentRecord) (rows : List Row)
    → select intent.tenant_id intent.idempotency_key (upserted_rows intent rows)
      ≡ some (upserted_row intent (select intent.tenant_id intent.idempotency_key rows))
unfolding select upserted_rows upserted_row
select-upserted_rows intent [] = ground (arith, has_key-inserted_row intent)
select-upserted_rows intent (r ∷ rows) = ground (
  arith,
  has_key-conflict_row intent intent.tenant_id intent.idempotency_key r,
  select-upserted_rows intent rows,
)
