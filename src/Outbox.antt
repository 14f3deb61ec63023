-- ===== src/Outbox.antt =====
-- adapters/production/postgres_outbox.py: the table `outbox` and the adapter's four operations on it.
-- A table is its rows in some order, with the database clock. A row is a record, its `event_id` the
-- text of the uuid that the column has; `outbox_record_from_row` changes nothing then.
pub mod Laws
pub mod Delivery
pub mod Publish
use agent_code_optimize_plug.Prelude.{
  ℕ, zero, suc, ◌+◌, String, Bool, true, false, Option, none, some, List, [], ◌∷◌, ◌++◌, ◌&&◌, not,
  ◌==◌, if◌then◌else◌, leb, filter, find, map, sorted, take,
}
use agent_code_optimize_plug.Contracts.Refs.{OutboxRecord}
use agent_code_optimize_plug.Contracts.Errors.{
  Result, ok, err, Exec, raise, no_outbox_record, outside,
}

pub record Table : Type 0 where
  pub rows : List OutboxRecord
  pub now : ℕ

-- WHERE event_id = %s::uuid
abbrev pub has_id : String → OutboxRecord → Bool
has_id event_id r = r.event_id == event_id

-- WHERE tenant_id = %s AND event_id = %s::uuid
abbrev pub has_event : String → String → OutboxRecord → Bool
has_event tenant_id event_id r = (r.tenant_id == tenant_id) && has_id event_id r

-- the row that was inserted, or the one that was there, or the refusal
unfoldable pub published : Option OutboxRecord → Option OutboxRecord → Result OutboxRecord
published (some row) again = ok row
published none (some row) = ok row
published none none = err (outside "outbox publish could not persist or locate the record")

-- INSERT ... ON CONFLICT (event_id) DO NOTHING RETURNING, by the row of that id, then the SELECT;
-- the Boolean is the foreign key, which is looked at where a row is inserted
unfoldable pub insert : Bool → Option OutboxRecord → OutboxRecord → Exec Table OutboxRecord
unfolding published
insert has_case (some row) record' t = (published none (find (has_id record'.event_id) t.rows), t)
insert false none record' t = (err (outside "foreign key violation"), t)
insert true none record' t =
    (published (some record') (some record'), record t { rows = t.rows ++ (record' ∷ []) })

-- an undelivered row
abbrev pub is_open : Option ℕ → Bool
is_open none = true
is_open (some _) = false

-- what a claim may select, given the rows that others hold locked
unfoldable pub is_claimable : (String → Bool) → String → ℕ → OutboxRecord → Bool
is_claimable locked tenant_id now r =
    (r.tenant_id == tenant_id)
    && (is_open r.delivered_at && (leb r.available_at now && not (locked r.event_id)))

-- ORDER BY available_at ASC
abbrev pub not_later : OutboxRecord → OutboxRecord → Bool
not_later r r' = leb r.available_at r'.available_at

unfoldable pub claimable : (String → Bool) → String → Table → List OutboxRecord
unfolding is_claimable
claimable locked tenant_id t =
    sorted not_later (filter (is_claimable locked tenant_id t.now) t.rows)

-- `claim`; a limit is a natural number here, so that one below zero is as zero
unfoldable pub claim : (String → Bool) → String → ℕ → Exec Table (List OutboxRecord)
unfolding claimable
claim locked tenant_id zero t = (err (outside "limit must be positive"), t)
claim locked tenant_id (suc limit) t = (ok (take (suc limit) (claimable locked tenant_id t)), t)

-- UPDATE ... SET ... WHERE tenant_id = %s AND event_id = %s::uuid
unfoldable pub update : String → String → (OutboxRecord → OutboxRecord) → Table → Table
update tenant_id event_id change t = record t {
  rows = map (λ r. if has_event tenant_id event_id r then change r else r) t.rows;
}

-- RETURNING, of the row that was there before, or the refusal
unfoldable pub change_found :
    String → String → (OutboxRecord → OutboxRecord) → Option OutboxRecord → Exec Table OutboxRecord
unfolding update
change_found tenant_id event_id change none t = (err (no_outbox_record tenant_id event_id), t)
change_found tenant_id event_id change (some r) t =
    (ok (change r), update tenant_id event_id change t)

unfoldable pub delivered : ℕ → OutboxRecord → OutboxRecord
delivered now r = record r { delivered_at = some now }

unfoldable pub failed : String → OutboxRecord → OutboxRecord
failed error_ref r = record r { attempts = r.attempts + 1; last_error_ref = some error_ref }

-- goes on with the uuid that a text stands for, where it stands for one
unfoldable pub with_uuid :
    Option String → (String → Exec Table OutboxRecord) → Exec Table OutboxRecord
with_uuid none next = raise (outside "invalid input syntax for type uuid")
with_uuid (some event_id) next = next event_id

-- `uuid` gives the text of the uuid that a text stands for (PostgreSQL's cast and psycopg's `str`);
-- `has_case` says whether the table of cases has a row for a tenant and a case.
module _ (uuid : String → Option String) (has_case : String → String → Bool) where
  unfoldable pub publish : OutboxRecord → Exec Table OutboxRecord
  unfolding insert with_uuid
  publish r = with_uuid (uuid r.event_id) λ event_id t.
      insert (has_case r.tenant_id r.case_id) (find (has_id event_id) t.rows)
        (record r { event_id = event_id }) t

  unfoldable pub mark_delivered : String → String → Exec Table OutboxRecord
  unfolding change_found delivered with_uuid
  mark_delivered tenant_id event_id =
      with_uuid (uuid event_id)
        λ id t. change_found tenant_id id (delivered t.now) (find (has_event tenant_id id) t.rows) t

  unfoldable pub mark_failed : String → String → String → Exec Table OutboxRecord
  unfolding change_found failed with_uuid
  mark_failed tenant_id event_id error_ref =
      with_uuid (uuid event_id) λ id t.
        change_found tenant_id id (failed error_ref) (find (has_event tenant_id id) t.rows) t

  -- one use of the table by any caller, or the clock
  pub data Step : Table → Table → Type 0 where
    publishes : (r : OutboxRecord) (t : Table) → Step t (publish r t).1
    claims :
        (locked : String → Bool) (tenant_id : String) (limit : ℕ) (t : Table)
        → Step t (claim locked tenant_id limit t).1
    delivers :
        (tenant_id event_id : String) (t : Table) → Step t (mark_delivered tenant_id event_id t).1
    fails :
        (tenant_id event_id error_ref : String) (t : Table)
        → Step t (mark_failed tenant_id event_id error_ref t).1
    ticks : (now : ℕ) (t : Table) → Step t (record t { now = now })

  pub data Run : Table → Table → Type 0 where
    still : (t : Table) → Run t t
    then_step : {t u v : Table} → Step t u → Run u v → Run t v
