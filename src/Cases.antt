-- ===== src/Cases.antt =====
-- adapters/production/postgres_case_repository.py: the table `cases` with its constraints
-- (migrations/001_control_plane.sql) and the repository's four operations on it. A table is its rows in
-- some order, with the database clock.
pub mod Laws
use agent_code_optimize_plug.Prelude.{
  ℕ, String, Bool, true, false, Option, none, some, List, [], ◌∷◌, ◌++◌, ◌&&◌, ◌||◌, not, ◌==◌,
  if◌then◌else◌, any, find, map,
}
use agent_code_optimize_plug.Contracts.Errors.{
  Error, Result, ok, err, Exec, missing_state, case_exists, no_case, outside,
}

-- the keys of the case state that the repository reads and returns
pub record CaseState : Type 0 where
  pub case_id : Option String
  pub thread_id : Option String
  pub tenant_id : Option String
  pub lane : Option String
  pub status : Option String
  pub current_node : Option String

pub record Row : Type 0 where
  pub tenant_id : String
  pub case_id : String
  pub thread_id : String
  pub lane : String
  pub status : String
  pub current_node : Option String
  pub cancellation_requested_at : Option ℕ
  pub updated_at : ℕ

pub record Table : Type 0 where
  pub rows : List Row
  pub now : ℕ

unfoldable pub require_field : String → Option String → Result String
require_field key none = err (missing_state key)
require_field key (some value) = if value == "" then err (missing_state key) else ok value

-- the values of an insert: the required ones in their order, the node and the clock
unfoldable pub row_of :
    Result String
    → Result String
    → Result String
    → Result String
    → Result String
    → Option String
    → ℕ
    → Result Row
row_of (err e) _ _ _ _ current now = err e
row_of (ok _) (err e) _ _ _ current now = err e
row_of (ok _) (ok _) (err e) _ _ current now = err e
row_of (ok _) (ok _) (ok _) (err e) _ current now = err e
row_of (ok _) (ok _) (ok _) (ok _) (err e) current now = err e
row_of (ok case_id) (ok thread_id) (ok tenant_id) (ok lane) (ok status) current now = ok (record {
  tenant_id = tenant_id;
  case_id = case_id;
  thread_id = thread_id;
  lane = lane;
  status = status;
  current_node = current;
  cancellation_requested_at = none;
  updated_at = now;
})

unfoldable pub case_row : CaseState → ℕ → Result Row
unfolding require_field row_of
case_row state now =
    row_of (require_field "case_id" state.case_id) (require_field "thread_id" state.thread_id)
      (require_field "tenant_id" state.tenant_id) (require_field "lane" state.lane)
      (require_field "status" state.status) state.current_node now

-- WHERE tenant_id = %s AND case_id = %s
abbrev pub has_case : String → String → Row → Bool
has_case tenant_id case_id row = (row.tenant_id == tenant_id) && (row.case_id == case_id)

abbrev pub has_thread : String → String → Row → Bool
has_thread tenant_id thread_id row = (row.tenant_id == tenant_id) && (row.thread_id == thread_id)

-- CHECK (lane IN ...), the primary key, UNIQUE (tenant_id, thread_id): the constraint that fails
unfoldable pub violation : Row → List Row → Option Error
violation row rows =
    if not ((row.lane == "manual") || (row.lane == "automatic"))
    then some (outside "check violation")
    else if any (has_case row.tenant_id row.case_id) rows
        || any (has_thread row.tenant_id row.thread_id) rows
    then some (case_exists row.tenant_id row.case_id)
    else none

unfoldable pub insert : Option Error → Row → Exec Table Unit
insert (some e) row t = (err e, t)
insert none row t = (ok tt, record t { rows = t.rows ++ (row ∷ []) })

unfoldable pub create_row : Result Row → Exec Table Unit
unfolding violation insert
create_row (err e) t = (err e, t)
create_row (ok row) t = insert (violation row t.rows) row t

unfoldable pub create : CaseState → Exec Table Unit
unfolding case_row create_row
create state t = create_row (case_row state t.now) t

unfoldable pub state_of : Row → CaseState
state_of row = record {
  case_id = some row.case_id;
  thread_id = some row.thread_id;
  tenant_id = some row.tenant_id;
  lane = some row.lane;
  status = some row.status;
  current_node = row.current_node;
}

unfoldable pub found_state : Option Row → Option CaseState
unfolding state_of
found_state none = none
found_state (some row) = some (state_of row)

unfoldable pub get : String → String → Exec Table (Option CaseState)
unfolding found_state
get tenant_id case_id t = (ok (found_state (find (has_case tenant_id case_id) t.rows)), t)

-- UPDATE ... SET ... WHERE
unfoldable pub update : (Row → Bool) → (Row → Row) → List Row → List Row
update is_hit change rows = map (λ row. if is_hit row then change row else row) rows

unfoldable pub with_status : String → ℕ → Row → Row
with_status status now row = record row { status = status; updated_at = now }

-- the check of the row count
unfoldable pub set_status : String → String → String → Exec Table Unit
unfolding update with_status
set_status tenant_id case_id status t = (
  if any (has_case tenant_id case_id) t.rows then ok tt else err (no_case tenant_id case_id),
  record t { rows = update (has_case tenant_id case_id) (with_status status t.now) t.rows },
)

-- a case of which no cancellation was requested
abbrev pub is_unrequested : Option ℕ → Bool
is_unrequested none = true
is_unrequested (some _) = false

unfoldable pub cancelled : ℕ → Row → Row
cancelled now row = record row { cancellation_requested_at = some now }

-- `request_cancellation`; the actor is not stored
unfoldable pub request_cancellation : String → String → String → Exec Table Unit
unfolding update cancelled
request_cancellation tenant_id case_id actor_id t = (
  ok tt,
  record t {
    rows =
        update
          (λ row. has_case tenant_id case_id row && is_unrequested row.cancellation_requested_at)
          (cancelled t.now) t.rows;
  },
)
