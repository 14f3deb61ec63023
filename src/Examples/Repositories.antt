-- ===== src/Examples/Repositories.antt =====
-- The table of cases with one case of another thread.
use agent_code_optimize_plug.Prelude.{String, none, some, [], ◌≡◌, refl}
use agent_code_optimize_plug.Contracts.Errors.{ok, err, case_exists}
use agent_code_optimize_plug.Cases.{CaseState, Table, create, get, set_status, request_cancellation}
use agent_code_optimize_plug.Cases.Laws.{get-create}

abbrev other_case : CaseState
other_case = record {
  case_id = some "other";
  thread_id = some "thread-1";
  tenant_id = some "tenant";
  lane = some "automatic";
  status = some "running";
  current_node = none;
}

abbrev new_case : CaseState
new_case = record other_case {
  case_id = some "case";
  thread_id = some "thread-2";
  lane = some "manual";
  current_node = some "A1.10";
}

abbrev table : Table
table = (create other_case (record { rows = []; now = 1 })).1

created : (create new_case table).0 ≡ ok tt
unfolding create
created = refl

-- the refusal names the case also where another case has the thread
thread_taken :
    (create (record new_case { thread_id = some "thread-1" }) table).0
    ≡ err (case_exists "tenant" "case")
unfolding create
thread_taken = refl

get-create_example :
    ((get "tenant" "case" (create new_case table).1).0 ≡ ok (some new_case))
    × ((status : String)
        → (get "tenant" "case" (set_status "tenant" "case" status (create new_case table).1).1).0
          ≡ ok (some (record new_case { status = some status })))
    × ((actor_id : String)
        → (get "tenant" "case"
            (request_cancellation "tenant" "case" actor_id (create new_case table).1).1).0
          ≡ ok (some new_case))
get-create_example = get-create new_case table "tenant" "case" created refl refl
