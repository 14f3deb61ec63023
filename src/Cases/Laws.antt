-- ===== src/Cases/Laws.antt =====
-- What adapters/production/postgres_case_repository.py gives back of what was stored.
use agent_code_optimize_plug.Prelude.{
  ℕ, String, Bool, true, false, Option, none, some, List, [], ◌∷◌, ◌++◌, ◌≡◌, refl, sym, ap, subst,
  ◌∙◌, if◌then◌else◌, arith, eq_refl, any, find, Bool-cases, inl, inr,
}
use mathlib.Core.Option.{some-injective}
use agent_code_optimize_plug.Contracts.Errors.{Error, Result, ok, err}
use agent_code_optimize_plug.Cases.{
  CaseState, Row, Table, require_field, row_of, case_row, has_case, violation, insert, create_row,
  create, state_of, found_state, get, update, with_status, set_status, cancelled,
  request_cancellation,
}

ok-same : {A : Type 0} {a b : A} → ok a ≡ ok b → a ≡ b
ok-same e = cc

require_field-ok :
    (key : String) (value : Option String) (x : String)
    → require_field key value ≡ ok x
    → value ≡ some x
unfolding require_field
require_field-ok key none x h = cc
require_field-ok key (some value) x h = ground arith

-- the values of a row that was built are those that were required
row_of-ok :
    (c th tn l st : Result String) (current : Option String) (now : ℕ) (row : Row)
    → row_of c th tn l st current now ≡ ok row
    → (c ≡ ok row.case_id)
      × (th ≡ ok row.thread_id)
      × (tn ≡ ok row.tenant_id)
      × (l ≡ ok row.lane)
      × (st ≡ ok row.status)
      × (current ≡ row.current_node)
unfolding row_of
row_of-ok (err e) th tn l st current now row h = cc
row_of-ok (ok c) (err e) tn l st current now row h = cc
row_of-ok (ok c) (ok th) (err e) l st current now row h = cc
row_of-ok (ok c) (ok th) (ok tn) (err e) st current now row h = cc
row_of-ok (ok c) (ok th) (ok tn) (ok l) (err e) current now row h = cc
row_of-ok (ok c) (ok th) (ok tn) (ok l) (ok st) current now row h =
    let same = ok-same h in
    (
      ap (λ r. ok r.case_id) same,
      ap (λ r. ok r.thread_id) same,
      ap (λ r. ok r.tenant_id) same,
      ap (λ r. ok r.lane) same,
      ap (λ r. ok r.status) same,
      ap (λ r. r.current_node) same,
    )

case_row-ok : (s : CaseState) (now : ℕ) (row : Row) → case_row s now ≡ ok row → state_of row ≡ s
unfolding case_row state_of
case_row-ok s now row h =
    let (c, th, tn, l, st, current) = row_of-ok _ _ _ _ _ s.current_node now row h in
    rw
      (
        sym (require_field-ok "case_id" s.case_id row.case_id c),
        sym (require_field-ok "thread_id" s.thread_id row.thread_id th),
        sym (require_field-ok "tenant_id" s.tenant_id row.tenant_id tn),
        sym (require_field-ok "lane" s.lane row.lane l),
        sym (require_field-ok "status" s.status row.status st),
        sym current,
      )
      refl

find-append :
    (tenant_id case_id : String) (row : Row) (rows : List Row)
    → any (has_case tenant_id case_id) rows ≡ false
    → has_case tenant_id case_id row ≡ true
    → find (has_case tenant_id case_id) (rows ++ (row ∷ [])) ≡ some row
find-append tenant_id case_id row [] h e = rw e refl
find-append tenant_id case_id row (r ∷ rows) h e =
    ground (arith, find-append tenant_id case_id row rows)

violation-none :
    (row : Row) (rows : List Row)
    → violation row rows ≡ none
    → any (has_case row.tenant_id row.case_id) rows ≡ false
unfolding violation
violation-none row rows h = ground arith

insert-found :
    (row : Row) (v : Option Error) (t : Table)
    → violation row t.rows ≡ v
    → (insert v row t).0 ≡ ok tt
    → find (has_case row.tenant_id row.case_id) (insert v row t).1.rows ≡ some row
unfolding insert
insert-found row (some e) t ev h = cc
insert-found row none t ev h =
    find-append row.tenant_id row.case_id row t.rows (violation-none row t.rows ev)
      (rw (eq_refl row.tenant_id, eq_refl row.case_id))

-- a created case is found under its key
create_row-found :
    (made : Result Row) (t : Table)
    → (create_row made t).0 ≡ ok tt
    → (row : Row) × (made ≡ ok row)
      × (find (has_case row.tenant_id row.case_id) (create_row made t).1.rows ≡ some row)
unfolding create_row
create_row-found (err e) t h = cc
create_row-found (ok row) t h = (row, refl, insert-found row (violation row t.rows) t refl h)

hit-keeps :
    (tenant_id case_id : String) (hit : Bool) (change : Row → Row) (r : Row)
    → has_case tenant_id case_id (change r) ≡ has_case tenant_id case_id r
    → has_case tenant_id case_id (if hit then change r else r) ≡ has_case tenant_id case_id r
hit-keeps tenant_id case_id true change r keeps = keeps
hit-keeps tenant_id case_id false change r keeps = refl

-- the row of a key after an update that keeps the keys
find-update :
    (tenant_id case_id : String) (is_hit : Row → Bool) (change : Row → Row) (rows : List Row)
    (row : Row)
    → ((r : Row) → has_case tenant_id case_id (change r) ≡ has_case tenant_id case_id r)
    → find (has_case tenant_id case_id) rows ≡ some row
    → find (has_case tenant_id case_id) (update is_hit change rows)
      ≡ some (if is_hit row then change row else row)
unfolding update
find-update tenant_id case_id is_hit change [] row keeps h = cc
find-update tenant_id case_id is_hit change (r ∷ rows) row keeps h =
    let same = hit-keeps tenant_id case_id (is_hit r) change r (keeps r) in
    elim (Bool-cases (has_case tenant_id case_id r)) [
      | inl here ↦
          let found : r ≡ row = some-injective r row (rw here at h) in
          rw (same ∙ here) (ap (λ x. some (if is_hit x then change x else x)) found)
      | inr there ↦
          rw (same ∙ there)
            (find-update tenant_id case_id is_hit change rows row keeps (rw there at h))
    ]

-- what is found of a row that is found
get-found :
    (tenant_id case_id : String) (t : Table) (row : Row)
    → find (has_case tenant_id case_id) t.rows ≡ some row
    → (get tenant_id case_id t).0 ≡ ok (some (state_of row))
unfolding get found_state
get-found tenant_id case_id t row h = ap (λ r. ok (found_state r)) h

get-set_status :
    (tenant_id case_id status : String) (t : Table) (row : Row)
    → find (has_case tenant_id case_id) t.rows ≡ some row
    → has_case tenant_id case_id row ≡ true
    → (get tenant_id case_id (set_status tenant_id case_id status t).1).0
      ≡ ok (some (record (state_of row) { status = some status }))
unfolding set_status with_status state_of
get-set_status tenant_id case_id status t row h hit =
    get-found tenant_id case_id _ (with_status status t.now row) (
      find-update tenant_id case_id (has_case tenant_id case_id) (with_status status t.now) t.rows
        row (λ r. refl) h
      ∙ ap (λ b. some (if b then with_status status t.now row else row)) hit)

state_of-cancelled :
    (hit : Bool) (now : ℕ) (row : Row)
    → state_of (if hit then cancelled now row else row) ≡ state_of row
unfolding state_of cancelled
state_of-cancelled true now row = refl
state_of-cancelled false now row = refl

get-request_cancellation :
    (tenant_id case_id actor_id : String) (t : Table) (row : Row)
    → find (has_case tenant_id case_id) t.rows ≡ some row
    → (get tenant_id case_id (request_cancellation tenant_id case_id actor_id t).1).0
      ≡ ok (some (state_of row))
unfolding request_cancellation cancelled
get-request_cancellation tenant_id case_id actor_id t row h =
    get-found tenant_id case_id _ _
      (find-update tenant_id case_id _ (cancelled t.now) t.rows row (λ r. refl) h)
    ∙ ap (λ s. ok (some s)) (state_of-cancelled _ t.now row)

with_status_of : CaseState → String → CaseState
with_status_of s status = record s { status = some status }

get-row :
    (tenant_id case_id : String) (s : CaseState) (row : Row) (t : Table)
    → find (has_case row.tenant_id row.case_id) t.rows ≡ some row
    → state_of row ≡ s
    → s.tenant_id ≡ some tenant_id
    → s.case_id ≡ some case_id
    → ((get tenant_id case_id t).0 ≡ ok (some s))
      × ((status : String)
          → (get tenant_id case_id (set_status tenant_id case_id status t).1).0
            ≡ ok (some (record s { status = some status })))
      × ((actor_id : String)
          → (get tenant_id case_id (request_cancellation tenant_id case_id actor_id t).1).0
            ≡ ok (some s))
unfolding state_of with_status_of
get-row tenant_id case_id s row t found back tenant case =
    let e1 : row.tenant_id ≡ tenant_id =
      some-injective row.tenant_id tenant_id (ap (λ x. x.tenant_id) back ∙ tenant) in
    let e2 : row.case_id ≡ case_id =
      some-injective row.case_id case_id (ap (λ x. x.case_id) back ∙ case) in
    let here : find (has_case tenant_id case_id) t.rows ≡ some row =
      subst (λ i. find (has_case i case_id) t.rows ≡ some row) e1
        (subst (λ i. find (has_case row.tenant_id i) t.rows ≡ some row) e2 found) in
    let hit : has_case tenant_id case_id row ≡ true =
      rw (e1, e2, eq_refl tenant_id, eq_refl case_id) refl in
    (
      get-found tenant_id case_id t row here ∙ ap (λ x. ok (some x)) back,
      λ status.
          get-set_status tenant_id case_id status t row here hit
          ∙ ap (λ x. ok (some (with_status_of x status))) back,
      λ actor_id.
          get-request_cancellation tenant_id case_id actor_id t row here
          ∙ ap (λ x. ok (some x)) back,
    )

-- A case that was created is got back as it was given, with the new status after set_status, and
-- as it was after a request to cancel it.
pub get-create :
    (s : CaseState) (t : Table) (tenant_id case_id : String)
    → (create s t).0 ≡ ok tt
    → s.tenant_id ≡ some tenant_id
    → s.case_id ≡ some case_id
    → ((get tenant_id case_id (create s t).1).0 ≡ ok (some s))
      × ((status : String)
          → (get tenant_id case_id (set_status tenant_id case_id status (create s t).1).1).0
            ≡ ok (some (record s { status = some status })))
      × ((actor_id : String)
          → (get tenant_id case_id
              (request_cancellation tenant_id case_id actor_id (create s t).1).1).0
            ≡ ok (some s))
unfolding create
get-create s t tenant_id case_id h tenant case =
    let (row, made, found) = create_row-found (case_row s t.now) t h in
    get-row tenant_id case_id s row (create s t).1 found (case_row-ok s t.now row made) tenant case
