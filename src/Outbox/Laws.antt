-- ===== src/Outbox/Laws.antt =====
-- What the operations of adapters/production/postgres_outbox.py do to the table of events.
use agent_code_optimize_plug.Prelude.{
  ℕ, zero, suc, String, Bool, true, false, Option, none, some, List, [], ◌∷◌, ◌++◌, ◌≡◌, refl, sym,
  ap, subst, ◌∙◌, ◌&&◌, not, ◌==◌, if◌then◌else◌, arith, eq_iff, any, find, map, All, All-map,
  All-append, All-of_map, Bool-cases, inl, inr,
}
use mathlib.Core.Bool.{false≢true}
use agent_code_optimize_plug.Contracts.Refs.{OutboxRecord}
use agent_code_optimize_plug.Contracts.Errors.{Exec}
use agent_code_optimize_plug.Outbox.{
  Table, has_id, has_event, is_open, insert, update, change_found, with_uuid, delivered, failed,
  publish, claim, mark_delivered, mark_failed, Step, Run,
}

-- not an open row of the event
abbrev pub is_done : String → String → OutboxRecord → Bool
is_done tenant_id event_id r = not (has_event tenant_id event_id r && is_open r.delivered_at)

-- the event is in the table, and delivered
pub record Delivered (tenant_id event_id : String) (t : Table) : Type 0 where
  pub there : any (has_id event_id) t.rows ≡ true
  pub done : All (λ r. is_done tenant_id event_id r ≡ true) t.rows

-- a change of a row that keeps its ids and opens nothing
pub record IsMild (change : OutboxRecord → OutboxRecord) : Type 0 where
  pub event : (r : OutboxRecord) → (change r).event_id ≡ r.event_id
  pub tenant : (r : OutboxRecord) → (change r).tenant_id ≡ r.tenant_id
  pub opens :
      (r : OutboxRecord) → is_open (change r).delivered_at ≡ true → is_open r.delivered_at ≡ true

any-append :
    (p : OutboxRecord → Bool) (xs ys : List OutboxRecord)
    → any p xs ≡ true
    → any p (xs ++ ys) ≡ true
any-append p [] ys h = absurd (false≢true h)
any-append p (x ∷ xs) ys h = ground (arith, any-append p xs ys)

abbrev pub is_found : Option OutboxRecord → Bool
is_found none = false
is_found (some _) = true

pub any-is_found :
    (p : OutboxRecord → Bool) (xs : List OutboxRecord) → any p xs ≡ is_found (find p xs)
any-is_found p [] = refl
any-is_found p (x ∷ xs) = ground (arith, any-is_found p xs)

pub any-update :
    (tenant_id id event_id : String) (change : OutboxRecord → OutboxRecord)
    (rows : List OutboxRecord)
    → IsMild change
    → any (has_id event_id) (map (λ r. if has_event tenant_id id r then change r else r) rows)
      ≡ any (has_id event_id) rows
any-update tenant_id id event_id change [] mild = refl
any-update tenant_id id event_id change (r ∷ rows) mild =
    ground (arith, mild.event r, any-update tenant_id id event_id change rows mild)

is_done-change :
    (tenant_id event_id id tenant' : String) (change : OutboxRecord → OutboxRecord)
    (r : OutboxRecord)
    → IsMild change
    → is_done tenant_id event_id r ≡ true
    → is_done tenant_id event_id (if has_event tenant' id r then change r else r) ≡ true
is_done-change tenant_id event_id id tenant' change r mild h =
    ground (arith, mild.event r, mild.tenant r, mild.opens r)

keeps-done :
    (tenant_id event_id id tenant' : String) (change : OutboxRecord → OutboxRecord) (t : Table)
    → IsMild change
    → Delivered tenant_id event_id t
    → Delivered tenant_id event_id (update tenant' id change t)
unfolding update
keeps-done tenant_id event_id id tenant' change t mild d = record {
  there = any-update tenant' id event_id change t.rows mild ∙ d.there;
  done =
      All-of_map (λ r. is_done tenant_id event_id r ≡ true)
        (λ r. if has_event tenant' id r then change r else r) t.rows
        (All-map _ _ t.rows (λ r h. is_done-change tenant_id event_id id tenant' change r mild h)
          d.done);
}

change_found-keeps :
    (tenant_id event_id id tenant' : String) (change : OutboxRecord → OutboxRecord)
    (row : Option OutboxRecord) (t : Table)
    → IsMild change
    → Delivered tenant_id event_id t
    → Delivered tenant_id event_id (change_found tenant' id change row t).1
unfolding change_found
change_found-keeps tenant_id event_id id tenant' change none t mild d = d
change_found-keeps tenant_id event_id id tenant' change (some r) t mild d =
    keeps-done tenant_id event_id id tenant' change t mild d

pub delivered-IsMild : (now : ℕ) → IsMild (delivered now)
unfolding delivered
delivered-IsMild now = record {
  event = λ r. refl;
  tenant = λ r. refl;
  opens = λ r h. absurd (false≢true h);
}

failed-IsMild : (error_ref : String) → IsMild (failed error_ref)
unfolding failed
failed-IsMild error_ref = record { event = λ r. refl; tenant = λ r. refl; opens = λ r h. h }

-- a new row is of another event than one that is there
is_done-new :
    (tenant_id event_id : String) (new : OutboxRecord) (rows : List OutboxRecord)
    → any (has_id event_id) rows ≡ true
    → find (has_id new.event_id) rows ≡ none
    → is_done tenant_id event_id new ≡ true
is_done-new tenant_id event_id new rows there none_there =
    elim (Bool-cases (new.event_id == event_id)) [
      | inl same ↦
          let e = (eq_iff new.event_id event_id).0 same in
          absurd (
            false≢true (
              sym (ap is_found none_there)
              ∙ sym (any-is_found (has_id new.event_id) rows)
              ∙ ap (λ i. any (has_id i) rows) e
              ∙ there))
      | inr other ↦ ground arith
    ]

insert-keeps :
    (tenant_id event_id : String) (has_case : Bool) (row : Option OutboxRecord) (new : OutboxRecord)
    (t : Table)
    → find (has_id new.event_id) t.rows ≡ row
    → Delivered tenant_id event_id t
    → Delivered tenant_id event_id (insert has_case row new t).1
unfolding insert
insert-keeps tenant_id event_id has_case (some row) new t e d = d
insert-keeps tenant_id event_id false none new t e d = d
insert-keeps tenant_id event_id true none new t e d = record {
  there = any-append (has_id event_id) t.rows (new ∷ []) d.there;
  done =
      All-append _ t.rows (new ∷ []) d.done
        (is_done-new tenant_id event_id new t.rows d.there e, tt);
}

with_uuid-keeps :
    (tenant_id event_id : String) (id : Option String) (next : String → Exec Table OutboxRecord)
    (t : Table)
    → ((i : String) → Delivered tenant_id event_id (next i t).1)
    → Delivered tenant_id event_id t
    → Delivered tenant_id event_id (with_uuid id next t).1
unfolding with_uuid
with_uuid-keeps tenant_id event_id none next t keeps d = d
with_uuid-keeps tenant_id event_id (some i) next t keeps d = keeps i

claim-keeps :
    (locked : String → Bool) (tenant_id : String) (limit : ℕ) (t : Table)
    → (claim locked tenant_id limit t).1 ≡ t
unfolding claim
claim-keeps locked tenant_id zero t = refl
claim-keeps locked tenant_id (suc limit) t = refl

module _ (uuid : String → Option String) (has_case : String → String → Bool) where
  Step-keeps :
      (tenant_id event_id : String) (t t' : Table)
      → Step uuid has_case t t'
      → Delivered tenant_id event_id t
      → Delivered tenant_id event_id t'
  unfolding publish mark_delivered mark_failed
  Step-keeps tenant_id event_id t t' (Step.publishes r _) d =
      with_uuid-keeps tenant_id event_id (uuid r.event_id) _ t
        (λ i.
          insert-keeps tenant_id event_id (has_case r.tenant_id r.case_id) (find (has_id i) t.rows)
            (record r { event_id = i }) t refl d)
        d
  Step-keeps tenant_id event_id t t' (Step.claims locked tenant' limit _) d =
      subst (Delivered tenant_id event_id) (sym (claim-keeps locked tenant' limit t)) d
  Step-keeps tenant_id event_id t t' (Step.delivers tenant' event' _) d =
      with_uuid-keeps tenant_id event_id (uuid event') _ t
        (λ i.
          change_found-keeps tenant_id event_id i tenant' (delivered t.now)
            (find (has_event tenant' i) t.rows) t (delivered-IsMild t.now) d)
        d
  Step-keeps tenant_id event_id t t' (Step.fails tenant' event' error_ref _) d =
      with_uuid-keeps tenant_id event_id (uuid event') _ t
        (λ i.
          change_found-keeps tenant_id event_id i tenant' (failed error_ref)
            (find (has_event tenant' i) t.rows) t (failed-IsMild error_ref) d)
        d
  Step-keeps tenant_id event_id t t' (Step.ticks now _) d = record {
    there = d.there;
    done = d.done;
  }

  pub Run-keeps :
      (tenant_id event_id : String) (t t' : Table)
      → Run uuid has_case t t'
      → Delivered tenant_id event_id t
      → Delivered tenant_id event_id t'
  Run-keeps tenant_id event_id t t' (Run.still _) d = d
  Run-keeps tenant_id event_id t t' (Run.then_step {u = u} s run) d =
      Run-keeps tenant_id event_id u t' run (Step-keeps tenant_id event_id t u s d)
