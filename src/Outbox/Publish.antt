-- ===== src/Outbox/Publish.antt =====
-- What `publish` of adapters/production/postgres_outbox.py promises: one row for an event, and a claim
-- that gets it.
use agent_code_optimize_plug.Prelude.{
  ℕ, zero, suc, ◌≤◌, String, Bool, true, false, Option, none, some, List, [], ◌∷◌, ◌++◌, ◌≡◌, refl,
  sym, ap, ◌∙◌, arith, eq_refl, find, filter, take-all, length, Memᴰ, mem-of_sorted, Bool-cases,
  inl, inr,
}
use agent_code_optimize_plug.Contracts.Refs.{OutboxRecord}
use agent_code_optimize_plug.Contracts.Errors.{ok}
use agent_code_optimize_plug.Outbox.{
  Table, has_id, is_open, not_later, is_claimable, claimable, published, insert, with_uuid, publish,
  claim,
}
use agent_code_optimize_plug.Outbox.Delivery.{find-holds, ok-same, with_uuid-ok}

find-append :
    (new : OutboxRecord) (rows : List OutboxRecord)
    → find (has_id new.event_id) rows ≡ none
    → find (has_id new.event_id) (rows ++ (new ∷ [])) ≡ some new
find-append new [] h = rw (eq_refl new.event_id)
find-append new (r ∷ rows) h = ground (arith, find-append new rows)

-- what the insert returned is the row of the event
insert-found :
    (has_case : Bool) (row : Option OutboxRecord) (new q : OutboxRecord) (t : Table)
    → find (has_id new.event_id) t.rows ≡ row
    → (insert has_case row new t).0 ≡ ok q
    → find (has_id new.event_id) (insert has_case row new t).1.rows ≡ some q
unfolding insert published
insert-found has_case (some row) new q t e h =
    e ∙ ap some (ok-same (ap (λ again. published none again) (sym e) ∙ h))
insert-found false none new q t e h = cc
insert-found true none new q t e h = find-append new t.rows e ∙ ap some (ok-same h)

-- an insert of an event that has a row changes nothing
insert-again :
    (has_case : Bool) (new q : OutboxRecord) (t : Table)
    → find (has_id new.event_id) t.rows ≡ some q
    → insert has_case (find (has_id new.event_id) t.rows) new t ≡ (ok q, t)
unfolding insert published
insert-again has_case new q t e = rw e (ap (λ row. (published none row, t)) e)

mem-filter :
    (p : OutboxRecord → Bool) (xs : List OutboxRecord) (x : OutboxRecord)
    → Memᴰ x xs
    → p x ≡ true
    → Memᴰ x (filter p xs)
mem-filter p [] x m h = elim m [ ]
mem-filter p (y ∷ ys) x (Memᴰ.head e) h = rw (ap p (sym e) ∙ h) (Memᴰ.head e)
mem-filter p (y ∷ ys) x (Memᴰ.tail m) h = elim (Bool-cases (p y)) [
  | inl e ↦ rw e (Memᴰ.tail (mem-filter p ys x m h))
  | inr e ↦ rw e (mem-filter p ys x m h)
]

-- a list that has an element is not of length zero
room_for_one : {x : OutboxRecord} {xs : List OutboxRecord} → length xs ≤ 0 → Memᴰ x xs → ⊥
room_for_one room (Memᴰ.head e) = omega (arith, room)
room_for_one room (Memᴰ.tail m) = omega (arith, room)

-- a claim with room for all gets every claimable row
claim-gets :
    (locked : String → Bool) (tenant_id : String) (limit : ℕ) (t : Table) (q : OutboxRecord)
    → Memᴰ q t.rows
    → is_claimable locked tenant_id t.now q ≡ true
    → length (claimable locked tenant_id t) ≤ limit
    → ((claim locked tenant_id limit t).0 ≡ ok (claimable locked tenant_id t))
      × Memᴰ q (claimable locked tenant_id t)
unfolding claim claimable
claim-gets locked tenant_id limit t q m h room =
    let here =
      mem-of_sorted not_later q (filter (is_claimable locked tenant_id t.now) t.rows)
        (mem-filter _ t.rows q m h) in
    (gets limit room here, here)
  where
    gets :
        (limit : ℕ)
        → length (claimable locked tenant_id t) ≤ limit
        → Memᴰ q (claimable locked tenant_id t)
        → (claim locked tenant_id limit t).0 ≡ ok (claimable locked tenant_id t)
    gets zero room here = absurd (room_for_one room here)
    gets (suc limit) room here = ap ok (take-all (suc limit) (claimable locked tenant_id t) room)

due-claimable :
    (locked : String → Bool) (now : ℕ) (q : OutboxRecord)
    → is_open q.delivered_at ≡ true
    → q.available_at ≤ now
    → locked q.event_id ≡ false
    → is_claimable locked q.tenant_id now q ≡ true
unfolding is_claimable
due-claimable locked now q open_row due free =
    rw (eq_refl q.tenant_id, open_row, free) (ground (arith, due))

module _ (uuid : String → Option String) (has_case : String → String → Bool) where
  -- A publish that returned a row returns it again when it is repeated, and changes nothing then.
  pub publish-again :
      (r q : OutboxRecord) (t : Table)
      → (publish uuid has_case r t).0 ≡ ok q
      → publish uuid has_case r (publish uuid has_case r t).1
        ≡ (ok q, (publish uuid has_case r t).1)
  unfolding publish with_uuid
  publish-again r q t h =
      let (i, e) = with_uuid-ok (uuid r.event_id) _ t q h in
      rw e (
        insert-again (has_case r.tenant_id r.case_id) (record r { event_id = i }) q _
          (insert-found (has_case r.tenant_id r.case_id) (find (has_id i) t.rows)
            (record r { event_id = i }) q t refl (rw e at h)))

  -- The row that a publish returned, where it is undelivered, due and not locked by others, is in
  -- the next claim of its tenant that has room for all that is due.
  pub publish-claimed :
      (r q : OutboxRecord) (t : Table) (locked : String → Bool) (limit : ℕ)
      → (publish uuid has_case r t).0 ≡ ok q
      → is_open q.delivered_at ≡ true
      → q.available_at ≤ (publish uuid has_case r t).1.now
      → locked q.event_id ≡ false
      → length (claimable locked q.tenant_id (publish uuid has_case r t).1) ≤ limit
      → (rs : List OutboxRecord) × ((claim locked q.tenant_id limit (publish uuid has_case r t).1).0
          ≡ ok rs)
        × Memᴰ q rs
  unfolding publish with_uuid is_claimable
  publish-claimed r q t locked limit h open_row due free room =
      let (i, e) = with_uuid-ok (uuid r.event_id) _ t q h in
      let found =
        insert-found (has_case r.tenant_id r.case_id) (find (has_id i) t.rows)
          (record r { event_id = i }) q t refl (rw e at h) in
      let t' = (publish uuid has_case r t).1 in
      let row : Memᴰ q t'.rows = rw e ((find-holds (has_id i) _ q found).1) in
      let gets =
        claim-gets locked q.tenant_id limit t' q row
          (due-claimable locked t'.now q open_row due free) room in
      (claimable locked q.tenant_id t', gets.0, gets.1)
