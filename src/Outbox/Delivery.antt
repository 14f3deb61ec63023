-- ===== src/Outbox/Delivery.antt =====
-- What callers of adapters/production/postgres_outbox.py may rely on: events are published once, come
-- to a claim until they are delivered, and not after.
use agent_code_optimize_plug.Prelude.{
  ℕ, zero, suc, String, Bool, true, false, Option, none, some, List, [], ◌∷◌, ◌≡◌, refl, sym, ap,
  subst, ◌∙◌, ◌==◌, if◌then◌else◌, arith, eq_iff, any, find, filter, All, All-map, All-take,
  All-sorted, All-filter, All-of_map, Memᴰ, and→both, Bool-cases, inl, inr,
}
use mathlib.Core.Option.{some-injective}
use agent_code_optimize_plug.Contracts.Refs.{OutboxRecord}
use agent_code_optimize_plug.Contracts.Errors.{ok, Exec}
use agent_code_optimize_plug.Outbox.{
  Table, has_id, has_event, not_later, is_claimable, claimable, update, change_found, with_uuid,
  delivered, claim, mark_delivered, Run,
}
use agent_code_optimize_plug.Outbox.Laws.{
  is_done, Delivered, delivered-IsMild, any-update, Run-keeps,
}

pub ok-same : {A : Type 0} {a b : A} → ok a ≡ ok b → a ≡ b
ok-same e = cc

pub find-holds :
    (p : OutboxRecord → Bool) (xs : List OutboxRecord) (q : OutboxRecord)
    → find p xs ≡ some q
    → (p q ≡ true) × Memᴰ q xs
find-holds p [] q h = cc
find-holds p (x ∷ xs) q h = elim (Bool-cases (p x)) [
  | inl e ↦
      let same : x ≡ q = some-injective x q (rw e at h) in
      (subst (λ y. p y ≡ true) same e, Memᴰ.head (sym same))
  | inr e ↦ let (holds, m) = find-holds p xs q (rw e at h) in (holds, Memᴰ.tail m)
]

-- a claimable row of no open event is of another one
claimable-closed :
    (locked : String → Bool) (tenant_id event_id tenant' : String) (now : ℕ) (c : OutboxRecord)
    → is_done tenant_id event_id c ≡ true
    → is_claimable locked tenant' now c ≡ true
    → has_event tenant_id event_id c ≡ false
unfolding is_claimable
claimable-closed locked tenant_id event_id tenant' now c h e = ground arith

-- no row of the event is claimed once it is delivered
claim-done :
    (locked : String → Bool) (tenant_id event_id tenant' : String) (limit : ℕ) (t : Table)
    (rs : List OutboxRecord)
    → Delivered tenant_id event_id t
    → (claim locked tenant' limit t).0 ≡ ok rs
    → All (λ c. has_event tenant_id event_id c ≡ false) rs
unfolding claim claimable is_claimable
claim-done locked tenant_id event_id tenant' zero t rs d h = cc
claim-done locked tenant_id event_id tenant' (suc limit) t rs d h =
    subst (All (λ c. has_event tenant_id event_id c ≡ false)) (ok-same h) (
      All-take _ (suc limit) (claimable locked tenant' t) (
        All-sorted _ not_later (filter (is_claimable locked tenant' t.now) t.rows) (
          All-map _ _ (filter (is_claimable locked tenant' t.now) t.rows)
            (λ c both. claimable-closed locked tenant_id event_id tenant' t.now c both.0 both.1)
            (All-filter _ (is_claimable locked tenant' t.now) t.rows d.done))))

-- the row of an event is one of its id
find-any_id :
    (tenant_id id : String) (rows : List OutboxRecord) (q : OutboxRecord)
    → find (has_event tenant_id id) rows ≡ some q
    → any (has_id id) rows ≡ true
find-any_id tenant_id id [] q h = cc
find-any_id tenant_id id (r ∷ rows) q h = ground (arith, find-any_id tenant_id id rows q)

All-delivered :
    (tenant_id id : String) (now : ℕ) (rows : List OutboxRecord)
    → All
        (λ r. is_done tenant_id id (if has_event tenant_id id r then delivered now r else r) ≡ true)
        rows
unfolding delivered
All-delivered tenant_id id now [] = tt
All-delivered tenant_id id now (r ∷ rows) = (ground arith, All-delivered tenant_id id now rows)

update-Delivered :
    (tenant_id id : String) (t : Table) (q : OutboxRecord)
    → find (has_event tenant_id id) t.rows ≡ some q
    → Delivered tenant_id id (update tenant_id id (delivered t.now) t)
unfolding update
update-Delivered tenant_id id t q e = record {
  there =
      any-update tenant_id id id (delivered t.now) t.rows (delivered-IsMild t.now)
      ∙ find-any_id tenant_id id t.rows q e;
  done = All-of_map _ _ t.rows (All-delivered tenant_id id t.now t.rows);
}

change_found-Delivered :
    (tenant_id id : String) (row : Option OutboxRecord) (t : Table) (r : OutboxRecord)
    → find (has_event tenant_id id) t.rows ≡ row
    → (change_found tenant_id id (delivered t.now) row t).0 ≡ ok r
    → Delivered tenant_id r.event_id (change_found tenant_id id (delivered t.now) row t).1
unfolding change_found delivered
change_found-Delivered tenant_id id none t r e h = cc
change_found-Delivered tenant_id id (some q) t r e h =
    let (event, _) = find-holds (has_event tenant_id id) t.rows q e in
    let named : q.event_id ≡ id =
      (eq_iff q.event_id id).0 (and→both (q.tenant_id == tenant_id) (q.event_id == id) event).1 in
    let same : q.event_id ≡ r.event_id = ap (λ x. x.event_id) (ok-same h) in
    subst (λ i. Delivered tenant_id i (update tenant_id id (delivered t.now) t)) (sym named ∙ same)
      (update-Delivered tenant_id id t q e)

pub with_uuid-ok :
    (id : Option String) (next : String → Exec Table OutboxRecord) (t : Table) (r : OutboxRecord)
    → (with_uuid id next t).0 ≡ ok r
    → (i : String) × (id ≡ some i)
unfolding with_uuid
with_uuid-ok none next t r h = cc
with_uuid-ok (some i) next t r h = (i, refl)

module _ (uuid : String → Option String) (has_case : String → String → Bool) where
  mark_delivered-Delivered :
      (tenant_id event_id : String) (t : Table) (r : OutboxRecord)
      → (mark_delivered uuid has_case tenant_id event_id t).0 ≡ ok r
      → Delivered tenant_id r.event_id (mark_delivered uuid has_case tenant_id event_id t).1
  unfolding mark_delivered with_uuid
  mark_delivered-Delivered tenant_id event_id t r h =
      let (i, e) = with_uuid-ok (uuid event_id) _ t r h in
      rw e (
        change_found-Delivered tenant_id i (find (has_event tenant_id i) t.rows) t r refl
          (rw e at h))

  -- After mark_delivered returned a record, no claim of anyone returns the event of that tenant,
  -- however the table was used in between, by a replayed publish too.
  pub mark_delivered-unclaimed :
      (tenant_id event_id : String) (t t' : Table) (r : OutboxRecord) (locked : String → Bool)
      (claimer : String) (limit : ℕ) (rs : List OutboxRecord)
      → (mark_delivered uuid has_case tenant_id event_id t).0 ≡ ok r
      → Run uuid has_case (mark_delivered uuid has_case tenant_id event_id t).1 t'
      → (claim locked claimer limit t').0 ≡ ok rs
      → All (λ c. has_event tenant_id r.event_id c ≡ false) rs
  mark_delivered-unclaimed tenant_id event_id t t' r locked claimer limit rs h run claimed =
      claim-done locked tenant_id r.event_id claimer limit t' rs
        (Run-keeps uuid has_case tenant_id r.event_id _ t' run
          (mark_delivered-Delivered tenant_id event_id t r h))
        claimed
