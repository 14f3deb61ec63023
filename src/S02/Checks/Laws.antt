-- ===== src/S02/Checks/Laws.antt =====
-- What the checks of a plan that pass say of it (application/s02_handlers/shared.py).
use agent_code_optimize_plug.Prelude.{
  ℕ, ◌<◌, ◌≤◌, String, Bool, true, false, Option, List, [], ◌∷◌, ◌≡◌, ◌↔◌, refl, sym, ap, subst,
  ◌∙◌, not, ltb, leb, if◌then◌else◌, filter, map, sorted, sorted_insert, All, All-map,
  All-sorted_insert, All-mem, All-of_mem, mem-of_sorted, Memᴰ, arith, Bool-cases, inl, inr, ltb→lt,
  lt→ltb,
}
use agent_code_optimize_plug.Contracts.Plan.{ExecutionPhase}
use agent_code_optimize_plug.S02.Checks.{
  outcome, is_diagnostic, maximum, minimum, precede, check_phase_risk_order, tier_of, same_numbers,
  by_sequence, check_risk_ladder_order,
}

-- The maximum is below a bound exactly where every number is; so for the minimum.
maximum-lt_iff :
    (x : ℕ) (xs : List ℕ) (b : ℕ) → (maximum x xs < b) ↔ ((x < b) × All (λ y. y < b) xs)
maximum-lt_iff x [] b = (λ h. (h, tt), λ h. h.0)
maximum-lt_iff x (y ∷ ys) b =
    let (down, up) = maximum-lt_iff (if ltb x y then y else x) ys b in
    (
      λ h. let (here, rest) = down h in (ground (arith, here), (ground (arith, here), rest)),
      λ h. up (ground (arith, h.0, h.1.0), h.1.1),
    )

lt-minimum_iff :
    (y : ℕ) (ys : List ℕ) (b : ℕ) → (b < minimum y ys) ↔ ((b < y) × All (λ z. b < z) ys)
lt-minimum_iff y [] b = (λ h. (h, tt), λ h. h.0)
lt-minimum_iff y (z ∷ zs) b =
    let (down, up) = lt-minimum_iff (if ltb z y then z else y) zs b in
    (
      λ h. let (here, rest) = down h in (ground (arith, here), (ground (arith, here), rest)),
      λ h. up (ground (arith, h.0, h.1.0), h.1.1),
    )

precede_iff : (xs ys : List ℕ) → (precede xs ys ≡ true) ↔ All (λ x. All (λ y. x < y) ys) xs
unfolding precede
precede_iff [] ys = (λ h. tt, λ h. refl)
precede_iff (x ∷ xs) [] = (λ h. (tt, All-of_mem _ xs (λ z m. tt)), λ h. refl)
precede_iff (x ∷ xs) (y ∷ ys) =
    let (down, up) = maximum-lt_iff x xs (minimum y ys) in
    (
      λ h.
          let (here, rest) = down (ltb→lt (maximum x xs) (minimum y ys) h) in
          (
            (lt-minimum_iff y ys x).0 here,
            All-map (λ z. z < minimum y ys) (λ z. All (λ w. z < w) (y ∷ ys)) xs
                (λ z. (lt-minimum_iff y ys z).0) rest,
          ),
      λ h. lt→ltb (maximum x xs) (minimum y ys) (
          up (
            (lt-minimum_iff y ys x).1 h.0,
            All-map (λ z. All (λ w. z < w) (y ∷ ys)) (λ z. z < minimum y ys) xs
                (λ z. (lt-minimum_iff y ys z).1) h.1,
          )),
    )

from_map :
    (f : ExecutionPhase → ℕ) (P : ℕ → Type 0) (phases : List ExecutionPhase)
    → All P (map f phases)
    → All (λ p. P (f p)) phases
from_map f P [] h = tt
from_map f P (p ∷ phases) h = (h.0, from_map f P phases h.1)

All-sequences :
    (P : ℕ → Type 0) (phases : List ExecutionPhase)
    → All P (map (λ p. p.sequence) phases) ↔ All (λ p. P p.sequence) phases
All-sequences P [] = (λ h. tt, λ h. tt)
All-sequences P (p ∷ phases) =
    let (down, up) = All-sequences P phases in (λ h. (h.0, down h.1), λ h. (h.0, up h.1))

outcome-passed : (b : Bool) (detail : Option String) → (outcome b detail).0 ≡ b
outcome-passed true detail = refl
outcome-passed false detail = refl

-- The check of the phases' kinds passes exactly where every diagnostic phase has a lower sequence
-- number than every implementation phase.
pub check_phase_risk_order_iff :
    (phases : List ExecutionPhase)
    → ((check_phase_risk_order phases).0 ≡ true)
      ↔ All
          (λ p. All (λ q. p.sequence < q.sequence) (filter (λ r. not (is_diagnostic r)) phases))
          (filter is_diagnostic phases)
unfolding check_phase_risk_order
check_phase_risk_order_iff phases =
    let before = filter is_diagnostic phases in
    let behind = filter (λ r. not (is_diagnostic r)) phases in
    let numbers = map (λ p. p.sequence) behind in
    let (down, up) = precede_iff (map (λ p. p.sequence) before) numbers in
    let verdict = outcome-passed (precede (map (λ p. p.sequence) before) numbers) _ in
    let (here, back) = All-sequences (λ x. All (λ y. x < y) numbers) before in
    (
      λ h.
          All-map _ _ before (λ p. (All-sequences (λ y. p.sequence < y) behind).0)
            (here (down (sym verdict ∙ h))),
      λ h.
          verdict
          ∙ up (back (All-map _ _ before (λ p. (All-sequences (λ y. p.sequence < y) behind).1) h)),
    )

-- each number is at most all that follow
abbrev IsAscending : List ℕ → Type 0
IsAscending [] = Unit
IsAscending (x ∷ xs) = All (λ y. x ≤ y) xs × IsAscending xs

sorted_insert-IsAscending :
    (x : ℕ) (xs : List ℕ) → IsAscending xs → IsAscending (sorted_insert leb x xs)
unfolding sorted_insert
sorted_insert-IsAscending x [] h = (tt, tt)
sorted_insert-IsAscending x (y ∷ ys) h = elim (Bool-cases (leb x y)) [
  | inl e ↦ rw e (
    (ground (arith, e), All-map (λ z. y ≤ z) (λ z. x ≤ z) ys (λ z le. ground (arith, e, le)) h.0),
    h,
  )
  | inr e ↦ rw e (
    All-sorted_insert (λ z. y ≤ z) leb x ys (ground (arith, e)) h.0,
    sorted_insert-IsAscending x ys h.1,
  )
]

sorted-IsAscending : (xs : List ℕ) → IsAscending (sorted leb xs)
unfolding sorted
sorted-IsAscending [] = tt
sorted-IsAscending (x ∷ xs) = sorted_insert-IsAscending x (sorted leb xs) (sorted-IsAscending xs)

same_numbers-eq : (xs ys : List ℕ) → same_numbers xs ys ≡ true → xs ≡ ys
same_numbers-eq [] [] h = refl
same_numbers-eq (x ∷ xs) (y ∷ ys) h =
    let below = same_numbers-eq xs ys (ground (arith, h)) in
    let here : x ≡ y = ground (arith, h) in rw (here, below) refl
same_numbers-eq [] (y ∷ ys) h = cc (h)
same_numbers-eq (x ∷ xs) [] h = cc (h)

map-sorted_insert :
    (x : ExecutionPhase) (xs : List ExecutionPhase)
    → map (λ p. p.sequence) (sorted_insert by_sequence x xs)
      ≡ sorted_insert leb x.sequence (map (λ p. p.sequence) xs)
unfolding sorted_insert
map-sorted_insert x [] = refl
map-sorted_insert x (y ∷ ys) = elim (Bool-cases (leb x.sequence y.sequence)) [
  | inl e ↦ rw e refl
  | inr e ↦ rw e (ap (λ zs. y.sequence ∷ zs) (map-sorted_insert x ys))
]

map-sorted :
    (xs : List ExecutionPhase)
    → map (λ p. p.sequence) (sorted by_sequence xs) ≡ sorted leb (map (λ p. p.sequence) xs)
unfolding sorted
map-sorted [] = refl
map-sorted (x ∷ xs) =
    map-sorted_insert x (sorted by_sequence xs) ∙ ap (sorted_insert leb x.sequence) (map-sorted xs)

-- Where both numbers and tiers ascend, a higher number has no lower tier.
ascending_tiers :
    (p q : ExecutionPhase) (phases : List ExecutionPhase)
    → IsAscending (map (λ r. r.sequence) phases)
    → IsAscending (map tier_of phases)
    → Memᴰ p phases
    → Memᴰ q phases
    → p.sequence < q.sequence
    → tier_of p ≤ tier_of q
ascending_tiers p q [] a b in_p in_q lt = elim in_p [ ]
ascending_tiers p q (r ∷ rs) a b (Memᴰ.head here) (Memᴰ.head there) lt =
    absurd (omega (arith, lt, ap (λ z. z.sequence) here, ap (λ z. z.sequence) there))
ascending_tiers p q (r ∷ rs) a b (Memᴰ.head here) (Memᴰ.tail m) lt =
    subst (λ z. tier_of z ≤ tier_of q) (sym here) (All-mem _ m (from_map tier_of _ rs b.0))
ascending_tiers p q (r ∷ rs) a b (Memᴰ.tail m) (Memᴰ.head there) lt =
    let below = All-mem _ m (from_map (λ z. z.sequence) _ rs a.0) in
    absurd (omega (arith, lt, below, ap (λ z. z.sequence) there))
ascending_tiers p q (r ∷ rs) a b (Memᴰ.tail m) (Memᴰ.tail n) lt =
    ascending_tiers p q rs a.1 b.1 m n lt

-- Where the check of the risk ladder passes, no phase of a lower sequence number has a higher tier.
pub check_risk_ladder_order-tiers :
    (phases : List ExecutionPhase) (p q : ExecutionPhase)
    → (check_risk_ladder_order phases).0 ≡ true
    → Memᴰ p phases
    → Memᴰ q phases
    → p.sequence < q.sequence
    → tier_of p ≤ tier_of q
unfolding check_risk_ladder_order
check_risk_ladder_order-tiers phases p q passed in_p in_q lt =
    let ordered = sorted by_sequence phases in
    let tiers = map tier_of ordered in
    let same =
      same_numbers-eq tiers (sorted leb tiers)
        (sym (outcome-passed (same_numbers tiers (sorted leb tiers)) _) ∙ passed) in
    ascending_tiers p q ordered
      (subst IsAscending (sym (map-sorted phases))
        (sorted-IsAscending (map (λ r. r.sequence) phases)))
      (subst IsAscending (sym same) (sorted-IsAscending tiers))
      (mem-of_sorted by_sequence p phases in_p) (mem-of_sorted by_sequence q phases in_q) lt
