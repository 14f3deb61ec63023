-- ===== src/Prelude/Members.antt =====
-- Membership, the universal predicate of lists and sorting.
use Prim.Native.Nat.{◌<◌}
use Prim.Native.String.{String}
use mathlib.Core.Path.{◌≡◌, refl, sym, ap, subst, ◌∙◌}
use mathlib.Core.Logic.{inl, inr}
use mathlib.Core.Bool.{Bool, true, not, ◌&&◌}
use mathlib.Core.List.{List, [], ◌∷◌, map, Memᴰ}
use native.Mathlib.Omega.{arith}
use text.Mathlib.Text.{◌==◌}
use text.Mathlib.TextEquality.{eq_iff}
use agent_code_optimize_plug.Prelude.Tests.{if◌then◌else◌, Bool-cases}
use agent_code_optimize_plug.Prelude.Lists.{length, filter, All, contains, length-filter-le}
use agent_code_optimize_plug.Prelude.Sorted.{sorted_insert, sorted}

module _ {ℓ} {A : Type ℓ} where
  pub All-mem {κ} : (P : A → Type κ) {x : A} {xs : List A} → Memᴰ x xs → All P xs → P x
  All-mem P (Memᴰ.head e) h = subst P (sym e) h.0
  All-mem P (Memᴰ.tail m) h = All-mem P m h.1

  pub All-of_mem {κ} : (P : A → Type κ) (xs : List A) → ((x : A) → Memᴰ x xs → P x) → All P xs
  All-of_mem P [] h = tt
  All-of_mem P (x ∷ xs) h = (h x (Memᴰ.head refl), All-of_mem P xs (λ y m. h y (Memᴰ.tail m)))

  -- the kept elements, with what they were kept for
  pub All-filter {κ} :
      (P : A → Type κ) (p : A → Bool) (xs : List A)
      → All P xs
      → All (λ x. P x × (p x ≡ true)) (filter p xs)
  All-filter P p [] h = tt
  All-filter P p (x ∷ xs) h = elim (Bool-cases (p x)) [
    | inl e ↦ rw e ((h.0, e), All-filter P p xs h.1)
    | inr e ↦ rw e (All-filter P p xs h.1)
  ]

  pub All-sorted_insert {κ} :
      (P : A → Type κ) (le : A → A → Bool) (x : A) (xs : List A)
      → P x
      → All P xs
      → All P (sorted_insert le x xs)
  unfolding sorted_insert
  All-sorted_insert P le x [] px h = (px, tt)
  All-sorted_insert P le x (y ∷ ys) px h = elim (Bool-cases (le x y)) [
    | inl e ↦ rw e (px, h)
    | inr e ↦ rw e (h.0, All-sorted_insert P le x ys px h.1)
  ]

  pub All-sorted {κ} :
      (P : A → Type κ) (le : A → A → Bool) (xs : List A) → All P xs → All P (sorted le xs)
  unfolding sorted
  All-sorted P le [] h = tt
  All-sorted P le (x ∷ xs) h = All-sorted_insert P le x (sorted le xs) h.0 (All-sorted P le xs h.1)

  All-of_sorted_insert {κ} :
      (P : A → Type κ) (le : A → A → Bool) (x : A) (xs : List A)
      → All P (sorted_insert le x xs)
      → P x × All P xs
  unfolding sorted_insert
  All-of_sorted_insert P le x [] h = h
  All-of_sorted_insert P le x (y ∷ ys) h = elim (Bool-cases (le x y)) [
    | inl e ↦ subst (All P) (ap (λ b. if b then x ∷ y ∷ ys else y ∷ sorted_insert le x ys) e) h
    | inr e ↦
        let here =
          subst (All P) (ap (λ b. if b then x ∷ y ∷ ys else y ∷ sorted_insert le x ys) e) h in
        let below = All-of_sorted_insert P le x ys here.1 in (below.0, (here.0, below.1))
  ]

  pub All-of_sorted {κ} :
      (P : A → Type κ) (le : A → A → Bool) (xs : List A) → All P (sorted le xs) → All P xs
  unfolding sorted
  All-of_sorted P le [] h = tt
  All-of_sorted P le (x ∷ xs) h =
      let parts = All-of_sorted_insert P le x (sorted le xs) h in
      (parts.0, All-of_sorted P le xs parts.1)

  pub mem-sorted : (le : A → A → Bool) (x : A) (xs : List A) → Memᴰ x (sorted le xs) → Memᴰ x xs
  mem-sorted le x xs m =
      All-mem (λ y. Memᴰ y xs) m (All-sorted _ le xs (All-of_mem _ xs (λ y there. there)))

  pub mem-of_sorted : (le : A → A → Bool) (x : A) (xs : List A) → Memᴰ x xs → Memᴰ x (sorted le xs)
  mem-of_sorted le x xs m =
      All-mem (λ y. Memᴰ y (sorted le xs)) m
        (All-of_sorted (λ y. Memᴰ y (sorted le xs)) le xs (All-of_mem _ (sorted le xs) (λ y h. h)))

  -- the names of the elements are those of the sorted list
  pub contains-sorted_insert :
      (f : A → String) (le : A → A → Bool) (i : String) (x : A) (xs : List A)
      → contains i (map f (sorted_insert le x xs)) ≡ contains i (map f (x ∷ xs))
  unfolding sorted_insert
  contains-sorted_insert f le i x [] = refl
  contains-sorted_insert f le i x (y ∷ ys) = ground (arith, contains-sorted_insert f le i x ys)

  pub contains-sorted :
      (f : A → String) (le : A → A → Bool) (i : String) (xs : List A)
      → contains i (map f (sorted le xs)) ≡ contains i (map f xs)
  unfolding sorted
  contains-sorted f le i [] = refl
  contains-sorted f le i (x ∷ xs) =
      contains-sorted_insert f le i x (sorted le xs)
      ∙ ap (λ b. if f x == i then true else b) (contains-sorted f le i xs)

  -- the names that are left without one of them
  pub contains-without :
      (f : A → String) (i j : String) (xs : List A)
      → contains j (map f (filter (λ x. not (f x == i)) xs))
        ≡ (contains j (map f xs) && not (i == j))
  contains-without f i j [] = refl
  contains-without f i j (x ∷ xs) =
      ground (arith, eq_iff (f x) i, eq_iff (f x) j, eq_iff i j, contains-without f i j xs)

  pub length-without :
      (f : A → String) (i : String) (xs : List A)
      → contains i (map f xs) ≡ true
      → length (filter (λ x. not (f x == i)) xs) < length xs
  length-without f i (x ∷ xs) h =
      ground (arith, length-filter-le (λ y. not (f y == i)) xs, length-without f i xs)
  length-without f i [] h = ground arith
