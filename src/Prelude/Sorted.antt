-- ===== src/Prelude/Sorted.antt =====
-- `sorted`, stable, by a test `le` that says which of two may stand first.
use Prim.Native.Nat.{suc}
use mathlib.Core.Path.{◌≡◌, refl, ap, ◌∙◌}
use mathlib.Core.Bool.{Bool}
use mathlib.Core.List.{List, [], ◌∷◌, Perm}
use mathlib.Core.List.Perm
use native.Mathlib.Omega.{arith}
use agent_code_optimize_plug.Prelude.Tests.{if◌then◌else◌, Bool-cases}
use agent_code_optimize_plug.Prelude.Lists.{length}
use mathlib.Core.Logic.{inl, inr}

module _ {ℓ} {A : Type ℓ} (le : A → A → Bool) where
  unfoldable pub sorted_insert : A → List A → List A
  sorted_insert x [] = x ∷ []
  sorted_insert x (y ∷ ys) = if le x y then x ∷ y ∷ ys else y ∷ sorted_insert x ys

  unfoldable pub sorted : List A → List A
  unfolding sorted_insert
  sorted [] = []
  sorted (x ∷ xs) = sorted_insert x (sorted xs)

  pub sorted_insert-perm : (x : A) (ys : List A) → Perm (sorted_insert x ys) (x ∷ ys)
  unfolding sorted_insert
  sorted_insert-perm x [] = Perm.refl (x ∷ [])
  sorted_insert-perm x (y ∷ ys) = elim (Bool-cases (le x y)) [
    | inl e ↦ rw e (Perm.refl (x ∷ y ∷ ys))
    | inr e ↦ rw e (Perm.trans (Perm.cons y (sorted_insert-perm x ys)) (Perm.swap x y ys))
  ]

  pub sorted-perm : (xs : List A) → Perm (sorted xs) xs
  unfolding sorted
  sorted-perm [] = Perm.refl []
  sorted-perm (x ∷ xs) =
      Perm.trans (sorted_insert-perm x (sorted xs)) (Perm.cons x (sorted-perm xs))

  pub length-sorted_insert : (x : A) (ys : List A) → length (sorted_insert x ys) ≡ suc (length ys)
  unfolding sorted_insert
  length-sorted_insert x [] = refl
  length-sorted_insert x (y ∷ ys) = ground (arith, length-sorted_insert x ys)

  pub length-sorted : (xs : List A) → length (sorted xs) ≡ length xs
  unfolding sorted
  length-sorted [] = refl
  length-sorted (x ∷ xs) = length-sorted_insert x (sorted xs) ∙ ap suc (length-sorted xs)
