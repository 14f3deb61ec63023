-- ===== src/Prelude/Dict.antt =====
-- Python's `dict` with string keys, in insertion order.
use agent_code_optimize_plug.Prelude.Tests.{if◌then◌else◌, is_some}
use agent_code_optimize_plug.Prelude.Lists.{length}
use agent_code_optimize_plug.Prelude.Sorted.{sorted_insert, sorted}
use agent_code_optimize_plug.Prelude.Text.{text_le, text_le_refl}
use Prim.Native.Nat.{ℕ, zero, suc, ◌<◌, ◌≤◌}
use Prim.Native.String.{String}
use mathlib.Core.Path.{◌≡◌, refl, ◌∙◌}
use mathlib.Core.Logic.{◌≢◌}
use mathlib.Core.Bool.{Bool, true}
use mathlib.Core.Option.{Option, none, some}
use mathlib.Core.List.{List, [], ◌∷◌}
use native.Mathlib.Omega.{arith}
use text.Mathlib.Text.{◌==◌}
use text.Mathlib.TextEquality.{eq_iff}
use text.Mathlib.TextPositions.{eq_refl}

abbrev pub Dict {ℓ} : Type ℓ → Type ℓ
Dict V = List (String × V)

module _ {ℓ} {V : Type ℓ} where
  -- `d.get(k)`
  unfoldable pub get : String → Dict V → Option V
  get k [] = none
  get k ((j, v) ∷ d) = if j == k then some v else get k d

  -- `k in d`
  abbrev pub has : String → Dict V → Bool
  has k d = is_some (get k d)

  -- `d[k] = v`
  unfoldable pub put : String → V → Dict V → Dict V
  put k v [] = (k, v) ∷ []
  put k v ((j, w) ∷ d) = if j == k then (j, v) ∷ d else (j, w) ∷ put k v d

  -- `{key(x): value(x) for x in xs}`, over the entries that are there
  unfoldable pub collect : {A : Type ℓ} → (A → String) → (A → V) → List A → Dict V → Dict V
  unfolding put
  collect key value [] d = d
  collect key value (x ∷ xs) d = collect key value xs (put (key x) (value x) d)

  -- `d.pop(k, None)`
  unfoldable pub pop : String → Dict V → Dict V
  pop k [] = []
  pop k ((j, w) ∷ d) = if j == k then pop k d else (j, w) ∷ pop k d

  -- which of two entries stands first in `dict(sorted(d.items()))`: the keys are distinct
  abbrev key_le : String × V → String × V → Bool
  key_le a b = text_le a.0 b.0

  unfoldable pub sort_keys : Dict V → Dict V
  unfolding sorted
  sort_keys d = sorted key_le d

  pub get-put :
      (k j : String) (v : V) (d : Dict V) → get j (put k v d) ≡ (if k == j then some v else get j d)
  unfolding get put
  get-put k j v [] = refl
  get-put k j v ((i, w) ∷ d) = ground (arith, eq_iff k j, eq_iff i k, eq_iff i j, get-put k j v d)

  pub get-put_self : (k : String) (v : V) (d : Dict V) → get k (put k v d) ≡ some v
  get-put_self k v d = get-put k k v d ∙ rw (eq_refl k)

  pub get-put_ne : (k j : String) (v : V) (d : Dict V) → k ≢ j → get j (put k v d) ≡ get j d
  get-put_ne k j v d ne = ground (arith, get-put k j v d, eq_iff k j)

  pub get-pop : (k j : String) (d : Dict V) → get j (pop k d) ≡ (if k == j then none else get j d)
  unfolding get pop
  get-pop k j [] = ground arith
  get-pop k j ((i, w) ∷ d) = ground (arith, eq_iff i k, eq_iff i j, eq_iff k j, get-pop k j d)

  get-sorted_insert :
      (k j : String) (v : V) (d : Dict V)
      → get j (sorted_insert key_le (k, v) d) ≡ (if k == j then some v else get j d)
  unfolding get sorted_insert
  get-sorted_insert k j v [] = refl
  get-sorted_insert k j v ((i, w) ∷ d) =
      ground (arith, eq_iff k j, eq_iff i j, eq_iff k i, text_le_refl k, get-sorted_insert k j v d)

  -- Sorting the entries changes no lookup.
  pub get-sort_keys : (j : String) (d : Dict V) → get j (sort_keys d) ≡ get j d
  unfolding get sort_keys
  get-sort_keys j [] = refl
  get-sort_keys j ((i, w) ∷ d) = get-sorted_insert i j w (sorted key_le d) ∙ rw (get-sort_keys j d)

  length-pop-le : (k : String) (d : Dict V) → length (pop k d) ≤ length d
  unfolding pop
  length-pop-le k [] = omega arith
  length-pop-le k ((i, w) ∷ d) = ground (arith, length-pop-le k d)

  length-pop_of_has : (k : String) (d : Dict V) → has k d ≡ true → length (pop k d) < length d
  unfolding get pop
  length-pop_of_has k [] h = ground arith
  length-pop_of_has k ((i, w) ∷ d) h = ground (arith, length-pop_of_has k d, length-pop-le k d)

  -- A dictionary that has `n` distinct keys has `n` entries at least.
  pub distinct_keys-le-length :
      (key : ℕ → String) (n : ℕ) (d : Dict V)
      → ((i j : ℕ) → key i ≡ key j → i ≡ j)
      → ((i : ℕ) → i < n → has (key i) d ≡ true)
      → n ≤ length d
  distinct_keys-le-length key zero d inj all_in = omega arith
  distinct_keys-le-length key (suc n) d inj all_in =
      let rest : n ≤ length (pop (key n) d) =
        distinct_keys-le-length key n (pop (key n) d) inj (λ i h. ground (
          arith,
          get-pop (key n) (key i) d,
          eq_iff (key n) (key i),
          inj n i,
          all_in i (omega arith),
        )) in
      omega (arith, rest, length-pop_of_has (key n) d (all_in n (omega arith)))
