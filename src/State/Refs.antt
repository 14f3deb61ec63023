-- ===== src/State/Refs.antt =====
-- `merge_artifact_refs` of contracts/state.py as a map from (type, id) to digest.
use agent_code_optimize_plug.Prelude.{
  String, ◌≡◌, refl, sym, ◌∙◌, ◌&&◌, Option, none, some, List, [], ◌∷◌, ◌++◌, ◌↔◌, inl, inr, ◌==◌,
  eq_iff, eq_refl, if◌then◌else◌, Bool-cases, Option-cases, sorted, sorted_insert, arith, All,
  All-map, All-append, All-append_left, All-append_right, or_else,
}
use agent_code_optimize_plug.Prelude.Text.{text_le_refl}
use agent_code_optimize_plug.Contracts.Refs.{ArtifactRef}
use agent_code_optimize_plug.Contracts.Errors.{ok, bind_result-eq_ok}
use agent_code_optimize_plug.State.Merge.{
  same_key, put_ref, merge_refs_from, ref_le, merge_artifact_refs,
}

-- The digest recorded under a key, if one is.
abbrev pub digest_at : String → String → List ArtifactRef → Option String
digest_at t i [] = none
digest_at t i (x ∷ xs) =
    if (x.artifact_type == t) && (x.artifact_id == i)
    then some x.content_digest
    else digest_at t i xs

-- What is recorded under a key agrees with the reference.
abbrev pub Agrees : ArtifactRef → List ArtifactRef → Type 0
Agrees r xs =
    (d : String) → digest_at r.artifact_type r.artifact_id xs ≡ some d → d ≡ r.content_digest

module _ (r : ArtifactRef) where
  digest_at-put_ref :
      (t i : String) (xs ys : List ArtifactRef)
      → put_ref r xs ≡ ok ys
      → digest_at t i ys ≡ (
          if (r.artifact_type == t) && (r.artifact_id == i)
          then some r.content_digest
          else digest_at t i xs)
  unfolding put_ref same_key
  digest_at-put_ref t i [] ys h = ground arith
  digest_at-put_ref t i (x ∷ xs) ys h = elim (Bool-cases (same_key x r)) [
    | inl same ↦ ground (
      arith,
      eq_iff x.artifact_type r.artifact_type,
      eq_iff x.artifact_id r.artifact_id,
      eq_iff x.artifact_type t,
      eq_iff x.artifact_id i,
      eq_iff r.artifact_type t,
      eq_iff r.artifact_id i,
    )
    | inr other ↦
        let (zs, e, f) = bind_result-eq_ok (put_ref r xs) (λ zs. ok (x ∷ zs)) (rw other at h) in
        ground (
          arith,
          eq_iff x.artifact_type r.artifact_type,
          eq_iff x.artifact_id r.artifact_id,
          eq_iff x.artifact_type t,
          eq_iff x.artifact_id i,
          eq_iff r.artifact_type t,
          eq_iff r.artifact_id i,
          digest_at-put_ref t i xs zs e,
          other,
          f,
        )
  ]

  -- An accepted reference agrees with what was recorded.
  Agrees-put_ref : (xs ys : List ArtifactRef) → put_ref r xs ≡ ok ys → Agrees r xs
  unfolding put_ref same_key
  Agrees-put_ref [] ys h d e = cc
  Agrees-put_ref (x ∷ xs) ys h d e = elim (Bool-cases (same_key x r)) [
    | inl same ↦ ground (arith, eq_iff x.content_digest r.content_digest)
    | inr other ↦
        let (zs, g, f) = bind_result-eq_ok (put_ref r xs) (λ zs. ok (x ∷ zs)) (rw other at h) in
        Agrees-put_ref xs zs g d (rw other at e)
  ]

  -- A reference that agrees with what was recorded is accepted.
  put_ref_total :
      (xs : List ArtifactRef) → Agrees r xs → (ys : List ArtifactRef) × (put_ref r xs ≡ ok ys)
  unfolding put_ref same_key
  put_ref_total [] a = (r ∷ [], refl)
  put_ref_total (x ∷ xs) a = elim (Bool-cases (same_key x r)) [
    | inl same ↦ (
      r ∷ xs,
      ground (arith, a x.content_digest (rw same), eq_iff x.content_digest r.content_digest),
    )
    | inr other ↦
        let (ys, e) = put_ref_total xs (λ d e. a d (rw other e)) in (x ∷ ys, rw other (rw e))
  ]

  digest_at-step :
      (t i : String) (xs ys : List ArtifactRef)
      → put_ref r xs ≡ ok ys
      → digest_at t i ys ≡ or_else (digest_at t i xs) (digest_at t i (r ∷ []))
  digest_at-step t i xs ys h = elim (Option-cases (digest_at t i xs)) [
    | inl fresh ↦ rw fresh (digest_at-put_ref t i xs ys h ∙ rw fresh)
    | inr (d, old) ↦ ground (
      arith,
      digest_at-put_ref t i xs ys h,
      eq_iff r.artifact_type t,
      eq_iff r.artifact_id i,
      Agrees-put_ref xs ys h d,
    )
  ]

digest_at-append :
    (t i : String) (xs ys : List ArtifactRef)
    → digest_at t i (xs ++ ys) ≡ or_else (digest_at t i xs) (digest_at t i ys)
digest_at-append t i [] ys = refl
digest_at-append t i (x ∷ xs) ys = ground (arith, digest_at-append t i xs ys)

digest_at-merge_refs_from :
    (t i : String) (acc rs m : List ArtifactRef)
    → merge_refs_from acc rs ≡ ok m
    → digest_at t i m ≡ or_else (digest_at t i acc) (digest_at t i rs)
unfolding merge_refs_from
digest_at-merge_refs_from t i acc [] m h = ground arith
digest_at-merge_refs_from t i acc (r ∷ rs) m h =
    let (ys, e, f) = bind_result-eq_ok (put_ref r acc) (λ a. merge_refs_from a rs) h in
    ground (arith, digest_at-merge_refs_from t i ys rs m f, digest_at-step r t i acc ys e)

-- Sorting by the keys changes no lookup.
digest_at-sorted_insert :
    (t i : String) (r : ArtifactRef) (xs : List ArtifactRef)
    → digest_at t i (sorted_insert ref_le r xs) ≡ digest_at t i (r ∷ xs)
unfolding sorted_insert ref_le
digest_at-sorted_insert t i r [] = refl
digest_at-sorted_insert t i r (x ∷ xs) = ground (
  arith,
  digest_at-sorted_insert t i r xs,
  eq_iff x.artifact_type t,
  eq_iff x.artifact_id i,
  eq_iff r.artifact_type t,
  eq_iff r.artifact_id i,
  eq_iff r.artifact_type x.artifact_type,
  text_le_refl i,
)

digest_at-sorted :
    (t i : String) (xs : List ArtifactRef) → digest_at t i (sorted ref_le xs) ≡ digest_at t i xs
unfolding sorted
digest_at-sorted t i [] = refl
digest_at-sorted t i (x ∷ xs) =
    digest_at-sorted_insert t i x (sorted ref_le xs) ∙ rw (digest_at-sorted t i xs)

-- Every reference is the one that a lookup of its key finds, up to its location.
abbrev pub IsConsistent : List ArtifactRef → List ArtifactRef → Type 0
IsConsistent refs whole =
    All (λ r. digest_at r.artifact_type r.artifact_id whole ≡ some r.content_digest) refs

digest_at_self :
    (r : ArtifactRef) (xs : List ArtifactRef)
    → digest_at r.artifact_type r.artifact_id (r ∷ xs) ≡ some r.content_digest
digest_at_self r xs = rw (eq_refl r.artifact_type) (rw (eq_refl r.artifact_id))

IsConsistent-of_merged :
    (acc rs m : List ArtifactRef) → merge_refs_from acc rs ≡ ok m → IsConsistent rs m
unfolding merge_refs_from
IsConsistent-of_merged acc [] m h = tt
IsConsistent-of_merged acc (r ∷ rs) m h =
    let (ys, e, f) = bind_result-eq_ok (put_ref r acc) (λ a. merge_refs_from a rs) h in
    (
      digest_at-merge_refs_from r.artifact_type r.artifact_id ys rs m f
          ∙ rw (digest_at-put_ref r r.artifact_type r.artifact_id acc ys e)
              (rw (eq_refl r.artifact_type) (rw (eq_refl r.artifact_id))),
      IsConsistent-of_merged ys rs m f,
    )

merge_refs_from_total :
    (acc rs : List ArtifactRef)
    → All
        (λ q.
          or_else
            (digest_at q.artifact_type q.artifact_id acc)
            (digest_at q.artifact_type q.artifact_id rs)
          ≡ some q.content_digest)
        rs
    → (m : List ArtifactRef) × (merge_refs_from acc rs ≡ ok m)
unfolding merge_refs_from
merge_refs_from_total acc [] h = (acc, refl)
merge_refs_from_total acc (r ∷ rs) h =
    let (ys, e) = put_ref_total r acc (λ d g. ground (arith, h.0)) in
    let (m, f) = merge_refs_from_total ys rs (
      All-map _ _ rs
        (λ q g. ground (arith, g, digest_at-step r q.artifact_type q.artifact_id acc ys e)) h.1) in
    (m, rw e f)

-- For every pair of reference lists whose merge succeeds with `m`, and every key, a lookup in `m`
-- finds the digest that a lookup in the left list followed by the right list finds, and each
-- reference of either list is found in `m` under its own key with its own digest.
pub merge_artifact_refs-keeps :
    (left right m : List ArtifactRef)
    → merge_artifact_refs left right ≡ ok m
    → ((t i : String) → digest_at t i m ≡ or_else (digest_at t i left) (digest_at t i right))
      × IsConsistent left m
      × IsConsistent right m
unfolding merge_artifact_refs
merge_artifact_refs-keeps left right m h =
    let (u, e, f) =
      bind_result-eq_ok (merge_refs_from [] (left ++ right)) (λ u. ok (sorted ref_le u)) h in
    let same : (t i : String) → digest_at t i m ≡ digest_at t i u =
      λ t i. ground (arith, digest_at-sorted t i u) in
    let kept : IsConsistent (left ++ right) m =
      All-map _ _ (left ++ right) (λ q g. same q.artifact_type q.artifact_id ∙ g)
        (IsConsistent-of_merged [] (left ++ right) u e) in
    (
      (λ t i.
          same t i
          ∙ digest_at-merge_refs_from t i [] (left ++ right) u e
          ∙ digest_at-append t i left right),
      All-append_left _ left right kept,
      All-append_right _ left right kept,
    )

-- The merge of two reference lists succeeds exactly when no two references of the lists have the
-- same type and id and different digests.
pub merge_artifact_refs-succeeds_iff :
    (left right : List ArtifactRef)
    → ((m : List ArtifactRef) × (merge_artifact_refs left right ≡ ok m))
      ↔ IsConsistent (left ++ right) (left ++ right)
unfolding merge_artifact_refs
merge_artifact_refs-succeeds_iff left right = (
  (λ w.
      let (u, e, f) =
        bind_result-eq_ok (merge_refs_from [] (left ++ right)) (λ u. ok (sorted ref_le u)) w.1 in
      All-map _ _ (left ++ right)
        (λ q g.
          sym (digest_at-merge_refs_from q.artifact_type q.artifact_id [] (left ++ right) u e) ∙ g)
        (IsConsistent-of_merged [] (left ++ right) u e)),
  (λ c. let (u, e) = merge_refs_from_total [] (left ++ right) c in (sorted ref_le u, rw e)),
)

-- What a lookup finds in a list of consistent references is what it finds in the whole.
digest_at-consistent :
    (t i d : String) (xs whole : List ArtifactRef)
    → IsConsistent xs whole
    → digest_at t i xs ≡ some d
    → digest_at t i whole ≡ some d
digest_at-consistent t i d [] whole c h = cc
digest_at-consistent t i d (x ∷ xs) whole c h = ground (
  arith,
  c.0,
  eq_iff x.artifact_type t,
  eq_iff x.artifact_id i,
  digest_at-consistent t i d xs whole c.1,
)

module _ (left right m : List ArtifactRef) (merged : merge_artifact_refs left right ≡ ok m) where
  found_either_way :
      (t i : String) → digest_at t i m ≡ or_else (digest_at t i right) (digest_at t i left)
  found_either_way t i =
      let kept = merge_artifact_refs-keeps left right m merged in
      elim (Option-cases (digest_at t i right)) [
        | inl e ↦ ground (arith, kept.0 t i)
        | inr (d, e) ↦ rw e (digest_at-consistent t i d right m kept.2 e)
      ]

  swapped_agrees : (xs : List ArtifactRef) → IsConsistent xs m → IsConsistent xs (right ++ left)
  swapped_agrees xs c =
      All-map _ _ xs
        (λ q g.
          digest_at-append q.artifact_type q.artifact_id right left
          ∙ sym (found_either_way q.artifact_type q.artifact_id)
          ∙ g)
        c

  -- The order in which two parallel branches are merged does not matter: if one order succeeds
  -- then so does the other, and every key has the same digest in both results.
  pub merge_artifact_refs_comm :
      (m' : List ArtifactRef) × (merge_artifact_refs right left ≡ ok m')
      × ((t i : String) → digest_at t i m' ≡ digest_at t i m)
  merge_artifact_refs_comm =
      let kept = merge_artifact_refs-keeps left right m merged in
      let swapped : IsConsistent (right ++ left) (right ++ left) =
        All-append _ right left (swapped_agrees right kept.2) (swapped_agrees left kept.1) in
      let (m', e) = (merge_artifact_refs-succeeds_iff right left).1 swapped in
      (
        m',
        e,
        (λ t i. (merge_artifact_refs-keeps right left m' e).0 t i ∙ sym (found_either_way t i)),
      )
