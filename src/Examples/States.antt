-- ===== src/Examples/States.antt =====
-- Merges of contracts/state.py.
use agent_code_optimize_plug.Prelude.{String, List, [], ◌∷◌, ◌++◌, ◌≡◌, refl, ◌↔◌, sorted}
use agent_code_optimize_plug.Prelude.Text.{text_le}
use agent_code_optimize_plug.Contracts.Refs.{ArtifactRef}
use agent_code_optimize_plug.Contracts.Errors.{ok}
use agent_code_optimize_plug.State.{merge_artifact_refs, merge_refs_from, put_ref, same_key, ref_le}
use agent_code_optimize_plug.State.Refs.{
  digest_at, IsConsistent, merge_artifact_refs-succeeds_iff, merge_artifact_refs_comm,
}
use agent_code_optimize_plug.Examples.Base.{report_ref, patch_ref}

-- two branches that sealed the same report, one of them a patch besides
abbrev left_refs : List ArtifactRef
left_refs = report_ref "d1" ∷ []

abbrev right_refs : List ArtifactRef
right_refs = report_ref "d1" ∷ patch_ref ∷ []

abbrev merged_refs : List ArtifactRef
merged_refs = patch_ref ∷ report_ref "d1" ∷ []

merged_branches : merge_artifact_refs left_refs right_refs ≡ ok merged_refs
unfolding merge_artifact_refs merge_refs_from put_ref same_key sorted ref_le text_le
merged_branches = refl

merge_artifact_refs-succeeds_iff_example :
    ((m : List ArtifactRef) × (merge_artifact_refs left_refs (report_ref "d2" ∷ []) ≡ ok m))
    ↔ IsConsistent (left_refs ++ (report_ref "d2" ∷ [])) (left_refs ++ (report_ref "d2" ∷ []))
merge_artifact_refs-succeeds_iff_example =
    merge_artifact_refs-succeeds_iff left_refs (report_ref "d2" ∷ [])

merge_artifact_refs_comm_example :
    (m' : List ArtifactRef) × (merge_artifact_refs right_refs left_refs ≡ ok m')
    × ((t i : String) → digest_at t i m' ≡ digest_at t i merged_refs)
merge_artifact_refs_comm_example =
    merge_artifact_refs_comm left_refs right_refs merged_refs merged_branches
