-- ===== src/S06/Apply/Laws.antt =====
-- What an attempt to apply a patch reports (application/s06_handlers.py, contracts/s06.py).
use agent_code_optimize_plug.Prelude.{
  String, true, false, Option, none, some, [], ◌∷◌, ◌≡◌, ◌≢◌, refl, ap, ◌∙◌, eq_iff, arith,
}
use agent_code_optimize_plug.Contracts.Errors.{ok}
use agent_code_optimize_plug.Contracts.Plan.{SourceSnapshot}
use agent_code_optimize_plug.State.{OptimizationState}
use agent_code_optimize_plug.Ports.Artifacts.{ArtifactStore}
use agent_code_optimize_plug.S06.Shared.{Outside, git}
use agent_code_optimize_plug.S06.Apply.{
  ApplyReport, failed, Approved, has_commit_identity, validate_apply_result, apply_result, or_fail,
  commit_patch, attempt, is_head, apply_at_head, apply_patch_to_real_repo, seal_apply_result,
}

-- the report is one that the model's validator accepts
unfoldable IsSealable : ApplyReport → Type 0
IsSealable report = (a : Approved) → has_commit_identity (apply_result a report) ≡ true

unfoldable EndsSealable : {S : Type 0} → ApplyReport × S → Type 0
EndsSealable end = IsSealable end.0

failed-IsSealable : (reason : String) → IsSealable (failed reason)
unfolding IsSealable has_commit_identity apply_result
failed-IsSealable reason a = refl

committed-IsSealable :
    (branch_name commit_sha : String)
    → IsSealable (record {
      applied = true;
      branch_name = some branch_name;
      commit_sha = some commit_sha;
      failure_reason = none;
    })
unfolding IsSealable has_commit_identity apply_result
committed-IsSealable branch_name commit_sha a = refl

committed :
    {S : Type 0} (branch_name commit_sha : String) (s : S)
    → EndsSealable (
      record {
        applied = true;
        branch_name = some branch_name;
        commit_sha = some commit_sha;
        failure_reason = none;
      },
      s,
    )
unfolding EndsSealable
committed branch_name commit_sha s = committed-IsSealable branch_name commit_sha

not_head : (base : String) (head : Option String) → head ≢ some base → is_head base head ≡ false
unfolding is_head
not_head base none ne = refl
not_head base (some h) ne = ground (arith, eq_iff h base, (λ (e : h ≡ base). ne (ap some e)))

module _ {S : Type 0} (env : Outside S) (store : ArtifactStore S) where
  -- a step whose continuation is sealable is sealable
  or_fail-IsSealable :
      (reason : String) (next : String → S → ApplyReport × S) (result : Option String × S)
      → ((out : String) (s : S) → EndsSealable (next out s))
      → EndsSealable (or_fail reason next result)
  unfolding or_fail EndsSealable
  or_fail-IsSealable reason next (none, s) h = failed-IsSealable reason
  or_fail-IsSealable reason next (some out, s) h = h out s

  commit_patch-IsSealable :
      (case_id branch_name worktree_dir patch_file : String) (a : Approved) (s : S)
      → EndsSealable (commit_patch env store case_id branch_name worktree_dir patch_file a s)
  unfolding commit_patch EndsSealable IsSealable has_commit_identity apply_result
  commit_patch-IsSealable case_id branch_name worktree_dir patch_file a s =
      search (or_fail-IsSealable, committed)

  attempt-IsSealable :
      (real_root case_id branch_name tmp_root : String) (a : Approved) (s : S)
      → EndsSealable (attempt env store real_root case_id branch_name tmp_root a s)
  unfolding attempt EndsSealable
  attempt-IsSealable real_root case_id branch_name tmp_root a s =
      search (or_fail-IsSealable, commit_patch-IsSealable)

  -- Whatever git, the file system and the patch do: the attempt ends with a report that the model's
  -- validator accepts, an applied one with its branch and commit, any other with its reason.
  attempt-valid :
      (real_root case_id branch_name tmp_root : String) (a b : Approved) (s : S)
      → validate_apply_result
          (apply_result b (attempt env store real_root case_id branch_name tmp_root a s).0)
        ≡ ok (apply_result b (attempt env store real_root case_id branch_name tmp_root a s).0)
  unfolding EndsSealable IsSealable validate_apply_result
  attempt-valid real_root case_id branch_name tmp_root a b s =
      rw (attempt-IsSealable real_root case_id branch_name tmp_root a s b)

  -- Where the head of the repository is not the patch's base, nothing but the query of the head is
  -- done to the repository: the refusal is sealed on the state that the query left.
  apply-drift :
      (state : OptimizationState) (snapshot : SourceSnapshot) (a : Approved) (head : Option String)
      (s s1 : S)
      → git env store snapshot.canonical_path_ref ("rev-parse" ∷ "HEAD" ∷ []) s ≡ (head, s1)
      → head ≢ some a.patch.base_revision
      → apply_patch_to_real_repo env store state snapshot a s
        ≡ seal_apply_result env store state a
            (failed
              "real repository HEAD no longer matches base_revision; refusing to apply a stale patch")
            s1
  unfolding apply_patch_to_real_repo apply_at_head
  apply-drift state snapshot a head s s1 queried drifted =
      ap (apply_at_head env store state snapshot a) queried
      ∙ rw (not_head a.patch.base_revision head drifted)
