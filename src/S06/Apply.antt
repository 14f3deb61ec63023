-- ===== src/S06/Apply.antt =====
-- `_apply_patch_to_real_repo` and `_seal_apply_result` of application/s06_handlers.py.
pub mod Laws
use agent_code_optimize_plug.Prelude.{
  ℕ, String, Bool, true, false, Option, none, some, List, [], ◌∷◌, ◌++◌, ◌&&◌, not, ◌==◌,
  if◌then◌else◌, is_some,
}
use agent_code_optimize_plug.Prelude.Text.{◌^^◌}
use agent_code_optimize_plug.Contracts.Refs.{ArtifactRef}
use agent_code_optimize_plug.Contracts.Errors.{
  Result, ok, err, Exec, invalid_model, continue, ◌>>=◌, pure, lift,
}
use agent_code_optimize_plug.Contracts.Plan.{PatchArtifact, SourceSnapshot}
use agent_code_optimize_plug.Contracts.Decide.{RepositoryApplyResult, ApplyState}
use agent_code_optimize_plug.Contracts.Artifact.{Content, repository_apply_result}
use agent_code_optimize_plug.State.{OptimizationState, Update}
use agent_code_optimize_plug.Ports.Artifacts.{ArtifactStore}
use agent_code_optimize_plug.Runtime.Nodes.{NodeRoute, NodeExecution}
use agent_code_optimize_plug.S06.Shared.{Outside, git, seal, put_envelope, required_state_str}

abbrev pub policy_version : String
policy_version = "s06-decision-v1"

-- What an attempt hands to `_seal_apply_result`: the arguments that differ between its calls.
pub record ApplyReport : Type 0 where
  pub applied : Bool
  pub branch_name : Option String
  pub commit_sha : Option String
  pub failure_reason : Option String

abbrev pub failed : String → ApplyReport
failed reason = record {
  applied = false;
  branch_name = none;
  commit_sha = none;
  failure_reason = some reason;
}

-- `applied_requires_commit_identity` (contracts/s06.py)
unfoldable pub has_commit_identity : RepositoryApplyResult → Bool
has_commit_identity r =
    if r.applied then is_some r.branch_name && is_some r.commit_sha else is_some r.failure_reason

unfoldable pub validate_apply_result : RepositoryApplyResult → Result RepositoryApplyResult
unfolding has_commit_identity
validate_apply_result r =
    if has_commit_identity r then ok r else err (invalid_model "RepositoryApplyResult")

-- The patch to apply, with the approval under which that is done.
pub record Approved : Type 0 where
  pub patch : PatchArtifact
  pub patch_ref : ArtifactRef
  pub phase_id : String
  pub approval_decision : String
  pub approval_actor_id : Option String

unfoldable pub apply_result : Approved → ApplyReport → RepositoryApplyResult
apply_result a report = record {
  phase_id = a.phase_id;
  patch_digest = a.patch_ref.content_digest;
  applied = report.applied;
  branch_name = report.branch_name;
  commit_sha = report.commit_sha;
  base_revision = a.patch.base_revision;
  failure_reason = report.failure_reason;
  approval_decision = a.approval_decision;
  approval_actor_id = a.approval_actor_id;
  policy_version = policy_version;
}

-- a command of the attempt: its failure ends the attempt with a report
unfoldable pub or_fail :
    {S : Type 0} → String → (String → S → ApplyReport × S) → Option String × S → ApplyReport × S
or_fail reason next (none, s) = (failed reason, s)
or_fail reason next (some out, s) = next out s

-- `", ".join(xs)`
abbrev joined : List String → String
joined [] = ""
joined (x ∷ []) = x
joined (x ∷ y ∷ ys) = x ^^ (", " ^^ joined (y ∷ ys))

unfoldable pub commit_message : String → Approved → String
commit_message case_id a =
    "optimizer: apply "
    ^^ (a.phase_id
        ^^ (" ("
            ^^ (case_id
                ^^ (")\n\ntask_ids: "
                    ^^ (joined a.patch.task_ids
                        ^^ ("\nbase_revision: "
                            ^^ (a.patch.base_revision
                                ^^ ("\npatch_digest: " ^^ a.patch_ref.content_digest))))))))

unfoldable pub is_head : String → Option String → Bool
is_head base none = false
is_head base (some head) = head == base

module _ {S : Type 0} (env : Outside S) (store : ArtifactStore S) where
  unfoldable pub seal_apply_result :
      OptimizationState → Approved → ApplyReport → Exec S NodeExecution
  unfolding validate_apply_result apply_result seal put_envelope
  seal_apply_result state a report =
      lift (validate_apply_result (apply_result a report)) >>= λ result.
      (lift (seal env store state "S06.90" "RepositoryApplyResult" (repository_apply_result result))
        >>= λ artifact.
            (put_envelope env store "S06.90" artifact >>= λ ref. pure (record {
              route = NodeRoute.continue;
              updates =
                  Update.artifact_refs (ref ∷ [])
                  ∷ Update.s06_apply (record { applied = report.applied; attempted = true })
                  ∷ [];
            })))

  unfoldable pub diff_text : PatchArtifact → String
  diff_text patch = if env.ends_with_newline patch.diff then patch.diff else patch.diff ^^ "\n"

  -- the body of the `try` after the worktree was added
  unfoldable pub commit_patch : String → String → String → String → Approved → S → ApplyReport × S
  unfolding or_fail git commit_message diff_text
  commit_patch case_id branch_name worktree_dir patch_file a s =
      let override = "-c" ∷ "core.autocrlf=true" ∷ [] in
      or_fail "git apply --check failed; diff no longer applies cleanly"
        (λ _ s1.
          or_fail "git apply failed after a successful --check"
            (λ _ s2.
              or_fail "git add of changed_files failed"
                (λ _ s3.
                  or_fail "git commit failed"
                    (λ _ s4.
                      or_fail "commit succeeded but rev-parse HEAD failed"
                        (λ commit_sha s5. (
                          record {
                            applied = true;
                            branch_name = some branch_name;
                            commit_sha = some commit_sha;
                            failure_reason = none;
                          },
                          s5,
                        ))
                        (git env store worktree_dir ("rev-parse" ∷ "HEAD" ∷ []) s4))
                    (git env store worktree_dir ("commit" ∷ "-m" ∷ commit_message case_id a ∷ [])
                      s3))
                (git env store worktree_dir ("add" ∷ a.patch.changed_files) s2))
            (git env store worktree_dir (override ++ ("apply" ∷ patch_file ∷ [])) s1))
        (git env store worktree_dir (override ++ ("apply" ∷ "--check" ∷ patch_file ∷ []))
          (env.write_text patch_file (diff_text a.patch) s))

  unfoldable pub attempt : String → String → String → String → Approved → S → ApplyReport × S
  unfolding or_fail git commit_patch
  attempt real_root case_id branch_name tmp_root a s =
      let worktree_dir = tmp_root ^^ "/worktree" in
      or_fail "git worktree add -b failed"
        (λ _ s1. commit_patch case_id branch_name worktree_dir (tmp_root ^^ "/change.patch") a s1)
        (git env store real_root
          ("worktree" ∷ "add" ∷ "-b" ∷ branch_name ∷ worktree_dir ∷ a.patch.base_revision ∷ []) s)

  delete_branch : Bool → String → String → S → S
  unfolding git
  delete_branch true real_root branch_name s = s
  delete_branch false real_root branch_name s =
      (git env store real_root ("branch" ∷ "-D" ∷ branch_name ∷ []) s).1

  -- the `finally` block
  unfoldable pub clean_up : Bool → String → String → String → S → S
  unfolding git delete_branch
  clean_up succeeded real_root branch_name tmp_root s =
      let removed =
        (git env store real_root
          ("worktree" ∷ "remove" ∷ "--force" ∷ (tmp_root ^^ "/worktree") ∷ []) s).1 in
      env.rmtree tmp_root (delete_branch succeeded real_root branch_name removed)

  -- the attempt in a worktree of its own, sealed before the `finally` block runs
  unfoldable pub apply_in_worktree :
      OptimizationState → String → String → Approved → Exec S NodeExecution
  unfolding attempt seal_apply_result clean_up
  apply_in_worktree state real_root case_id a s =
      let branch_name = "optimizer/" ^^ (case_id ^^ ("-" ^^ a.phase_id)) in
      let (tmp_root, s1) = env.mkdtemp "s06-apply-" s in
      let (report, s2) = attempt real_root case_id branch_name tmp_root a s1 in
      let (sealed, s3) = seal_apply_result state a report s2 in
      (sealed, clean_up report.applied real_root branch_name tmp_root s3)

  -- on the answer to the query of the head; `phase_id` is the patch's own
  unfoldable pub apply_at_head :
      OptimizationState → SourceSnapshot → Approved → Option String × S → Result NodeExecution × S
  unfolding is_head seal_apply_result apply_in_worktree
  apply_at_head state snapshot a (current_head, s) =
      (if is_head a.patch.base_revision current_head
          then (lift (required_state_str "case_id" state.case_id) >>= λ case_id.
              apply_in_worktree state snapshot.canonical_path_ref case_id a)
          else seal_apply_result state a (
              failed
                "real repository HEAD no longer matches base_revision; refusing to apply a stale patch"))
        s

  unfoldable pub apply_patch_to_real_repo :
      OptimizationState → SourceSnapshot → Approved → Exec S NodeExecution
  unfolding git apply_at_head
  apply_patch_to_real_repo state snapshot a s =
      apply_at_head state snapshot a
        (git env store snapshot.canonical_path_ref ("rev-parse" ∷ "HEAD" ∷ []) s)
