-- ===== src/S06/Record.antt =====
-- The handlers of the nodes S06.60 to S06.80 (application/s06_handlers.py): the verified rollback, its
-- gate, and the sealed decision.
use agent_code_optimize_plug.Prelude.{
  ◌+◌, String, Bool, true, false, Option, none, some, List, [], ◌∷◌, ◌==◌, if◌then◌else◌, length,
  or_default, sorted, distinct,
}
use agent_code_optimize_plug.Prelude.Text.{decimal, ◌^^◌, text_le}
use agent_code_optimize_plug.Contracts.Errors.{
  Result, ok, Exec, or_raise, invalid_model, ◌>>=◌, pure, lift, bind_result,
}
use agent_code_optimize_plug.Contracts.Plan.{SourceSnapshot}
use agent_code_optimize_plug.Contracts.Decide.{Outcome, fix_one_part, revert, escalate}
use agent_code_optimize_plug.Contracts.Artifact.{rollback_report, decision}
use agent_code_optimize_plug.State.{OptimizationState, Update}
use agent_code_optimize_plug.Ports.Artifacts.{ArtifactStore}
use agent_code_optimize_plug.Runtime.Nodes.{NodeExecution, go_on}
use agent_code_optimize_plug.S06.Shared.{
  Outside, active_phase_id, s04_report_stage, s05_measurement_stage, s03_patch_stage, s06_stage,
  require_stage_ref, read_model, read_required, seal, put_envelope, git, as_snapshot, as_selected,
}
use agent_code_optimize_plug.S06.Decide.{gate_revert}
use agent_code_optimize_plug.S06.Apply.{policy_version}

-- `sorted(set(excluded) | {strategy_id})`
abbrev pub with_excluded : String → List String → List String
with_excluded strategy_id excluded = sorted text_le (distinct (strategy_id ∷ excluded))

module _ {S : Type 0} (env : Outside S) (store : ArtifactStore S) where
  -- whether the original tree is as it was: a clean `git status`, or isolation by a copy
  unfoldable pub original_untouched : SourceSnapshot → S → Bool × S
  unfolding git
  original_untouched snapshot s =
      if or_default snapshot.git_revision "" == ""
      then (true, s)
      else (let (status, s') =
            git env store snapshot.canonical_path_ref ("status" ∷ "--porcelain" ∷ []) s in
          (or_default status "?" == "", s'))

  verify_rollback : OptimizationState → Exec S NodeExecution
  unfolding read_required require_stage_ref s03_patch_stage original_untouched active_phase_id seal
      put_envelope
  verify_rollback state = read_required env store as_snapshot state "SourceSnapshot" >>= λ snapshot.
      (lift (require_stage_ref state (s03_patch_stage state) "PatchArtifact") >>= λ patch_ref. λ s.
        (let (untouched, s1) = original_untouched snapshot s in
          (lift (active_phase_id state) >>= λ phase_id.
          (lift (
              seal env store state "S06.60" "RollbackReport" (
                rollback_report (record {
                  phase_id = phase_id;
                  patch_digest = patch_ref.content_digest;
                  original_untouched = untouched;
                })))
            >>= λ report.
                (put_envelope env store "S06.60" report >>= λ ref. pure (
                  go_on (
                    Update.artifact_refs (ref ∷ [])
                    ∷ Update.s06_rollback (record { attempted = true; verified = untouched })
                    ∷ [])))))
            s1))

  unfoldable pub s06_60_for : Option Outcome → OptimizationState → Exec S NodeExecution
  unfolding verify_rollback
  s06_60_for (some revert) state = verify_rollback state
  s06_60_for _ state =
      pure (go_on (Update.s06_rollback (record { attempted = false; verified = true }) ∷ []))

  unfoldable pub s06_60 : OptimizationState → Exec S NodeExecution
  unfolding s06_60_for
  s06_60 state = s06_60_for state.s06_decision state

  -- an empty decision stays empty
  decision_update : Option Outcome → List Update
  decision_update none = []
  decision_update (some outcome) = Update.s06_decision outcome ∷ []

  unfoldable pub s06_70 : OptimizationState → Exec S NodeExecution
  unfolding gate_revert decision_update
  s06_70 state = pure (go_on (decision_update (gate_revert state.s06_decision state.s06_rollback)))

  rollback_digest : Outcome → OptimizationState → Result (Option String)
  unfolding require_stage_ref s06_stage
  rollback_digest revert state =
      bind_result (require_stage_ref state (s06_stage "S06.60" state) "RollbackReport")
        λ ref. ok (some ref.content_digest)
  rollback_digest _ state = ok none

  -- the updates of S06.80 that only some outcomes have
  unfoldable pub loop_updates : Outcome → OptimizationState → Exec S (List Update)
  unfolding require_stage_ref read_model
  loop_updates fix_one_part state =
      pure (Update.s03_revision_attempts (state.s03_revision_attempts + 1) ∷ [])
  loop_updates revert state =
      lift (
        require_stage_ref state
          (ok ("S01.90-pass" ^^ decimal (length state.s01_excluded_strategy_ids)))
          "SelectedSolution")
      >>= λ ref.
          (read_model env store as_selected state ref >>= λ selected. pure (
            Update.s01_excluded_strategy_ids
              (with_excluded selected.strategy_id state.s01_excluded_strategy_ids)
            ∷ []))
  loop_updates _ state = pure []

  unfoldable pub s06_80 : OptimizationState → Exec S NodeExecution
  unfolding active_phase_id require_stage_ref s04_report_stage s05_measurement_stage rollback_digest
      seal put_envelope loop_updates
  s06_80 state =
      let outcome = or_default state.s06_decision escalate in
      lift (active_phase_id state) >>= λ phase_id.
      (lift (require_stage_ref state (s04_report_stage state) "VerificationReport")
        >>= λ verification_ref.
            (lift (require_stage_ref state (s05_measurement_stage state) "Measurement")
              >>= λ measurement_ref.
                  (lift (or_raise state.s06_attribution (invalid_model "PhaseAttribution"))
                    >>= λ attribution.
                        (lift (rollback_digest outcome state) >>= λ rollback.
                        (lift (
                            seal env store state "S06.80" "Decision" (
                              decision (record {
                                phase_id = phase_id;
                                measurement_digest = measurement_ref.content_digest;
                                verification_digest = verification_ref.content_digest;
                                target_evaluations = state.s06_target_evaluations;
                                guardrail_evaluations = state.s06_guardrail_evaluations;
                                attribution = attribution;
                                outcome = outcome;
                                rollback_report_digest = rollback;
                                policy_version = policy_version;
                              })))
                          >>= λ sealed.
                              (put_envelope env store "S06.80" sealed >>= λ ref.
                              (loop_updates outcome state >>= λ more. pure (
                                go_on (
                                  Update.artifact_refs (ref ∷ [])
                                  ∷ Update.s06_decision outcome
                                  ∷ more)))))))))
