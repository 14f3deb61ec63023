-- ===== src/S06/Approve/Laws.antt =====
-- The approval of S06.90 (application/s06_handlers.py) and the commands of application/resume.py.
use agent_code_optimize_plug.Prelude.{Option, none, some, ◌≡◌, refl}
use agent_code_optimize_plug.Contracts.Refs.{ResumeInterruptCommand}
use agent_code_optimize_plug.Contracts.Decide.{Outcome, keep, fix_one_part, revert, escalate}
use agent_code_optimize_plug.State.{OptimizationState}
use agent_code_optimize_plug.Ports.Policy.{PolicyPort}
use agent_code_optimize_plug.Ports.Artifacts.{ArtifactStore}
use agent_code_optimize_plug.S06.Shared.{Outside}
use agent_code_optimize_plug.S06.Approve.{s06_90, s06_90_for, s06_90_keep, s06_90_approval}

module _ {S : Type 0} (env : Outside S) (store : ArtifactStore S) where
  keep-any_policy :
      (state : OptimizationState) (command : ResumeInterruptCommand) (p q : PolicyPort) (s : S)
      → state.resume_command ≡ some command
      → s06_90_keep env store (some p) state s ≡ s06_90_keep env store (some q) state s
  unfolding s06_90_keep s06_90_approval
  keep-any_policy state command p q s given = simp given

  decided-any_policy :
      (o : Option Outcome) (state : OptimizationState) (command : ResumeInterruptCommand)
      (p q : PolicyPort) (s : S)
      → state.resume_command ≡ some command
      → s06_90_for env store o (some p) state s ≡ s06_90_for env store o (some q) state s
  unfolding s06_90_for
  decided-any_policy (some keep) state command p q s given =
      keep-any_policy state command p q s given
  decided-any_policy none state command p q s given = refl
  decided-any_policy (some fix_one_part) state command p q s given = refl
  decided-any_policy (some revert) state command p q s given = refl
  decided-any_policy (some escalate) state command p q s given = refl

  -- Where the state has a resume command, whichever interrupt that command answered, S06.90 does the
  -- same under every policy.
  pub s06_90-any_policy :
      (state : OptimizationState) (command : ResumeInterruptCommand) (p q : PolicyPort) (s : S)
      → state.resume_command ≡ some command
      → s06_90 env store (some p) state s ≡ s06_90 env store (some q) state s
  unfolding s06_90
  s06_90-any_policy state = decided-any_policy state.s06_decision state
