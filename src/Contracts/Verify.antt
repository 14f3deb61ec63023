-- ===== src/Contracts/Verify.antt =====
-- The models of S04 and S05 (contracts/s04.py, contracts/s05.py).
use agent_code_optimize_plug.Prelude.{ℕ, String, Bool, List}
use agent_code_optimize_plug.Contracts.Request.{Float}

-- A process exit code: `negative n` is -(n + 1).
pub data ExitCode : Type 0 where
  exit : ℕ → ExitCode
  negative : ℕ → ExitCode

pub record CheckResult : Type 0 where
  pub command_id : String
  pub kind : String
  pub exit_code : ExitCode
  pub passed : Bool
  pub output_tail : String

pub data FailureClass : Type 0 where
  patch_regression baseline_existing_failure : FailureClass

pub record FailureAttribution : Type 0 where
  pub check_kind : String
  pub classification : FailureClass

pub record VerificationReport : Type 0 where
  pub patch_digest : String
  pub execution_provenance_digest : String
  pub phase_id : String
  pub check_results : List CheckResult
  pub failure_attributions : List FailureAttribution
  pub passed : Bool

-- `s04_manifest`; a key that is not set yet is `none`.
pub record VerificationManifest : Type 0 where
  pub plan_digest : String
  pub patch_digest : String
  pub workspace_ok : Bool
  pub resolved_kinds : List String
  pub touched_existing_test_files : List String
  pub gate_passed : Bool

pub record EffectResult : Type 0 where
  pub criterion_id : String
  pub metric_id : String
  pub treatment_mean : Float

pub record StatisticalReport : Type 0 where
  pub effects : List EffectResult
