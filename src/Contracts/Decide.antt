-- ===== src/Contracts/Decide.antt =====
-- The models of S06 (contracts/s06.py).
use agent_code_optimize_plug.Prelude.{String, Bool, List, Option}
use agent_code_optimize_plug.Contracts.Request.{Float, Direction}

pub record TargetEvaluation : Type 0 where
  pub criterion_id : String
  pub metric_id : String
  pub direction : Direction
  pub target_value : Float
  pub treatment_value : Float
  pub met : Bool

pub data EvidenceSource : Type 0 where
  verification_check statistical_effect unavailable : EvidenceSource

pub record GuardrailEvaluation : Type 0 where
  pub guardrail_id : String
  pub metric_id : String
  pub evidence_source : EvidenceSource
  pub observed_value : Option Float
  pub passed : Bool

pub data Classification : Type 0 where
  all_targets_met repairable wrong_direction no_evidence : Classification

pub record PhaseAttribution : Type 0 where
  pub phase_id : String
  pub classification : Classification

pub data Outcome : Type 0 where
  keep fix_one_part revert escalate : Outcome

-- `s06_intake`
pub record Intake : Type 0 where
  pub verification_digest : String
  pub measurement_digest : String
  pub complete : Bool

-- `s06_rollback`
pub record RollbackState : Type 0 where
  pub attempted : Bool
  pub verified : Bool

-- `s06_apply`
pub record ApplyState : Type 0 where
  pub applied : Bool
  pub attempted : Bool

pub record RollbackReport : Type 0 where
  pub phase_id : String
  pub patch_digest : String
  pub original_untouched : Bool

pub record Decision : Type 0 where
  pub phase_id : String
  pub measurement_digest : String
  pub verification_digest : String
  pub target_evaluations : List TargetEvaluation
  pub guardrail_evaluations : List GuardrailEvaluation
  pub attribution : PhaseAttribution
  pub outcome : Outcome
  pub rollback_report_digest : Option String
  pub policy_version : String

pub record RepositoryApplyResult : Type 0 where
  pub phase_id : String
  pub patch_digest : String
  pub applied : Bool
  pub branch_name : Option String
  pub commit_sha : Option String
  pub base_revision : String
  pub failure_reason : Option String
  pub approval_decision : String
  pub approval_actor_id : Option String
  pub policy_version : String
