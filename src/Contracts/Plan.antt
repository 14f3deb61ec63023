-- ===== src/Contracts/Plan.antt =====
-- The plan and the patch (contracts/s02.py, contracts/s03.py) and the source snapshot and manifest
-- (contracts/a2.py), with the fields that S02, S04 and S06 use.
use agent_code_optimize_plug.Prelude.{ℕ, String, Bool, List, Option}
use agent_code_optimize_plug.Prelude.Dict.{Dict}
use agent_code_optimize_plug.Contracts.Request.{Float}
use agent_code_optimize_plug.Contracts.Strategy.{RiskTier}

pub record PlanTask : Type 0 where
  pub task_id : String
  pub phase_id : String
  pub files : List String
  pub depends_on : List String
  pub proposed_creation : Bool

pub data PhaseKind : Type 0 where
  diagnostic implementation : PhaseKind

pub record ExecutionPhase : Type 0 where
  pub phase_id : String
  pub sequence : ℕ
  pub phase_kind : PhaseKind
  -- `treatment.variable`
  pub treatment_variable : String
  pub risk_tier : RiskTier
  pub rollback_command : Option String

-- `s02_plan_draft`
pub record PlanDraft : Type 0 where
  pub phases : List ExecutionPhase
  pub tasks : List PlanTask
  pub phase_failures : List String
  pub task_failures : List String
  pub path_repairs : List String
  pub acceptance_coverage : Dict Bool
  pub rollback_ok : Bool
  pub rollback_reasons : List String

-- `s02_critique`
pub record Critique : Type 0 where
  pub concerns : List String
  pub approved : Bool

-- the critic's answer, its items as texts
pub record CritiqueReply : Type 0 where
  pub omissions : List String
  pub concerns : List String
  pub approved : Bool

pub record GroundedCritique : Type 0 where
  pub omissions : List String
  pub concerns : List String
  pub ignored_ungrounded : List String
  pub approved : Bool

pub record PlanQualityResult : Type 0 where
  pub dimension : String
  pub passed : Bool
  pub detail : Option String

pub record PlanQualityReport : Type 0 where
  pub execution_plan_digest : Option String
  pub task_list_digest : Option String
  pub passed : Bool
  pub results : List PlanQualityResult

pub record ExecutionPlan : Type 0 where
  pub selected_solution_digest : String
  pub phases : List ExecutionPhase

pub data PlanDecision : Type 0 where
  auto_approved approved revision_requested rejected pending : PlanDecision

pub record PlanApproval : Type 0 where
  pub decision : PlanDecision
  pub actor_id : Option String
  pub actor_role : Option String
  pub policy_version : String

pub record TaskList : Type 0 where
  pub execution_plan_digest : String
  pub tasks : List PlanTask

pub record PatchArtifact : Type 0 where
  pub phase_id : String
  pub task_ids : List String
  pub base_revision : String
  pub changed_files : List String
  pub diff : String

pub record SourceSnapshot : Type 0 where
  pub canonical_path_ref : String
  pub git_revision : Option String

-- `command_kinds` are the kinds of `manifest.commands`.
pub record RepositoryManifest : Type 0 where
  pub command_kinds : List String
  pub test_roots : List String

pub record MetricAggregate : Type 0 where
  pub metric_id : String
  pub mean : Float

pub record BaselineSnapshot : Type 0 where
  pub aggregates : List MetricAggregate
