-- ===== src/S01/Shared.antt =====
-- The shared helpers of application/s01_handlers/shared.py: constants, references, sealed artifacts.
use agent_code_optimize_plug.Prelude.{
  ℕ, String, Bool, true, false, Option, none, some, [], find, ◌==◌, if◌then◌else◌, length,
}
use agent_code_optimize_plug.Prelude.Text.{decimal, ◌^^◌}
use agent_code_optimize_plug.Contracts.Refs.{ArtifactRef}
use agent_code_optimize_plug.Contracts.Errors.{
  Result, ok, err, Exec, bind_result, or_raise, missing_state, missing_artifact, invalid_model,
  ◌>>=◌, pure, lift,
}
use agent_code_optimize_plug.Contracts.Request.{Float, FloatOps, OptimizationRequest}
use agent_code_optimize_plug.Contracts.Strategy.{
  RiskTier, experiment_config, prompt, code, architecture, Effort, low, medium, high, Reversibility,
  instant, fast, slow, irreversible, ImpactDirection, improves, SolutionPortfolio,
}
use agent_code_optimize_plug.Contracts.Artifact.{
  Artifact, Content, Canonical, optimization_request, solution_portfolio,
}
use agent_code_optimize_plug.State.{OptimizationState}
use agent_code_optimize_plug.Ports.Artifacts.{ArtifactStore}

-- What S01 calls outside the source: the sealed form of artifacts, floats, the clock, `repr` of a
-- string and the format `.2f`.
pub record Outside : Type 0 where
  pub canonical : Canonical
  pub floats : FloatOps
  pub now : ℕ
  pub repr : String → String
  pub fixed2 : Float → String

abbrev pub policy_version : String
policy_version = "s01-ranking-v1"

-- `_RISK_TIER_ORDER`
abbrev pub risk_order : RiskTier → ℕ
risk_order experiment_config = 0
risk_order prompt = 1
risk_order code = 2
risk_order architecture = 3

-- the literals of `risk_tier`
abbrev pub risk_value : RiskTier → String
risk_value experiment_config = "experiment_config"
risk_value prompt = "prompt"
risk_value code = "code"
risk_value architecture = "architecture"

-- membership of `_APPROVAL_RISK_TIERS`
abbrev pub needs_human : RiskTier → Bool
needs_human experiment_config = false
needs_human prompt = false
needs_human code = true
needs_human architecture = true

abbrev pub is_improves : ImpactDirection → Bool
is_improves improves = true
is_improves _ = false

module _ (floats : FloatOps) where
  -- `_EFFORT_SCALE`
  abbrev pub effort_scale : Effort → Float
  effort_scale low = floats.literal 10 1
  effort_scale medium = floats.literal 6 1
  effort_scale high = floats.literal 3 1

  -- `_REVERSIBILITY_SCALE`
  abbrev pub reversibility_scale : Reversibility → Float
  reversibility_scale instant = floats.literal 10 1
  reversibility_scale fast = floats.literal 75 2
  reversibility_scale slow = floats.literal 4 1
  reversibility_scale irreversible = floats.literal 0 1

  -- `_MATERIAL_TIE_MARGIN`
  abbrev pub tie_margin : Float
  tie_margin = floats.literal 5 2

-- `_required_state_str`
abbrev pub required_state_str : String → Option String → Result String
required_state_str key none = err (missing_state key)
required_state_str key (some value) = if value == "" then err (missing_state key) else ok value

unfoldable pub s01_pass_number : OptimizationState → ℕ
s01_pass_number state = length state.s01_excluded_strategy_ids

abbrev pub pass_stage_id : String → ℕ → String
pass_stage_id node_id n = node_id ^^ ("-pass" ^^ decimal n)

abbrev pub stage_artifact_id : String → String → String → String
stage_artifact_id case_id node_id artifact_type =
    case_id ^^ ("-" ^^ (node_id ^^ ("-" ^^ artifact_type)))

abbrev pub is_ref : String → String → ArtifactRef → Bool
is_ref artifact_type artifact_id ref =
    if ref.artifact_type == artifact_type then ref.artifact_id == artifact_id else false

unfoldable pub require_stage_ref : OptimizationState → String → String → Result ArtifactRef
require_stage_ref state node_id artifact_type =
    bind_result (required_state_str "case_id" state.case_id) λ case_id.
      or_raise
        (find (is_ref artifact_type (stage_artifact_id case_id node_id artifact_type))
          state.artifact_refs)
        (missing_artifact artifact_type)

-- `_require_ref` over `_try_ref`
unfoldable pub require_ref : OptimizationState → String → Result ArtifactRef
require_ref state artifact_type =
    or_raise (find (λ ref. ref.artifact_type == artifact_type) state.artifact_refs)
      (missing_artifact artifact_type)

-- the model that a content is read as
abbrev pub as_request : Content → Option OptimizationRequest
as_request (optimization_request x) = some x
as_request _ = none

abbrev pub as_portfolio : Content → Option SolutionPortfolio
as_portfolio (solution_portfolio x) = some x
as_portfolio _ = none

module _ {S : Type 0} (env : Outside) (store : ArtifactStore S) where
  unfoldable pub read_model :
      {A : Type 0} → (Content → Option A) → OptimizationState → ArtifactRef → Exec S A
  read_model model state ref s = (
    bind_result (required_state_str "tenant_id" state.tenant_id) λ tenant_id.
        bind_result (store.read tenant_id ref s) λ content.
          bind_result (env.canonical.decode content)
            λ artifact. or_raise (model artifact.content) (invalid_model ref.artifact_type),
    s,
  )

  unfoldable pub read_required :
      {A : Type 0} → (Content → Option A) → OptimizationState → String → Exec S A
  unfolding require_ref read_model
  read_required model state artifact_type =
      lift (require_ref state artifact_type) >>= λ ref. read_model model state ref

  -- `_stage_envelope` over `_base_envelope`, and `_seal`
  unfoldable pub seal : OptimizationState → String → String → Content → Result Artifact
  seal state stage artifact_type content =
      bind_result (required_state_str "case_id" state.case_id) λ case_id.
        bind_result (required_state_str "tenant_id" state.tenant_id) λ tenant_id. ok (record {
          envelope = record {
            artifact_type = artifact_type;
            schema_version = "1.0";
            artifact_id = stage_artifact_id case_id stage artifact_type;
            tenant_id = tenant_id;
            case_id = case_id;
            created_at = env.now;
            parent_digests = [];
          };
          content = content;
        })

  -- the reference of what `_put_envelope` stored
  abbrev pub reference : Artifact → String → ArtifactRef
  reference artifact uri = record {
    artifact_type = artifact.envelope.artifact_type;
    schema_version = artifact.envelope.schema_version;
    artifact_id = artifact.envelope.artifact_id;
    content_digest = env.canonical.digest artifact;
    uri = uri;
  }

  -- the idempotency key of `_put_envelope` names the case, the node and the type alone
  abbrev pub storage_key : String → Artifact → String
  storage_key node_id artifact =
      artifact.envelope.case_id ^^ (":" ^^ (node_id ^^ (":" ^^ artifact.envelope.artifact_type)))

  unfoldable pub put_envelope : String → Artifact → Exec S ArtifactRef
  put_envelope node_id artifact =
      store.put_json artifact.envelope.tenant_id (env.canonical.encode artifact)
        (env.canonical.digest artifact) (storage_key node_id artifact)
      >>= λ generic_ref. pure (reference artifact generic_ref.uri)
