-- ===== src/Ports/Artifacts.antt =====
-- ports/artifacts.py: the content-addressed store, with what its callers rely on.
use agent_code_optimize_plug.Prelude.{String, ◌≡◌}
use agent_code_optimize_plug.Contracts.Refs.{ArtifactRef}
use agent_code_optimize_plug.Contracts.Errors.{Result, ok, Exec}

-- `put_json tenant content digest key`
pub record ArtifactStore (S : Type 0) : Type 0 where
  pub put_json : String → String → String → String → Exec S ArtifactRef
  pub read : String → ArtifactRef → S → Result String

-- What was stored is read back by its reference.
pub record ArtifactStoreLaws {S : Type 0} (store : ArtifactStore S) : Type 0 where
  pub read-put :
      (tenant content digest key : String) (ref : ArtifactRef) (s s' : S)
      → store.put_json tenant content digest key s ≡ (ok ref, s')
      → store.read tenant ref s' ≡ ok content
