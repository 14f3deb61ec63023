-- ===== src/Contracts.antt =====
-- The contract models that the components share (src/production_optimizer/contracts/).
pub mod Refs
pub mod Errors
pub mod Request
pub mod Strategy
pub mod Plan
pub mod Verify
pub mod Decide
pub mod Artifact
