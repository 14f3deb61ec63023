-- ===== src/S02.antt =====
-- The stage S02, the plan and its tasks (application/s02_handlers).
pub mod Acyclic
pub mod Checks
pub mod Critique
pub mod Gate
pub mod Seal
