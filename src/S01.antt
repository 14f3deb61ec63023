-- ===== src/S01.antt =====
-- The stage S01, rank and select (application/s01_handlers).
pub mod Shared
pub mod Rank
pub mod Score
pub mod Select
pub mod Seal
pub mod Laws
pub mod Approval
