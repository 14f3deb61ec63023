-- ===== src/S06.antt =====
-- application/s06_handlers.py: the policy decision on a phase. The nodes S06.10 to S06.50 judge the
-- evidence, S06.60 and S06.70 verify a rollback, S06.80 seals the decision, S06.90 applies the patch.
pub mod Shared
pub mod Evaluate
pub mod Decide
pub mod Apply
pub mod Judge
pub mod Record
pub mod Approve
