-- ===== src/Examples.antt =====
-- The theorems of the library at concrete inputs.
mod Base
mod States
mod Routes
mod Runs
mod Resumes
mod Policies
mod Verifications
mod Registries
mod Rankings
mod Plans
mod Gates
mod Outboxes
mod Intakes
mod Critiques
mod Repositories
