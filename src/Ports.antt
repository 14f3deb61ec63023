-- ===== src/Ports.antt =====
-- The ports (src/production_optimizer/ports/): the interfaces through which the application reaches
-- its adapters. An outside state is a type parameter, and each operation may change it and raise.
pub mod Intents
pub mod Artifacts
pub mod Policy
