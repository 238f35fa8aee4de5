-- ===== src/Schemas.antt =====
-- schemas/: the typed contracts of the screening agent, one module for each file.
pub mod Alert
pub mod Disposition
pub mod Enrichment
pub mod Retrieval
pub mod Evaluation
pub mod State
pub mod Consistent
mod Tests
