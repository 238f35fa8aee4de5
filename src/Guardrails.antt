-- ===== src/Guardrails.antt =====
-- guardrails/: the deterministic PII floor and the rails around the model's calls.
pub mod Unicode
pub mod Luhn
pub mod Patterns
pub mod Cards
pub mod Ssn
pub mod Service
mod Tests
