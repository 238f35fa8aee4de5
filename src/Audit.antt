-- ===== src/Audit.antt =====
-- audit/: the hash-chained audit log.
pub mod Log
pub mod Chain
pub mod Append
pub mod Verify
pub mod Tamper
pub mod Writers
pub mod Export
mod Tests
