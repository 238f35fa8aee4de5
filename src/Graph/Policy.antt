-- ===== src/Graph/Policy.antt =====
-- The policies of graph/ and compliance_mw/ over whole runs.
pub mod Writes
pub mod Disposed
pub mod Wrapped
pub mod Finish
pub mod Recorded
pub mod Gate
pub mod Resume
pub mod Bookings
pub mod Fuel
pub mod Stale
pub mod Forks
pub mod Parked
use compliance_agent_platfor.Base.{◌≡◌}
