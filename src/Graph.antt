-- ===== src/Graph.antt =====
-- graph/: the nodes of the screening graph, its one conditional edge, and a run of it.
pub mod Context
pub mod Enrich
pub mod Prompt
pub mod Evaluate
pub mod Dispose
pub mod Routing
pub mod Run
pub mod Serving
pub mod Evaluating
pub mod Enriching
pub mod Evidence
pub mod Trail
pub mod Policy
mod Tests
mod ServingTests
