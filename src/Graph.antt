-- ===== src/Graph.antt =====
-- app/graph.py: the LangGraph runtime.
pub mod State
pub mod Routes
pub mod Calls
pub mod Planning
pub mod Working
pub mod Verifying
pub mod Researching
pub mod Partial
pub mod Finishing
pub mod Machine
pub mod Rounds
pub mod Termination
pub mod Errors
pub mod Accepted
pub mod Release
pub mod Spending
pub mod Provenance
mod Tests
