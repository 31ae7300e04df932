-- ===== src/Planning.antt =====
-- The task allocation: alica_engine/src/engine/planselector.
pub mod PartialAssignment
pub mod Consistent
pub mod Goal
pub mod Search
mod Tests
