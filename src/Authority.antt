-- ===== src/Authority.antt =====
-- Allocation authority: alica_engine/src/engine/allocationauthority.
pub mod Difference
pub mod History
pub mod CycleManager
