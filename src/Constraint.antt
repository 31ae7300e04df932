-- ===== src/Constraint.antt =====
-- The constraint module's stores (alica_engine/src/engine/constraintmodul).
pub mod UniqueVarStore
pub mod ConditionStore
pub mod ResultEntry
pub mod VariableSyncModule
