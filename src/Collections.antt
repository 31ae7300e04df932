-- ===== src/Collections.antt =====
-- alica_engine/src/engine/collections: the success data.
pub mod SuccessCollection
pub mod SuccessMarks
