-- ===== src/Tests.antt =====
-- Runs of the model at fixed inputs, and the theorems applied at inputs that meet their hypotheses.
pub mod Data
pub mod Pipeline
pub mod Running
pub mod Packed
pub mod Columns
pub mod Contracts
pub mod Standalone
