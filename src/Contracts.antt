-- ===== src/Contracts.antt =====
-- The contracts under examples, which emit the events that become rows. They run in an environment
-- of the host; soroban-sdk's conversions of values are parameters.
pub mod Env
pub mod Deposit
pub mod Storage
pub mod Hello
pub mod Factory
