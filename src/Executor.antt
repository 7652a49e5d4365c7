-- ===== src/Executor.antt =====
-- `src/backend.rs` and `src/executor.rs`: the compute unit of a node over any inference backend.
pub mod Backend
pub mod Devices
pub mod Tasks
pub mod Handoff
pub mod Sealed
