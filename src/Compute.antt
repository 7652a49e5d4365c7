-- ===== src/Compute.antt =====
-- `src/compute/`: what a node can contribute (profile, status, capacity) and the monitor of it.
pub mod Profile
pub mod Status
pub mod Capacity
pub mod Monitor
pub mod Detection
pub mod Bounds
pub mod Reports
