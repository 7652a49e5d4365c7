-- ===== src/Node.antt =====
-- `src/node/`: the lifecycle of a node and the registry of all nodes.
pub mod State
pub mod Lifecycle
pub mod Registry
pub mod Ranking
pub mod Invariant
pub mod Steps
pub mod Updates
pub mod Leaving
pub mod Order
pub mod Alike
pub mod Distinct
pub mod Permuted
