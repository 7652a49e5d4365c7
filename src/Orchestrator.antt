-- ===== src/Orchestrator.antt =====
-- `src/orchestrator.rs`: membership, layer assignment and the routing of sequences.
pub mod Rebalance
pub mod Coverage
pub mod Assignment
pub mod Covered
pub mod Unordered
pub mod Handlers
pub mod Events
pub mod Drains
pub mod Strangers
pub mod Members
pub mod Silence
pub mod Membership
pub mod Replies
pub mod Commands
pub mod Sequences
pub mod Ranges
pub mod Dispatch
pub mod Starts
pub mod Relay
