-- ===== src/Transport.antt =====
-- `src/transport.rs`: the WebSocket connections of the orchestrator and of a node.
pub mod Wire
pub mod Server
pub mod Client
pub mod Access
pub mod Sockets
pub mod Endings
pub mod Joining
