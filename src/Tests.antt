-- ===== src/Tests.antt =====
-- Runs of the model on sample data, and the theorems at concrete inputs.
mod Samples
mod Computing
mod Nodes
mod Secrets
mod Routing
mod Swarm
mod Files
mod Tiny
mod Slices
mod Serving
mod Sockets
mod Network
