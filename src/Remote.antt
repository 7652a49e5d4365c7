-- ===== src/Remote.antt =====
-- `src/remote.rs`: a model file read through HTTP range requests.
pub mod Reader
pub mod Slices
pub mod Window
pub mod Reads
