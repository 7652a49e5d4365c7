-- ===== src/Pipeline.antt =====
-- `src/pipeline.rs`: the sequences in flight and the stages that they go through.
pub mod Stages
pub mod Route
