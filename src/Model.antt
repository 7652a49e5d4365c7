-- ===== src/Model.antt =====
-- `src/quantized_llama.rs` and `src/candle_backend.rs`: slices of a quantized model, and a node that
-- loads and runs one.
pub mod Tensors
pub mod Experts
pub mod Routing
pub mod Layers
pub mod Slices
pub mod Weights
pub mod Masks
pub mod Causal
pub mod Gguf
pub mod Loading
pub mod Ggml
pub mod Partial
pub mod Backend
pub mod Handover
pub mod Chain
