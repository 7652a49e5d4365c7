-- ===== src/Executor/Devices.antt =====
-- The backends of `src/wgpu_backend.rs` and `src/llama_backend.rs`. What llama.cpp does with its
-- context is an interface.
use neural_swarm_ai.Common.{[], ok}
use neural_swarm_ai.Protocol.{Bytes}
use neural_swarm_ai.Executor.Backend.{InferenceBackend, default_ensure_layers}

module _ {F E : Type 0} where
  -- `WgpuBackend` has no fields, drops every state and computes nothing.
  abbrev pub wgpu_backend : InferenceBackend F (Unit {0}) E
  wgpu_backend = record {
    ensure_layers = default_ensure_layers;
    set_state = λ b state. (b, ok tt);
    get_state = λ b. ok [];
    run_layers = λ b start_layer end_layer tokens sequence_id. (b, ok []);
  }

-- `LlamaContext`: `set_state_data`, and `copy_state_data` into a buffer of `get_state_size` bytes.
pub record LlamaContext (B : Type 0) : Type 0 where
  pub set_state_data : B → Bytes → B
  pub copy_state_data : B → Bytes

module _ {F E B : Type 0} (context : LlamaContext B) where
  -- `LlamaBackend` keeps the state of its context; `run_layers` computes nothing.
  abbrev pub llama_backend : InferenceBackend F B E
  llama_backend = record {
    ensure_layers = default_ensure_layers;
    set_state = λ b state. (context.set_state_data b state, ok tt);
    get_state = λ b. ok (context.copy_state_data b);
    run_layers = λ b start_layer end_layer tokens sequence_id. (b, ok []);
  }
