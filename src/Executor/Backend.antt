-- ===== src/Executor/Backend.antt =====
-- The trait `InferenceBackend` of `src/backend.rs`, over the state `B` of an implementation, whose
-- errors are opaque. A method that takes `&mut self` returns the new state also when it fails.
use neural_swarm_ai.Common.{ℕ, List, Result, ok}
use neural_swarm_ai.Protocol.{Bytes}

pub record InferenceBackend (F B E : Type 0) : Type 0 where
  pub ensure_layers : B → ℕ → ℕ → B × Result E (Unit {0})
  pub set_state : B → Bytes → B × Result E (Unit {0})
  pub get_state : B → Result E Bytes
  pub run_layers : B → ℕ → ℕ → List ℕ → ℕ → B × Result E (List F)

-- The default of the trait, for backends that always hold the whole model.
abbrev pub default_ensure_layers : {B E : Type 0} → B → ℕ → ℕ → B × Result E (Unit {0})
default_ensure_layers b start_layer end_layer = (b, ok tt)
