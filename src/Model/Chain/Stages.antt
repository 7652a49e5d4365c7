-- ===== src/Model/Chain/Stages.antt =====
-- What a stage of a pipeline does, from the state that it is given to the state that it gives.
use neural_swarm_ai.Common.{
  ℕ, ◌<◌, ◌≡◌, refl, ap, ◌∙◌, Option, some, List, [], length, ok, err, ◌>>=◌,
}
use neural_swarm_ai.Float.{F32}
use neural_swarm_ai.Protocol.{Bytes}
use neural_swarm_ai.Model.Tensors.{Candle}
use neural_swarm_ai.Model.Layers.{run_all}
use neural_swarm_ai.Model.Weights.{ModelWeights}
use neural_swarm_ai.Model.Masks.{wanted_mask}
use neural_swarm_ai.Model.Backend.{CandleBackend, Storage, run_input, run_layers, set_state, encode}
use neural_swarm_ai.Model.Chain.{Stage, Ends, IsSlice, exit_logits, visit}
use neural_swarm_ai.Model.Chain.Node.{run_input_err, run_input_ok, visit_err, visit_ok}

module _ {T Q M N B V F E : Type 0} ⦃f : F32 F⦄ (c : Candle T Q M N B F E)
    (s : Storage Q V F E) where
  module _ (e : Ends M N B) (n : Stage T M N B) (v : ModelWeights T M N B)
      (b₁ b₂ : CandleBackend T M N B) (state : Bytes) (x : T) (tokens : List ℕ) (ip : ℕ)
      (mask : Option T) (sl : IsSlice c e n v) (known : wanted_mask c (length tokens) ≡ ok mask)
      (given : set_state c s n.backend state ≡ (b₁, ok tt))
      (ran : run_layers c s b₁ n.start_layer n.end_layer tokens ip
        ≡ run_input c s b₂ v n.start_layer n.end_layer x (length tokens) ip) where
    pub stage_err :
        (er : E)
        → (run_all c v.layers x mask ip).1 ≡ err er
        → (v' : ModelWeights T M N B) × (b : CandleBackend T M N B) × (v'.layers
            ≡ (run_all c v.layers x mask ip).0)
          × IsSlice c e (record n { backend = b }) v'
          × (visit c s n.backend state n.start_layer n.end_layer tokens ip ≡ (b, err er))
    stage_err er h =
        let (v', same, out, sl') =
          run_input_err c s e n v b₂ x (length tokens) ip mask sl known er h in
        (
          v',
          record b₂ { model = some v' },
          same,
          sl',
          visit_err c s n.backend b₁ _ state n.start_layer n.end_layer tokens ip er given
              (ran ∙ out),
        )

    pub stage_ok :
        (y : T) (bytes : Bytes)
        → (run_all c v.layers x mask ip).1 ≡ ok y
        → encode c s y ≡ ok bytes
        → (v' : ModelWeights T M N B) × (b : CandleBackend T M N B) × (v'.layers
            ≡ (run_all c v.layers x mask ip).0)
          × IsSlice c e (record n { backend = b }) v'
          × (n.end_layer ≡ e.total_layers
              → visit c s n.backend state n.start_layer n.end_layer tokens ip
                ≡ (b, do logits ← exit_logits c s e y (length tokens); ok (bytes, logits)))
          × (n.end_layer < e.total_layers
              → visit c s n.backend state n.start_layer n.end_layer tokens ip ≡ (b, ok (bytes, [])))
    stage_ok y bytes h written =
        let (v', same, moved, sl', last, more) =
          run_input_ok c s e n v b₂ x (length tokens) ip mask sl known y h in
        let b = record b₂ { model = some v'; intermediate_state = some y } in
        let visited =
          visit_ok c s n.backend b₁ b state n.start_layer n.end_layer tokens ip y bytes given
            (ap (λ p. p.0) ran ∙ moved) refl written in
        (
          v',
          b,
          same,
          sl',
          (λ k. rw (← last k, ← ap (λ p. p.1) ran) visited),
          (λ k. visited ∙ rw (ran, more k) refl),
        )
