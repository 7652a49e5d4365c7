-- ===== src/Model/Chain/Whole.antt =====
-- A pipeline of nodes that hold a model in slices answers as one node that holds it whole:
-- `src/candle_backend.rs` over `src/quantized_llama.rs`.
use neural_swarm_ai.Common.{
  ℕ, ◌≡◌, refl, sym, ◌∙◌, Option, List, [], ◌∷◌, length, ok, err, ◌>>=◌, arith, Result-cases, inl,
  inr,
}
use neural_swarm_ai.Float.{F32}
use neural_swarm_ai.Model.Tensors.{Candle}
use neural_swarm_ai.Model.Layers.{LayerWeights, run_all}
use neural_swarm_ai.Model.Weights.{ModelWeights}
use neural_swarm_ai.Model.Masks.{wanted_mask}
use neural_swarm_ai.Model.Handover.{IsLawful}
use neural_swarm_ai.Model.Backend.{CandleBackend, Storage, run_layers}
use neural_swarm_ai.Model.Chain.{
  Stage, Ends, IsSlice, Covers, Simulates, embedded, exit_logits, run_chain,
}
use neural_swarm_ai.Model.Chain.Node.{run_input_err, run_input_ok, run_input_unmasked}
use neural_swarm_ai.Model.Chain.Sequence.{entry_err, entry_ok, first_err, first_unmasked, first_ok}

module _ {T Q M N B V F E : Type 0} ⦃f : F32 F⦄ (c : Candle T Q M N B F E)
    (s : Storage Q V F E) where
  -- The node that holds the whole model, and what it makes of the tokens.
  module _ (e : Ends M N B) (b : CandleBackend T M N B) (w : ModelWeights T M N B) (tokens : List ℕ)
      (ip : ℕ)
      (whole : IsSlice c e
        (record { backend = b; start_layer = 0; end_layer = e.total_layers })
        w) where
    Answers : CandleBackend T M N B → List (LayerWeights T M N) → Type 0
    Answers b' ls =
        (w' : ModelWeights T M N B) × (w'.layers ≡ ls)
        × IsSlice c e (record { backend = b'; start_layer = 0; end_layer = e.total_layers }) w'

    whole_unmasked :
        (x : T) (er : E)
        → embedded c s e.tok_embeddings tokens ≡ ok x
        → wanted_mask c (length tokens) ≡ err er
        → ((run_layers c s b 0 e.total_layers tokens ip).1 ≡ err er)
          × Answers (run_layers c s b 0 e.total_layers tokens ip).0 w.layers
    unfolding Answers
    whole_unmasked x er h failed =
        let (w', same, out, whole') =
          run_input_unmasked c s e _ w b x (length tokens) ip er whole failed in
        rw (entry_ok c s e _ w tokens ip whole refl x h, out) (refl, (w', same, whole'))

    whole_ok :
        (x : T) (mask : Option T)
        → embedded c s e.tok_embeddings tokens ≡ ok x
        → wanted_mask c (length tokens) ≡ ok mask
        → ((run_layers c s b 0 e.total_layers tokens ip).1
            ≡ ((run_all c w.layers x mask ip).1 >>= λ y. exit_logits c s e y (length tokens)))
          × Answers (run_layers c s b 0 e.total_layers tokens ip).0 (run_all c w.layers x mask ip).0
    unfolding Answers
    whole_ok x mask h known = elim (Result-cases (run_all c w.layers x mask ip).1) [
      | inr (er, k) ↦
          let (w', same, out, whole') =
            run_input_err c s e _ w b x (length tokens) ip mask whole known er k in
          rw (entry_ok c s e _ w tokens ip whole refl x h, out, k) (refl, (w', same, whole'))
      | inl (y, k) ↦
          let (w', same, moved, whole', last, more) =
            run_input_ok c s e _ w b x (length tokens) ip mask whole known y k in
          rw (entry_ok c s e _ w tokens ip whole refl x h, moved, last refl, k)
            (refl, (w', same, whole'))
    ]

  -- Where candle and bincode meet their laws, nodes that hold a model in slices, each given the bytes
  -- of the hidden state of the one before it, answer as one node that holds the whole model: with the
  -- same logits or the same error, for all tokens and all positions. And the layers of the nodes,
  -- with their caches of keys and values, are afterwards again those of the whole.
  pub run_chain-run_layers :
      IsLawful c s
      → (e : Ends M N B) (b : CandleBackend T M N B) (ns : List (Stage T M N B)) (tokens : List ℕ)
        (ip : ℕ)
      → Simulates c e b ns
      → ((run_chain c s ns [] [] tokens ip).1 ≡ (run_layers c s b 0 e.total_layers tokens ip).1)
        × Simulates c e
            (run_layers c s b 0 e.total_layers tokens ip).0
            (run_chain c s ns [] [] tokens ip).0
  unfolding Covers Answers
  run_chain-run_layers law e b [] tokens ip sim =
      let filled = sim.whole.filled in let (nothing, stop) = sim.covered in absurd (omega arith)
  run_chain-run_layers law e b (n ∷ ns) tokens ip sim =
      let (v, rest, sl, first, cut, tail) = sim.covered in
      let w = sim.w in
      let whole = sim.whole in
      elim (Result-cases (embedded c s e.tok_embeddings tokens)) [
        | inr (er, h) ↦
            rw
              (
                first_err c s law e n ns v w.layers rest tokens ip sl first cut tail er h,
                entry_err c s e _ w tokens ip whole refl er h,
              )
              (refl, record { w = w; whole = whole; covered = sim.covered })
        | inl (x, h) ↦ elim (Result-cases (wanted_mask c (length tokens))) [
          | inr (er, k) ↦
              let (covered, answer) =
                first_unmasked c s law e n ns v w.layers rest tokens ip sl first cut tail x er h
                  k in
              let (answer', (w', same, whole')) = whole_unmasked e b w tokens ip whole x er h k in
              (answer ∙ sym answer', record { w = w'; whole = whole'; covered = rw same covered })
          | inl (mask, k) ↦
              let (covered, answer) =
                first_ok c s law e n ns v w.layers rest tokens ip sl first cut tail x mask h k in
              let (answer', (w', same, whole')) = whole_ok e b w tokens ip whole x mask h k in
              (answer ∙ sym answer', record { w = w'; whole = whole'; covered = rw same covered })
        ]
      ]
