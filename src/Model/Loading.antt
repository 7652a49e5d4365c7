-- ===== src/Model/Loading.antt =====
-- `from_gguf_partial` and `from_gguf` of `src/quantized_llama.rs`: which part of the model a node
-- holds.
use neural_swarm_ai.Common.{
  ℕ, ◌-◌, Bool, true, false, leb, ◌==◌, Option, none, some, [], Result, ok, err, unwrap_or, ◌>>=◌,
}
use neural_swarm_ai.Float.{F32}
use neural_swarm_ai.Model.Tensors.{Candle}
use neural_swarm_ai.Model.Experts.{QMatMul, qmatmul_from_qtensor}
use neural_swarm_ai.Model.Weights.{ModelWeights}
use neural_swarm_ai.Model.Gguf.{
  Content, Hyper, Shared, slice_start, slice_end, precomput_freqs_cis, architecture, md_get, hyper,
  load_layers,
}

module _ {T Q M N B V F E : Type 0} ⦃f : F32 F⦄ (c : Candle T Q M N B F E)
    (ct : Content Q V F E) where
  unfoldable pub load_shared : Hyper F → Result E (Shared T)
  unfolding precomput_freqs_cis
  load_shared h = do
    (cos, sin) ← precomput_freqs_cis c h.rope_dim h.rope_freq_base
    neg_inf ← c.neg_infinity
    ok (record { cos = cos; sin = sin; neg_inf = neg_inf })

  -- The embeddings of the entry of the pipeline.
  unfoldable pub load_entry : Hyper F → Bool → Result E (Option B)
  load_entry h false = ok none
  load_entry h true = do
    q ← ct.tensor "token_embd.weight"
    weights ← c.dequantize q
    ok (some (c.embedding_of weights h.embedding_length))

  -- `match ct.tensor(output) { Ok(tensor) => tensor, Err(_) => ct.tensor(token_embd)? }`
  unfoldable pub output_tensor : Result E Q
  output_tensor = elim (ct.tensor "output.weight") [
    | ok q ↦ ok q
    | err e ↦ ct.tensor "token_embd.weight"
  ]

  -- The norm and the output head of the exit.
  unfoldable pub load_exit : Hyper F → Bool → Result E (Option N × Option (QMatMul M))
  unfolding output_tensor qmatmul_from_qtensor
  load_exit h false = ok (none, none)
  load_exit h true = do
    norm_q ← ct.tensor "output_norm.weight"
    norm ← c.norm_of norm_q h.rms_norm_eps
    output_q ← output_tensor
    output ← qmatmul_from_qtensor c output_q
    ok (some norm, some output)

  unfoldable pub from_gguf_partial : ℕ → ℕ → Result E (ModelWeights T M N B)
  unfolding hyper load_shared load_entry load_exit load_layers
  from_gguf_partial start_layer end_layer = do
    h ← hyper c ct
    shared ← load_shared h
    let start = slice_start h.block_count start_layer
    let end = slice_end h.block_count start_layer end_layer
    tok_embeddings ← load_entry h (start == 0)
    (norm, output) ← load_exit h (leb h.block_count end)
    layers ← load_layers c ct h shared start (end - start)
    ok (record {
      tok_embeddings = tok_embeddings;
      layers = layers;
      norm = norm;
      output = output;
      layer_offset = start;
      total_layers = h.block_count;
      masks = [];
    })

  -- `.and_then(|v| v.to_u32().ok()).unwrap_or(0)`
  unfoldable pub block_count_or_zero : ℕ
  unfolding architecture md_get
  block_count_or_zero = unwrap_or (md_get c ct (architecture c ct) "block_count" >>= ct.to_u32) 0

  unfoldable pub from_gguf : Result E (ModelWeights T M N B)
  unfolding from_gguf_partial block_count_or_zero
  from_gguf = from_gguf_partial 0 block_count_or_zero
