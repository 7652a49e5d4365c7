-- ===== src/Model/Ggml.antt =====
-- `from_ggml` of `src/quantized_llama.rs`: the loader of the older format of files, whose content is
-- consumed tensor by tensor.
use Prim.Native.String.{◌++◌ as append}
use neural_swarm_ai.Common.{
  ℕ, zero, suc, ◌+◌, ◌/◌, ◌==◌, if◌then◌else◌, String, none, some, List, [], ◌∷◌, Result, ok, err,
  ◌>>=◌,
}
use neural_swarm_ai.Float.{F32}
use neural_swarm_ai.Model.Tensors.{Candle}
use neural_swarm_ai.Model.Experts.{qmatmul_from_qtensor, Mlp, mlp}
use neural_swarm_ai.Model.Layers.{LayerWeights}
use neural_swarm_ai.Model.Weights.{ModelWeights}
use neural_swarm_ai.Model.Gguf.{show, precomput_freqs_cis, Shared}

-- `ggml_file::Content` of the type `G`: its parameters, the removal of a tensor, and the norm of a
-- tensor with the epsilon 1e-5.
pub record GgmlFile (G Q N E : Type 0) : Type 0 where
  pub n_embd : ℕ
  pub n_head : ℕ
  pub n_layer : ℕ
  pub remove : G → String → Result E (Q × G)
  pub norm_of_tensor : Q → Result E N

-- `format!("layers.{layer_idx}.{name}")`
abbrev ggml_tensor : ℕ → String → String
ggml_tensor layer_idx name = append (append (append "layers." (show layer_idx)) ".") name

module _ {T Q M N B F E G : Type 0} ⦃f : F32 F⦄ (c : Candle T Q M N B F E)
    (file : GgmlFile G Q N E) where
  -- A division of whole numbers, which panics at 0.
  abbrev divide : ℕ → ℕ → Result E ℕ
  divide a b = if b == 0 then err c.panic else ok (a / b)

  unfoldable pub remove_mlp : G → ℕ → Result E (Mlp M × G)
  unfolding qmatmul_from_qtensor
  remove_mlp ct layer_idx = do
    (q₁, ct₁) ← file.remove ct (ggml_tensor layer_idx "feed_forward.w1.weight")
    (q₂, ct₂) ← file.remove ct₁ (ggml_tensor layer_idx "feed_forward.w2.weight")
    (q₃, ct₃) ← file.remove ct₂ (ggml_tensor layer_idx "feed_forward.w3.weight")
    w₁ ← qmatmul_from_qtensor c q₁
    w₂ ← qmatmul_from_qtensor c q₂
    w₃ ← qmatmul_from_qtensor c q₃
    ok (record { feed_forward_w1 = w₁; feed_forward_w2 = w₂; feed_forward_w3 = w₃ }, ct₃)

  unfoldable pub remove_layer : ℕ → Shared T → G → ℕ → Result E (LayerWeights T M N × G)
  unfolding remove_mlp qmatmul_from_qtensor
  remove_layer gqa shared ct layer_idx = do
    (wq, ct₁) ← file.remove ct (ggml_tensor layer_idx "attention.wq.weight")
    (wk, ct₂) ← file.remove ct₁ (ggml_tensor layer_idx "attention.wk.weight")
    (wv, ct₃) ← file.remove ct₂ (ggml_tensor layer_idx "attention.wv.weight")
    (wo, ct₄) ← file.remove ct₃ (ggml_tensor layer_idx "attention.wo.weight")
    (feed_forward, ct₅) ← remove_mlp ct₄ layer_idx
    (norm, ct₆) ← file.remove ct₅ (ggml_tensor layer_idx "attention_norm.weight")
    (ffn, ct₇) ← file.remove ct₆ (ggml_tensor layer_idx "ffn_norm.weight")
    attention_wq ← qmatmul_from_qtensor c wq
    attention_wk ← qmatmul_from_qtensor c wk
    attention_wv ← qmatmul_from_qtensor c wv
    attention_wo ← qmatmul_from_qtensor c wo
    attention_norm ← file.norm_of_tensor norm
    ffn_norm ← file.norm_of_tensor ffn
    n_kv_head ← divide file.n_head gqa
    head_dim ← divide file.n_embd file.n_head
    ok (
      record {
        attention_wq = attention_wq;
        attention_wk = attention_wk;
        attention_wv = attention_wv;
        attention_wo = attention_wo;
        attention_bq = none;
        attention_bk = none;
        attention_bv = none;
        attention_norm = attention_norm;
        mlp_or_moe = mlp feed_forward;
        ffn_norm = ffn_norm;
        n_head = file.n_head;
        n_kv_head = n_kv_head;
        head_dim = head_dim;
        cos = shared.cos;
        sin = shared.sin;
        neg_inf = shared.neg_inf;
        kv_cache = none;
      },
      ct₇,
    )

  -- `n` layers from the `layer_idx`-th on.
  unfoldable pub remove_layers : ℕ → Shared T → G → ℕ → ℕ → Result E (List (LayerWeights T M N))
  unfolding remove_layer
  remove_layers gqa shared ct layer_idx zero = ok []
  remove_layers gqa shared ct layer_idx (suc n) = do
    (layer, ct') ← remove_layer gqa shared ct layer_idx
    layers ← remove_layers gqa shared ct' (layer_idx + 1) n
    ok (layer ∷ layers)

  unfoldable pub from_ggml : G → ℕ → Result E (ModelWeights T M N B)
  unfolding remove_layers precomput_freqs_cis qmatmul_from_qtensor
  from_ggml ct gqa = do
    head_dim ← divide file.n_embd file.n_head
    (cos, sin) ← precomput_freqs_cis c head_dim (f.lit 10000 1)
    neg_inf ← c.neg_infinity
    (embeddings_q, ct₁) ← file.remove ct "tok_embeddings.weight"
    tok_embeddings ← c.dequantize embeddings_q
    (norm_q, ct₂) ← file.remove ct₁ "norm.weight"
    norm ← file.norm_of_tensor norm_q
    (output_q, ct₃) ← file.remove ct₂ "output.weight"
    layers ←
        remove_layers gqa (record { cos = cos; sin = sin; neg_inf = neg_inf }) ct₃ 0 file.n_layer
    output ← qmatmul_from_qtensor c output_q
    ok (record {
      tok_embeddings = some (c.embedding_of tok_embeddings file.n_embd);
      layers = layers;
      norm = some norm;
      output = some output;
      layer_offset = 0;
      total_layers = file.n_layer;
      masks = [];
    })
