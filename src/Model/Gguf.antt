-- ===== src/Model/Gguf.antt =====
-- The loading of a slice from a GGUF file: `from_gguf_partial` of `src/quantized_llama.rs`. A read of
-- a tensor seeks first, so it is a function of the file's content.
use Prim.Native.String.{◌++◌ as append}
use neural_swarm_ai.Common.{
  ℕ, zero, suc, ◌+◌, ◌/◌, ◌%◌, min, max, ltb, leb, ◌==◌, if◌then◌else◌, String, Option, none, some,
  List, [], ◌∷◌, map, length, Result, ok, err, ok_or, unwrap_or, to_option, ◌>>=◌,
}
use neural_swarm_ai.Float.{F32}
use neural_swarm_ai.Model.Tensors.{Candle}
use neural_swarm_ai.Model.Experts.{qmatmul_from_qtensor, Mlp, MlpOrMoe, mlp, moe}
use neural_swarm_ai.Model.Layers.{LayerWeights}

-- `gguf_file::Content` with its reader: values of the metadata, and tensors by name.
pub record Content (Q V F E : Type 0) : Type 0 where
  pub metadata : String → Option V
  pub to_string : V → Result E String
  pub to_u32 : V → Result E ℕ
  pub to_f32 : V → Result E F
  pub tensor : String → Result E Q

abbrev pub max_seq_len : ℕ
max_seq_len = 4096

abbrev digit : ℕ → String
digit d =
    if d == 0
    then "0"
    else if d == 1
    then "1"
    else if d == 2
    then "2"
    else if d == 3
    then "3"
    else if d == 4
    then "4"
    else if d == 5
    then "5"
    else if d == 6
    then "6"
    else if d == 7
    then "7"
    else if d == 8
    then "8"
    else "9"

-- The decimal digits of a number, at most as many as the first argument.
unfoldable pub decimal : ℕ → ℕ → String
decimal zero n = ""
decimal (suc digits) n =
    let front = decimal digits (n / 10) in
    if ltb n 10 then digit n else append front (digit (n % 10))

-- A `usize` has at most 20 digits.
abbrev pub show : ℕ → String
show n = decimal 20 n

-- `format!("blk.{layer_idx}.{name}")`
abbrev pub layer_tensor : ℕ → String → String
layer_tensor layer_idx name = append (append (append "blk." (show layer_idx)) ".") name

-- `format!("{name}.{i}.weight")`
abbrev pub expert_tensor : String → ℕ → String
expert_tensor name i = append (append (append name ".") (show i)) ".weight"

pub record Hyper (F : Type 0) : Type 0 where
  pub n_expert : ℕ
  pub n_expert_used : ℕ
  pub head_count : ℕ
  pub head_count_kv : ℕ
  pub block_count : ℕ
  pub embedding_length : ℕ
  pub rope_dim : ℕ
  pub rms_norm_eps : F
  pub rope_freq_base : F

-- The tensors that every layer shares.
pub record Shared (T : Type 0) : Type 0 where
  pub cos : T
  pub sin : T
  pub neg_inf : T

-- The slice within the bounds of the model.
abbrev pub slice_start : ℕ → ℕ → ℕ
slice_start block_count start_layer = min start_layer block_count

abbrev pub slice_end : ℕ → ℕ → ℕ → ℕ
slice_end block_count start_layer end_layer =
    max (min end_layer block_count) (slice_start block_count start_layer)

-- `(0..n).step_by(2)` from `i` on, `n` being the count of numbers left.
unfoldable pub evens : ℕ → ℕ → List ℕ
evens i zero = []
evens i (suc zero) = i ∷ []
evens i (suc (suc n)) = i ∷ evens (i + 2) n

module _ {T Q M N B F E : Type 0} ⦃f : F32 F⦄ (c : Candle T Q M N B F E) where
  unfoldable pub precomput_freqs_cis : ℕ → F → Result E (T × T)
  unfolding evens
  precomput_freqs_cis head_dim freq_base = do
    let theta =
        map (λ i. f.div (f.lit 1 1) (c.powf freq_base (f.div (f.lit i 1) (f.lit head_dim 1))))
          (evens 0 head_dim)
    row ← c.of_f32s theta
    positions ← c.arange max_seq_len
    column ← c.reshape positions (max_seq_len ∷ 1 ∷ [])
    row' ← c.reshape row (1 ∷ length theta ∷ [])
    idx_theta ← c.matmul column row'
    cos ← c.cos idx_theta
    sin ← c.sin idx_theta
    ok (cos, sin)

module _ {T Q M N B V F E : Type 0} ⦃f : F32 F⦄ (c : Candle T Q M N B F E)
    (ct : Content Q V F E) where
  unfoldable pub architecture : String
  architecture = elim (ct.metadata "general.architecture") [
    | none ↦ "llama"
    | some v ↦ unwrap_or (ct.to_string v) "llama"
  ]

  unfoldable pub md_get : String → String → Result E V
  md_get arch suffix =
      let key = append (append arch ".") suffix in
      ok_or (c.msg (append (append "cannot find " key) " in metadata")) (ct.metadata key)

  abbrev optional_u32 : String → String → Option ℕ
  optional_u32 arch suffix = to_option (md_get arch suffix >>= ct.to_u32)

  abbrev or_default {ℓ} : {A : Type ℓ} → Option A → A → A
  or_default none d = d
  or_default (some a) d = a

  -- The parameters of the model. The division by `head_count` is made even where its result is
  -- not used, and panics at 0.
  unfoldable pub hyper : Result E (Hyper F)
  unfolding architecture md_get
  hyper = do
    let arch = architecture
    let n_expert = or_default (optional_u32 arch "expert_count") 0
    let n_expert_used = or_default (optional_u32 arch "expert_used_count") 0
    head_count ← md_get arch "attention.head_count" >>= ct.to_u32
    head_count_kv ← md_get arch "attention.head_count_kv" >>= ct.to_u32
    block_count ← md_get arch "block_count" >>= ct.to_u32
    embedding_length ← md_get arch "embedding_length" >>= ct.to_u32
    head_dim ← if head_count == 0 then err c.panic else ok (embedding_length / head_count)
    let rope_dim = or_default (optional_u32 arch "rope.dimension_count") head_dim
    rms_norm_eps ← md_get arch "attention.layer_norm_rms_epsilon" >>= ct.to_f32
    let rope_freq_base =
        or_default (to_option (md_get arch "rope.freq_base" >>= ct.to_f32)) (f.lit 10000 1)
    ok (record {
      n_expert = n_expert;
      n_expert_used = n_expert_used;
      head_count = head_count;
      head_count_kv = head_count_kv;
      block_count = block_count;
      embedding_length = embedding_length;
      rope_dim = rope_dim;
      rms_norm_eps = rms_norm_eps;
      rope_freq_base = rope_freq_base;
    })

  unfoldable pub load_bias : ℕ → String → Option T
  load_bias layer_idx name = to_option (ct.tensor (layer_tensor layer_idx name) >>= c.dequantize)

  unfoldable pub load_mlp : String → String → String → Result E (Mlp M)
  unfolding qmatmul_from_qtensor
  load_mlp gate down up = do
    q₁ ← ct.tensor gate
    q₂ ← ct.tensor down
    q₃ ← ct.tensor up
    w₁ ← qmatmul_from_qtensor c q₁
    w₂ ← qmatmul_from_qtensor c q₂
    w₃ ← qmatmul_from_qtensor c q₃
    ok (record { feed_forward_w1 = w₁; feed_forward_w2 = w₂; feed_forward_w3 = w₃ })

  -- `n` experts from the `i`-th on.
  unfoldable pub load_experts : ℕ → ℕ → ℕ → Result E (List (Mlp M))
  unfolding load_mlp
  load_experts layer_idx i zero = ok []
  load_experts layer_idx i (suc n) = do
    expert ←
        load_mlp (layer_tensor layer_idx (expert_tensor "ffn_gate" i))
          (layer_tensor layer_idx (expert_tensor "ffn_down" i))
          (layer_tensor layer_idx (expert_tensor "ffn_up" i))
    experts ← load_experts layer_idx (i + 1) n
    ok (expert ∷ experts)

  unfoldable pub load_mlp_or_moe : Hyper F → ℕ → Result E (MlpOrMoe M)
  unfolding load_mlp load_experts qmatmul_from_qtensor
  load_mlp_or_moe h layer_idx =
      if leb h.n_expert 1
      then (do
        m ←
            load_mlp (layer_tensor layer_idx "ffn_gate.weight")
              (layer_tensor layer_idx "ffn_down.weight") (layer_tensor layer_idx "ffn_up.weight")
        ok (mlp m))
      else (do
        gate ← ct.tensor (layer_tensor layer_idx "ffn_gate_inp.weight")
        experts ← load_experts layer_idx 0 h.n_expert
        feed_forward_gate_inp ← qmatmul_from_qtensor c gate
        ok (moe h.n_expert_used feed_forward_gate_inp experts))

  unfoldable pub load_layer : Hyper F → Shared T → ℕ → Result E (LayerWeights T M N)
  unfolding load_bias load_mlp_or_moe qmatmul_from_qtensor
  load_layer h shared layer_idx = do
    wq ← ct.tensor (layer_tensor layer_idx "attn_q.weight")
    wk ← ct.tensor (layer_tensor layer_idx "attn_k.weight")
    wv ← ct.tensor (layer_tensor layer_idx "attn_v.weight")
    wo ← ct.tensor (layer_tensor layer_idx "attn_output.weight")
    mlp_or_moe ← load_mlp_or_moe h layer_idx
    norm ← ct.tensor (layer_tensor layer_idx "attn_norm.weight")
    ffn ← ct.tensor (layer_tensor layer_idx "ffn_norm.weight")
    attention_wq ← qmatmul_from_qtensor c wq
    attention_wk ← qmatmul_from_qtensor c wk
    attention_wv ← qmatmul_from_qtensor c wv
    attention_wo ← qmatmul_from_qtensor c wo
    attention_norm ← c.norm_of norm h.rms_norm_eps
    ffn_norm ← c.norm_of ffn h.rms_norm_eps
    ok (record {
      attention_wq = attention_wq;
      attention_wk = attention_wk;
      attention_wv = attention_wv;
      attention_wo = attention_wo;
      attention_bq = load_bias layer_idx "attn_q.bias";
      attention_bk = load_bias layer_idx "attn_k.bias";
      attention_bv = load_bias layer_idx "attn_v.bias";
      attention_norm = attention_norm;
      mlp_or_moe = mlp_or_moe;
      ffn_norm = ffn_norm;
      n_head = h.head_count;
      n_kv_head = h.head_count_kv;
      head_dim = h.embedding_length / h.head_count;
      cos = shared.cos;
      sin = shared.sin;
      neg_inf = shared.neg_inf;
      kv_cache = none;
    })

  -- `n` layers from the `layer_idx`-th on.
  unfoldable pub load_layers : Hyper F → Shared T → ℕ → ℕ → Result E (List (LayerWeights T M N))
  unfolding load_layer
  load_layers h shared layer_idx zero = ok []
  load_layers h shared layer_idx (suc n) = do
    layer ← load_layer h shared layer_idx
    layers ← load_layers h shared (layer_idx + 1) n
    ok (layer ∷ layers)
