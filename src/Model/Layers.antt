-- ===== src/Model/Layers.antt =====
-- `LayerWeights` of `src/quantized_llama.rs`: attention with its cache of keys and values, and the
-- whole layer as `ModelWeights::forward` and `CandleBackend::run_layers` both run it.
use neural_swarm_ai.Common.{
  ℕ, zero, suc, ◌/◌, ◌&&◌, ◌==◌, if◌then◌else◌, Option, none, some, List, [], ◌∷◌, Result, ok, err,
  ◌>>=◌,
}
use neural_swarm_ai.Float.{F32}
use neural_swarm_ai.Model.Tensors.{Candle}
use neural_swarm_ai.Model.Experts.{QMatMul, qmatmul_forward, MlpOrMoe, mlp_or_moe_forward}

pub record LayerWeights (T M N : Type 0) : Type 0 where
  pub attention_wq : QMatMul M
  pub attention_wk : QMatMul M
  pub attention_wv : QMatMul M
  pub attention_wo : QMatMul M
  pub attention_bq : Option T
  pub attention_bk : Option T
  pub attention_bv : Option T
  pub attention_norm : N
  pub mlp_or_moe : MlpOrMoe M
  pub ffn_norm : N
  pub n_head : ℕ
  pub n_kv_head : ℕ
  pub head_dim : ℕ
  pub cos : T
  pub sin : T
  pub neg_inf : T
  pub kv_cache : Option (T × T)

-- The shape of the input, with the queries, keys and values of the attention.
pub record Heads (T : Type 0) : Type 0 where
  pub b_sz : ℕ
  pub seq_len : ℕ
  pub n_embd : ℕ
  pub q : T
  pub k : T
  pub v : T

module _ {T Q M N B F E : Type 0} ⦃f : F32 F⦄ (c : Candle T Q M N B F E) where
  unfoldable pub masked_fill : T → T → T → Result E T
  masked_fill on_false mask on_true = c.where_cond mask on_true on_false

  unfoldable pub apply_rotary_emb : LayerWeights T M N → T → ℕ → Result E T
  apply_rotary_emb l x index_pos = do
    (b_sz, n_head, seq_len, n_embd) ← c.dims4 x
    cos ← c.narrow l.cos 0 index_pos seq_len
    sin ← c.narrow l.sin 0 index_pos seq_len
    x' ← c.contiguous x
    c.rope_i x' cos sin

  -- `match bias { Some(b) => x.broadcast_add(b)?, None => x }`
  unfoldable pub add_bias : Option T → T → Result E T
  add_bias none x = ok x
  add_bias (some b) x = c.broadcast_add x b

  unfoldable pub split_heads : T → ℕ → ℕ → ℕ → ℕ → Result E T
  split_heads x b_sz seq_len n_head head_dim = do
    y ← c.reshape x (b_sz ∷ seq_len ∷ n_head ∷ head_dim ∷ [])
    c.transpose y 1 2

  -- The cached keys or values go before the new ones, but at position 0.
  unfoldable pub cached : Option T → ℕ → T → Result E T
  cached none index_pos k = ok k
  cached (some k_cache) index_pos k = if index_pos == 0 then ok k else c.cat (k_cache ∷ k ∷ []) 2

  abbrev cached_keys : Option (T × T) → Option T
  cached_keys none = none
  cached_keys (some (k, v)) = some k

  abbrev cached_values : Option (T × T) → Option T
  cached_values none = none
  cached_values (some (k, v)) = some v

  -- `forward_attn` up to the write of the cache.
  unfoldable pub heads_of : LayerWeights T M N → T → ℕ → Result E (Heads T)
  unfolding qmatmul_forward apply_rotary_emb add_bias split_heads cached
  heads_of l x index_pos = do
    (b_sz, seq_len, n_embd) ← c.dims3 x
    q₀ ← qmatmul_forward c l.attention_wq x
    k₀ ← qmatmul_forward c l.attention_wk x
    v₀ ← qmatmul_forward c l.attention_wv x
    q₁ ← add_bias l.attention_bq q₀
    k₁ ← add_bias l.attention_bk k₀
    v₁ ← add_bias l.attention_bv v₀
    q₂ ← split_heads q₁ b_sz seq_len l.n_head l.head_dim
    k₂ ← split_heads k₁ b_sz seq_len l.n_kv_head l.head_dim
    v₂ ← split_heads v₁ b_sz seq_len l.n_kv_head l.head_dim
    v₃ ← c.contiguous v₂
    q₃ ← apply_rotary_emb l q₂ index_pos
    k₃ ← apply_rotary_emb l k₂ index_pos
    k₄ ← cached (cached_keys l.kv_cache) index_pos k₃
    v₄ ← cached (cached_values l.kv_cache) index_pos v₃
    ok (record { b_sz = b_sz; seq_len = seq_len; n_embd = n_embd; q = q₃; k = k₄; v = v₄ })

  unfoldable pub apply_mask : LayerWeights T M N → Option T → T → Result E T
  unfolding masked_fill
  apply_mask l none att = ok att
  apply_mask l (some mask) att = do mask' ← c.broadcast_as mask att; masked_fill att mask' l.neg_inf

  -- The division by the number of heads of the cache panics at 0.
  unfoldable pub attend_by_heads : LayerWeights T M N → Option T → Heads T → Result E T
  unfolding apply_mask
  attend_by_heads l mask h = if l.n_kv_head == 0 then err c.panic else (do
    k ← c.repeat_kv h.k (l.n_head / l.n_kv_head)
    v ← c.repeat_kv h.v (l.n_head / l.n_kv_head)
    kt ← c.t k
    scores ← c.matmul h.q kt
    scaled ← c.div_sqrt scores l.head_dim
    masked ← apply_mask l mask scaled
    att ← c.softmax_last_dim masked
    v' ← c.contiguous v
    c.matmul att v')

  -- `forward_attn` from the write of the cache on.
  unfoldable pub attend : LayerWeights T M N → Option T → Heads T → Result E T
  unfolding qmatmul_forward attend_by_heads
  attend l mask h = do
    y ←
        if c.is_metal h.q && h.seq_len == 1
        then c.sdpa h.q h.k h.v l.head_dim
        else attend_by_heads l mask h
    y₁ ← c.transpose y 1 2
    y₂ ← c.reshape y₁ (h.b_sz ∷ h.seq_len ∷ h.n_embd ∷ [])
    qmatmul_forward c l.attention_wo y₂

  unfoldable pub forward_attn :
      LayerWeights T M N → T → Option T → ℕ → LayerWeights T M N × Result E T
  unfolding heads_of attend
  forward_attn l x mask index_pos = elim (heads_of l x index_pos) [
    | err e ↦ (l, err e)
    | ok h ↦ let l' = record l { kv_cache = some (h.k, h.v) } in (l', attend l' mask h)
  ]

  -- The layer after its attention: the residual connections and the feed-forward part.
  unfoldable pub feed_forward : LayerWeights T M N → T → Result E T → Result E T
  feed_forward l residual attended = do
    attn ← attended
    x ← c.add attn residual
    normed ← c.norm_forward l.ffn_norm x
    y ← mlp_or_moe_forward c l.mlp_or_moe normed
    c.add y x

  unfoldable pub run_layer : LayerWeights T M N → T → Option T → ℕ → LayerWeights T M N × Result E T
  unfolding feed_forward
  run_layer l x mask index_pos = elim (c.norm_forward l.attention_norm x) [
    | err e ↦ (l, err e)
    | ok normed ↦
        let (l', attended) = forward_attn l normed mask index_pos in
        (l', feed_forward l' x attended)
  ]

  -- `for layer in self.layers.iter_mut()`: an error ends the loop, and what ran before has its cache.
  unfoldable pub run_all :
      List (LayerWeights T M N) → T → Option T → ℕ → List (LayerWeights T M N) × Result E T
  unfolding run_layer
  run_all [] x mask index_pos = ([], ok x)
  run_all (l ∷ ls) x mask index_pos =
      let (l', r) = run_layer l x mask index_pos in
      elim r [
        | err e ↦ (l' ∷ ls, err e)
        | ok y ↦ let (ls', r') = run_all ls y mask index_pos in (l' ∷ ls', r')
      ]

  -- The layers from the `skip`-th on, `n` of them.
  unfoldable pub run_slice :
      ℕ → ℕ → List (LayerWeights T M N) → T → Option T → ℕ → List (LayerWeights T M N) × Result E T
  unfolding run_layer
  run_slice skip n [] x mask index_pos = ([], ok x)
  run_slice (suc skip) n (l ∷ ls) x mask index_pos =
      let (ls', r) = run_slice skip n ls x mask index_pos in (l ∷ ls', r)
  run_slice zero zero (l ∷ ls) x mask index_pos = (l ∷ ls, ok x)
  run_slice zero (suc n) (l ∷ ls) x mask index_pos =
      let (l', r) = run_layer l x mask index_pos in
      elim r [
        | err e ↦ (l' ∷ ls, err e)
        | ok y ↦ let (ls', r') = run_slice zero n ls y mask index_pos in (l' ∷ ls', r')
      ]
