-- ===== src/Model/Weights.antt =====
-- `ModelWeights` of `src/quantized_llama.rs`: a slice of a model, its masks, and what the entry and
-- the exit of the pipeline add to the layers.
use neural_swarm_ai.Common.{
  ℕ, ◌+◌, ◌-◌, ◌%◌, ◌^◌, ltb, ◌==◌, if◌then◌else◌, Option, none, some, List, [], ◌∷◌, ◌++◌, map,
  range, Result, ok, err, ok_or, ◌>>=◌,
}
use neural_swarm_ai.Float.{F32}
use neural_swarm_ai.Model.Tensors.{Candle}
use neural_swarm_ai.Model.Experts.{QMatMul, qmatmul_forward}
use neural_swarm_ai.Model.Layers.{LayerWeights, run_all}

pub record ModelWeights (T M N B : Type 0) : Type 0 where
  pub tok_embeddings : Option B
  pub layers : List (LayerWeights T M N)
  pub norm : Option N
  pub output : Option (QMatMul M)
  pub layer_offset : ℕ
  pub total_layers : ℕ
  pub masks : List (ℕ × T)  -- HashMap

-- `HashMap<usize, Tensor>::get`
unfoldable pub find_mask : {T : Type 0} → ℕ → List (ℕ × T) → Option T
find_mask t [] = none
find_mask t ((k, m) ∷ ms) = if k == t then some m else find_mask t ms

-- `u8::from(j > i)` for the columns `j` of row `i`, row after row from the `i`-th on.
unfoldable pub mask_rows : ℕ → List ℕ → List ℕ
mask_rows t [] = []
mask_rows t (i ∷ is) = map (λ j. if ltb i j then 1 else 0) (range 0 t) ++ mask_rows t is

module _ {T Q M N B F E : Type 0} ⦃f : F32 F⦄ (c : Candle T Q M N B F E) where
  unfoldable pub new_mask : ℕ → Result E T
  unfolding mask_rows
  new_mask t = c.of_square (mask_rows t (range 0 t)) t

  unfoldable pub mask_of : ModelWeights T M N B → ℕ → ModelWeights T M N B × Result E T
  unfolding new_mask
  mask_of w t = elim (find_mask t w.masks) [
    | some mask ↦ (w, ok mask)
    | none ↦ elim (new_mask t) [
      | err e ↦ (w, err e)
      | ok mask ↦ (record w { masks = (t, mask) ∷ w.masks }, ok mask)
    ]
  ]

  -- `if seq_len == 1 { None } else { Some(self.mask(seq_len)?) }`
  unfoldable pub mask_for : ModelWeights T M N B → ℕ → ModelWeights T M N B × Result E (Option T)
  unfolding mask_of
  mask_for w seq_len =
      if seq_len == 1
      then (w, ok none)
      else let (w', r) = mask_of w seq_len in (w', do mask ← r; ok (some mask))

  -- `t as u32` for each token, and `unsqueeze(0)`.
  unfoldable pub token_tensor : List ℕ → Result E T
  token_tensor tokens = do ids ← c.of_u32s (map (λ t. t % 2 ^ 32) tokens); c.unsqueeze ids 0

  unfoldable pub embed_tokens : ModelWeights T M N B → List ℕ → Result E T
  unfolding token_tensor
  embed_tokens w tokens = do
    emb ← ok_or (c.msg "embed_tokens: tok_embeddings not loaded") w.tok_embeddings
    input ← token_tensor tokens
    c.embed emb input

  -- The norm and the output head at the last of `seq_len` positions; `seq_len - 1` wraps.
  unfoldable pub project : N → QMatMul M → T → ℕ → Result E T
  unfolding qmatmul_forward
  project norm output hidden seq_len = do
    x ← c.norm_forward norm hidden
    x' ← c.position x ((seq_len + 2 ^ 64 - 1) % 2 ^ 64)
    qmatmul_forward c output x'

  unfoldable pub project_logits : ModelWeights T M N B → T → Result E (List F)
  unfolding project
  project_logits w hidden = do
    norm ← ok_or (c.msg "project_logits: final norm not loaded") w.norm
    output ← ok_or (c.msg "project_logits: output head not loaded") w.output
    (b, seq_len, d) ← c.dims3 hidden
    logits ← project norm output hidden seq_len
    c.to_vec1 logits

  -- The layers of the whole model over an embedded input, and then norm and head.
  unfoldable pub forward_embedded :
      ModelWeights T M N B → T → Option T → ℕ → ℕ → ModelWeights T M N B × Result E T
  unfolding run_all project
  forward_embedded w x mask seq_len index_pos =
      let (ls, r) = run_all c w.layers x mask index_pos in
      (
        record w { layers = ls },
        do
          hidden ← r
          norm ← ok_or (c.msg "forward() needs norm (exit node)") w.norm
          output ← ok_or (c.msg "forward() needs output (exit node)") w.output
          project norm output hidden seq_len,
      )

  unfoldable pub forward : ModelWeights T M N B → T → ℕ → ModelWeights T M N B × Result E T
  unfolding mask_for forward_embedded
  forward w x index_pos = elim (c.dims2 x) [
    | err e ↦ (w, err e)
    | ok (b_sz, seq_len) ↦
        let (w₁, masked) = mask_for w seq_len in
        elim masked [
          | err e ↦ (w₁, err e)
          | ok mask ↦
              elim (do
                emb ← ok_or (c.msg "forward() needs tok_embeddings (entry node)") w₁.tok_embeddings
                c.embed emb x) [
                  | err e ↦ (w₁, err e)
                  | ok embedded ↦ forward_embedded w₁ embedded mask seq_len index_pos
                ]
        ]
  ]
