-- ===== src/Model/Chain.antt =====
-- A pipeline of nodes with `src/candle_backend.rs`: each one is given the state of the one before it,
-- runs the layers that it holds, and gives its own state.
use neural_swarm_ai.Common.{
  ℕ, ◌+◌, ◌<◌, ◌≡◌, ◌≢◌, Option, none, some, List, [], ◌∷◌, ◌++◌, length, Result, ok, err, ok_or,
  ◌>>=◌,
}
use neural_swarm_ai.Float.{F32}
use neural_swarm_ai.Protocol.{Bytes}
use neural_swarm_ai.Model.Tensors.{Candle}
use neural_swarm_ai.Model.Experts.{QMatMul}
use neural_swarm_ai.Model.Layers.{LayerWeights}
use neural_swarm_ai.Model.Weights.{ModelWeights, token_tensor, project}
use neural_swarm_ai.Model.Masks.{AreMasks}
use neural_swarm_ai.Model.Backend.{CandleBackend, Storage, set_state, get_state, run_layers}
mod Node
mod Stages
pub mod Covered
mod Sequence
pub mod Whole
pub mod Parts
pub mod Loaded

-- A node and the layers that it is asked for.
pub record Stage (T M N B : Type 0) : Type 0 where
  pub backend : CandleBackend T M N B
  pub start_layer : ℕ
  pub end_layer : ℕ

-- What a model has before and after its layers, and how many layers.
pub record Ends (M N B : Type 0) : Type 0 where
  pub tok_embeddings : Option B
  pub norm : Option N
  pub output : Option (QMatMul M)
  pub total_layers : ℕ

module _ {T Q M N B V F E : Type 0} ⦃f : F32 F⦄ (c : Candle T Q M N B F E)
    (s : Storage Q V F E) where
  -- A node's part: the state it is given, its layers, and its own state with its logits.
  unfoldable pub visit :
      CandleBackend T M N B
      → Bytes
      → ℕ
      → ℕ
      → List ℕ
      → ℕ
      → CandleBackend T M N B × Result E (Bytes × List F)
  visit b state start_layer end_layer tokens sequence_id =
      let (b₁, given) = set_state c s b state in
      elim given [
        | err e ↦ (b₁, err e)
        | ok _ ↦
            let (b₂, ran) = run_layers c s b₁ start_layer end_layer tokens sequence_id in
            (b₂, do logits ← ran; state' ← get_state c s b₂; ok (state', logits))
      ]

  -- The nodes in turn, and the logits of the last one.
  unfoldable pub run_chain :
      List (Stage T M N B) → Bytes → List F → List ℕ → ℕ → List (Stage T M N B) × Result E (List F)
  unfolding visit
  run_chain [] state logits tokens sequence_id = ([], ok logits)
  run_chain (n ∷ ns) state logits tokens sequence_id =
      let (b, r) = visit n.backend state n.start_layer n.end_layer tokens sequence_id in
      let n' = record n { backend = b } in
      elim r [
        | err e ↦ (n' ∷ ns, err e)
        | ok (state', logits') ↦
            let (ns', out) = run_chain ns state' logits' tokens sequence_id in (n' ∷ ns', out)
      ]

  -- The input of the first layer.
  unfoldable pub embedded : Option B → List ℕ → Result E T
  embedded tok_embeddings tokens = do
    tok ← ok_or (c.msg "entry node (start_layer 0) is missing token embeddings") tok_embeddings
    input ← token_tensor c tokens
    c.embed tok input

  -- The logits of a hidden state behind the last layer.
  unfoldable pub exit_logits : Ends M N B → T → ℕ → Result E (List F)
  exit_logits e hidden seq_len = do
    norm ← ok_or (c.msg "exit node is missing the final norm") e.norm
    output ← ok_or (c.msg "exit node is missing the output head") e.output
    logits ← project c norm output hidden seq_len
    c.to_vec1 logits

module _ {T Q M N B F E : Type 0} ⦃f : F32 F⦄ (c : Candle T Q M N B F E) where
  -- The node holds its slice `v` of a model with these ends: at least one layer, the embeddings if
  -- it is the first, and the norm and the head if it is the last.
  pub record IsSlice (e : Ends M N B) (n : Stage T M N B) (v : ModelWeights T M N B) : Type 0 where
    pub held : n.backend.model ≡ some v
    pub starts : v.layer_offset ≡ n.start_layer
    pub stops : n.end_layer ≡ n.start_layer + length v.layers
    pub filled : n.start_layer < n.end_layer
    pub total : v.total_layers ≡ e.total_layers
    pub entry : n.start_layer ≡ 0 → v.tok_embeddings ≡ e.tok_embeddings
    pub exit : n.end_layer ≡ e.total_layers → (v.norm ≡ e.norm) × (v.output ≡ e.output)
    pub masked : AreMasks c v.masks

  -- The slices of the nodes in turn are these layers, of which the first has this index.
  unfoldable pub Covers : Ends M N B → ℕ → List (LayerWeights T M N) → List (Stage T M N B) → Type 0
  Covers e start ls [] = (ls ≡ []) × (start ≡ e.total_layers)
  Covers e start ls (n ∷ ns) =
      (v : ModelWeights T M N B) × (rest : List (LayerWeights T M N)) × IsSlice e n v
      × (n.start_layer ≡ start)
      × (ls ≡ v.layers ++ rest)
      × Covers e n.end_layer rest ns

  -- The backend holds a whole model with these ends, and the nodes hold it in slices, with the same
  -- caches of keys and values.
  pub record Simulates (e : Ends M N B) (b : CandleBackend T M N B) (ns : List (Stage T M N B))
      : Type 0 where
    pub w : ModelWeights T M N B
    pub whole : IsSlice e (record { backend = b; start_layer = 0; end_layer = e.total_layers }) w
    pub covered : Covers e 0 w.layers ns
