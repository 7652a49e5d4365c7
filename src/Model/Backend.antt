-- ===== src/Model/Backend.antt =====
-- `src/candle_backend.rs`: the backend that holds a slice of a model. What `bincode` and the opening of
-- a file or a URL do is an interface; the device is fixed.
use neural_swarm_ai.Common.{
  ℕ, ◌+◌, ◌-◌, min, max, Bool, false, ltb, leb, ◌==◌, ◌&&◌, if◌then◌else◌, String, Option, none,
  some, List, [], ◌∷◌, map, length, Result, ok, err, ok_or, ◌>>=◌,
}
use neural_swarm_ai.Float.{F32, zero_f}
use neural_swarm_ai.Protocol.{Bytes}
use neural_swarm_ai.Executor.Backend.{InferenceBackend}
use neural_swarm_ai.Model.Tensors.{Candle}
use neural_swarm_ai.Model.Layers.{run_slice}
use neural_swarm_ai.Model.Weights.{ModelWeights, mask_for, token_tensor, project}
use neural_swarm_ai.Model.Gguf.{Content}
use neural_swarm_ai.Model.Loading.{from_gguf_partial, from_gguf}

pub data ModelSource : Type 0 where
  path url : String → ModelSource

pub record CandleBackend (T M N B : Type 0) : Type 0 where
  pub model : Option (ModelWeights T M N B)
  pub intermediate_state : Option T
  pub source : Option ModelSource
  pub loaded_range : Option (ℕ × ℕ)  -- u32

-- `F32`, and `Q8_0` with its scale and the bit patterns of its `i8`s.
pub data KvCacheState (F : Type 0) : Type 0 where
  plain : (dims : ℕ × ℕ × ℕ) (values : List F) → KvCacheState F
  q8_0 : (dims : ℕ × ℕ × ℕ) (scale : F) (values : List ℕ) → KvCacheState F

-- `bincode` on a state and, for an older format, on the plain dimensions and values; and the header
-- of a model, read from its source.
pub record Storage (Q V F E : Type 0) : Type 0 where
  pub serialize : KvCacheState F → Result E Bytes
  pub deserialize : Bytes → Result E (KvCacheState F)
  pub deserialize_old : Bytes → Result E ((ℕ × ℕ × ℕ) × List F)
  pub open_model : ModelSource → Result E (Content Q V F E)

abbrev pub same_range : Option (ℕ × ℕ) → ℕ → ℕ → Bool
same_range none lo hi = false
same_range (some (a, b)) lo hi = a == lo && b == hi

module _ {T M N B : Type 0} where
  abbrev pub new_backend : CandleBackend T M N B
  new_backend = record {
    model = none;
    intermediate_state = none;
    source = none;
    loaded_range = none;
  }

  -- `set_model_source` with a path, and `set_model_url` with a URL.
  unfoldable pub set_source : CandleBackend T M N B → ModelSource → CandleBackend T M N B
  set_source b source = record b { source = some source; model = none; loaded_range = none }

  abbrev pub is_loaded : CandleBackend T M N B → ℕ → ℕ → Bool
  is_loaded b lo hi = elim b.model [ none ↦ false | some w ↦ same_range b.loaded_range lo hi ]

  -- The input of a node that is not the entry: the state is taken.
  unfoldable pub take_state : CandleBackend T M N B → CandleBackend T M N B
  take_state b = record b { intermediate_state = none }

module _ {T Q M N B V F E : Type 0} ⦃f : F32 F⦄ (c : Candle T Q M N B F E)
    (s : Storage Q V F E) where
  unfoldable pub load_model :
      CandleBackend T M N B → String → CandleBackend T M N B × Result E (Unit {0})
  unfolding from_gguf
  load_model b filename = elim (do ct ← s.open_model (path filename); from_gguf c ct) [
    | err e ↦ (b, err e)
    | ok w ↦ (
      record b {
        model = some w;
        source = some (path filename);
        loaded_range = some (0, w.total_layers);
      },
      ok tt,
    )
  ]

  -- What `load_layer_range` reads from the source.
  unfoldable pub read_slice : CandleBackend T M N B → ℕ → ℕ → Result E (ModelWeights T M N B)
  unfolding from_gguf_partial
  read_slice b lo hi = do
    source ← ok_or (c.msg "CandleBackend: no model source set") b.source
    ct ← s.open_model source
    from_gguf_partial c ct lo hi

  unfoldable pub load_layer_range :
      CandleBackend T M N B → ℕ → ℕ → CandleBackend T M N B × Result E (Unit {0})
  unfolding read_slice
  load_layer_range b lo hi = if is_loaded b lo hi then (b, ok tt) else elim (read_slice b lo hi) [
    | err e ↦ (b, err e)
    | ok w ↦ (
      record b { model = some w; loaded_range = some (lo, hi); intermediate_state = none },
      ok tt,
    )
  ]

  -- `(v as f32) * scale` of the bit pattern of an `i8`.
  abbrev of_i8 : F → ℕ → F
  of_i8 scale v = f.mul (if ltb v 128 then f.lit v 1 else f.sub zero_f (f.lit (256 - v) 1)) scale

  unfoldable pub values_of : KvCacheState F → (ℕ × ℕ × ℕ) × List F
  values_of (plain dims values) = (dims, values)
  values_of (q8_0 dims scale values) = (dims, map (of_i8 scale) values)

  unfoldable pub decode : Bytes → Result E ((ℕ × ℕ × ℕ) × List F)
  unfolding values_of
  decode state = elim (s.deserialize state) [
    | ok k ↦ ok (values_of k)
    | err e ↦ s.deserialize_old state
  ]

  unfoldable pub set_state :
      CandleBackend T M N B → Bytes → CandleBackend T M N B × Result E (Unit {0})
  unfolding decode
  set_state b [] = (b, ok tt)
  set_state b (byte ∷ bytes) =
      elim (do (dims, values) ← decode (byte ∷ bytes); c.from_vec values dims) [
        | err e ↦ (b, err e)
        | ok tensor ↦ (record b { intermediate_state = some tensor }, ok tt)
      ]

  -- The bytes of a hidden state.
  unfoldable pub encode : T → Result E Bytes
  encode state = do dims ← c.dims3 state; values ← c.to_vec1 state; s.serialize (plain dims values)

  unfoldable pub get_state : CandleBackend T M N B → Result E Bytes
  unfolding encode
  get_state b = elim b.intermediate_state [ none ↦ ok [] | some state ↦ encode state ]

  -- The input of the layers: embedded tokens at layer 0, else the state, which is taken.
  unfoldable pub layer_input :
      CandleBackend T M N B → ModelWeights T M N B → ℕ → List ℕ → CandleBackend T M N B × Result E T
  unfolding token_tensor take_state
  layer_input b w start_layer tokens =
      if start_layer == 0
      then (
        b,
        do
          tok ←
              ok_or (c.msg "entry node (start_layer 0) is missing token embeddings")
                w.tok_embeddings
          input ← token_tensor c tokens
          c.embed tok input,
      )
      else elim b.intermediate_state [
        | some state ↦ (take_state b, ok state)
        | none ↦ (b, err (c.msg "non-entry node received no upstream hidden state"))
      ]

  -- The logits at the exit, and none before it.
  unfoldable pub logits_of : ModelWeights T M N B → ℕ → T → ℕ → Result E (List F)
  unfolding project
  logits_of w end_layer hidden seq_len =
      if leb w.total_layers end_layer
      then (do
        norm ← ok_or (c.msg "exit node is missing the final norm") w.norm
        output ← ok_or (c.msg "exit node is missing the output head") w.output
        logits ← project c norm output hidden seq_len
        c.to_vec1 logits)
      else ok []

  -- The layers of the range that the node holds.
  unfoldable pub run_held :
      ModelWeights T M N B → ℕ → ℕ → T → Option T → ℕ → ModelWeights T M N B × Result E T
  unfolding run_slice
  run_held w start_layer end_layer x mask index_pos =
      let local_end = min end_layer (w.layer_offset + length w.layers) in
      let local_start = max start_layer w.layer_offset in
      let (ls, r) =
        run_slice c (local_start - w.layer_offset) (local_end - local_start) w.layers x mask
          index_pos in
      (record w { layers = ls }, r)

  -- What becomes of the hidden state behind the layers of the range.
  unfoldable pub finish :
      CandleBackend T M N B
      → ℕ
      → ℕ
      → ModelWeights T M N B × Result E T
      → CandleBackend T M N B × Result E (List F)
  unfolding logits_of
  finish b end_layer seq_len (w, err e) = (record b { model = some w }, err e)
  finish b end_layer seq_len (w, ok hidden) = (
    record b { model = some w; intermediate_state = some hidden },
    logits_of w end_layer hidden seq_len,
  )

  -- `run_layers` with its input.
  unfoldable pub run_input :
      CandleBackend T M N B
      → ModelWeights T M N B
      → ℕ
      → ℕ
      → T
      → ℕ
      → ℕ
      → CandleBackend T M N B × Result E (List F)
  unfolding mask_for run_held finish
  run_input b w start_layer end_layer x seq_len index_pos =
      let (w₁, masked) = mask_for c w seq_len in
      elim masked [
        | err e ↦ (record b { model = some w₁ }, err e)
        | ok mask ↦ finish b end_layer seq_len (run_held w₁ start_layer end_layer x mask index_pos)
      ]

  unfoldable pub run_layers :
      CandleBackend T M N B → ℕ → ℕ → List ℕ → ℕ → CandleBackend T M N B × Result E (List F)
  unfolding layer_input run_input
  run_layers b start_layer end_layer tokens sequence_id = elim b.model [
    | none ↦ (b, ok [])
    | some w ↦
        let (b', input) = layer_input b w start_layer tokens in
        elim input [
          | err e ↦ (b', err e)
          | ok x ↦ run_input b' w start_layer end_layer x (length tokens) sequence_id
        ]
  ]

  abbrev pub candle_backend : InferenceBackend F (CandleBackend T M N B) E
  candle_backend = record {
    ensure_layers = load_layer_range;
    set_state = set_state;
    get_state = get_state;
    run_layers = run_layers;
  }
