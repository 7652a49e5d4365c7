-- ===== src/Model/Tensors.antt =====
-- What `src/quantized_llama.rs` and `src/candle_backend.rs` call of candle, as an interface: `T` is
-- a tensor, `Q` a quantized tensor, `M` candle's own `QMatMul`, `N` an `RmsNorm`, `B` an `Embedding`,
-- `F` an `f32`, and `E` an error. The device is fixed. An operation is a function of its arguments.
use Prim.Native.Nat.{Ordering}
use neural_swarm_ai.Common.{ℕ, Bool, String, List, Result}

pub record Candle (T Q M N B F E : Type 0) : Type 0 where
  -- `Error::Msg`, and the end of the thread by a panic.
  pub msg : String → E
  pub panic : E
  -- Layers: `QMatMul::from_qtensor`, `RmsNorm::from_qtensor` and `Embedding::new`, with `forward`.
  pub dequantize : Q → Result E T
  pub matmul_of : Q → Result E M
  pub matmul_forward : M → T → Result E T
  pub norm_of : Q → F → Result E N
  pub norm_forward : N → T → Result E T
  pub embedding_of : T → ℕ → B
  pub embed : B → T → Result E T
  -- New tensors: of `u32`s, of `f32`s, of the `u8`s of a square matrix, of one `f32`.
  pub of_u32s : List ℕ → Result E T
  pub of_f32s : List F → Result E T
  pub of_square : List ℕ → ℕ → Result E T
  pub neg_infinity : Result E T
  pub zeros_like : T → Result E T
  -- Shapes. `rows` is `reshape(((), n))`.
  pub dims2 : T → Result E (ℕ × ℕ)
  pub dims3 : T → Result E (ℕ × ℕ × ℕ)
  pub dims4 : T → Result E (ℕ × ℕ × ℕ × ℕ)
  pub reshape : T → List ℕ → Result E T
  pub rows : T → ℕ → Result E T
  pub unsqueeze : T → ℕ → Result E T
  pub transpose : T → ℕ → ℕ → Result E T
  pub contiguous : T → Result E T
  pub narrow : T → ℕ → ℕ → ℕ → Result E T
  pub cat : List T → ℕ → Result E T
  pub repeat_kv : T → ℕ → Result E T
  -- `x.i((.., n, ..))`
  pub position : T → ℕ → Result E T
  pub index_select : T → T → ℕ → Result E T
  pub index_add : T → T → T → ℕ → Result E T
  -- Arithmetic. `div_sqrt x n` is `x / (n as f64).sqrt()`; `sdpa` has the scale `1. / (n as f32).sqrt()`.
  pub add : T → T → Result E T
  pub mul : T → T → Result E T
  pub broadcast_add : T → T → Result E T
  pub broadcast_mul : T → T → Result E T
  pub matmul : T → T → Result E T
  pub t : T → Result E T
  pub div_sqrt : T → ℕ → Result E T
  pub silu : T → Result E T
  pub softmax_last_dim : T → Result E T
  pub rope_i : T → T → T → Result E T
  pub sdpa : T → T → T → ℕ → Result E T
  pub is_metal : T → Bool
  -- `mask.where_cond(&on_true.broadcast_as(mask.shape())?, on_false)`, and `mask.broadcast_as(x.shape())`.
  pub where_cond : T → T → T → Result E T
  pub broadcast_as : T → T → Result E T
  -- The values: of a matrix, and of a flattened tensor, each as `f32`s.
  pub to_vec2 : T → Result E (List (List F))
  pub to_vec1 : T → Result E (List F)
  pub from_vec : List F → ℕ × ℕ × ℕ → Result E T
  -- `arange(0, n)` as `f32`s, and the cosine and sine of each element.
  pub arange : ℕ → Result E T
  pub cos : T → Result E T
  pub sin : T → Result E T
  -- `f32::powf` and `f32::total_cmp`
  pub powf : F → F → F
  pub total_cmp : F → F → Ordering
