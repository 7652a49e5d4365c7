-- ===== src/Tests/Tiny.antt =====
-- A model of three layers with one number for each weight, its file, and its tensors.
use Prim.Native.Nat.{compare}
use neural_swarm_ai.Common.{
  ℕ, zero, suc, ◌≡◌, refl, sym, ap, ◌∙◌, ok_injective, false, str_eq, if◌then◌else◌, String, none,
  some, List, [], ◌∷◌, ◌++◌, map, length, Result, ok, err, unwrap_or, arith,
}
use neural_swarm_ai.Float.{Fixed, nan, pos, neg, fixed_f32, add_fixed, mul_fixed}
use neural_swarm_ai.Protocol.{Bytes}
use neural_swarm_ai.Model.Tensors.{Candle}
use neural_swarm_ai.Model.Weights.{ModelWeights}
use neural_swarm_ai.Model.Gguf.{Content}
use neural_swarm_ai.Model.Loading.{from_gguf}
use neural_swarm_ai.Model.Handover.{IsLawful}
use neural_swarm_ai.Model.Backend.{KvCacheState, plain, q8_0, Storage}
use neural_swarm_ai.Model.Chain.Parts.{IsPartition}

pub record Grid : Type 0 where
  pub dims : ℕ × ℕ × ℕ
  pub vals : List Fixed

abbrev pub grid : ℕ → List Fixed → Grid
grid n xs = record { dims = (1, n, 1); vals = xs }

abbrev total : List Fixed → Fixed
total [] = pos 0
total (x ∷ xs) = add_fixed x (total xs)

abbrev add_all : List Fixed → List Fixed → List Fixed
add_all [] ys = []
add_all (x ∷ xs) [] = []
add_all (x ∷ xs) (y ∷ ys) = add_fixed x y ∷ add_all xs ys

abbrev scaled : Fixed → Grid → Grid
scaled w x = record x { vals = map (mul_fixed w) x.vals }

abbrev first_of : Grid → Fixed
first_of x = elim x.vals [ [] ↦ nan | v ∷ vs ↦ v ]

abbrev joined : List Grid → List Fixed
joined [] = []
joined (x ∷ xs) = x.vals ++ joined xs

abbrev pub tiny : Candle Grid Fixed Fixed Fixed Fixed Fixed String
tiny = record {
  msg = λ m. m;
  panic = "panic";
  dequantize = λ q. ok (grid 1 (q ∷ []));
  matmul_of = λ q. ok q;
  matmul_forward = λ w x. ok (scaled w x);
  norm_of = λ q eps. ok q;
  norm_forward = λ w x. ok (scaled w x);
  embedding_of = λ x n. first_of x;
  embed = λ w x. ok (scaled w x);
  of_u32s = λ ids. ok (grid (length ids) (map (λ i. fixed_f32.lit i 1) ids));
  of_f32s = λ vs. ok (grid (length vs) vs);
  of_square = λ bits n. ok (grid n (map (λ i. fixed_f32.lit i 1) bits));
  neg_infinity = ok (grid 1 (neg 999 ∷ []));
  zeros_like = λ x. ok (scaled (pos 0) x);
  dims2 = λ x. ok (1, length x.vals);
  dims3 = λ x. ok x.dims;
  dims4 = λ x. ok (1, 1, length x.vals, 1);
  reshape = λ x shape. ok x;
  rows = λ x n. ok x;
  unsqueeze = λ x n. ok x;
  transpose = λ x i j. ok x;
  contiguous = λ x. ok x;
  narrow = λ x i from n. ok x;
  cat = λ xs i. ok (grid (length (joined xs)) (joined xs));
  repeat_kv = λ x n. ok x;
  position = λ x n. ok x;
  index_select = λ x ids i. ok x;
  index_add = λ x ids y i. ok x;
  add = λ x y. ok (record { dims = y.dims; vals = add_all x.vals y.vals });
  mul = λ x y. ok x;
  broadcast_add = λ x y. ok x;
  broadcast_mul = λ x y. ok x;
  matmul = λ x y. ok (record x { vals = map (add_fixed (total y.vals)) x.vals });
  t = λ x. ok x;
  div_sqrt = λ x n. ok x;
  silu = λ x. ok x;
  softmax_last_dim = λ x. ok x;
  rope_i = λ x cos sin. ok x;
  sdpa = λ q k v n. ok q;
  is_metal = λ x. false;
  where_cond = λ mask on_true on_false. ok on_false;
  broadcast_as = λ mask x. ok mask;
  to_vec2 = λ x. ok (x.vals ∷ []);
  to_vec1 = λ x. ok x.vals;
  from_vec = λ vs d. ok (record { dims = d; vals = vs });
  arange = λ n. ok (grid 1 (pos n ∷ []));
  cos = λ x. ok x;
  sin = λ x. ok x;
  powf = λ x y. x;
  total_cmp = λ x y. compare 0 0;
}

abbrev write_values : List Fixed → Bytes
write_values [] = []
write_values (nan ∷ xs) = 0 ∷ 0 ∷ write_values xs
write_values (pos n ∷ xs) = 1 ∷ n ∷ write_values xs
write_values (neg n ∷ xs) = 2 ∷ n ∷ write_values xs

abbrev read_values : Bytes → List Fixed
read_values (zero ∷ n ∷ bytes) = nan ∷ read_values bytes
read_values (suc zero ∷ n ∷ bytes) = pos n ∷ read_values bytes
read_values (suc (suc k) ∷ n ∷ bytes) = neg n ∷ read_values bytes
read_values (k ∷ []) = []
read_values [] = []

read_write : (xs : List Fixed) → read_values (write_values xs) ≡ xs
read_write [] = refl
read_write (nan ∷ xs) = ap (λ k. nan ∷ k) (read_write xs)
read_write (pos n ∷ xs) = ap (λ k. pos n ∷ k) (read_write xs)
read_write (neg n ∷ xs) = ap (λ k. neg n ∷ k) (read_write xs)

-- A state is a tag, its dimensions and its values, each value after its sign.
abbrev write_state : KvCacheState Fixed → Bytes
write_state (plain (a, b, c) vs) = 0 ∷ a ∷ b ∷ c ∷ write_values vs
write_state (q8_0 (a, b, c) scale vs) = 1 ∷ a ∷ b ∷ c ∷ write_values (scale ∷ []) ++ vs

abbrev read_scaled : ℕ × ℕ × ℕ → Bytes → Result String (KvCacheState Fixed)
read_scaled d (zero ∷ n ∷ vs) = ok (q8_0 d nan vs)
read_scaled d (suc zero ∷ n ∷ vs) = ok (q8_0 d (pos n) vs)
read_scaled d (suc (suc k) ∷ n ∷ vs) = ok (q8_0 d (neg n) vs)
read_scaled d (k ∷ []) = err "state"
read_scaled d [] = err "state"

abbrev read_state : Bytes → Result String (KvCacheState Fixed)
read_state (zero ∷ a ∷ b ∷ c ∷ bytes) = ok (plain (a, b, c) (read_values bytes))
read_state (suc k ∷ a ∷ b ∷ c ∷ bytes) = read_scaled (a, b, c) bytes
read_state _ = err "state"

-- The file of a model of three layers with the hidden size 1.
abbrev pub file : Content Fixed ℕ Fixed String
file = record {
  metadata = λ key.
      if str_eq key "llama.block_count"
      then some 3
      else if str_eq key "general.architecture"
      then none
      else some 1;
  to_string = λ v. err "string";
  to_u32 = λ v. ok v;
  to_f32 = λ v. ok (fixed_f32.lit v 1);
  tensor = λ name. ok (pos (if str_eq name "blk.1.attn_v.weight" then 2000000 else 1000000));
}

abbrev pub disk : Storage Fixed ℕ Fixed String
disk = record {
  serialize = λ k. ok (write_state k);
  deserialize = read_state;
  deserialize_old = λ bytes. err "state";
  open_model = λ source. ok file;
}

packed_plain :
    (d : ℕ × ℕ × ℕ) (vs : List Fixed) → read_state (write_state (plain d vs)) ≡ ok (plain d vs)
packed_plain (a, b, c) vs = ap (λ xs. ok (plain (a, b, c) xs)) (read_write vs)

packed_scaled :
    (d : ℕ × ℕ × ℕ) (x : Fixed) (vs : List ℕ)
    → read_state (write_state (q8_0 d x vs)) ≡ ok (q8_0 d x vs)
packed_scaled (a, b, c) nan vs = refl
packed_scaled (a, b, c) (pos n) vs = refl
packed_scaled (a, b, c) (neg n) vs = refl

disk-packed :
    (k : KvCacheState Fixed)
    → (byte : ℕ) × (rest : Bytes) × (disk.serialize k ≡ ok (byte ∷ rest))
      × (read_state (byte ∷ rest) ≡ ok k)
disk-packed (plain (a, b, c) vs) = (0, a ∷ b ∷ c ∷ write_values vs, refl, packed_plain (a, b, c) vs)
disk-packed (q8_0 (a, b, c) x vs) =
    (1, a ∷ b ∷ c ∷ write_values (x ∷ []) ++ vs, refl, packed_scaled (a, b, c) x vs)

pub tiny-IsLawful : IsLawful tiny disk
tiny-IsLawful = record {
  add_dims = λ a b x d h k. ap (λ y. ok y.dims) (sym (ok_injective h)) ∙ k;
  embed_dims = λ tok tokens ids x h k. (x.dims, refl);
  values = λ x d h.
      (x.vals, refl, ap (λ d'. ok (record { dims = d'; vals = x.vals })) (sym (ok_injective h)));
  packed = disk-packed;
}

abbrev nothing : ModelWeights Grid Fixed Fixed Fixed
nothing = record {
  tok_embeddings = none;
  layers = [];
  norm = none;
  output = none;
  layer_offset = 0;
  total_layers = 0;
  masks = [];
}

unfoldable pub model : ModelWeights Grid Fixed Fixed Fixed
unfolding from_gguf
model = unwrap_or (from_gguf tiny file) nothing

pub file-loads : from_gguf tiny file ≡ ok model
unfolding model from_gguf
file-loads = refl

pub model-three : model.total_layers ≡ 3
unfolding model from_gguf
model-three = refl

unfoldable pub cuts : List ℕ
cuts = 1 ∷ 3 ∷ []

pub cuts-IsPartition : IsPartition model.total_layers 0 cuts
unfolding IsPartition cuts model from_gguf
cuts-IsPartition = (omega arith, (omega arith, refl))
