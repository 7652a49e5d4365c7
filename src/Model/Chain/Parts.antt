-- ===== src/Model/Chain/Parts.antt =====
-- The parts of a file, and how slices divide it: `from_gguf` and `from_gguf_partial` of
-- `src/quantized_llama.rs`.
use neural_swarm_ai.Common.{
  ℕ, ◌-◌, ◌<◌, ◌≤◌, ◌≡◌, refl, ap, subst, ◌∙◌, Bool, true, false, leb, ◌==◌, Option, none, List, [],
  ◌∷◌, length, ok, arith,
}
use neural_swarm_ai.Float.{F32}
use neural_swarm_ai.Model.Tensors.{Candle}
use neural_swarm_ai.Model.Experts.{QMatMul}
use neural_swarm_ai.Model.Layers.{LayerWeights}
use neural_swarm_ai.Model.Weights.{ModelWeights}
use neural_swarm_ai.Model.Gguf.{Content, slice_start, slice_end, Hyper, Shared, hyper, load_layers}
use neural_swarm_ai.Model.Loading.{
  load_shared, load_entry, load_exit, from_gguf, block_count_or_zero,
}
use neural_swarm_ai.Model.Partial.{slice_of, partial_inversion, hyper-block_count}
use neural_swarm_ai.Model.Chain.{Ends}

-- Slices of at least one layer each, from the layer `lo` to the last of `total`.
unfoldable pub IsPartition : ℕ → ℕ → List ℕ → Type 0
IsPartition total lo [] = lo ≡ total
IsPartition total lo (hi ∷ cuts) = (lo < hi) × IsPartition total hi cuts

pub IsPartition-le : (total lo : ℕ) (cuts : List ℕ) → IsPartition total lo cuts → lo ≤ total
unfolding IsPartition
IsPartition-le total lo [] h = omega arith
IsPartition-le total lo (hi ∷ cuts) (h, rest) =
    let below = IsPartition-le total hi cuts rest in omega arith

pub sub_zero : (n : ℕ) → n - 0 ≡ n
sub_zero n = omega arith

pub length_zero : {A : Type 0} (xs : List A) → length xs ≡ 0 → xs ≡ []
length_zero [] h = refl
length_zero (x ∷ xs) h = absurd (omega arith)

-- The ends of a model with these parts.
abbrev pub ends_with :
    {M N B F : Type 0} → Hyper F → Option B → Option N × Option (QMatMul M) → Ends M N B
ends_with h tok last = record {
  tok_embeddings = tok;
  norm = last.0;
  output = last.1;
  total_layers = h.block_count;
}

abbrev pub ends_of : {T M N B : Type 0} → ModelWeights T M N B → Ends M N B
ends_of w = record {
  tok_embeddings = w.tok_embeddings;
  norm = w.norm;
  output = w.output;
  total_layers = w.total_layers;
}

module _ {T Q M N B V F E : Type 0} ⦃f : F32 F⦄ (c : Candle T Q M N B F E)
    (ct : Content Q V F E) where
  -- What is loaded of the ends at a slice, if the ends of the whole file load.
  pub entry_any :
      (h : Hyper F) (tok : Option B) (q : Bool)
      → load_entry c ct h true ≡ ok tok
      → (tok' : Option B) × (load_entry c ct h q ≡ ok tok') × (q ≡ true → tok' ≡ tok)
  unfolding load_entry
  entry_any h tok true e = (tok, e, λ k. refl)
  entry_any h tok false e = (none, refl, λ k. cc k)

  pub exit_any :
      (h : Hyper F) (last : Option N × Option (QMatMul M)) (q : Bool)
      → load_exit c ct h true ≡ ok last
      → (last' : Option N × Option (QMatMul M)) × (load_exit c ct h q ≡ ok last')
        × (q ≡ true → last' ≡ last)
  unfolding load_exit
  exit_any h last true e = (last, e, λ k. refl)
  exit_any h last false e = ((none, none), refl, λ k. cc k)

  pub whole_parts :
      (w : ModelWeights T M N B)
      → from_gguf c ct ≡ ok w
      → (h : Hyper F) × (shared : Shared T) × (tok : Option B) × (last : Option N
          × Option (QMatMul M))
        × (ls : List (LayerWeights T M N)) × (hyper c ct ≡ ok h)
        × (load_shared c ct h ≡ ok shared)
        × (load_entry c ct h true ≡ ok tok)
        × (load_exit c ct h true ≡ ok last)
        × (load_layers c ct h shared 0 h.block_count ≡ ok ls)
        × (w ≡ slice_of c ct h 0 tok last ls)
  unfolding from_gguf
  whole_parts w e =
      let (h, shared, tok, last, ls, e₁, e₂, e₃, e₄, e₅, made) =
        partial_inversion c ct 0 (block_count_or_zero c ct) w e in
      let n = h.block_count in
      let blocks = hyper-block_count c ct h e₁ in
      let start : slice_start n 0 ≡ 0 = omega arith in
      let stop : slice_end n 0 (block_count_or_zero c ct) ≡ n = omega arith in
      let all : slice_end n 0 (block_count_or_zero c ct) - slice_start n 0 ≡ n = omega arith in
      let last_one : leb n (slice_end n 0 (block_count_or_zero c ct)) ≡ true = grind arith in
      (
        h,
        shared,
        tok,
        last,
        ls,
        e₁,
        e₂,
        subst (λ k. load_entry c ct h (k == 0) ≡ ok tok) start e₃,
        subst (λ q. load_exit c ct h q ≡ ok last) last_one e₄,
        subst (λ k. load_layers c ct h shared k n ≡ ok ls) start
            (subst (λ k. load_layers c ct h shared (slice_start n 0) k ≡ ok ls) all e₅),
        made ∙ ap (λ k. slice_of c ct h k tok last ls) start,
      )
