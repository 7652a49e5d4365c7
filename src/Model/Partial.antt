-- ===== src/Model/Partial.antt =====
-- Slices of one file, as `from_gguf_partial` of `src/quantized_llama.rs` loads them.
use neural_swarm_ai.Common.{
  ℕ, zero, suc, ◌+◌, ◌-◌, ◌/◌, if◌then◌else◌, ◌≤◌, ◌≡◌, refl, sym, ap, subst, min, max, leb, ◌==◌,
  Option, List, [], ◌∷◌, ◌++◌, length, ok, err, ◌>>=◌, bind_inversion, ok_injective, arith,
}
use neural_swarm_ai.Float.{F32}
use neural_swarm_ai.Model.Tensors.{Candle}
use neural_swarm_ai.Model.Experts.{QMatMul}
use neural_swarm_ai.Model.Layers.{LayerWeights}
use neural_swarm_ai.Model.Weights.{ModelWeights}
use neural_swarm_ai.Model.Gguf.{
  Content, Hyper, Shared, slice_start, slice_end, hyper, load_layer, load_layers, md_get,
  architecture,
}
use neural_swarm_ai.Model.Loading.{
  load_shared, load_entry, load_exit, from_gguf_partial, from_gguf, block_count_or_zero,
}

module _ {T Q M N B V F E : Type 0} ⦃f : F32 F⦄ (c : Candle T Q M N B F E)
    (ct : Content Q V F E) where
  pub length-load_layers :
      (h : Hyper F) (shared : Shared T) (i n : ℕ) (ls : List (LayerWeights T M N))
      → load_layers c ct h shared i n ≡ ok ls
      → length ls ≡ n
  unfolding load_layers
  length-load_layers h shared i zero ls e = cc
  length-load_layers h shared i (suc n) ls e =
      let (l, e₁, r₁) = bind_inversion (load_layer c ct h shared i) _ e in
      let (rest, e₂, r₂) = bind_inversion (load_layers c ct h shared (i + 1) n) _ r₁ in
      let ih = length-load_layers h shared (i + 1) n rest e₂ in cc

  -- Layers that load together load in two parts.
  pub load_layers_split :
      (h : Hyper F) (shared : Shared T) (i m n t k : ℕ) (ls : List (LayerWeights T M N))
      → t ≡ m + n
      → k ≡ i + m
      → load_layers c ct h shared i t ≡ ok ls
      → (xs : List (LayerWeights T M N)) × (ys : List (LayerWeights T M N)) × (load_layers c ct h
            shared i m
          ≡ ok xs)
        × (load_layers c ct h shared k n ≡ ok ys)
        × (ls ≡ xs ++ ys)
  unfolding load_layers
  load_layers_split h shared i zero n t k ls p q e =
      let same : t ≡ n = omega arith in
      let here : k ≡ i = omega arith in ([], ls, refl, rw (here, ← same) e, refl)
  load_layers_split h shared i (suc m) n t k ls p q e =
      let more : t ≡ suc (m + n) = omega arith in
      let e₀ = subst (λ j. load_layers c ct h shared i j ≡ ok ls) more e in
      let (l, e₁, r₁) = bind_inversion (load_layer c ct h shared i) _ e₀ in
      let (rest, e₂, r₂) = bind_inversion (load_layers c ct h shared (i + 1) (m + n)) _ r₁ in
      let (xs, ys, first, second, cut) =
        load_layers_split h shared (i + 1) m n (m + n) k rest refl (omega arith) e₂ in
      (l ∷ xs, ys, rw (load_layers, e₁, first) refl, second, cc)

  -- The slice from the layer `start` on, with its parts.
  abbrev pub slice_of :
      Hyper F
      → ℕ
      → Option B
      → Option N × Option (QMatMul M)
      → List (LayerWeights T M N)
      → ModelWeights T M N B
  slice_of h start tok last ls = record {
    tok_embeddings = tok;
    layers = ls;
    norm = last.0;
    output = last.1;
    layer_offset = start;
    total_layers = h.block_count;
    masks = [];
  }

  -- What a slice of the file is made of.
  pub partial_inversion :
      (lo hi : ℕ) (w : ModelWeights T M N B)
      → from_gguf_partial c ct lo hi ≡ ok w
      → (h : Hyper F) × (shared : Shared T) × (tok : Option B) × (last : Option N
          × Option (QMatMul M))
        × (ls : List (LayerWeights T M N)) × (hyper c ct ≡ ok h)
        × (load_shared c ct h ≡ ok shared)
        × (load_entry c ct h (slice_start h.block_count lo == 0) ≡ ok tok)
        × (load_exit c ct h (leb h.block_count (slice_end h.block_count lo hi)) ≡ ok last)
        × (load_layers c ct h shared
              (slice_start h.block_count lo)
              (slice_end h.block_count lo hi - slice_start h.block_count lo)
            ≡ ok ls)
        × (w ≡ slice_of h (slice_start h.block_count lo) tok last ls)
  unfolding from_gguf_partial
  partial_inversion lo hi w e =
      let (h, e₁, r₁) = bind_inversion (hyper c ct) _ e in
      let (shared, e₂, r₂) = bind_inversion (load_shared c ct h) _ r₁ in
      let (tok, e₃, r₃) =
        bind_inversion (load_entry c ct h (slice_start h.block_count lo == 0)) _ r₂ in
      let (last, e₄, r₄) =
        bind_inversion (load_exit c ct h (leb h.block_count (slice_end h.block_count lo hi))) _
          r₃ in
      let (ls, e₅, r₅) =
        bind_inversion
          (load_layers c ct h shared (slice_start h.block_count lo)
            (slice_end h.block_count lo hi - slice_start h.block_count lo))
          _ r₄ in
      (h, shared, tok, last, ls, e₁, e₂, e₃, e₄, e₅, sym (ok_injective r₅))

  pub slice_bounds :
      (n lo hi : ℕ) → lo ≤ hi → hi ≤ n → (slice_start n lo ≡ lo) × (max (min hi n) lo ≡ hi)
  slice_bounds n lo hi p q = omega arith

  -- What makes a slice of the file.
  pub partial_ok :
      (h : Hyper F) (shared : Shared T) (tok : Option B) (last : Option N × Option (QMatMul M))
      (ls : List (LayerWeights T M N)) (lo hi : ℕ)
      → lo ≤ hi
      → hi ≤ h.block_count
      → hyper c ct ≡ ok h
      → load_shared c ct h ≡ ok shared
      → load_entry c ct h (lo == 0) ≡ ok tok
      → load_exit c ct h (leb h.block_count hi) ≡ ok last
      → load_layers c ct h shared lo (hi - lo) ≡ ok ls
      → from_gguf_partial c ct lo hi ≡ ok (slice_of h lo tok last ls)
  unfolding from_gguf_partial
  partial_ok h shared tok last ls lo hi p q e₁ e₂ e₃ e₄ e₅ =
      let (start, stop) = slice_bounds h.block_count lo hi p q in
      rw (from_gguf_partial, e₁, e₂, start, e₃, stop, e₄, e₅) refl

  pub hyper-block_count :
      (h : Hyper F) → hyper c ct ≡ ok h → block_count_or_zero c ct ≡ h.block_count
  unfolding hyper block_count_or_zero
  hyper-block_count h e =
      let arch = architecture c ct in
      let (heads, e₁, r₁) =
        bind_inversion (md_get c ct arch "attention.head_count" >>= ct.to_u32) _ e in
      let (kv, e₂, r₂) =
        bind_inversion (md_get c ct arch "attention.head_count_kv" >>= ct.to_u32) _ r₁ in
      let (blocks, e₃, r₃) = bind_inversion (md_get c ct arch "block_count" >>= ct.to_u32) _ r₂ in
      let (width, e₄, r₄) =
        bind_inversion (md_get c ct arch "embedding_length" >>= ct.to_u32) _ r₃ in
      let (dim, e₅, r₅) =
        bind_inversion (if heads == 0 then err c.panic else ok (width / heads)) _ r₄ in
      let (eps, e₆, r₆) =
        bind_inversion (md_get c ct arch "attention.layer_norm_rms_epsilon" >>= ct.to_f32) _ r₅ in
      let blocks_of : blocks ≡ h.block_count = ap (λ k. k.block_count) (ok_injective r₆) in
      rw (block_count_or_zero, e₃) blocks_of

  -- The whole file is one slice.
  pub from_gguf_whole :
      (h : Hyper F) → hyper c ct ≡ ok h → from_gguf c ct ≡ from_gguf_partial c ct 0 h.block_count
  unfolding from_gguf
  from_gguf_whole h e = ap (λ n. from_gguf_partial c ct 0 n) (hyper-block_count h e)
