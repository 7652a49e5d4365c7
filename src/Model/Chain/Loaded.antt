-- ===== src/Model/Chain/Loaded.antt =====
-- A pipeline whose nodes each load their slice of one file: `load_layer_range` and `load_model` of
-- `src/candle_backend.rs`.
use neural_swarm_ai.Common.{
  ℕ, ◌-◌, ◌<◌, ◌≤◌, ◌≡◌, refl, sym, ap, subst, ◌∙◌, true, leb, ◌==◌, String, Option, some, List, [],
  ◌∷◌, ◌++◌, length, ok, arith,
}
use neural_swarm_ai.Float.{F32}
use neural_swarm_ai.Model.Tensors.{Candle}
use neural_swarm_ai.Model.Experts.{QMatMul}
use neural_swarm_ai.Model.Layers.{LayerWeights}
use neural_swarm_ai.Model.Weights.{ModelWeights}
use neural_swarm_ai.Model.Masks.{AreMasks, no_masks}
use neural_swarm_ai.Model.Gguf.{Content, Hyper, Shared, hyper, load_layers}
use neural_swarm_ai.Model.Loading.{load_shared, load_entry, load_exit, from_gguf_partial, from_gguf}
use neural_swarm_ai.Model.Partial.{slice_of, length-load_layers, load_layers_split, partial_ok}
use neural_swarm_ai.Model.Backend.{
  ModelSource, path, Storage, new_backend, set_source, load_model, read_slice, load_layer_range,
}
use neural_swarm_ai.Model.Chain.{Stage, IsSlice, Covers, Simulates}
use neural_swarm_ai.Model.Chain.Parts.{
  IsPartition, IsPartition-le, sub_zero, length_zero, ends_with, ends_of, entry_any, exit_any,
  whole_parts,
}

module _ {T Q M N B V F E : Type 0} ⦃f : F32 F⦄ (c : Candle T Q M N B F E) (s : Storage Q V F E)
    (source : ModelSource) where
  -- A fresh node, with its source and its slice.
  unfoldable pub load_stage : ℕ → ℕ → Stage T M N B
  unfolding load_layer_range set_source
  load_stage lo hi = record {
    backend = (load_layer_range c s (set_source new_backend source) lo hi).0;
    start_layer = lo;
    end_layer = hi;
  }

  -- Fresh nodes that load the slices between these cuts.
  unfoldable pub load_chain : ℕ → List ℕ → List (Stage T M N B)
  unfolding load_stage
  load_chain lo [] = []
  load_chain lo (hi ∷ cuts) = load_stage lo hi ∷ load_chain hi cuts

  module _ (ct : Content Q V F E) (opened : s.open_model source ≡ ok ct) where
    load_stage_held :
        (lo hi : ℕ) (v : ModelWeights T M N B)
        → from_gguf_partial c ct lo hi ≡ ok v
        → (load_stage lo hi).backend.model ≡ some v
    unfolding load_stage load_layer_range read_slice set_source
    load_stage_held lo hi v e =
        let slice : read_slice c s (set_source new_backend source) lo hi ≡ ok v =
          rw (read_slice, opened) e in
        rw (load_stage, load_layer_range, slice) refl

    module _ (h : Hyper F) (shared : Shared T) (tok : Option B)
        (last : Option N × Option (QMatMul M)) (hyp : hyper c ct ≡ ok h)
        (sh : load_shared c ct h ≡ ok shared) (first : load_entry c ct h true ≡ ok tok)
        (end_parts : load_exit c ct h true ≡ ok last) where
      load_stage-IsSlice :
          (lo hi : ℕ) (xs : List (LayerWeights T M N))
          → lo < hi
          → hi ≤ h.block_count
          → load_layers c ct h shared lo (hi - lo) ≡ ok xs
          → (v : ModelWeights T M N B) × (v.layers ≡ xs)
            × IsSlice c (ends_with h tok last) (load_stage lo hi) v
      unfolding load_stage
      load_stage-IsSlice lo hi xs p q e =
          let (tok', e₁, k₁) = entry_any c ct h tok (lo == 0) first in
          let (last', e₂, k₂) = exit_any c ct h last (leb h.block_count hi) end_parts in
          let n = length-load_layers c ct h shared lo (hi - lo) xs e in
          let v = slice_of c ct h lo tok' last' xs in
          let got = partial_ok c ct h shared tok' last' xs lo hi (omega arith) q hyp sh e₁ e₂ e in
          (
            v,
            refl,
            record {
              held = load_stage_held lo hi v got;
              starts = refl;
              stops = omega arith;
              filled = p;
              total = refl;
              entry = λ z. k₁ (grind arith);
              exit = λ z.
                  let at_end : leb h.block_count hi ≡ true = grind arith in
                  (ap (λ l. l.0) (k₂ at_end), ap (λ l. l.1) (k₂ at_end));
              masked = no_masks c;
            },
          )

      load_chain-Covers :
          (lo : ℕ) (cuts : List ℕ) (ls : List (LayerWeights T M N))
          → IsPartition h.block_count lo cuts
          → load_layers c ct h shared lo (h.block_count - lo) ≡ ok ls
          → Covers c (ends_with h tok last) lo ls (load_chain lo cuts)
      unfolding load_chain Covers IsPartition
      load_chain-Covers lo [] ls part e =
          let n = length-load_layers c ct h shared lo (h.block_count - lo) ls e in
          (length_zero ls (omega arith), part)
      load_chain-Covers lo (hi ∷ cuts) ls (p, part) e =
          let q = IsPartition-le h.block_count hi cuts part in
          let (xs, ys, e₁, e₂, cut) =
            load_layers_split c ct h shared lo (hi - lo) (h.block_count - hi) (h.block_count - lo)
              hi ls (omega arith) (omega arith) e in
          let (v, same, sl) = load_stage-IsSlice lo hi xs p q e₁ in
          (
            v,
            ys,
            sl,
            refl,
            cut ∙ ap (λ k. k ++ ys) (sym same),
            load_chain-Covers hi cuts ys part e₂,
          )

module _ {T Q M N B V F E : Type 0} ⦃f : F32 F⦄ (c : Candle T Q M N B F E)
    (s : Storage Q V F E) where
  load_model_held :
      (ct : Content Q V F E) (filename : String) (w : ModelWeights T M N B)
      → s.open_model (path filename) ≡ ok ct
      → from_gguf c ct ≡ ok w
      → (load_model c s new_backend filename).0.model ≡ some w
  unfolding load_model
  load_model_held ct filename w opened e = rw (load_model, opened, e) refl

  -- If a file of at least one layer loads as a whole, then the slices between all cuts of its
  -- layers load from the same content, each on a node of its own, and the nodes hold what the whole
  -- holds: the layers in order, the embeddings at the first and the norm and the head at the last.
  pub load_chain-Simulates :
      (ct : Content Q V F E) (source : ModelSource) (filename : String) (w : ModelWeights T M N B)
      (cuts : List ℕ)
      → s.open_model source ≡ ok ct
      → s.open_model (path filename) ≡ ok ct
      → from_gguf c ct ≡ ok w
      → 0 < w.total_layers
      → IsPartition w.total_layers 0 cuts
      → Simulates c
          (ends_of w)
          (load_model c s new_backend filename).0
          (load_chain c s source 0 cuts)
  load_chain-Simulates ct source filename w cuts opened opened' e some_layers part =
      let (h, shared, tok, last, ls, e₁, e₂, e₃, e₄, e₅, made) = whole_parts c ct w e in
      let n = length-load_layers c ct h shared 0 h.block_count ls e₅ in
      let total : w.total_layers ≡ h.block_count = ap (λ k. k.total_layers) made in
      let ends : ends_of w ≡ ends_with h tok last = ap (λ k. ends_of k) made in
      let layers : w.layers ≡ ls = ap (λ k. k.layers) made in
      let counted : w.total_layers ≡ length w.layers = total ∙ sym n ∙ ap length (sym layers) in
      let covered =
        load_chain-Covers c s source ct opened h shared tok last e₁ e₂ e₃ e₄ 0 cuts ls
          (subst (λ k. IsPartition k 0 cuts) total part) (rw (sub_zero h.block_count) e₅) in
      record {
        w = w;
        whole = record {
          held = load_model_held ct filename w opened' e;
          starts = ap (λ k. k.layer_offset) made;
          stops = omega arith;
          filled = some_layers;
          total = refl;
          entry = λ z. refl;
          exit = λ z. (refl, refl);
          masked = subst (λ ms. AreMasks c ms) (sym (ap (λ k. k.masks) made)) (no_masks c);
        };
        covered = rw (ends, layers) covered;
      }
