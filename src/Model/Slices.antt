-- ===== src/Model/Slices.antt =====
-- The layers of a model in slices: what `run_all` and `run_slice` do to a list of layers that is cut.
use neural_swarm_ai.Common.{
  ℕ, suc, ◌≡◌, refl, ap, Option, List, [], ◌∷◌, ◌++◌, length, Result, ok, err, Result-cases,
  bind_inversion, inl, inr, arith,
}
use neural_swarm_ai.Float.{F32}
use neural_swarm_ai.Model.Tensors.{Candle}
use neural_swarm_ai.Model.Experts.{mlp_or_moe_forward}
use neural_swarm_ai.Model.Layers.{
  LayerWeights, feed_forward, forward_attn, run_layer, run_all, run_slice,
}

module _ {T Q M N B F E : Type 0} ⦃f : F32 F⦄ (c : Candle T Q M N B F E) where
  -- An error in the first slice ends the run.
  pub run_all_append_err :
      (ls rest : List (LayerWeights T M N)) (x : T) (mask : Option T) (ip : ℕ) (e : E)
      → (run_all c ls x mask ip).1 ≡ err e
      → run_all c (ls ++ rest) x mask ip ≡ ((run_all c ls x mask ip).0 ++ rest, err e)
  unfolding run_all
  run_all_append_err [] rest x mask ip e h = cc
  run_all_append_err (l ∷ ls) rest x mask ip e h = elim (Result-cases (run_layer c l x mask ip).1) [
    | inl (y, k) ↦
        let h' : (run_all c ls y mask ip).1 ≡ err e = rw (k, run_all) at h in
        rw (run_all, run_all, k) cc (run_all_append_err ls rest y mask ip e h')
    | inr (e', k) ↦ ground arith
  ]

  -- What the first slice returns goes into the rest.
  pub run_all_append :
      (ls rest : List (LayerWeights T M N)) (x : T) (mask : Option T) (ip : ℕ) (y : T)
      → (run_all c ls x mask ip).1 ≡ ok y
      → run_all c (ls ++ rest) x mask ip
        ≡ ((run_all c ls x mask ip).0 ++ (run_all c rest y mask ip).0, (run_all c rest y mask ip).1)
  unfolding run_all
  run_all_append [] rest x mask ip y h = cc
  run_all_append (l ∷ ls) rest x mask ip y h = elim (Result-cases (run_layer c l x mask ip).1) [
    | inl (z, k) ↦
        let h' : (run_all c ls z mask ip).1 ≡ ok y = rw (k, run_all) at h in
        rw (run_all, run_all, k) cc (run_all_append ls rest z mask ip y h')
    | inr (e', k) ↦ ground arith
  ]

  -- A run keeps the number of the layers, also when it fails.
  pub length-run_all :
      (ls : List (LayerWeights T M N)) (x : T) (mask : Option T) (ip : ℕ)
      → length (run_all c ls x mask ip).0 ≡ length ls
  unfolding run_all
  length-run_all [] x mask ip = refl
  length-run_all (l ∷ ls) x mask ip = elim (Result-cases (run_layer c l x mask ip).1) [
    | inl (z, k) ↦ rw (run_all, k) (ap suc (length-run_all ls z mask ip))
    | inr (e', k) ↦ rw (run_all, k) refl
  ]

  -- The slice of all layers is all of them.
  pub run_slice_lem :
      (ls : List (LayerWeights T M N)) (x : T) (mask : Option T) (ip : ℕ)
      → run_slice c 0 (length ls) ls x mask ip ≡ run_all c ls x mask ip
  unfolding run_all run_slice
  run_slice_lem [] x mask ip = refl
  run_slice_lem (l ∷ ls) x mask ip = elim (Result-cases (run_layer c l x mask ip).1) [
    | inl (z, k) ↦ rw (run_slice, run_all, k) cc (run_slice_lem ls z mask ip)
    | inr (e', k) ↦ rw (run_slice, run_all, k) refl
  ]

  module _
      (add_dims : (a b x : T) (d : ℕ × ℕ × ℕ)
        → c.add a b ≡ ok x
        → c.dims3 b ≡ ok d
        → c.dims3 x ≡ ok d) where
    dims-feed_forward :
        (l : LayerWeights T M N) (x y : T) (d : ℕ × ℕ × ℕ) (attended : Result E T)
        → c.dims3 x ≡ ok d
        → feed_forward c l x attended ≡ ok y
        → c.dims3 y ≡ ok d
    unfolding feed_forward
    dims-feed_forward l x y d attended s h =
        let (attn, h₁, r₁) = bind_inversion attended _ h in
        let (x', h₂, r₂) = bind_inversion (c.add attn x) _ r₁ in
        let (normed, h₃, r₃) = bind_inversion (c.norm_forward l.ffn_norm x') _ r₂ in
        let (z, h₄, r₄) = bind_inversion (mlp_or_moe_forward c l.mlp_or_moe normed) _ r₃ in
        add_dims z x' y d r₄ (add_dims attn x x' d h₂ s)

    dims-run_layer :
        (l : LayerWeights T M N) (x y : T) (d : ℕ × ℕ × ℕ) (mask : Option T) (ip : ℕ)
        → c.dims3 x ≡ ok d
        → (run_layer c l x mask ip).1 ≡ ok y
        → c.dims3 y ≡ ok d
    unfolding run_layer
    dims-run_layer l x y d mask ip s h = elim (Result-cases (c.norm_forward l.attention_norm x)) [
      | inl (normed, k) ↦
          let (l', attended) = forward_attn c l normed mask ip in
          dims-feed_forward l' x y d attended s (rw (run_layer, k) at h)
      | inr (e, k) ↦ cc (rw (run_layer, k) at h)
    ]

    -- Layers keep the shape of the hidden state.
    pub dims-run_all :
        (ls : List (LayerWeights T M N)) (x y : T) (d : ℕ × ℕ × ℕ) (mask : Option T) (ip : ℕ)
        → c.dims3 x ≡ ok d
        → (run_all c ls x mask ip).1 ≡ ok y
        → c.dims3 y ≡ ok d
    unfolding run_all
    dims-run_all [] x y d mask ip s h = cc
    dims-run_all (l ∷ ls) x y d mask ip s h = elim (Result-cases (run_layer c l x mask ip).1) [
      | inl (z, k) ↦
          dims-run_all ls z y d mask ip (dims-run_layer l x z d mask ip s k) (rw (run_all, k) at h)
      | inr (e, k) ↦ cc (rw (run_all, k) at h)
    ]
