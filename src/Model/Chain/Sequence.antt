-- ===== src/Model/Chain/Sequence.antt =====
-- The nodes of a pipeline one after the other, from the embedding of the tokens on.
use neural_swarm_ai.Common.{
  ℕ, ◌<◌, ◌≤◌, ◌≡◌, refl, sym, ap, ◌∙◌, ◌⊎◌, Option, none, some, List, [], ◌∷◌, ◌++◌, length, ok,
  err, arith, Result-cases, bind_inversion, inl, inr,
}
use neural_swarm_ai.Float.{F32}
use neural_swarm_ai.Protocol.{Bytes}
use neural_swarm_ai.Model.Tensors.{Candle}
use neural_swarm_ai.Model.Layers.{LayerWeights, run_all}
use neural_swarm_ai.Model.Slices.{dims-run_all}
use neural_swarm_ai.Model.Weights.{ModelWeights, token_tensor}
use neural_swarm_ai.Model.Masks.{wanted_mask}
use neural_swarm_ai.Model.Handover.{IsLawful, set_state-encode}
use neural_swarm_ai.Model.Backend.{
  CandleBackend, Storage, run_input, run_layers, set_state, take_state,
}
use neural_swarm_ai.Model.Chain.{Stage, Ends, IsSlice, Covers, embedded, run_chain}
use neural_swarm_ai.Model.Chain.Node.{
  run_layers_inner, run_layers_entry, run_input_unmasked, visit_err,
}
use neural_swarm_ai.Model.Chain.Covered.{
  Covers-le, Agrees, Follow, run_chain_err, chain_err, chain_last, chain_more,
}

-- A slice ends before the end of the model, or at it.
end_cases : (hi total : ℕ) → hi ≤ total → (hi ≡ total) ⊎ (hi < total)
end_cases hi total h = ground arith

module _ {T Q M N B V F E : Type 0} ⦃f : F32 F⦄ (c : Candle T Q M N B F E)
    (s : Storage Q V F E) where
  module _ (law : IsLawful c s) (e : Ends M N B) (n : Stage T M N B) (ns : List (Stage T M N B))
      (v : ModelWeights T M N B) (rest : List (LayerWeights T M N)) (b₁ b₂ : CandleBackend T M N B)
      (state : Bytes) (x : T) (d : ℕ × ℕ × ℕ) (lg : List F) (tokens : List ℕ) (ip : ℕ)
      (mask : Option T) where
    chain_from :
        (sl : IsSlice c e n v)
        → Covers c e n.end_layer rest ns
        → c.dims3 x ≡ ok d
        → wanted_mask c (length tokens) ≡ ok mask
        → set_state c s n.backend state ≡ (b₁, ok tt)
        → run_layers c s b₁ n.start_layer n.end_layer tokens ip
          ≡ run_input c s b₂ v n.start_layer n.end_layer x (length tokens) ip
        → Follow c s e ns
        → Agrees c s e n.start_layer
            (length tokens)
            (run_all c (v.layers ++ rest) x mask ip)
            (run_chain c s (n ∷ ns) state lg tokens ip)
    chain_from sl tail shape known given ran follow =
        elim (Result-cases (run_all c v.layers x mask ip).1) [
          | inr (er, h) ↦
              chain_err c s law e n ns v rest b₁ b₂ state x d lg tokens ip mask sl tail shape known
                given ran er h
          | inl (y, h) ↦
              let shape' = dims-run_all c law.add_dims v.layers x y d mask ip shape h in
              let (byte, bytes, written, carried) = set_state-encode c s law y d shape' in
              elim (end_cases n.end_layer e.total_layers (Covers-le c e n.end_layer rest ns tail)) [
                | inl k ↦
                    chain_last c s law e n ns v rest b₁ b₂ state x d lg tokens ip mask sl tail shape
                      known given ran y (byte ∷ bytes) h written k
                | inr k ↦
                    chain_more c s law e n ns v rest b₁ b₂ state x d lg tokens ip mask sl tail shape
                      known given ran y (byte ∷ bytes) h written carried k follow
              ]
        ]

  chain_follows : IsLawful c s → (e : Ends M N B) (ns : List (Stage T M N B)) → Follow c s e ns
  unfolding Covers
  chain_follows law e [] lo ls x d bytes lg tokens ip mask shape carried known inner more (p, q) =
      absurd (omega arith)
  chain_follows law e (n ∷ ns) lo ls x d bytes lg tokens ip mask shape carried known inner more
        (v, rest, sl, at, cut, tail) =
      let b₁ = record (n.backend) { intermediate_state = some x } in
      let ran =
        run_layers_inner c s b₁ v n.start_layer n.end_layer x tokens ip sl.held (omega arith)
          refl in
      rw (← at, cut)
        (chain_from law e n ns v rest b₁ (take_state b₁) bytes x d lg tokens ip mask sl tail shape
          known (carried n.backend) ran (chain_follows law e ns))

  -- The first stage of a pipeline, and of a node that holds the whole model.
  module _ (e : Ends M N B) (n : Stage T M N B) (v : ModelWeights T M N B) (tokens : List ℕ)
      (ip : ℕ) (sl : IsSlice c e n v) (first : n.start_layer ≡ 0) where
    pub entry_err :
        (er : E)
        → embedded c s e.tok_embeddings tokens ≡ err er
        → run_layers c s n.backend n.start_layer n.end_layer tokens ip ≡ (n.backend, err er)
    entry_err er h =
        rw
          (first, run_layers_entry c s n.backend v n.end_layer tokens ip sl.held, sl.entry first, h)
          refl

    pub entry_ok :
        (x : T)
        → embedded c s e.tok_embeddings tokens ≡ ok x
        → run_layers c s n.backend n.start_layer n.end_layer tokens ip
          ≡ run_input c s n.backend v n.start_layer n.end_layer x (length tokens) ip
    entry_ok x h =
        let here : embedded c s v.tok_embeddings tokens ≡ ok x = rw (sl.entry first) h in
        rw (first, run_layers_entry c s n.backend v n.end_layer tokens ip sl.held, here) refl

  no_state : (b : CandleBackend T M N B) → set_state c s b [] ≡ (b, ok tt)
  unfolding set_state
  no_state b = refl

  pub embedded-dims :
      IsLawful c s
      → (tok : Option B) (tokens : List ℕ) (x : T) → embedded c s tok tokens ≡ ok x
      → (d : ℕ × ℕ × ℕ) × (c.dims3 x ≡ ok d)
  unfolding embedded
  embedded-dims law none tokens x h = cc
  embedded-dims law (some tok) tokens x h =
      let (ids, h₁, h₂) = bind_inversion (token_tensor c tokens) (λ input. c.embed tok input) h in
      law.embed_dims tok tokens ids x h₁ h₂

  module _ (law : IsLawful c s) (e : Ends M N B) (n : Stage T M N B) (ns : List (Stage T M N B))
      (v : ModelWeights T M N B) (ls rest : List (LayerWeights T M N)) (tokens : List ℕ) (ip : ℕ)
      (sl : IsSlice c e n v) (first : n.start_layer ≡ 0) (cut : ls ≡ v.layers ++ rest)
      (tail : Covers c e n.end_layer rest ns) where
    pub first_err :
        (er : E)
        → embedded c s e.tok_embeddings tokens ≡ err er
        → run_chain c s (n ∷ ns) [] [] tokens ip ≡ (n ∷ ns, err er)
    first_err er h = run_chain_err c s n ns n.backend [] [] tokens ip er (
        visit_err c s n.backend n.backend n.backend [] n.start_layer n.end_layer tokens ip er
          (no_state n.backend) (entry_err e n v tokens ip sl first er h))

    pub first_unmasked :
        (x : T) (er : E)
        → embedded c s e.tok_embeddings tokens ≡ ok x
        → wanted_mask c (length tokens) ≡ err er
        → Covers c e 0 ls (run_chain c s (n ∷ ns) [] [] tokens ip).0
          × ((run_chain c s (n ∷ ns) [] [] tokens ip).1 ≡ err er)
    unfolding Covers
    first_unmasked x er h failed =
        let (v', same, out, sl') =
          run_input_unmasked c s e n v n.backend x (length tokens) ip er sl failed in
        let b = record (n.backend) { model = some v' } in
        let ran = entry_ok e n v tokens ip sl first x h ∙ out in
        let chained = run_chain_err c s n ns b [] [] tokens ip er (
          visit_err c s n.backend n.backend b [] n.start_layer n.end_layer tokens ip er
            (no_state n.backend) ran) in
        rw chained ((v', rest, sl', first, cut ∙ ap (λ k. k ++ rest) (sym same), tail), refl)

    pub first_ok :
        (x : T) (mask : Option T)
        → embedded c s e.tok_embeddings tokens ≡ ok x
        → wanted_mask c (length tokens) ≡ ok mask
        → Agrees c s e 0
            (length tokens)
            (run_all c ls x mask ip)
            (run_chain c s (n ∷ ns) [] [] tokens ip)
    first_ok x mask h known =
        let (d, shape) = embedded-dims law e.tok_embeddings tokens x h in
        rw (cut, ← first)
          (chain_from law e n ns v rest n.backend n.backend [] x d [] tokens ip mask sl tail shape
            known (no_state n.backend) (entry_ok e n v tokens ip sl first x h)
            (chain_follows law e ns))
