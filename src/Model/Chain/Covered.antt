-- ===== src/Model/Chain/Covered.antt =====
-- A pipeline of nodes whose first one runs its slice: an error, the last node, or more nodes.
use neural_swarm_ai.Common.{
  ℕ, ◌<◌, ◌≤◌, ◌≡◌, refl, sym, ap, ◌∙◌, Option, some, List, [], ◌∷◌, ◌++◌, length, Result, ok, err,
  ◌>>=◌, arith, Result-cases, inl, inr,
}
use neural_swarm_ai.Float.{F32}
use neural_swarm_ai.Protocol.{Bytes}
use neural_swarm_ai.Model.Tensors.{Candle}
use neural_swarm_ai.Model.Layers.{LayerWeights, run_all}
use neural_swarm_ai.Model.Slices.{run_all_append, run_all_append_err, dims-run_all}
use neural_swarm_ai.Model.Weights.{ModelWeights}
use neural_swarm_ai.Model.Masks.{wanted_mask}
use neural_swarm_ai.Model.Handover.{IsLawful}
use neural_swarm_ai.Model.Backend.{CandleBackend, Storage, run_input, run_layers, set_state, encode}
use neural_swarm_ai.Model.Chain.{Stage, Ends, IsSlice, Covers, exit_logits, visit, run_chain}
use neural_swarm_ai.Model.Chain.Stages.{stage_err, stage_ok}

module _ {T Q M N B F E : Type 0} ⦃f : F32 F⦄ (c : Candle T Q M N B F E) where
  pub Covers-le :
      (e : Ends M N B) (lo : ℕ) (ls : List (LayerWeights T M N)) (ns : List (Stage T M N B))
      → Covers c e lo ls ns
      → lo ≤ e.total_layers
  unfolding Covers
  Covers-le e lo ls [] (p, q) = omega arith
  Covers-le e lo ls (n ∷ ns) (v, rest, sl, at, cut, tail) =
      let below = Covers-le e n.end_layer rest ns tail in let filled = sl.filled in omega arith

  -- No nodes come behind the last layer.
  Covers-end :
      (e : Ends M N B) (lo : ℕ) (ls : List (LayerWeights T M N)) (ns : List (Stage T M N B))
      → Covers c e lo ls ns
      → lo ≡ e.total_layers
      → (ns ≡ []) × (ls ≡ [])
  unfolding Covers
  Covers-end e lo ls [] (p, q) h = (refl, p)
  Covers-end e lo ls (n ∷ ns) (v, rest, sl, at, cut, tail) h =
      let below = Covers-le e n.end_layer rest ns tail in
      let filled = sl.filled in absurd (omega arith)

  run_all_none :
      (ls : List (LayerWeights T M N)) (x : T) (mask : Option T) (ip : ℕ)
      → ls ≡ []
      → run_all c ls x mask ip ≡ (ls, ok x)
  unfolding run_all
  run_all_none ls x mask ip h = rw h refl

module _ {T Q M N B V F E : Type 0} ⦃f : F32 F⦄ (c : Candle T Q M N B F E)
    (s : Storage Q V F E) where
  -- The nodes hold the layers that have run, and the answer is that of the hidden state.
  abbrev pub Agrees :
      Ends M N B
      → ℕ
      → ℕ
      → List (LayerWeights T M N) × Result E T
      → List (Stage T M N B) × Result E (List F)
      → Type 0
  Agrees e lo seq_len ran out =
      Covers c e lo ran.0 out.0 × (out.1 ≡ (ran.1 >>= λ y. exit_logits c s e y seq_len))

  -- Nodes behind the first one, whatever hidden state of three dimensions they are given.
  abbrev pub Follow : Ends M N B → List (Stage T M N B) → Type 0
  Follow e ns =
      (lo : ℕ) (ls : List (LayerWeights T M N)) (x : T) (d : ℕ × ℕ × ℕ) (bytes : Bytes)
      (lg : List F) (tokens : List ℕ) (ip : ℕ) (mask : Option T)
      → c.dims3 x ≡ ok d
      → ((b : CandleBackend T M N B)
          → set_state c s b bytes ≡ (record b { intermediate_state = some x }, ok tt))
      → wanted_mask c (length tokens) ≡ ok mask
      → 0 < lo
      → lo < e.total_layers
      → Covers c e lo ls ns
      → Agrees e lo (length tokens) (run_all c ls x mask ip) (run_chain c s ns bytes lg tokens ip)

  pub run_chain_none :
      (ns : List (Stage T M N B)) (bytes : Bytes) (lg : List F) (tokens : List ℕ) (ip : ℕ)
      → ns ≡ []
      → run_chain c s ns bytes lg tokens ip ≡ (ns, ok lg)
  unfolding run_chain
  run_chain_none ns bytes lg tokens ip h = rw h refl

  pub run_chain_err :
      (n : Stage T M N B) (ns : List (Stage T M N B)) (b : CandleBackend T M N B) (state : Bytes)
      (lg : List F) (tokens : List ℕ) (ip : ℕ) (er : E)
      → visit c s n.backend state n.start_layer n.end_layer tokens ip ≡ (b, err er)
      → run_chain c s (n ∷ ns) state lg tokens ip ≡ (record n { backend = b } ∷ ns, err er)
  unfolding run_chain
  run_chain_err n ns b state lg tokens ip er out = rw (run_chain, out, out) refl

  pub run_chain_ok :
      (n : Stage T M N B) (ns : List (Stage T M N B)) (b : CandleBackend T M N B)
      (state bytes : Bytes) (lg logits : List F) (tokens : List ℕ) (ip : ℕ)
      → visit c s n.backend state n.start_layer n.end_layer tokens ip ≡ (b, ok (bytes, logits))
      → run_chain c s (n ∷ ns) state lg tokens ip ≡ (
        record n { backend = b } ∷ (run_chain c s ns bytes logits tokens ip).0,
        (run_chain c s ns bytes logits tokens ip).1,
      )
  unfolding run_chain
  run_chain_ok n ns b state bytes lg logits tokens ip out = rw (run_chain, out, out) refl

  module _ (law : IsLawful c s) (e : Ends M N B) (n : Stage T M N B) (ns : List (Stage T M N B))
      (v : ModelWeights T M N B) (rest : List (LayerWeights T M N)) (b₁ b₂ : CandleBackend T M N B)
      (state : Bytes) (x : T) (d : ℕ × ℕ × ℕ) (lg : List F) (tokens : List ℕ) (ip : ℕ)
      (mask : Option T) (sl : IsSlice c e n v) (tail : Covers c e n.end_layer rest ns)
      (shape : c.dims3 x ≡ ok d) (known : wanted_mask c (length tokens) ≡ ok mask)
      (given : set_state c s n.backend state ≡ (b₁, ok tt))
      (ran : run_layers c s b₁ n.start_layer n.end_layer tokens ip
        ≡ run_input c s b₂ v n.start_layer n.end_layer x (length tokens) ip) where
    pub chain_err :
        (er : E)
        → (run_all c v.layers x mask ip).1 ≡ err er
        → Agrees e n.start_layer
            (length tokens)
            (run_all c (v.layers ++ rest) x mask ip)
            (run_chain c s (n ∷ ns) state lg tokens ip)
    unfolding Covers
    chain_err er h =
        let (v', b, same, sl', out) =
          stage_err c s e n v b₁ b₂ state x tokens ip mask sl known given ran er h in
        rw
          (
            run_all_append_err c v.layers rest x mask ip er h,
            run_chain_err n ns b state lg tokens ip er out,
          )
          ((v', rest, sl', refl, ap (λ ls. ls ++ rest) (sym same), tail), refl)

    pub chain_last :
        (y : T) (bytes : Bytes)
        → (run_all c v.layers x mask ip).1 ≡ ok y
        → encode c s y ≡ ok bytes
        → n.end_layer ≡ e.total_layers
        → Agrees e n.start_layer
            (length tokens)
            (run_all c (v.layers ++ rest) x mask ip)
            (run_chain c s (n ∷ ns) state lg tokens ip)
    unfolding Covers
    chain_last y bytes h written k =
        let (v', b, same, sl', last, more) =
          stage_ok c s e n v b₁ b₂ state x tokens ip mask sl known given ran y bytes h written in
        let (none_left, nothing) = Covers-end c e n.end_layer rest ns tail k in
        let ran_all =
          run_all_append c v.layers rest x mask ip y h
          ∙ ap (λ r. ((run_all c v.layers x mask ip).0 ++ r.0, r.1))
              (run_all_none c rest y mask ip nothing) in
        elim (Result-cases (exit_logits c s e y (length tokens))) [
          | inl (logits, good) ↦
              let out =
                run_chain_ok n ns b state bytes lg logits tokens ip (last k ∙ rw good refl) in
              rw (ran_all, out, run_chain_none ns bytes logits tokens ip none_left, good)
                ((v', rest, sl', refl, ap (λ ls. ls ++ rest) (sym same), tail), refl)
          | inr (er, bad) ↦
              rw (ran_all, run_chain_err n ns b state lg tokens ip er (last k ∙ rw bad refl), bad)
                ((v', rest, sl', refl, ap (λ ls. ls ++ rest) (sym same), tail), refl)
        ]

    pub chain_more :
        (y : T) (bytes : Bytes)
        → (run_all c v.layers x mask ip).1 ≡ ok y
        → encode c s y ≡ ok bytes
        → ((b : CandleBackend T M N B)
            → set_state c s b bytes ≡ (record b { intermediate_state = some y }, ok tt))
        → n.end_layer < e.total_layers
        → Follow e ns
        → Agrees e n.start_layer
            (length tokens)
            (run_all c (v.layers ++ rest) x mask ip)
            (run_chain c s (n ∷ ns) state lg tokens ip)
    unfolding Covers
    chain_more y bytes h written carried k follow =
        let (v', b, same, sl', last, more) =
          stage_ok c s e n v b₁ b₂ state x tokens ip mask sl known given ran y bytes h written in
        let (covered, answer) =
          follow n.end_layer rest y d bytes [] tokens ip mask
            (dims-run_all c law.add_dims v.layers x y d mask ip shape h) carried known (omega arith)
            k tail in
        let r = run_all c rest y mask ip in
        rw
          (
            run_all_append c v.layers rest x mask ip y h,
            run_chain_ok n ns b state bytes lg [] tokens ip (more k),
          )
          ((v', r.0, sl', refl, ap (λ ls. ls ++ r.0) (sym same), covered), answer)
