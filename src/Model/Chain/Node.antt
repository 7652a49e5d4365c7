-- ===== src/Model/Chain/Node.antt =====
-- What one node of a pipeline does with its input.
use neural_swarm_ai.Common.{
  ℕ, ◌+◌, ◌==◌, ◌-◌, ◌<◌, ◌≡◌, refl, sym, ap, ◌∙◌, min, max, true, false, leb, Option, some, List,
  [], length, ok, err, ◌>>=◌, arith,
}
use neural_swarm_ai.Float.{F32}
use neural_swarm_ai.Protocol.{Bytes}
use neural_swarm_ai.Model.Tensors.{Candle}
use neural_swarm_ai.Model.Layers.{run_all}
use neural_swarm_ai.Model.Slices.{run_slice_lem, length-run_all}
use neural_swarm_ai.Model.Weights.{ModelWeights, mask_for}
use neural_swarm_ai.Model.Masks.{AreMasks, wanted_mask, mask_for_lem}
use neural_swarm_ai.Model.Backend.{CandleBackend, Storage, run_held, run_input, finish, logits_of}
use neural_swarm_ai.Model.Backend.{
  set_state, get_state, encode, layer_input, run_layers, take_state,
}
use neural_swarm_ai.Model.Chain.{Stage, Ends, IsSlice, embedded, exit_logits, visit}

whole_range : (lo hi n : ℕ) → hi ≡ lo + n → (max lo lo - lo ≡ 0) × (min hi (lo + n) - max lo lo ≡ n)
whole_range lo hi n h = (omega arith, omega arith)

module _ {T Q M N B V F E : Type 0} ⦃f : F32 F⦄ (c : Candle T Q M N B F E)
    (s : Storage Q V F E) where
  -- A node that is asked for what it holds runs all of it.
  run_held_all :
      (v : ModelWeights T M N B) (hi : ℕ) (x : T) (mask : Option T) (ip : ℕ)
      → hi ≡ v.layer_offset + length v.layers
      → run_held c s v v.layer_offset hi x mask ip
        ≡ (record v { layers = (run_all c v.layers x mask ip).0 }, (run_all c v.layers x mask ip).1)
  unfolding run_held
  run_held_all v hi x mask ip h =
      let (skip, count) = whole_range v.layer_offset hi (length v.layers) h in
      rw (run_held, skip, count, run_slice_lem c v.layers x mask ip) refl

  -- A node whose layers have run, with other masks, still holds its slice.
  IsSlice-after :
      (e : Ends M N B) (n : Stage T M N B) (v : ModelWeights T M N B) (b : CandleBackend T M N B)
      (ms : List (ℕ × T)) (x : T) (mask : Option T) (ip : ℕ)
      → IsSlice c e n v
      → AreMasks c ms
      → b.model ≡ some (record v { masks = ms; layers = (run_all c v.layers x mask ip).0 })
      → IsSlice c e
          (record n { backend = b })
          (record v { masks = ms; layers = (run_all c v.layers x mask ip).0 })
  IsSlice-after e n v b ms x mask ip sl valid h = record {
    held = h;
    starts = sl.starts;
    stops = sl.stops ∙ ap (λ k. n.start_layer + k) (sym (length-run_all c v.layers x mask ip));
    filled = sl.filled;
    total = sl.total;
    entry = sl.entry;
    exit = sl.exit;
    masked = valid;
  }

  logits_of_lem :
      (e : Ends M N B) (n : Stage T M N B) (v v' : ModelWeights T M N B) (x : T) (t : ℕ)
      → IsSlice c e n v
      → v'.norm ≡ v.norm
      → v'.output ≡ v.output
      → v'.total_layers ≡ v.total_layers
      → (n.end_layer ≡ e.total_layers → logits_of c s v' n.end_layer x t ≡ exit_logits c s e x t)
        × (n.end_layer < e.total_layers → logits_of c s v' n.end_layer x t ≡ ok [])
  unfolding logits_of exit_logits
  logits_of_lem e n v v' x t sl h₁ h₂ h₃ =
      let tot : v'.total_layers ≡ e.total_layers = h₃ ∙ sl.total in
      (
        (λ k.
            let (p, q) = sl.exit k in
            let last : leb v'.total_layers n.end_layer ≡ true = grind arith in
            rw (last, h₁, p, h₂, q) refl),
        (λ k. let more : leb v'.total_layers n.end_layer ≡ false = grind arith in rw more refl),
      )

  module _ (e : Ends M N B) (n : Stage T M N B) (v : ModelWeights T M N B)
      (b : CandleBackend T M N B) (x : T) (t ip : ℕ) (mask : Option T) (sl : IsSlice c e n v)
      (known : wanted_mask c t ≡ ok mask) where
    run_held_masked :
        (ms : List (ℕ × T))
        → run_held c s (record v { masks = ms }) n.start_layer n.end_layer x mask ip ≡ (
          record v { masks = ms; layers = (run_all c v.layers x mask ip).0 },
          (run_all c v.layers x mask ip).1,
        )
    run_held_masked ms = rw (← sl.starts) (
        run_held_all (record v { masks = ms }) n.end_layer x mask ip
          (sl.stops ∙ ap (λ k. k + length v.layers) (sym sl.starts)))

    abbrev ran_with : List (ℕ × T) → ModelWeights T M N B
    ran_with ms = record v { masks = ms; layers = (run_all c v.layers x mask ip).0 }

    run_input_masked :
        (ms : List (ℕ × T))
        → mask_for c v t ≡ (record v { masks = ms }, wanted_mask c t)
        → run_input c s b v n.start_layer n.end_layer x t ip
          ≡ finish c s b n.end_layer t (ran_with ms, (run_all c v.layers x mask ip).1)
    unfolding run_input
    run_input_masked ms same =
        let kept : (mask_for c v t).0 ≡ record v { masks = ms } = ap (λ p. p.0) same in
        let got : (mask_for c v t).1 ≡ ok mask = ap (λ p. p.1) same ∙ known in
        let run = λ (w : ModelWeights T M N B).
          finish c s b n.end_layer t (run_held c s w n.start_layer n.end_layer x mask ip) in
        rw (run_input, got)
          (ap run kept ∙ ap (λ p. finish c s b n.end_layer t p) (run_held_masked ms))

    pub run_input_err :
        (er : E)
        → (run_all c v.layers x mask ip).1 ≡ err er
        → (v' : ModelWeights T M N B) × (v'.layers ≡ (run_all c v.layers x mask ip).0)
          × (run_input c s b v n.start_layer n.end_layer x t ip
              ≡ (record b { model = some v' }, err er))
          × IsSlice c e (record n { backend = record b { model = some v' } }) v'
    unfolding finish
    run_input_err er h =
        let (ms, same, valid) = mask_for_lem c v t sl.masked in
        (
          ran_with ms,
          refl,
          run_input_masked ms same ∙ ap (λ r. finish c s b n.end_layer t (ran_with ms, r)) h,
          IsSlice-after e n v _ ms x mask ip sl valid refl,
        )

    pub run_input_ok :
        (y : T)
        → (run_all c v.layers x mask ip).1 ≡ ok y
        → (v' : ModelWeights T M N B) × (v'.layers ≡ (run_all c v.layers x mask ip).0)
          × ((run_input c s b v n.start_layer n.end_layer x t ip).0
              ≡ record b { model = some v'; intermediate_state = some y })
          × IsSlice c e
              (record n { backend = record b { model = some v'; intermediate_state = some y } })
              v'
          × (n.end_layer ≡ e.total_layers
              → (run_input c s b v n.start_layer n.end_layer x t ip).1 ≡ exit_logits c s e y t)
          × (n.end_layer < e.total_layers
              → (run_input c s b v n.start_layer n.end_layer x t ip).1 ≡ ok [])
    unfolding finish
    run_input_ok y h =
        let (ms, same, valid) = mask_for_lem c v t sl.masked in
        let (last, more) = logits_of_lem e n v (ran_with ms) y t sl refl refl refl in
        let done =
          run_input_masked ms same ∙ ap (λ r. finish c s b n.end_layer t (ran_with ms, r)) h in
        (
          ran_with ms,
          refl,
          ap (λ p. p.0) done,
          IsSlice-after e n v _ ms x mask ip sl valid refl,
          (λ k. ap (λ p. p.1) done ∙ last k),
          (λ k. ap (λ p. p.1) done ∙ more k),
        )

  -- A mask that cannot be made ends the run before the layers.
  pub run_input_unmasked :
      (e : Ends M N B) (n : Stage T M N B) (v : ModelWeights T M N B) (b : CandleBackend T M N B)
      (x : T) (t ip : ℕ) (er : E)
      → IsSlice c e n v
      → wanted_mask c t ≡ err er
      → (v' : ModelWeights T M N B) × (v'.layers ≡ v.layers)
        × (run_input c s b v n.start_layer n.end_layer x t ip
            ≡ (record b { model = some v' }, err er))
        × IsSlice c e (record n { backend = record b { model = some v' } }) v'
  unfolding run_input
  run_input_unmasked e n v b x t ip er sl failed =
      let (ms, same, valid) = mask_for_lem c v t sl.masked in
      let kept : (mask_for c v t).0 ≡ record v { masks = ms } = ap (λ p. p.0) same in
      let got : (mask_for c v t).1 ≡ err er = ap (λ p. p.1) same ∙ failed in
      (
        record v { masks = ms },
        refl,
        rw (run_input, got, kept) refl,
        record {
          held = refl;
          starts = sl.starts;
          stops = sl.stops;
          filled = sl.filled;
          total = sl.total;
          entry = sl.entry;
          exit = sl.exit;
          masked = valid;
        },
      )

  -- What a node's visit comes to, given what its layers make of its input.
  pub visit_err :
      (b b₁ b₂ : CandleBackend T M N B) (state : Bytes) (lo hi : ℕ) (tokens : List ℕ) (ip : ℕ)
      (er : E)
      → set_state c s b state ≡ (b₁, ok tt)
      → run_layers c s b₁ lo hi tokens ip ≡ (b₂, err er)
      → visit c s b state lo hi tokens ip ≡ (b₂, err er)
  unfolding visit
  visit_err b b₁ b₂ state lo hi tokens ip er h₁ h₂ = rw (h₁, visit, h₁, h₂) refl

  pub visit_ok :
      (b b₁ b₂ : CandleBackend T M N B) (state : Bytes) (lo hi : ℕ) (tokens : List ℕ) (ip : ℕ)
      (y : T) (bytes : Bytes)
      → set_state c s b state ≡ (b₁, ok tt)
      → (run_layers c s b₁ lo hi tokens ip).0 ≡ b₂
      → b₂.intermediate_state ≡ some y
      → encode c s y ≡ ok bytes
      → visit c s b state lo hi tokens ip
        ≡ (b₂, do logits ← (run_layers c s b₁ lo hi tokens ip).1; ok (bytes, logits))
  unfolding visit get_state
  visit_ok b b₁ b₂ state lo hi tokens ip y bytes h₁ h₂ h₃ h₄ =
      rw (h₁, visit, h₁, h₂, get_state, h₃, h₄) refl

  -- A node behind the first one runs its state.
  pub run_layers_inner :
      (b : CandleBackend T M N B) (v : ModelWeights T M N B) (lo hi : ℕ) (x : T) (tokens : List ℕ)
      (ip : ℕ)
      → b.model ≡ some v
      → 0 < lo
      → b.intermediate_state ≡ some x
      → run_layers c s b lo hi tokens ip ≡ run_input c s (take_state b) v lo hi x (length tokens) ip
  unfolding run_layers layer_input
  run_layers_inner b v lo hi x tokens ip h₁ h₂ h₃ =
      let inner : (lo == 0) ≡ false = grind arith in
      let input : layer_input c s b v lo tokens ≡ (take_state b, ok x) =
        rw (inner, h₃, layer_input) refl in
      rw (h₁, run_layers, input, input) refl

  -- The first node embeds the tokens.
  pub run_layers_entry :
      (b : CandleBackend T M N B) (v : ModelWeights T M N B) (hi : ℕ) (tokens : List ℕ) (ip : ℕ)
      → b.model ≡ some v
      → run_layers c s b 0 hi tokens ip ≡ elim (embedded c s v.tok_embeddings tokens) [
        | err er ↦ (b, err er)
        | ok x ↦ run_input c s b v 0 hi x (length tokens) ip
      ]
  unfolding run_layers layer_input embedded
  run_layers_entry b v hi tokens ip h₁ = rw (h₁, run_layers, layer_input) refl
