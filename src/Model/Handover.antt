-- ===== src/Model/Handover.antt =====
-- How a hidden state passes from one node to the next: `get_state` and `set_state` of
-- `src/candle_backend.rs`.
use neural_swarm_ai.Common.{ℕ, ◌≡◌, refl, some, List, ◌∷◌, ok}
use neural_swarm_ai.Float.{F32}
use neural_swarm_ai.Protocol.{Bytes}
use neural_swarm_ai.Model.Tensors.{Candle}
use neural_swarm_ai.Model.Weights.{token_tensor}
use neural_swarm_ai.Model.Backend.{
  CandleBackend, KvCacheState, plain, Storage, set_state, get_state, encode, decode, values_of,
}

-- What the code relies on of candle and bincode. A sum has the shape of its second argument; the
-- embedding of a row of tokens has three dimensions; the values of a tensor of three dimensions can
-- be read, and make the same tensor again; and the bytes of a state are some, and are read as the
-- same state again.
pub record IsLawful {T Q M N B V F E : Type 0} ⦃f : F32 F⦄ (c : Candle T Q M N B F E)
    (s : Storage Q V F E) : Type 0 where
  pub add_dims :
      (a b x : T) (d : ℕ × ℕ × ℕ) → c.add a b ≡ ok x → c.dims3 b ≡ ok d → c.dims3 x ≡ ok d
  pub embed_dims :
      (tok : B) (tokens : List ℕ) (ids x : T)
      → token_tensor c tokens ≡ ok ids
      → c.embed tok ids ≡ ok x
      → (d : ℕ × ℕ × ℕ) × (c.dims3 x ≡ ok d)
  pub values :
      (x : T) (d : ℕ × ℕ × ℕ)
      → c.dims3 x ≡ ok d
      → (vs : List F) × (c.to_vec1 x ≡ ok vs) × (c.from_vec vs d ≡ ok x)
  pub packed :
      (k : KvCacheState F)
      → (byte : ℕ) × (rest : Bytes) × (s.serialize k ≡ ok (byte ∷ rest))
        × (s.deserialize (byte ∷ rest) ≡ ok k)

module _ {T Q M N B V F E : Type 0} ⦃f : F32 F⦄ (c : Candle T Q M N B F E)
    (s : Storage Q V F E) where
  -- The bytes of a state of three dimensions are some, and every node that is given them holds the state.
  pub set_state-encode :
      IsLawful c s
      → (x : T) (d : ℕ × ℕ × ℕ) → c.dims3 x ≡ ok d
      → (byte : ℕ) × (rest : Bytes) × (encode c s x ≡ ok (byte ∷ rest))
        × ((b : CandleBackend T M N B)
            → set_state c s b (byte ∷ rest) ≡ (record b { intermediate_state = some x }, ok tt))
  unfolding encode set_state decode values_of
  set_state-encode law x d h =
      let (vs, read, made) = law.values x d h in
      let (byte, rest, written, got) = law.packed (plain d vs) in
      (byte, rest, rw (h, read, written, encode) refl, λ b. rw (got, made, set_state) refl)

  -- Where candle and bincode meet their laws, a node that holds a hidden state of three dimensions has
  -- bytes for it, and every node that is given these bytes holds the same state, whatever it held
  -- before.
  pub set_state-get_state :
      IsLawful c s
      → (b : CandleBackend T M N B) (x : T) (d : ℕ × ℕ × ℕ) → b.intermediate_state ≡ some x
      → c.dims3 x ≡ ok d
      → (bytes : Bytes) × (get_state c s b ≡ ok bytes)
        × ((b' : CandleBackend T M N B)
            → set_state c s b' bytes ≡ (record b' { intermediate_state = some x }, ok tt))
  unfolding get_state
  set_state-get_state law b x d held h =
      let (byte, rest, written, got) = set_state-encode law x d h in
      (byte ∷ rest, rw (held, get_state) written, got)
