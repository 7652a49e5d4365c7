-- ===== src/Model/Masks.antt =====
-- The masks of a slice: those that it keeps are those that it would make.
use neural_swarm_ai.Common.{
  ℕ, ◌≡◌, refl, ◌==◌, Option, none, some, List, [], ◌∷◌, Result, ok, ◌>>=◌, Result-cases,
  Option-cases, Bool-cases, inl, inr, arith, if◌then◌else◌,
}
use neural_swarm_ai.Float.{F32}
use neural_swarm_ai.Model.Tensors.{Candle}
use neural_swarm_ai.Model.Weights.{ModelWeights, find_mask, new_mask, mask_of, mask_for}

module _ {T Q M N B F E : Type 0} ⦃f : F32 F⦄ (c : Candle T Q M N B F E) where
  -- Each mask is the one that `new_mask` makes for its length.
  unfoldable pub AreMasks : List (ℕ × T) → Type 0
  AreMasks ms = (t : ℕ) (m : T) → find_mask t ms ≡ some m → new_mask c t ≡ ok m

  -- The mask for a length, apart from what is kept.
  unfoldable pub wanted_mask : ℕ → Result E (Option T)
  wanted_mask t = if t == 1 then ok none else (do mask ← new_mask c t; ok (some mask))

  pub no_masks : AreMasks []
  unfolding find_mask AreMasks
  no_masks t m h = cc

  AreMasks-insert :
      (ms : List (ℕ × T)) (t : ℕ) (m : T)
      → AreMasks ms
      → new_mask c t ≡ ok m
      → AreMasks ((t, m) ∷ ms)
  unfolding find_mask AreMasks
  AreMasks-insert ms t m valid made t' m' h = let old = valid t' m' in grind arith

  mask_of_lem :
      (w : ModelWeights T M N B) (t : ℕ)
      → AreMasks w.masks
      → (ms : List (ℕ × T)) × (mask_of c w t ≡ (record w { masks = ms }, new_mask c t))
        × AreMasks ms
  unfolding mask_of AreMasks
  mask_of_lem w t valid = elim (Option-cases (find_mask t w.masks)) [
    | inl h ↦ elim (Result-cases (new_mask c t)) [
      | inl (m, k) ↦
          rw (h, k, mask_of) ((t, m) ∷ w.masks, refl, AreMasks-insert w.masks t m valid k)
      | inr (e, k) ↦ rw (h, k, mask_of) (w.masks, refl, valid)
    ]
    | inr (m, h) ↦ rw (h, valid t m h, mask_of) (w.masks, refl, valid)
  ]

  -- `mask_for` changes nothing but what is kept, and gives the mask for the length.
  pub mask_for_lem :
      (w : ModelWeights T M N B) (t : ℕ)
      → AreMasks w.masks
      → (ms : List (ℕ × T)) × (mask_for c w t ≡ (record w { masks = ms }, wanted_mask t))
        × AreMasks ms
  unfolding mask_for wanted_mask
  mask_for_lem w t valid =
      let (ms, same, valid') = mask_of_lem w t valid in
      elim (Bool-cases (t == 1)) [
        | inl h ↦ rw (mask_for, wanted_mask, h) (w.masks, refl, valid)
        | inr h ↦ rw (mask_for, wanted_mask, h) (ms, rw (same, mask_for) refl, valid')
      ]
