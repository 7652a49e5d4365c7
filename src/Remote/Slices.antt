-- ===== src/Remote/Slices.antt =====
-- Parts of a list, by their start and their length.
use neural_swarm_ai.Common.{
  ℕ, zero, suc, ◌+◌, ◌≤◌, ◌≡◌, refl, ◌∙◌, ap, List, [], ◌∷◌, take, drop, arith,
}

module _ {ℓ} {A : Type ℓ} where
  abbrev empty : List A
  empty = []

  drop-nil : (n : ℕ) → empty ≡ drop n empty
  drop-nil zero = refl
  drop-nil (suc n) = refl

  drop-drop : (a b : ℕ) (xs : List A) → drop b (drop a xs) ≡ drop (a + b) xs
  drop-drop zero b xs = ap (λ n. drop n xs) (omega arith)
  drop-drop (suc a) zero [] = drop-nil (suc a + zero)
  drop-drop (suc a) (suc b) [] = drop-nil (suc a + suc b)
  drop-drop (suc a) b (x ∷ xs) =
      let shift : suc (a + b) ≡ suc a + b = omega arith in
      drop-drop a b xs ∙ ap (λ n. drop n (x ∷ xs)) shift

  take-drop-take :
      (n off m : ℕ) (xs : List A)
      → off + n ≤ m
      → take n (drop off (take m xs)) ≡ take n (drop off xs)
  take-drop-take zero off m xs h = refl
  take-drop-take (suc n) zero zero xs h = absurd (omega arith)
  take-drop-take (suc n) zero (suc m) [] h = refl
  take-drop-take (suc n) zero (suc m) (x ∷ xs) h =
      ap (◌∷◌ x) (take-drop-take n zero m xs (omega arith))
  take-drop-take (suc n) (suc off) zero xs h = absurd (omega arith)
  take-drop-take (suc n) (suc off) (suc m) [] h = refl
  take-drop-take (suc n) (suc off) (suc m) (x ∷ xs) h =
      take-drop-take (suc n) off m xs (omega arith)

  -- A part of a part.
  pub slice_of_slice :
      (n off m base : ℕ) (xs : List A)
      → off + n ≤ m
      → take n (drop off (take m (drop base xs))) ≡ take n (drop (base + off) xs)
  slice_of_slice n off m base xs h =
      rw (take-drop-take n off m (drop base xs) h, drop-drop base off xs)
