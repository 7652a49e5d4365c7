-- ===== src/Model/Causal.antt =====
-- The entries of a mask of `ModelWeights::mask` in `src/quantized_llama.rs`.
use neural_swarm_ai.Common.{
  ℕ, zero, suc, ◌+◌, ◌*◌, ◌-◌, ◌<◌, ◌≡◌, refl, ap, ◌∙◌, ltb, if◌then◌else◌, Option, some, List, [],
  ◌∷◌, ◌++◌, map, range, count_up, length, length-count_up, length-append, get_elem?, arith,
}
use neural_swarm_ai.Model.Weights.{mask_rows}

length-map {ℓ κ} :
    {A : Type ℓ} {B : Type κ} (g : A → B) (xs : List A) → length (map g xs) ≡ length xs
length-map g [] = refl
length-map g (x ∷ xs) = ap suc (length-map g xs)

get_elem?-append_left {ℓ} :
    {A : Type ℓ} (xs ys : List A) (i : ℕ) → i < length xs → get_elem? (xs ++ ys) i ≡ get_elem? xs i
get_elem?-append_left [] ys i h = absurd (omega arith)
get_elem?-append_left (x ∷ xs) ys zero h = refl
get_elem?-append_left (x ∷ xs) ys (suc i) h = get_elem?-append_left xs ys i (omega arith)

get_elem?-append_right {ℓ} :
    {A : Type ℓ} (xs ys : List A) (n i : ℕ)
    → n ≡ length xs + i
    → get_elem? (xs ++ ys) n ≡ get_elem? ys i
get_elem?-append_right [] ys n i h = let same : n ≡ i = omega arith in ap (get_elem? ys) same
get_elem?-append_right (x ∷ xs) ys zero i h = absurd (omega arith)
get_elem?-append_right (x ∷ xs) ys (suc n) i h = get_elem?-append_right xs ys n i (omega arith)

get_elem?-count_up :
    {B : Type 0} (g : ℕ → B) (lo n j : ℕ)
    → j < n
    → get_elem? (map g (count_up lo n)) j ≡ some (g (lo + j))
get_elem?-count_up g lo zero j h = absurd (omega arith)
get_elem?-count_up g lo (suc n) zero h = ap (λ k. some (g k)) (omega arith)
get_elem?-count_up g lo (suc n) (suc j) h =
    get_elem?-count_up g (suc lo) n j (omega arith) ∙ ap (λ k. some (g k)) (omega arith)

-- The row of the mask for a position.
abbrev bit : ℕ → ℕ → ℕ
bit i j = if ltb i j then 1 else 0

row_length : (t i : ℕ) → length (map (bit i) (range 0 t)) ≡ t
row_length t i = let n = length-map (bit i) (range 0 t) ∙ length-count_up 0 (t - 0) in omega arith

zero_add : (n : ℕ) → 0 + n ≡ n
zero_add n = omega arith

sub_zero : (n : ℕ) → n - 0 ≡ n
sub_zero n = omega arith

suc_mul : (i t j : ℕ) → suc i * t + j ≡ t + (i * t + j)
suc_mul i t j = grind arith

suc_mul_zero : (n t : ℕ) → t + n * t ≡ suc n * t
suc_mul_zero n t = grind arith

first_bit : (lo j : ℕ) → Path (Option ℕ) (some (bit lo (0 + j))) (some (bit (lo + 0) j))
first_bit lo j =
    let left : 0 + j ≡ j = omega arith in
    let right : lo + 0 ≡ lo = omega arith in rw (left, right) refl

rows_entry :
    (t lo n i j : ℕ)
    → i < n
    → j < t
    → get_elem? (mask_rows t (count_up lo n)) (i * t + j) ≡ some (bit (lo + i) j)
unfolding mask_rows
rows_entry t lo zero i j h k = absurd (omega arith)
rows_entry t lo (suc n) zero j h k =
    let size = row_length t lo in
    let at : zero * t + j ≡ j = omega arith in
    rw at (
      get_elem?-append_left (map (bit lo) (range 0 t)) _ j (rw size k)
      ∙ get_elem?-count_up (bit lo) 0 (t - 0) j (omega arith)
      ∙ cc (first_bit lo j))
rows_entry t lo (suc n) (suc i) j h k =
    let size = row_length t lo in
    get_elem?-append_right (map (bit lo) (range 0 t)) _ _ (i * t + j) (rw size (suc_mul i t j))
    ∙ rows_entry t (suc lo) n i j (omega arith) k
    ∙ ap (λ m. some (bit m j)) (omega arith)

rows_length : (t lo n : ℕ) → length (mask_rows t (count_up lo n)) ≡ n * t
unfolding mask_rows
rows_length t lo zero = omega arith
rows_length t lo (suc n) =
    let size = row_length t lo in
    let rest = rows_length t (suc lo) n in
    length-append (map (bit lo) (range 0 t)) (mask_rows t (count_up (suc lo) n))
    ∙ rw (size, rest) (suc_mul_zero n t)

-- A mask for `t` positions has `t` rows of `t` entries, and the entry for the positions `i` and `j`
-- masks exactly if `j` comes after `i`.
pub mask_rows_entry :
    (t i j : ℕ)
    → i < t
    → j < t
    → (length (mask_rows t (range 0 t)) ≡ t * t)
      × (get_elem? (mask_rows t (range 0 t)) (i * t + j) ≡ some (if ltb i j then 1 else 0))
mask_rows_entry t i j h k = (
  rows_length t 0 (t - 0) ∙ ap (λ k. k * t) (sub_zero t),
  rows_entry t 0 (t - 0) i j (omega arith) k ∙ ap (λ m. some (bit m j)) (zero_add i),
)
