-- ===== src/Float/Laws.antt =====
-- What IEEE 754 arithmetic with rounding to nearest, and the documentation of `f32`, say of the
-- operations. Each law is true of `f32` at every value, infinities and NaN included.
use neural_swarm_ai.Common.{ℕ, ◌*◌, ◌^◌, ◌≤◌, ◌<◌, true, false, ◌≡◌, ◌⊎◌}
use neural_swarm_ai.Float.Defs.{F32, zero_f, one_f, ◌≼◌, IsUnit}

pub record IsIeee (F : Type 0) ⦃f : F32 F⦄ : Type 0 where
  pub num_of_le : (x y : F) → x ≼ y → (x ≼ x) × (y ≼ y)
  pub le_trans : (x y z : F) → x ≼ y → y ≼ z → x ≼ z
  pub le_total : (x y : F) → x ≼ x → y ≼ y → (x ≼ y) ⊎ (y ≼ x)
  -- `<` and `<=` exclude one another the other way round.
  pub not_lt_of_le : (x y : F) → x ≼ y → f.lt y x ≡ false
  pub lt_of_not_le : (x y : F) → x ≼ x → y ≼ y → f.le x y ≡ false → f.lt y x ≡ true
  -- Literals and casts round monotonically, and a quotient of small numbers does not vanish.
  pub lit_mono : (n d m e : ℕ) → 0 < d → 0 < e → n * e ≤ m * d → f.lit n d ≼ f.lit m e
  pub lit_pos : (n d : ℕ) → 0 < n → 0 < d → d ≤ 10 ^ 6 → f.lt zero_f (f.lit n d) ≡ true
  -- A sum of numbers from 0 on is no smaller than its parts.
  pub add_bounds : (x y : F) → zero_f ≼ x → zero_f ≼ y → (x ≼ f.add x y) × (y ≼ f.add x y)
  pub sub_le : (x y : F) → x ≼ one_f → zero_f ≼ y → f.sub x y ≼ x
  pub one_sub : (x : F) → IsUnit x → IsUnit (f.sub one_f x)
  -- Factors of at most 1. The first factor is not 0, so that the second may be infinite.
  pub mul_nonneg : (c x : F) → f.lt zero_f c ≡ true → c ≼ one_f → zero_f ≼ x → zero_f ≼ f.mul c x
  pub mul_unit :
      (x y : F)
      → IsUnit x
      → zero_f ≼ y
      → (m : ℕ) → m < 2 ^ 64
      → y ≼ f.lit m 1
      → (zero_f ≼ f.mul x y) × (f.mul x y ≼ y)
  pub mul_le_left : (x y : F) → IsUnit x → IsUnit y → f.mul x y ≼ x
  pub mul_mono :
      (x y z : F)
      → x ≼ y
      → IsUnit y
      → zero_f ≼ x
      → (m : ℕ) → m < 2 ^ 64
      → zero_f ≼ z
      → z ≼ f.lit m 1
      → f.mul x z ≼ f.mul y z
  -- Quotients of casts of `u64`, and of a part by the positive whole.
  pub div_lit : (n m : ℕ) → n < 2 ^ 64 → 0 < m → m < 2 ^ 64 → zero_f ≼ f.div (f.lit n 1) (f.lit m 1)
  pub div_part : (x y : F) → IsUnit x → x ≼ y → f.lt zero_f y ≡ true → IsUnit (f.div x y)
  pub div_mono :
      (x y z : F) → zero_f ≼ x → x ≼ y → y ≼ one_f → f.lt zero_f z ≡ true → f.div x z ≼ f.div y z
  -- `f32::min`, `f32::max` ignore a NaN; `f32::clamp` keeps it.
  pub min_bounds : (x y : F) → zero_f ≼ x → zero_f ≼ y → (zero_f ≼ f.fmin x y) × (f.fmin x y ≼ y)
  pub max_bound : (x y : F) → y ≼ y → y ≼ f.fmax x y
  pub max_le : (x y z : F) → x ≼ z → y ≼ z → f.fmax x y ≼ z
  pub clamp_bounds :
      (x lo hi : F) → lo ≼ hi → x ≼ x → (lo ≼ f.clamp x lo hi) × (f.clamp x lo hi ≼ hi)
  -- Whole numbers up to 2 ^ 24 are exact, and rounding is monotone.
  pub round_lit : (n : ℕ) → n ≤ 2 ^ 24 → f.round_to_u32 (f.lit n 1) ≡ n
  pub round_mono : (x y : F) → x ≼ y → f.round_to_u32 x ≤ f.round_to_u32 y
