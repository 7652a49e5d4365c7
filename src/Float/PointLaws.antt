-- ===== src/Float/PointLaws.antt =====
-- The fixed-point numbers satisfy the laws.
use native.Mathlib.Nat.{
  mul-le-mul, le_refl, div-mul-le_self, le-div_iff_mul-le, div-le_of_le-mul, mul_comm,
}
use native.Mathlib.Decide.{dec_le}
use neural_swarm_ai.Common.{
  ℕ, ◌+◌, ◌*◌, ◌/◌, ◌^◌, ◌≤◌, ◌<◌, true, false, arith, leb→le, le→leb, lt→ltb, ◌⊎◌, ◌≡◌,
}
use neural_swarm_ai.Float.Defs.{zero_f, one_f, ◌≼◌, IsUnit}
use neural_swarm_ai.Float.Laws.{IsIeee}
use neural_swarm_ai.Float.Point.{
  Fixed, pos, scale, negate, add_fixed, mul_fixed, div_fixed, le_fixed, lt_fixed, min_fixed,
  max_fixed, clamp_fixed, round_fixed, fixed_f32,
}

-- Quotients compare as the fractions do.
div-le-div : (a d b e : ℕ) → 0 < d → 0 < e → a * e ≤ b * d → a / d ≤ b / e
div-le-div a d b e hd he h =
    let q = a / d in
    let low : q * d ≤ a = div-mul-le_self a d in
    let scaled : q * d * e ≤ a * e = mul-le-mul low (le_refl e) in
    (le-div_iff_mul-le he).1 (elim (dec_le (q * e) b) [
      | yes p ↦ p
      | no p ↦
          let more : (b + 1) * d ≤ q * e * d = mul-le-mul (omega arith) (le_refl d) in
          absurd (omega arith)
    ])

mul-div-le : (a b : ℕ) → a ≤ scale → a * b / scale ≤ b
mul-div-le a b h = grind arith

num_of_le_fixed : (x y : Fixed) → x ≼ y → (x ≼ x) × (y ≼ y)
num_of_le_fixed (pos a) (pos b) h = ground arith
num_of_le_fixed x y h = ground arith

le_fixed_trans : (x y z : Fixed) → x ≼ y → y ≼ z → x ≼ z
le_fixed_trans (pos a) (pos b) (pos c) h k = ground arith
le_fixed_trans x y z h k = ground arith

lit_mono_fixed : (n d m e : ℕ) → 0 < d → 0 < e → n * e ≤ m * d → n * scale / d ≤ m * scale / e
lit_mono_fixed n d m e hd he h = div-le-div (n * scale) d (m * scale) e hd he (grind arith)

lit_pos_fixed : (n d : ℕ) → 0 < n → 0 < d → d ≤ 10 ^ 6 → 0 < n * scale / d
lit_pos_fixed n d hn hd h = grind arith

add_fixed_bounds :
    (x y : Fixed) → zero_f ≼ x → zero_f ≼ y → (x ≼ add_fixed x y) × (y ≼ add_fixed x y)
add_fixed_bounds (pos a) (pos b) h k = ground arith
add_fixed_bounds x y h k = ground arith

one_sub_fixed : (x : Fixed) → IsUnit x → IsUnit (add_fixed one_f (negate x))
one_sub_fixed (pos a) h = ground arith
one_sub_fixed x h = ground arith

mul_fixed_nonneg :
    (c x : Fixed) → lt_fixed zero_f c ≡ true → c ≼ one_f → zero_f ≼ x → zero_f ≼ mul_fixed c x
mul_fixed_nonneg (pos a) (pos b) h k l = ground arith
mul_fixed_nonneg c x h k l = ground arith

mul_fixed_unit :
    (x y : Fixed) → IsUnit x → zero_f ≼ y → (zero_f ≼ mul_fixed x y) × (mul_fixed x y ≼ y)
mul_fixed_unit (pos a) (pos b) h k = ground (arith, mul-div-le a b)
mul_fixed_unit x y h k = ground arith

mul_fixed_le_left : (x y : Fixed) → IsUnit x → IsUnit y → mul_fixed x y ≼ x
mul_fixed_le_left (pos a) (pos b) h k = ground (arith, mul-div-le b a, mul_comm a b)
mul_fixed_le_left x y h k = ground arith

mul_fixed_mono : (x y z : Fixed) → x ≼ y → zero_f ≼ x → zero_f ≼ z → mul_fixed x z ≼ mul_fixed y z
mul_fixed_mono (pos a) (pos b) (pos c) h k l =
    ground (arith, div-le-div (a * c) scale (b * c) scale, mul-le-mul (leb→le a b h) (le_refl c))
mul_fixed_mono x y z h k l = ground arith

div_fixed_part :
    (x y : Fixed) → IsUnit x → x ≼ y → lt_fixed zero_f y ≡ true → IsUnit (div_fixed x y)
div_fixed_part (pos a) (pos b) h k l = ground (
  arith,
  div-le_of_le-mul b {m = a * scale} {n = scale},
  mul-le-mul (leb→le a b k) (le_refl scale),
)
div_fixed_part x y h k l = ground arith

div_fixed_mono :
    (x y z : Fixed) → zero_f ≼ x → x ≼ y → lt_fixed zero_f z ≡ true → div_fixed x z ≼ div_fixed y z
div_fixed_mono (pos a) (pos b) (pos c) h k l = ground (
  arith,
  div-le-div (a * scale) c (b * scale) c,
  mul-le-mul (mul-le-mul (leb→le a b k) (le_refl scale)) (le_refl c),
)
div_fixed_mono x y z h k l = ground arith

le_fixed_total : (x y : Fixed) → x ≼ x → y ≼ y → (x ≼ y) ⊎ (y ≼ x)
le_fixed_total (pos a) (pos b) h k = ground arith
le_fixed_total x y h k = ground arith

not_lt_fixed_of_le : (x y : Fixed) → x ≼ y → lt_fixed y x ≡ false
not_lt_fixed_of_le (pos a) (pos b) h = ground arith
not_lt_fixed_of_le x y h = ground arith

lt_fixed_of_not_le : (x y : Fixed) → x ≼ x → y ≼ y → le_fixed x y ≡ false → lt_fixed y x ≡ true
lt_fixed_of_not_le (pos a) (pos b) h k l = ground arith
lt_fixed_of_not_le x y h k l = ground arith

div_lit_fixed : (n m : ℕ) → 0 < m → zero_f ≼ div_fixed (fixed_f32.lit n 1) (fixed_f32.lit m 1)
div_lit_fixed n m h = ground arith

min_fixed_bounds :
    (x y : Fixed) → zero_f ≼ x → zero_f ≼ y → (zero_f ≼ min_fixed x y) × (min_fixed x y ≼ y)
min_fixed_bounds (pos a) (pos b) h k = ground arith
min_fixed_bounds x y h k = ground arith

max_fixed_bound : (x y : Fixed) → y ≼ y → y ≼ max_fixed x y
max_fixed_bound (pos a) (pos b) h = ground arith
max_fixed_bound x y h = ground arith

max_fixed_le : (x y z : Fixed) → x ≼ z → y ≼ z → max_fixed x y ≼ z
max_fixed_le (pos a) (pos b) (pos c) h k = ground arith
max_fixed_le x y z h k = ground arith

sub_fixed_le : (x y : Fixed) → x ≼ one_f → zero_f ≼ y → add_fixed x (negate y) ≼ x
sub_fixed_le (pos a) (pos b) h k = ground arith
sub_fixed_le x y h k = ground arith

clamp_fixed_bounds :
    (x lo hi : Fixed) → lo ≼ hi → x ≼ x → (lo ≼ clamp_fixed x lo hi) × (clamp_fixed x lo hi ≼ hi)
clamp_fixed_bounds (pos a) (pos b) (pos c) h k = ground arith
clamp_fixed_bounds x lo hi h k = ground arith

round_fixed_lit : (n : ℕ) → n ≤ 2 ^ 24 → round_fixed (fixed_f32.lit n 1) ≡ n
round_fixed_lit n h = omega arith

round_fixed_mono : (x y : Fixed) → x ≼ y → round_fixed x ≤ round_fixed y
round_fixed_mono (pos a) (pos b) h = ground arith
round_fixed_mono x y h = ground arith

-- The laws can be met, by numbers that compute.
pub Fixed-IsIeee : IsIeee Fixed
Fixed-IsIeee = record {
  num_of_le = num_of_le_fixed;
  le_trans = le_fixed_trans;
  le_total = le_fixed_total;
  not_lt_of_le = not_lt_fixed_of_le;
  lt_of_not_le = lt_fixed_of_not_le;
  lit_mono = λ n d m e hd he h. le→leb _ _ (lit_mono_fixed n d m e hd he h);
  lit_pos = λ n d hn hd h. lt→ltb _ _ (lit_pos_fixed n d hn hd h);
  add_bounds = add_fixed_bounds;
  sub_le = sub_fixed_le;
  one_sub = one_sub_fixed;
  mul_nonneg = mul_fixed_nonneg;
  mul_unit = λ x y u h m b t. mul_fixed_unit x y u h;
  mul_le_left = mul_fixed_le_left;
  mul_mono = λ x y z h u k m b l t. mul_fixed_mono x y z h k l;
  div_lit = λ n m hn hm b. div_lit_fixed n m hm;
  div_part = div_fixed_part;
  div_mono = λ x y z h k u l. div_fixed_mono x y z h k l;
  min_bounds = min_fixed_bounds;
  max_bound = max_fixed_bound;
  max_le = max_fixed_le;
  clamp_bounds = clamp_fixed_bounds;
  round_lit = round_fixed_lit;
  round_mono = round_fixed_mono;
}
