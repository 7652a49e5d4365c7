-- ===== src/Float/Point.antt =====
-- Fixed-point numbers with six decimals and a NaN: an instance of the interface that computes.
use neural_swarm_ai.Common.{
  ℕ, suc, ◌+◌, ◌-◌, ◌*◌, ◌/◌, ◌^◌, Bool, true, false, ltb, leb, ◌==◌, if◌then◌else◌, min, max,
}
use neural_swarm_ai.Float.Defs.{F32}

-- `neg n` is -(n + 1), in millionths.
pub data Fixed : Type 0 where
  nan : Fixed
  pos : ℕ → Fixed
  neg : ℕ → Fixed

abbrev pub scale : ℕ
scale = 1000000

-- a - b
abbrev pub diff : ℕ → ℕ → Fixed
diff a b = if leb b a then pos (a - b) else neg (b - a - 1)

abbrev pub negate : Fixed → Fixed
negate nan = nan
negate (pos n) = diff 0 n
negate (neg n) = pos (suc n)

abbrev pub add_fixed : Fixed → Fixed → Fixed
add_fixed (pos a) (pos b) = pos (a + b)
add_fixed (pos a) (neg b) = diff a (suc b)
add_fixed (neg a) (pos b) = diff b (suc a)
add_fixed (neg a) (neg b) = neg (suc (a + b))
add_fixed _ _ = nan

abbrev pub mul_fixed : Fixed → Fixed → Fixed
mul_fixed (pos a) (pos b) = pos (a * b / scale)
mul_fixed (pos a) (neg b) = diff 0 (a * suc b / scale)
mul_fixed (neg a) (pos b) = diff 0 (suc a * b / scale)
mul_fixed (neg a) (neg b) = pos (suc a * suc b / scale)
mul_fixed _ _ = nan

abbrev pub div_fixed : Fixed → Fixed → Fixed
div_fixed (pos a) (pos b) = if b == 0 then nan else pos (a * scale / b)
div_fixed (pos a) (neg b) = diff 0 (a * scale / suc b)
div_fixed (neg a) (pos b) = if b == 0 then nan else diff 0 (suc a * scale / b)
div_fixed (neg a) (neg b) = pos (suc a * scale / suc b)
div_fixed _ _ = nan

abbrev pub le_fixed : Fixed → Fixed → Bool
le_fixed (pos a) (pos b) = leb a b
le_fixed (pos a) (neg b) = false
le_fixed (neg a) (pos b) = true
le_fixed (neg a) (neg b) = leb b a
le_fixed _ _ = false

abbrev pub lt_fixed : Fixed → Fixed → Bool
lt_fixed (pos a) (pos b) = ltb a b
lt_fixed (pos a) (neg b) = false
lt_fixed (neg a) (pos b) = true
lt_fixed (neg a) (neg b) = ltb b a
lt_fixed _ _ = false

abbrev pub eq_fixed : Fixed → Fixed → Bool
eq_fixed (pos a) (pos b) = a == b
eq_fixed (neg a) (neg b) = a == b
eq_fixed _ _ = false

abbrev pub min_fixed : Fixed → Fixed → Fixed
min_fixed nan y = y
min_fixed (pos a) nan = pos a
min_fixed (pos a) (pos b) = pos (min a b)
min_fixed (pos a) (neg b) = neg b
min_fixed (neg a) (neg b) = neg (max a b)
min_fixed (neg a) _ = neg a

abbrev pub max_fixed : Fixed → Fixed → Fixed
max_fixed nan y = y
max_fixed (neg a) nan = neg a
max_fixed (neg a) (neg b) = neg (min a b)
max_fixed (neg a) (pos b) = pos b
max_fixed (pos a) (pos b) = pos (max a b)
max_fixed (pos a) _ = pos a

abbrev pub clamp_fixed : Fixed → Fixed → Fixed → Fixed
clamp_fixed x lo hi = if lt_fixed x lo then lo else if lt_fixed hi x then hi else x

abbrev pub abs_fixed : Fixed → Fixed
abs_fixed nan = nan
abs_fixed (pos a) = pos a
abs_fixed (neg a) = pos (suc a)

abbrev pub round_fixed : Fixed → ℕ
round_fixed (pos a) = min ((a + 500000) / scale) (2 ^ 32 - 1)
round_fixed _ = 0

instance abbrev pub fixed_f32 : F32 Fixed
fixed_f32 = record {
  lit = λ n d. pos (n * scale / d);
  add = add_fixed;
  sub = λ x y. add_fixed x (negate y);
  mul = mul_fixed;
  div = div_fixed;
  fmin = min_fixed;
  fmax = max_fixed;
  clamp = clamp_fixed;
  abs = abs_fixed;
  le = le_fixed;
  lt = lt_fixed;
  eq = eq_fixed;
  round_to_u32 = round_fixed;
}
