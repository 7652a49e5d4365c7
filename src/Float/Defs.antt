-- ===== src/Float/Defs.antt =====
-- The operations on `f32` that the source uses, as an interface.
use neural_swarm_ai.Common.{ℕ, Bool, true, ◌≡◌}

pub record F32 (F : Type 0) : Type 0 where
  -- The value nearest to n / d: a decimal literal, and with d = 1 a cast `n as f32`.
  pub lit : ℕ → ℕ → F
  pub add : F → F → F
  pub sub : F → F → F
  pub mul : F → F → F
  pub div : F → F → F
  pub fmin : F → F → F
  pub fmax : F → F → F
  pub clamp : F → F → F → F
  pub abs : F → F
  -- The comparisons, which are false on NaN.
  pub le : F → F → Bool
  pub lt : F → F → Bool
  pub eq : F → F → Bool
  -- `x.round() as u32`, a saturating cast that takes NaN to 0.
  pub round_to_u32 : F → ℕ

module _ {F : Type 0} ⦃f : F32 F⦄ where
  abbrev pub zero_f : F
  zero_f = f.lit 0 1

  abbrev pub one_f : F
  one_f = f.lit 1 1

  -- Comparisons as propositions.
  infix 50 ◌≼◌
  abbrev pub ◌≼◌ : F → F → Type 0
  x ≼ y = f.le x y ≡ true

  -- A number of the unit interval, and so no NaN.
  abbrev pub IsUnit : F → Type 0
  IsUnit x = (zero_f ≼ x) × (x ≼ one_f)
