-- ===== src/Common/Texts.antt =====
-- The lexicographic order of texts, which Rust's `Ord for String` is.
use Prim.Native.Nat.{ℕ, Ordering, compare as compare_ℕ}
use Prim.Native.Char.{code}
use Prim.Native.String.compare
use Prim.Native.String.{String, [], ◌∷◌, then, compare}
use mathlib.Core.Path.{◌≡◌, refl, sym, ap, ◌∙◌}
use mathlib.Core.Bool.{Bool, true, false}
use native.Mathlib.Omega.{arith}

-- `Ordering::reverse`
abbrev pub reverse : Ordering → Ordering
reverse Ordering.lt = Ordering.gt
reverse Ordering.eq = Ordering.eq
reverse Ordering.gt = Ordering.lt

abbrev pub is_gt : Ordering → Bool
is_gt Ordering.gt = true
is_gt _ = false

reverse_then : (o r : Ordering) → then (reverse o) (reverse r) ≡ reverse (then o r)
reverse_then Ordering.lt r = refl
reverse_then Ordering.eq r = refl
reverse_then Ordering.gt r = refl

reverse_numbers : (a b : ℕ) → compare_ℕ b a ≡ reverse (compare_ℕ a b)
reverse_numbers a b = ground arith

pub compare-reverse : (s t : String) → compare t s ≡ reverse (compare s t)
compare-reverse [] [] = rw compare.nil-nil refl
compare-reverse [] (d ∷ t) = rw (compare.nil-cons d t, compare.cons-nil d t) refl
compare-reverse (c ∷ s) [] = rw (compare.nil-cons c s, compare.cons-nil c s) refl
compare-reverse (c ∷ s) (d ∷ t) =
    rw
      (
        compare.cons-cons c d s t,
        compare.cons-cons d c t s,
        reverse_numbers (code c) (code d),
        compare-reverse s t,
      )
      (reverse_then (compare_ℕ (code c) (code d)) (compare s t))

then_le :
    (a b c : ℕ) (o r q : Ordering)
    → (is_gt o ≡ false → is_gt r ≡ false → is_gt q ≡ false)
    → is_gt (then (compare_ℕ a b) o) ≡ false
    → is_gt (then (compare_ℕ b c) r) ≡ false
    → is_gt (then (compare_ℕ a c) q) ≡ false
then_le a b c o r q rest h k = ground arith

-- The order of texts is transitive.
pub compare_trans :
    (s t u : String)
    → is_gt (compare s t) ≡ false
    → is_gt (compare t u) ≡ false
    → is_gt (compare s u) ≡ false
compare_trans [] t [] h k = ap is_gt compare.nil-nil
compare_trans [] t (e ∷ u) h k = ap is_gt (compare.nil-cons e u)
compare_trans (c ∷ s) [] u h k = cc (sym (ap is_gt (compare.cons-nil c s)) ∙ h)
compare_trans (c ∷ s) (d ∷ t) [] h k = cc (sym (ap is_gt (compare.cons-nil d t)) ∙ k)
compare_trans (c ∷ s) (d ∷ t) (e ∷ u) h k =
    ap is_gt (compare.cons-cons c e s u)
    ∙ then_le (code c) (code d) (code e) (compare s t) (compare t u) (compare s u)
        (compare_trans s t u) (sym (ap is_gt (compare.cons-cons c d s t)) ∙ h)
        (sym (ap is_gt (compare.cons-cons d e t u)) ∙ k)
