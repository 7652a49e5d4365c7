-- ===== src/Orchestrator/Coverage.antt =====
-- The plan of a rebalance deals out every layer exactly once, in ranking order.
use mathlib.Core.List.{foldl, append-nil}
use mathlib.Core.Path.{subst}
use native.Mathlib.Nat.{div-mul-le_self, mod-eq_of_lt}
use neural_swarm_ai.Common.{
  ℕ, zero, suc, ◌+◌, ◌-◌, ◌*◌, ◌/◌, ◌%◌, ◌^◌, ◌≤◌, ◌<◌, min, ◌≡◌, refl, ap, ◌∙◌, true, Bool-cases,
  inl, inr, String, List, [], ◌∷◌, ◌++◌, length, All, count_up, range, arith,
}
use neural_swarm_ai.Float.{F32, IsIeee, zero_f, ◌≼◌, IsUnit}
use neural_swarm_ai.Node.Registry.{NodeEntry}
use neural_swarm_ai.Node.Order.{HasUnit}
use neural_swarm_ai.Orchestrator.Rebalance.{
  Plan, equal_split, share, proportional_split, ids_of, total_composite_of, plan,
}

-- All layers of a plan, in its order.
abbrev pub layers_of : Plan → List ℕ
layers_of [] = []
layers_of ((id, layers) ∷ rest) = layers ++ layers_of rest

count_up-append : (lo a b : ℕ) → count_up lo a ++ count_up (lo + a) b ≡ count_up lo (a + b)
count_up-append lo zero b =
    let e : lo + 0 ≡ lo = omega arith in let e' : 0 + b ≡ b = omega arith in rw (e, e')
count_up-append lo (suc a) b =
    let e : lo + suc a ≡ suc lo + a = omega arith in
    let e' : suc a + b ≡ suc (a + b) = omega arith in
    rw (e, e') (ap (◌∷◌ lo) (count_up-append (suc lo) a b))

range-append : (lo mid hi : ℕ) → lo ≤ mid → mid ≤ hi → range lo mid ++ range mid hi ≡ range lo hi
range-append lo mid hi h k =
    let at : lo + (mid - lo) ≡ mid = omega arith in
    let width : (mid - lo) + (hi - mid) ≡ hi - lo = omega arith in
    subst (λ m. range lo mid ++ count_up m (hi - mid) ≡ range lo hi) at
      (count_up-append lo (mid - lo) (hi - mid) ∙ ap (count_up lo) width)

equal_split-covers :
    (total per_node current : ℕ) (id : String) (ids : List String)
    → total < 2 ^ 32
    → current + per_node * length ids ≤ total
    → layers_of (equal_split total per_node current (id ∷ ids)) ≡ range current total
unfolding equal_split
equal_split-covers total per_node current id [] small fits =
    let e : (current + (total - current)) % 2 ^ 32 ≡ total = omega arith in rw e (append-nil _)
equal_split-covers total per_node current id (id' ∷ ids) small fits =
    let more : per_node * suc (length ids) ≡ per_node + per_node * length ids = grind arith in
    let e : (current + per_node) % 2 ^ 32 ≡ current + per_node = omega (arith, fits, more) in
    let ih =
      equal_split-covers total per_node (current + per_node) id' ids small
        (omega (arith, fits, more)) in
    rw (e, ih)
      (range-append current (current + per_node) total (omega arith) (omega (arith, fits, more)))

length-ids_of : {F : Type 0} (ns : List (NodeEntry F)) → length (ids_of ns) ≡ length ns
length-ids_of [] = refl
length-ids_of (n ∷ ns) = ap suc (length-ids_of ns)

-- The equal parts of all nodes but one leave a part for the last.
parts_fit :
    {F : Type 0} (total : ℕ) (ns : List (NodeEntry F))
    → suc (length ns) < 2 ^ 32
    → 0 + total / (suc (length ns) % 2 ^ 32) * length (ids_of ns) ≤ total
parts_fit total ns few =
    let k = length ns in
    let e : suc k % 2 ^ 32 ≡ suc k = mod-eq_of_lt few in
    let all : total / suc k * suc k ≤ total = div-mul-le_self total (suc k) in
    rw (e, length-ids_of ns) (grind arith)

module _ {F : Type 0} ⦃f : F32 F⦄ where
  -- Every share, over the whole, is at most the number of layers.
  abbrev HasBoundedShare : ℕ → F → List (NodeEntry F) → Type 0
  HasBoundedShare total whole = All (λ n. share total whole n.capacity.composite ≤ total)

  proportional_split-covers :
      (total current : ℕ) (whole : F) (n : NodeEntry F) (ns : List (NodeEntry F))
      → total ≤ 2 ^ 24
      → current ≤ total
      → HasBoundedShare total whole (n ∷ ns)
      → layers_of (proportional_split total whole current (n ∷ ns)) ≡ range current total
  unfolding proportional_split
  proportional_split-covers total current whole n [] small le h =
      let e : min ((current + (total - current)) % 2 ^ 32) total ≡ total = omega arith in
      rw e (append-nil _)
  proportional_split-covers total current whole n (n' ∷ ns) small le h =
      let count = share total whole n.capacity.composite in
      let end = min ((current + count) % 2 ^ 32) total in
      let low : current ≤ end = omega (arith, h.0) in
      let high : end ≤ total = omega arith in
      rw (proportional_split-covers total end whole n' ns small high h.1)
        (range-append current end total low high)

  module _ (laws : IsIeee F) where
    open laws use {le_trans, num_of_le, lit_mono}

    zero_num : zero_f {F = F} ≼ zero_f
    zero_num = lit_mono 0 1 0 1 (omega arith) (omega arith) (omega arith)

    -- A sum of composites is no smaller than its start and each of its parts.
    sum_bounds :
        (acc : F) (ns : List (NodeEntry F))
        → zero_f ≼ acc
        → All HasUnit ns
        → (acc ≼ foldl (λ a n. f.add a n.capacity.composite) acc ns)
          × All (λ n. n.capacity.composite ≼ foldl (λ a n. f.add a n.capacity.composite) acc ns) ns
    sum_bounds acc [] h us = ((num_of_le _ _ h).1, tt)
    sum_bounds acc (n ∷ ns) h us =
        let (left, right) = laws.add_bounds acc n.capacity.composite h us.0.0 in
        let (up, rest) =
          sum_bounds (f.add acc n.capacity.composite) ns (le_trans _ _ _ h left) us.1 in
        (le_trans _ _ _ left up, (le_trans _ _ _ right up, rest))

    share_bound :
        (total : ℕ) (whole c : F)
        → total ≤ 2 ^ 24
        → IsUnit c
        → c ≼ whole
        → f.lt zero_f whole ≡ true
        → share total whole c ≤ total
    unfolding share
    share_bound total whole c small u le pos =
        let part = laws.div_part c whole u le pos in
        let whole_number = lit_mono 0 1 total 1 (omega arith) (omega arith) (omega arith) in
        let product =
          laws.mul_unit (f.div c whole) (f.lit total 1) part whole_number total (omega arith)
            (num_of_le _ _ whole_number).1 in
        let rounded = laws.round_mono _ _ product.1 in
        omega (arith, rounded, laws.round_lit total small)

    shares_bound :
        (total : ℕ) (whole : F) (ns : List (NodeEntry F))
        → total ≤ 2 ^ 24
        → All HasUnit ns
        → All (λ n. n.capacity.composite ≼ whole) ns
        → f.lt zero_f whole ≡ true
        → HasBoundedShare total whole ns
    shares_bound total whole [] small us h pos = tt
    shares_bound total whole (n ∷ ns) small us h pos = (
      share_bound total whole n.capacity.composite small us.0 h.0 pos,
      shares_bound total whole ns small us.1 h.1 pos,
    )

    -- For a model of at most 2 ^ 24 layers and at least one node (fewer than 2 ^ 32), all with
    -- composites in the unit interval, the layers of the plan, node after node, are
    -- 0, 1, .. total - 1: no layer is left out, none is dealt out twice, and each node has a
    -- contiguous block. This holds for the shares and for the fallback of equal parts.
    pub plan_covers :
        (total : ℕ) (n : NodeEntry F) (ns : List (NodeEntry F))
        → total ≤ 2 ^ 24
        → length (n ∷ ns) < 2 ^ 32
        → All HasUnit (n ∷ ns)
        → layers_of (plan total (n ∷ ns)) ≡ range 0 total
    unfolding plan total_composite_of
    plan_covers total n ns small few us =
        elim (Bool-cases (f.le (total_composite_of (n ∷ ns)) zero_f)) [
          | inl e ↦
              rw e (
                equal_split-covers total _ 0 n.id (ids_of ns) (omega arith)
                  (parts_fit total ns few))
          | inr e ↦
              let bounds = sum_bounds zero_f (n ∷ ns) zero_num us in
              let pos = laws.lt_of_not_le _ _ (num_of_le _ _ bounds.0).1 zero_num e in
              rw e (
                proportional_split-covers total 0 _ n ns small (omega arith)
                  (shares_bound total _ (n ∷ ns) small us bounds.1 pos))
        ]
