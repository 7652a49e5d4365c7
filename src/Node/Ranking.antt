-- ===== src/Node/Ranking.antt =====
-- `sorted_by_capacity` of `src/node/registry.rs`: `sort_by`, a stable sort, with its comparison.
use Prim.Native.Nat.{Ordering}
use Prim.Native.String.{compare}
use neural_swarm_ai.Common.{Bool, true, false, if◌then◌else◌, Option, none, some, List, [], ◌∷◌}
use neural_swarm_ai.Common.Texts.{is_gt}
use neural_swarm_ai.Float.{F32}
use neural_swarm_ai.Node.Registry.{NodeEntry, NodeRegistry, active_nodes}

-- `f32::partial_cmp` by its two comparisons; `none` where one side is NaN.
abbrev pub partial_cmp_of : Bool → Bool → Option Ordering
partial_cmp_of true true = some Ordering.eq
partial_cmp_of true false = some Ordering.lt
partial_cmp_of false true = some Ordering.gt
partial_cmp_of false false = none

-- `unwrap_or(Equal).then(next)`
abbrev pub or_then : Option Ordering → Ordering → Ordering
or_then none next = next
or_then (some Ordering.eq) next = next
or_then (some o) next = o

module _ {F : Type 0} ⦃f : F32 F⦄ where
  unfoldable pub partial_cmp : F → F → Option Ordering
  partial_cmp x y = partial_cmp_of (f.le x y) (f.le y x)

  -- The closure that `sort_by` is given.
  unfoldable pub compare_entries : NodeEntry F → NodeEntry F → Ordering
  unfolding partial_cmp
  compare_entries a b =
      or_then (partial_cmp b.capacity.composite a.capacity.composite) (compare a.id b.id)

  unfoldable pub insert_entry : NodeEntry F → List (NodeEntry F) → List (NodeEntry F)
  insert_entry x [] = x ∷ []
  insert_entry x (y ∷ ys) =
      let rest = insert_entry x ys in if is_gt (compare_entries x y) then y ∷ rest else x ∷ y ∷ ys

  unfoldable pub sort_entries : List (NodeEntry F) → List (NodeEntry F)
  unfolding insert_entry
  sort_entries [] = []
  sort_entries (x ∷ xs) = insert_entry x (sort_entries xs)

  unfoldable pub sorted_by_capacity : NodeRegistry F → List (NodeEntry F)
  unfolding sort_entries
  sorted_by_capacity r = sort_entries (active_nodes r)
