-- ===== src/Swarm/Blocks.antt =====
-- The blocks of a plan that deals out all layers, and the range that a task names for a block.
use neural_swarm_ai.Common.{
  ℕ, zero, suc, ◌+◌, ◌-◌, ◌≤◌, ◌<◌, ◌≡◌, refl, ap, ◌∙◌, List, [], ◌∷◌, ◌++◌, All, length, count_up,
  range, length-count_up, arith,
}
use neural_swarm_ai.Model.Chain.Parts.{IsPartition}
use neural_swarm_ai.Orchestrator.Rebalance.{Plan}
use neural_swarm_ai.Orchestrator.Coverage.{layers_of}

-- The first part of consecutive numbers is consecutive, and so is the rest.
pub count_up-parts :
    (xs ys : List ℕ) (lo n : ℕ)
    → xs ++ ys ≡ count_up lo n
    → (xs ≡ count_up lo (length xs))
      × (length xs ≤ n)
      × (ys ≡ count_up (lo + length xs) (n - length xs))
count_up-parts [] ys lo n h =
    let e : lo + 0 ≡ lo = omega arith in
    let e' : n - 0 ≡ n = omega arith in (refl, omega arith, rw (e, e') h)
count_up-parts (x ∷ xs) ys lo zero h = cc
count_up-parts (x ∷ xs) ys lo (suc n) h =
    let here : x ≡ lo = cc in
    let tail : xs ++ ys ≡ count_up (suc lo) n = cc in
    let (same, small, rest) = count_up-parts xs ys (suc lo) n tail in
    let e : lo + suc (length xs) ≡ suc lo + length xs = omega arith in
    let e' : suc n - suc (length xs) ≡ n - length xs = omega arith in
    (rw (here, ← same) refl, omega arith, rw (e, e') rest)

-- Where the blocks of a plan end.
abbrev pub cuts_of : ℕ → Plan → List ℕ
cuts_of lo [] = []
cuts_of lo ((id, layers) ∷ rest) = (lo + length layers) ∷ cuts_of (lo + length layers) rest

-- Every node has a layer.
abbrev pub HasLayers : Plan → Type 0
HasLayers = All (λ entry. 0 < length entry.1)

pub cuts_of-IsPartition :
    (p : Plan) (lo total : ℕ)
    → lo ≤ total
    → layers_of p ≡ range lo total
    → HasLayers p
    → IsPartition total lo (cuts_of lo p)
unfolding IsPartition
cuts_of-IsPartition [] lo total le h some_layers =
    let none_left : 0 ≡ total - lo = ap length h ∙ length-count_up lo (total - lo) in omega arith
cuts_of-IsPartition ((id, layers) ∷ p) lo total le h some_layers =
    let (same, small, rest) = count_up-parts layers (layers_of p) lo (total - lo) h in
    let more = some_layers.0 in
    let e : total - lo - length layers ≡ total - (lo + length layers) = omega arith in
    (
      omega arith,
      cuts_of-IsPartition p (lo + length layers) total (omega arith) (rw (← e) rest) some_layers.1,
    )
