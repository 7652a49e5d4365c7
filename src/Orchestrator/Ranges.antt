-- ===== src/Orchestrator/Ranges.antt =====
-- The range that a task names for a node with a block of layers.
use neural_swarm_ai.Common.{
  ℕ, zero, suc, ◌+◌, ◌<◌, ◌%◌, ◌^◌, ◌≡◌, refl, ap, some, last, count_up, arith,
}
use neural_swarm_ai.Node.Registry.{NodeEntry}
use neural_swarm_ai.Orchestrator.Sequences.{layer_range}

-- The node holds `n` layers from `lo` on, at least one, and the end of the block fits a `u32`.
abbrev pub HoldsBlock : {F : Type 0} → NodeEntry F → ℕ → ℕ → Type 0
HoldsBlock e lo n = (e.assigned_layers ≡ count_up lo n) × (0 < n) × (lo + n < 2 ^ 32)

last-count_up : (lo n : ℕ) → last (count_up lo (suc n)) ≡ some (lo + n)
last-count_up lo zero = ap some (omega arith)
last-count_up lo (suc n) =
    let e : lo + suc n ≡ suc lo + n = omega arith in rw e (last-count_up (suc lo) n)

-- A task for a node with a block of layers names the block.
pub layer_range_block :
    {F : Type 0} (e : NodeEntry F) (lo n : ℕ)
    → e.assigned_layers ≡ count_up lo n
    → 0 < n
    → lo + n < 2 ^ 32
    → layer_range e ≡ (lo, lo + n)
layer_range_block e lo zero h some_layers small = absurd (omega arith)
layer_range_block e lo (suc n) h some_layers small =
    let e' : (lo + n + 1) % 2 ^ 32 ≡ lo + suc n = omega arith in rw (h, last-count_up lo n, e') refl
