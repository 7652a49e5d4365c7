-- ===== src/Orchestrator/Rebalance.antt =====
-- `rebalance_layers` of `src/orchestrator.rs`: the layers are dealt out in ranking order.
use mathlib.Core.List.{foldl}
use neural_swarm_ai.Common.{
  ℕ, ◌+◌, ◌-◌, ◌/◌, ◌%◌, ◌^◌, min, if◌then◌else◌, String, Option, none, some, List, [], ◌∷◌, length,
  range,
}
use neural_swarm_ai.Float.{F32, zero_f}
use neural_swarm_ai.Node.Registry.{NodeEntry, NodeRegistry, assign_layers}
use neural_swarm_ai.Node.Ranking.{sorted_by_capacity}
use neural_swarm_ai.Pipeline.Stages.{InferencePipeline, update_stages}

-- `libp2p::PeerId`: parsing and `Display`.
pub record PeerIds (P : Type 0) : Type 0 where
  pub parse : String → Option P
  pub to_string : P → String

-- `filter_map(|id| id.parse().ok())`
unfoldable pub peers_of : {P : Type 0} → PeerIds P → List String → List P
peers_of peers [] = []
peers_of peers (id ∷ ids) =
    let rest = peers_of peers ids in elim (peers.parse id) [ none ↦ rest | some p ↦ p ∷ rest ]

abbrev pub Plan : Type 0
Plan = List (String × List ℕ)

-- The loop of the fallback: `per_node` layers for each node, and the rest for the last.
unfoldable pub equal_split : ℕ → ℕ → ℕ → List String → Plan
equal_split total_layers per_node current [] = []
equal_split total_layers per_node current (id ∷ []) =
    (id, range current ((current + (total_layers - current)) % 2 ^ 32)) ∷ []
equal_split total_layers per_node current (id ∷ id' ∷ ids) =
    let next = (current + per_node) % 2 ^ 32 in
    (id, range current next) ∷ equal_split total_layers per_node next (id' ∷ ids)

module _ {F : Type 0} where
  abbrev pub ids_of : List (NodeEntry F) → List String
  ids_of [] = []
  ids_of (n ∷ ns) = n.id ∷ ids_of ns

  unfoldable pub assign_all : Plan → NodeRegistry F → NodeRegistry F
  assign_all [] r = r
  assign_all ((id, layers) ∷ rest) r = assign_all rest (assign_layers r id layers).0

module _ {F : Type 0} ⦃f : F32 F⦄ where
  -- The layers of one node but the last: its share, rounded.
  unfoldable pub share : ℕ → F → F → ℕ
  share total_layers total_composite composite =
      f.round_to_u32 (f.mul (f.div composite total_composite) (f.lit total_layers 1))

  -- The main loop; sums of `u32` wrap, as in a release build.
  unfoldable pub proportional_split : ℕ → F → ℕ → List (NodeEntry F) → Plan
  unfolding share
  proportional_split total_layers total_composite current_layer [] = []
  proportional_split total_layers total_composite current_layer (n ∷ []) =
      let layer_count = total_layers - current_layer in
      let end_layer = min ((current_layer + layer_count) % 2 ^ 32) total_layers in
      (n.id, range current_layer end_layer) ∷ []
  proportional_split total_layers total_composite current_layer (n ∷ n' ∷ ns) =
      let layer_count = share total_layers total_composite n.capacity.composite in
      let end_layer = min ((current_layer + layer_count) % 2 ^ 32) total_layers in
      (n.id, range current_layer end_layer)
      ∷ proportional_split total_layers total_composite end_layer (n' ∷ ns)

  unfoldable pub total_composite_of : List (NodeEntry F) → F
  total_composite_of = foldl (λ acc n. f.add acc n.capacity.composite) zero_f

  -- Who gets which layers, for the nodes in ranking order.
  unfoldable pub plan : ℕ → List (NodeEntry F) → Plan
  unfolding equal_split proportional_split total_composite_of
  plan total_layers sorted =
      if f.le (total_composite_of sorted) zero_f
      then equal_split total_layers (total_layers / (length sorted % 2 ^ 32)) 0 (ids_of sorted)
      else proportional_split total_layers (total_composite_of sorted) 0 sorted

  module _ {P : Type 0} (peers : PeerIds P) where
    -- The nodes that can take layers, in ranking order, are computed once.
    unfoldable pub rebalance_sorted :
        List (NodeEntry F)
        → NodeRegistry F
        → ℕ
        → InferencePipeline P
        → NodeRegistry F × InferencePipeline P
    rebalance_sorted [] registry total_layers pipeline = (registry, update_stages pipeline [])
    rebalance_sorted (n ∷ ns) registry total_layers pipeline = (
      assign_all (plan total_layers (n ∷ ns)) registry,
      update_stages pipeline (peers_of peers (ids_of (n ∷ ns))),
    )

    unfoldable pub rebalance_layers :
        NodeRegistry F → ℕ → InferencePipeline P → NodeRegistry F × InferencePipeline P
    rebalance_layers registry total_layers pipeline =
        rebalance_sorted (sorted_by_capacity registry) registry total_layers pipeline
