-- ===== src/Orchestrator/Drains.antt =====
-- A drained node is gone: `handle_drain` of `src/orchestrator.rs`.
use neural_swarm_ai.Common.{
  ℕ, ◌≡◌, refl, ◌∙◌, Bool-cases, Option-cases, inl, inr, str_eq, eq_iff, String, none, List, [],
  ◌∷◌, ok, lookup-remove, IsDistinct,
}
use neural_swarm_ai.Float.{F32}
use neural_swarm_ai.Node.State.{NodeState, can_transition_to, transition_to}
use neural_swarm_ai.Node.Registry.{
  NodeEntry, NodeRegistry, get, remove_node, registry_is_empty, assign_layers,
}
use neural_swarm_ai.Node.Ranking.{sorted_by_capacity}
use neural_swarm_ai.Pipeline.Stages.{InferencePipeline}
use neural_swarm_ai.Orchestrator.Assignment.{assign_layers_other}
use neural_swarm_ai.Orchestrator.Rebalance.{
  PeerIds, Plan, plan, assign_all, rebalance_sorted, rebalance_layers,
}
use neural_swarm_ai.Orchestrator.Handlers.{
  Orchestrator, begin_drain, rebalanced, rebalanced_if_any, handle_drain,
}
use neural_swarm_ai.Orchestrator.Events.{HasValid, begin_drain-IsValid}

module _ {F : Type 0} where
  assign_layers_gone :
      (r : NodeRegistry F) (k id : String) (layers : List ℕ)
      → get r id ≡ none
      → get (assign_layers r k layers).0 id ≡ none
  unfolding assign_layers
  assign_layers_gone r k id layers h = elim (Bool-cases (str_eq k id)) [
    | inl e ↦
        let same : k ≡ id = (eq_iff k id).0 e in
        let missing : get r k ≡ none = rw same h in rw (assign_layers, missing) h
    | inr e ↦ assign_layers_other r k id layers e ∙ h
  ]

  assign_all_gone :
      (p : Plan) (r : NodeRegistry F) (id : String)
      → get r id ≡ none
      → get (assign_all p r) id ≡ none
  unfolding assign_all
  assign_all_gone [] r id h = h
  assign_all_gone ((k, layers) ∷ p) r id h =
      assign_all_gone p (assign_layers r k layers).0 id (assign_layers_gone r k id layers h)

  pub remove_node_gone :
      (r : NodeRegistry F) (id : String) → IsDistinct r.nodes → get (remove_node r id).0 id ≡ none
  unfolding get remove_node
  remove_node_gone r id v = lookup-remove id id r.nodes v ∙ rw ((eq_iff id id).1 refl) refl

  pub begin_drain_ok : (r : NodeRegistry F) (id : String) → (begin_drain r id).1 ≡ ok tt
  unfolding begin_drain transition_to
  begin_drain_ok r id = elim (Option-cases (get r id)) [
    | inl e ↦ rw (begin_drain, e) refl
    | inr (n, e) ↦ elim (Bool-cases (can_transition_to n.state NodeState.draining)) [
      | inl t ↦ rw (begin_drain, e, t) refl
      | inr t ↦ rw (begin_drain, e, t) refl
    ]
  ]

module _ {F P : Type 0} ⦃f : F32 F⦄ (peers : PeerIds P) where
  pub rebalance_layers_gone :
      (r : NodeRegistry F) (total : ℕ) (pipeline : InferencePipeline P) (id : String)
      → get r id ≡ none
      → get (rebalance_layers peers r total pipeline).0 id ≡ none
  unfolding rebalance_layers rebalance_sorted
  rebalance_layers_gone r total pipeline id h = go (sorted_by_capacity r)
    where
      go : (ns : List (NodeEntry F)) → get (rebalance_sorted peers ns r total pipeline).0 id ≡ none
      go [] = h
      go (n ∷ ns) = assign_all_gone (plan total (n ∷ ns)) r id h

  -- The drain of a node never fails, and the registry does not hold the node after it, whatever was
  -- in its state before.
  pub handle_drain_gone :
      (o : Orchestrator F P) (id : String)
      → HasValid o
      → ((handle_drain peers o id).1 ≡ ok tt) × (get (handle_drain peers o id).0.registry id ≡ none)
  unfolding handle_drain rebalanced_if_any rebalanced
  handle_drain_gone o id v =
      let r = begin_drain o.registry id in
      let gone = remove_node_gone r.0 id (begin_drain-IsValid o.registry id v).distinct in
      let left = (remove_node r.0 id).0 in
      elim (Bool-cases (registry_is_empty left)) [
        | inl e ↦ rw (handle_drain, begin_drain_ok o.registry id, e) (refl, gone)
        | inr e ↦
            rw (handle_drain, begin_drain_ok o.registry id, e)
              (refl, rebalance_layers_gone left o.total_model_layers o.pipeline id gone)
      ]
