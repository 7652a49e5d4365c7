-- ===== src/Orchestrator/Strangers.antt =====
-- A call about one node registers no other: the handlers of `src/orchestrator.rs`.
use neural_swarm_ai.Common.{
  ℕ, ◌≡◌, ◌∙◌, true, false, Bool-cases, Option-cases, Result-cases, List-cases, All, inl, inr,
  str_eq, eq_iff, String, none, List, [], ◌∷◌, lookup-remove, IsDistinct,
}
use neural_swarm_ai.Float.{F32, IsIeee}
use neural_swarm_ai.Compute.Profile.{NodeProfile}
use neural_swarm_ai.Compute.Status.{NodeStatus}
use neural_swarm_ai.Node.State.{NodeState, can_transition_to, transition_to}
use neural_swarm_ai.Node.Registry.{
  NodeEntry, NodeRegistry, get, put, remove_node, registry_is_empty, heartbeat, register,
  mark_ready, update_status,
}
use neural_swarm_ai.Node.Steps.{get-put}
use neural_swarm_ai.Orchestrator.Rebalance.{PeerIds}
use neural_swarm_ai.Orchestrator.Handlers.{
  Orchestrator, begin_drain, rebalanced, rebalanced_if_any, handle_announce, handle_status_update,
  handle_heartbeat, handle_drain, dead_ids, remove_all, prune_dead_nodes,
}
use neural_swarm_ai.Node.Invariant.{IsValid, remove_node-IsValid}
use neural_swarm_ai.Orchestrator.Events.{
  Event, announce, update, drain, beat, prune, IsEvent, IsAbout, HasValid, apply, apply_all,
  apply-HasValid, begin_drain-IsValid,
}
use neural_swarm_ai.Orchestrator.Drains.{rebalance_layers_gone, remove_node_gone, begin_drain_ok}

module _ {F : Type 0} ⦃f : F32 F⦄ (id k : String) (differ : str_eq id k ≡ false) where
  put_stranger : (r : NodeRegistry F) (e : NodeEntry F) → get r k ≡ none → get (put r id e) k ≡ none
  put_stranger r e h = rw (get-put, differ) h

  heartbeat_stranger :
      (now : ℕ) (r : NodeRegistry F) → get r k ≡ none → get (heartbeat now r id) k ≡ none
  unfolding heartbeat
  heartbeat_stranger now r h = elim (Option-cases (get r id)) [
    | inl e ↦ rw (heartbeat, e) h
    | inr (n, e) ↦ rw (heartbeat, e) (put_stranger r _ h)
  ]

  register_stranger :
      (now : ℕ) (r : NodeRegistry F) (profile : NodeProfile)
      → get r k ≡ none
      → get (register now r id profile).0 k ≡ none
  unfolding register
  register_stranger now r profile h = put_stranger r _ h

  mark_ready_stranger :
      (r : NodeRegistry F) (status : NodeStatus F)
      → get r k ≡ none
      → get (mark_ready r id status).0 k ≡ none
  unfolding mark_ready
  mark_ready_stranger r status h = elim (Option-cases (get r id)) [
    | inl e ↦ rw (mark_ready, e) h
    | inr (n, e) ↦ elim (Result-cases (transition_to n.state NodeState.ready)) [
      | inl (s, t) ↦ rw (mark_ready, e, t) (put_stranger r _ h)
      | inr (x, t) ↦ rw (mark_ready, e, t) h
    ]
  ]

  update_status_stranger :
      (now : ℕ) (r : NodeRegistry F) (status : NodeStatus F)
      → get r k ≡ none
      → get (update_status now r id status).0 k ≡ none
  unfolding update_status
  update_status_stranger now r status h = elim (Option-cases (get r id)) [
    | inl e ↦ rw (update_status, e) h
    | inr (n, e) ↦ rw (update_status, e) (put_stranger r _ h)
  ]

  begin_drain_stranger : (r : NodeRegistry F) → get r k ≡ none → get (begin_drain r id).0 k ≡ none
  unfolding begin_drain transition_to
  begin_drain_stranger r h = elim (Option-cases (get r id)) [
    | inl e ↦ rw (begin_drain, e) h
    | inr (n, e) ↦ elim (Bool-cases (can_transition_to n.state NodeState.draining)) [
      | inl t ↦ rw (begin_drain, e, t) (put_stranger r _ h)
      | inr t ↦ rw (begin_drain, e, t) h
    ]
  ]

  remove_node_stranger :
      (r : NodeRegistry F) → IsDistinct r.nodes → get r k ≡ none → get (remove_node r id).0 k ≡ none
  unfolding get remove_node
  remove_node_stranger r v h = lookup-remove id k r.nodes v ∙ rw differ h

module _ {F P : Type 0} ⦃f : F32 F⦄ (peers : PeerIds P) where
  rebalanced_stranger :
      (o : Orchestrator F P) (r : NodeRegistry F) (k : String)
      → get r k ≡ none
      → get (rebalanced peers o r).registry k ≡ none
  unfolding rebalanced
  rebalanced_stranger o r k h = rebalance_layers_gone peers r o.total_model_layers o.pipeline k h

  rebalanced_if_any_stranger :
      (o : Orchestrator F P) (r : NodeRegistry F) (k : String)
      → get r k ≡ none
      → get (rebalanced_if_any peers o r).registry k ≡ none
  unfolding rebalanced_if_any
  rebalanced_if_any_stranger o r k h = elim (Bool-cases (registry_is_empty r)) [
    | inl e ↦ rw (rebalanced_if_any, e) h
    | inr e ↦ rw (rebalanced_if_any, e) (rebalanced_stranger o r k h)
  ]

  -- A call about a node leaves every other node out of the registry that was not in it.
  apply_stranger :
      (id k : String) (e : Event F) (o : Orchestrator F P)
      → str_eq id k ≡ false
      → IsAbout id e
      → HasValid o
      → get o.registry k ≡ none
      → get (apply peers e o).registry k ≡ none
  unfolding apply handle_announce handle_status_update handle_heartbeat handle_drain
  apply_stranger id k (announce now j profile status) o differ about v h =
      let apart : str_eq j k ≡ false = rw about differ in
      let r₁ = register now o.registry j profile in
      let h₁ = register_stranger j k apart now o.registry profile h in
      let r₂ = mark_ready r₁.0 j status in
      let h₂ = mark_ready_stranger j k apart r₁.0 status h₁ in
      elim (Result-cases r₁.1) [
        | inr (x, t) ↦ rw (apply, handle_announce, t) h₁
        | inl (x, t) ↦ elim (Result-cases r₂.1) [
          | inr (y, u) ↦ rw (apply, handle_announce, t, u) h₂
          | inl (y, u) ↦ rw (apply, handle_announce, t, u) (rebalanced_stranger o r₂.0 k h₂)
        ]
      ]
  apply_stranger id k (update now j status) o differ about v h =
      let apart : str_eq j k ≡ false = rw about differ in
      let r₁ = update_status now o.registry j status in
      let h₁ = update_status_stranger j k apart now o.registry status h in
      elim (Result-cases r₁.1) [
        | inr (x, t) ↦ rw (apply, handle_status_update, t) h₁
        | inl (false, t) ↦ rw (apply, handle_status_update, t) h₁
        | inl (true, t) ↦ rw (apply, handle_status_update, t) (rebalanced_stranger o r₁.0 k h₁)
      ]
  apply_stranger id k (drain j) o differ about v h =
      let apart : str_eq j k ≡ false = rw about differ in
      let r₁ = begin_drain o.registry j in
      let v₁ = (begin_drain-IsValid o.registry j v).distinct in
      let h₁ = begin_drain_stranger j k apart o.registry h in
      rw (apply, handle_drain, begin_drain_ok o.registry j)
        (rebalanced_if_any_stranger o _ k (remove_node_stranger j k apart r₁.0 v₁ h₁))
  apply_stranger id k (beat now j) o differ about v h =
      heartbeat_stranger j k (rw about differ) now o.registry h
  apply_stranger id k (prune now timeout_secs) o differ about v h = absurd about

  module _ (laws : IsIeee F) where
    pub apply_all_stranger :
        (id k : String) (es : List (Event F)) (o : Orchestrator F P)
        → str_eq id k ≡ false
        → All (IsAbout id) es
        → All IsEvent es
        → HasValid o
        → get o.registry k ≡ none
        → get (apply_all peers es o).registry k ≡ none
    unfolding apply_all
    apply_all_stranger id k [] o differ about fits v h = h
    apply_all_stranger id k (e ∷ es) o differ about fits v h =
        apply_all_stranger id k es (apply peers e o) differ about.1 fits.1
          (apply-HasValid laws peers e o fits.0 v) (apply_stranger id k e o differ about.0 v h)

  -- Pruning registers no node.
  remove_all_stranger :
      (ids : List String) (k : String) (r : NodeRegistry F)
      → IsValid r
      → get r k ≡ none
      → get (remove_all ids r) k ≡ none
  unfolding remove_all
  remove_all_stranger [] k r v h = h
  remove_all_stranger (id ∷ ids) k r v h =
      remove_all_stranger ids k (remove_node r id).0 (remove_node-IsValid r id v)
        (elim (Bool-cases (str_eq id k)) [
          | inl e ↦ rw (← (eq_iff id k).0 e) (remove_node_gone r id v.distinct)
          | inr e ↦ remove_node_stranger id k e r v.distinct h
        ])

  pub prune_stranger :
      (now timeout_secs : ℕ) (o : Orchestrator F P) (k : String)
      → HasValid o
      → get o.registry k ≡ none
      → get (apply peers (prune now timeout_secs) o).registry k ≡ none
  unfolding apply prune_dead_nodes
  prune_stranger now timeout_secs o k v h =
      elim (List-cases (dead_ids now timeout_secs o.registry.nodes)) [
        | inl e ↦ rw (apply, prune_dead_nodes, e) h
        | inr (id, ids, e) ↦
            rw (apply, prune_dead_nodes, e)
              (rebalanced_if_any_stranger o _ k (remove_all_stranger (id ∷ ids) k o.registry v h))
      ]
