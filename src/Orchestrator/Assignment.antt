-- ===== src/Orchestrator/Assignment.antt =====
-- What the assignments of a plan leave in the registry.
use neural_swarm_ai.Common.{
  ℕ, ◌≡◌, refl, ◌∙◌, true, false, Option-cases, inl, inr, if◌then◌else◌, String, none, some, List,
  [], ◌∷◌, arith, str_eq, eq_iff, Absent, IsDistinct, Entries,
}
use neural_swarm_ai.Node.State.{NodeState, state_eq, can_accept_tasks, can_transition_to}
use neural_swarm_ai.Node.Registry.{
  NodeEntry, NodeRegistry, get, advance, with_layers, assign_layers,
}
use neural_swarm_ai.Node.Steps.{get-put}
use neural_swarm_ai.Orchestrator.Rebalance.{Plan, assign_all}

ready_or_active :
    (s : NodeState)
    → can_accept_tasks s ≡ true
    → (if state_eq s NodeState.ready then advance s NodeState.active else s) ≡ NodeState.active
unfolding can_accept_tasks state_eq advance can_transition_to
ready_or_active s h = ground arith

module _ {F : Type 0} where
  -- `get(id).map(|n| n.assigned_layers.clone()).unwrap_or_default()`
  unfoldable pub layers_at : NodeRegistry F → String → List ℕ
  layers_at r id = elim (get r id) [ none ↦ [] | some e ↦ e.assigned_layers ]

  -- The registry holds a node under this id that can accept tasks.
  abbrev pub IsServing : NodeRegistry F → String → Type 0
  IsServing r id = (e : NodeEntry F) × (get r id ≡ some e) × (can_accept_tasks e.state ≡ true)

  -- The registry holds an active node under this id with just these layers.
  abbrev pub Holds : NodeRegistry F → String → List ℕ → Type 0
  Holds r id layers =
      (e : NodeEntry F) × (get r id ≡ some e)
      × (e.state ≡ NodeState.active)
      × (e.assigned_layers ≡ layers)

  pub assign_layers_other :
      (r : NodeRegistry F) (id k : String) (layers : List ℕ)
      → str_eq id k ≡ false
      → get (assign_layers r id layers).0 k ≡ get r k
  unfolding assign_layers
  assign_layers_other r id k layers n = elim (Option-cases (get r id)) [
    | inl e ↦ rw (e, assign_layers)
    | inr (entry, e) ↦ rw (e, assign_layers) (rw (get-put r id k (with_layers layers entry), n))
  ]

  pub assign_layers-Holds :
      (r : NodeRegistry F) (id : String) (layers : List ℕ)
      → IsServing r id
      → Holds (assign_layers r id layers).0 id layers
  unfolding assign_layers
  assign_layers-Holds r id layers (e, found, serving) =
      rw (found, assign_layers)
        (
          with_layers layers e,
          rw (get-put r id id (with_layers layers e), (eq_iff id id).1 refl),
          ready_or_active e.state serving,
          refl,
        )

  pub assign_all_other :
      (plan : Plan) (r : NodeRegistry F) (k : String)
      → Absent k plan
      → get (assign_all plan r) k ≡ get r k
  unfolding assign_all
  assign_all_other [] r k a = refl
  assign_all_other ((id, layers) ∷ rest) r k a =
      assign_all_other rest (assign_layers r id layers).0 k a.1
      ∙ assign_layers_other r id k layers a.0

  IsServing-keep :
      (r : NodeRegistry F) (id : String) (layers : List ℕ) (plan : Plan)
      → Absent id plan
      → Entries (λ k l. IsServing r k) plan
      → Entries (λ k l. IsServing (assign_layers r id layers).0 k) plan
  IsServing-keep r id layers [] a h = tt
  IsServing-keep r id layers ((k, l) ∷ plan) a ((e, found, serving), h) =
      let other : str_eq id k ≡ false = ground (arith, eq_iff id k, eq_iff k id, a.0) in
      (
        (e, assign_layers_other r id k layers other ∙ found, serving),
        IsServing-keep r id layers plan a.1 h,
      )

  -- The assignments of a plan with distinct ids, all of serving nodes, leave each of these nodes
  -- active and with its layers.
  pub assign_all-Holds :
      (plan : Plan) (r : NodeRegistry F)
      → IsDistinct plan
      → Entries (λ k l. IsServing r k) plan
      → Entries (λ k l. Holds (assign_all plan r) k l) plan
  unfolding assign_all
  assign_all-Holds [] r d h = tt
  assign_all-Holds ((id, layers) ∷ rest) r d h =
      let r' = (assign_layers r id layers).0 in
      let (e, found, active, dealt) = assign_layers-Holds r id layers h.0 in
      (
        (e, assign_all_other rest r' id d.0 ∙ found, active, dealt),
        assign_all-Holds rest r' d.1 (IsServing-keep r id layers rest d.0 h.1),
      )
