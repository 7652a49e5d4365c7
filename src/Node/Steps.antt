-- ===== src/Node/Steps.antt =====
-- The methods of the registry keep each node and its state, or move it by an allowed transition.
use neural_swarm_ai.Common.{
  ℕ, ◌≡◌, refl, true, false, ◌&&◌, Bool-cases, Option-cases, inl, inr, ◌⊎◌, String, some, List, ok,
  err, lookup-insert, str_eq, eq_iff, sym, ap, ◌∙◌, if◌then◌else◌,
}
use mathlib.Core.Option.{some-injective}
use neural_swarm_ai.Float.{F32}
use neural_swarm_ai.Compute.Status.{NodeStatus}
use neural_swarm_ai.Node.State.{
  NodeState, invalid_transition, transition_to, can_transition_to, state_eq,
}
use neural_swarm_ai.Node.Registry.{
  NodeEntry, NodeRegistry, get, put, heartbeat, advance, assign_layers, mark_ready, reconsider,
  update_status,
}

-- A state is kept, or left by a transition that the code allows.
abbrev pub StaysOrSteps : NodeState → NodeState → Type 0
StaysOrSteps s t = (t ≡ s) ⊎ (can_transition_to s t ≡ true)

transition_to_can : (s t : NodeState) → can_transition_to s t ≡ true → transition_to s t ≡ ok t
unfolding transition_to
transition_to_can s t e = rw e

transition_to_cannot :
    (s t : NodeState)
    → can_transition_to s t ≡ false
    → transition_to s t ≡ err (invalid_transition s t)
unfolding transition_to
transition_to_cannot s t e = rw e

module _ {F : Type 0} where
  -- Every node of the first registry is in the second, in its state or one transition on.
  abbrev pub Follows : NodeRegistry F → NodeRegistry F → Type 0
  Follows r r' =
      (k : String) (e : NodeEntry F)
      → get r k ≡ some e
      → (e' : NodeEntry F) × (get r' k ≡ some e') × StaysOrSteps e.state e'.state

  pub get-put :
      (r : NodeRegistry F) (id k : String) (e : NodeEntry F)
      → get (put r id e) k ≡ (if str_eq id k then some e else get r k)
  unfolding get put
  get-put r id k e = lookup-insert id k e r.nodes

  Follows-refl : (r : NodeRegistry F) → Follows r r
  Follows-refl r k e h = (e, h, inl refl)

  Follows-put :
      (r : NodeRegistry F) (id : String) (e e' : NodeEntry F)
      → get r id ≡ some e
      → StaysOrSteps e.state e'.state
      → Follows r (put r id e')
  Follows-put r id e e' found s k d h = elim (Bool-cases (str_eq id k)) [
    | inl same ↦ (
      e',
      rw (get-put r id k e', same),
      (let p : some e ≡ some d = sym found ∙ ap (get r) ((eq_iff id k).0 same) ∙ h in
          rw (← some-injective _ _ p) s),
    )
    | inr other ↦ (d, (rw (get-put r id k e', other) h), inl refl)
  ]

  -- A heartbeat changes no state.
  pub heartbeat-Follows :
      (now : ℕ) (r : NodeRegistry F) (id : String) → Follows r (heartbeat now r id)
  unfolding heartbeat
  heartbeat-Follows now r id = elim (Option-cases (get r id)) [
    | inl e ↦ rw (e, heartbeat) (Follows-refl r)
    | inr (entry, e) ↦ rw (e, heartbeat) (Follows-put r id entry _ e (inl refl))
  ]

advance-StaysOrSteps : (s t : NodeState) → StaysOrSteps s (advance s t)
unfolding advance
advance-StaysOrSteps s t = elim (Bool-cases (can_transition_to s t)) [
  | inl e ↦ rw (e, advance) (inr e)
  | inr e ↦ rw (e, advance) (inl refl)
]

module _ {F : Type 0} where
  -- An assignment of layers activates a ready node, and else changes no state.
  pub assign_layers-Follows :
      (r : NodeRegistry F) (id : String) (layers : List ℕ) → Follows r (assign_layers r id layers).0
  unfolding assign_layers
  assign_layers-Follows r id layers = elim (Option-cases (get r id)) [
    | inl e ↦ rw (e, assign_layers) (Follows-refl r)
    | inr (entry, e) ↦
        rw (e, assign_layers)
          (Follows-put r id entry _ e (elim (Bool-cases (state_eq entry.state NodeState.ready)) [
            | inl t ↦ rw t (advance-StaysOrSteps entry.state NodeState.active)
            | inr t ↦ rw t (inl refl)
          ]))
  ]

module _ {F : Type 0} ⦃f : F32 F⦄ where
  reconsider-StaysOrSteps : (s : NodeState) (c : F) → StaysOrSteps s (reconsider s c)
  unfolding reconsider
  reconsider-StaysOrSteps s c =
      elim (Bool-cases (state_eq s NodeState.active && f.lt c (f.lit 1 10))) [
        | inl t ↦ rw (t, reconsider) (advance-StaysOrSteps s NodeState.degraded)
        | inr t ↦ elim (Bool-cases (state_eq s NodeState.degraded && f.le (f.lit 15 100) c)) [
          | inl u ↦ rw (t, reconsider, u) (advance-StaysOrSteps s NodeState.active)
          | inr u ↦ rw (t, reconsider, u) (inl refl)
        ]
      ]

  -- `mark_ready` moves the node to ready or fails and changes nothing.
  pub mark_ready-Follows :
      (r : NodeRegistry F) (id : String) (status : NodeStatus F)
      → Follows r (mark_ready r id status).0
  unfolding mark_ready
  mark_ready-Follows r id status = elim (Option-cases (get r id)) [
    | inl e ↦ rw (e, mark_ready) (Follows-refl r)
    | inr (entry, e) ↦ elim (Bool-cases (can_transition_to entry.state NodeState.ready)) [
      | inl t ↦ rw (e, mark_ready, transition_to_can _ _ t) (Follows-put r id entry _ e (inr t))
      | inr t ↦ rw (e, mark_ready, transition_to_cannot _ _ t) (Follows-refl r)
    ]
  ]

  -- A status update moves the node by an allowed transition, or keeps its state.
  pub update_status-Follows :
      (now : ℕ) (r : NodeRegistry F) (id : String) (status : NodeStatus F)
      → Follows r (update_status now r id status).0
  unfolding update_status
  update_status-Follows now r id status = elim (Option-cases (get r id)) [
    | inl e ↦ rw (e, update_status) (Follows-refl r)
    | inr (entry, e) ↦
        rw (e, update_status) (Follows-put r id entry _ e (reconsider-StaysOrSteps entry.state _))
  ]
