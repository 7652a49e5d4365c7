-- ===== src/Node/Updates.antt =====
-- What a status update does to the states: `update_status` of `src/node/registry.rs`.
use neural_swarm_ai.Common.{
  ℕ, ◌≡◌, ◌⊎◌, refl, sym, ap, ◌∙◌, true, Bool-cases, Option-cases, inl, inr, String, some, str_eq,
  eq_iff,
}
use neural_swarm_ai.Float.{F32}
use neural_swarm_ai.Compute.Status.{NodeStatus}
use neural_swarm_ai.Node.State.{NodeState, can_transition_to, transition_to, state_eq}
use neural_swarm_ai.Node.Registry.{
  NodeEntry, NodeRegistry, get, advance, with_status, reconsider, update_status,
}
use neural_swarm_ai.Node.Steps.{get-put}

module _ {F : Type 0} ⦃f : F32 F⦄ where
  -- From the state before, by the composite capacity after the update, to the state after: an active
  -- node below 0.1 is degraded, a degraded one from 0.15 on active again, and nothing else moves.
  abbrev pub Moves : NodeState → F → NodeState → Type 0
  Moves s composite t =
      ((s ≡ NodeState.active) × (f.lt composite (f.lit 1 10) ≡ true) × (t ≡ NodeState.degraded))
      ⊎ ((s ≡ NodeState.degraded) × (f.le (f.lit 15 100) composite ≡ true) × (t ≡ NodeState.active))
      ⊎ ((t ≡ s)
          × ¬ ((s ≡ NodeState.active) × (f.lt composite (f.lit 1 10) ≡ true))
          × ¬ ((s ≡ NodeState.degraded) × (f.le (f.lit 15 100) composite ≡ true)))

  reconsider-Moves : (s : NodeState) (composite : F) → Moves s composite (reconsider s composite)
  unfolding reconsider advance transition_to can_transition_to state_eq
  reconsider-Moves NodeState.active x = elim (Bool-cases (f.lt x (f.lit 1 10))) [
    | inl e ↦ rw (reconsider, e) (inl (refl, refl, refl))
    | inr e ↦ rw (reconsider, e) (inr (inr (refl, (λ h. cc (h.1)), λ h. cc (h.0))))
  ]
  reconsider-Moves NodeState.degraded x = elim (Bool-cases (f.le (f.lit 15 100) x)) [
    | inl e ↦ rw (reconsider, e) (inr (inl (refl, refl, refl)))
    | inr e ↦ rw (reconsider, e) (inr (inr (refl, (λ h. cc (h.0)), λ h. cc (h.1))))
  ]
  reconsider-Moves NodeState.joining x = inr (inr (refl, (λ h. cc (h.0)), λ h. cc (h.0)))
  reconsider-Moves NodeState.ready x = inr (inr (refl, (λ h. cc (h.0)), λ h. cc (h.0)))
  reconsider-Moves NodeState.draining x = inr (inr (refl, (λ h. cc (h.0)), λ h. cc (h.0)))
  reconsider-Moves NodeState.left x = inr (inr (refl, (λ h. cc (h.0)), λ h. cc (h.0)))

  -- A status update keeps every node in the registry. Every other node is as it was; the node itself
  -- is degraded if it was active and its new composite capacity is below 0.1, active again if it was
  -- degraded and the new composite is 0.15 or more, and else stays in its state.
  pub update_status-Moves :
      (now : ℕ) (r : NodeRegistry F) (id k : String) (status : NodeStatus F) (e : NodeEntry F)
      → get r k ≡ some e
      → (e' : NodeEntry F) × (get (update_status now r id status).0 k ≡ some e')
        × ((¬ (id ≡ k) × (e' ≡ e)) ⊎ ((id ≡ k) × Moves e.state e'.capacity.composite e'.state))
  unfolding update_status with_status
  update_status-Moves now r id k status e found = elim (Bool-cases (str_eq id k)) [
    | inl same ↦
        let here : get r id ≡ some e = ap (get r) ((eq_iff id k).0 same) ∙ found in
        rw (update_status, here, get-put, same)
          (_, refl, inr ((eq_iff id k).0 same, reconsider-Moves e.state _))
    | inr other ↦
        let apart : ¬ (id ≡ k) = λ h. cc (sym other ∙ (eq_iff id k).1 h) in
        elim (Option-cases (get r id)) [
          | inl n ↦ rw (update_status, n) (e, found, inl (apart, refl))
          | inr (d, n) ↦ rw (update_status, n, get-put, other) (e, found, inl (apart, refl))
        ]
  ]
