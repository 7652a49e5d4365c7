-- ===== src/Orchestrator/Commands.antt =====
-- When a status update is answered with a command.
use neural_swarm_ai.Common.{
  ℕ, ◌≡◌, ◌≢◌, ◌↔◌, ◌⊎◌, sym, ◌∙◌, true, false, Bool-cases, Option-cases, Result-cases, inl, inr,
  String, Option, none, some, List, [], ◌∷◌, ok, arith,
}
use neural_swarm_ai.Float.{F32}
use neural_swarm_ai.Compute.Status.{NodeStatus}
use neural_swarm_ai.Node.Registry.{NodeEntry, NodeRegistry, get, with_status, update_status}
use neural_swarm_ai.Orchestrator.Replies.{get-put_same}
use neural_swarm_ai.Protocol.{SwarmMessage, rebalance_command}
use neural_swarm_ai.Orchestrator.Rebalance.{PeerIds}
use neural_swarm_ai.Orchestrator.Assignment.{layers_at}
use neural_swarm_ai.Orchestrator.Handlers.{
  Orchestrator, layers_eq, rebalanced, handle_status_update,
}

layers_eq_iff : (xs ys : List ℕ) → (layers_eq xs ys ≡ true) ↔ (xs ≡ ys)
layers_eq_iff [] [] = ground arith
layers_eq_iff [] (y ∷ ys) = ground arith
layers_eq_iff (x ∷ xs) [] = ground arith
layers_eq_iff (x ∷ xs) (y ∷ ys) = ground (arith, layers_eq_iff xs ys)

module _ {F : Type 0} ⦃f : F32 F⦄ where
  layers_at_found :
      (r : NodeRegistry F) (id : String) (e : NodeEntry F)
      → get r id ≡ some e
      → layers_at r id ≡ e.assigned_layers
  unfolding layers_at
  layers_at_found r id e found = rw (found, layers_at)

  update_status-layers_at :
      (now : ℕ) (r : NodeRegistry F) (id : String) (status : NodeStatus F)
      → layers_at (update_status now r id status).0 id ≡ layers_at r id
  unfolding update_status with_status
  update_status-layers_at now r id status = elim (Option-cases (get r id)) [
    | inl e ↦ rw (e, update_status)
    | inr (entry, e) ↦
        rw (e, update_status)
          (layers_at_found _ id _ (get-put_same r id _) ∙ sym (layers_at_found r id entry e))
  ]

module _ {F P : Type 0} ⦃f : F32 F⦄ (peers : PeerIds P) where
  -- The answer to a status update tells the node its layers: with no command they are the layers that
  -- it had before the update, and a command names the layers that the registry then assigns to it,
  -- which are other ones.
  pub handle_status_update-tells :
      (now : ℕ) (o : Orchestrator F P) (id : String) (status : NodeStatus F)
      (answer : Option (SwarmMessage F P))
      → (handle_status_update peers now o id status).1 ≡ ok answer
      → let before = layers_at o.registry id in
        let after = layers_at (handle_status_update peers now o id status).0.registry id in
        ((answer ≡ none) × (after ≡ before))
        ⊎ ((answer ≡ some (rebalance_command after)) × (after ≢ before))
  unfolding handle_status_update
  handle_status_update-tells now o id status answer e =
      let r₁ = update_status now o.registry id status in
      let kept = update_status-layers_at now o.registry id status in
      elim (Result-cases r₁.1) [
        | inr (x, t) ↦ cc (rw (t, handle_status_update) at e)
        | inl (false, t) ↦
            rw (t, handle_status_update) (inl (cc (rw (t, handle_status_update) at e), kept))
        | inl (true, t) ↦
            let after = layers_at (rebalanced peers o r₁.0).registry id in
            let told = rw (t, handle_status_update) at e in
            elim (Bool-cases (layers_eq (layers_at r₁.0 id) after)) [
              | inl same ↦
                  rw (t, handle_status_update)
                    (inl (
                      cc (rw same at told),
                      sym ((layers_eq_iff (layers_at r₁.0 id) after).0 same) ∙ kept,
                    ))
              | inr changed ↦
                  rw (t, handle_status_update)
                    (inr (
                      cc (rw changed at told),
                      λ q. cc ((layers_eq_iff (layers_at r₁.0 id) after).1 (kept ∙ sym q)),
                    ))
            ]
      ]
