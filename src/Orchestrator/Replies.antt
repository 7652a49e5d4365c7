-- ===== src/Orchestrator/Replies.antt =====
-- What a node that announces itself is answered.
use neural_swarm_ai.Common.{ℕ, ◌≡◌, refl, sym, subst, String, some, List, [], ◌∷◌, ok, eq_iff}
use neural_swarm_ai.Float.{F32}
use neural_swarm_ai.Compute.Profile.{NodeProfile}
use neural_swarm_ai.Compute.Status.{NodeStatus}
use neural_swarm_ai.Node.State.{NodeState, transition_to, can_transition_to}
use neural_swarm_ai.Node.Registry.{
  NodeEntry, NodeRegistry, get, put, fresh_entry, register, with_status, mark_ready, assign_layers,
}
use neural_swarm_ai.Node.Ranking.{sorted_by_capacity}
use neural_swarm_ai.Node.Steps.{get-put, assign_layers-Follows}
use neural_swarm_ai.Protocol.{join_response}
use neural_swarm_ai.Pipeline.Stages.{InferencePipeline}
use neural_swarm_ai.Orchestrator.Rebalance.{
  PeerIds, Plan, plan, assign_all, rebalance_sorted, rebalance_layers,
}
use neural_swarm_ai.Orchestrator.Handlers.{Orchestrator, rebalanced, handle_announce}

module _ {F : Type 0} where
  -- The registry holds a node under this id.
  abbrev pub IsPresent : NodeRegistry F → String → Type 0
  IsPresent r id = (e : NodeEntry F) × (get r id ≡ some e)

  assign_all-IsPresent :
      (p : Plan) (r : NodeRegistry F) (id : String) → IsPresent r id → IsPresent (assign_all p r) id
  unfolding assign_all
  assign_all-IsPresent [] r id h = h
  assign_all-IsPresent ((k, layers) ∷ p) r id (e, found) =
      let (e', found', moved) = assign_layers-Follows r k layers id e found in
      assign_all-IsPresent p (assign_layers r k layers).0 id (e', found')

  pub get-put_same :
      (r : NodeRegistry F) (id : String) (e : NodeEntry F) → get (put r id e) id ≡ some e
  get-put_same r id e = rw (get-put, (eq_iff id id).1 refl) refl

module _ {F P : Type 0} ⦃f : F32 F⦄ (peers : PeerIds P) where
  rebalance_layers-IsPresent :
      (r : NodeRegistry F) (total : ℕ) (pipeline : InferencePipeline P) (id : String)
      → IsPresent r id
      → IsPresent (rebalance_layers peers r total pipeline).0 id
  unfolding rebalance_layers rebalance_sorted
  rebalance_layers-IsPresent r total pipeline id h = go (sorted_by_capacity r)
    where
      go : (ns : List (NodeEntry F)) → IsPresent (rebalance_sorted peers ns r total pipeline).0 id
      go [] = h
      go (n ∷ ns) = assign_all-IsPresent (plan total (n ∷ ns)) r id h

  registered :
      (now : ℕ) (r : NodeRegistry F) (id : String) (profile : NodeProfile)
      → register now r id profile
        ≡ (put r id (fresh_entry now id profile), ok (fresh_entry now id profile))
  unfolding register
  registered now r id profile = rw (get-put_same r id (fresh_entry now id profile), register)

  marked :
      (r : NodeRegistry F) (id : String) (e : NodeEntry F) (status : NodeStatus F)
      → transition_to e.state NodeState.ready ≡ ok NodeState.ready
      → mark_ready (put r id e) id status
        ≡ (put (put r id e) id (record (with_status e status) { state = NodeState.ready }), ok tt)
  unfolding mark_ready
  marked r id e status new = rw (get-put_same r id e, mark_ready, new)

  marked_fresh :
      (now : ℕ) (r : NodeRegistry F) (id : String) (profile : NodeProfile) (status : NodeStatus F)
      → let fresh = fresh_entry {F = F} now id profile in
        mark_ready (register now r id profile).0 id status ≡ (
          put (put r id fresh) id (record (with_status fresh status) { state = NodeState.ready }),
          ok tt,
        )
  unfolding fresh_entry transition_to can_transition_to
  marked_fresh now r id profile status =
      let fresh = fresh_entry {F = F} now id profile in
      subst
        (λ q. mark_ready q.0 id status ≡ (
          put (put r id fresh) id (record (with_status fresh status) { state = NodeState.ready }),
          ok tt,
        ))
        (sym (registered now r id profile)) (marked r id fresh status refl)

  -- An announcement never fails, whatever the orchestrator holds: the node is in the registry after
  -- it, and it is answered with the layers that the registry then assigns to it and the number of
  -- layers of the model.
  pub handle_announce-joins :
      (now : ℕ) (o : Orchestrator F P) (id : String) (profile : NodeProfile) (status : NodeStatus F)
      → (e : NodeEntry F) × (get (handle_announce peers now o id profile status).0.registry id
          ≡ some e)
        × ((handle_announce peers now o id profile status).1
            ≡ ok (join_response e.assigned_layers o.total_model_layers []))
  unfolding handle_announce rebalanced
  handle_announce-joins now o id profile status =
      let fresh = fresh_entry {F = F} now id profile in
      let made = registered now o.registry id profile in
      let ready = marked_fresh now o.registry id profile status in
      let r₁ = put o.registry id fresh in
      let marked_entry = record (with_status fresh status) { state = NodeState.ready } in
      let r₂ = (mark_ready (register now o.registry id profile).0 id status).0 in
      let present : IsPresent r₂ id =
        subst (λ q. IsPresent q.0 id) (sym ready) (marked_entry, get-put_same r₁ id marked_entry) in
      let (e, found) = rebalance_layers-IsPresent r₂ o.total_model_layers o.pipeline id present in
      rw (made, handle_announce, ready) (e, found, rw (found))
