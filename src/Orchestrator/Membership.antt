-- ===== src/Orchestrator/Membership.antt =====
-- The membership under the calls of the handlers of `src/orchestrator.rs`.
use neural_swarm_ai.Common.{
  ℕ, ◌≡◌, refl, ◌∙◌, subst, true, false, if◌then◌else◌, Bool-cases, Result-cases, List-cases, All,
  inl, inr, str_eq, String, none, some, List, [], ◌∷◌, lookup,
}
use neural_swarm_ai.Float.{F32, IsIeee}
use neural_swarm_ai.Compute.Profile.{NodeProfile}
use neural_swarm_ai.Compute.Status.{NodeStatus}
use neural_swarm_ai.Node.Registry.{
  NodeEntry, NodeRegistry, get, remove_node, registry_is_empty, fresh_entry, register, mark_ready,
  update_status,
}
use neural_swarm_ai.Node.Ranking.{sorted_by_capacity}
use neural_swarm_ai.Protocol.{Bytes}
use neural_swarm_ai.Pipeline.Stages.{InferencePipeline}
use neural_swarm_ai.Orchestrator.Rebalance.{PeerIds, plan, rebalance_sorted, rebalance_layers}
use neural_swarm_ai.Orchestrator.Handlers.{
  Orchestrator, new, begin_drain, rebalanced, rebalanced_if_any, handle_announce,
  handle_status_update, handle_heartbeat, handle_drain, dead_ids, prune_dead_nodes,
}
use neural_swarm_ai.Orchestrator.Events.{
  Event, announce, update, drain, beat, prune, IsEvent, HasValid, apply, apply_all, apply-HasValid,
  begin_drain-IsValid,
}
use neural_swarm_ai.Orchestrator.Drains.{begin_drain_ok}
use neural_swarm_ai.Orchestrator.Members.{
  touched, unless_silent, member_step, member_steps, heard, last_heard, last_heard-put,
  last_heard-assign_all, last_heard-heartbeat, last_heard-begin_drain, last_heard-remove_node,
  last_heard-mark_ready, last_heard-update_status,
}
use neural_swarm_ai.Orchestrator.Silence.{listed, last_heard-remove_all, dead_silent}

module _ {F P : Type 0} ⦃f : F32 F⦄ (peers : PeerIds P) where
  last_heard-rebalance_layers :
      (r : NodeRegistry F) (total : ℕ) (pipeline : InferencePipeline P) (k : String)
      → last_heard (rebalance_layers peers r total pipeline).0 k ≡ last_heard r k
  unfolding rebalance_layers rebalance_sorted
  last_heard-rebalance_layers r total pipeline k = go (sorted_by_capacity r)
    where
      go :
          (ns : List (NodeEntry F))
          → last_heard (rebalance_sorted peers ns r total pipeline).0 k ≡ last_heard r k
      go [] = refl
      go (n ∷ ns) = last_heard-assign_all (plan total (n ∷ ns)) r k

  last_heard-rebalanced :
      (o : Orchestrator F P) (r : NodeRegistry F) (k : String)
      → last_heard (rebalanced peers o r).registry k ≡ last_heard r k
  unfolding rebalanced
  last_heard-rebalanced o r k = last_heard-rebalance_layers r o.total_model_layers o.pipeline k

  last_heard-rebalanced_if_any :
      (o : Orchestrator F P) (r : NodeRegistry F) (k : String)
      → last_heard (rebalanced_if_any peers o r).registry k ≡ last_heard r k
  unfolding rebalanced_if_any
  last_heard-rebalanced_if_any o r k = elim (Bool-cases (registry_is_empty r)) [
    | inl e ↦ rw (rebalanced_if_any, e) refl
    | inr e ↦ rw (rebalanced_if_any, e) (last_heard-rebalanced o r k)
  ]

  handle_announce-member_step :
      (now : ℕ) (id : String) (profile : NodeProfile) (status : NodeStatus F) (o : Orchestrator F P)
      (k : String)
      → last_heard (handle_announce peers now o id profile status).0.registry k
        ≡ (if str_eq id k then some now else last_heard o.registry k)
  unfolding handle_announce register fresh_entry
  handle_announce-member_step now id profile status o k =
      let r₁ = register now o.registry id profile in
      let h₁ = last_heard-put o.registry id k (fresh_entry now id profile) in
      let r₂ = mark_ready r₁.0 id status in
      let h₂ = last_heard-mark_ready r₁.0 id k status ∙ h₁ in
      elim (Result-cases r₁.1) [
        | inr (x, t) ↦ rw (handle_announce, t) h₁
        | inl (x, t) ↦ elim (Result-cases r₂.1) [
          | inr (y, u) ↦ rw (handle_announce, t, u) h₂
          | inl (y, u) ↦ rw (handle_announce, t, u) (last_heard-rebalanced o r₂.0 k ∙ h₂)
        ]
      ]

  handle_status_update-member_step :
      (now : ℕ) (id : String) (status : NodeStatus F) (o : Orchestrator F P) (k : String)
      → last_heard (handle_status_update peers now o id status).0.registry k
        ≡ (if str_eq id k then touched now (last_heard o.registry k) else last_heard o.registry k)
  unfolding handle_status_update
  handle_status_update-member_step now id status o k =
      let r₁ = update_status now o.registry id status in
      let h₁ = last_heard-update_status now o.registry id k status in
      elim (Result-cases r₁.1) [
        | inr (x, t) ↦ rw (handle_status_update, t) h₁
        | inl (false, t) ↦ rw (handle_status_update, t) h₁
        | inl (true, t) ↦ rw (handle_status_update, t) (last_heard-rebalanced o r₁.0 k ∙ h₁)
      ]

  handle_drain-member_step :
      (id : String) (o : Orchestrator F P) (k : String)
      → HasValid o
      → last_heard (handle_drain peers o id).0.registry k
        ≡ (if str_eq id k then none else last_heard o.registry k)
  unfolding handle_drain
  handle_drain-member_step id o k v =
      let r₁ = begin_drain o.registry id in
      let v₁ = (begin_drain-IsValid o.registry id v).distinct in
      let h₁ = last_heard-remove_node r₁.0 id k v₁ in
      rw (handle_drain, begin_drain_ok o.registry id)
        (last_heard-rebalanced_if_any o (remove_node r₁.0 id).0 k
          ∙ h₁
          ∙ rw (last_heard-begin_drain o.registry id k) refl)

  prune_dead_nodes-member_step :
      (now timeout_secs : ℕ) (o : Orchestrator F P) (k : String)
      → HasValid o
      → last_heard (prune_dead_nodes peers now o timeout_secs).0.registry k
        ≡ unless_silent now timeout_secs (last_heard o.registry k)
  unfolding prune_dead_nodes last_heard get listed
  prune_dead_nodes-member_step now timeout_secs o k v =
      let left : List String → Type 0 = λ ids.
        (if listed ids k then none else last_heard o.registry k)
        ≡ unless_silent now timeout_secs (last_heard o.registry k) in
      let silent = dead_silent now timeout_secs o.registry.nodes k v.distinct in
      elim (List-cases (dead_ids now timeout_secs o.registry.nodes)) [
        | inl e ↦ rw (prune_dead_nodes, e) (subst left e silent)
        | inr (id, ids, e) ↦
            rw (prune_dead_nodes, e)
              (last_heard-rebalanced_if_any o _ k
                ∙ last_heard-remove_all (id ∷ ids) o.registry k v
                ∙ subst left e silent)
      ]

  -- A call of a handler does to the membership of every node what the abstract step does.
  apply-member_step :
      (e : Event F) (o : Orchestrator F P) (k : String)
      → HasValid o
      → last_heard (apply peers e o).registry k ≡ member_step e k (last_heard o.registry k)
  unfolding apply member_step handle_heartbeat
  apply-member_step (announce now id profile status) o k v =
      handle_announce-member_step now id profile status o k
  apply-member_step (update now id status) o k v =
      handle_status_update-member_step now id status o k
  apply-member_step (drain id) o k v = handle_drain-member_step id o k v
  apply-member_step (beat now id) o k v = last_heard-heartbeat now o.registry id k
  apply-member_step (prune now timeout_secs) o k v =
      prune_dead_nodes-member_step now timeout_secs o k v

module _ {F P : Type 0} ⦃f : F32 F⦄ (laws : IsIeee F) (peers : PeerIds P) where
  apply_all-member_steps :
      (es : List (Event F)) (o : Orchestrator F P) (k : String)
      → All IsEvent es
      → HasValid o
      → last_heard (apply_all peers es o).registry k ≡ member_steps es k (last_heard o.registry k)
  unfolding apply_all member_steps
  apply_all-member_steps [] o k w v = refl
  apply_all-member_steps (e ∷ es) o k w v =
      apply_all-member_steps es (apply peers e o) k w.1 (apply-HasValid laws peers e o w.0 v)
      ∙ rw (apply-member_step peers e o k v) refl

  -- The registry refines a map from ids to the times of their last signs of life. After any calls
  -- of the handlers on a new orchestrator, in any order and with any results, where the integers of
  -- the calls fit their types, a node is in the registry, and with this heartbeat, exactly as the
  -- calls alone say: an announcement puts it in, a status update and a heartbeat touch it where it
  -- is in, a drain takes it out, and pruning takes out exactly those silent for more whole seconds
  -- than the timeout. No rebalance puts a node in, takes one out or touches one.
  pub reachable-member_steps :
      (cluster_key : Bytes) (total_layers : ℕ) (shared_secret : String) (es : List (Event F))
      → All IsEvent es
      → (k : String)
      → last_heard (apply_all peers es (new cluster_key total_layers shared_secret)).registry k
        ≡ member_steps es k none
  unfolding new last_heard get lookup heard
  reachable-member_steps cluster_key total_layers shared_secret es w k =
      apply_all-member_steps es (new cluster_key total_layers shared_secret) k w
        (record { distinct = tt; entries = tt })
