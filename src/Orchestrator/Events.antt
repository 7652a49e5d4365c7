-- ===== src/Orchestrator/Events.antt =====
-- The orchestrator under any sequence of events: its registry stays valid.
use neural_swarm_ai.Common.{
  ℕ, ◌^◌, ◌<◌, true, false, Bool-cases, Option-cases, Result-cases, List-cases, inl, inr, String,
  ◌≡◌, List, [], ◌∷◌, All,
}
use neural_swarm_ai.Float.{F32, IsIeee}
use neural_swarm_ai.Compute.Profile.{NodeProfile}
use neural_swarm_ai.Compute.Status.{NodeStatus}
use neural_swarm_ai.Compute.Bounds.{IsWord}
use neural_swarm_ai.Node.State.{NodeState, can_transition_to, transition_to}
use neural_swarm_ai.Node.Registry.{
  NodeRegistry, get, remove_node, registry_is_empty, register, mark_ready, update_status,
}
use neural_swarm_ai.Node.Invariant.{
  IsValid, put-IsValid, get-IsEntry, remove_node-IsValid, heartbeat-IsValid, register-IsValid,
  mark_ready-IsValid, update_status-IsValid,
}
use neural_swarm_ai.Protocol.{Bytes}
use neural_swarm_ai.Orchestrator.Rebalance.{PeerIds}
use neural_swarm_ai.Orchestrator.Covered.{rebalance_layers-IsValid}
use neural_swarm_ai.Orchestrator.Handlers.{
  Orchestrator, new, handle_heartbeat, dead_ids, remove_all, begin_drain, rebalanced,
  handle_announce, handle_status_update, rebalanced_if_any, handle_drain, prune_dead_nodes,
}

-- A call of a handler, with the clock where it reads one.
pub data Event (F : Type 0) : Type 0 where
  announce :
      (now : ℕ) (device_id : String) (profile : NodeProfile) (status : NodeStatus F) → Event F
  update : (now : ℕ) (device_id : String) (status : NodeStatus F) → Event F
  drain : (device_id : String) → Event F
  beat : (now : ℕ) (device_id : String) → Event F
  prune : (now timeout_secs : ℕ) → Event F

-- The integers of the event fit their types.
abbrev pub IsEvent : {F : Type 0} → Event F → Type 0
IsEvent (announce now id profile status) = (profile.ram_total_mb < 2 ^ 64) × IsWord status
IsEvent (update now id status) = IsWord status
IsEvent _ = Unit

-- The call is about the node with this id.
abbrev pub IsAbout : {F : Type 0} → String → Event F → Type 0
IsAbout id (announce now k profile status) = k ≡ id
IsAbout id (update now k status) = k ≡ id
IsAbout id (drain k) = k ≡ id
IsAbout id (beat now k) = k ≡ id
IsAbout id (prune now timeout_secs) = ⊥

abbrev pub HasValid : {F P : Type 0} → ⦃f : F32 F⦄ → Orchestrator F P → Type 0
HasValid o = IsValid o.registry

module _ {F P : Type 0} ⦃f : F32 F⦄ (peers : PeerIds P) where
  unfoldable pub apply : Event F → Orchestrator F P → Orchestrator F P
  apply (announce now id profile status) o = (handle_announce peers now o id profile status).0
  apply (update now id status) o = (handle_status_update peers now o id status).0
  apply (drain id) o = (handle_drain peers o id).0
  apply (beat now id) o = (handle_heartbeat now o id).0
  apply (prune now timeout_secs) o = (prune_dead_nodes peers now o timeout_secs).0

  unfoldable pub apply_all : List (Event F) → Orchestrator F P → Orchestrator F P
  apply_all [] o = o
  apply_all (e ∷ es) o = apply_all es (apply e o)

  pub rebalanced-HasValid :
      (o : Orchestrator F P) (r : NodeRegistry F) → IsValid r → HasValid (rebalanced peers o r)
  unfolding rebalanced
  rebalanced-HasValid o r v = rebalance_layers-IsValid peers r o.total_model_layers o.pipeline v

  rebalanced_if_any-HasValid :
      (o : Orchestrator F P) (r : NodeRegistry F)
      → IsValid r
      → HasValid (rebalanced_if_any peers o r)
  unfolding rebalanced_if_any
  rebalanced_if_any-HasValid o r v = elim (Bool-cases (registry_is_empty r)) [
    | inl e ↦ rw (e, rebalanced_if_any) v
    | inr e ↦ rw (e, rebalanced_if_any) (rebalanced-HasValid o r v)
  ]

module _ {F : Type 0} ⦃f : F32 F⦄ where
  pub begin_drain-IsValid :
      (r : NodeRegistry F) (id : String) → IsValid r → IsValid (begin_drain r id).0
  unfolding begin_drain transition_to
  begin_drain-IsValid r id v = elim (Option-cases (get r id)) [
    | inl e ↦ rw (e, begin_drain) v
    | inr (entry, e) ↦ elim (Bool-cases (can_transition_to entry.state NodeState.draining)) [
      | inl t ↦
          let h = get-IsEntry r id v e in
          rw (e, begin_drain, t)
            (put-IsValid id _ v
              (record { under_id = h.under_id; total = h.total; composite = h.composite }))
      | inr t ↦ rw (e, begin_drain, t) v
    ]
  ]

  pub remove_all-IsValid :
      (ids : List String) (r : NodeRegistry F) → IsValid r → IsValid (remove_all ids r)
  unfolding remove_all
  remove_all-IsValid [] r v = v
  remove_all-IsValid (id ∷ ids) r v =
      remove_all-IsValid ids (remove_node r id).0 (remove_node-IsValid r id v)

module _ {F P : Type 0} ⦃f : F32 F⦄ (laws : IsIeee F) (peers : PeerIds P) where
  handle_announce-HasValid :
      (now : ℕ) (o : Orchestrator F P) (id : String) (profile : NodeProfile) (status : NodeStatus F)
      → HasValid o
      → profile.ram_total_mb < 2 ^ 64
      → IsWord status
      → HasValid (handle_announce peers now o id profile status).0
  unfolding handle_announce
  handle_announce-HasValid now o id profile status v h w =
      let r₁ = register now o.registry id profile in
      let v₁ = register-IsValid laws now o.registry id profile v h in
      let r₂ = mark_ready r₁.0 id status in
      let v₂ = mark_ready-IsValid laws r₁.0 id status v₁ w in
      elim (Result-cases r₁.1) [
        | inr (x, e) ↦ rw (e, handle_announce) v₁
        | inl (x, e) ↦ elim (Result-cases r₂.1) [
          | inr (y, t) ↦ rw (e, handle_announce, t) v₂
          | inl (y, t) ↦ rw (e, handle_announce, t) (rebalanced-HasValid peers o r₂.0 v₂)
        ]
      ]

  handle_status_update-HasValid :
      (now : ℕ) (o : Orchestrator F P) (id : String) (status : NodeStatus F)
      → HasValid o
      → IsWord status
      → HasValid (handle_status_update peers now o id status).0
  unfolding handle_status_update
  handle_status_update-HasValid now o id status v w =
      let r₁ = update_status now o.registry id status in
      let v₁ = update_status-IsValid laws now o.registry id status v w in
      elim (Result-cases r₁.1) [
        | inr (x, e) ↦ rw (e, handle_status_update) v₁
        | inl (false, e) ↦ rw (e, handle_status_update) v₁
        | inl (true, e) ↦ rw (e, handle_status_update) (rebalanced-HasValid peers o r₁.0 v₁)
      ]

  handle_drain-HasValid :
      (o : Orchestrator F P) (id : String) → HasValid o → HasValid (handle_drain peers o id).0
  unfolding handle_drain
  handle_drain-HasValid o id v =
      let r₁ = begin_drain o.registry id in
      let v₁ = begin_drain-IsValid o.registry id v in
      elim (Result-cases r₁.1) [
        | inr (x, e) ↦ rw (e, handle_drain) v₁
        | inl (x, e) ↦
            rw (e, handle_drain)
              (rebalanced_if_any-HasValid peers o _ (remove_node-IsValid r₁.0 id v₁))
      ]

  prune_dead_nodes-HasValid :
      (now : ℕ) (o : Orchestrator F P) (timeout_secs : ℕ)
      → HasValid o
      → HasValid (prune_dead_nodes peers now o timeout_secs).0
  unfolding prune_dead_nodes
  prune_dead_nodes-HasValid now o timeout_secs v =
      elim (List-cases (dead_ids now timeout_secs o.registry.nodes)) [
        | inl e ↦ rw (e, prune_dead_nodes) v
        | inr (id, ids, e) ↦
            rw (e, prune_dead_nodes)
              (rebalanced_if_any-HasValid peers o _ (remove_all-IsValid (id ∷ ids) o.registry v))
      ]

  pub apply-HasValid :
      (e : Event F) (o : Orchestrator F P) → IsEvent e → HasValid o → HasValid (apply peers e o)
  unfolding apply handle_heartbeat
  apply-HasValid (announce now id profile status) o w v =
      handle_announce-HasValid now o id profile status v w.0 w.1
  apply-HasValid (update now id status) o w v = handle_status_update-HasValid now o id status v w
  apply-HasValid (drain id) o w v = handle_drain-HasValid o id v
  apply-HasValid (beat now id) o w v = heartbeat-IsValid now o.registry id v
  apply-HasValid (prune now timeout_secs) o w v = prune_dead_nodes-HasValid now o timeout_secs v

  pub apply_all-HasValid :
      (es : List (Event F)) (o : Orchestrator F P)
      → All IsEvent es
      → HasValid o
      → HasValid (apply_all peers es o)
  unfolding apply_all
  apply_all-HasValid [] o w v = v
  apply_all-HasValid (e ∷ es) o w v =
      apply_all-HasValid es (apply peers e o) w.1 (apply-HasValid e o w.0 v)

  -- The registry stays valid under any calls of the handlers on a new orchestrator, in any order and
  -- with any results, where the integers of the calls fit their types: each id stands once, each
  -- entry under its own id, and each composite capacity is a number of the unit interval.
  pub reachable-HasValid :
      (cluster_key : Bytes) (total_layers : ℕ) (shared_secret : String) (es : List (Event F))
      → All IsEvent es
      → HasValid (apply_all peers es (new cluster_key total_layers shared_secret))
  unfolding new
  reachable-HasValid cluster_key total_layers shared_secret es w =
      apply_all-HasValid es _ w (record { distinct = tt; entries = tt })
