-- ===== src/Node/Invariant.antt =====
-- The invariant of the registry, which each of its methods keeps.
use neural_swarm_ai.Common.{
  ℕ, ◌^◌, ◌<◌, ◌≡◌, refl, Bool, Bool-cases, Option-cases, Result-cases, inl, inr, String, some,
  List, [], ◌∷◌, arith, All, IsDistinct, IsDistinct-insert, IsDistinct-remove, Entries,
  Entries-insert, Entries-remove, Entries-lookup,
}
use neural_swarm_ai.Float.{F32, IsIeee, IsUnit}
use neural_swarm_ai.Compute.Profile.{NodeProfile}
use neural_swarm_ai.Compute.Status.{NodeStatus}
use neural_swarm_ai.Compute.Capacity.{zero_capacity}
use neural_swarm_ai.Compute.Bounds.{IsWord, composite-IsUnit, lit-IsUnit}
use neural_swarm_ai.Node.State.{NodeState, transition_to}
use neural_swarm_ai.Node.Registry.{
  NodeEntry, NodeRegistry, get, put, remove_node, heartbeat, nodes_with, active_nodes,
  assign_layers, register, with_status, mark_ready, update_status,
}

module _ {F : Type 0} ⦃f : F32 F⦄ where
  -- An entry stands under its own id, its memory fits a `u64`, and its composite is a number of the
  -- unit interval.
  pub record IsEntry (k : String) (e : NodeEntry F) : Type 0 where
    pub under_id : e.id ≡ k
    pub total : e.profile.ram_total_mb < 2 ^ 64
    pub composite : IsUnit e.capacity.composite

  pub record IsValid (r : NodeRegistry F) : Type 0 where
    pub distinct : IsDistinct r.nodes
    pub entries : Entries IsEntry r.nodes

  pub put-IsValid :
      {r : NodeRegistry F} (id : String) (e : NodeEntry F)
      → IsValid r
      → IsEntry id e
      → IsValid (put r id e)
  unfolding put
  put-IsValid {r} id e v h = record {
    distinct = IsDistinct-insert id e r.nodes v.distinct;
    entries = Entries-insert IsEntry id e r.nodes v.entries h;
  }

  pub get-IsEntry :
      (r : NodeRegistry F) (id : String) {e : NodeEntry F}
      → IsValid r
      → get r id ≡ some e
      → IsEntry id e
  unfolding get
  get-IsEntry r id v h = Entries-lookup IsEntry id r.nodes v.entries h

  pub remove_node-IsValid :
      (r : NodeRegistry F) (id : String) → IsValid r → IsValid (remove_node r id).0
  unfolding remove_node
  remove_node-IsValid r id v = record {
    distinct = IsDistinct-remove id r.nodes v.distinct;
    entries = Entries-remove IsEntry id r.nodes v.entries;
  }

  pub heartbeat-IsValid :
      (now : ℕ) (r : NodeRegistry F) (id : String) → IsValid r → IsValid (heartbeat now r id)
  unfolding heartbeat
  heartbeat-IsValid now r id v = elim (Option-cases (get r id)) [
    | inl e ↦ rw (e, heartbeat) v
    | inr (entry, e) ↦
        let h = get-IsEntry r id v e in
        rw (e, heartbeat)
          (put-IsValid id _ v
            (record { under_id = h.under_id; total = h.total; composite = h.composite }))
  ]

  pub assign_layers-IsValid :
      (r : NodeRegistry F) (id : String) (layers : List ℕ)
      → IsValid r
      → IsValid (assign_layers r id layers).0
  unfolding assign_layers
  assign_layers-IsValid r id layers v = elim (Option-cases (get r id)) [
    | inl e ↦ rw (e, assign_layers) v
    | inr (entry, e) ↦
        let h = get-IsEntry r id v e in
        rw (e, assign_layers)
          (put-IsValid id _ v
            (record { under_id = h.under_id; total = h.total; composite = h.composite }))
  ]

  All-nodes_with :
      (test : NodeState → Bool) (m : List (String × NodeEntry F))
      → Entries IsEntry m
      → All (λ e. IsUnit e.capacity.composite) (nodes_with test m)
  unfolding nodes_with
  All-nodes_with test [] h = tt
  All-nodes_with test ((k, e) ∷ m) h = elim (Bool-cases (test e.state)) [
    | inl t ↦ rw t (h.0.composite, All-nodes_with test m h.1)
    | inr t ↦ rw t (All-nodes_with test m h.1)
  ]

  pub active_nodes-IsUnit :
      (r : NodeRegistry F) → IsValid r → All (λ e. IsUnit e.capacity.composite) (active_nodes r)
  unfolding active_nodes
  active_nodes-IsUnit r v = All-nodes_with _ r.nodes v.entries

  module _ (laws : IsIeee F) where
    pub register-IsValid :
        (now : ℕ) (r : NodeRegistry F) (id : String) (profile : NodeProfile)
        → IsValid r
        → profile.ram_total_mb < 2 ^ 64
        → IsValid (register now r id profile).0
    unfolding register zero_capacity
    register-IsValid now r id profile v h = put-IsValid id _ v (record {
      under_id = refl;
      total = h;
      composite = lit-IsUnit laws 0 1 (omega arith) (omega arith);
    })

    with_status-IsEntry :
        {id : String} (entry : NodeEntry F) (status : NodeStatus F)
        → IsEntry id entry
        → IsWord status
        → IsUnit (with_status entry status).capacity.composite
    unfolding with_status
    with_status-IsEntry entry status h w =
        composite-IsUnit laws entry.profile status entry.reservation h.total w

    pub mark_ready-IsValid :
        (r : NodeRegistry F) (id : String) (status : NodeStatus F)
        → IsValid r
        → IsWord status
        → IsValid (mark_ready r id status).0
    unfolding mark_ready
    mark_ready-IsValid r id status v w = elim (Option-cases (get r id)) [
      | inl e ↦ rw (e, mark_ready) v
      | inr (entry, e) ↦
          let h = get-IsEntry r id v e in
          elim (Result-cases (transition_to entry.state NodeState.ready)) [
            | inl (s, t) ↦
                rw (e, mark_ready, t)
                  (put-IsValid id _ v (record {
                    under_id = h.under_id;
                    total = h.total;
                    composite = with_status-IsEntry entry status h w;
                  }))
            | inr (x, t) ↦ rw (e, mark_ready, t) v
          ]
    ]

    pub update_status-IsValid :
        (now : ℕ) (r : NodeRegistry F) (id : String) (status : NodeStatus F)
        → IsValid r
        → IsWord status
        → IsValid (update_status now r id status).0
    unfolding update_status
    update_status-IsValid now r id status v w = elim (Option-cases (get r id)) [
      | inl e ↦ rw (e, update_status) v
      | inr (entry, e) ↦
          let h = get-IsEntry r id v e in
          rw (e, update_status)
            (put-IsValid id _ v (record {
              under_id = h.under_id;
              total = h.total;
              composite = with_status-IsEntry entry status h w;
            }))
    ]
