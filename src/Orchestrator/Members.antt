-- ===== src/Orchestrator/Members.antt =====
-- Who is a member and when it was last heard: the registry of `src/node/registry.rs` as a map from
-- ids to heartbeats, and what each of its methods does to that map.
use neural_swarm_ai.Common.{
  ℕ, ◌-◌, ◌/◌, ◌^◌, ◌≡◌, refl, ◌∙◌, ltb, if◌then◌else◌, Bool-cases, Option-cases, Result-cases, inl,
  inr, str_eq, eq_iff, String, Option, none, some, List, [], ◌∷◌, lookup-remove, IsDistinct,
}
use neural_swarm_ai.Float.{F32}
use neural_swarm_ai.Compute.Status.{NodeStatus}
use neural_swarm_ai.Node.State.{NodeState, can_transition_to, transition_to}
use neural_swarm_ai.Node.Registry.{
  NodeEntry, NodeRegistry, get, put, remove_node, heartbeat, with_layers, assign_layers,
  with_status, mark_ready, update_status,
}
use neural_swarm_ai.Node.Steps.{get-put}
use neural_swarm_ai.Orchestrator.Rebalance.{Plan, assign_all}
use neural_swarm_ai.Orchestrator.Handlers.{begin_drain}
use neural_swarm_ai.Orchestrator.Events.{Event, announce, update, drain, beat, prune}

-- The abstract membership: for each id nothing, or the time of its last sign of life.
unfoldable pub touched : ℕ → Option ℕ → Option ℕ
touched now none = none
touched now (some t) = some now

unfoldable pub unless_silent : ℕ → ℕ → Option ℕ → Option ℕ
unless_silent now timeout_secs none = none
unless_silent now timeout_secs (some t) =
    if ltb timeout_secs ((now - t) / 10 ^ 9) then none else some t

-- What a call does to the membership of the node `k`.
unfoldable pub member_step : {F : Type 0} → Event F → String → Option ℕ → Option ℕ
member_step (announce now id profile status) k m = if str_eq id k then some now else m
member_step (update now id status) k m = if str_eq id k then touched now m else m
member_step (drain id) k m = if str_eq id k then none else m
member_step (beat now id) k m = if str_eq id k then touched now m else m
member_step (prune now timeout_secs) k m = unless_silent now timeout_secs m

unfoldable pub member_steps : {F : Type 0} → List (Event F) → String → Option ℕ → Option ℕ
member_steps [] k m = m
member_steps (e ∷ es) k m = member_steps es k (member_step e k m)

module _ {F : Type 0} where
  unfoldable pub heard : Option (NodeEntry F) → Option ℕ
  heard none = none
  heard (some e) = some e.last_heartbeat

  unfoldable pub last_heard : NodeRegistry F → String → Option ℕ
  unfolding heard
  last_heard r k = heard (get r k)

  pub last_heard-put :
      (r : NodeRegistry F) (id k : String) (e : NodeEntry F)
      → last_heard (put r id e) k ≡ (if str_eq id k then some e.last_heartbeat else last_heard r k)
  unfolding last_heard
  last_heard-put r id k e = elim (Bool-cases (str_eq id k)) [
    | inl s ↦ rw (get-put, s) refl
    | inr s ↦ rw (get-put, s) refl
  ]

  -- An entry written back with the heartbeat it had.
  last_heard_kept :
      (r : NodeRegistry F) (id k : String) (n e : NodeEntry F)
      → get r id ≡ some n
      → e.last_heartbeat ≡ n.last_heartbeat
      → last_heard (put r id e) k ≡ last_heard r k
  unfolding last_heard
  last_heard_kept r id k n e found h = elim (Bool-cases (str_eq id k)) [
    | inl s ↦ last_heard-put r id k e ∙ rw (s, h, last_heard, ← (eq_iff id k).0 s, found) refl
    | inr s ↦ last_heard-put r id k e ∙ rw s refl
  ]

  -- An entry written back with the heartbeat of now.
  last_heard-touched :
      (now : ℕ) (r : NodeRegistry F) (id k : String) (n e : NodeEntry F)
      → get r id ≡ some n
      → e.last_heartbeat ≡ now
      → last_heard (put r id e) k
        ≡ (if str_eq id k then touched now (last_heard r k) else last_heard r k)
  unfolding last_heard touched
  last_heard-touched now r id k n e found h = elim (Bool-cases (str_eq id k)) [
    | inl s ↦ last_heard-put r id k e ∙ rw (s, h, last_heard, ← (eq_iff id k).0 s, found) refl
    | inr s ↦ last_heard-put r id k e ∙ rw s refl
  ]

  -- A call about an id that the registry does not hold.
  touched_missing :
      (now : ℕ) (r : NodeRegistry F) (id k : String)
      → get r id ≡ none
      → last_heard r k ≡ (if str_eq id k then touched now (last_heard r k) else last_heard r k)
  unfolding last_heard touched
  touched_missing now r id k missing = elim (Bool-cases (str_eq id k)) [
    | inl s ↦ rw (s, last_heard, ← (eq_iff id k).0 s, missing) refl
    | inr s ↦ rw s refl
  ]

  last_heard-assign_layers :
      (r : NodeRegistry F) (id k : String) (layers : List ℕ)
      → last_heard (assign_layers r id layers).0 k ≡ last_heard r k
  unfolding assign_layers with_layers
  last_heard-assign_layers r id k layers = elim (Option-cases (get r id)) [
    | inl e ↦ rw (assign_layers, e) refl
    | inr (n, e) ↦ rw (assign_layers, e) (last_heard_kept r id k n (with_layers layers n) e refl)
  ]

  pub last_heard-assign_all :
      (p : Plan) (r : NodeRegistry F) (k : String) → last_heard (assign_all p r) k ≡ last_heard r k
  unfolding assign_all
  last_heard-assign_all [] r k = refl
  last_heard-assign_all ((id, layers) ∷ p) r k =
      last_heard-assign_all p (assign_layers r id layers).0 k
      ∙ last_heard-assign_layers r id k layers

  pub last_heard-heartbeat :
      (now : ℕ) (r : NodeRegistry F) (id k : String)
      → last_heard (heartbeat now r id) k
        ≡ (if str_eq id k then touched now (last_heard r k) else last_heard r k)
  unfolding heartbeat
  last_heard-heartbeat now r id k = elim (Option-cases (get r id)) [
    | inl e ↦ rw (heartbeat, e) (touched_missing now r id k e)
    | inr (n, e) ↦ rw (heartbeat, e) (last_heard-touched now r id k n _ e refl)
  ]

  pub last_heard-begin_drain :
      (r : NodeRegistry F) (id k : String) → last_heard (begin_drain r id).0 k ≡ last_heard r k
  unfolding begin_drain transition_to
  last_heard-begin_drain r id k = elim (Option-cases (get r id)) [
    | inl e ↦ rw (begin_drain, e) refl
    | inr (n, e) ↦ elim (Bool-cases (can_transition_to n.state NodeState.draining)) [
      | inl t ↦ rw (begin_drain, e, t) (last_heard_kept r id k n _ e refl)
      | inr t ↦ rw (begin_drain, e, t) refl
    ]
  ]

  pub last_heard-remove_node :
      (r : NodeRegistry F) (id k : String)
      → IsDistinct r.nodes
      → last_heard (remove_node r id).0 k ≡ (if str_eq id k then none else last_heard r k)
  unfolding last_heard get remove_node
  last_heard-remove_node r id k v = elim (Bool-cases (str_eq id k)) [
    | inl s ↦ rw (lookup-remove id k r.nodes v, s) refl
    | inr s ↦ rw (lookup-remove id k r.nodes v, s) refl
  ]

module _ {F : Type 0} ⦃f : F32 F⦄ where
  pub last_heard-mark_ready :
      (r : NodeRegistry F) (id k : String) (status : NodeStatus F)
      → last_heard (mark_ready r id status).0 k ≡ last_heard r k
  unfolding mark_ready with_status
  last_heard-mark_ready r id k status = elim (Option-cases (get r id)) [
    | inl e ↦ rw (mark_ready, e) refl
    | inr (n, e) ↦ elim (Result-cases (transition_to n.state NodeState.ready)) [
      | inl (s, t) ↦ rw (mark_ready, e, t) (last_heard_kept r id k n _ e refl)
      | inr (x, t) ↦ rw (mark_ready, e, t) refl
    ]
  ]

  pub last_heard-update_status :
      (now : ℕ) (r : NodeRegistry F) (id k : String) (status : NodeStatus F)
      → last_heard (update_status now r id status).0 k
        ≡ (if str_eq id k then touched now (last_heard r k) else last_heard r k)
  unfolding update_status with_status
  last_heard-update_status now r id k status = elim (Option-cases (get r id)) [
    | inl e ↦ rw (update_status, e) (touched_missing now r id k e)
    | inr (n, e) ↦ rw (update_status, e) (last_heard-touched now r id k n _ e refl)
  ]
