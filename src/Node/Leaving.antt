-- ===== src/Node/Leaving.antt =====
-- A node on its way out, under any calls of the methods of `src/node/registry.rs` that keep it.
use neural_swarm_ai.Common.{ℕ, ◌≡◌, false, inl, inr, String, some, List, [], ◌∷◌, arith}
use neural_swarm_ai.Float.{F32}
use neural_swarm_ai.Compute.Status.{NodeStatus}
use neural_swarm_ai.Node.State.{can_accept_tasks}
use neural_swarm_ai.Node.Lifecycle.{IsLeaving, IsLeaving-can}
use neural_swarm_ai.Node.Registry.{
  NodeEntry, NodeRegistry, get, heartbeat, assign_layers, mark_ready, update_status,
}
use neural_swarm_ai.Node.Steps.{
  Follows, heartbeat-Follows, assign_layers-Follows, mark_ready-Follows, update_status-Follows,
}

-- A call of a method, with the clock where it reads one.
pub data Call (F : Type 0) : Type 0 where
  beat : (now : ℕ) (id : String) → Call F
  assign : (id : String) (layers : List ℕ) → Call F
  ready : (id : String) (status : NodeStatus F) → Call F
  update : (now : ℕ) (id : String) (status : NodeStatus F) → Call F

module _ {F : Type 0} ⦃f : F32 F⦄ where
  abbrev pub perform : Call F → NodeRegistry F → NodeRegistry F
  perform (beat now id) r = heartbeat now r id
  perform (assign id layers) r = (assign_layers r id layers).0
  perform (ready id status) r = (mark_ready r id status).0
  perform (update now id status) r = (update_status now r id status).0

  abbrev pub perform_all : List (Call F) → NodeRegistry F → NodeRegistry F
  perform_all [] r = r
  perform_all (call ∷ calls) r = perform_all calls (perform call r)

  perform-Follows : (call : Call F) (r : NodeRegistry F) → Follows r (perform call r)
  perform-Follows (beat now id) r = heartbeat-Follows now r id
  perform-Follows (assign id layers) r = assign_layers-Follows r id layers
  perform-Follows (ready id status) r = mark_ready-Follows r id status
  perform-Follows (update now id status) r = update_status-Follows now r id status

  -- A node that drains or has left is still in the registry after any calls of `heartbeat`,
  -- `assign_layers`, `mark_ready` and `update_status`, about any nodes and in any order, and still
  -- drains or has left; and it cannot accept tasks.
  pub perform_all-IsLeaving :
      (calls : List (Call F)) (r : NodeRegistry F) (k : String) (e : NodeEntry F)
      → get r k ≡ some e
      → IsLeaving e.state
      → (e' : NodeEntry F) × (get (perform_all calls r) k ≡ some e')
        × IsLeaving e'.state
        × (can_accept_tasks e'.state ≡ false)
  unfolding can_accept_tasks
  perform_all-IsLeaving [] r k e found h = (e, found, h, ground arith)
  perform_all-IsLeaving (call ∷ calls) r k e found h =
      let (d, found', moved) = perform-Follows call r k e found in
      let out : IsLeaving d.state = elim moved [
        | inl same ↦ rw same h
        | inr allowed ↦ IsLeaving-can _ _ allowed h
      ] in
      perform_all-IsLeaving calls (perform call r) k d found' out
