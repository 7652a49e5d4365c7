-- ===== src/Node/Registry.antt =====
-- `src/node/registry.rs`: the registry as a map from ids to entries. A method that takes `&mut self`
-- returns the new registry beside its result; the clock is an argument, in nanoseconds.

use neural_swarm_ai.Common.{
  ℕ, Bool, ◌&&◌, if◌then◌else◌, String, Option, none, some, List, [], ◌∷◌, length, is_empty, Result,
  ok, err, unwrap_or, lookup, insert, remove,
}
use neural_swarm_ai.Float.{F32}
use neural_swarm_ai.Compute.Profile.{NodeProfile}
use neural_swarm_ai.Compute.Status.{NodeStatus, unknown}
use neural_swarm_ai.Compute.Capacity.{
  ResourceReservation, for_device, EffectiveCapacity, compute, zero_capacity,
}
use neural_swarm_ai.Node.State.{
  NodeState, StateError, state_eq, transition_to, can_accept_tasks, is_alive,
}

pub record NodeEntry (F : Type 0) : Type 0 where
  pub id : String
  pub profile : NodeProfile
  pub status : NodeStatus F
  pub state : NodeState
  pub capacity : EffectiveCapacity F
  pub assigned_layers : List ℕ  -- u32
  pub reservation : ResourceReservation F
  pub last_heartbeat : ℕ  -- Instant

pub record NodeRegistry (F : Type 0) : Type 0 where
  pub nodes : List (String × NodeEntry F)

pub data RegistryError : Type 0 where
  disappeared : RegistryError
  not_found : String → RegistryError
  state_error : StateError → RegistryError

-- `state.transition_to(target).unwrap_or(state)`
unfoldable pub advance : NodeState → NodeState → NodeState
unfolding transition_to
advance state target = unwrap_or (transition_to state target) state

module _ {F : Type 0} where
  abbrev pub new_registry : NodeRegistry F
  new_registry = record { nodes = [] }

  unfoldable pub get : NodeRegistry F → String → Option (NodeEntry F)
  get r id = lookup id r.nodes

  -- A write through the reference that `get_mut` found at `id`.
  unfoldable pub put : NodeRegistry F → String → NodeEntry F → NodeRegistry F
  put r id entry = record { nodes = insert id entry r.nodes }

  unfoldable pub remove_node : NodeRegistry F → String → NodeRegistry F × Option (NodeEntry F)
  remove_node r id = (record { nodes = remove id r.nodes }, lookup id r.nodes)

  unfoldable pub len : NodeRegistry F → ℕ
  len r = length r.nodes

  unfoldable pub registry_is_empty : NodeRegistry F → Bool
  registry_is_empty r = is_empty r.nodes

  unfoldable pub heartbeat : ℕ → NodeRegistry F → String → NodeRegistry F
  heartbeat now r id = elim (get r id) [
    | none ↦ r
    | some entry ↦ put r id (record entry { last_heartbeat = now })
  ]

  -- The values whose state passes a test, in the order of iteration.
  unfoldable pub nodes_with : (NodeState → Bool) → List (String × NodeEntry F) → List (NodeEntry F)
  nodes_with test [] = []
  nodes_with test ((k, e) ∷ m) =
      let rest = nodes_with test m in if test e.state then e ∷ rest else rest

  unfoldable pub active_nodes : NodeRegistry F → List (NodeEntry F)
  active_nodes r = nodes_with can_accept_tasks r.nodes

  unfoldable pub alive_nodes : NodeRegistry F → List (NodeEntry F)
  alive_nodes r = nodes_with is_alive r.nodes

  -- The entry with its layers, activated where it was ready.
  unfoldable pub with_layers : List ℕ → NodeEntry F → NodeEntry F
  unfolding advance
  with_layers layers entry = record entry {
    assigned_layers = layers;
    state =
        if state_eq entry.state NodeState.ready
        then advance entry.state NodeState.active
        else entry.state;
  }

  unfoldable pub assign_layers :
      NodeRegistry F → String → List ℕ → NodeRegistry F × Result RegistryError (Unit {0})
  unfolding with_layers
  assign_layers r id layers = elim (get r id) [
    | none ↦ (r, err (not_found id))
    | some entry ↦ (put r id (with_layers layers entry), ok tt)
  ]

module _ {F : Type 0} ⦃f : F32 F⦄ where
  unfoldable pub fresh_entry : ℕ → String → NodeProfile → NodeEntry F
  fresh_entry now id profile = record {
    id = id;
    profile = profile;
    status = unknown;
    state = NodeState.joining;
    capacity = zero_capacity;
    assigned_layers = [];
    reservation = for_device profile.device_type;
    last_heartbeat = now;
  }

  unfoldable pub register :
      ℕ
      → NodeRegistry F
      → String
      → NodeProfile
      → NodeRegistry F × Result RegistryError (NodeEntry F)
  unfolding fresh_entry
  register now r id profile =
      let r' = put r id (fresh_entry now id profile) in
      (r', elim (get r' id) [ none ↦ err disappeared | some e ↦ ok e ])

  -- The entry with a status and the capacity that follows from it.
  unfoldable pub with_status : NodeEntry F → NodeStatus F → NodeEntry F
  with_status entry status = record entry {
    status = status;
    capacity = compute entry.profile status entry.reservation;
  }

  unfoldable pub mark_ready :
      NodeRegistry F → String → NodeStatus F → NodeRegistry F × Result RegistryError (Unit {0})
  unfolding with_status
  mark_ready r id initial_status = elim (get r id) [
    | none ↦ (r, err (not_found id))
    | some entry ↦ elim (transition_to entry.state NodeState.ready) [
      | err e ↦ (r, err (state_error e))
      | ok s ↦ (put r id (record (with_status entry initial_status) { state = s }), ok tt)
    ]
  ]

  -- The state after an update: degraded below 0.1, active again from 0.15 on.
  unfoldable pub reconsider : NodeState → F → NodeState
  unfolding advance
  reconsider state composite =
      if state_eq state NodeState.active && f.lt composite (f.lit 1 10)
      then advance state NodeState.degraded
      else if state_eq state NodeState.degraded && f.le (f.lit 15 100) composite
      then advance state NodeState.active
      else state

  unfoldable pub update_status :
      ℕ → NodeRegistry F → String → NodeStatus F → NodeRegistry F × Result RegistryError Bool
  unfolding with_status reconsider
  update_status now r id status = elim (get r id) [
    | none ↦ (r, err (not_found id))
    | some entry ↦
        let old_composite = entry.capacity.composite in
        let updated = record (with_status entry status) { last_heartbeat = now } in
        let composite = updated.capacity.composite in
        let delta = f.abs (f.sub composite old_composite) in
        (
          put r id (record updated { state = reconsider updated.state composite }),
          ok (f.lt (f.lit 15 100) delta),
        )
  ]
