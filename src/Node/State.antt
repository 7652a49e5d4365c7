-- ===== src/Node/State.antt =====
-- `src/node/state.rs`: the lifecycle states and their transitions.
use neural_swarm_ai.Common.{Bool, true, false, if◌then◌else◌, String, Result, ok, err}

pub data NodeState : Type 0 where
  joining ready active degraded draining left : NodeState

-- What `bail!` says: the state and the target.
pub data StateError : Type 0 where
  invalid_transition : NodeState → NodeState → StateError

-- `==`, derived.
unfoldable pub state_eq : NodeState → NodeState → Bool
state_eq NodeState.joining NodeState.joining = true
state_eq NodeState.ready NodeState.ready = true
state_eq NodeState.active NodeState.active = true
state_eq NodeState.degraded NodeState.degraded = true
state_eq NodeState.draining NodeState.draining = true
state_eq NodeState.left NodeState.left = true
state_eq _ _ = false

unfoldable pub can_transition_to : NodeState → NodeState → Bool
can_transition_to NodeState.joining NodeState.ready = true
can_transition_to NodeState.ready NodeState.active = true
can_transition_to NodeState.active NodeState.degraded = true
can_transition_to NodeState.degraded NodeState.active = true
can_transition_to NodeState.active NodeState.draining = true
can_transition_to NodeState.degraded NodeState.draining = true
can_transition_to NodeState.draining NodeState.left = true
can_transition_to NodeState.ready NodeState.draining = true
can_transition_to NodeState.joining NodeState.left = true
can_transition_to _ _ = false

unfoldable pub transition_to : NodeState → NodeState → Result StateError NodeState
transition_to self target =
    if can_transition_to self target then ok target else err (invalid_transition self target)

unfoldable pub can_accept_tasks : NodeState → Bool
can_accept_tasks NodeState.active = true
can_accept_tasks NodeState.ready = true
can_accept_tasks _ = false

unfoldable pub is_alive : NodeState → Bool
is_alive NodeState.left = false
is_alive _ = true

-- `Display`
unfoldable pub display : NodeState → String
display NodeState.joining = "Joining"
display NodeState.ready = "Ready"
display NodeState.active = "Active"
display NodeState.degraded = "Degraded"
display NodeState.draining = "Draining"
display NodeState.left = "Left"
