-- ===== src/Tests/Nodes.antt =====
-- The lifecycle of a node, and the registry, at sample inputs.
use neural_swarm_ai.Common.{
  ◌≡◌, ◌↔◌, ◌⊎◌, refl, inl, false, ok, err, some, String, List, [], ◌∷◌, lookup,
}
use mathlib.Core.List.{Perm}
use neural_swarm_ai.Float.{Fixed, fixed_f32, Fixed-IsIeee}
use neural_swarm_ai.Node.State.{
  NodeState, invalid_transition, transition_to, can_accept_tasks, is_alive,
}
use neural_swarm_ai.Node.Lifecycle.{IsAllowed, transition_to_iff, Reaches, IsLeaving, Reaches-left}
use neural_swarm_ai.Node.Registry.{NodeEntry, get, active_nodes, update_status}
use neural_swarm_ai.Node.Ranking.{sorted_by_capacity}
use neural_swarm_ai.Node.Updates.{Moves, update_status-Moves}
use neural_swarm_ai.Node.Leaving.{Call, beat, assign, update, perform_all, perform_all-IsLeaving}
use neural_swarm_ai.Node.Order.{IsDescending, sorted_by_capacity-IsDescending}
use neural_swarm_ai.Tests.Samples.{status_of, two_nodes, two_nodes-IsValid, weak, weak_found, gone}

transition_to_iff_example :
    ((transition_to NodeState.left NodeState.active ≡ ok NodeState.active)
      ↔ IsAllowed NodeState.left NodeState.active)
    × ((transition_to NodeState.left NodeState.active
          ≡ err (invalid_transition NodeState.left NodeState.active))
        ↔ ¬ IsAllowed NodeState.left NodeState.active)
transition_to_iff_example = transition_to_iff NodeState.left NodeState.active

Reaches-left_example :
    Reaches NodeState.active NodeState.left
    × ((t : NodeState) → Reaches NodeState.left t ↔ (t ≡ NodeState.left))
    × ((is_alive NodeState.active ≡ false) ↔ (NodeState.active ≡ NodeState.left))
Reaches-left_example = Reaches-left NodeState.active

-- "gone" drains.
abbrev calls : List (Call Fixed)
calls = update 5 "gone" (status_of 10 8000) ∷ assign "gone" (3 ∷ []) ∷ beat 6 "weak" ∷ []

gone_found : get two_nodes "gone" ≡ some gone
unfolding get lookup
gone_found = refl

perform_all-IsLeaving_example :
    (e' : NodeEntry Fixed) × (get (perform_all calls two_nodes) "gone" ≡ some e')
    × IsLeaving e'.state
    × (can_accept_tasks e'.state ≡ false)
perform_all-IsLeaving_example =
    perform_all-IsLeaving calls two_nodes "gone" gone gone_found (inl refl)

abbrev weak_id : String
weak_id = "weak"

update_status-Moves_example :
    (e' : NodeEntry Fixed) × (get (update_status 5 two_nodes "weak" (status_of 99 9)).0 "weak"
      ≡ some e')
    × ((¬ (weak_id ≡ weak_id) × (e' ≡ weak))
        ⊎ ((weak_id ≡ weak_id) × Moves weak.state e'.capacity.composite e'.state))
update_status-Moves_example =
    update_status-Moves 5 two_nodes "weak" "weak" (status_of 99 9) weak weak_found

sorted_by_capacity-IsDescending_example :
    IsDescending (sorted_by_capacity two_nodes)
    × Perm (sorted_by_capacity two_nodes) (active_nodes two_nodes)
sorted_by_capacity-IsDescending_example =
    sorted_by_capacity-IsDescending Fixed-IsIeee two_nodes two_nodes-IsValid
