-- ===== src/Tests/Swarm.antt =====
-- The orchestrator and its layer assignment at sample inputs.
use mathlib.Core.List.Permᴰ
use neural_swarm_ai.Common.{
  ◌/◌, ◌≡◌, refl, String, some, none, ok, lookup, insert, ◌⊎◌, ◌≢◌, List, [], ◌∷◌, range, arith,
  All,
}
use neural_swarm_ai.Float.{Fixed, fixed_f32, Fixed-IsIeee}
use neural_swarm_ai.Pipeline.Stages.{new_pipeline}
use neural_swarm_ai.Orchestrator.Rebalance.{
  equal_split, proportional_split, share, plan, total_composite_of, ids_of, peers_of, assign_all,
  rebalance_sorted, rebalance_layers,
}
use neural_swarm_ai.Orchestrator.Coverage.{layers_of, plan_covers}
use neural_swarm_ai.Orchestrator.Unordered.{IsSameMap, rebalance_layers-Perm}
use neural_swarm_ai.Orchestrator.Covered.{IsCovered, rebalance_covers}
use neural_swarm_ai.Orchestrator.Handlers.{
  Orchestrator, new, handle_announce, handle_status_update, rebalanced,
}
use neural_swarm_ai.Orchestrator.Commands.{handle_status_update-tells}
use neural_swarm_ai.Orchestrator.Assignment.{layers_at}
use neural_swarm_ai.Orchestrator.Replies.{handle_announce-joins}
use neural_swarm_ai.Protocol.{SwarmMessage, join_response, rebalance_command}
use neural_swarm_ai.Node.Registry.{
  NodeEntry, NodeRegistry, get, put, update_status, active_nodes, nodes_with, assign_layers,
  with_layers, reconsider,
}
use neural_swarm_ai.Node.Ranking.{sorted_by_capacity, compare_entries}
use neural_swarm_ai.Node.State.{can_accept_tasks, state_eq, can_transition_to}
use neural_swarm_ai.Compute.Capacity.{compute}
use neural_swarm_ai.Compute.Status.{penalty_factor}
use neural_swarm_ai.Orchestrator.Members.{
  last_heard, member_steps, member_step, touched, unless_silent,
}
use neural_swarm_ai.Orchestrator.Membership.{reachable-member_steps}
use neural_swarm_ai.Orchestrator.Events.{
  IsEvent, Event, announce, update, drain, beat, prune, apply_all, HasValid, reachable-HasValid,
}
use neural_swarm_ai.Tests.Samples.{
  names, desktop_profile, status_of, weak, strong, two_nodes, two_nodes-IsValid, two_nodes_ranked,
  gone,
}

-- 60 to 20 in percent, of 32 layers: 24 and 8.
proportional_32 : plan 32 (strong ∷ weak ∷ []) ≡ ("strong", range 0 24) ∷ ("weak", range 24 32) ∷ []
unfolding plan proportional_split share total_composite_of
proportional_32 = refl

-- Without any capacity, equal parts, and the rest for the last.
equal_33 : equal_split 33 (33 / 2) 0 ("a" ∷ "b" ∷ []) ≡ ("a", range 0 16) ∷ ("b", range 16 33) ∷ []
unfolding equal_split
equal_33 = refl

plan_covers_example : layers_of (plan 32 (strong ∷ weak ∷ [])) ≡ range 0 32
plan_covers_example =
    plan_covers Fixed-IsIeee 32 strong (weak ∷ []) (omega arith) (omega arith)
      ((refl, refl), ((refl, refl), tt))

rebalance_covers_example :
    IsCovered names 32
      (ids_of (strong ∷ weak ∷ []))
      (rebalance_layers names two_nodes 32 new_pipeline)
rebalance_covers_example =
    rebalance_covers names Fixed-IsIeee two_nodes 32 new_pipeline strong (weak ∷ [])
      two_nodes-IsValid two_nodes_ranked (omega arith) (omega arith)

abbrev events : List (Event Fixed)
events =
    announce 1 "a" desktop_profile (status_of 10 8000)
    ∷ announce 2 "b" desktop_profile (status_of 20 4000)
    ∷ update 3 "a" (status_of 95 100)
    ∷ beat 40000000000 "b"
    ∷ drain "a"
    ∷ prune 90000000000 60
    ∷ []

abbrev events_fit : All IsEvent events
events_fit = (
  (omega arith, record { ram_available = omega arith; latency = tt }),
  (
    (omega arith, record { ram_available = omega arith; latency = tt }),
    (record { ram_available = omega arith; latency = tt }, (tt, (tt, (tt, tt)))),
  ),
)

reachable-HasValid_example : HasValid (apply_all names events (new (1 ∷ []) 32 "secret"))
reachable-HasValid_example =
    reachable-HasValid Fixed-IsIeee names (1 ∷ []) 32 "secret" events events_fit

reachable-member_steps_example :
    last_heard (apply_all names events (new (1 ∷ []) 32 "secret")).registry "b"
    ≡ member_steps events "b" none
reachable-member_steps_example =
    reachable-member_steps Fixed-IsIeee names (1 ∷ []) 32 "secret" events events_fit "b"

-- "a" is drained; "b" is silent for 49 whole seconds when the dead are pruned.
members_left :
    (member_steps events "a" none ≡ none) × (member_steps events "b" none ≡ some 40000000000)
unfolding member_steps member_step touched unless_silent
members_left = (refl, refl)

abbrev empty_swarm : Orchestrator Fixed String
empty_swarm = new (1 ∷ []) 32 "secret"

handle_announce-joins_example :
    (e : NodeEntry Fixed) × (get
        (handle_announce names 1 empty_swarm "a" desktop_profile (status_of 10 8000)).0.registry
        "a"
      ≡ some e)
    × ((handle_announce names 1 empty_swarm "a" desktop_profile (status_of 10 8000)).1
        ≡ ok (join_response e.assigned_layers empty_swarm.total_model_layers []))
handle_announce-joins_example =
    handle_announce-joins names 1 empty_swarm "a" desktop_profile (status_of 10 8000)

abbrev small_swarm : Orchestrator Fixed String
small_swarm = record {
  registry = two_nodes;
  pipeline = new_pipeline;
  total_model_layers = 3;
  shared_secret = "secret";
  cluster_key = 1 ∷ [];
}

abbrev two_layers : SwarmMessage Fixed String
two_layers = rebalance_command (0 ∷ 1 ∷ [])

-- An idle machine takes over the first two layers of three.
weak_told :
    (handle_status_update names 9 small_swarm "weak" (status_of 0 16000)).1 ≡ ok (some two_layers)
unfolding handle_status_update update_status get lookup compute penalty_factor layers_at put insert
    rebalanced rebalance_layers rebalance_sorted sorted_by_capacity active_nodes nodes_with
    can_accept_tasks state_eq compare_entries assign_layers with_layers reconsider assign_all plan
    proportional_split share total_composite_of peers_of can_transition_to
weak_told = refl

handle_status_update-tells_example :
    let after =
      layers_at
        (handle_status_update names 9 small_swarm "weak" (status_of 0 16000)).0.registry
        "weak" in
    ((some two_layers ≡ none) × (after ≡ layers_at two_nodes "weak"))
    ⊎ ((some two_layers ≡ some (rebalance_command after)) × (after ≢ layers_at two_nodes "weak"))
handle_status_update-tells_example =
    handle_status_update-tells names 9 small_swarm "weak" (status_of 0 16000) (some two_layers)
      weak_told

-- The same nodes, in another order.
abbrev turned : NodeRegistry Fixed
turned = record { nodes = ("strong", strong) ∷ ("weak", weak) ∷ ("gone", gone) ∷ [] }

rebalance_layers-Perm_example :
    IsSameMap
      (rebalance_layers names two_nodes 32 new_pipeline).0
      (rebalance_layers names turned 32 new_pipeline).0
    × ((rebalance_layers names two_nodes 32 new_pipeline).1
        ≡ (rebalance_layers names turned 32 new_pipeline).1)
rebalance_layers-Perm_example =
    rebalance_layers-Perm names Fixed-IsIeee two_nodes turned 32 new_pipeline two_nodes-IsValid
      (Permᴰ.swap refl refl)
