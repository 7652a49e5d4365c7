-- ===== src/Tests/Network.antt =====
-- The task of the network over some turns.
use neural_swarm_ai.Common.{◌≡◌, refl, true, String, List, [], ◌∷◌, ◌++◌}
use neural_swarm_ai.Float.{Fixed}
use neural_swarm_ai.Protocol.{heartbeat, drain_request}
use neural_swarm_ai.P2p.{
  P2pNode, Turn, request, response, other_event, outgoing, event_loop, requests_of,
  event_loop-requests_of,
}

abbrev node : P2pNode Fixed String
node = record {
  peer_id = "me";
  sender = ("b", heartbeat) ∷ ("a", drain_request "off") ∷ [];
  receiver = ("c", heartbeat) ∷ [];
  open_receiver = true;
}

abbrev turns : List (Turn Fixed String)
turns =
    request "a" heartbeat
    ∷ outgoing
    ∷ response "b" heartbeat
    ∷ request "b" (drain_request "on")
    ∷ other_event
    ∷ []

event_loop-requests_of_example :
    ((event_loop node turns).0.receiver ≡ node.receiver ++ requests_of turns)
    × ((event_loop node turns).1 ++ (event_loop node turns).0.sender ≡ node.sender)
event_loop-requests_of_example = event_loop-requests_of turns node refl
