-- ===== src/Swarm/Steps.antt =====
-- One delivery: a task that fails, one whose answer ends the sequence, and one whose answer goes on.
use neural_swarm_ai.Common.{◌≡◌, refl, String, Option, some, List, ◌∷◌, ok, err, lookup, insert}
use neural_swarm_ai.Float.{F32}
use neural_swarm_ai.Protocol.{Bytes, RouteTicket, SwarmMessage}
use neural_swarm_ai.Pipeline.Stages.{next_stage, finished}
use neural_swarm_ai.Crypto.Primitives.{Primitives}
use neural_swarm_ai.Executor.Tasks.{TaskError, run_task}
use neural_swarm_ai.Orchestrator.Rebalance.{PeerIds}
use neural_swarm_ai.Orchestrator.Handlers.{Orchestrator}
use neural_swarm_ai.Orchestrator.Sequences.{route_result}
use neural_swarm_ai.Model.Tensors.{Candle}
use neural_swarm_ai.Model.Backend.{CandleBackend, Storage, candle_backend}
use neural_swarm_ai.Swarm.{Worker, failed, answered, deliver}

module _ {T Q M N B V F E P : Type 0} ⦃f : F32 F⦄ (p : Primitives) (peers : PeerIds P)
    (c : Candle T Q M N B F E) (s : Storage Q V F E) (nonce : Bytes) (nonces : List Bytes)
    (o : Orchestrator F P) (fleet : List (String × Worker T M N B)) (peer : P)
    (task : SwarmMessage F P) (w : Worker T M N B) (b : CandleBackend T M N B)
    (placed : lookup (peers.to_string peer) fleet ≡ some w) where
  pub deliver_failed :
      (e : TaskError E)
      → run_task p (candle_backend c s) w.executor nonce w.backend task ≡ (b, err e)
      → deliver p peers c s (nonce ∷ nonces) o fleet peer task
        ≡ (o, insert (peers.to_string peer) (record w { backend = b }) fleet, failed e)
  unfolding deliver
  deliver_failed e ran = rw (placed, deliver, ran, ran) refl

  module _ (o' : Orchestrator F P) (answer : SwarmMessage F P) (route : Option (RouteTicket P))
      (ran : run_task p (candle_backend c s) w.executor nonce w.backend task
        ≡ (b, ok (some (answer, route)))) where
    pub deliver_last :
        (logits : List F)
        → route_result peers o answer ≡ (o', some (finished logits))
        → deliver p peers c s (nonce ∷ nonces) o fleet peer task
          ≡ (o', insert (peers.to_string peer) (record w { backend = b }) fleet, answered logits)
    unfolding deliver
    deliver_last logits routed = rw (placed, deliver, ran, routed, ran, routed) refl

    pub deliver_next :
        (q : P) (next : SwarmMessage F P)
        → route_result peers o answer ≡ (o', some (next_stage q next))
        → deliver p peers c s (nonce ∷ nonces) o fleet peer task
          ≡ deliver p peers c s nonces o'
              (insert (peers.to_string peer) (record w { backend = b }) fleet)
              q
              next
    unfolding deliver
    deliver_next q next routed = rw (placed, deliver, ran, routed, ran, routed) refl
