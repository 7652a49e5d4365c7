-- ===== src/Transport/Endings.antt =====
-- How a connection of `src/transport.rs` ends: `handle_socket` drains the node it has served.
use neural_swarm_ai.Common.{
  ℕ, ◌≡◌, refl, true, Option-cases, inl, inr, str_eq, eq_iff, String, Option, none, some, List, [],
  ◌∷◌, All,
}
use neural_swarm_ai.Float.{F32, IsIeee}
use neural_swarm_ai.Node.Registry.{get}
use neural_swarm_ai.Protocol.{
  Bytes, SwarmMessage, node_announce, status_update, drain_request, heartbeat,
}
use neural_swarm_ai.Crypto.Primitives.{Primitives}
use neural_swarm_ai.Orchestrator.Rebalance.{PeerIds}
use neural_swarm_ai.Orchestrator.Handlers.{Orchestrator}
use neural_swarm_ai.Orchestrator.Events.{HasValid, apply_all-HasValid}
use neural_swarm_ai.Orchestrator.Drains.{handle_drain_gone}
use neural_swarm_ai.Transport.Wire.{Frame, binary, other, Wire}
use neural_swarm_ai.Transport.Server.{
  Secrets, Arrival, serving, answered, challenge, greet, handle_socket, on_message, on_frame, step,
  hang_up, serve,
}
use neural_swarm_ai.Transport.Access.{Fits, Proves, step-Proves, step-Calls}

module _ {F P : Type 0} ⦃f : F32 F⦄ (c : Primitives) (w : Wire F P) (peers : PeerIds P) where
  -- If the message is an announcement, it is one of this node.
  abbrev pub IsOwn : String → SwarmMessage F P → Type 0
  IsOwn id (node_announce device_id peer_id profile status) = device_id ≡ id
  IsOwn id _ = Unit

  abbrev pub OwnFrame : String → Arrival → Type 0
  OwnFrame id a =
      (bin : Bytes) (m : SwarmMessage F P)
      → a.frame ≡ binary bin
      → w.deserialize bin ≡ some m
      → IsOwn id m

  on_message-answered :
      (id : String) (key : Bytes) (now : ℕ) (random : Bytes) (m : SwarmMessage F P)
      (o : Orchestrator F P)
      → IsOwn id m
      → (reply : Option (SwarmMessage F P)) × ((on_message c w peers id key now random m o).1
          ≡ answered reply)
  unfolding on_message
  on_message-answered id key now random (node_announce device_id peer_id profile status) o own =
      let same : str_eq device_id id ≡ true = (eq_iff device_id id).1 own in
      rw (on_message, same) (_, refl)
  on_message-answered id key now random (status_update status) o own = (_, refl)
  on_message-answered id key now random heartbeat o own = (_, refl)
  on_message-answered id key now random (drain_request reason) o own = (_, refl)
  on_message-answered id key now random _ o own = (_, refl)

  on_frame-answered :
      (id : String) (key : Bytes) (a : Arrival) (o : Orchestrator F P)
      → OwnFrame id a
      → (reply : Option (SwarmMessage F P)) × ((on_frame c w peers id key a o).1 ≡ answered reply)
  unfolding on_frame
  on_frame-answered id key a o own = of_frame a.frame refl
    where
      of_frame :
          (frame : Frame)
          → a.frame ≡ frame
          → (reply : Option (SwarmMessage F P)) × ((on_frame c w peers id key a o).1
              ≡ answered reply)
      of_frame other e = rw (on_frame, e) (none, refl)
      of_frame (binary bin) e = elim (Option-cases (w.deserialize bin)) [
        | inl r ↦ rw (on_frame, e, r) (none, refl)
        | inr (m, r) ↦
            rw (on_frame, e, r) (on_message-answered id key a.now a.random m o (own bin m e r))
      ]

  step-serving :
      (shared_secret : String) (k : Secrets) (id : String) (key : Bytes) (a : Arrival)
      (o : Orchestrator F P)
      → OwnFrame id a
      → (step c w peers shared_secret k (serving id key) a o).0 ≡ serving id key
  unfolding step
  step-serving shared_secret k id key a o own =
      let (reply, e) = on_frame-answered id key a o own in rw (step, e) refl

  module _ (laws : IsIeee F) (fits : Fits w) (shared_secret : String) (k : Secrets) where
    serve_gone :
        (id : String) (key : Bytes) (arrivals : List Arrival) (o : Orchestrator F P)
        → All (OwnFrame id) arrivals
        → HasValid o
        → get (serve c w peers shared_secret k (serving id key) arrivals o).0.registry id ≡ none
    unfolding serve hang_up
    serve_gone id key [] o own v = (handle_drain_gone peers o id v).1
    serve_gone id key (a ∷ arrivals) o own v =
        let (es, about, fit, called) = (step-Calls c w peers fits shared_secret k id key a o).0 in
        let v' : HasValid (step c w peers shared_secret k (serving id key) a o).1 =
          rw called (apply_all-HasValid laws peers es o fit v) in
        rw (step-serving shared_secret k id key a o own.0) (
          serve_gone id key arrivals (step c w peers shared_secret k (serving id key) a o).1 own.1
            v')

    -- A connection whose first frame is the response of a node with the right tag, and whose other
    -- frames announce no other device, leaves the registry without that node when it ends, whatever
    -- the frames were; if nothing else calls the orchestrator in between, the challenge can be sent,
    -- the integers of the messages that are read fit their types, and the registry was valid.
    pub handle_socket_gone :
        (first : Arrival) (id : String) (key : Bytes) (arrivals : List Arrival)
        (o : Orchestrator F P)
        → Proves c w k shared_secret first.frame id key
        → All (OwnFrame id) arrivals
        → HasValid o
        → get (handle_socket c w peers shared_secret k true (first ∷ arrivals) o).0.registry id
          ≡ none
    unfolding handle_socket greet serve
    handle_socket_gone first id key arrivals o proof own v =
        let (same, quiet, proved, after) = step-Proves c w peers shared_secret k first o in
        let entered = (proved id key).1 proof in
        let left = serve_gone id key arrivals o own v in
        elim (Option-cases (w.serialize (challenge c w k))) [
          | inl e ↦ rw (handle_socket, greet, e, serve, entered, same) left
          | inr (bin, e) ↦ rw (handle_socket, greet, e, serve, entered, same) left
        ]
