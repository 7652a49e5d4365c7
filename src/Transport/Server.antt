-- ===== src/Transport/Server.antt =====
-- `handle_socket` of `src/transport.rs`: one connection of the orchestrator, as a state machine over
-- the frames that arrive. The orchestrator is shared, so other connections may step in between; a
-- step holds what is done between two reads of the socket.
use neural_swarm_ai.Common.{
  ℕ, Bool, if◌then◌else◌, String, str_eq, Option, none, some, List, [], ◌∷◌, ◌++◌, ok, err,
  to_option,
}
use neural_swarm_ai.Float.{F32}
use neural_swarm_ai.Protocol.{
  Bytes, SwarmMessage, auth_challenge, auth_response, node_announce, join_response, status_update,
  heartbeat, drain_request,
}
use neural_swarm_ai.Crypto.Primitives.{Primitives, as_bytes}
use neural_swarm_ai.Crypto.Envelope.{encrypt_with_aad}
use neural_swarm_ai.Crypto.Handshake.{verify_hmac, generate_ecdh_keys, derive_session_key}
use neural_swarm_ai.Orchestrator.Rebalance.{PeerIds}
use neural_swarm_ai.Orchestrator.Handlers.{
  Orchestrator, handle_announce, handle_status_update, handle_heartbeat, handle_drain,
}
use neural_swarm_ai.Transport.Wire.{Frame, binary, other, Wire}

-- The random bytes of a connection: the nonce of the challenge, and the ECDH secret.
pub record Secrets : Type 0 where
  pub nonce : Bytes
  pub secret : Bytes

-- A frame, the clock when it is handled, and the random nonce of an encryption.
pub record Arrival : Type 0 where
  pub frame : Frame
  pub now : ℕ
  pub random : Bytes

pub data Phase : Type 0 where
  waiting : Phase
  serving : (node_id : String) (session_key : Bytes) → Phase
  closed : Phase

-- What a message leads to: the connection is dropped, or it goes on with an answer, if any.
pub data Outcome (F P : Type 0) : Type 0 where
  dropped : Outcome F P
  answered : Option (SwarmMessage F P) → Outcome F P

abbrev pub handshake_aad : Bytes
handshake_aad = as_bytes "cluster-key-handshake"

-- `Option<Option<..>>::flatten`
abbrev pub flatten {ℓ} : {A : Type ℓ} → Option (Option A) → Option A
flatten none = none
flatten (some o) = o

module _ {F P : Type 0} (c : Primitives) (w : Wire F P) where
  abbrev pub challenge : Secrets → SwarmMessage F P
  challenge k = auth_challenge k.nonce (generate_ecdh_keys c k.secret).1

  -- The challenge, and whether it can be sent: if it cannot, the connection ends, and if it does
  -- not serialize, nothing is sent.
  unfoldable pub greet : Secrets → Bool → Phase × List Bytes
  unfolding generate_ecdh_keys
  greet k sends = elim (w.serialize (challenge k)) [
    | none ↦ (waiting, [])
    | some bin ↦ if sends then (waiting, bin ∷ []) else (closed, [])
  ]

  -- The node id and the session key of a valid response.
  unfoldable pub check_response : Secrets → String → SwarmMessage F P → Option (String × Bytes)
  unfolding generate_ecdh_keys
  check_response k shared_secret (auth_response id token_hash their_public) =
      if verify_hmac c k.nonce shared_secret token_hash
      then some (id, derive_session_key c (generate_ecdh_keys c k.secret).0 their_public k.nonce)
      else none
  check_response k shared_secret _ = none

  unfoldable pub authenticate : Secrets → String → Frame → Option (String × Bytes)
  unfolding check_response
  authenticate k shared_secret other = none
  authenticate k shared_secret (binary bin) = elim (w.deserialize bin) [
    | none ↦ none
    | some m ↦ check_response k shared_secret m
  ]

  -- The cluster key goes into a join response, encrypted with the session key.
  unfoldable pub seal_key : Bytes → Bytes → Bytes → SwarmMessage F P → SwarmMessage F P
  seal_key cluster_key session_key random (join_response layers total_layers encrypted) =
      elim (encrypt_with_aad c random cluster_key session_key handshake_aad) [
        | ok enc ↦ join_response layers total_layers enc
        | err e ↦ join_response layers total_layers encrypted
      ]
  seal_key cluster_key session_key random m = m

  abbrev seal_answer : Bytes → Bytes → Bytes → Option (SwarmMessage F P) → Option (SwarmMessage F P)
  seal_answer cluster_key session_key random none = none
  seal_answer cluster_key session_key random (some m) =
      some (seal_key cluster_key session_key random m)

  -- The bytes of an answer that serializes.
  unfoldable pub send : Option (SwarmMessage F P) → List Bytes
  send none = []
  send (some m) = elim (w.serialize m) [ none ↦ [] | some bin ↦ bin ∷ [] ]

module _ {F P : Type 0} ⦃f : F32 F⦄ (c : Primitives) (w : Wire F P) (peers : PeerIds P) where
  -- The `match` on a message of the node that has authenticated as `id`.
  unfoldable pub on_message :
      String
      → Bytes
      → ℕ
      → Bytes
      → SwarmMessage F P
      → Orchestrator F P
      → Orchestrator F P × Outcome F P
  unfolding seal_key
  on_message id key now random (node_announce device_id peer_id profile initial_status) o =
      if str_eq device_id id
      then (let (o', joined) = handle_announce peers now o device_id profile initial_status in
          (o', answered (seal_answer c w o.cluster_key key random (to_option joined))))
      else (o, dropped)
  on_message id key now random (status_update status) o =
      let (o', r) = handle_status_update peers now o id status in
      (o', answered (flatten (to_option r)))
  on_message id key now random heartbeat o = ((handle_heartbeat now o id).0, answered none)
  on_message id key now random (drain_request reason) o =
      ((handle_drain peers o id).0, answered none)
  on_message id key now random _ o = (o, answered none)

  unfoldable pub on_frame :
      String → Bytes → Arrival → Orchestrator F P → Orchestrator F P × Outcome F P
  unfolding on_message
  on_frame id key a o = elim a.frame [
    | other ↦ (o, answered none)
    | binary bin ↦ elim (w.deserialize bin) [
      | none ↦ (o, answered none)
      | some m ↦ on_message id key a.now a.random m o
    ]
  ]

  -- The socket ends, or a read of it fails: a node that has authenticated is drained.
  unfoldable pub hang_up : Phase → Orchestrator F P → Orchestrator F P
  hang_up (serving id key) o = (handle_drain peers o id).0
  hang_up _ o = o

  -- The secret of the `ServerState`, which is a field of its own beside the orchestrator.
  module _ (shared_secret : String) where
    -- One read of the socket.
    unfoldable pub step :
        Secrets → Phase → Arrival → Orchestrator F P → Phase × Orchestrator F P × List Bytes
    unfolding authenticate on_frame send
    step k waiting a o = elim (authenticate c w k shared_secret a.frame) [
      | none ↦ (closed, o, [])
      | some (id, key) ↦ (serving id key, o, [])
    ]
    step k (serving id key) a o =
        let (o', outcome) = on_frame id key a o in
        elim outcome [ dropped ↦ (closed, o', []) | answered m ↦ (serving id key, o', send c w m) ]
    step k closed a o = (closed, o, [])

    -- The frames of a connection in turn, and its end.
    unfoldable pub serve :
        Secrets → Phase → List Arrival → Orchestrator F P → Orchestrator F P × List Bytes
    unfolding step hang_up
    serve k phase [] o = (hang_up phase o, [])
    serve k phase (a ∷ arrivals) o =
        let (phase', o', sent) = step k phase a o in
        let (o'', more) = serve k phase' arrivals o' in (o'', sent ++ more)

    unfoldable pub handle_socket :
        Secrets → Bool → List Arrival → Orchestrator F P → Orchestrator F P × List Bytes
    unfolding greet serve
    handle_socket k sends arrivals o =
        let (phase, greeting) = greet c w k sends in
        let (o', sent) = serve k phase arrivals o in (o', greeting ++ sent)
