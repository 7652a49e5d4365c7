-- ===== src/P2p.antt =====
-- `src/p2p.rs`: the task between a libp2p swarm and the two channels of a node. The construction of the
-- swarm and its other behaviours are not modelled. A full channel makes the task wait, which changes
-- no order, so the channels are without bounds.
use neural_swarm_ai.Common.{
  ◌≡◌, refl, sym, ap, ◌∙◌, Bool, true, if◌then◌else◌, List, [], ◌∷◌, ◌++◌, List-cases, inl, inr,
}
use mathlib.Core.List.{append-nil, append_assoc}
use neural_swarm_ai.Protocol.{SwarmMessage}

-- The ends of the channels that the node holds: what it has given to the task and the task has not
-- taken, and what the task has passed on to it, unless it has dropped that end.
pub record P2pNode (F P : Type 0) : Type 0 where
  pub peer_id : P
  pub sender : List (P × SwarmMessage F P)
  pub receiver : List (P × SwarmMessage F P)
  pub open_receiver : Bool

-- What `select!` yields: a request or a response of a peer, any other event of the swarm, or the
-- turn of the channel.
pub data Turn (F P : Type 0) : Type 0 where
  request : P → SwarmMessage F P → Turn F P
  response : P → SwarmMessage F P → Turn F P
  other_event : Turn F P
  outgoing : Turn F P

module _ {F P : Type 0} where
  -- One turn of the loop, and the requests that the swarm is given.
  unfoldable pub turn : P2pNode F P → Turn F P → P2pNode F P × List (P × SwarmMessage F P)
  turn n (request peer message) = (
    if n.open_receiver then record n { receiver = n.receiver ++ ((peer, message) ∷ []) } else n,
    [],
  )
  turn n (response peer message) = (n, [])
  turn n other_event = (n, [])
  turn n outgoing = elim n.sender [
    | [] ↦ (n, [])
    | message ∷ rest ↦ (record n { sender = rest }, message ∷ [])
  ]

  -- The loop over what `select!` yields.
  unfoldable pub event_loop :
      P2pNode F P → List (Turn F P) → P2pNode F P × List (P × SwarmMessage F P)
  unfolding turn
  event_loop n [] = (n, [])
  event_loop n (t ∷ ts) =
      let (n₁, sent) = turn n t in let (n₂, later) = event_loop n₁ ts in (n₂, sent ++ later)

  -- The requests of peers, in order.
  abbrev pub requests_of : List (Turn F P) → List (P × SwarmMessage F P)
  requests_of [] = []
  requests_of (request peer message ∷ ts) = (peer, message) ∷ requests_of ts
  requests_of (response peer message ∷ ts) = requests_of ts
  requests_of (other_event ∷ ts) = requests_of ts
  requests_of (outgoing ∷ ts) = requests_of ts

  -- Whatever the order of the turns: an open receiver gets all requests of peers in their order, each
  -- with its peer, and nothing else; and what is sent and what is still to be sent are what the node
  -- has given, in its order.
  pub event_loop-requests_of :
      (ts : List (Turn F P)) (n : P2pNode F P)
      → n.open_receiver ≡ true
      → ((event_loop n ts).0.receiver ≡ n.receiver ++ requests_of ts)
        × ((event_loop n ts).1 ++ (event_loop n ts).0.sender ≡ n.sender)
  unfolding event_loop
  event_loop-requests_of [] n h = (sym (append-nil n.receiver), refl)
  event_loop-requests_of (request peer message ∷ ts) n h =
      let n' : P2pNode F P = record n {
        receiver = n.receiver ++ ((peer, message) ∷ []);
        open_receiver = true;
      } in
      let (got, sent) = event_loop-requests_of ts n' refl in
      rw h (got ∙ append_assoc n.receiver ((peer, message) ∷ []) (requests_of ts), sent)
  event_loop-requests_of (response peer message ∷ ts) n h = event_loop-requests_of ts n h
  event_loop-requests_of (other_event ∷ ts) n h = event_loop-requests_of ts n h
  event_loop-requests_of (outgoing ∷ ts) n h = elim (List-cases n.sender) [
    | inl e ↦ let (got, sent) = event_loop-requests_of ts n h in rw (e, turn) (got, sent ∙ e)
    | inr (message, rest, e) ↦
        let n' : P2pNode F P = record n { sender = rest } in
        let (got, sent) = event_loop-requests_of ts n' h in
        rw (e, turn) (got, ap (λ l. message ∷ l) sent)
  ]
