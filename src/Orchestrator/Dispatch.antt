-- ===== src/Orchestrator/Dispatch.antt =====
-- What the tasks of a sequence carry, from the orchestrator to the executors.
use neural_swarm_ai.Common.{
  ℕ, ◌+◌, ◌≤◌, ◌≡◌, refl, sym, ap, ◌∙◌, String, some, List, [], ◌∷◌, length, ok, arith,
  Option-cases, Result-cases, inl, inr,
}
use neural_swarm_ai.Float.{F32}
use neural_swarm_ai.Node.Registry.{NodeEntry}
use neural_swarm_ai.Node.Ranking.{sorted_by_capacity}
use neural_swarm_ai.Protocol.{Bytes, SwarmMessage}
use neural_swarm_ai.Pipeline.Stages.{start_sequence, task_for}
use neural_swarm_ai.Crypto.Primitives.{Primitives, IsSound}
use neural_swarm_ai.Crypto.Envelope.{size_limit}
use neural_swarm_ai.Executor.Tasks.{Executor, seal_state, open_state}
use neural_swarm_ai.Executor.Handoff.{open-seal}
use neural_swarm_ai.Orchestrator.Rebalance.{PeerIds}
use neural_swarm_ai.Orchestrator.Handlers.{Orchestrator}
use neural_swarm_ai.Orchestrator.Ranges.{HoldsBlock, layer_range_block}
use neural_swarm_ai.Orchestrator.Sequences.{
  layer_range, seal_initial, send_first, begin_with, begin_sequence,
}

module _ {F P : Type 0} ⦃f : F32 F⦄ (c : Primitives) (peers : PeerIds P) where
  -- The state of the first task is sealed as an executor with the cluster key seals its answers.
  seal_initial_executor :
      (o : Orchestrator F P) (x : Executor) (nonce : Bytes) (task_id : String) (raw sealed : Bytes)
      → x.cluster_key ≡ o.cluster_key
      → seal_initial c peers o nonce task_id raw ≡ ok sealed
      → seal_state c x nonce task_id raw ≡ ok sealed
  unfolding seal_initial seal_state
  seal_initial_executor o x nonce task_id raw sealed k e = ground arith

  send_first_inversion :
      (o o' : Orchestrator F P) (q p : P) (sequence_id : ℕ) (task_id : String) (tokens : List ℕ)
      (sealed : Bytes) (layers : ℕ × ℕ) (m : SwarmMessage F P)
      → send_first c peers o q sequence_id task_id tokens sealed layers ≡ (o', ok (some (p, m)))
      → (q ≡ p)
        × (m ≡ task_for task_id sequence_id sealed layers tokens o.pipeline.pipeline_stages 0)
  unfolding send_first start_sequence
  send_first_inversion o o' q p sequence_id task_id tokens sealed layers m e = ground arith

  begin_with_inversion :
      (o o' : Orchestrator F P) (nonce : Bytes) (sequence_id : ℕ) (task_id : String)
      (tokens : List ℕ) (initial_state : Bytes) (p : P) (m : SwarmMessage F P)
      (ranking : List (NodeEntry F))
      → begin_with c peers ranking o nonce sequence_id task_id tokens initial_state
        ≡ (o', ok (some (p, m)))
      → (n : NodeEntry F) × (ns : List (NodeEntry F)) × (sealed : Bytes) × (ranking ≡ n ∷ ns)
        × (peers.parse n.id ≡ some p)
        × (m
            ≡ task_for task_id sequence_id sealed
                (layer_range n)
                tokens
                o.pipeline.pipeline_stages
                0)
        × (seal_initial c peers o nonce task_id initial_state ≡ ok sealed)
  unfolding begin_with
  begin_with_inversion o o' nonce sequence_id task_id tokens initial_state p m [] e = ground arith
  begin_with_inversion o o' nonce sequence_id task_id tokens initial_state p m (n ∷ ns) e =
      elim (Option-cases (peers.parse n.id)) [
        | inl t ↦ cc (rw (t, begin_with) at e)
        | inr (q, t) ↦ elim (Result-cases (seal_initial c peers o nonce task_id initial_state)) [
          | inr (x, l) ↦ cc (rw (t, begin_with, l) at e)
          | inl (sealed, l) ↦
              let (same, made) =
                send_first_inversion o o' q p sequence_id task_id tokens sealed (layer_range n) m
                  (rw (t, begin_with, l) at e) in
              (n, ns, sealed, refl, rw (← same) t, made, l)
        ]
      ]

  -- A sequence that starts, where the registry assigns a block of layers, at least one, to the node
  -- ranked first, sends one task: it goes to the peer whose id that node has, names the first layer
  -- and one past the last of its block and the whole route of the pipeline, and carries a state that
  -- every executor with the cluster key opens, for this task, to the initial state; with a nonce of
  -- 12 bytes and an initial state of at most 256 MB.
  pub begin_sequence-opens :
      IsSound c
      → (o o' : Orchestrator F P) (x : Executor) (nonce : Bytes) (sequence_id : ℕ)
        (task_id : String) (tokens : List ℕ) (initial_state : Bytes) (p : P) (m : SwarmMessage F P)
        (first : NodeEntry F) (others : List (NodeEntry F)) (lo n : ℕ)
      → sorted_by_capacity o.registry ≡ first ∷ others
      → HoldsBlock first lo n
      → x.cluster_key ≡ o.cluster_key
      → length nonce ≡ 12
      → length initial_state ≤ size_limit
      → begin_sequence c peers o nonce sequence_id task_id tokens initial_state
        ≡ (o', ok (some (p, m)))
      → (peers.parse first.id ≡ some p)
        × (sealed : Bytes) × (m
            ≡ task_for task_id sequence_id sealed (lo, lo + n) tokens o.pipeline.pipeline_stages 0)
        × (open_state c x task_id sealed ≡ ok initial_state)
  unfolding begin_sequence
  begin_sequence-opens sound o o' x nonce sequence_id task_id tokens initial_state p m first others
        lo n ranked block k twelve small e =
      let (first', others', sealed, ranked', parsed, made, locked) =
        begin_with_inversion o o' nonce sequence_id task_id tokens initial_state p m
          (sorted_by_capacity o.registry) e in
      let same : first' ≡ first = cc (sym ranked' ∙ ranked) in
      let named : layer_range first' ≡ (lo, lo + n) =
        rw same (layer_range_block first lo n block.0 block.1 block.2) in
      let y : Executor = record { device_id = x.device_id; cluster_key = o.cluster_key } in
      (
        rw (← same) parsed,
        sealed,
        made
            ∙ ap
                (λ layers.
                  task_for task_id sequence_id sealed layers tokens o.pipeline.pipeline_stages 0)
                named,
        open-seal c sound y x nonce task_id initial_state sealed (sym k) twelve small
            (seal_initial_executor o y nonce task_id initial_state sealed refl locked),
      )
