-- ===== src/Orchestrator/Sequences.antt =====
-- `start_sequence` and `handle_task_result` of `src/orchestrator.rs`: the orchestrator names the
-- layers of each task from the registry and seals the first state. The nonce is an argument.
use neural_swarm_ai.Common.{
  ℕ, ◌+◌, ◌%◌, ◌^◌, String, Option, none, some, List, [], ◌∷◌, first, last, Result, ok, err,
  map_err, ◌>>=◌,
}
use neural_swarm_ai.Float.{F32}
use neural_swarm_ai.Node.Registry.{NodeEntry, get}
use neural_swarm_ai.Node.Ranking.{sorted_by_capacity}
use neural_swarm_ai.Protocol.{Bytes, SwarmMessage, task_result}
use neural_swarm_ai.Pipeline.Stages.{
  PipelineResult, start_sequence, handle_task_result, get_next_peer_id,
}
use neural_swarm_ai.Crypto.Primitives.{Primitives, as_bytes}
use neural_swarm_ai.Crypto.Envelope.{compress, encrypt_with_aad}
use neural_swarm_ai.Orchestrator.Rebalance.{PeerIds}
use neural_swarm_ai.Orchestrator.Handlers.{
  Orchestrator, OrchestratorError, invalid_peer_id, crypto_error,
}

-- `*option.unwrap_or(&0)`
abbrev or_zero : Option ℕ → ℕ
or_zero none = 0
or_zero (some n) = n

-- The first layer and one past the last, as a task names them.
abbrev pub layer_range : {F : Type 0} → NodeEntry F → ℕ × ℕ
layer_range n = (or_zero (first n.assigned_layers), (or_zero (last n.assigned_layers) + 1) % 2 ^ 32)

module _ {F P : Type 0} ⦃f : F32 F⦄ (c : Primitives) (peers : PeerIds P) where
  -- The compressed and encrypted state that the first task carries.
  unfoldable pub seal_initial :
      Orchestrator F P → Bytes → String → Bytes → Result OrchestratorError Bytes
  seal_initial o nonce task_id initial_state = do
    compressed ← map_err crypto_error (compress c initial_state)
    map_err crypto_error (encrypt_with_aad c nonce compressed o.cluster_key (as_bytes task_id))

  -- The pipeline starts, and its first task is addressed to the node ranked first.
  unfoldable pub send_first :
      Orchestrator F P
      → P
      → ℕ
      → String
      → List ℕ
      → Bytes
      → ℕ × ℕ
      → Orchestrator F P × Result OrchestratorError (Option (P × SwarmMessage F P))
  send_first o first_peer_id sequence_id task_id tokens encrypted layers =
      let (pipeline', started) =
        start_sequence {F = F} o.pipeline sequence_id task_id tokens encrypted layers in
      (
        record o { pipeline = pipeline' },
        ok (elim started [ none ↦ none | some (first_stage, msg) ↦ some (first_peer_id, msg) ]),
      )

  -- With the ranked nodes computed once.
  unfoldable pub begin_with :
      List (NodeEntry F)
      → Orchestrator F P
      → Bytes
      → ℕ
      → String
      → List ℕ
      → Bytes
      → Orchestrator F P × Result OrchestratorError (Option (P × SwarmMessage F P))
  begin_with [] o nonce sequence_id task_id tokens initial_state = (o, ok none)
  begin_with (n ∷ ns) o nonce sequence_id task_id tokens initial_state = elim (peers.parse n.id) [
    | none ↦ (o, err invalid_peer_id)
    | some first_peer_id ↦ elim (seal_initial o nonce task_id initial_state) [
      | err e ↦ (o, err e)
      | ok encrypted ↦
          send_first o first_peer_id sequence_id task_id tokens encrypted (layer_range n)
    ]
  ]

  unfoldable pub begin_sequence :
      Orchestrator F P
      → Bytes
      → ℕ
      → String
      → List ℕ
      → Bytes
      → Orchestrator F P × Result OrchestratorError (Option (P × SwarmMessage F P))
  begin_sequence o = begin_with (sorted_by_capacity o.registry) o

module _ {F P : Type 0} (peers : PeerIds P) where
  -- The pipeline handles the result; the registry stays as it is.
  unfoldable pub forward :
      Orchestrator F P → SwarmMessage F P → ℕ × ℕ → Orchestrator F P × Option (PipelineResult F P)
  forward o result layers =
      let (pipeline', out) = handle_task_result o.pipeline result layers in
      (record o { pipeline = pipeline' }, out)

  unfoldable pub route_result :
      Orchestrator F P → SwarmMessage F P → Orchestrator F P × Option (PipelineResult F P)
  route_result o (task_result task_id sequence_id output_state logits) =
      elim (get_next_peer_id o.pipeline task_id) [
        | none ↦ forward o (task_result task_id sequence_id output_state logits) (0, 0)
        | some next_peer_id ↦ elim (get o.registry (peers.to_string next_peer_id)) [
          | none ↦ (o, none)
          | some next_node ↦
              forward o (task_result task_id sequence_id output_state logits)
                (layer_range next_node)
        ]
      ]
  route_result o _ = (o, none)
