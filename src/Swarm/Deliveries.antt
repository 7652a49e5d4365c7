-- ===== src/Swarm/Deliveries.antt =====
-- The deliveries of a sequence, from one stage of its pipeline to the last.
use neural_swarm_ai.Common.{
  ℕ, ◌+◌, ◌≡◌, ◌≢◌, refl, ◌∙◌, String, Option, some, List, [], ◌∷◌, All, Result, ok, map_err,
  lookup, insert, remove, IsDistinct, IsDistinct-remove,
}
use neural_swarm_ai.Float.{F32}
use neural_swarm_ai.Protocol.{Bytes, RouteTicket, process_task, task_result}
use neural_swarm_ai.Node.Registry.{NodeEntry, get}
use neural_swarm_ai.Pipeline.Stages.{SequenceState, next_stage, finished, task_for}
use neural_swarm_ai.Pipeline.Route.{Answer, IsAt, handle_next, handle_last}
use neural_swarm_ai.Crypto.Primitives.{Primitives}
use neural_swarm_ai.Executor.Tasks.{Executor, backend_error, open_state, attach, run_task}
use neural_swarm_ai.Executor.Handoff.{inject_opened}
use neural_swarm_ai.Orchestrator.Rebalance.{PeerIds}
use neural_swarm_ai.Orchestrator.Handlers.{Orchestrator}
use neural_swarm_ai.Orchestrator.Sequences.{layer_range, route_result, forward}
use neural_swarm_ai.Orchestrator.Relay.{route_next, route_last}
use neural_swarm_ai.Model.Tensors.{Candle}
use neural_swarm_ai.Model.Backend.{CandleBackend, Storage, candle_backend}
use neural_swarm_ai.Model.Chain.{Stage, visit, run_chain}
use neural_swarm_ai.Swarm.Tasks.{sealed_answer, run_task-visit, visit-loaded}
use neural_swarm_ai.Swarm.Places.{insert_same, insert_others, ArePlaced-frame, IsPlaced-after}
use neural_swarm_ai.Swarm.{Worker, outcome_of, deliver, IsPlaced, ArePlaced}

-- What a sequence leaves as it is: the registry, the key and the stages.
pub record Keeps {F P : Type 0} (o o' : Orchestrator F P) : Type 0 where
  pub registry : o'.registry ≡ o.registry
  pub key : o'.cluster_key ≡ o.cluster_key
  pub stages : o'.pipeline.pipeline_stages ≡ o.pipeline.pipeline_stages
  pub distinct : IsDistinct o'.pipeline.active_sequences

module _ {F P : Type 0} (peers : PeerIds P) (o : Orchestrator F P) (task_id : String)
    (st : SequenceState) (sealed : Bytes) (logits : List F) where
  -- The orchestrator sends the answer of a stage on, with the layers of the next one.
  pub answer_next :
      (q : P) (ahead : List P) (entry : NodeEntry F)
      → IsAt o.pipeline task_id st (q ∷ ahead)
      → get o.registry (peers.to_string q) ≡ some entry
      → let st' = record st { current_node_index = st.current_node_index + 1 } in
        let p' = record (o.pipeline) {
          active_sequences = insert task_id st' o.pipeline.active_sequences;
        } in
        (route_result peers o (task_result task_id st.sequence_id sealed logits) ≡ (
          record o { pipeline = p' },
          some (
              next_stage q (
                task_for task_id st.sequence_id sealed
                  (layer_range entry)
                  st.tokens
                  o.pipeline.pipeline_stages
                  (st.current_node_index + 1))),
        ))
        × IsAt p' task_id st' ahead
  unfolding forward
  answer_next q ahead entry at known =
      let a : Answer F = record {
        output_state = sealed;
        logits = logits;
        layers = layer_range entry;
      } in
      let (step, at') = handle_next o.pipeline task_id st q ahead a at in
      (route_next peers o task_id st q ahead entry a at known ∙ rw step refl, at')

  -- The answer of the last stage ends the sequence.
  pub answer_last :
      IsAt o.pipeline task_id st []
      → (o' : Orchestrator F P) × (route_result peers o
            (task_result task_id st.sequence_id sealed logits)
          ≡ (o', some (finished logits)))
        × Keeps o o'
  unfolding forward
  answer_last at =
      let a : Answer F = record { output_state = sealed; logits = logits; layers = (0, 0) } in
      (
        record o {
          pipeline = record (o.pipeline) {
            active_sequences = remove task_id o.pipeline.active_sequences;
          };
        },
        route_last peers o task_id st a at ∙ rw (handle_last o.pipeline task_id st a at) refl,
        record {
          registry = refl;
          key = refl;
          stages = refl;
          distinct = IsDistinct-remove task_id o.pipeline.active_sequences at.distinct;
        },
      )

module _ {T Q M N B V F E P : Type 0} ⦃f : F32 F⦄ (p : Primitives) (peers : PeerIds P)
    (c : Candle T Q M N B F E) (s : Storage Q V F E) (key : Bytes) (task_id : String) where
  -- What every node with the key opens, for this task, to these bytes.
  abbrev pub Opens : Bytes → Bytes → Type 0
  Opens sealed state =
      (x : Executor) → x.cluster_key ≡ key → open_state p x task_id sealed ≡ ok state

  -- The deliveries of the task of a stage end as the stage and those behind it do in turn, leave
  -- every stage in its place and every other node as it was, and keep the registry.
  abbrev pub Ends :
      List Bytes
      → Orchestrator F P
      → List (String × Worker T M N B)
      → P
      → List P
      → Stage T M N B
      → List (Stage T M N B)
      → SequenceState
      → Bytes
      → Bytes
      → List F
      → Option (RouteTicket P)
      → Type 0
  Ends nonces o fleet peer ahead n ns st sealed state lg route =
      let (o', fleet', out) =
        deliver p peers c s nonces o fleet peer
          (process_task task_id st.sequence_id sealed n.start_layer n.end_layer st.tokens route) in
      let (ns', r) = run_chain c s (n ∷ ns) state lg st.tokens st.sequence_id in
      (out ≡ outcome_of (map_err backend_error r))
      × Keeps o o'
      × ArePlaced p peers c s o.registry fleet' key (peer ∷ ahead) ns'
      × ((k : String)
          → peers.to_string peer ≢ k
          → All (λ q. peers.to_string q ≢ k) ahead
          → lookup k fleet' ≡ lookup k fleet)

  module _ (o : Orchestrator F P) (peer : P) (n : Stage T M N B)
      (fleet : List (String × Worker T M N B)) (sealed state : Bytes) (sequence_id : ℕ)
      (tokens : List ℕ) (route : Option (RouteTicket P))
      (at : IsPlaced p peers c s o.registry fleet key peer n) (opens : Opens sealed state)
      (nonce : Bytes) where
    abbrev out : CandleBackend T M N B × Result E (Bytes × List F)
    out = visit c s n.backend state n.start_layer n.end_layer tokens sequence_id

    pub task_ran :
        run_task p
          (candle_backend c s)
          at.worker.executor
          nonce
          at.worker.backend
          (process_task task_id sequence_id sealed n.start_layer n.end_layer tokens route)
        ≡ (
          out.0,
          attach p (candle_backend c s) route (
              sealed_answer p
                (candle_backend c s)
                at.worker.executor
                nonce
                task_id
                sequence_id
                out.1),
        )
    task_ran =
        let x = at.worker.executor in
        run_task-visit p c s x nonce at.worker.backend n.backend task_id sequence_id n.start_layer
          n.end_layer tokens sealed state route at.ready
          (inject_opened p (candle_backend c s) x n.backend task_id sealed state (opens x at.keyed))

    -- The places of the first stage and of the others, after the task.
    pub placed_after :
        (others : List P) (ns : List (Stage T M N B))
        → All (λ q. peers.to_string peer ≢ peers.to_string q) others
        → ArePlaced p peers c s o.registry fleet key others ns
        → let fleet' =
            insert (peers.to_string peer) (record (at.worker) { backend = out.0 }) fleet in
          IsPlaced p peers c s o.registry fleet' key peer (record n { backend = out.0 })
          × ArePlaced p peers c s o.registry fleet' key others ns
    placed_after others ns apart there =
        let w' = record (at.worker) { backend = out.0 } in
        let fleet' = insert (peers.to_string peer) w' fleet in
        (
          IsPlaced-after p peers c s o.registry key fleet fleet' peer n out.0 at
              (insert_same (peers.to_string peer) w' fleet)
              (visit-loaded c s n.backend state n.start_layer n.end_layer tokens sequence_id
                n.start_layer n.end_layer at.loaded),
          ArePlaced-frame p peers c s o.registry key fleet fleet' others ns
              (insert_others p peers c s o.registry key fleet peer w' others apart) there,
        )
