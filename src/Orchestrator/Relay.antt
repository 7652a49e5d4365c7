-- ===== src/Orchestrator/Relay.antt =====
-- The results of one sequence at the orchestrator: each next task names the layers that the registry
-- assigns to its node.
use neural_swarm_ai.Common.{
  ℕ, suc, ◌+◌, ◌≡◌, refl, String, Option, none, some, List, [], ◌∷◌, All, length, arith, lookup,
  lookup-remove, eq_iff,
}
use neural_swarm_ai.Node.Registry.{NodeEntry, NodeRegistry, get}
use neural_swarm_ai.Protocol.{task_result}
use neural_swarm_ai.Pipeline.Stages.{
  SequenceState, PipelineResult, InferencePipeline, get_next_peer_id,
}
use neural_swarm_ai.Pipeline.Route.{
  Answer, itinerary, IsAt, get_elem?_of_drop, get_elem?_of_drop_nil, handle_next, handle_last,
}
use neural_swarm_ai.Orchestrator.Rebalance.{PeerIds}
use neural_swarm_ai.Orchestrator.Handlers.{Orchestrator}
use neural_swarm_ai.Orchestrator.Ranges.{HoldsBlock, layer_range_block}
use neural_swarm_ai.Orchestrator.Sequences.{layer_range, forward, route_result}

module _ {P : Type 0} where
  pub next_of_IsAt :
      (p : InferencePipeline P) (task_id : String) (st : SequenceState) (peer : P) (ahead : List P)
      → IsAt p task_id st (peer ∷ ahead)
      → get_next_peer_id p task_id ≡ some peer
  unfolding get_next_peer_id
  next_of_IsAt p task_id st peer ahead at =
      let one : st.current_node_index + 1 ≡ suc st.current_node_index = omega arith in
      rw (at.running, get_next_peer_id, one)
        ((get_elem?_of_drop (suc st.current_node_index) p.pipeline_stages ahead peer
          at.stages_ahead).0)

  last_of_IsAt :
      (p : InferencePipeline P) (task_id : String) (st : SequenceState)
      → IsAt p task_id st []
      → get_next_peer_id p task_id ≡ none
  unfolding get_next_peer_id
  last_of_IsAt p task_id st at =
      let one : st.current_node_index + 1 ≡ suc st.current_node_index = omega arith in
      rw (at.running, get_next_peer_id, one)
        (get_elem?_of_drop_nil (suc st.current_node_index) p.pipeline_stages at.stages_ahead)

module _ {F P : Type 0} (peers : PeerIds P) where
  -- The registry assigns a block of layers to the node of this stage: the first, and how many.
  abbrev pub HasBlock : NodeRegistry F → P → Type 0
  HasBlock r p =
      (lo : ℕ) × (n : ℕ) × (e : NodeEntry F) × (get r (peers.to_string p) ≡ some e)
      × HoldsBlock e lo n

  -- The answers of the stages, each with the block of the stage after it: its first layer, and one
  -- past its last.
  abbrev pub with_layers_of :
      (r : NodeRegistry F) (ahead : List P)
      → All (HasBlock r) ahead
      → List (Answer F)
      → List (Answer F)
  with_layers_of r ahead h [] = []
  with_layers_of r [] h (a ∷ answers) = (record a { layers = (0, 0) }) ∷ []
  with_layers_of r (p ∷ ahead) h (a ∷ answers) =
      (record a { layers = (h.0.0, h.0.0 + h.0.1) }) ∷ with_layers_of r ahead h.1 answers

  -- The results of one sequence, handled in turn.
  unfoldable pub relay :
      Orchestrator F P
      → String
      → ℕ
      → List (Answer F)
      → Orchestrator F P × List (Option (PipelineResult F P))
  relay o task_id sequence_id [] = (o, [])
  relay o task_id sequence_id (a ∷ rest) =
      let (o', out) =
        route_result peers o (task_result task_id sequence_id a.output_state a.logits) in
      let (q, outs) = relay o' task_id sequence_id rest in (q, out ∷ outs)

  pub route_next :
      (o : Orchestrator F P) (task_id : String) (st : SequenceState) (peer : P) (ahead : List P)
      (n : NodeEntry F) (a : Answer F)
      → IsAt o.pipeline task_id st (peer ∷ ahead)
      → get o.registry (peers.to_string peer) ≡ some n
      → route_result peers o (task_result task_id st.sequence_id a.output_state a.logits)
        ≡ forward peers o
            (task_result task_id st.sequence_id a.output_state a.logits)
            (layer_range n)
  unfolding route_result
  route_next o task_id st peer ahead n a at e =
      rw (next_of_IsAt o.pipeline task_id st peer ahead at, route_result, e)

  pub route_last :
      (o : Orchestrator F P) (task_id : String) (st : SequenceState) (a : Answer F)
      → IsAt o.pipeline task_id st []
      → route_result peers o (task_result task_id st.sequence_id a.output_state a.logits)
        ≡ forward peers o (task_result task_id st.sequence_id a.output_state a.logits) (0, 0)
  unfolding route_result
  route_last o task_id st a at = rw (last_of_IsAt o.pipeline task_id st at, route_result)

  -- For a sequence at any stage of its pipeline, where the registry assigns a block of layers, at
  -- least one, to the node of each stage ahead, and with as many answers as it takes: the answers go
  -- on to those stages in their order, each task with the state just answered and the first layer and
  -- one past the last of the block of its node; the last answer ends the sequence with its logits,
  -- the pipeline forgets it, and the registry is what it was.
  pub relay-itinerary :
      (answers : List (Answer F)) (o : Orchestrator F P) (task_id : String) (st : SequenceState)
      (ahead : List P) (registered : All (HasBlock o.registry) ahead)
      → IsAt o.pipeline task_id st ahead
      → length answers ≡ length ahead + 1
      → let (q, outs) = relay o task_id st.sequence_id answers in
        (outs
          ≡ itinerary task_id st.sequence_id st.tokens o.pipeline.pipeline_stages
              st.current_node_index ahead
              (with_layers_of o.registry ahead registered answers))
        × (lookup task_id q.pipeline.active_sequences ≡ none)
        × (q.registry ≡ o.registry)
  unfolding relay forward
  relay-itinerary [] o task_id st ahead registered at n = absurd (omega arith)
  relay-itinerary (a ∷ []) o task_id st [] registered at n =
      let p = o.pipeline in
      rw
        (
          route_last o task_id st a at,
          handle_last p task_id st (record a { layers = (0, 0) }) at,
          relay,
        )
        (
          refl,
          rw (lookup-remove task_id task_id p.active_sequences at.distinct)
              (rw ((eq_iff task_id task_id).1 refl)),
          refl,
        )
  relay-itinerary (a ∷ b ∷ rest) o task_id st [] registered at n = absurd (omega arith)
  relay-itinerary (a ∷ rest) o task_id st (peer ∷ ahead) ((lo, n', e, found, block), blocks) at n =
      let named : layer_range e ≡ (lo, lo + n') =
        layer_range_block e lo n' block.0 block.1 block.2 in
      let (step, at') =
        handle_next o.pipeline task_id st peer ahead (record a { layers = (lo, lo + n') }) at in
      let (outs, done, kept) =
        relay-itinerary rest (record o { pipeline = _ }) task_id _ ahead blocks at' (omega arith) in
      rw (route_next o task_id st peer ahead e a at found, named, step, relay) (rw outs, done, kept)
