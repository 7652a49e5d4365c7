-- ===== src/Pipeline/Stages.antt =====
-- `src/pipeline.rs`. A method that takes `&mut self` returns the new pipeline beside its result.
use neural_swarm_ai.Common.{
  ℕ, ◌+◌, ◌%◌, ◌^◌, ◌==◌, if◌then◌else◌, String, Option, none, some, List, [], ◌∷◌, get_elem?,
  lookup, insert, remove,
}
use neural_swarm_ai.Protocol.{Bytes, RouteTicket, SwarmMessage, process_task, task_result}

module _ {P : Type 0} where
  unfoldable pub next_peer : RouteTicket P → Option P
  next_peer t = get_elem? t.nodes ((t.current_index + 1) % 2 ^ 64)

pub record SequenceState : Type 0 where
  pub sequence_id : ℕ  -- u64
  pub task_id : String
  pub tokens : List ℕ
  pub current_node_index : ℕ  -- usize

abbrev pub new_sequence : ℕ → String → List ℕ → SequenceState
new_sequence sequence_id task_id tokens = record {
  sequence_id = sequence_id;
  task_id = task_id;
  tokens = tokens;
  current_node_index = 0;
}

pub data PipelineResult (F P : Type 0) : Type 0 where
  next_stage : P → SwarmMessage F P → PipelineResult F P
  finished : List F → PipelineResult F P

pub record InferencePipeline (P : Type 0) : Type 0 where
  pub active_sequences : List (String × SequenceState)
  pub pipeline_stages : List P

module _ {P : Type 0} where
  abbrev pub new_pipeline : InferencePipeline P
  new_pipeline = record { active_sequences = []; pipeline_stages = [] }

  abbrev pub update_stages : InferencePipeline P → List P → InferencePipeline P
  update_stages p peers = record p { pipeline_stages = peers }

  unfoldable pub get_next_peer_id : InferencePipeline P → String → Option P
  get_next_peer_id p task_id = elim (lookup task_id p.active_sequences) [
    | none ↦ none
    | some state ↦ get_elem? p.pipeline_stages (state.current_node_index + 1)
  ]

  module _ {F : Type 0} where
    -- The task of the stage with this index, with its ticket.
    abbrev pub task_for : String → ℕ → Bytes → ℕ × ℕ → List ℕ → List P → ℕ → SwarmMessage F P
    task_for task_id sequence_id state layers tokens stages index =
        process_task task_id sequence_id state layers.0 layers.1 tokens (
          some (record {
            task_id = task_id;
            sequence_id = sequence_id;
            nodes = stages;
            current_index = index;
          }))

    unfoldable pub start_sequence :
        InferencePipeline P
        → ℕ
        → String
        → List ℕ
        → Bytes
        → ℕ × ℕ
        → InferencePipeline P × Option (P × SwarmMessage F P)
    start_sequence p sequence_id task_id tokens initial_state first_node_layers =
        elim p.pipeline_stages [
          | [] ↦ (p, none)
          | first_node_peer ∷ others ↦ (
            record p {
              active_sequences =
                  insert task_id (new_sequence sequence_id task_id tokens) p.active_sequences;
            },
            some (
              first_node_peer,
              task_for task_id sequence_id initial_state first_node_layers tokens p.pipeline_stages
                  0,
            ),
          )
        ]

    -- The body of `handle_task_result` for a result whose task is known, at the index it moves to.
    unfoldable pub advance_sequence :
        InferencePipeline P
        → SequenceState
        → String
        → ℕ
        → Bytes
        → List F
        → ℕ × ℕ
        → InferencePipeline P × Option (PipelineResult F P)
    advance_sequence p state task_id sequence_id output_state logits layers =
        let index = state.current_node_index + 1 in
        elim (get_elem? p.pipeline_stages index) [
          | none ↦ (
            record p { active_sequences = remove task_id p.active_sequences },
            some (finished logits),
          )
          | some next_peer_id ↦ (
            record p {
              active_sequences =
                  insert task_id (record state { current_node_index = index }) p.active_sequences;
            },
            some (
                next_stage next_peer_id (
                  task_for task_id sequence_id output_state layers state.tokens p.pipeline_stages
                    index)),
          )
        ]

    unfoldable pub handle_task_result :
        InferencePipeline P
        → SwarmMessage F P
        → ℕ × ℕ
        → InferencePipeline P × Option (PipelineResult F P)
    unfolding advance_sequence
    handle_task_result p (task_result task_id sequence_id output_state logits) layers =
        elim (lookup task_id p.active_sequences) [
          | none ↦ (p, none)
          | some state ↦
              if state.sequence_id == sequence_id
              then advance_sequence p state task_id sequence_id output_state logits layers
              else (p, none)
        ]
    handle_task_result p _ layers = (p, none)
