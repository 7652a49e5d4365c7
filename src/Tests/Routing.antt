-- ===== src/Tests/Routing.antt =====
-- Sequences through the pipeline, the orchestrator and the executors, at sample inputs.
use neural_swarm_ai.Common.{
  ℕ, ◌+◌, ◌≡◌, refl, String, Option, none, some, List, [], ◌∷◌, ◌++◌, ok, map_err, lookup, insert,
  arith,
}
use neural_swarm_ai.Float.{Fixed, fixed_f32, pos}
use neural_swarm_ai.Protocol.{Bytes, RouteTicket, SwarmMessage, process_task, task_result}
use neural_swarm_ai.Pipeline.Stages.{
  SequenceState, InferencePipeline, new_sequence, task_for, start_sequence,
}
use neural_swarm_ai.Pipeline.Route.{Answer, feed, itinerary, start_sequence-itinerary}
use neural_swarm_ai.Crypto.Primitives.{as_bytes}
use neural_swarm_ai.Crypto.Envelope.{compress, encrypt_with_aad, decompress, decrypt_with_aad}
use neural_swarm_ai.Executor.Backend.{InferenceBackend, default_ensure_layers}
use neural_swarm_ai.Executor.Tasks.{
  Executor, backend_error, open_state, inject, run_task, compute_answer, seal_state,
}
use neural_swarm_ai.Executor.Handoff.{run_task-handoff}
use neural_swarm_ai.Executor.Sealed.{IsSealed, run_task-IsSealed}
use neural_swarm_ai.Orchestrator.Handlers.{Orchestrator}
use neural_swarm_ai.Orchestrator.Sequences.{begin_sequence, begin_with, seal_initial, send_first}
use neural_swarm_ai.Orchestrator.Dispatch.{begin_sequence-opens}
use neural_swarm_ai.Orchestrator.Relay.{HasBlock, with_layers_of, relay, relay-itinerary}
use neural_swarm_ai.Tests.Samples.{
  toy, toy_unseal, toy_decompress, toy-IsSound, names, weak, strong, two_nodes, weak_found,
  two_nodes_ranked,
}

abbrev nonce : Bytes
nonce = 1 ∷ 2 ∷ 3 ∷ 4 ∷ 5 ∷ 6 ∷ 7 ∷ 8 ∷ 9 ∷ 10 ∷ 11 ∷ 12 ∷ []

abbrev answer_of : ℕ → Answer Fixed
answer_of n = record { output_state = n ∷ []; logits = pos n ∷ []; layers = (n, n + 1) }

abbrev two_answers : List (Answer Fixed)
two_answers = answer_of 4 ∷ answer_of 5 ∷ []

abbrev idle : InferencePipeline String
idle = record { active_sequences = []; pipeline_stages = "strong" ∷ "weak" ∷ [] }

start_sequence-itinerary_example :
    let (p', task) = start_sequence idle 7 "t" (1 ∷ []) (9 ∷ []) (1, 3) in
    let (q, outs) = feed p' "t" 7 two_answers in
    (task
      ≡ some (
        "strong",
        task_for {F = Fixed} "t" 7 (9 ∷ []) (1, 3) (1 ∷ []) ("strong" ∷ "weak" ∷ []) 0,
      ))
    × (outs ≡ itinerary "t" 7 (1 ∷ []) ("strong" ∷ "weak" ∷ []) 0 ("weak" ∷ []) two_answers)
    × (lookup "t" q.active_sequences ≡ none)
start_sequence-itinerary_example =
    start_sequence-itinerary [] "strong" ("weak" ∷ []) 7 "t" (1 ∷ []) (9 ∷ []) (1, 3) two_answers tt
      refl

abbrev started : SequenceState
started = new_sequence 7 "t" (1 ∷ [])

abbrev swarm : Orchestrator Fixed String
swarm = record {
  registry = two_nodes;
  pipeline = record {
    active_sequences = ("t", started) ∷ [];
    pipeline_stages = "strong" ∷ "weak" ∷ [];
  };
  total_model_layers = 3;
  shared_secret = "secret";
  cluster_key = 5 ∷ 6 ∷ [];
}

-- "weak" has the layer 0.
abbrev weak_block : HasBlock names two_nodes "weak"
weak_block = (0, 1, weak, weak_found, (refl, omega arith, omega arith))

relay-itinerary_example :
    let (q, outs) = relay names swarm "t" 7 two_answers in
    (outs
      ≡ itinerary "t" 7
          (1 ∷ [])
          ("strong" ∷ "weak" ∷ [])
          0
          ("weak" ∷ [])
          (with_layers_of names two_nodes ("weak" ∷ []) (weak_block, tt) two_answers))
    × (lookup "t" q.pipeline.active_sequences ≡ none)
    × (q.registry ≡ two_nodes)
unfolding lookup
relay-itinerary_example =
    relay-itinerary names two_answers swarm "t" started ("weak" ∷ []) (weak_block, tt)
      (record { running = refl; distinct = (tt, tt); stages_ahead = refl }) refl

abbrev node : Executor
node = record { device_id = "strong"; cluster_key = 5 ∷ 6 ∷ [] }

-- A backend that appends the layers it runs to its state.
abbrev echo : InferenceBackend Fixed Bytes String
echo = record {
  ensure_layers = default_ensure_layers;
  set_state = λ b bytes. (bytes, ok tt);
  get_state = λ b. ok b;
  run_layers = λ b lo hi tokens sequence_id. (b ++ (lo ∷ hi ∷ []), ok (pos 1 ∷ []));
}

-- The first task of a sequence, to the node ranked first.
abbrev first_sealed : Bytes
first_sealed = nonce ++ (127 ∷ 9 ∷ [])

abbrev first_task : SwarmMessage Fixed String
first_task = task_for "t" 7 first_sealed (1, 3) (1 ∷ []) ("strong" ∷ "weak" ∷ []) 0

started_first :
    begin_sequence toy names swarm nonce 7 "t" (1 ∷ []) (9 ∷ [])
    ≡ (swarm, ok (some ("strong", first_task)))
unfolding begin_sequence begin_with seal_initial send_first compress encrypt_with_aad as_bytes
    start_sequence insert
started_first = rw (two_nodes_ranked, begin_with)

begin_sequence-opens_example :
    (names.parse "strong" ≡ some "strong")
    × (sealed : Bytes) × (first_task
        ≡ task_for "t" 7 sealed (1, 3) (1 ∷ []) ("strong" ∷ "weak" ∷ []) 0)
    × (open_state toy node "t" sealed ≡ ok (9 ∷ []))
begin_sequence-opens_example =
    begin_sequence-opens toy names toy-IsSound swarm swarm node nonce 7 "t" (1 ∷ []) (9 ∷ [])
      "strong" first_task strong (weak ∷ []) 1 2 two_nodes_ranked (refl, omega arith, omega arith)
      refl refl (omega arith) started_first

abbrev no_route : Option (RouteTicket String)
no_route = none

abbrev answer : SwarmMessage Fixed String
answer = task_result "t" 7 (nonce ++ (127 ∷ 9 ∷ 1 ∷ 3 ∷ [])) (pos 1 ∷ [])

ran_first :
    run_task toy echo node nonce [] (process_task "t" 7 first_sealed 1 3 (1 ∷ []) no_route)
    ≡ (9 ∷ 1 ∷ 3 ∷ [], ok (some (answer, no_route)))
unfolding run_task as_bytes inject open_state decrypt_with_aad toy_unseal decompress toy_decompress
    compute_answer seal_state compress encrypt_with_aad
ran_first = refl

run_task-handoff_example :
    (no_route ≡ no_route)
    × (raw : Bytes) × (sealed : Bytes) × (logits : List Fixed) × (echo.get_state (9 ∷ 1 ∷ 3 ∷ [])
        ≡ ok raw)
    × (answer ≡ task_result "t" 7 sealed logits)
    × ((d : Bytes)
        → inject {F = Fixed} toy echo node d "t" sealed
          ≡ ((echo.set_state d raw).0, map_err backend_error (echo.set_state d raw).1))
run_task-handoff_example =
    run_task-handoff toy echo toy-IsSound node node nonce [] (9 ∷ 1 ∷ 3 ∷ []) "t" 7 first_sealed 1 3
      (1 ∷ []) no_route no_route answer refl refl (λ raw e. grind arith) ran_first

first_full : ¬ (first_sealed ≡ [])
first_full h = cc h

run_task-IsSealed_example :
    (raw : Bytes) × IsSealed toy (5 ∷ 6 ∷ []) "t" first_sealed raw
    × ((echo.set_state (echo.ensure_layers [] 1 3).0 raw).1 ≡ ok tt)
    × ((9 ∷ 1 ∷ 3 ∷ [])
        ≡ (echo.run_layers (echo.set_state (echo.ensure_layers [] 1 3).0 raw).0 1 3 (1 ∷ []) 7).0)
run_task-IsSealed_example =
    run_task-IsSealed toy echo toy-IsSound node nonce [] (9 ∷ 1 ∷ 3 ∷ []) "t" 7 first_sealed 1 3
      (1 ∷ []) no_route (some (answer, no_route)) first_full ran_first
