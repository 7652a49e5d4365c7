-- ===== src/Tests/Serving.antt =====
-- A swarm of two nodes that load and serve the model of three layers.
use neural_swarm_ai.Common.{◌≡◌, refl, String, List, [], ◌∷◌, ◌++◌, All, lookup, arith}
use neural_swarm_ai.Float.{Fixed, fixed_f32, Fixed-IsIeee}
use neural_swarm_ai.Protocol.{Bytes}
use neural_swarm_ai.Node.State.{NodeState, can_accept_tasks}
use neural_swarm_ai.Node.Registry.{NodeEntry, NodeRegistry, get, active_nodes, nodes_with}
use neural_swarm_ai.Node.Ranking.{sorted_by_capacity, compare_entries}
use neural_swarm_ai.Node.Invariant.{IsValid}
use neural_swarm_ai.Orchestrator.Rebalance.{plan, proportional_split, share, total_composite_of}
use neural_swarm_ai.Orchestrator.Handlers.{Orchestrator, rebalanced}
use neural_swarm_ai.Swarm.Blocks.{cuts_of, HasLayers}
use neural_swarm_ai.Swarm.Fresh.{IsFresh}
use neural_swarm_ai.Swarm.Termination.{serve_request-ends}
use neural_swarm_ai.Swarm.Deploy.{rebalanced-IsDeployed}
use neural_swarm_ai.Model.Chain.Parts.{ends_of}
use neural_swarm_ai.Model.Layers.{
  masked_fill, apply_rotary_emb, add_bias, split_heads, cached, heads_of, apply_mask,
  attend_by_heads, attend, forward_attn, feed_forward, run_layer, run_all, run_slice,
}
use neural_swarm_ai.Model.Weights.{
  find_mask, mask_rows, new_mask, mask_of, mask_for, token_tensor, project,
}
use neural_swarm_ai.Model.Experts.{qmatmul_from_qtensor, qmatmul_forward, mlp_or_moe_forward}
use neural_swarm_ai.Model.Gguf.{
  decimal, evens, precomput_freqs_cis, architecture, md_get, hyper, load_bias, load_mlp,
  load_mlp_or_moe, load_layer, load_layers,
}
use neural_swarm_ai.Model.Loading.{
  load_shared, load_entry, output_tensor, load_exit, from_gguf_partial,
}
use neural_swarm_ai.Model.Backend.{
  CandleBackend, url, new_backend, load_model, set_source, take_state, read_slice, load_layer_range,
  values_of, decode, set_state, encode, get_state, layer_input, logits_of, run_held, finish,
  run_input, run_layers,
}
use neural_swarm_ai.Model.Chain.{Stage, visit, run_chain, embedded, exit_logits}
use neural_swarm_ai.Model.Chain.Loaded.{load_chain-Simulates, load_stage, load_chain}
use neural_swarm_ai.Swarm.{
  Worker, Request, CanSeal, ArePlaced, handed, serve_request, serve_requests, answer_requests,
}
use neural_swarm_ai.Swarm.Whole.{IsDeployed, AreServable, serve_requests-answer_requests}
use neural_swarm_ai.Tests.Samples.{toy, toy-IsSound, names, node_of}
use neural_swarm_ai.Tests.Tiny.{
  Grid, tiny, disk, file, tiny-IsLawful, model, file-loads, model-three, cuts, cuts-IsPartition,
}

abbrev nonce : Bytes
nonce = 1 ∷ 2 ∷ 3 ∷ 4 ∷ 5 ∷ 6 ∷ 7 ∷ 8 ∷ 9 ∷ 10 ∷ 11 ∷ 12 ∷ []

abbrev front : NodeEntry Fixed
front = node_of "front" NodeState.active 60 (0 ∷ [])

abbrev back : NodeEntry Fixed
back = node_of "back" NodeState.active 20 (1 ∷ 2 ∷ [])

abbrev pair : NodeRegistry Fixed
pair = record { nodes = ("back", back) ∷ ("front", front) ∷ [] }

pair_ranked : sorted_by_capacity pair ≡ front ∷ back ∷ []
unfolding sorted_by_capacity active_nodes nodes_with can_accept_tasks compare_entries
pair_ranked = refl

abbrev swarm : Orchestrator Fixed String
swarm = record {
  registry = pair;
  pipeline = record { active_sequences = []; pipeline_stages = "front" ∷ "back" ∷ [] };
  total_model_layers = 3;
  shared_secret = "secret";
  cluster_key = 5 ∷ 6 ∷ [];
}

-- Nodes that know where the model is and have not loaded anything.
abbrev node : String → Worker Grid Fixed Fixed Fixed
node id = record {
  executor = record { device_id = id; cluster_key = 5 ∷ 6 ∷ [] };
  backend = set_source new_backend (url "u");
}

abbrev fleet : List (String × Worker Grid Fixed Fixed Fixed)
fleet = ("front", node "front") ∷ ("back", node "back") ∷ []

abbrev chain : List (Stage Grid Fixed Fixed Fixed)
chain = load_chain tiny disk (url "u") 0 cuts

abbrev whole : CandleBackend Grid Fixed Fixed Fixed
whole = (load_model tiny disk new_backend "m").0

toy-CanSeal : CanSeal toy (5 ∷ 6 ∷ [])
toy-CanSeal = record {
  packs = λ raw small. (raw, refl);
  seals = λ nonce raw packed aad n small e. (_, refl);
}

abbrev first_request : Request
first_request = record {
  sequence_id = 0;
  task_id = "t";
  tokens = 7 ∷ 8 ∷ [];
  nonce = nonce;
  nonces = nonce ∷ nonce ∷ [];
}

abbrev requests : List Request
requests =
    first_request
    ∷ record {
      sequence_id = 1;
      task_id = "u";
      tokens = 9 ∷ [];
      nonce = nonce;
      nonces = nonce ∷ nonce ∷ [];
    }
    ∷ []

placed : ArePlaced toy names tiny disk pair fleet (5 ∷ 6 ∷ []) ("front" ∷ "back" ∷ []) chain
unfolding ArePlaced lookup get load_chain load_stage cuts load_layer_range read_slice
    from_gguf_partial set_source
placed = (
  record {
    worker = node "front";
    placed = refl;
    keyed = refl;
    entry = front;
    registered = refl;
    named = refl;
    ready = refl;
    loaded = refl;
  },
  ((λ e. cc), tt),
  (
    record {
      worker = node "back";
      placed = refl;
      keyed = refl;
      entry = back;
      registered = refl;
      named = refl;
      ready = refl;
      loaded = refl;
    },
    tt,
    tt,
  ),
)

serving : IsDeployed toy names tiny disk (ends_of model) swarm fleet chain whole
unfolding get lookup
serving = record {
  first = "front";
  ahead = "back" ∷ [];
  top = front;
  others = back ∷ [];
  simulates =
      load_chain-Simulates tiny disk file (url "u") "m" model cuts refl refl file-loads
        (rw model-three (omega arith)) cuts-IsPartition;
  placed = placed;
  stages = refl;
  ranked = pair_ranked;
  named = refl;
  registered = refl;
  distinct = tt;
}

able : AreServable toy names tiny disk chain requests
unfolding AreServable handed cuts masked_fill apply_rotary_emb add_bias split_heads cached heads_of
    apply_mask attend_by_heads attend forward_attn feed_forward run_layer run_all run_slice
    find_mask mask_rows new_mask mask_of mask_for token_tensor project qmatmul_from_qtensor
    qmatmul_forward mlp_or_moe_forward decimal evens precomput_freqs_cis architecture md_get hyper
    load_bias load_mlp load_mlp_or_moe load_layer load_layers load_shared load_entry output_tensor
    load_exit from_gguf_partial set_source take_state read_slice load_layer_range values_of decode
    set_state encode get_state layer_input logits_of run_held finish run_input run_layers visit
    run_chain embedded exit_logits load_stage load_chain
able = (
  (refl, refl, (refl, (refl, tt)), (omega arith, (omega arith, tt))),
  ((refl, refl, (refl, (refl, tt)), (omega arith, (omega arith, tt))), tt),
)

serve_requests-answer_requests_example :
    let (o', fleet', outs) = serve_requests toy names tiny disk swarm fleet requests in
    let (b', answers) = answer_requests toy names tiny disk model.total_layers whole requests in
    (outs ≡ answers)
    × (ns' : List (Stage Grid Fixed Fixed Fixed)) × IsDeployed toy names tiny disk
        (ends_of model)
        o'
        fleet'
        ns'
        b'
serve_requests-answer_requests_example =
    serve_requests-answer_requests toy names tiny disk toy-IsSound tiny-IsLawful (ends_of model)
      requests swarm fleet chain whole serving toy-CanSeal able

pair-IsValid : IsValid pair
pair-IsValid = record {
  distinct = ((refl, tt), (tt, tt));
  entries = (
    record { under_id = refl; total = omega arith; composite = (refl, refl) },
    (record { under_id = refl; total = omega arith; composite = (refl, refl) }, tt),
  );
}

-- Two layers for the stronger node, and one for the other.
dealt : HasLayers (plan 3 (front ∷ back ∷ []))
unfolding plan proportional_split share total_composite_of
dealt = (omega arith, (omega arith, tt))

fresh : All (IsFresh (url "u") fleet (5 ∷ 6 ∷ [])) ("front" ∷ "back" ∷ [])
unfolding lookup
fresh = ((node "front", refl, refl, refl), ((node "back", refl, refl, refl), tt))

rebalanced-IsDeployed_example :
    IsDeployed toy names tiny disk
      (ends_of model)
      (rebalanced names swarm pair)
      fleet
      (load_chain tiny disk (url "u") 0 (cuts_of 0 (plan 3 (front ∷ back ∷ []))))
      whole
rebalanced-IsDeployed_example =
    rebalanced-IsDeployed toy names tiny disk Fixed-IsIeee swarm pair front (back ∷ []) fleet file
      (url "u") "m" model pair-IsValid pair_ranked (omega arith) (omega arith) (omega arith) refl
      refl file-loads model-three dealt (("front", refl, refl), (("back", refl, refl), tt)) fresh tt

serve_request-ends_example :
    serve_request toy names tiny disk swarm fleet
      (record first_request { nonces = first_request.nonces ++ (nonce ∷ nonce ∷ []) })
    ≡ serve_request toy names tiny disk swarm fleet first_request
serve_request-ends_example =
    serve_request-ends toy names tiny disk swarm fleet first_request (nonce ∷ nonce ∷ []) tt refl
