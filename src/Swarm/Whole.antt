-- ===== src/Swarm/Whole.antt =====
-- A swarm whose nodes hold a model in slices serves its sequences as one backend that holds the whole.
use mathlib.Core.Path.{ap₂}
use mathlib.Core.Option.{some-injective}
use neural_swarm_ai.Common.{
  ◌+◌, ◌≤◌, ◌≡◌, refl, sym, ap, subst, ◌∙◌, String, some, List, [], ◌∷◌, All, length, ok, map_err,
  IsDistinct, arith,
}
use neural_swarm_ai.Float.{F32}
use neural_swarm_ai.Protocol.{Bytes}
use neural_swarm_ai.Node.Registry.{NodeEntry, get}
use neural_swarm_ai.Node.Ranking.{sorted_by_capacity}
use neural_swarm_ai.Pipeline.Stages.{new_sequence, task_for}
use neural_swarm_ai.Crypto.Primitives.{Primitives, IsSound}
use neural_swarm_ai.Crypto.Envelope.{size_limit}
use neural_swarm_ai.Executor.Tasks.{Executor, backend_error}
use neural_swarm_ai.Executor.Handoff.{open-seal}
use neural_swarm_ai.Orchestrator.Rebalance.{PeerIds}
use neural_swarm_ai.Orchestrator.Handlers.{Orchestrator}
use neural_swarm_ai.Orchestrator.Sequences.{layer_range, begin_sequence}
use neural_swarm_ai.Orchestrator.Starts.{running, running-IsAt, begin_sequence-running}
use neural_swarm_ai.Model.Tensors.{Candle}
use neural_swarm_ai.Model.Handover.{IsLawful}
use neural_swarm_ai.Model.Backend.{CandleBackend, Storage, run_layers}
use neural_swarm_ai.Model.Chain.{Stage, Ends, Simulates, run_chain}
use neural_swarm_ai.Model.Chain.Whole.{run_chain-run_layers}
use neural_swarm_ai.Swarm.Places.{seal_state_ok, ArePlaced-lengths}
use neural_swarm_ai.Swarm.Deliveries.{Opens}
use neural_swarm_ai.Swarm.Sequences.{deliver-Ends}
use neural_swarm_ai.Swarm.{
  Worker, Request, outcome_of, CanSeal, ArePlaced, handed, serve_request, serve_requests,
  answer_requests,
}

module _ {T Q M N B V F E P : Type 0} ⦃f : F32 F⦄ (p : Primitives) (peers : PeerIds P)
    (c : Candle T Q M N B F E) (s : Storage Q V F E) where
  -- The nodes of the pipeline hold, or are to load, the slices `ns` of the model that the backend `b`
  -- holds, and the orchestrator ranks the node of the first stage first.
  pub record IsDeployed (e : Ends M N B) (o : Orchestrator F P)
      (fleet : List (String × Worker T M N B)) (ns : List (Stage T M N B))
      (b : CandleBackend T M N B) : Type 0 where
    pub first : P
    pub ahead : List P
    pub top : NodeEntry F
    pub others : List (NodeEntry F)
    pub simulates : Simulates c e b ns
    pub placed : ArePlaced p peers c s o.registry fleet o.cluster_key (first ∷ ahead) ns
    pub stages : o.pipeline.pipeline_stages ≡ first ∷ ahead
    pub ranked : sorted_by_capacity o.registry ≡ top ∷ others
    pub named : peers.parse top.id ≡ some first
    pub registered : get o.registry (peers.to_string first) ≡ some top
    pub distinct : IsDistinct o.pipeline.active_sequences

  -- Nonces of 12 bytes for each stage, and states of at most 256 MB between the stages.
  abbrev pub IsServable : List (Stage T M N B) → Request → Type 0
  IsServable ns r =
      (length r.nonce ≡ 12)
      × (length r.nonces ≡ length ns)
      × All (λ nonce. length nonce ≡ 12) r.nonces
      × All (λ raw. length raw ≤ size_limit) (handed p peers c s ns [] r.tokens r.sequence_id)

  -- So for each request in turn, with the caches that the ones before it leave.
  unfoldable pub AreServable : List (Stage T M N B) → List Request → Type 0
  AreServable ns [] = Unit
  AreServable ns (r ∷ rs) =
      IsServable ns r × AreServable (run_chain c s ns [] [] r.tokens r.sequence_id).0 rs

  no_stages :
      (e : Ends M N B) (o : Orchestrator F P) (fleet : List (String × Worker T M N B))
      (b : CandleBackend T M N B)
      → IsDeployed e o fleet [] b
      → ⊥
  unfolding ArePlaced
  no_stages e o fleet b serving = serving.placed

  module _ (sound : IsSound p) (e : Ends M N B) (o : Orchestrator F P)
      (fleet : List (String × Worker T M N B)) (n : Stage T M N B) (ns : List (Stage T M N B))
      (b : CandleBackend T M N B) (serving : IsDeployed e o fleet (n ∷ ns) b)
      (can : CanSeal p o.cluster_key) (r : Request) (able : IsServable (n ∷ ns) r) where
    -- The first task names the slice of the first stage, and its state opens to nothing.
    request_started :
        (sealed : Bytes) × (begin_sequence p peers o r.nonce r.sequence_id r.task_id r.tokens [] ≡ (
          running o r.sequence_id r.task_id r.tokens,
          ok (
              some (
                serving.first,
                task_for r.task_id r.sequence_id sealed
                    (n.start_layer, n.end_layer)
                    r.tokens
                    o.pipeline.pipeline_stages
                    0,
              )),
        ))
        × Opens p peers c s o.cluster_key r.task_id sealed []
    unfolding ArePlaced
    request_started =
        let x : Executor = record { device_id = ""; cluster_key = o.cluster_key } in
        let (sealed, locked) = seal_state_ok p x r.nonce r.task_id [] can able.0 (omega arith) in
        let here = serving.placed.0 in
        let same : here.entry ≡ serving.top =
          some-injective _ _ (sym here.registered ∙ serving.registered) in
        let layers : layer_range serving.top ≡ (n.start_layer, n.end_layer) =
          ap layer_range (sym same) ∙ here.named in
        (
          sealed,
          subst
              (λ l. begin_sequence p peers o r.nonce r.sequence_id r.task_id r.tokens [] ≡ (
                running o r.sequence_id r.task_id r.tokens,
                ok (
                    some (
                      serving.first,
                      task_for r.task_id r.sequence_id sealed l r.tokens o.pipeline.pipeline_stages
                          0,
                    )),
              ))
              layers
              (begin_sequence-running p peers o x r.nonce r.sequence_id r.task_id r.tokens [] sealed
                serving.top serving.others serving.first serving.first serving.ahead serving.ranked
                serving.named serving.stages refl locked),
          λ y k.
              open-seal p sound x y r.nonce r.task_id [] sealed (sym k) able.0 (omega arith) locked,
        )

    -- One request: the outcome is that of the whole model, and the swarm is ready for the next.
    request_served :
        IsLawful c s
        → let (o', fleet', out) = serve_request p peers c s o fleet r in
          let (b', whole) = run_layers c s b 0 e.total_layers r.tokens r.sequence_id in
          (out ≡ outcome_of (map_err backend_error whole))
          × (o'.cluster_key ≡ o.cluster_key)
          × IsDeployed e o' fleet' (run_chain c s (n ∷ ns) [] [] r.tokens r.sequence_id).0 b'
    unfolding serve_request ArePlaced
    request_served law =
        let (sealed, started, opened) = request_started in
        let st = new_sequence r.sequence_id r.task_id r.tokens in
        let o₁ : Orchestrator F P = running o r.sequence_id r.task_id r.tokens in
        let at =
          running-IsAt o r.sequence_id r.task_id r.tokens serving.first serving.ahead
            serving.distinct serving.stages in
        let paired =
          ArePlaced-lengths p peers c s o.registry o.cluster_key fleet serving.ahead ns
            serving.placed.2 in
        let count : length r.nonces ≡ length serving.ahead + 1 = let k = able.1 in omega arith in
        let (answer, sim) =
          run_chain-run_layers c s law e b (n ∷ ns) r.tokens r.sequence_id serving.simulates in
        let (ended, kept, placed, frame) =
          deliver-Ends p peers c s o.cluster_key r.task_id sound can serving.ahead ns r.nonces o₁
            fleet serving.first n st sealed [] [] _ at serving.placed opened count able.2 able.3 in
        rw (started, serve_request, started)
          (
            ended ∙ ap (λ a. outcome_of (map_err backend_error a)) answer,
            kept.key,
            record {
              first = serving.first;
              ahead = serving.ahead;
              top = serving.top;
              others = serving.others;
              simulates = sim;
              placed = rw (kept.registry, kept.key) placed;
              stages = kept.stages ∙ serving.stages;
              ranked = rw kept.registry serving.ranked;
              named = serving.named;
              registered = rw kept.registry serving.registered;
              distinct = kept.distinct;
            },
          )

  -- Where the keys, candle and bincode meet their laws: a swarm whose pipeline is of nodes that hold,
  -- or are yet to load, the slices of a model, and whose first stage is ranked first, serves any
  -- sequences, one after the other, as one backend that holds the whole model: with the same logits,
  -- or the error of the same layers. It is then ready for more, with the caches of the whole. The
  -- nonces are of 12 bytes and the states between the stages of at most 256 MB.
  pub serve_requests-answer_requests :
      IsSound p
      → IsLawful c s
      → (e : Ends M N B) (requests : List Request) (o : Orchestrator F P)
        (fleet : List (String × Worker T M N B)) (ns : List (Stage T M N B))
        (b : CandleBackend T M N B)
      → IsDeployed e o fleet ns b
      → CanSeal p o.cluster_key
      → AreServable ns requests
      → let (o', fleet', outs) = serve_requests p peers c s o fleet requests in
        let (b', answers) = answer_requests p peers c s e.total_layers b requests in
        (outs ≡ answers) × (ns' : List (Stage T M N B)) × IsDeployed e o' fleet' ns' b'
  unfolding serve_requests answer_requests AreServable
  serve_requests-answer_requests sound law e [] o fleet ns b serving can able = (refl, ns, serving)
  serve_requests-answer_requests sound law e (r ∷ rs) o fleet [] b serving can able =
      absurd (no_stages e o fleet b serving)
  serve_requests-answer_requests sound law e (r ∷ rs) o fleet (n ∷ ns) b serving can able =
      let (first, key, serving') = request_served sound e o fleet n ns b serving can r able.0 law in
      let (o₁, fleet₁, out) = serve_request p peers c s o fleet r in
      let ns₁ = (run_chain c s (n ∷ ns) [] [] r.tokens r.sequence_id).0 in
      let b₁ = (run_layers c s b 0 e.total_layers r.tokens r.sequence_id).0 in
      let (rest, ns', ready) =
        serve_requests-answer_requests sound law e rs o₁ fleet₁ ns₁ b₁ serving'
          (subst (λ k. CanSeal p k) (sym key) can) able.1 in
      (ap₂ (λ x xs. x ∷ xs) first rest, ns', ready)
