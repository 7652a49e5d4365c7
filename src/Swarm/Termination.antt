-- ===== src/Swarm/Termination.antt =====
-- A sequence ends: its tasks are at most as many as the stages of its pipeline.
use neural_swarm_ai.Common.{
  ℕ, ◌+◌, ◌≡◌, refl, sym, ap, subst, ◌∙◌, String, Option, none, some, List, [], ◌∷◌, ◌++◌, length,
  ok, lookup, arith, IsDistinct, Option-cases, Result-cases, inl, inr,
}
use neural_swarm_ai.Float.{F32}
use neural_swarm_ai.Protocol.{Bytes, RouteTicket, SwarmMessage, process_task, task_result}
use neural_swarm_ai.Node.Registry.{get}
use neural_swarm_ai.Pipeline.Stages.{SequenceState, next_stage, finished}
use neural_swarm_ai.Pipeline.Route.{IsAt}
use neural_swarm_ai.Crypto.Primitives.{Primitives}
use neural_swarm_ai.Executor.Tasks.{run_task}
use neural_swarm_ai.Executor.Handoff.{answer_inversion, task_inversion}
use neural_swarm_ai.Orchestrator.Rebalance.{PeerIds}
use neural_swarm_ai.Orchestrator.Handlers.{Orchestrator}
use neural_swarm_ai.Orchestrator.Sequences.{layer_range, route_result, begin_sequence}
use neural_swarm_ai.Orchestrator.Starts.{running-IsAt, begin_sequence-Started}
use neural_swarm_ai.Orchestrator.Relay.{next_of_IsAt}
use neural_swarm_ai.Model.Tensors.{Candle}
use neural_swarm_ai.Model.Backend.{CandleBackend, Storage, candle_backend}
use neural_swarm_ai.Swarm.Deliveries.{answer_next, answer_last}
use neural_swarm_ai.Swarm.{Worker, Request, deliver, serve_request}

module _ {T Q M N B V F E P : Type 0} ⦃f : F32 F⦄ (p : Primitives) (peers : PeerIds P)
    (c : Candle T Q M N B F E) (s : Storage Q V F E) where
  -- From these deliveries on, the nonces `ns` and `ms` are as good.
  abbrev AreAsGood : List Bytes → List Bytes → Orchestrator F P → P → SwarmMessage F P → Type 0
  AreAsGood ns ms o peer task =
      (fleet : List (String × Worker T M N B))
      → deliver p peers c s ns o fleet peer task ≡ deliver p peers c s ms o fleet peer task

  -- A delivery uses the nonces behind its own only for the task that follows its answer.
  deliver_cong :
      (nonce : Bytes) (ns ms : List Bytes) (o : Orchestrator F P) (peer : P)
      (task : SwarmMessage F P)
      → ((w : Worker T M N B) (b : CandleBackend T M N B) (answer next : SwarmMessage F P)
            (route : Option (RouteTicket P)) (o' : Orchestrator F P) (q : P)
          → run_task p (candle_backend c s) w.executor nonce w.backend task
            ≡ (b, ok (some (answer, route)))
          → route_result peers o answer ≡ (o', some (next_stage q next))
          → AreAsGood ns ms o' q next)
      → AreAsGood (nonce ∷ ns) (nonce ∷ ms) o peer task
  unfolding deliver
  deliver_cong nonce ns ms o peer task h fleet =
      elim (Option-cases (lookup (peers.to_string peer) fleet)) [
        | inl e ↦ rw (e, deliver) refl
        | inr (w, e) ↦
            let out = run_task p (candle_backend c s) w.executor nonce w.backend task in
            elim (Result-cases out.1) [
              | inr (er, k) ↦ rw (e, deliver, k) refl
              | inl (none, k) ↦ rw (e, deliver, k) refl
              | inl (some (answer, route), k) ↦
                  let routed = route_result peers o answer in
                  elim (Option-cases routed.1) [
                    | inl l ↦ rw (e, deliver, k, l) refl
                    | inr (finished logits, l) ↦ rw (e, deliver, k, l) refl
                    | inr (next_stage q next, l) ↦
                        rw (e, deliver, k, l)
                          (h w out.0 answer next route routed.0 q (rw (← k) refl) (rw (← l) refl) _)
                  ]
            ]
      ]

module _ {F P : Type 0} (peers : PeerIds P) where
  -- The task of the next stage: one stage fewer lies ahead.
  abbrev Moved : String → List P → Orchestrator F P → P → SwarmMessage F P → Type 0
  Moved task_id ahead o' q next =
      (rest : List P) × (st' : SequenceState) × (sealed : Bytes) × (lo : ℕ) × (hi : ℕ)
      × (route : Option (RouteTicket P)) × (ahead ≡ q ∷ rest)
      × IsAt o'.pipeline task_id st' rest
      × (next ≡ process_task task_id st'.sequence_id sealed lo hi st'.tokens route)

  route_lost :
      (o : Orchestrator F P) (task_id : String) (st : SequenceState) (r : P) (ahead : List P)
      (sealed : Bytes) (logits : List F)
      → IsAt o.pipeline task_id st (r ∷ ahead)
      → get o.registry (peers.to_string r) ≡ none
      → route_result peers o (task_result task_id st.sequence_id sealed logits) ≡ (o, none)
  unfolding route_result
  route_lost o task_id st r ahead sealed logits at e =
      rw (next_of_IsAt o.pipeline task_id st r ahead at, route_result, e) refl

  route_result-Moved :
      (o o' : Orchestrator F P) (task_id : String) (st : SequenceState) (ahead : List P) (q : P)
      (next : SwarmMessage F P) (sealed : Bytes) (logits : List F)
      → IsAt o.pipeline task_id st ahead
      → route_result peers o (task_result task_id st.sequence_id sealed logits)
        ≡ (o', some (next_stage q next))
      → Moved task_id ahead o' q next
  unfolding route_result
  route_result-Moved o o' task_id st [] q next sealed logits at h =
      let (o₁, routed, kept) = answer_last peers o task_id st sealed logits at in
      cc (ap (λ x. x.1) (sym routed ∙ h))
  route_result-Moved o o' task_id st (r ∷ ahead) q next sealed logits at h =
      elim (Option-cases (get o.registry (peers.to_string r))) [
        | inl e ↦ cc (ap (λ x. x.1) (sym (route_lost o task_id st r ahead sealed logits at e) ∙ h))
        | inr (entry, e) ↦
            let (routed, at') = answer_next peers o task_id st sealed logits r ahead entry at e in
            let same = sym routed ∙ h in
            let sent = ap (λ x. x.1) same in
            let peer : r ≡ q = cc in
            let st' = record st { current_node_index = st.current_node_index + 1 } in
            let (lo, hi) = layer_range entry in
            (
              ahead,
              st',
              sealed,
              lo,
              hi,
              some (record {
                task_id = task_id;
                sequence_id = st.sequence_id;
                nodes = o.pipeline.pipeline_stages;
                current_index = st.current_node_index + 1;
              }),
              ap (λ x. x ∷ ahead) peer,
              subst (λ x. IsAt x.pipeline task_id st' ahead) (ap (λ x. x.0) same) at',
              cc,
            )
      ]

module _ {T Q M N B V F E P : Type 0} ⦃f : F32 F⦄ (p : Primitives) (peers : PeerIds P)
    (c : Candle T Q M N B F E) (s : Storage Q V F E) where
  -- At any stage: one nonce for the stage and for each one ahead is enough.
  deliver_enough :
      (nonces more : List Bytes) (o : Orchestrator F P) (peer : P) (task_id : String)
      (st : SequenceState) (ahead : List P) (sealed : Bytes) (lo hi : ℕ)
      (route : Option (RouteTicket P))
      → IsAt o.pipeline task_id st ahead
      → length nonces ≡ length ahead + 1
      → AreAsGood p peers c s
          (nonces ++ more)
          nonces
          o
          peer
          (process_task task_id st.sequence_id sealed lo hi st.tokens route)
  deliver_enough [] more o peer task_id st ahead sealed lo hi route at n = absurd (omega arith)
  deliver_enough (nonce ∷ nonces) more o peer task_id st ahead sealed lo hi route at n =
      deliver_cong p peers c s nonce (nonces ++ more) nonces o peer _
        λ w b answer next route' o' q ran routed.
          let backend = candle_backend c s in
          let x = w.executor in
          let (same, b₂, answered) =
            task_inversion p backend x nonce w.backend b task_id st.sequence_id sealed lo hi
              st.tokens route route' answer ran in
          let (raw, sealed', logits, got, locked, made) =
            answer_inversion p backend x nonce b₂ b task_id st.sequence_id lo hi st.tokens answer
              answered in
          let (rest, st', sent, lo', hi', ticket, cut, at', named) =
            route_result-Moved peers o o' task_id st ahead q next sealed' logits at
              (ap (route_result peers o) (sym made) ∙ routed) in
          let fewer = ap length cut in
          rw named
            (deliver_enough nonces more o' q task_id st' rest sent lo' hi' ticket at' (omega arith))

  -- Whatever the nodes, the keys and the registry are: a sequence that starts ends after at most as
  -- many tasks as the pipeline has stages. With that many nonces, more of them change nothing: not
  -- the outcome, not the nodes, and not the orchestrator.
  pub serve_request-ends :
      (o : Orchestrator F P) (fleet : List (String × Worker T M N B)) (r : Request)
      (more : List Bytes)
      → IsDistinct o.pipeline.active_sequences
      → length r.nonces ≡ length o.pipeline.pipeline_stages
      → serve_request p peers c s o fleet (record r { nonces = r.nonces ++ more })
        ≡ serve_request p peers c s o fleet r
  unfolding serve_request
  serve_request-ends o fleet r more distinct n =
      let begun = begin_sequence p peers o r.nonce r.sequence_id r.task_id r.tokens [] in
      elim (Result-cases begun.1) [
        | inr (er, k) ↦ rw (serve_request, k) refl
        | inl (none, k) ↦ rw (serve_request, k) refl
        | inl (some (peer, task), k) ↦
            let (first, ahead, sealed, layers, stages, moved, made) =
              begin_sequence-Started p peers o begun.0 r.nonce r.sequence_id r.task_id r.tokens []
                peer task (rw (← k) refl) in
            let at = running-IsAt o r.sequence_id r.task_id r.tokens first ahead distinct stages in
            let count = ap length stages in
            rw (serve_request, k, moved, made)
              (deliver_enough r.nonces more _ peer r.task_id _ ahead sealed layers.0 layers.1 _ at
                (omega arith) fleet)
      ]
