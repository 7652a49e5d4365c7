-- ===== src/Swarm/Runs.antt =====
-- A stage and those behind it: its task fails, is the last one, or is followed by the next.
use neural_swarm_ai.Common.{
  ◌≤◌, ◌≡◌, ◌≢◌, refl, sym, subst, ◌∙◌, String, Option, some, List, [], ◌∷◌, All, length, Result,
  ok, err, insert, IsDistinct,
}
use neural_swarm_ai.Float.{F32}
use neural_swarm_ai.Protocol.{Bytes, RouteTicket, process_task, task_result}
use neural_swarm_ai.Pipeline.Stages.{SequenceState}
use neural_swarm_ai.Pipeline.Route.{IsAt}
use neural_swarm_ai.Crypto.Primitives.{Primitives, IsSound}
use neural_swarm_ai.Crypto.Envelope.{size_limit}
use neural_swarm_ai.Executor.Tasks.{backend_error, attach, run_task}
use neural_swarm_ai.Executor.Handoff.{open-seal}
use neural_swarm_ai.Orchestrator.Rebalance.{PeerIds}
use neural_swarm_ai.Orchestrator.Handlers.{Orchestrator}
use neural_swarm_ai.Model.Tensors.{Candle}
use neural_swarm_ai.Model.Backend.{CandleBackend, Storage, candle_backend}
use neural_swarm_ai.Model.Chain.{Stage, visit}
use neural_swarm_ai.Model.Chain.Covered.{run_chain_none, run_chain_err, run_chain_ok}
use neural_swarm_ai.Swarm.Tasks.{sealed_answer}
use neural_swarm_ai.Swarm.Steps.{deliver_failed, deliver_last}
use neural_swarm_ai.Swarm.Places.{seal_state_ok, insert_other}
use neural_swarm_ai.Swarm.Deliveries.{answer_last, Opens, Ends, task_ran, placed_after}
use neural_swarm_ai.Swarm.{Worker, CanSeal, IsPlaced, ArePlaced}

pub apart_back :
    {P : Type 0} (name : P → String) (k : String) (others : List P)
    → All (λ q. k ≢ name q) others
    → All (λ q. name q ≢ k) others
apart_back name k [] h = tt
apart_back name k (q ∷ others) h = (λ e. h.0 (sym e), apart_back name k others h.1)

module _ {T Q M N B V F E P : Type 0} ⦃f : F32 F⦄ (p : Primitives) (peers : PeerIds P)
    (c : Candle T Q M N B F E) (s : Storage Q V F E) (key : Bytes) (task_id : String) where
  module _ (sound : IsSound p) (can : CanSeal p key) (o : Orchestrator F P) (peer : P)
      (ahead : List P) (n : Stage T M N B) (ns : List (Stage T M N B)) (st : SequenceState)
      (nonce : Bytes) (nonces : List Bytes) (fleet : List (String × Worker T M N B))
      (sealed state : Bytes) (lg : List F) (route : Option (RouteTicket P))
      (at : IsPlaced p peers c s o.registry fleet key peer n)
      (apart : All (λ q. peers.to_string peer ≢ peers.to_string q) ahead)
      (there : ArePlaced p peers c s o.registry fleet key ahead ns)
      (opens : Opens p peers c s key task_id sealed state) (twelve : length nonce ≡ 12)
      (distinct : IsDistinct o.pipeline.active_sequences) where
    abbrev ran : CandleBackend T M N B × Result E (Bytes × List F)
    ran = visit c s n.backend state n.start_layer n.end_layer st.tokens st.sequence_id

    abbrev w' : Worker T M N B
    w' = record (at.worker) { backend = ran.0 }

    abbrev StageEnds : Type 0
    StageEnds =
        Ends p peers c s key task_id (nonce ∷ nonces) o fleet peer ahead n ns st sealed state lg
          route

    abbrev done :
        run_task p
          (candle_backend c s)
          at.worker.executor
          nonce
          at.worker.backend
          (process_task task_id st.sequence_id sealed n.start_layer n.end_layer st.tokens route)
        ≡ (
          ran.0,
          attach p (candle_backend c s) route (
              sealed_answer p
                (candle_backend c s)
                at.worker.executor
                nonce
                task_id
                st.sequence_id
                ran.1),
        )
    done =
        task_ran p peers c s key task_id o peer n fleet sealed state st.sequence_id st.tokens route
          at opens nonce

    abbrev pub after :
        IsPlaced p peers c s o.registry
          (insert (peers.to_string peer) w' fleet)
          key
          peer
          (record n { backend = ran.0 })
        × ArePlaced p peers c s o.registry (insert (peers.to_string peer) w' fleet) key ahead ns
    after =
        placed_after p peers c s key task_id o peer n fleet sealed state st.sequence_id st.tokens
          route at opens nonce ahead ns apart there

    pub stage_failed : (e : E) → ran.1 ≡ err e → StageEnds
    unfolding ArePlaced
    stage_failed e h =
        let (here, others) = after in
        rw
          (
            deliver_failed p peers c s nonce nonces o fleet peer _ at.worker ran.0 at.placed
                (backend_error e) (done ∙ rw h refl),
            run_chain_err c s n ns ran.0 state lg st.tokens st.sequence_id e (rw (← h) refl),
          )
          (
            refl,
            record { registry = refl; key = refl; stages = refl; distinct = distinct },
            (here, apart, others),
            λ k q qs. insert_other (peers.to_string peer) k w' fleet q,
          )

    module _ (raw : Bytes) (logits : List F) (h : ran.1 ≡ ok (raw, logits))
        (small : length raw ≤ size_limit) where
      -- The answer, and that it opens again to the state.
      pub sealed_ran :
          (sealed' : Bytes) × (run_task p
              (candle_backend c s)
              at.worker.executor
              nonce
              at.worker.backend
              (process_task task_id st.sequence_id sealed n.start_layer n.end_layer st.tokens route)
            ≡ (ran.0, ok (some (task_result task_id st.sequence_id sealed' logits, route))))
          × Opens p peers c s key task_id sealed' raw
      sealed_ran =
          let x = at.worker.executor in
          let (sealed', locked) =
            seal_state_ok p x nonce task_id raw (subst (λ k. CanSeal p k) (sym at.keyed) can) twelve
              small in
          (
            sealed',
            done ∙ rw (h, locked) refl,
            λ y k.
                open-seal p sound x y nonce task_id raw sealed' (at.keyed ∙ sym k) twelve small
                  locked,
          )

      pub stage_last : ahead ≡ [] → ns ≡ [] → IsAt o.pipeline task_id st [] → StageEnds
      unfolding ArePlaced
      stage_last no_peers no_stages position =
          let (here, others) = after in
          let (sealed', answered, opened) = sealed_ran in
          let (o', routed, kept) = answer_last peers o task_id st sealed' logits position in
          rw
            (
              deliver_last p peers c s nonce nonces o fleet peer _ at.worker ran.0 at.placed o' _
                  route answered logits routed,
              run_chain_ok c s n ns ran.0 state raw lg logits st.tokens st.sequence_id
                  (rw (← h) refl),
              run_chain_none c s ns raw logits st.tokens st.sequence_id no_stages,
            )
            (
              refl,
              kept,
              (here, apart, others),
              λ k q qs. insert_other (peers.to_string peer) k w' fleet q,
            )
