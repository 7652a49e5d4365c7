-- ===== src/Swarm/Sequences.antt =====
-- All stages of a sequence, by induction on the stages ahead.
use neural_swarm_ai.Common.{
  ℕ, ◌+◌, ◌≤◌, ◌≡◌, refl, sym, ap, ◌∙◌, String, Option, some, List, [], ◌∷◌, All, length, ok,
  insert, arith, Result-cases, inl, inr,
}
use neural_swarm_ai.Float.{F32}
use neural_swarm_ai.Protocol.{Bytes, RouteTicket}
use neural_swarm_ai.Pipeline.Stages.{SequenceState, next_stage, task_for}
use neural_swarm_ai.Pipeline.Route.{IsAt}
use neural_swarm_ai.Crypto.Primitives.{Primitives, IsSound}
use neural_swarm_ai.Crypto.Envelope.{size_limit}
use neural_swarm_ai.Orchestrator.Rebalance.{PeerIds}
use neural_swarm_ai.Orchestrator.Handlers.{Orchestrator}
use neural_swarm_ai.Model.Tensors.{Candle}
use neural_swarm_ai.Model.Backend.{Storage}
use neural_swarm_ai.Model.Chain.{Stage, visit}
use neural_swarm_ai.Model.Chain.Covered.{run_chain_ok}
use neural_swarm_ai.Swarm.Steps.{deliver_next}
use neural_swarm_ai.Swarm.Places.{insert_other, IsPlaced-frame}
use neural_swarm_ai.Swarm.Deliveries.{answer_next, Opens, Ends}
use neural_swarm_ai.Swarm.Runs.{apart_back, after, sealed_ran, stage_failed, stage_last}
use neural_swarm_ai.Swarm.{Worker, CanSeal, ArePlaced, handed}

module _ {T Q M N B V F E P : Type 0} ⦃f : F32 F⦄ (p : Primitives) (peers : PeerIds P)
    (c : Candle T Q M N B F E) (s : Storage Q V F E) where
  handed_ok :
      (n : Stage T M N B) (ns : List (Stage T M N B)) (state raw : Bytes) (tokens : List ℕ)
      (sequence_id : ℕ) (logits : List F)
      → (visit c s n.backend state n.start_layer n.end_layer tokens sequence_id).1
        ≡ ok (raw, logits)
      → handed p peers c s (n ∷ ns) state tokens sequence_id
        ≡ raw ∷ handed p peers c s ns raw tokens sequence_id
  unfolding handed
  handed_ok n ns state raw tokens sequence_id logits h = rw (h, handed) refl

  module _ (key : Bytes) (task_id : String) (sound : IsSound p) (can : CanSeal p key) where
    -- Whatever task the first of these stages is given.
    pub deliver-Ends :
        (ahead : List P) (ns : List (Stage T M N B)) (nonces : List Bytes) (o : Orchestrator F P)
        (fleet : List (String × Worker T M N B)) (peer : P) (n : Stage T M N B) (st : SequenceState)
        (sealed state : Bytes) (lg : List F) (route : Option (RouteTicket P))
        → IsAt o.pipeline task_id st ahead
        → ArePlaced p peers c s o.registry fleet key (peer ∷ ahead) (n ∷ ns)
        → Opens p peers c s key task_id sealed state
        → length nonces ≡ length ahead + 1
        → All (λ nonce. length nonce ≡ 12) nonces
        → All
            (λ raw. length raw ≤ size_limit)
            (handed p peers c s (n ∷ ns) state st.tokens st.sequence_id)
        → Ends p peers c s key task_id nonces o fleet peer ahead n ns st sealed state lg route
    unfolding ArePlaced
    deliver-Ends ahead ns [] o fleet peer n st sealed state lg route at places opens count twelve
          small =
        absurd (omega arith)
    deliver-Ends [] (m ∷ ns) (nonce ∷ nonces) o fleet peer n st sealed state lg route at places
          opens count twelve small =
        absurd places.2
    deliver-Ends (q ∷ ahead) [] (nonce ∷ nonces) o fleet peer n st sealed state lg route at places
          opens count twelve small =
        absurd places.2
    deliver-Ends [] [] (nonce ∷ nonces) o fleet peer n st sealed state lg route at places opens
          count twelve small =
        let (here, apart, there) = places in
        let out = visit c s n.backend state n.start_layer n.end_layer st.tokens st.sequence_id in
        elim (Result-cases out.1) [
          | inr (e, h) ↦
              stage_failed p peers c s key task_id sound can o peer [] n [] st nonce nonces fleet
                sealed state lg route here apart there opens twelve.0 at.distinct e h
          | inl ((raw, logits), h) ↦
              let small' =
                rw (handed_ok n [] state raw st.tokens st.sequence_id logits h) at small in
              stage_last p peers c s key task_id sound can o peer [] n [] st nonce nonces fleet
                sealed state lg route here apart there opens twelve.0 at.distinct raw logits h
                small'.0 refl refl at
        ]
    deliver-Ends (q ∷ ahead) (m ∷ ns) (nonce ∷ nonces) o fleet peer n st sealed state lg route at
          (here, apart, there) opens count twelve small =
        let out = visit c s n.backend state n.start_layer n.end_layer st.tokens st.sequence_id in
        elim (Result-cases out.1) [
          | inr (e, h) ↦
              stage_failed p peers c s key task_id sound can o peer (q ∷ ahead) n (m ∷ ns) st nonce
                nonces fleet sealed state lg route here apart there opens twelve.0 at.distinct e h
          | inl ((raw, logits), h) ↦
              let small' =
                rw (handed_ok n (m ∷ ns) state raw st.tokens st.sequence_id logits h) at small in
              let (here', there') =
                after p peers c s key task_id sound can o peer (q ∷ ahead) n (m ∷ ns) st nonce
                  nonces fleet sealed state lg route here apart there opens twelve.0 at.distinct in
              let (sealed', answered, opened) =
                sealed_ran p peers c s key task_id sound can o peer (q ∷ ahead) n (m ∷ ns) st nonce
                  nonces fleet sealed state lg route here apart there opens twelve.0 at.distinct raw
                  logits h small'.0 in
              let entry = there'.0.entry in
              let (routed, at') =
                answer_next peers o task_id st sealed' logits q ahead entry at
                  there'.0.registered in
              let fleet' =
                insert (peers.to_string peer) (record (here.worker) { backend = out.0 }) fleet in
              let stages = o.pipeline.pipeline_stages in
              let index = st.current_node_index + 1 in
              let task_with = λ (layers : ℕ × ℕ).
                task_for {F = F} task_id st.sequence_id sealed' layers st.tokens stages index in
              let o' : Orchestrator F P = record o { pipeline = _ } in
              let (ended, kept, placed, frame) =
                deliver-Ends ahead ns nonces o' fleet' q m _ sealed' raw logits _ at' there' opened
                  (omega arith) twelve.1 small'.1 in
              rw
                (
                  deliver_next p peers c s nonce nonces o fleet peer _ here.worker out.0 here.placed
                      o' _ route answered q _
                      (routed ∙ ap (λ l. (o', some (next_stage q (task_with l)))) there'.0.named),
                  run_chain_ok c s n (m ∷ ns) out.0 state raw lg logits st.tokens st.sequence_id
                      (rw (← h) refl),
                )
                (
                  ended,
                  record {
                    registry = kept.registry;
                    key = kept.key;
                    stages = kept.stages;
                    distinct = kept.distinct;
                  },
                  (
                    IsPlaced-frame p peers c s o.registry key fleet' _ peer _
                        (frame (peers.to_string peer) (λ e. apart.0 (sym e))
                          (apart_back peers.to_string (peers.to_string peer) ahead apart.1))
                        here',
                    apart,
                    placed,
                  ),
                  λ k r rs. frame k rs.0 rs.1 ∙ insert_other (peers.to_string peer) k _ fleet r,
                )
        ]
