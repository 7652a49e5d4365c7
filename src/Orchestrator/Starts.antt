-- ===== src/Orchestrator/Starts.antt =====
-- A sequence that starts: `start_sequence` of `src/orchestrator.rs`.
use neural_swarm_ai.Pipeline.Route.{IsAt}
use neural_swarm_ai.Common.{
  IsDistinct, IsDistinct-insert, lookup-insert, eq_iff, ℕ, ◌≡◌, refl, String, some, List, [], ◌∷◌,
  ok, insert, arith, ap, Option-cases, Result-cases, List-cases, inl, inr,
}
use neural_swarm_ai.Float.{F32}
use neural_swarm_ai.Node.Registry.{NodeEntry}
use neural_swarm_ai.Node.Ranking.{sorted_by_capacity}
use neural_swarm_ai.Protocol.{Bytes, SwarmMessage}
use neural_swarm_ai.Pipeline.Stages.{new_sequence, task_for, start_sequence}
use neural_swarm_ai.Crypto.Primitives.{Primitives}
use neural_swarm_ai.Executor.Tasks.{Executor, seal_state}
use neural_swarm_ai.Orchestrator.Rebalance.{PeerIds}
use neural_swarm_ai.Orchestrator.Handlers.{Orchestrator}
use neural_swarm_ai.Orchestrator.Sequences.{
  layer_range, seal_initial, send_first, begin_with, begin_sequence,
}

-- The sequence runs, at the first stage.
abbrev pub running : {F P : Type 0} → Orchestrator F P → ℕ → String → List ℕ → Orchestrator F P
running o sequence_id task_id tokens = record o {
  pipeline = record (o.pipeline) {
    active_sequences =
        insert task_id (new_sequence sequence_id task_id tokens) o.pipeline.active_sequences;
  };
}

pub running-IsAt :
    {F P : Type 0} (o : Orchestrator F P) (sequence_id : ℕ) (task_id : String) (tokens : List ℕ)
    (first : P) (ahead : List P)
    → IsDistinct o.pipeline.active_sequences
    → o.pipeline.pipeline_stages ≡ first ∷ ahead
    → IsAt
        (running o sequence_id task_id tokens).pipeline
        task_id
        (new_sequence sequence_id task_id tokens)
        ahead
running-IsAt o sequence_id task_id tokens first ahead distinct stages =
    let st = new_sequence sequence_id task_id tokens in
    record {
      running = rw lookup-insert (rw ((eq_iff task_id task_id).1 refl));
      distinct = IsDistinct-insert task_id st o.pipeline.active_sequences distinct;
      stages_ahead = rw stages refl;
    }

module _ {F P : Type 0} ⦃f : F32 F⦄ (c : Primitives) (peers : PeerIds P) where
  -- What an executor with the cluster key seals is what the orchestrator seals.
  seal_initial_of :
      (o : Orchestrator F P) (x : Executor) (nonce : Bytes) (task_id : String) (raw sealed : Bytes)
      → x.cluster_key ≡ o.cluster_key
      → seal_state c x nonce task_id raw ≡ ok sealed
      → seal_initial c peers o nonce task_id raw ≡ ok sealed
  unfolding seal_initial seal_state
  seal_initial_of o x nonce task_id raw sealed k e = ground arith

  -- With a node ranked first whose id is a peer's, stages, and a state that can be sealed, the
  -- sequence starts.
  pub begin_sequence-running :
      (o : Orchestrator F P) (x : Executor) (nonce : Bytes) (sequence_id : ℕ) (task_id : String)
      (tokens : List ℕ) (raw sealed : Bytes) (top : NodeEntry F) (others : List (NodeEntry F))
      (peer first : P) (ahead : List P)
      → sorted_by_capacity o.registry ≡ top ∷ others
      → peers.parse top.id ≡ some peer
      → o.pipeline.pipeline_stages ≡ first ∷ ahead
      → x.cluster_key ≡ o.cluster_key
      → seal_state c x nonce task_id raw ≡ ok sealed
      → begin_sequence c peers o nonce sequence_id task_id tokens raw ≡ (
        running o sequence_id task_id tokens,
        ok (
            some (
              peer,
              task_for task_id sequence_id sealed
                  (layer_range top)
                  tokens
                  o.pipeline.pipeline_stages
                  0,
            )),
      )
  unfolding begin_sequence begin_with send_first start_sequence
  begin_sequence-running o x nonce sequence_id task_id tokens raw sealed top others peer first ahead
        ranked named stages k locked =
      rw
        (
          ranked,
          begin_sequence,
          begin_with,
          named,
          seal_initial_of o x nonce task_id raw sealed k locked,
          send_first,
          start_sequence,
          stages,
        )
        (rw stages refl)

  -- What starts is at the first of some stages, with a task of its own.
  abbrev pub Started :
      Orchestrator F P → ℕ → String → List ℕ → Orchestrator F P → SwarmMessage F P → Type 0
  Started o sequence_id task_id tokens o' m =
      (first : P) × (ahead : List P) × (sealed : Bytes) × (layers : ℕ × ℕ)
      × (o.pipeline.pipeline_stages ≡ first ∷ ahead)
      × (o' ≡ running o sequence_id task_id tokens)
      × (m ≡ task_for task_id sequence_id sealed layers tokens o.pipeline.pipeline_stages 0)

  send_first-Started :
      (o o' : Orchestrator F P) (q p : P) (sequence_id : ℕ) (task_id : String) (tokens : List ℕ)
      (sealed : Bytes) (layers : ℕ × ℕ) (m : SwarmMessage F P)
      → send_first c peers o q sequence_id task_id tokens sealed layers ≡ (o', ok (some (p, m)))
      → Started o sequence_id task_id tokens o' m
  unfolding send_first start_sequence
  send_first-Started o o' q p sequence_id task_id tokens sealed layers m e =
      elim (List-cases o.pipeline.pipeline_stages) [
        | inl s ↦ cc (rw (s, send_first, start_sequence) at e)
        | inr (first, ahead, s) ↦
            let sent = ap (λ r. r.1) e in
            (first, ahead, sealed, layers, s, ground arith, ground arith)
      ]

  begin_with-Started :
      (o o' : Orchestrator F P) (nonce : Bytes) (sequence_id : ℕ) (task_id : String)
      (tokens : List ℕ) (initial_state : Bytes) (p : P) (m : SwarmMessage F P)
      (ranking : List (NodeEntry F))
      → begin_with c peers ranking o nonce sequence_id task_id tokens initial_state
        ≡ (o', ok (some (p, m)))
      → Started o sequence_id task_id tokens o' m
  unfolding begin_with
  begin_with-Started o o' nonce sequence_id task_id tokens initial_state p m [] e =
      cc (ap (λ r. r.1) e)
  begin_with-Started o o' nonce sequence_id task_id tokens initial_state p m (n ∷ ns) e =
      elim (Option-cases (peers.parse n.id)) [
        | inl t ↦ cc (rw (t, begin_with) at e)
        | inr (q, t) ↦ elim (Result-cases (seal_initial c peers o nonce task_id initial_state)) [
          | inr (x, l) ↦ cc (rw (t, begin_with, l) at e)
          | inl (sealed, l) ↦
              send_first-Started o o' q p sequence_id task_id tokens sealed (layer_range n) m
                (rw (t, begin_with, l) at e)
        ]
      ]

  pub begin_sequence-Started :
      (o o' : Orchestrator F P) (nonce : Bytes) (sequence_id : ℕ) (task_id : String)
      (tokens : List ℕ) (initial_state : Bytes) (p : P) (m : SwarmMessage F P)
      → begin_sequence c peers o nonce sequence_id task_id tokens initial_state
        ≡ (o', ok (some (p, m)))
      → Started o sequence_id task_id tokens o' m
  unfolding begin_sequence
  begin_sequence-Started o o' nonce sequence_id task_id tokens initial_state p m e =
      begin_with-Started o o' nonce sequence_id task_id tokens initial_state p m
        (sorted_by_capacity o.registry) e
