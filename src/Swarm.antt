-- ===== src/Swarm.antt =====
-- A swarm at work: the orchestrator of `src/orchestrator.rs`, and nodes that each run the executor of
-- `src/executor.rs` over the backend of `src/candle_backend.rs`. A task goes to the node of the peer
-- that it is sent to, and its answer to the orchestrator, until the sequence ends.
use neural_swarm_ai.Common.{
  ℕ, ◌≤◌, ◌≡◌, ◌≢◌, true, String, Option, length, none, some, List, [], ◌∷◌, All, ok, err, map_err,
  Result, lookup, insert,
}
use neural_swarm_ai.Float.{F32}
use neural_swarm_ai.Protocol.{Bytes, SwarmMessage}
use neural_swarm_ai.Node.Registry.{NodeEntry, NodeRegistry, get}
use neural_swarm_ai.Pipeline.Stages.{PipelineResult, next_stage, finished}
use neural_swarm_ai.Crypto.Primitives.{Primitives}
use neural_swarm_ai.Crypto.Envelope.{level, size_limit}
use neural_swarm_ai.Executor.Tasks.{Executor, TaskError, backend_error, run_task}
use neural_swarm_ai.Orchestrator.Rebalance.{PeerIds}
use neural_swarm_ai.Orchestrator.Handlers.{Orchestrator}
use neural_swarm_ai.Orchestrator.Sequences.{layer_range, begin_sequence, route_result}
use neural_swarm_ai.Model.Tensors.{Candle}
use neural_swarm_ai.Model.Backend.{
  CandleBackend, Storage, candle_backend, is_loaded, load_layer_range, run_layers,
}
use neural_swarm_ai.Model.Chain.{Stage, visit}
mod Tasks
mod Steps
mod Places
mod Deliveries
mod Runs
mod Sequences
pub mod Blocks
pub mod Fresh
pub mod Whole
pub mod Deploy
pub mod Termination

pub record Worker (T M N B : Type 0) : Type 0 where
  pub executor : Executor
  pub backend : CandleBackend T M N B

-- A sequence to run, and the nonces of its first task and of the answers.
pub record Request : Type 0 where
  pub sequence_id : ℕ
  pub task_id : String
  pub tokens : List ℕ
  pub nonce : Bytes
  pub nonces : List Bytes

-- How a sequence ends: with logits, with the error of a task, or nowhere, where a peer has no node,
-- an answer no sequence, or the nonces run out.
pub data Outcome (F E : Type 0) : Type 0 where
  answered : List F → Outcome F E
  failed : TaskError E → Outcome F E
  lost : Outcome F E

-- States of at most 256 MB compress, and encrypt with this key and a nonce of 12 bytes.
pub record CanSeal (p : Primitives) (key : Bytes) : Type 0 where
  pub packs :
      (raw : Bytes)
      → length raw ≤ size_limit
      → (packed : Bytes) × (p.zstd_compress level raw ≡ some packed)
  pub seals :
      (nonce raw packed aad : Bytes)
      → length nonce ≡ 12
      → length raw ≤ size_limit
      → p.zstd_compress level raw ≡ some packed
      → (sealed : Bytes) × (p.seal key nonce packed aad ≡ some sealed)

abbrev pub outcome_of : {F E : Type 0} → Result (TaskError E) (List F) → Outcome F E
outcome_of (ok logits) = answered logits
outcome_of (err e) = failed e

module _ {T Q M N B V F E P : Type 0} ⦃f : F32 F⦄ (p : Primitives) (peers : PeerIds P)
    (c : Candle T Q M N B F E) (s : Storage Q V F E) where
  -- The nodes by the names of their peers, and a nonce for the answer of each task in turn.
  unfoldable pub deliver :
      List Bytes
      → Orchestrator F P
      → List (String × Worker T M N B)
      → P
      → SwarmMessage F P
      → Orchestrator F P × List (String × Worker T M N B) × Outcome F E
  deliver [] o fleet peer task = (o, fleet, lost)
  deliver (nonce ∷ nonces) o fleet peer task = elim (lookup (peers.to_string peer) fleet) [
    | none ↦ (o, fleet, lost)
    | some w ↦
        let (b, done) = run_task p (candle_backend c s) w.executor nonce w.backend task in
        let fleet' = insert (peers.to_string peer) (record w { backend = b }) fleet in
        elim done [
          | err e ↦ (o, fleet', failed e)
          | ok none ↦ (o, fleet', lost)
          | ok (some (answer, route)) ↦
              let (o', routed) = route_result peers o answer in
              elim routed [
                | none ↦ (o', fleet', lost)
                | some (finished logits) ↦ (o', fleet', answered logits)
                | some (next_stage next_peer next_task) ↦
                    deliver nonces o' fleet' next_peer next_task
              ]
        ]
  ]

  -- A sequence from its start to its end. No state is given to its first task.
  unfoldable pub serve_request :
      Orchestrator F P
      → List (String × Worker T M N B)
      → Request
      → Orchestrator F P × List (String × Worker T M N B) × Outcome F E
  unfolding deliver
  serve_request o fleet r =
      let (o', begun) = begin_sequence p peers o r.nonce r.sequence_id r.task_id r.tokens [] in
      elim begun [
        | err e ↦ (o', fleet, lost)
        | ok none ↦ (o', fleet, lost)
        | ok (some (peer, task)) ↦ deliver r.nonces o' fleet peer task
      ]

  -- Sequences, one after the other.
  unfoldable pub serve_requests :
      Orchestrator F P
      → List (String × Worker T M N B)
      → List Request
      → Orchestrator F P × List (String × Worker T M N B) × List (Outcome F E)
  unfolding serve_request
  serve_requests o fleet [] = (o, fleet, [])
  serve_requests o fleet (r ∷ rs) =
      let (o₁, fleet₁, out) = serve_request o fleet r in
      let (o₂, fleet₂, outs) = serve_requests o₁ fleet₁ rs in (o₂, fleet₂, out ∷ outs)

  -- The same sequences on one backend that holds the whole model of so many layers.
  unfoldable pub answer_requests :
      ℕ → CandleBackend T M N B → List Request → CandleBackend T M N B × List (Outcome F E)
  answer_requests total b [] = (b, [])
  answer_requests total b (r ∷ rs) =
      let (b₁, out) = run_layers c s b 0 total r.tokens r.sequence_id in
      let (b₂, outs) = answer_requests total b₁ rs in
      (b₂, outcome_of (map_err backend_error out) ∷ outs)

  -- The peer has a node with this key, which is registered with the layers of the stage; and the
  -- backend that it has once it holds them is the stage's.
  pub record IsPlaced (registry : NodeRegistry F) (fleet : List (String × Worker T M N B))
      (key : Bytes) (peer : P) (n : Stage T M N B) : Type 0 where
    pub worker : Worker T M N B
    pub placed : lookup (peers.to_string peer) fleet ≡ some worker
    pub keyed : worker.executor.cluster_key ≡ key
    pub entry : NodeEntry F
    pub registered : get registry (peers.to_string peer) ≡ some entry
    pub named : layer_range entry ≡ (n.start_layer, n.end_layer)
    pub ready : load_layer_range c s worker.backend n.start_layer n.end_layer ≡ (n.backend, ok tt)
    pub loaded : is_loaded n.backend n.start_layer n.end_layer ≡ true

  -- The stages in turn are at these peers, of which no two have one name.
  unfoldable pub ArePlaced :
      NodeRegistry F
      → List (String × Worker T M N B)
      → Bytes
      → List P
      → List (Stage T M N B)
      → Type 0
  ArePlaced registry fleet key [] [] = Unit
  ArePlaced registry fleet key (peer ∷ others) (n ∷ ns) =
      IsPlaced registry fleet key peer n
      × All (λ q. peers.to_string peer ≢ peers.to_string q) others
      × ArePlaced registry fleet key others ns
  ArePlaced registry fleet key [] (n ∷ ns) = ⊥
  ArePlaced registry fleet key (peer ∷ others) [] = ⊥

  -- The states that the stages in turn hand over, as bytes.
  unfoldable pub handed : List (Stage T M N B) → Bytes → List ℕ → ℕ → List Bytes
  unfolding visit
  handed [] state tokens sequence_id = []
  handed (n ∷ ns) state tokens sequence_id =
      elim (visit c s n.backend state n.start_layer n.end_layer tokens sequence_id).1 [
        | err e ↦ []
        | ok (state', logits) ↦ state' ∷ handed ns state' tokens sequence_id
      ]
