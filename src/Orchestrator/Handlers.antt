-- ===== src/Orchestrator/Handlers.antt =====
-- The handlers of `src/orchestrator.rs`. Each holds the lock of the registry from its first line to
-- its last, so a handler is one step; the clock is an argument, in nanoseconds.
use neural_swarm_ai.Common.{
  ℕ, ◌-◌, ◌/◌, ◌^◌, Bool, true, false, ltb, ◌==◌, ◌&&◌, if◌then◌else◌, String, Option, none, some,
  List, [], ◌∷◌, length, Result, ok, err,
}
use neural_swarm_ai.Float.{F32}
use neural_swarm_ai.Compute.Profile.{NodeProfile}
use neural_swarm_ai.Compute.Status.{NodeStatus}
use neural_swarm_ai.Node.State.{NodeState, StateError, can_transition_to, transition_to}
use neural_swarm_ai.Node.Registry.{
  NodeEntry, NodeRegistry, RegistryError, new_registry, get, put, remove_node, len,
  registry_is_empty, heartbeat, active_nodes, register, mark_ready, update_status,
}
use neural_swarm_ai.Protocol.{Bytes, SwarmMessage, join_response, rebalance_command}
use neural_swarm_ai.Crypto.Envelope.{CryptoError}
use neural_swarm_ai.Pipeline.Stages.{InferencePipeline, new_pipeline}
use neural_swarm_ai.Orchestrator.Rebalance.{PeerIds, rebalance_layers}
use neural_swarm_ai.Orchestrator.Assignment.{layers_at}

-- `p2p_sender` is left out: no method reads it.
pub record Orchestrator (F P : Type 0) : Type 0 where
  pub registry : NodeRegistry F
  pub pipeline : InferencePipeline P
  pub total_model_layers : ℕ  -- u32
  pub shared_secret : String
  pub cluster_key : Bytes

pub data OrchestratorError : Type 0 where
  registry_error : RegistryError → OrchestratorError
  transition_error : StateError → OrchestratorError
  node_disappeared invalid_peer_id : OrchestratorError
  crypto_error : CryptoError → OrchestratorError

-- `Vec<u32> == Vec<u32>`
abbrev pub layers_eq : List ℕ → List ℕ → Bool
layers_eq [] [] = true
layers_eq (x ∷ xs) (y ∷ ys) = x == y && layers_eq xs ys
layers_eq _ _ = false

module _ {F P : Type 0} where
  -- `Orchestrator::new`, from the random bytes of the cluster key.
  unfoldable pub new : Bytes → ℕ → String → Orchestrator F P
  new cluster_key total_layers shared_secret = record {
    registry = new_registry;
    pipeline = new_pipeline;
    total_model_layers = total_layers;
    shared_secret = shared_secret;
    cluster_key = cluster_key;
  }

  unfoldable pub handle_heartbeat :
      ℕ → Orchestrator F P → String → Orchestrator F P × Result OrchestratorError (Unit {0})
  handle_heartbeat now o device_id =
      (record o { registry = heartbeat now o.registry device_id }, ok tt)

  unfoldable pub node_count : Orchestrator F P → ℕ
  node_count o = len o.registry

  unfoldable pub active_node_count : Orchestrator F P → ℕ
  active_node_count o = length (active_nodes o.registry)

module _ {F : Type 0} where
  -- `duration_since` stops at 0; `as_secs` drops the fraction.
  unfoldable pub is_dead : ℕ → ℕ → NodeEntry F → Bool
  is_dead now timeout_secs entry = ltb timeout_secs ((now - entry.last_heartbeat) / 10 ^ 9)

  unfoldable pub dead_ids : ℕ → ℕ → List (String × NodeEntry F) → List String
  dead_ids now timeout_secs [] = []
  dead_ids now timeout_secs ((id, entry) ∷ m) =
      let rest = dead_ids now timeout_secs m in
      if is_dead now timeout_secs entry then id ∷ rest else rest

  unfoldable pub remove_all : List String → NodeRegistry F → NodeRegistry F
  remove_all [] r = r
  remove_all (id ∷ ids) r = remove_all ids (remove_node r id).0

  -- The part of `handle_drain` before the removal: the state moves to Draining where it may.
  unfoldable pub begin_drain :
      NodeRegistry F → String → NodeRegistry F × Result OrchestratorError (Unit {0})
  begin_drain r device_id = elim (get r device_id) [
    | none ↦ (r, ok tt)
    | some entry ↦
        if can_transition_to entry.state NodeState.draining
        then elim (transition_to entry.state NodeState.draining) [
          | err e ↦ (r, err (transition_error e))
          | ok s ↦ (put r device_id (record entry { state = s }), ok tt)
        ]
        else (r, ok tt)
  ]

module _ {F P : Type 0} ⦃f : F32 F⦄ (peers : PeerIds P) where
  -- `Self::rebalance_layers(&mut registry, ..)` with this registry.
  unfoldable pub rebalanced : Orchestrator F P → NodeRegistry F → Orchestrator F P
  rebalanced o r =
      let (r', pipeline') = rebalance_layers peers r o.total_model_layers o.pipeline in
      record o { registry = r'; pipeline = pipeline' }

  unfoldable pub handle_announce :
      ℕ
      → Orchestrator F P
      → String
      → NodeProfile
      → NodeStatus F
      → Orchestrator F P × Result OrchestratorError (SwarmMessage F P)
  handle_announce now o device_id profile initial_status =
      let (r₁, registered) = register now o.registry device_id profile in
      elim registered [
        | err e ↦ (record o { registry = r₁ }, err (registry_error e))
        | ok _ ↦
            let (r₂, marked) = mark_ready r₁ device_id initial_status in
            elim marked [
              | err e ↦ (record o { registry = r₂ }, err (registry_error e))
              | ok _ ↦
                  let o' = rebalanced o r₂ in
                  (
                    o',
                    elim (get o'.registry device_id) [
                      | none ↦ err node_disappeared
                      | some entry ↦
                          ok (join_response entry.assigned_layers o.total_model_layers [])
                    ],
                  )
            ]
      ]

  unfoldable pub handle_status_update :
      ℕ
      → Orchestrator F P
      → String
      → NodeStatus F
      → Orchestrator F P × Result OrchestratorError (Option (SwarmMessage F P))
  handle_status_update now o device_id status =
      let (r₁, updated) = update_status now o.registry device_id status in
      elim updated [
        | err e ↦ (record o { registry = r₁ }, err (registry_error e))
        | ok false ↦ (record o { registry = r₁ }, ok none)
        | ok true ↦
            let old_layers = layers_at r₁ device_id in
            let o' = rebalanced o r₁ in
            let new_layers = layers_at o'.registry device_id in
            (
              o',
              ok (
                  if layers_eq old_layers new_layers
                  then none
                  else some (rebalance_command new_layers)),
            )
      ]

  -- Rebalance unless nothing is left.
  unfoldable pub rebalanced_if_any : Orchestrator F P → NodeRegistry F → Orchestrator F P
  rebalanced_if_any o r = if registry_is_empty r then record o { registry = r } else rebalanced o r

  unfoldable pub handle_drain :
      Orchestrator F P → String → Orchestrator F P × Result OrchestratorError (Unit {0})
  handle_drain o device_id =
      let (r₁, drained) = begin_drain o.registry device_id in
      elim drained [
        | err e ↦ (record o { registry = r₁ }, err e)
        | ok _ ↦ (rebalanced_if_any o (remove_node r₁ device_id).0, ok tt)
      ]

  unfoldable pub prune_dead_nodes :
      ℕ → Orchestrator F P → ℕ → Orchestrator F P × Result OrchestratorError (Unit {0})
  prune_dead_nodes now o timeout_secs = elim (dead_ids now timeout_secs o.registry.nodes) [
    | [] ↦ (o, ok tt)
    | id ∷ ids ↦ (rebalanced_if_any o (remove_all (id ∷ ids) o.registry), ok tt)
  ]
