-- ===== src/Protocol.antt =====
-- `src/protocol.rs` and the route ticket of `src/pipeline.rs`, over a type `F` of `f32` and a type
-- `P` of libp2p peer ids. Bytes are numbers; an `i32` token is its bit pattern.
use neural_swarm_ai.Common.{ℕ, String, Option, List}
use neural_swarm_ai.Compute.Profile.{NodeProfile}
use neural_swarm_ai.Compute.Status.{NodeStatus}

abbrev pub Bytes : Type 0
Bytes = List ℕ

pub record RouteTicket (P : Type 0) : Type 0 where
  pub task_id : String
  pub sequence_id : ℕ  -- u64
  pub nodes : List P
  pub current_index : ℕ  -- usize

pub data SwarmMessage (F P : Type 0) : Type 0 where
  auth_challenge : (nonce : Bytes) (public_key : Bytes) → SwarmMessage F P
  auth_response : (node_id : String) (token_hash : Bytes) (public_key : Bytes) → SwarmMessage F P
  node_announce :
      (device_id : String) (peer_id : Option String) (profile : NodeProfile)
      (initial_status : NodeStatus F)
      → SwarmMessage F P
  join_response :
      (assigned_layers : List ℕ) (total_layers : ℕ) (encrypted_cluster_key : Bytes)
      → SwarmMessage F P
  process_task :
      (task_id : String) (sequence_id : ℕ) (input_state : Bytes) (start_layer end_layer : ℕ)
      (tokens : List ℕ) (route : Option (RouteTicket P))
      → SwarmMessage F P
  task_result :
      (task_id : String) (sequence_id : ℕ) (output_state : Bytes) (logits : List F)
      → SwarmMessage F P
  status_update : (status : NodeStatus F) → SwarmMessage F P
  rebalance_command : (new_layers : List ℕ) → SwarmMessage F P
  rebalance_ack : (device_id : String) → SwarmMessage F P
  drain_request : (reason : String) → SwarmMessage F P
  heartbeat : SwarmMessage F P
