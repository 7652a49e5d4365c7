-- ===== src/Lib.antt =====
-- Verification of neural-swarm-ai: a swarm of nodes that share the layers of a language model.
--
-- The parts. Each node measures itself (src/compute) and announces itself to an orchestrator, which
-- keeps a registry of nodes with a lifecycle (src/node), deals out the layers of the model by
-- capacity (src/orchestrator.rs) and leads each sequence through a pipeline of nodes
-- (src/pipeline.rs). A node runs its layers in an executor (src/executor.rs) against a backend
-- (src/backend.rs). The states between nodes are compressed and encrypted (src/crypto.rs), and
-- everything travels as messages (src/protocol.rs).
--
-- The files.
-- Common: shared names, Boolean tests on numbers, lists measured by native numbers, results, and
-- `HashMap<String, V>` as an association list whose order is the order of iteration.
-- Float: `f32` as an interface (Defs), the laws of IEEE 754 that the proofs use (Laws), and
-- fixed-point numbers that meet them and compute (Point, PointLaws). What uses `f32` is stated for
-- any type with that interface.
-- Compute: src/compute/profile.rs (Profile), status.rs (Status), capacity.rs (Capacity) and
-- monitor.rs (Monitor); the proofs are Bounds, Reports and Detection.
-- Node: src/node/state.rs (State), its diagram and sequences of transitions (Lifecycle), and
-- src/node/registry.rs (Registry, and Ranking for `sorted_by_capacity`); the proofs are Invariant,
-- Steps, Updates, Leaving, Order, Distinct, Alike (what keeps the ranking) and Permuted (the order of
-- iteration).
-- Protocol: `SwarmMessage` of src/protocol.rs and `RouteTicket` of src/pipeline.rs.
-- Pipeline: src/pipeline.rs (Stages); Route follows a sequence through it.
-- Crypto: src/crypto.rs, as Envelope (compression and encryption) and Handshake (authentication and
-- key agreement), over Primitives; Roundtrip has the proofs.
-- Executor: src/backend.rs (Backend), src/wgpu_backend.rs and src/llama_backend.rs (Devices), and
-- src/executor.rs (Tasks); Handoff and Sealed have the proofs.
-- Orchestrator: src/orchestrator.rs. Rebalance is `rebalance_layers`, Handlers the calls that
-- change the membership, Sequences is `start_sequence` (here `begin_sequence`) and
-- `handle_task_result` (here `route_result`). Coverage, Assignment and Covered are about the
-- assignment, Unordered about the order of iteration, Events about sequences of calls, Drains and
-- Strangers about who is left in the registry,
-- Members, Silence and Membership about the registry as a map from ids to heartbeats,
-- Replies and Commands about the answers to nodes, Starts, Ranges,
-- Dispatch and Relay about tasks.
-- Remote: src/remote.rs (Reader); Window and Reads show what a read gives.
-- Model: src/quantized_llama.rs, as Experts (the feed-forward part), Layers (attention and the whole
-- layer), Weights (masks, embeddings, `forward`), Gguf and Loading (`from_gguf_partial` and
-- `from_gguf`) and Ggml (`from_ggml`), over the interface of candle in Tensors; and
-- src/candle_backend.rs (Backend). Slices, Masks, Causal, Routing, Partial and Handover have the
-- proofs on layers, masks, experts, files and states, and Chain is about a pipeline of such backends.
-- Transport: src/transport.rs, as Server (`handle_socket`: `greet`, one `step` for each frame, and
-- `hang_up`) and Client (`connect_to_cluster`: `hello` and `joined`), over Wire; Sockets has several
-- connections to one orchestrator (the shared secret is the server's own, not the orchestrator's
-- field of that name, which no code reads); Access, Joining and Endings have more proofs.
-- P2p: src/p2p.rs, the task between a libp2p swarm and the channels of a node.
-- Swarm: the parts together, the orchestrator with nodes that run the executor over the backend of
-- src/candle_backend.rs. `deliver` brings each task to the node of the peer that it is sent to and
-- each answer to the orchestrator, and `serve_requests` runs sequences one after the other. Tasks,
-- Steps, Places, Deliveries, Runs and Sequences follow one sequence, Whole compares with one backend
-- that holds the whole model, Termination bounds the tasks, and Blocks, Fresh and Deploy lead from a rebalance to nodes that serve.
-- Tests: the model on sample data.
--
-- How state is modelled. A method with `&mut self` returns the new state beside its result. A handler
-- of the orchestrator holds its locks from its first line to its last, so it is one step; calls from
-- several connections are a sequence of steps in the order in which the lock is taken. The clock is
-- an argument, in nanoseconds, and so are random bytes. Errors are values.
--
-- Bounds. Sums of `u32`, `u64` and `usize` that could overflow wrap, as in a release build;
-- `saturating_sub` is subtraction that stops at 0. Loops are structural recursion over the list that
-- the source iterates over, so nothing needs fuel; the deliveries of a
-- sequence use one nonce for each task, and as many nonces as stages are enough. The theorems on the assignment are for models of
-- at most 2 ^ 24 layers, the whole numbers that `f32` has exactly, and fewer than 2 ^ 32 nodes.
--
-- Parameters. `f32` with its laws; libp2p peer ids with their parser and printer; the primitives of
-- the crates aes-gcm, zstd, hmac, sha2, x25519-dalek and hkdf with their documented laws; the report
-- of the crate sysinfo; bincode, which does not write the `measured_at` of a status (Wire); the HTTP
-- client; the context of llama.cpp; the backend of
-- an executor.
--
-- Not modelled. The construction of a libp2p swarm in src/p2p.rs, how a message travels from the
-- orchestrator to a node (lost messages, time limits), the derived serialisation, logging and tracing, and poisoned locks. The
-- values of tensors are not modelled, only the calls of candle and their order. A read of a tensor
-- from a file is taken as a function of the file.
pub mod Common
pub mod Float
pub mod Compute
pub mod Node
pub mod Protocol
pub mod Pipeline
pub mod Crypto
pub mod Executor
pub mod Orchestrator
pub mod Remote
pub mod Model
pub mod Transport
pub mod P2p
pub mod Swarm
mod Tests
