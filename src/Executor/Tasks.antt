-- ===== src/Executor/Tasks.antt =====
-- `src/executor.rs`. The random nonce of the answer's encryption is an argument.
use neural_swarm_ai.Common.{
  ℕ, String, Option, none, some, List, [], ◌∷◌, Result, ok, err, Bool, map_err, ◌>>=◌,
  if◌then◌else◌,
}
use neural_swarm_ai.Protocol.{Bytes, RouteTicket, SwarmMessage, process_task, task_result}
use neural_swarm_ai.Crypto.Primitives.{Primitives, as_bytes}
use neural_swarm_ai.Crypto.Envelope.{
  CryptoError, compress, decompress, encrypt_with_aad, decrypt_with_aad,
}
use neural_swarm_ai.Executor.Backend.{InferenceBackend}

pub record Executor : Type 0 where
  pub device_id : String
  pub cluster_key : Bytes

pub data TaskError (E : Type 0) : Type 0 where
  crypto_error : CryptoError → TaskError E
  backend_error : E → TaskError E
  channel_closed : TaskError E

module _ (c : Primitives) where
  -- Decrypt, then decompress.
  unfoldable pub open_state : Executor → String → Bytes → Result CryptoError Bytes
  open_state x task_id input_state = do
    decrypted ← decrypt_with_aad c input_state x.cluster_key (as_bytes task_id)
    decompress c decrypted

  -- Compress, then encrypt.
  unfoldable pub seal_state : Executor → Bytes → String → Bytes → Result CryptoError Bytes
  seal_state x nonce task_id output_raw = do
    compressed ← compress c output_raw
    encrypt_with_aad c nonce compressed x.cluster_key (as_bytes task_id)

-- What the loop receives: a task, the random nonce that its answer will use, and whether the
-- receiver of the results is still there when the answer is sent.
pub record Delivery (F P : Type 0) : Type 0 where
  pub task : SwarmMessage F P
  pub nonce : Bytes
  pub open_receiver : Bool

module _ {F B E : Type 0} (c : Primitives) (backend : InferenceBackend F B E) where
  -- Steps 1 and 2: an empty state is the entry of the pipeline and leaves the backend alone.
  unfoldable pub inject : Executor → B → String → Bytes → B × Result (TaskError E) (Unit {0})
  inject x b task_id [] = (b, ok tt)
  inject x b task_id (byte ∷ bytes) = elim (open_state c x task_id (byte ∷ bytes)) [
    | err e ↦ (b, err (crypto_error e))
    | ok decompressed ↦
        let (b', r) = backend.set_state b decompressed in (b', map_err backend_error r)
  ]

module _ {F P B E : Type 0} (c : Primitives) (backend : InferenceBackend F B E) where
  -- Steps 3 to 5: run the layers, and seal the state for the next node.
  unfoldable pub compute_answer :
      Executor
      → Bytes
      → B
      → String
      → ℕ
      → ℕ
      → ℕ
      → List ℕ
      → B × Result (TaskError E) (SwarmMessage F P)
  compute_answer x nonce b task_id sequence_id start_layer end_layer tokens =
      let (b', r) = backend.run_layers b start_layer end_layer tokens sequence_id in
      (
        b',
        do
          logits ← map_err backend_error r
          output_raw ← map_err backend_error (backend.get_state b')
          encrypted ← map_err crypto_error (seal_state c x nonce task_id output_raw)
          ok (task_result task_id sequence_id encrypted logits),
      )

  abbrev pub attach :
      Option (RouteTicket P)
      → Result (TaskError E) (SwarmMessage F P)
      → Result (TaskError E) (Option (SwarmMessage F P × Option (RouteTicket P)))
  attach route (err e) = err e
  attach route (ok answer) = ok (some (answer, route))

  unfoldable pub run_task :
      Executor
      → Bytes
      → B
      → SwarmMessage F P
      → B × Result (TaskError E) (Option (SwarmMessage F P × Option (RouteTicket P)))
  run_task x nonce b
        (process_task task_id sequence_id input_state start_layer end_layer tokens route) =
      let (b₁, loaded) = backend.ensure_layers b start_layer end_layer in
      elim loaded [
        | err e ↦ (b₁, err (backend_error e))
        | ok _ ↦
            let (b₂, injected) = inject c backend x b₁ task_id input_state in
            elim injected [
              | err e ↦ (b₂, err e)
              | ok _ ↦
                  let (b₃, answer) =
                    compute_answer x nonce b₂ task_id sequence_id start_layer end_layer tokens in
                  (b₃, attach route answer)
            ]
      ]
  run_task x nonce b _ = (b, ok none)

  -- `run_loop`: the tasks in turn, until the channel is closed or one fails. The backend, the
  -- results sent, and the outcome.
  unfoldable pub run_loop :
      Executor
      → B
      → List (Delivery F P)
      → B × List (SwarmMessage F P) × Result (TaskError E) (Unit {0})
  run_loop x b [] = (b, [], ok tt)
  run_loop x b (d ∷ rest) =
      let (b', outcome) = run_task x d.nonce b d.task in
      let (b'', sent, final) = run_loop x b' rest in
      elim outcome [
        | err e ↦ (b', [], err e)
        | ok none ↦ (b'', sent, final)
        | ok (some (answer, route)) ↦
            if d.open_receiver then (b'', answer ∷ sent, final) else (b', [], err channel_closed)
      ]
