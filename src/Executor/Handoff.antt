-- ===== src/Executor/Handoff.antt =====
-- What a task does to the backend, and how the state passes from one node to the next.
use neural_swarm_ai.Common.{
  ℕ, ◌≤◌, ◌≡◌, refl, String, Option, some, List, [], ◌∷◌, length, Result, ok, err, map_err, ◌>>=◌,
  ap, subst, arith, Result-cases, inl, inr,
}
use neural_swarm_ai.Protocol.{Bytes, RouteTicket, SwarmMessage, process_task, task_result}
use neural_swarm_ai.Crypto.Primitives.{Primitives, IsSound, as_bytes}
use neural_swarm_ai.Crypto.Envelope.{
  CryptoError, size_limit, compress, encrypt_with_aad, decrypt_with_aad,
}
use neural_swarm_ai.Crypto.Roundtrip.{decrypt-encrypt, decompress-compress}
use neural_swarm_ai.Executor.Backend.{InferenceBackend}
use neural_swarm_ai.Executor.Tasks.{
  Executor, crypto_error, backend_error, open_state, seal_state, inject, compute_answer, run_task,
}

module _ (c : Primitives) where
  seal_inversion :
      (x : Executor) (nonce : Bytes) (task_id : String) (raw sealed : Bytes)
      → seal_state c x nonce task_id raw ≡ ok sealed
      → (packed : Bytes) × (compress c raw ≡ ok packed)
        × (encrypt_with_aad c nonce packed x.cluster_key (as_bytes task_id) ≡ ok sealed)
  unfolding seal_state
  seal_inversion x nonce task_id raw sealed e = ground arith

  module _ (sound : IsSound c) where
    -- A state of at most 256 MB that a node seals for a task with a nonce of 12 bytes is what every
    -- node with the same cluster key opens for that task.
    pub open-seal :
        (x y : Executor) (nonce : Bytes) (task_id : String) (raw sealed : Bytes)
        → x.cluster_key ≡ y.cluster_key
        → length nonce ≡ 12
        → length raw ≤ size_limit
        → seal_state c x nonce task_id raw ≡ ok sealed
        → open_state c y task_id sealed ≡ ok raw
    unfolding open_state
    open-seal x y nonce task_id raw sealed k n small e =
        let (packed, squeezed, locked) = seal_inversion x nonce task_id raw sealed e in
        let opened =
          decrypt-encrypt c sound nonce packed x.cluster_key (as_bytes task_id) sealed n locked in
        rw (← k, opened, open_state) (decompress-compress c sound raw packed small squeezed)

module _ {F B E : Type 0} (c : Primitives) (backend : InferenceBackend F B E) where
  -- A state that opens reaches the backend opened.
  pub inject_opened :
      (y : Executor) (b : B) (task_id : String) (sealed raw : Bytes)
      → open_state c y task_id sealed ≡ ok raw
      → inject c backend y b task_id sealed
        ≡ ((backend.set_state b raw).0, map_err backend_error (backend.set_state b raw).1)
  unfolding inject open_state decrypt_with_aad
  inject_opened y b task_id [] raw e = cc
  inject_opened y b task_id (byte ∷ bytes) raw e = rw (e, inject)

chain_inversion :
    {F E M : Type 0} (run : Result E (List F)) (got : Result E Bytes)
    (lock : Bytes → Result CryptoError Bytes) (build : Bytes → List F → M) {m : M}
    → (do
      logits ← map_err (λ (e : E). backend_error e) run
      raw ← map_err backend_error got
      sealed ← map_err crypto_error (lock raw)
      ok (build sealed logits))
      ≡ ok m
    → (raw : Bytes) × (sealed : Bytes) × (logits : List F) × (got ≡ ok raw)
      × (lock raw ≡ ok sealed)
      × (m ≡ build sealed logits)
chain_inversion (err e) got lock build h = cc
chain_inversion (ok logits) (err e) lock build h = cc
chain_inversion (ok logits) (ok raw) lock build h = elim (Result-cases (lock raw)) [
  | inl (sealed, e) ↦ (raw, sealed, logits, refl, e, cc (rw e at h))
  | inr (x, e) ↦ cc (rw e at h)
]

module _ {F P B E : Type 0} (c : Primitives) (backend : InferenceBackend F B E) where
  pub answer_inversion :
      (x : Executor) (nonce : Bytes) (b b' : B) (task_id : String) (sequence_id lo hi : ℕ)
      (tokens : List ℕ) (m : SwarmMessage F P)
      → compute_answer c backend x nonce b task_id sequence_id lo hi tokens ≡ (b', ok m)
      → (raw : Bytes) × (sealed : Bytes) × (logits : List F) × (backend.get_state b' ≡ ok raw)
        × (seal_state c x nonce task_id raw ≡ ok sealed)
        × (m ≡ task_result task_id sequence_id sealed logits)
  unfolding compute_answer
  answer_inversion x nonce b b' task_id sequence_id lo hi tokens m e =
      let moved : (backend.run_layers b lo hi tokens sequence_id).0 ≡ b' = ap (λ p. p.0) e in
      let (raw, sealed, logits, got, locked, made) =
        chain_inversion (backend.run_layers b lo hi tokens sequence_id).1
          (backend.get_state (backend.run_layers b lo hi tokens sequence_id).0)
          (seal_state c x nonce task_id)
          (λ sealed logits. task_result task_id sequence_id sealed logits) (ap (λ p. p.1) e) in
      (raw, sealed, logits, subst (λ d. backend.get_state d ≡ ok raw) moved got, locked, made)

  pub task_inversion :
      (x : Executor) (nonce : Bytes) (b b' : B) (task_id : String) (sequence_id : ℕ)
      (input_state : Bytes) (lo hi : ℕ) (tokens : List ℕ) (route route' : Option (RouteTicket P))
      (m : SwarmMessage F P)
      → run_task c backend x nonce b
          (process_task task_id sequence_id input_state lo hi tokens route)
        ≡ (b', ok (some (m, route')))
      → (route' ≡ route)
        × (b₂ : B) × (compute_answer c backend x nonce b₂ task_id sequence_id lo hi tokens
            ≡ (b', ok m))
  unfolding run_task
  task_inversion x nonce b b' task_id sequence_id input_state lo hi tokens route route' m e = (
    ground arith,
    (inject c backend x (backend.ensure_layers b lo hi).0 task_id input_state).0,
    ground arith,
  )

  -- A task that succeeds answers for its own task and sequence and keeps its route. With a nonce of
  -- 12 bytes, and unless the backend's state is larger than 256 MB, every node with the same
  -- cluster key that is given the answer's state injects into its backend exactly the state that
  -- the answering backend held at the end.
  pub run_task-handoff :
      IsSound c
      → (x y : Executor) (nonce : Bytes) (b b' : B) (task_id : String) (sequence_id : ℕ)
        (input_state : Bytes) (lo hi : ℕ) (tokens : List ℕ) (route route' : Option (RouteTicket P))
        (m : SwarmMessage F P)
      → x.cluster_key ≡ y.cluster_key
      → length nonce ≡ 12
      → ((raw : Bytes) → backend.get_state b' ≡ ok raw → length raw ≤ size_limit)
      → run_task c backend x nonce b
          (process_task task_id sequence_id input_state lo hi tokens route)
        ≡ (b', ok (some (m, route')))
      → (route' ≡ route)
        × (raw : Bytes) × (sealed : Bytes) × (logits : List F) × (backend.get_state b' ≡ ok raw)
        × (m ≡ task_result task_id sequence_id sealed logits)
        × ((d : B)
            → inject c backend y d task_id sealed
              ≡ ((backend.set_state d raw).0, map_err backend_error (backend.set_state d raw).1))
  run_task-handoff sound x y nonce b b' task_id sequence_id input_state lo hi tokens route route' m
        k n small e =
      let (same, b₂, answered) =
        task_inversion x nonce b b' task_id sequence_id input_state lo hi tokens route route' m e in
      let (raw, sealed, logits, got, locked, made) =
        answer_inversion x nonce b₂ b' task_id sequence_id lo hi tokens m answered in
      let opened = open-seal c sound x y nonce task_id raw sealed k n (small raw got) locked in
      (
        same,
        raw,
        sealed,
        logits,
        got,
        made,
        λ d. inject_opened c backend y d task_id sealed raw opened,
      )
