-- ===== src/Executor/Sealed.antt =====
-- Which tasks an executor answers: the check of the state in `run_task` of `src/executor.rs`.
use neural_swarm_ai.Common.{
  ℕ, ◌≤◌, ◌≡◌, refl, sym, ap, ◌∙◌, String, Option, some, List, [], ◌∷◌, ◌++◌, length, ok,
  ok_or_inversion, take, arith, Result-cases, inl, inr,
}
use neural_swarm_ai.Protocol.{Bytes, RouteTicket, SwarmMessage, process_task}
use neural_swarm_ai.Crypto.Primitives.{Primitives, IsSound, as_bytes}
use neural_swarm_ai.Crypto.Envelope.{io_error, size_limit, decompress, decrypt_with_aad}
use neural_swarm_ai.Crypto.Roundtrip.{encrypt_inversion, encrypt-decrypt}
use neural_swarm_ai.Executor.Backend.{InferenceBackend}
use neural_swarm_ai.Executor.Tasks.{Executor, open_state, inject, compute_answer, run_task}

module _ (c : Primitives) where
  -- The bytes are a nonce of 12 bytes and what AES-256-GCM makes, with this key, this nonce and the
  -- task id as additional data, of data that decompresses to this state.
  abbrev pub IsSealed : Bytes → String → Bytes → Bytes → Type 0
  IsSealed key task_id input_state raw =
      (nonce : Bytes) × (packed : Bytes) × (text : Bytes) × (input_state ≡ nonce ++ text)
      × (length nonce ≡ 12)
      × (c.seal key nonce packed (as_bytes task_id) ≡ some text)
      × (c.zstd_decompress size_limit packed ≡ some raw)
      × (length raw ≤ size_limit)

  open_inversion :
      (x : Executor) (task_id : String) (input_state raw : Bytes)
      → open_state c x task_id input_state ≡ ok raw
      → (packed : Bytes) × (decrypt_with_aad c input_state x.cluster_key (as_bytes task_id)
          ≡ ok packed)
        × (decompress c packed ≡ ok raw)
  unfolding open_state
  open_inversion x task_id input_state raw e = ground arith

  open_state-IsSealed :
      IsSound c
      → (x : Executor) (task_id : String) (input_state raw : Bytes)
      → open_state c x task_id input_state ≡ ok raw
      → IsSealed x.cluster_key task_id input_state raw
  unfolding decompress
  open_state-IsSealed sound x task_id input_state raw e =
      let (packed, opened, unpacked) = open_inversion x task_id input_state raw e in
      let (n, made) =
        encrypt-decrypt c sound input_state packed x.cluster_key (as_bytes task_id) opened in
      let (text, locked, shape) =
        encrypt_inversion c (take 12 input_state) packed x.cluster_key (as_bytes task_id)
          input_state made in
      let known = ok_or_inversion io_error (c.zstd_decompress size_limit packed) unpacked in
      (
        take 12 input_state,
        packed,
        text,
        shape,
        n,
        locked,
        known,
        sound.decompress_limit size_limit raw packed known,
      )

module _ {F B E : Type 0} (c : Primitives) (backend : InferenceBackend F B E) where
  inject_inversion :
      (x : Executor) (b : B) (task_id : String) (input_state : Bytes)
      → ¬ (input_state ≡ [])
      → (inject c backend x b task_id input_state).1 ≡ ok tt
      → (raw : Bytes) × (open_state c x task_id input_state ≡ ok raw)
        × (inject c backend x b task_id input_state ≡ ((backend.set_state b raw).0, ok tt))
        × ((backend.set_state b raw).1 ≡ ok tt)
  unfolding inject
  inject_inversion x b task_id [] full e = absurd (full refl)
  inject_inversion x b task_id (byte ∷ bytes) full e =
      elim (Result-cases (open_state c x task_id (byte ∷ bytes))) [
        | inr (l, h) ↦ cc (rw (inject, h) at e)
        | inl (raw, h) ↦ elim (Result-cases (backend.set_state b raw).1) [
          | inl (u, t) ↦ (raw, h, rw (inject, h, t) refl, t)
          | inr (l, t) ↦ cc (rw (inject, h, t) at e)
        ]
      ]

module _ {F P B E : Type 0} (c : Primitives) (backend : InferenceBackend F B E) where
  -- An executor that does not fail at a task with a state has found that state sealed: it is a nonce
  -- of 12 bytes and what the encryption makes, with the executor's own cluster key, this nonce and the
  -- id of this very task as additional data, of data that decompresses to at most 256 MB. The
  -- backend, with its layers ensured, has taken exactly these decompressed bytes, and the layers of
  -- the task have run on what it then was.
  pub run_task-IsSealed :
      IsSound c
      → (x : Executor) (nonce : Bytes) (b b' : B) (task_id : String) (sequence_id : ℕ)
        (input_state : Bytes) (lo hi : ℕ) (tokens : List ℕ) (route : Option (RouteTicket P))
        (out : Option (SwarmMessage F P × Option (RouteTicket P)))
      → ¬ (input_state ≡ [])
      → run_task c backend x nonce b
          (process_task task_id sequence_id input_state lo hi tokens route)
        ≡ (b', ok out)
      → (raw : Bytes) × IsSealed c x.cluster_key task_id input_state raw
        × ((backend.set_state (backend.ensure_layers b lo hi).0 raw).1 ≡ ok tt)
        × (b'
            ≡ (backend.run_layers
                (backend.set_state (backend.ensure_layers b lo hi).0 raw).0
                lo
                hi
                tokens
                sequence_id).0)
  unfolding run_task compute_answer
  run_task-IsSealed sound x nonce b b' task_id sequence_id input_state lo hi tokens route out full
        e =
      let b₁ = (backend.ensure_layers b lo hi).0 in
      elim (Result-cases (backend.ensure_layers b lo hi).1) [
        | inr (l, h) ↦ cc (ap (λ p. p.1) (rw (run_task, h) at e))
        | inl (u, h) ↦ elim (Result-cases (inject c backend x b₁ task_id input_state).1) [
          | inr (l, t) ↦ cc (ap (λ p. p.1) (rw (run_task, h, t) at e))
          | inl (u', t) ↦
              let (raw, opened, injected, taken) =
                inject_inversion c backend x b₁ task_id input_state full t in
              (
                raw,
                open_state-IsSealed c sound x task_id input_state raw opened,
                taken,
                sym (ap (λ p. p.0) (rw (run_task, h, t) at e))
                    ∙ ap (λ q. (backend.run_layers q.0 lo hi tokens sequence_id).0) injected,
              )
        ]
      ]
