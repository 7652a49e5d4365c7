-- ===== src/Swarm/Tasks.antt =====
-- A task for the layers of a stage, run by its node: it comes to the visit of the stage, sealed.
use neural_swarm_ai.Common.{
  ℕ, ◌≡◌, refl, ap, ◌∙◌, true, String, Option, List, [], ◌∷◌, arith, Result, ok, err, map_err,
  ◌>>=◌, Result-cases, inl, inr,
}
use neural_swarm_ai.Float.{F32}
use neural_swarm_ai.Protocol.{Bytes, RouteTicket, SwarmMessage, process_task, task_result}
use neural_swarm_ai.Crypto.Primitives.{Primitives}
use neural_swarm_ai.Executor.Backend.{InferenceBackend}
use neural_swarm_ai.Executor.Tasks.{
  Executor, TaskError, crypto_error, backend_error, seal_state, inject, compute_answer, attach,
  run_task,
}
use neural_swarm_ai.Model.Tensors.{Candle}
use neural_swarm_ai.Model.Backend.{
  CandleBackend, Storage, candle_backend, is_loaded, load_layer_range, set_state, get_state,
  run_layers, layer_input, run_input, finish, take_state,
}
use neural_swarm_ai.Model.Chain.{visit}

module _ {F B E P : Type 0} (p : Primitives) (backend : InferenceBackend F B E) where
  -- The message, or the error, that a node makes of what its layers gave.
  abbrev pub sealed_answer :
      Executor
      → Bytes
      → String
      → ℕ
      → Result E (Bytes × List F)
      → Result (TaskError E) (SwarmMessage F P)
  sealed_answer x nonce task_id sequence_id (err e) = err (backend_error e)
  sealed_answer x nonce task_id sequence_id (ok (raw, logits)) = do
    sealed ← map_err crypto_error (seal_state p x nonce task_id raw)
    ok (task_result task_id sequence_id sealed logits)

  answer_of_run :
      (x : Executor) (nonce : Bytes) (task_id : String) (sequence_id : ℕ) (ran : Result E (List F))
      (got : Result E Bytes)
      → (do
        logits ← map_err backend_error ran
        raw ← map_err backend_error got
        sealed ← map_err crypto_error (seal_state p x nonce task_id raw)
        ok (task_result task_id sequence_id sealed logits))
        ≡ sealed_answer x nonce task_id sequence_id
            (do logits ← ran; state ← got; ok (state, logits))
  answer_of_run x nonce task_id sequence_id (err e) got = refl
  answer_of_run x nonce task_id sequence_id (ok logits) (err e) = refl
  answer_of_run x nonce task_id sequence_id (ok logits) (ok raw) = refl

  module _ (x : Executor) (nonce : Bytes) (b b₁ b₂ : B) (task_id : String) (sequence_id lo hi : ℕ)
      (tokens : List ℕ) (sealed : Bytes) (route : Option (RouteTicket P))
      (ready : backend.ensure_layers b lo hi ≡ (b₁, ok tt)) where
    run_task_refused :
        (e : TaskError E)
        → inject p backend x b₁ task_id sealed ≡ (b₂, err e)
        → run_task p backend x nonce b (process_task task_id sequence_id sealed lo hi tokens route)
          ≡ (b₂, err e)
    unfolding run_task
    run_task_refused e given = rw (ready, run_task, ready, given, ready, given) refl

    run_task_answers :
        inject p backend x b₁ task_id sealed ≡ (b₂, ok tt)
        → let (b₃, ran) = backend.run_layers b₂ lo hi tokens sequence_id in
          run_task p backend x nonce b (process_task task_id sequence_id sealed lo hi tokens route)
          ≡ (
            b₃,
            attach p backend route (
                sealed_answer x nonce task_id sequence_id
                  (do logits ← ran; state ← backend.get_state b₃; ok (state, logits))),
          )
    unfolding run_task compute_answer
    run_task_answers given =
        let (b₃, ran) = backend.run_layers b₂ lo hi tokens sequence_id in
        rw (ready, run_task, ready, given, ready, given, compute_answer)
          (ap (λ r. (b₃, attach p backend route r))
            (answer_of_run x nonce task_id sequence_id ran (backend.get_state b₃)))

module _ {T Q M N B V F E : Type 0} ⦃f : F32 F⦄ (c : Candle T Q M N B F E)
    (s : Storage Q V F E) where
  visit_given :
      (b b₁ : CandleBackend T M N B) (raw : Bytes) (lo hi : ℕ) (tokens : List ℕ) (sequence_id : ℕ)
      → set_state c s b raw ≡ (b₁, ok tt)
      → let (b₂, ran) = run_layers c s b₁ lo hi tokens sequence_id in
        visit c s b raw lo hi tokens sequence_id
        ≡ (b₂, do logits ← ran; state ← get_state c s b₂; ok (state, logits))
  unfolding visit
  visit_given b b₁ raw lo hi tokens sequence_id h = rw (h, visit, h) refl

  visit_refused :
      (b b₁ : CandleBackend T M N B) (raw : Bytes) (lo hi : ℕ) (tokens : List ℕ) (sequence_id : ℕ)
      (e : E)
      → set_state c s b raw ≡ (b₁, err e)
      → visit c s b raw lo hi tokens sequence_id ≡ (b₁, err e)
  unfolding visit
  visit_refused b b₁ raw lo hi tokens sequence_id e h = rw (h, visit, h) refl

  -- Taking a state and running layers keep the slice that is loaded.
  set_state-loaded :
      (b : CandleBackend T M N B) (raw : Bytes) (lo hi : ℕ)
      → is_loaded b lo hi ≡ true
      → is_loaded (set_state c s b raw).0 lo hi ≡ true
  unfolding set_state
  set_state-loaded b [] lo hi h = h
  set_state-loaded b (byte ∷ bytes) lo hi h = ground arith

  run_layers-loaded :
      (b : CandleBackend T M N B) (l m : ℕ) (tokens : List ℕ) (sequence_id lo hi : ℕ)
      → is_loaded b lo hi ≡ true
      → is_loaded (run_layers c s b l m tokens sequence_id).0 lo hi ≡ true
  unfolding run_layers layer_input run_input finish take_state
  run_layers-loaded b l m tokens sequence_id lo hi h = ground arith

  pub visit-loaded :
      (b : CandleBackend T M N B) (raw : Bytes) (l m : ℕ) (tokens : List ℕ) (sequence_id lo hi : ℕ)
      → is_loaded b lo hi ≡ true
      → is_loaded (visit c s b raw l m tokens sequence_id).0 lo hi ≡ true
  visit-loaded b raw l m tokens sequence_id lo hi h =
      let b₁ = (set_state c s b raw).0 in
      elim (Result-cases (set_state c s b raw).1) [
        | inr (er, k) ↦
            rw (visit_refused b b₁ raw l m tokens sequence_id er (rw (← k) refl))
              (set_state-loaded b raw lo hi h)
        | inl (u, k) ↦
            rw (visit_given b b₁ raw l m tokens sequence_id (rw (← k) refl))
              (run_layers-loaded b₁ l m tokens sequence_id lo hi (set_state-loaded b raw lo hi h))
      ]

  -- A node that holds the layers that a task asks for loads nothing.
  pub load_layer_range_loaded :
      (b : CandleBackend T M N B) (lo hi : ℕ)
      → is_loaded b lo hi ≡ true
      → load_layer_range c s b lo hi ≡ (b, ok tt)
  unfolding load_layer_range
  load_layer_range_loaded b lo hi h = rw (h, load_layer_range) refl

module _ {T Q M N B V F E P : Type 0} ⦃f : F32 F⦄ (p : Primitives) (c : Candle T Q M N B F E)
    (s : Storage Q V F E) where
  -- A task whose state opens to these bytes comes to the visit of a stage that is given them.
  pub run_task-visit :
      (x : Executor) (nonce : Bytes) (b b₁ : CandleBackend T M N B) (task_id : String)
      (sequence_id lo hi : ℕ) (tokens : List ℕ) (sealed raw : Bytes)
      (route : Option (RouteTicket P))
      → load_layer_range c s b lo hi ≡ (b₁, ok tt)
      → inject p (candle_backend c s) x b₁ task_id sealed
        ≡ ((set_state c s b₁ raw).0, map_err backend_error (set_state c s b₁ raw).1)
      → let (b₂, out) = visit c s b₁ raw lo hi tokens sequence_id in
        run_task p
          (candle_backend c s)
          x
          nonce
          b
          (process_task task_id sequence_id sealed lo hi tokens route)
        ≡ (
          b₂,
          attach p
              (candle_backend c s)
              route
              (sealed_answer p (candle_backend c s) x nonce task_id sequence_id out),
        )
  run_task-visit x nonce b b₁ task_id sequence_id lo hi tokens sealed raw route ready opened =
      let b₂ = (set_state c s b₁ raw).0 in
      elim (Result-cases (set_state c s b₁ raw).1) [
        | inr (er, h) ↦
            rw (visit_refused c s b₁ b₂ raw lo hi tokens sequence_id er (rw (← h) refl)) (
              run_task_refused p (candle_backend c s) x nonce b b₁ b₂ task_id sequence_id lo hi
                tokens sealed route ready (backend_error er) (opened ∙ rw h refl))
        | inl (u, h) ↦ rw (visit_given c s b₁ b₂ raw lo hi tokens sequence_id (rw (← h) refl)) (
            run_task_answers p (candle_backend c s) x nonce b b₁ b₂ task_id sequence_id lo hi tokens
              sealed route ready (opened ∙ rw h refl))
      ]
