-- ===== src/Pipeline/Route.antt =====
-- A sequence goes through the stages in their order and then ends.
use neural_swarm_ai.Common.{
  ℕ, zero, suc, ◌+◌, ◌≡◌, refl, ==_iff, String, Option, none, some, List, [], ◌∷◌, length,
  get_elem?, drop, arith, lookup, insert, remove, lookup-insert, lookup-remove, IsDistinct,
  IsDistinct-insert, eq_iff,
}
use neural_swarm_ai.Protocol.{Bytes, task_result}
use neural_swarm_ai.Pipeline.Stages.{
  SequenceState, PipelineResult, next_stage, finished, InferencePipeline, new_sequence, task_for,
  start_sequence, advance_sequence, handle_task_result,
}

-- A stage's answer: the state that it sends back, its logits, and the layers that the caller names
-- for the next stage.
pub record Answer (F : Type 0) : Type 0 where
  pub output_state : Bytes
  pub logits : List F
  pub layers : ℕ × ℕ

pub get_elem?_of_drop {ℓ} :
    {A : Type ℓ} (n : ℕ) (xs ys : List A) (y : A)
    → drop n xs ≡ y ∷ ys
    → (get_elem? xs n ≡ some y) × (drop (suc n) xs ≡ ys)
get_elem?_of_drop zero [] ys y h = cc
get_elem?_of_drop zero (x ∷ xs) ys y h = (cc, cc)
get_elem?_of_drop (suc n) [] ys y h = cc
get_elem?_of_drop (suc n) (x ∷ xs) ys y h = get_elem?_of_drop n xs ys y h

pub get_elem?_of_drop_nil {ℓ} :
    {A : Type ℓ} (n : ℕ) (xs : List A) → drop n xs ≡ [] → get_elem? xs n ≡ none
get_elem?_of_drop_nil zero [] h = refl
get_elem?_of_drop_nil zero (x ∷ xs) h = cc
get_elem?_of_drop_nil (suc n) [] h = refl
get_elem?_of_drop_nil (suc n) (x ∷ xs) h = get_elem?_of_drop_nil n xs h

-- The sequence is at the stage with this index, and these stages lie ahead.
pub record IsAt {P : Type 0} (p : InferencePipeline P) (task_id : String) (st : SequenceState)
    (ahead : List P) : Type 0 where
  pub running : lookup task_id p.active_sequences ≡ some st
  pub distinct : IsDistinct p.active_sequences
  pub stages_ahead : drop (suc st.current_node_index) p.pipeline_stages ≡ ahead

module _ {F P : Type 0} where
  -- The results of one sequence, handled in turn.
  unfoldable pub feed :
      InferencePipeline P
      → String
      → ℕ
      → List (Answer F)
      → InferencePipeline P × List (Option (PipelineResult F P))
  feed p task_id sequence_id [] = (p, [])
  feed p task_id sequence_id (a ∷ rest) =
      let (p', out) =
        handle_task_result p (task_result task_id sequence_id a.output_state a.logits) a.layers in
      let (q, outs) = feed p' task_id sequence_id rest in (q, out ∷ outs)

  -- The specification: each answer goes on to the next stage with the state just answered and a
  -- ticket that names the stage, and the answer of the last stage ends the sequence.
  abbrev pub itinerary :
      String
      → ℕ
      → List ℕ
      → List P
      → ℕ
      → List P
      → List (Answer F)
      → List (Option (PipelineResult F P))
  itinerary task_id sequence_id tokens stages index ahead [] = []
  itinerary task_id sequence_id tokens stages index [] (a ∷ rest) = some (finished a.logits) ∷ []
  itinerary task_id sequence_id tokens stages index (peer ∷ ahead) (a ∷ rest) =
      some (
        next_stage peer
          (task_for task_id sequence_id a.output_state a.layers tokens stages (index + 1)))
      ∷ itinerary task_id sequence_id tokens stages (index + 1) ahead rest

  pub handle_next :
      (p : InferencePipeline P) (task_id : String) (st : SequenceState) (peer : P) (ahead : List P)
      (a : Answer F)
      → IsAt p task_id st (peer ∷ ahead)
      → let st' = record st { current_node_index = st.current_node_index + 1 } in
        let p' = record p { active_sequences = insert task_id st' p.active_sequences } in
        (handle_task_result p (task_result task_id st.sequence_id a.output_state a.logits) a.layers
          ≡ (
            p',
            some (
                next_stage peer (
                  task_for task_id st.sequence_id a.output_state a.layers st.tokens
                    p.pipeline_stages
                    (st.current_node_index + 1))),
          ))
        × IsAt p' task_id st' ahead
  unfolding handle_task_result
  handle_next p task_id st peer ahead a at =
      let i = st.current_node_index in
      let one : i + 1 ≡ suc i = omega arith in
      let (found, later) = get_elem?_of_drop (suc i) p.pipeline_stages ahead peer at.stages_ahead in
      let at_next : get_elem? p.pipeline_stages (i + 1) ≡ some peer = rw one found in
      (
        rw (at.running, handle_task_result, (==_iff st.sequence_id st.sequence_id).1 refl)
            (rw (at_next, advance_sequence)),
        record {
          running = rw lookup-insert (rw ((eq_iff task_id task_id).1 refl));
          distinct = IsDistinct-insert task_id _ p.active_sequences at.distinct;
          stages_ahead = rw one later;
        },
      )

  pub handle_last :
      (p : InferencePipeline P) (task_id : String) (st : SequenceState) (a : Answer F)
      → IsAt p task_id st []
      → handle_task_result p (task_result task_id st.sequence_id a.output_state a.logits) a.layers
        ≡ (
          record p { active_sequences = remove task_id p.active_sequences },
          some (finished a.logits),
        )
  unfolding handle_task_result
  handle_last p task_id st a at =
      let i = st.current_node_index in
      let one : i + 1 ≡ suc i = omega arith in
      let off_end : get_elem? p.pipeline_stages (i + 1) ≡ none =
        rw one (get_elem?_of_drop_nil (suc i) p.pipeline_stages at.stages_ahead) in
      rw (at.running, handle_task_result, (==_iff st.sequence_id st.sequence_id).1 refl)
        (rw (off_end, advance_sequence))

  feed-itinerary :
      (answers : List (Answer F)) (p : InferencePipeline P) (task_id : String) (st : SequenceState)
      (ahead : List P)
      → IsAt p task_id st ahead
      → length answers ≡ length ahead + 1
      → ((feed p task_id st.sequence_id answers).1
          ≡ itinerary task_id st.sequence_id st.tokens p.pipeline_stages st.current_node_index ahead
              answers)
        × (lookup task_id (feed p task_id st.sequence_id answers).0.active_sequences ≡ none)
  unfolding feed
  feed-itinerary [] p task_id st ahead at n = absurd (omega arith)
  feed-itinerary (a ∷ []) p task_id st [] at n =
      rw (handle_last p task_id st a at, feed)
        (
          refl,
          rw (lookup-remove task_id task_id p.active_sequences at.distinct)
              (rw ((eq_iff task_id task_id).1 refl)),
        )
  feed-itinerary (a ∷ b ∷ rest) p task_id st [] at n = absurd (omega arith)
  feed-itinerary (a ∷ rest) p task_id st (peer ∷ ahead) at n =
      let (step, at') = handle_next p task_id st peer ahead a at in
      let ih = feed-itinerary rest _ task_id _ ahead at' (omega arith) in
      rw (step, feed) (rw (ih.0), ih.1)

  -- A sequence that starts in a pipeline of n stages and is answered n times visits the stages in
  -- their order, each with the state that the stage before it sent back and with a ticket of its
  -- own index; the n-th answer ends it with that answer's logits, and the pipeline forgets it. The
  -- first task goes to the first stage.
  pub start_sequence-itinerary :
      (running : List (String × SequenceState)) (first : P) (ahead : List P) (sequence_id : ℕ)
      (task_id : String) (tokens : List ℕ) (initial_state : Bytes) (layers : ℕ × ℕ)
      (answers : List (Answer F))
      → IsDistinct running
      → length answers ≡ length ahead + 1
      → let p : InferencePipeline P = record {
        active_sequences = running;
        pipeline_stages = first ∷ ahead;
      } in
        let (p', task) = start_sequence p sequence_id task_id tokens initial_state layers in
        let (q, outs) = feed p' task_id sequence_id answers in
        (task
          ≡ some (
            first,
            task_for {F = F} task_id sequence_id initial_state layers tokens (first ∷ ahead) 0,
          ))
        × (outs ≡ itinerary task_id sequence_id tokens (first ∷ ahead) 0 ahead answers)
        × (lookup task_id q.active_sequences ≡ none)
  unfolding start_sequence
  start_sequence-itinerary running first ahead sequence_id task_id tokens initial_state layers
        answers d n =
      let st = new_sequence sequence_id task_id tokens in
      let started : InferencePipeline P = record {
        active_sequences = insert task_id st running;
        pipeline_stages = first ∷ ahead;
      } in
      let at : IsAt started task_id st ahead = record {
        running = rw lookup-insert (rw ((eq_iff task_id task_id).1 refl));
        distinct = IsDistinct-insert task_id _ running d;
        stages_ahead = refl;
      } in
      let whole = feed-itinerary answers started task_id st ahead at n in (refl, whole.0, whole.1)
