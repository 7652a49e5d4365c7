-- ===== src/Node/Lifecycle.antt =====
-- The transitions of `src/node/state.rs` against the diagram there, and along sequences of them.
use neural_swarm_ai.Common.{true, false, Bool-cases, ok, err, ◌≡◌, ◌↔◌, ◌⊎◌, inl, inr, refl, arith}
use neural_swarm_ai.Node.State.{
  NodeState, invalid_transition, can_transition_to, transition_to, can_accept_tasks, is_alive,
}

-- The arrows of the diagram.
infix 40 ◌⟶◌
pub data ◌⟶◌ : NodeState → NodeState → Type 0 where
  handshake_complete : NodeState.joining ⟶ NodeState.ready
  layers_assigned : NodeState.ready ⟶ NodeState.active
  leave_early : NodeState.ready ⟶ NodeState.draining
  degraded : NodeState.active ⟶ NodeState.degraded
  recovered : NodeState.degraded ⟶ NodeState.active
  drained : NodeState.active ⟶ NodeState.draining
  timed_out : NodeState.degraded ⟶ NodeState.draining
  tasks_complete : NodeState.draining ⟶ NodeState.left

-- An arrow, or the one transition that the diagram does not show.
abbrev pub IsAllowed : NodeState → NodeState → Type 0
IsAllowed s t = (s ⟶ t) ⊎ ((s ≡ NodeState.joining) × (t ≡ NodeState.left))

ruleset arrows = (
  handshake_complete, layers_assigned, leave_early, degraded, recovered, drained, timed_out,
  tasks_complete, inl, inr,
)

IsAllowed-can : (s t : NodeState) → can_transition_to s t ≡ true → IsAllowed s t
unfolding can_transition_to
IsAllowed-can NodeState.joining NodeState.left h = inr (refl, refl)
IsAllowed-can s t h = inl (grind (arith, arrows))

can-IsAllowed : {s t : NodeState} → IsAllowed s t → can_transition_to s t ≡ true
unfolding can_transition_to
can-IsAllowed (inl handshake_complete) = refl
can-IsAllowed (inl layers_assigned) = refl
can-IsAllowed (inl leave_early) = refl
can-IsAllowed (inl degraded) = refl
can-IsAllowed (inl recovered) = refl
can-IsAllowed (inl drained) = refl
can-IsAllowed (inl timed_out) = refl
can-IsAllowed (inl tasks_complete) = refl
can-IsAllowed (inr (s, t)) = rw (s, t) refl

-- `transition_to` returns its target exactly along an arrow of the diagram in the source, and from
-- Joining to Left, which that diagram does not show; everywhere else it returns the error that names
-- both states.
pub transition_to_iff :
    (s t : NodeState)
    → ((transition_to s t ≡ ok t) ↔ IsAllowed s t)
      × ((transition_to s t ≡ err (invalid_transition s t)) ↔ ¬ IsAllowed s t)
unfolding transition_to
transition_to_iff s t = elim (Bool-cases (can_transition_to s t)) [
  | inl e ↦
      let allowed = IsAllowed-can s t e in
      rw e ((λ _. allowed, λ _. refl), (λ h. cc, λ n. absurd (n allowed)))
  | inr e ↦
      let stuck : ¬ IsAllowed s t = λ a. cc (can-IsAllowed a) in
      rw e ((λ h. cc, λ a. absurd (stuck a)), (λ _. stuck, λ _. refl))
]

-- A sequence of transitions that `transition_to` allows.
pub data Reaches : NodeState → NodeState → Type 0 where
  here : {s : NodeState} → Reaches s s
  then : {s t u : NodeState} → transition_to s t ≡ ok t → Reaches t u → Reaches s u

-- A node on its way out: it drains or has left.
abbrev pub IsLeaving : NodeState → Type 0
IsLeaving s = (s ≡ NodeState.draining) ⊎ (s ≡ NodeState.left)

pub IsLeaving-can : (s t : NodeState) → can_transition_to s t ≡ true → IsLeaving s → IsLeaving t
unfolding can_transition_to
IsLeaving-can s t e h = grind arith

transition_to_ok : (s t : NodeState) → transition_to s t ≡ ok t → can_transition_to s t ≡ true
unfolding transition_to
transition_to_ok s t e = elim (Bool-cases (can_transition_to s t)) [
  | inl c ↦ c
  | inr c ↦ cc (rw c at e)
]

IsLeaving-Reaches : {s t : NodeState} → Reaches s t → IsLeaving s → IsLeaving t
IsLeaving-Reaches here h = h
IsLeaving-Reaches (then e r) h = IsLeaving-Reaches r (IsLeaving-can _ _ (transition_to_ok _ _ e) h)

-- Along any sequence of transitions that `transition_to` allows, a node that drains or has left goes
-- on to drain or to have left, and `can_accept_tasks` is false of it.
IsLeaving-is_final :
    {s t : NodeState} → Reaches s t → IsLeaving s → IsLeaving t × (can_accept_tasks t ≡ false)
unfolding can_accept_tasks
IsLeaving-is_final r h = let l = IsLeaving-Reaches r h in (l, ground arith)

left_stays : {s t : NodeState} → Reaches s t → s ≡ NodeState.left → t ≡ NodeState.left
unfolding transition_to can_transition_to
left_stays here h = h
left_stays (then e r) h = cc (rw h at e)

-- From every state a sequence of transitions that `transition_to` allows leads out of the swarm, none
-- leads back in, and exactly a node that is out is not alive.
pub Reaches-left :
    (s : NodeState)
    → Reaches s NodeState.left
      × ((t : NodeState) → Reaches NodeState.left t ↔ (t ≡ NodeState.left))
      × ((is_alive s ≡ false) ↔ (s ≡ NodeState.left))
unfolding is_alive transition_to can_transition_to
Reaches-left s = (way_out s, (λ t. ((λ r. left_stays r refl), λ e. rw e here)), dead s)
  where
    way_out : (s : NodeState) → Reaches s NodeState.left
    way_out NodeState.joining = then refl here
    way_out NodeState.ready = then {t = NodeState.draining} refl (then refl here)
    way_out NodeState.active = then {t = NodeState.draining} refl (then refl here)
    way_out NodeState.degraded = then {t = NodeState.draining} refl (then refl here)
    way_out NodeState.draining = then refl here
    way_out NodeState.left = here

    dead : (s : NodeState) → (is_alive s ≡ false) ↔ (s ≡ NodeState.left)
    dead s = ground arith
