-- ===== src/Node/Alike.antt =====
-- The ranking depends on ids, capacities and on who takes tasks: what changes none of these, such as
-- `assign_layers` of `src/node/registry.rs`, keeps it.
use neural_swarm_ai.Common.{
  ℕ, ◌≡◌, refl, ◌∙◌, Bool-cases, Option-cases, inl, inr, String, some, List, [], ◌∷◌, lookup,
  insert, arith, str_eq, if◌then◌else◌,
}
use mathlib.Core.Option.{some-injective}
use neural_swarm_ai.Common.Texts.{is_gt}
use neural_swarm_ai.Float.{F32}
use neural_swarm_ai.Node.State.{
  NodeState, can_accept_tasks, state_eq, can_transition_to, transition_to,
}
use neural_swarm_ai.Node.Registry.{
  NodeEntry, NodeRegistry, get, put, advance, nodes_with, active_nodes, with_layers, assign_layers,
}
use neural_swarm_ai.Node.Ranking.{compare_entries, insert_entry, sort_entries, sorted_by_capacity}

accepts_after :
    (s : NodeState)
    → can_accept_tasks (if state_eq s NodeState.ready then advance s NodeState.active else s)
      ≡ can_accept_tasks s
unfolding can_accept_tasks state_eq advance can_transition_to transition_to
accepts_after s = ground arith

module _ {F : Type 0} where
  -- Two entries that the ranking does not tell apart.
  pub record IsAlike (a b : NodeEntry F) : Type 0 where
    pub id : b.id ≡ a.id
    pub capacity : b.capacity ≡ a.capacity
    pub accepts : can_accept_tasks b.state ≡ can_accept_tasks a.state

  abbrev pub AreAlike : List (NodeEntry F) → List (NodeEntry F) → Type 0
  AreAlike [] [] = Unit
  AreAlike (x ∷ xs) (y ∷ ys) = IsAlike x y × AreAlike xs ys
  AreAlike [] (y ∷ ys) = ⊥
  AreAlike (x ∷ xs) [] = ⊥

  abbrev pub AreAlikeNodes : List (String × NodeEntry F) → List (String × NodeEntry F) → Type 0
  AreAlikeNodes [] [] = Unit
  AreAlikeNodes ((k, x) ∷ xs) ((j, y) ∷ ys) = IsAlike x y × AreAlikeNodes xs ys
  AreAlikeNodes [] (y ∷ ys) = ⊥
  AreAlikeNodes (x ∷ xs) [] = ⊥

  IsAlike-refl : (x : NodeEntry F) → IsAlike x x
  IsAlike-refl x = record { id = refl; capacity = refl; accepts = refl }

  pub AreAlikeNodes-refl : (m : List (String × NodeEntry F)) → AreAlikeNodes m m
  AreAlikeNodes-refl [] = tt
  AreAlikeNodes-refl ((k, x) ∷ m) = (IsAlike-refl x, AreAlikeNodes-refl m)

  pub AreAlikeNodes-trans :
      (l m n : List (String × NodeEntry F))
      → AreAlikeNodes l m
      → AreAlikeNodes m n
      → AreAlikeNodes l n
  AreAlikeNodes-trans [] [] [] h h' = tt
  AreAlikeNodes-trans ((i, x) ∷ l) ((j, y) ∷ m) ((k, z) ∷ n) (h, hs) (h', hs') = (
    record {
      id = h'.id ∙ h.id;
      capacity = h'.capacity ∙ h.capacity;
      accepts = h'.accepts ∙ h.accepts;
    },
    AreAlikeNodes-trans l m n hs hs',
  )
  AreAlikeNodes-trans [] [] (z ∷ n) h h' = h'
  AreAlikeNodes-trans [] (y ∷ m) n h h' = absurd h
  AreAlikeNodes-trans (x ∷ l) [] n h h' = absurd h
  AreAlikeNodes-trans (x ∷ l) (y ∷ m) [] h h' = absurd h'

  insert-AreAlike :
      (k : String) (x y : NodeEntry F) (m : List (String × NodeEntry F))
      → lookup k m ≡ some x
      → IsAlike x y
      → AreAlikeNodes m (insert k y m)
  unfolding lookup insert
  insert-AreAlike k x y [] h a = cc
  insert-AreAlike k x y ((j, z) ∷ m) h a = elim (Bool-cases (str_eq j k)) [
    | inl e ↦
        let same : z ≡ x = some-injective _ _ (rw e at h) in rw e (rw same a, AreAlikeNodes-refl m)
    | inr e ↦ rw e (IsAlike-refl z, insert-AreAlike k x y m (rw e at h) a)
  ]

  with_layers-IsAlike : (layers : List ℕ) (e : NodeEntry F) → IsAlike e (with_layers layers e)
  unfolding with_layers
  with_layers-IsAlike layers e = record {
    id = refl;
    capacity = refl;
    accepts = accepts_after e.state;
  }

  pub assign_layers-AreAlike :
      (r : NodeRegistry F) (id : String) (layers : List ℕ)
      → AreAlikeNodes r.nodes (assign_layers r id layers).0.nodes
  unfolding assign_layers put get
  assign_layers-AreAlike r id layers = elim (Option-cases (get r id)) [
    | inl e ↦ rw (e, assign_layers) (AreAlikeNodes-refl r.nodes)
    | inr (entry, e) ↦
        rw (e, assign_layers)
          (insert-AreAlike id entry _ r.nodes e (with_layers-IsAlike layers entry))
  ]

  nodes_with-AreAlike :
      (m n : List (String × NodeEntry F))
      → AreAlikeNodes m n
      → AreAlike (nodes_with can_accept_tasks m) (nodes_with can_accept_tasks n)
  unfolding nodes_with
  nodes_with-AreAlike [] [] h = tt
  nodes_with-AreAlike ((j, x) ∷ m) ((k, y) ∷ n) (h, hs) =
      elim (Bool-cases (can_accept_tasks x.state)) [
        | inl e ↦ rw (h.accepts, e) (h, nodes_with-AreAlike m n hs)
        | inr e ↦ rw (h.accepts, e) (nodes_with-AreAlike m n hs)
      ]
  nodes_with-AreAlike [] (y ∷ n) h = absurd h
  nodes_with-AreAlike (x ∷ m) [] h = absurd h

module _ {F : Type 0} ⦃f : F32 F⦄ where
  compare_entries-IsAlike :
      (a b x y : NodeEntry F)
      → IsAlike a x
      → IsAlike b y
      → compare_entries x y ≡ compare_entries a b
  unfolding compare_entries
  compare_entries-IsAlike a b x y h k = rw (h.id, k.id, h.capacity, k.capacity) refl

  insert_entry-AreAlike :
      (x y : NodeEntry F) (xs ys : List (NodeEntry F))
      → IsAlike x y
      → AreAlike xs ys
      → AreAlike (insert_entry x xs) (insert_entry y ys)
  unfolding insert_entry
  insert_entry-AreAlike x y [] [] h hs = (h, tt)
  insert_entry-AreAlike x y (a ∷ xs) (b ∷ ys) h (k, ks) =
      let same = compare_entries-IsAlike x a y b h k in
      elim (Bool-cases (is_gt (compare_entries x a))) [
        | inl e ↦ rw (same, e) (k, insert_entry-AreAlike x y xs ys h ks)
        | inr e ↦ rw (same, e) (h, (k, ks))
      ]
  insert_entry-AreAlike x y [] (b ∷ ys) h hs = absurd hs
  insert_entry-AreAlike x y (a ∷ xs) [] h hs = absurd hs

  sort_entries-AreAlike :
      (xs ys : List (NodeEntry F)) → AreAlike xs ys → AreAlike (sort_entries xs) (sort_entries ys)
  unfolding sort_entries
  sort_entries-AreAlike [] [] h = tt
  sort_entries-AreAlike (x ∷ xs) (y ∷ ys) (h, hs) =
      insert_entry-AreAlike x y (sort_entries xs) (sort_entries ys) h
        (sort_entries-AreAlike xs ys hs)
  sort_entries-AreAlike [] (y ∷ ys) h = absurd h
  sort_entries-AreAlike (x ∷ xs) [] h = absurd h

  pub sorted_by_capacity-AreAlike :
      (r r' : NodeRegistry F)
      → AreAlikeNodes r.nodes r'.nodes
      → AreAlike (sorted_by_capacity r) (sorted_by_capacity r')
  unfolding sorted_by_capacity active_nodes
  sorted_by_capacity-AreAlike r r' h =
      sort_entries-AreAlike _ _ (nodes_with-AreAlike r.nodes r'.nodes h)
