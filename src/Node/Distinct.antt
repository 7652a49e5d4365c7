-- ===== src/Node/Distinct.antt =====
-- The ranking lists each node under its own id, and no id twice.
use neural_swarm_ai.Common.{
  ◌≡◌, refl, sym, subst, Bool, true, false, Bool-cases, inl, inr, String, some, List, [], ◌∷◌, All,
  arith, str_eq, eq_iff, lookup, Absent, IsDistinct, Entries,
}
use neural_swarm_ai.Common.Texts.{is_gt}
use neural_swarm_ai.Float.{F32}
use neural_swarm_ai.Node.State.{NodeState, can_accept_tasks}
use neural_swarm_ai.Node.Registry.{NodeEntry, NodeRegistry, get, nodes_with, active_nodes}
use neural_swarm_ai.Node.Ranking.{compare_entries, insert_entry, sort_entries, sorted_by_capacity}
use neural_swarm_ai.Node.Invariant.{IsEntry, IsValid}
use neural_swarm_ai.Node.Order.{All-insert_entry, All-sort_entries}

pub str_eq_sym : (s t : String) → str_eq s t ≡ false → str_eq t s ≡ false
str_eq_sym s t h = ground (arith, eq_iff s t, eq_iff t s)

module _ {V : Type 0} where
  lookup_later :
      (k : String) (v : V) (m n : List (String × V))
      → Absent k n
      → Entries (λ j w. lookup j m ≡ some w) n
      → Entries (λ j w. lookup j ((k, v) ∷ m) ≡ some w) n
  unfolding lookup
  lookup_later k v m [] a h = tt
  lookup_later k v m ((j, w) ∷ n) a h = (rw (str_eq_sym j k a.0) h.0, lookup_later k v m n a.1 h.1)

  -- In a map with distinct keys each entry is found under its key.
  lookup_found : (m : List (String × V)) → IsDistinct m → Entries (λ j w. lookup j m ≡ some w) m
  unfolding lookup
  lookup_found [] d = tt
  lookup_found ((k, v) ∷ m) d =
      (rw ((eq_iff k k).1 refl), lookup_later k v m m d.0 (lookup_found m d.1))

module _ {F : Type 0} where
  -- No node of the list has the id.
  abbrev pub NoneIs : String → List (NodeEntry F) → Type 0
  NoneIs k = All (λ e. str_eq e.id k ≡ false)

  abbrev pub IdsDistinct : List (NodeEntry F) → Type 0
  IdsDistinct [] = Unit
  IdsDistinct (e ∷ es) = NoneIs e.id es × IdsDistinct es

  -- What the registry holds under the id of a node is that node, and its state passes the test.
  abbrev pub IsHeld : NodeRegistry F → (NodeState → Bool) → NodeEntry F → Type 0
  IsHeld r test e = (get r e.id ≡ some e) × (test e.state ≡ true)

module _ {F : Type 0} ⦃f : F32 F⦄ where
  NoneIs-nodes_with :
      (test : NodeState → Bool) (k : String) (m : List (String × NodeEntry F))
      → Entries IsEntry m
      → Absent k m
      → NoneIs k (nodes_with test m)
  unfolding nodes_with
  NoneIs-nodes_with test k [] h a = tt
  NoneIs-nodes_with test k ((j, e) ∷ m) h a =
      let other : str_eq e.id k ≡ false = subst (λ i. str_eq i k ≡ false) (sym h.0.under_id) a.0 in
      elim (Bool-cases (test e.state)) [
        | inl t ↦ rw t (other, NoneIs-nodes_with test k m h.1 a.1)
        | inr t ↦ rw t (NoneIs-nodes_with test k m h.1 a.1)
      ]

  IdsDistinct-nodes_with :
      (test : NodeState → Bool) (m : List (String × NodeEntry F))
      → Entries IsEntry m
      → IsDistinct m
      → IdsDistinct (nodes_with test m)
  unfolding nodes_with
  IdsDistinct-nodes_with test [] h d = tt
  IdsDistinct-nodes_with test ((j, e) ∷ m) h d =
      let others =
        subst (λ i. NoneIs i (nodes_with test m)) (sym h.0.under_id)
          (NoneIs-nodes_with test j m h.1 d.0) in
      elim (Bool-cases (test e.state)) [
        | inl t ↦ rw t (others, IdsDistinct-nodes_with test m h.1 d.1)
        | inr t ↦ rw t (IdsDistinct-nodes_with test m h.1 d.1)
      ]

  NoneIs-sym :
      (x : NodeEntry F) (ys : List (NodeEntry F))
      → NoneIs x.id ys
      → All (λ y. str_eq x.id y.id ≡ false) ys
  NoneIs-sym x [] h = tt
  NoneIs-sym x (y ∷ ys) h = (str_eq_sym y.id x.id h.0, NoneIs-sym x ys h.1)

  IdsDistinct-insert_entry :
      (x : NodeEntry F) (ys : List (NodeEntry F))
      → NoneIs x.id ys
      → IdsDistinct ys
      → IdsDistinct (insert_entry x ys)
  unfolding insert_entry
  IdsDistinct-insert_entry x [] h d = (tt, tt)
  IdsDistinct-insert_entry x (y ∷ ys) h d = elim (Bool-cases (is_gt (compare_entries x y))) [
    | inl e ↦ rw e (
      All-insert_entry (λ z. str_eq z.id y.id ≡ false) x ys (str_eq_sym y.id x.id h.0) d.0,
      IdsDistinct-insert_entry x ys h.1 d.1,
    )
    | inr e ↦ rw e (h, d)
  ]

  IdsDistinct-sort_entries :
      (xs : List (NodeEntry F)) → IdsDistinct xs → IdsDistinct (sort_entries xs)
  unfolding sort_entries
  IdsDistinct-sort_entries [] d = tt
  IdsDistinct-sort_entries (x ∷ xs) d =
      IdsDistinct-insert_entry x (sort_entries xs)
        (All-sort_entries (λ z. str_eq z.id x.id ≡ false) xs d.0) (IdsDistinct-sort_entries xs d.1)

  pub active_nodes-IdsDistinct : (r : NodeRegistry F) → IsValid r → IdsDistinct (active_nodes r)
  unfolding active_nodes
  active_nodes-IdsDistinct r v =
      IdsDistinct-nodes_with can_accept_tasks r.nodes v.entries v.distinct

  pub sorted_by_capacity-IdsDistinct :
      (r : NodeRegistry F) → IsValid r → IdsDistinct (sorted_by_capacity r)
  unfolding sorted_by_capacity
  sorted_by_capacity-IdsDistinct r v = IdsDistinct-sort_entries _ (active_nodes-IdsDistinct r v)

  IsHeld-nodes_with :
      (r : NodeRegistry F) (test : NodeState → Bool) (m : List (String × NodeEntry F))
      → Entries IsEntry m
      → Entries (λ j w. lookup j r.nodes ≡ some w) m
      → All (IsHeld r test) (nodes_with test m)
  unfolding nodes_with get
  IsHeld-nodes_with r test [] h l = tt
  IsHeld-nodes_with r test ((k, e) ∷ m) h l = elim (Bool-cases (test e.state)) [
    | inl t ↦ rw t (
      (subst (λ i. lookup i r.nodes ≡ some e) (sym h.0.under_id) l.0, t),
      IsHeld-nodes_with r test m h.1 l.1,
    )
    | inr t ↦ rw t (IsHeld-nodes_with r test m h.1 l.1)
  ]

  pub sorted_by_capacity-IsHeld :
      (r : NodeRegistry F) → IsValid r → All (IsHeld r can_accept_tasks) (sorted_by_capacity r)
  unfolding sorted_by_capacity active_nodes
  sorted_by_capacity-IsHeld r v =
      All-sort_entries _ _
        (IsHeld-nodes_with r can_accept_tasks r.nodes v.entries (lookup_found r.nodes v.distinct))
