-- ===== src/Node/Order.antt =====
-- `sorted_by_capacity` returns the active nodes, best first.

use mathlib.Core.List.{Perm}
use mathlib.Core.List.Perm
use neural_swarm_ai.Common.{◌≡◌, true, false, Bool-cases, inl, inr, List, [], ◌∷◌, All, arith}
use neural_swarm_ai.Common.Texts.{is_gt}
use neural_swarm_ai.Float.{F32, IsIeee, ◌≼◌, IsUnit}
use neural_swarm_ai.Node.Registry.{NodeEntry, NodeRegistry, active_nodes}
use neural_swarm_ai.Node.Ranking.{compare_entries, insert_entry, sort_entries, sorted_by_capacity}
use neural_swarm_ai.Node.Invariant.{IsValid, active_nodes-IsUnit}

module _ {F : Type 0} ⦃f : F32 F⦄ where
  abbrev pub composite_of : NodeEntry F → F
  composite_of e = e.capacity.composite

  abbrev pub HasUnit : NodeEntry F → Type 0
  HasUnit e = IsUnit (composite_of e)

  abbrev pub IsBelow : F → List (NodeEntry F) → Type 0
  IsBelow c = All (λ e. composite_of e ≼ c)

  -- No entry has a larger composite than one before it.
  abbrev pub IsDescending : List (NodeEntry F) → Type 0
  IsDescending [] = Unit
  IsDescending (x ∷ xs) = IsBelow (composite_of x) xs × IsDescending xs

  pub All-insert_entry {κ} :
      (P : NodeEntry F → Type κ) (x : NodeEntry F) (ys : List (NodeEntry F))
      → P x
      → All P ys
      → All P (insert_entry x ys)
  unfolding insert_entry
  All-insert_entry P x [] p h = (p, tt)
  All-insert_entry P x (y ∷ ys) p h = elim (Bool-cases (is_gt (compare_entries x y))) [
    | inl e ↦ rw e (h.0, All-insert_entry P x ys p h.1)
    | inr e ↦ rw e (p, h)
  ]

  pub All-sort_entries {κ} :
      (P : NodeEntry F → Type κ) (xs : List (NodeEntry F)) → All P xs → All P (sort_entries xs)
  unfolding sort_entries
  All-sort_entries P [] h = tt
  All-sort_entries P (x ∷ xs) h =
      All-insert_entry P x (sort_entries xs) h.0 (All-sort_entries P xs h.1)

  insert_entry-perm :
      (x : NodeEntry F) (ys : List (NodeEntry F)) → Perm (insert_entry x ys) (x ∷ ys)
  unfolding insert_entry
  insert_entry-perm x [] = Perm.refl (x ∷ [])
  insert_entry-perm x (y ∷ ys) = elim (Bool-cases (is_gt (compare_entries x y))) [
    | inl e ↦ rw e (Perm.trans (Perm.cons y (insert_entry-perm x ys)) (Perm.swap x y ys))
    | inr e ↦ rw e (Perm.refl (x ∷ y ∷ ys))
  ]

  sort_entries-perm : (xs : List (NodeEntry F)) → Perm (sort_entries xs) xs
  unfolding sort_entries
  sort_entries-perm [] = Perm.refl []
  sort_entries-perm (x ∷ xs) =
      Perm.trans (insert_entry-perm x (sort_entries xs)) (Perm.cons x (sort_entries-perm xs))

  module _ (laws : IsIeee F) where
    open laws use {le_trans, le_total, num_of_le}

    -- What the comparison says of two composites that are numbers.
    compare_entries_le :
        (x y : NodeEntry F)
        → HasUnit x
        → HasUnit y
        → (is_gt (compare_entries x y) ≡ true → composite_of x ≼ composite_of y)
          × (is_gt (compare_entries x y) ≡ false → composite_of y ≼ composite_of x)
    unfolding compare_entries
    compare_entries_le x y u v =
        let nx = (num_of_le _ _ u.0).1 in
        let ny = (num_of_le _ _ v.0).1 in
        let total = le_total (composite_of x) (composite_of y) nx ny in ground arith

    IsBelow-trans : (c d : F) (xs : List (NodeEntry F)) → IsBelow c xs → c ≼ d → IsBelow d xs
    IsBelow-trans c d [] h k = tt
    IsBelow-trans c d (x ∷ xs) h k = (le_trans _ _ _ h.0 k, IsBelow-trans c d xs h.1 k)

    insert_entry-IsDescending :
        (x : NodeEntry F) (ys : List (NodeEntry F))
        → HasUnit x
        → All HasUnit ys
        → IsDescending ys
        → IsDescending (insert_entry x ys)
    unfolding insert_entry
    insert_entry-IsDescending x [] u us d = (tt, tt)
    insert_entry-IsDescending x (y ∷ ys) u us d =
        let order = compare_entries_le x y u us.0 in
        elim (Bool-cases (is_gt (compare_entries x y))) [
          | inl e ↦ rw e (
            All-insert_entry (λ z. composite_of z ≼ composite_of y) x ys (order.0 e) d.0,
            insert_entry-IsDescending x ys u us.1 d.1,
          )
          | inr e ↦ rw e ((order.1 e, IsBelow-trans _ _ ys d.0 (order.1 e)), d)
        ]

    sort_entries-IsDescending :
        (xs : List (NodeEntry F)) → All HasUnit xs → IsDescending (sort_entries xs)
    unfolding sort_entries
    sort_entries-IsDescending [] us = tt
    sort_entries-IsDescending (x ∷ xs) us =
        insert_entry-IsDescending x (sort_entries xs) us.0 (All-sort_entries HasUnit xs us.1)
          (sort_entries-IsDescending xs us.1)

    -- For a valid registry `sorted_by_capacity` lists exactly the nodes that can accept tasks, each
    -- as often as the registry holds it, by falling composite.
    pub sorted_by_capacity-IsDescending :
        (r : NodeRegistry F)
        → IsValid r
        → IsDescending (sorted_by_capacity r) × Perm (sorted_by_capacity r) (active_nodes r)
    unfolding sorted_by_capacity
    sorted_by_capacity-IsDescending r v = (
      sort_entries-IsDescending (active_nodes r) (active_nodes-IsUnit r v),
      sort_entries-perm (active_nodes r),
    )

  pub sorted_by_capacity-HasUnit :
      (r : NodeRegistry F) → IsValid r → All HasUnit (sorted_by_capacity r)
  unfolding sorted_by_capacity
  sorted_by_capacity-HasUnit r v =
      All-sort_entries HasUnit (active_nodes r) (active_nodes-IsUnit r v)
