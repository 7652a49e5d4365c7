-- ===== src/Node/Permuted.antt =====
-- The ranking does not depend on the order in which a `HashMap` iterates: `sorted_by_capacity` of
-- `src/node/registry.rs` breaks ties of the capacity by the id.
use Prim.Native.Nat.{Ordering}
use Prim.Native.String.{compare}
use mathlib.Core.List.{Permᴰ}
use mathlib.Core.List.Permᴰ
use mathlib.Core.Bool.{false≢true}
use text.Mathlib.TextEquality.{path_by_compare}
use neural_swarm_ai.Common.{
  Bool, ◌≡◌, refl, sym, subst, ◌∙◌, true, false, Bool-cases, inl, inr, String, List, [], ◌∷◌, All,
  arith, str_eq, eq_iff, if◌then◌else◌,
}
use neural_swarm_ai.Common.Texts.{is_gt, compare-reverse, compare_trans}
use neural_swarm_ai.Float.{F32, IsIeee}
use neural_swarm_ai.Node.State.{NodeState, can_accept_tasks}
use neural_swarm_ai.Node.Registry.{NodeEntry, NodeRegistry, nodes_with, active_nodes}
use neural_swarm_ai.Node.Ranking.{compare_entries, insert_entry, sort_entries, sorted_by_capacity}
use neural_swarm_ai.Node.Invariant.{IsValid, active_nodes-IsUnit}
use neural_swarm_ai.Node.Order.{HasUnit, composite_of, All-sort_entries}
use neural_swarm_ai.Node.Distinct.{IdsDistinct, str_eq_sym, active_nodes-IdsDistinct}

module _ {F : Type 0} ⦃f : F32 F⦄ (laws : IsIeee F) where
  open laws use {le_trans, le_total, num_of_le}

  -- `x` comes behind `y`.
  abbrev Behind : NodeEntry F → NodeEntry F → Type 0
  Behind x y = is_gt (compare_entries x y) ≡ true

  abbrev NotBehind : NodeEntry F → NodeEntry F → Type 0
  NotBehind x y = is_gt (compare_entries x y) ≡ false

  NotBehind-of_Behind : (x y : NodeEntry F) → HasUnit x → HasUnit y → Behind x y → NotBehind y x
  unfolding compare_entries
  NotBehind-of_Behind x y u v h =
      let nx = (num_of_le _ _ u.0).1 in
      let ny = (num_of_le _ _ v.0).1 in
      let total = le_total (composite_of x) (composite_of y) nx ny in
      let back = compare-reverse x.id y.id in ground arith

  NotBehind-trans :
      (x y z : NodeEntry F)
      → HasUnit x
      → HasUnit y
      → HasUnit z
      → NotBehind x y
      → NotBehind y z
      → NotBehind x z
  unfolding compare_entries
  NotBehind-trans x y z u v w h k =
      let nx = (num_of_le _ _ u.0).1 in
      let ny = (num_of_le _ _ v.0).1 in
      let nz = (num_of_le _ _ w.0).1 in
      let xy = le_total (composite_of x) (composite_of y) nx ny in
      let yz = le_total (composite_of y) (composite_of z) ny nz in
      let xz = le_total (composite_of x) (composite_of z) nx nz in
      let down = le_trans (composite_of z) (composite_of y) (composite_of x) in
      let up = le_trans (composite_of x) (composite_of y) (composite_of z) in
      let up' = le_trans (composite_of y) (composite_of x) (composite_of z) in
      let up'' = le_trans (composite_of x) (composite_of z) (composite_of y) in
      let texts = compare_trans x.id y.id z.id in ground arith

  -- Neither of two entries is behind the other only if they have one id.
  same_id :
      (x y : NodeEntry F)
      → HasUnit x
      → HasUnit y
      → NotBehind x y
      → NotBehind y x
      → compare x.id y.id ≡ Ordering.eq
  unfolding compare_entries
  same_id x y u v h k =
      let nx = (num_of_le _ _ u.0).1 in
      let ny = (num_of_le _ _ v.0).1 in
      let total = le_total (composite_of x) (composite_of y) nx ny in
      let back = compare-reverse x.id y.id in ground arith

  one_of_two :
      (x y : NodeEntry F)
      → HasUnit x
      → HasUnit y
      → str_eq x.id y.id ≡ false
      → NotBehind x y
      → Behind y x
  one_of_two x y u v apart h = elim (Bool-cases (is_gt (compare_entries y x))) [
    | inl e ↦ e
    | inr e ↦
        let same = (eq_iff x.id y.id).1 (path_by_compare x.id y.id (same_id x y u v h e)) in
        absurd (false≢true (sym apart ∙ same))
  ]

  -- What is behind `x` is behind all that `x` is not behind.
  Behind-trans :
      (x y z : NodeEntry F)
      → HasUnit x
      → HasUnit y
      → HasUnit z
      → Behind x z
      → NotBehind y z
      → Behind x y
  Behind-trans x y z u v w h k = elim (Bool-cases (is_gt (compare_entries x y))) [
    | inl e ↦ e
    | inr e ↦ absurd (false≢true (sym (NotBehind-trans x y z u v w e k) ∙ h))
  ]

  insert_entry_comm :
      (x y : NodeEntry F) (zs : List (NodeEntry F))
      → HasUnit x
      → HasUnit y
      → All HasUnit zs
      → str_eq x.id y.id ≡ false
      → insert_entry x (insert_entry y zs) ≡ insert_entry y (insert_entry x zs)
  unfolding insert_entry
  insert_entry_comm x y [] u v ws apart = elim (Bool-cases (is_gt (compare_entries x y))) [
    | inl e ↦ rw (e, NotBehind-of_Behind x y u v e) refl
    | inr e ↦ rw (e, one_of_two x y u v apart e) refl
  ]
  insert_entry_comm x y (z ∷ zs) u v (w, ws) apart =
      let ih = insert_entry_comm x y zs u v ws apart in
      let back = NotBehind-of_Behind x y u v in
      let other = one_of_two x y u v apart in
      let down = Behind-trans x y z u v w in
      let up = Behind-trans y x z v u w in let front = NotBehind-of_Behind y x v u in ground arith

module _ {F : Type 0} ⦃f : F32 F⦄ where
  -- What the ranking needs: composites in the unit interval, and no id twice.
  abbrev IsRankable : List (NodeEntry F) → Type 0
  IsRankable xs = All HasUnit xs × IdsDistinct xs

  All-Perm {κ} :
      (P : NodeEntry F → Type κ) {xs ys : List (NodeEntry F)} → Permᴰ xs ys → All P xs → All P ys
  All-Perm P Permᴰ.nil h = h
  All-Perm P (Permᴰ.cons e p) h = (subst P e h.0, All-Perm P p h.1)
  All-Perm P (Permᴰ.swap e e') h = (subst P e' h.1.0, (subst P e h.0, h.1.1))
  All-Perm P (Permᴰ.trans p q) h = All-Perm P q (All-Perm P p h)

  IdsDistinct-Perm : {xs ys : List (NodeEntry F)} → Permᴰ xs ys → IdsDistinct xs → IdsDistinct ys
  IdsDistinct-Perm Permᴰ.nil h = h
  IdsDistinct-Perm (Permᴰ.cons e p) h = (rw (← e) (All-Perm _ p h.0), IdsDistinct-Perm p h.1)
  IdsDistinct-Perm (Permᴰ.swap {a} {b} {a'} {b'} {l} e e') h =
      subst (λ z. IdsDistinct (z ∷ b' ∷ l)) e'
        (subst (λ z. IdsDistinct (b ∷ z ∷ l)) e
          ((str_eq_sym b.id a.id h.0.0, h.1.0), (h.0.1, h.1.1)))
  IdsDistinct-Perm (Permᴰ.trans p q) h = IdsDistinct-Perm q (IdsDistinct-Perm p h)

  module _ (laws : IsIeee F) where
    sort_entries-Perm :
        {xs ys : List (NodeEntry F)}
        → Permᴰ xs ys
        → IsRankable xs
        → sort_entries xs ≡ sort_entries ys
    unfolding sort_entries
    sort_entries-Perm Permᴰ.nil h = refl
    sort_entries-Perm (Permᴰ.cons e p) (us, ds) = rw (e, sort_entries-Perm p (us.1, ds.1)) refl
    sort_entries-Perm (Permᴰ.swap {a} {b} {a'} {b'} {l} e e') (us, ds) =
        rw (← e, ← e')
          (insert_entry_comm laws a b (sort_entries l) us.0 us.1.0
            (All-sort_entries HasUnit l us.1.1) (str_eq_sym _ _ ds.0.0))
    sort_entries-Perm (Permᴰ.trans p q) (us, ds) =
        sort_entries-Perm p (us, ds)
        ∙ sort_entries-Perm q (All-Perm HasUnit p us, IdsDistinct-Perm p ds)

  kept_cons :
      (q : Bool) (e : NodeEntry F) (xs ys : List (NodeEntry F))
      → Permᴰ xs ys
      → Permᴰ (if q then e ∷ xs else xs) (if q then e ∷ ys else ys)
  kept_cons true e xs ys p = Permᴰ.cons refl p
  kept_cons false e xs ys p = p

  kept_swap :
      (q r : Bool) (e d : NodeEntry F) (xs : List (NodeEntry F))
      → let with_d = if r then d ∷ xs else xs in
        let with_e = if q then e ∷ xs else xs in
        Permᴰ (if q then e ∷ with_d else with_d) (if r then d ∷ with_e else with_e)
  kept_swap true true e d xs = Permᴰ.swap refl refl
  kept_swap true false e d xs = Permᴰ.refl _
  kept_swap false true e d xs = Permᴰ.refl _
  kept_swap false false e d xs = Permᴰ.refl _

  nodes_with-Perm :
      {m n : List (String × NodeEntry F)} (test : NodeState → Bool)
      → Permᴰ m n
      → Permᴰ (nodes_with test m) (nodes_with test n)
  unfolding nodes_with
  nodes_with-Perm test Permᴰ.nil = Permᴰ.nil
  nodes_with-Perm test (Permᴰ.cons {a} {b} {l₁} {l₂} e p) =
      subst (λ z. Permᴰ (nodes_with test (a ∷ l₁)) (nodes_with test (z ∷ l₂))) e
        (kept_cons (test a.1.state) a.1 _ _ (nodes_with-Perm test p))
  nodes_with-Perm test (Permᴰ.swap {a} {b} {a'} {b'} {l} e e') =
      subst (λ z. Permᴰ (nodes_with test (a ∷ b ∷ l)) (nodes_with test (z ∷ b' ∷ l))) e'
        (subst (λ z. Permᴰ (nodes_with test (a ∷ b ∷ l)) (nodes_with test (b ∷ z ∷ l))) e
          (kept_swap (test a.1.state) (test b.1.state) a.1 b.1 _))
  nodes_with-Perm test (Permᴰ.trans p q) =
      Permᴰ.trans (nodes_with-Perm test p) (nodes_with-Perm test q)

  -- Two registries with the same entries in any two orders have the same ranking, if one of them is
  -- valid: no two nodes tie.
  pub sorted_by_capacity-Perm :
      IsIeee F
      → (r r' : NodeRegistry F) → IsValid r
      → Permᴰ r.nodes r'.nodes
      → sorted_by_capacity r ≡ sorted_by_capacity r'
  unfolding sorted_by_capacity active_nodes
  sorted_by_capacity-Perm laws r r' v p =
      sort_entries-Perm laws (nodes_with-Perm can_accept_tasks p)
        (active_nodes-IsUnit r v, active_nodes-IdsDistinct r v)
