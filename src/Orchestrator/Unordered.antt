-- ===== src/Orchestrator/Unordered.antt =====
-- A rebalance depends on which nodes are registered, not on the order in which the map iterates:
-- `rebalance_layers` of `src/orchestrator.rs`.
use mathlib.Core.List.{Permᴰ}
use neural_swarm_ai.Common.{
  ◌≡◌, refl, sym, subst, ◌∙◌, ℕ, false, Option-cases, inl, inr, String, List, [], ◌∷◌, lookup,
  Absent, IsDistinct, arith, str_eq, eq_iff,
}
use neural_swarm_ai.Float.{F32, IsIeee}
use neural_swarm_ai.Node.Registry.{NodeEntry, NodeRegistry, get, with_layers, assign_layers}
use neural_swarm_ai.Node.Ranking.{sorted_by_capacity}
use neural_swarm_ai.Node.Invariant.{IsValid}
use neural_swarm_ai.Node.Distinct.{str_eq_sym}
use neural_swarm_ai.Node.Steps.{get-put}
use neural_swarm_ai.Node.Permuted.{sorted_by_capacity-Perm}
use neural_swarm_ai.Pipeline.Stages.{InferencePipeline}
use neural_swarm_ai.Orchestrator.Rebalance.{
  PeerIds, Plan, plan, assign_all, rebalance_sorted, rebalance_layers,
}

module _ {V : Type 0} where
  Absent-Perm : {m n : List (String × V)} (k : String) → Permᴰ m n → Absent k m → Absent k n
  Absent-Perm k Permᴰ.nil a = a
  Absent-Perm k (Permᴰ.cons {a} {b} {l₁} {l₂} e p) h =
      subst (λ z. Absent k (z ∷ l₂)) e (h.0, Absent-Perm k p h.1)
  Absent-Perm k (Permᴰ.swap {a} {b} {a'} {b'} {l} e e') h =
      subst (λ z. Absent k (z ∷ b' ∷ l)) e'
        (subst (λ z. Absent k (b ∷ z ∷ l)) e (h.1.0, (h.0, h.1.1)))
  Absent-Perm k (Permᴰ.trans p q) h = Absent-Perm k q (Absent-Perm k p h)

  IsDistinct-Perm : {m n : List (String × V)} → Permᴰ m n → IsDistinct m → IsDistinct n
  IsDistinct-Perm Permᴰ.nil d = d
  IsDistinct-Perm (Permᴰ.cons {a} {b} {l₁} {l₂} e p) d =
      subst (λ z. IsDistinct (z ∷ l₂)) e (Absent-Perm a.0 p d.0, IsDistinct-Perm p d.1)
  IsDistinct-Perm (Permᴰ.swap {a} {b} {a'} {b'} {l} e e') d =
      subst (λ z. IsDistinct (z ∷ b' ∷ l)) e'
        (subst (λ z. IsDistinct (b ∷ z ∷ l)) e ((str_eq_sym b.0 a.0 d.0.0, d.1.0), (d.0.1, d.1.1)))
  IsDistinct-Perm (Permᴰ.trans p q) d = IsDistinct-Perm q (IsDistinct-Perm p d)

  lookup_swap :
      (k : String) (a b : String × V) (l : List (String × V))
      → str_eq b.0 a.0 ≡ false
      → lookup k (a ∷ b ∷ l) ≡ lookup k (b ∷ a ∷ l)
  unfolding lookup
  lookup_swap k a b l h = ground (arith, eq_iff a.0 k, eq_iff b.0 k, eq_iff b.0 a.0)

  -- A map with distinct keys gives the same in every order.
  lookup-Perm :
      {m n : List (String × V)} (k : String) → Permᴰ m n → IsDistinct m → lookup k m ≡ lookup k n
  unfolding lookup
  lookup-Perm k Permᴰ.nil d = refl
  lookup-Perm k (Permᴰ.cons {a} {b} {l₁} {l₂} e p) d =
      subst (λ z. lookup k (a ∷ l₁) ≡ lookup k (z ∷ l₂)) e (rw (lookup-Perm k p d.1) refl)
  lookup-Perm k (Permᴰ.swap {a} {b} {a'} {b'} {l} e e') d =
      subst (λ z. lookup k (a ∷ b ∷ l) ≡ lookup k (z ∷ b' ∷ l)) e'
        (subst (λ z. lookup k (a ∷ b ∷ l) ≡ lookup k (b ∷ z ∷ l)) e (lookup_swap k a b l d.0.0))
  lookup-Perm k (Permᴰ.trans p q) d = lookup-Perm k p d ∙ lookup-Perm k q (IsDistinct-Perm p d)

module _ {F : Type 0} where
  -- Two registries hold the same nodes under the same ids.
  abbrev pub IsSameMap : NodeRegistry F → NodeRegistry F → Type 0
  IsSameMap r r' = (k : String) → get r k ≡ get r' k

  assign_layers-IsSameMap :
      (r r' : NodeRegistry F) (id : String) (layers : List ℕ)
      → IsSameMap r r'
      → IsSameMap (assign_layers r id layers).0 (assign_layers r' id layers).0
  unfolding assign_layers
  assign_layers-IsSameMap r r' id layers same k = elim (Option-cases (get r id)) [
    | inl e ↦ rw (sym (same id) ∙ e, e, assign_layers) (same k)
    | inr (entry, e) ↦
        rw (sym (same id) ∙ e, e, assign_layers)
          (rw
            (
              get-put r id k (with_layers layers entry),
              get-put r' id k (with_layers layers entry),
              same k,
            )
            refl)
  ]

  assign_all-IsSameMap :
      (p : Plan) (r r' : NodeRegistry F)
      → IsSameMap r r'
      → IsSameMap (assign_all p r) (assign_all p r')
  unfolding assign_all
  assign_all-IsSameMap [] r r' same = same
  assign_all-IsSameMap ((id, layers) ∷ p) r r' same =
      assign_all-IsSameMap p _ _ (assign_layers-IsSameMap r r' id layers same)

module _ {F P : Type 0} ⦃f : F32 F⦄ (peers : PeerIds P) where
  rebalance_sorted-IsSameMap :
      (ns : List (NodeEntry F)) (r r' : NodeRegistry F) (total : ℕ) (pipeline : InferencePipeline P)
      → IsSameMap r r'
      → IsSameMap
          (rebalance_sorted peers ns r total pipeline).0
          (rebalance_sorted peers ns r' total pipeline).0
        × ((rebalance_sorted peers ns r total pipeline).1
            ≡ (rebalance_sorted peers ns r' total pipeline).1)
  unfolding rebalance_sorted
  rebalance_sorted-IsSameMap [] r r' total pipeline same = (same, refl)
  rebalance_sorted-IsSameMap (n ∷ ns) r r' total pipeline same =
      (assign_all-IsSameMap (plan total (n ∷ ns)) r r' same, refl)

  -- A rebalance of a valid registry gives the same nodes with the same layers, and the same stages of
  -- the pipeline, in whatever order its map iterates.
  pub rebalance_layers-Perm :
      IsIeee F
      → (r r' : NodeRegistry F) (total : ℕ) (pipeline : InferencePipeline P) → IsValid r
      → Permᴰ r.nodes r'.nodes
      → IsSameMap
          (rebalance_layers peers r total pipeline).0
          (rebalance_layers peers r' total pipeline).0
        × ((rebalance_layers peers r total pipeline).1
            ≡ (rebalance_layers peers r' total pipeline).1)
  unfolding rebalance_layers get
  rebalance_layers-Perm laws r r' total pipeline v p =
      rw (← sorted_by_capacity-Perm laws r r' v p) (
        rebalance_sorted-IsSameMap (sorted_by_capacity r) r r' total pipeline
          (λ k. lookup-Perm k p v.distinct))
