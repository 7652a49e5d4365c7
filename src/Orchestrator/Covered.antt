-- ===== src/Orchestrator/Covered.antt =====
-- After a rebalance the registry holds the plan: every layer lies on exactly one active node.

use neural_swarm_ai.Common.{
  ℕ, ◌^◌, ◌≤◌, ◌<◌, ◌≡◌, refl, sym, ap, subst, ◌∙◌, false, Bool-cases, inl, inr, String, some, List,
  [], ◌∷◌, ◌++◌, All, length, range, str_eq, keys, Absent, IsDistinct, Entries,
}
use neural_swarm_ai.Float.{F32, IsIeee, zero_f}
use neural_swarm_ai.Node.State.{NodeState, can_accept_tasks}
use neural_swarm_ai.Node.Registry.{NodeEntry, NodeRegistry, get}
use neural_swarm_ai.Node.Ranking.{sorted_by_capacity}
use neural_swarm_ai.Node.Invariant.{IsValid, assign_layers-IsValid}
use neural_swarm_ai.Node.Order.{HasUnit, sorted_by_capacity-HasUnit}
use neural_swarm_ai.Node.Distinct.{
  NoneIs, IdsDistinct, IsHeld, sorted_by_capacity-IdsDistinct, sorted_by_capacity-IsHeld,
}
use neural_swarm_ai.Pipeline.Stages.{InferencePipeline}
use neural_swarm_ai.Orchestrator.Rebalance.{
  PeerIds, peers_of, Plan, equal_split, proportional_split, ids_of, total_composite_of, plan,
  assign_all, rebalance_sorted, rebalance_layers,
}
use neural_swarm_ai.Orchestrator.Coverage.{layers_of, plan_covers}
use neural_swarm_ai.Orchestrator.Assignment.{layers_at, IsServing, Holds, assign_all-Holds}

abbrev pub AbsentId : String → List String → Type 0
AbsentId k = All (λ j. str_eq j k ≡ false)

abbrev pub NodupIds : List String → Type 0
NodupIds [] = Unit
NodupIds (k ∷ ks) = AbsentId k ks × NodupIds ks

Absent-of_keys : (k : String) (p : Plan) → AbsentId k (keys p) → Absent k p
Absent-of_keys k [] h = tt
Absent-of_keys k ((j, l) ∷ p) h = (h.0, Absent-of_keys k p h.1)

IsDistinct-of_keys : (p : Plan) → NodupIds (keys p) → IsDistinct p
IsDistinct-of_keys [] h = tt
IsDistinct-of_keys ((j, l) ∷ p) h = (Absent-of_keys j p h.0, IsDistinct-of_keys p h.1)

Entries-of_keys : (P : String → Type 0) (p : Plan) → All P (keys p) → Entries (λ k l. P k) p
Entries-of_keys P [] h = tt
Entries-of_keys P ((j, l) ∷ p) h = (h.0, Entries-of_keys P p h.1)

equal_split-keys :
    (ids : List String) (total per_node current : ℕ)
    → keys (equal_split total per_node current ids) ≡ ids
unfolding equal_split
equal_split-keys [] total per_node current = refl
equal_split-keys (id ∷ []) total per_node current = refl
equal_split-keys (id ∷ id' ∷ ids) total per_node current =
    ap (◌∷◌ id) (equal_split-keys (id' ∷ ids) total per_node _)

module _ {F : Type 0} where
  AbsentId-of_NoneIs : (k : String) (ns : List (NodeEntry F)) → NoneIs k ns → AbsentId k (ids_of ns)
  AbsentId-of_NoneIs k [] h = tt
  AbsentId-of_NoneIs k (n ∷ ns) h = (h.0, AbsentId-of_NoneIs k ns h.1)

  NodupIds-of_IdsDistinct : (ns : List (NodeEntry F)) → IdsDistinct ns → NodupIds (ids_of ns)
  NodupIds-of_IdsDistinct [] h = tt
  NodupIds-of_IdsDistinct (n ∷ ns) h =
      (AbsentId-of_NoneIs n.id ns h.0, NodupIds-of_IdsDistinct ns h.1)

  IsServing-of_IsHeld :
      (r : NodeRegistry F) (ns : List (NodeEntry F))
      → All (IsHeld r can_accept_tasks) ns
      → All (IsServing r) (ids_of ns)
  IsServing-of_IsHeld r [] h = tt
  IsServing-of_IsHeld r (n ∷ ns) h = ((n, h.0.0, h.0.1), IsServing-of_IsHeld r ns h.1)

  -- The layers of the nodes with these ids, one node after the other.
  abbrev pub layers_over : NodeRegistry F → List String → List ℕ
  layers_over r [] = []
  layers_over r (id ∷ ids) = layers_at r id ++ layers_over r ids

  layers_over_plan :
      (r : NodeRegistry F) (p : Plan)
      → Entries (λ k l. Holds r k l) p
      → layers_over r (keys p) ≡ layers_of p
  unfolding layers_at
  layers_over_plan r [] h = refl
  layers_over_plan r ((k, l) ∷ p) ((e, found, active, dealt), h) =
      rw (found, layers_at, dealt, layers_over_plan r p h)

  -- The registry holds an active node under this id.
  abbrev pub IsActiveNode : NodeRegistry F → String → Type 0
  IsActiveNode r id = (e : NodeEntry F) × (get r id ≡ some e) × (e.state ≡ NodeState.active)

  IsActive_of_Holds :
      (r : NodeRegistry F) (p : Plan)
      → Entries (λ k l. Holds r k l) p
      → All (IsActiveNode r) (keys p)
  IsActive_of_Holds r [] h = tt
  IsActive_of_Holds r ((k, l) ∷ p) ((e, found, active, dealt), h) =
      ((e, found, active), IsActive_of_Holds r p h)

  pub assign_all-IsValid :
      ⦃f : F32 F⦄ → (p : Plan) (r : NodeRegistry F) → IsValid r → IsValid (assign_all p r)
  unfolding assign_all
  assign_all-IsValid [] r v = v
  assign_all-IsValid ((id, layers) ∷ p) r v =
      assign_all-IsValid p _ (assign_layers-IsValid r id layers v)

module _ {F : Type 0} ⦃f : F32 F⦄ where
  proportional_split-keys :
      (ns : List (NodeEntry F)) (total current : ℕ) (whole : F)
      → keys (proportional_split total whole current ns) ≡ ids_of ns
  unfolding proportional_split
  proportional_split-keys [] total current whole = refl
  proportional_split-keys (n ∷ []) total current whole = refl
  proportional_split-keys (n ∷ n' ∷ ns) total current whole =
      ap (◌∷◌ n.id) (proportional_split-keys (n' ∷ ns) total _ whole)

  pub plan-keys : (total : ℕ) (ns : List (NodeEntry F)) → keys (plan total ns) ≡ ids_of ns
  unfolding plan
  plan-keys total ns = elim (Bool-cases (f.le (total_composite_of ns) zero_f)) [
    | inl e ↦ rw e (equal_split-keys (ids_of ns) total _ 0)
    | inr e ↦ rw e (proportional_split-keys ns total 0 _)
  ]

  pub plan-NodupIds :
      (r : NodeRegistry F) (total : ℕ) (n : NodeEntry F) (ns : List (NodeEntry F))
      → IsValid r
      → sorted_by_capacity r ≡ n ∷ ns
      → NodupIds (keys (plan total (n ∷ ns)))
  plan-NodupIds r total n ns v ranked = subst NodupIds (sym (plan-keys total (n ∷ ns))) (
      NodupIds-of_IdsDistinct (n ∷ ns)
        (subst IdsDistinct ranked (sorted_by_capacity-IdsDistinct r v)))

  -- The plan for the ranked nodes, assigned: each of them holds its part.
  pub assign_all-plan-Holds :
      (r : NodeRegistry F) (total : ℕ) (n : NodeEntry F) (ns : List (NodeEntry F))
      → IsValid r
      → sorted_by_capacity r ≡ n ∷ ns
      → let p = plan total (n ∷ ns) in Entries (λ k l. Holds (assign_all p r) k l) p
  assign_all-plan-Holds r total n ns v ranked =
      let p = plan total (n ∷ ns) in
      let serving = subst (All (IsServing r)) (sym (plan-keys total (n ∷ ns))) (
        IsServing-of_IsHeld r (n ∷ ns)
          (subst (All (IsHeld r can_accept_tasks)) ranked (sorted_by_capacity-IsHeld r v))) in
      assign_all-Holds p r (IsDistinct-of_keys p (plan-NodupIds r total n ns v ranked))
        (Entries-of_keys (IsServing r) p serving)

  module _ {P : Type 0} (peers : PeerIds P) where
    -- The layers of these nodes, one node after the other, are 0, 1, .. total - 1; each of them is
    -- active; and the stages of the pipeline are those ids that are peer ids.
    abbrev pub IsCovered : ℕ → List String → NodeRegistry F × InferencePipeline P → Type 0
    IsCovered total ids after =
        (layers_over after.0 ids ≡ range 0 total)
        × All (IsActiveNode after.0) ids
        × (after.1.pipeline_stages ≡ peers_of peers ids)

    pub rebalance_layers-IsValid :
        (r : NodeRegistry F) (total : ℕ) (pipeline : InferencePipeline P)
        → IsValid r
        → IsValid (rebalance_layers peers r total pipeline).0
    unfolding rebalance_layers rebalance_sorted
    rebalance_layers-IsValid r total pipeline v = go (sorted_by_capacity r)
      where
        go : (ns : List (NodeEntry F)) → IsValid (rebalance_sorted peers ns r total pipeline).0
        go [] = v
        go (n ∷ ns) = assign_all-IsValid (plan total (n ∷ ns)) r v

    -- After a rebalance of a valid registry, with at least one node that can take layers (and fewer
    -- than 2 ^ 32), of a model of at most 2 ^ 24 layers: the layers of the ranked nodes, in ranking
    -- order, are 0, 1, .. total - 1, each on one node; each ranked node is active; and the stages of
    -- the pipeline are the ranked ids that are peer ids.
    pub rebalance_covers :
        IsIeee F
        → (r : NodeRegistry F) (total : ℕ) (pipeline : InferencePipeline P) (n : NodeEntry F)
          (ns : List (NodeEntry F))
        → IsValid r
        → sorted_by_capacity r ≡ n ∷ ns
        → total ≤ 2 ^ 24
        → length (n ∷ ns) < 2 ^ 32
        → IsCovered total (ids_of (n ∷ ns)) (rebalance_layers peers r total pipeline)
    unfolding rebalance_layers rebalance_sorted
    rebalance_covers laws r total pipeline n ns v ranked small few =
        let p = plan total (n ∷ ns) in
        let named : keys p ≡ ids_of (n ∷ ns) = plan-keys total (n ∷ ns) in
        let held = assign_all-plan-Holds r total n ns v ranked in
        let units = subst (All HasUnit) ranked (sorted_by_capacity-HasUnit r v) in
        let r' = assign_all p r in
        subst (IsCovered total (ids_of (n ∷ ns)))
          (ap (λ ranking. rebalance_sorted peers ranking r total pipeline) (sym ranked))
          (
            subst (λ ids. layers_over r' ids ≡ range 0 total) named
                (layers_over_plan r' p held ∙ plan_covers laws total n ns small few units),
            subst (All (IsActiveNode r')) named (IsActive_of_Holds r' p held),
            refl,
          )
