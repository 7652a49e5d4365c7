-- ===== src/Swarm/Deploy.antt =====
-- From a rebalance to a swarm that serves: `rebalance_layers` of `src/orchestrator.rs`, with nodes that
-- load the layers of their tasks.
use neural_swarm_ai.Common.{
  ℕ, ◌≤◌, ◌<◌, ◌^◌, ◌≡◌, refl, sym, ap, subst, ◌∙◌, String, some, List, [], ◌∷◌, All, length, ok,
  keys, IsDistinct, arith,
}
use neural_swarm_ai.Float.{F32, IsIeee}
use neural_swarm_ai.Node.State.{can_accept_tasks}
use neural_swarm_ai.Node.Registry.{NodeEntry, NodeRegistry, get}
use neural_swarm_ai.Node.Ranking.{sorted_by_capacity}
use neural_swarm_ai.Node.Invariant.{IsValid}
use neural_swarm_ai.Node.Order.{sorted_by_capacity-HasUnit, HasUnit}
use neural_swarm_ai.Node.Distinct.{IsHeld, sorted_by_capacity-IsHeld}
use neural_swarm_ai.Node.Alike.{
  IsAlike, AreAlike, AreAlikeNodes, AreAlikeNodes-refl, AreAlikeNodes-trans, assign_layers-AreAlike,
  sorted_by_capacity-AreAlike,
}
use neural_swarm_ai.Crypto.Primitives.{Primitives}
use neural_swarm_ai.Orchestrator.Rebalance.{
  PeerIds, peers_of, Plan, ids_of, plan, assign_all, rebalance_sorted, rebalance_layers,
}
use neural_swarm_ai.Orchestrator.Coverage.{plan_covers}
use neural_swarm_ai.Orchestrator.Covered.{
  assign_all-IsValid, plan-keys, plan-NodupIds, assign_all-plan-Holds,
}
use neural_swarm_ai.Orchestrator.Handlers.{Orchestrator, rebalanced}
use neural_swarm_ai.Model.Tensors.{Candle}
use neural_swarm_ai.Model.Weights.{ModelWeights}
use neural_swarm_ai.Model.Gguf.{Content}
use neural_swarm_ai.Model.Loading.{from_gguf}
use neural_swarm_ai.Model.Backend.{ModelSource, path, Storage, new_backend, load_model}
use neural_swarm_ai.Model.Chain.Parts.{ends_of}
use neural_swarm_ai.Model.Chain.Loaded.{load_chain, load_chain-Simulates}
use neural_swarm_ai.Swarm.Blocks.{cuts_of, HasLayers, cuts_of-IsPartition}
use neural_swarm_ai.Swarm.Fresh.{IsPeer, IsFresh, plan_placed}
use neural_swarm_ai.Swarm.Whole.{IsDeployed}
use neural_swarm_ai.Swarm.{Worker, ArePlaced}

module _ {F : Type 0} where
  assign_all-AreAlike :
      (p : Plan) (r : NodeRegistry F) → AreAlikeNodes r.nodes (assign_all p r).nodes
  unfolding assign_all
  assign_all-AreAlike [] r = AreAlikeNodes-refl r.nodes
  assign_all-AreAlike ((id, layers) ∷ p) r =
      AreAlikeNodes-trans r.nodes _ _ (assign_layers-AreAlike r id layers) (assign_all-AreAlike p _)

module _ {F : Type 0} ⦃f : F32 F⦄ where
  top_of_AreAlike :
      (n : NodeEntry F) (ns ms : List (NodeEntry F))
      → AreAlike (n ∷ ns) ms
      → (m : NodeEntry F) × (rest : List (NodeEntry F)) × (ms ≡ m ∷ rest) × IsAlike n m
  top_of_AreAlike n ns [] h = absurd h
  top_of_AreAlike n ns (m ∷ ms) h = (m, ms, refl, h.0)

  -- After the assignments the same node is ranked first, and the registry holds it.
  top_after :
      (r : NodeRegistry F) (total : ℕ) (n : NodeEntry F) (ns : List (NodeEntry F))
      → IsValid r
      → sorted_by_capacity r ≡ n ∷ ns
      → let r' = assign_all (plan total (n ∷ ns)) r in
        (top : NodeEntry F) × (others : List (NodeEntry F)) × (sorted_by_capacity r' ≡ top ∷ others)
        × (top.id ≡ n.id)
        × (get r' n.id ≡ some top)
  top_after r total n ns v ranked =
      let p = plan total (n ∷ ns) in
      let r' = assign_all p r in
      let alike = sorted_by_capacity-AreAlike r r' (assign_all-AreAlike p r) in
      let (top, others, ranked', same) =
        top_of_AreAlike n ns (sorted_by_capacity r')
          (subst (λ xs. AreAlike xs (sorted_by_capacity r')) ranked alike) in
      let held =
        subst (All (IsHeld r' can_accept_tasks)) ranked'
          (sorted_by_capacity-IsHeld r' (assign_all-IsValid p r v)) in
      (top, others, ranked', same.id, subst (λ id. get r' id ≡ some top) same.id held.0.0)

module _ {T Q M N B V F E P : Type 0} ⦃f : F32 F⦄ (p : Primitives) (peers : PeerIds P)
    (c : Candle T Q M N B F E) (s : Storage Q V F E) where
  -- A rebalance deploys the model: for a valid registry and a file that loads as a whole, with as
  -- many layers as the orchestrator deals out (at least one, at most 2 ^ 24); if the ids of the nodes
  -- that take layers are names of peers, each of these nodes gets a layer, has the cluster key and
  -- knows the file, but has loaded nothing. Then the pipeline of these nodes is ready to serve as
  -- one backend that has loaded the whole file.
  pub rebalanced-IsDeployed :
      IsIeee F
      → (o : Orchestrator F P) (r : NodeRegistry F) (n : NodeEntry F) (ns : List (NodeEntry F))
        (fleet : List (String × Worker T M N B)) (ct : Content Q V F E) (source : ModelSource)
        (filename : String) (w : ModelWeights T M N B)
      → IsValid r
      → sorted_by_capacity r ≡ n ∷ ns
      → length (n ∷ ns) < 2 ^ 32
      → 0 < o.total_model_layers
      → o.total_model_layers ≤ 2 ^ 24
      → s.open_model source ≡ ok ct
      → s.open_model (path filename) ≡ ok ct
      → from_gguf c ct ≡ ok w
      → w.total_layers ≡ o.total_model_layers
      → HasLayers (plan o.total_model_layers (n ∷ ns))
      → All (IsPeer peers) (ids_of (n ∷ ns))
      → All (IsFresh source fleet o.cluster_key) (ids_of (n ∷ ns))
      → IsDistinct o.pipeline.active_sequences
      → IsDeployed p peers c s
          (ends_of w)
          (rebalanced peers o r)
          fleet
          (load_chain c s source 0 (cuts_of 0 (plan o.total_model_layers (n ∷ ns))))
          (load_model c s new_backend filename).0
  unfolding rebalanced rebalance_layers rebalance_sorted peers_of
  rebalanced-IsDeployed laws o r n ns fleet ct source filename w v ranked few some_layers small
        opened opened' loads counted dealt named fresh distinct =
      let total = o.total_model_layers in
      let dealing = plan total (n ∷ ns) in
      let keyed : keys dealing ≡ ids_of (n ∷ ns) = plan-keys total (n ∷ ns) in
      let (q, parsed, at) = named.0 in
      let at_first : peers_of peers (n.id ∷ ids_of ns) ≡ q ∷ peers_of peers (ids_of ns) =
        rw (parsed, peers_of) refl in
      let (top, others, ranked', same, found) = top_after r total n ns v ranked in
      let covers =
        plan_covers laws total n ns small few
          (subst (All HasUnit) ranked (sorted_by_capacity-HasUnit r v)) in
      let sim =
        load_chain-Simulates c s ct source filename w (cuts_of 0 dealing) opened opened' loads
          (omega arith)
          (rw counted (cuts_of-IsPartition dealing 0 total (omega arith) covers dealt)) in
      let places =
        plan_placed p peers c s source (assign_all dealing r) fleet o.cluster_key dealing 0 total
          (ends_of w) sim.w.layers (omega arith) covers dealt
          (assign_all-plan-Holds r total n ns v ranked) (plan-NodupIds r total n ns v ranked)
          (subst (All (IsPeer peers)) (sym keyed) named)
          (subst (All (IsFresh source fleet o.cluster_key)) (sym keyed) fresh) sim.covered in
      subst
        (λ ranking.
          let (r', pipeline') = rebalance_sorted peers ranking r total o.pipeline in
          IsDeployed p peers c s (ends_of w) (record o { registry = r'; pipeline = pipeline' })
            fleet (load_chain c s source 0 (cuts_of 0 dealing))
            (load_model c s new_backend filename).0)
        (sym ranked)
        (record {
          first = q;
          ahead = peers_of peers (ids_of ns);
          top = top;
          others = others;
          simulates = sim;
          placed =
              subst
                (λ qs.
                  ArePlaced p peers c s (assign_all dealing r) fleet o.cluster_key qs
                    (load_chain c s source 0 (cuts_of 0 dealing)))
                (ap (peers_of peers) keyed ∙ at_first) places;
          stages = at_first;
          ranked = ranked';
          named = rw same parsed;
          registered = rw at found;
          distinct = distinct;
        })
