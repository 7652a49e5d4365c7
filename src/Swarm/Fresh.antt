-- ===== src/Swarm/Fresh.antt =====
-- Nodes that have loaded nothing yet, and where a plan puts the stages of a pipeline.
use neural_swarm_ai.Common.{
  ℕ, ◌+◌, ◌-◌, count_up, ◌<◌, ◌^◌, ◌≡◌, ◌≢◌, refl, sym, subst, ◌∙◌, true, ==_iff, eq_iff, String,
  some, List, [], ◌∷◌, All, length, range, ok, lookup, keys, Entries, arith, Result-cases, inl, inr,
}
use neural_swarm_ai.Float.{F32}
use neural_swarm_ai.Protocol.{Bytes}
use neural_swarm_ai.Node.Registry.{NodeRegistry}
use neural_swarm_ai.Crypto.Primitives.{Primitives}
use neural_swarm_ai.Orchestrator.Rebalance.{PeerIds, peers_of, Plan}
use neural_swarm_ai.Orchestrator.Coverage.{layers_of}
use neural_swarm_ai.Orchestrator.Assignment.{Holds}
use neural_swarm_ai.Orchestrator.Covered.{AbsentId, NodupIds}
use neural_swarm_ai.Model.Tensors.{Candle}
use neural_swarm_ai.Model.Layers.{LayerWeights}
use neural_swarm_ai.Model.Weights.{ModelWeights}
use neural_swarm_ai.Model.Backend.{
  ModelSource, Storage, new_backend, set_source, is_loaded, read_slice, load_layer_range,
}
use neural_swarm_ai.Model.Chain.{Ends, Covers}
use neural_swarm_ai.Model.Chain.Loaded.{load_stage, load_chain}
use neural_swarm_ai.Orchestrator.Ranges.{layer_range_block}
use neural_swarm_ai.Swarm.Blocks.{cuts_of, HasLayers, count_up-parts}
use neural_swarm_ai.Swarm.{Worker, IsPlaced, ArePlaced}

module _ {T Q M N B V F E : Type 0} ⦃f : F32 F⦄ (c : Candle T Q M N B F E) (s : Storage Q V F E)
    (source : ModelSource) where
  -- A slice that a fresh node comes to hold is one that it has loaded.
  load_stage_ready :
      (lo hi : ℕ) (v : ModelWeights T M N B)
      → (load_stage c s source lo hi).backend.model ≡ some v
      → (load_layer_range c s
            (set_source (new_backend {T = T} {M = M} {N = N} {B = B}) source)
            lo
            hi
          ≡ ((load_stage c s source lo hi).backend, ok tt))
        × (is_loaded (load_stage c s source lo hi).backend lo hi ≡ true)
  unfolding load_stage load_layer_range set_source
  load_stage_ready lo hi v h =
      elim (Result-cases (read_slice c s (set_source (new_backend {T = T}) source) lo hi)) [
        | inr (e, k) ↦ cc (rw (load_stage, load_layer_range, k) at h)
        | inl (w, k) ↦
            rw (load_stage, load_layer_range, k)
              (refl, rw ((==_iff lo lo).1 refl, (==_iff hi hi).1 refl) refl)
      ]

module _ {P : Type 0} (peers : PeerIds P) where
  -- The id of a node as the name of a peer.
  abbrev pub IsPeer : String → Type 0
  IsPeer id = (q : P) × (peers.parse id ≡ some q) × (peers.to_string q ≡ id)

  peers_of-some :
      (id : String) (ids : List String) (q : P)
      → peers.parse id ≡ some q
      → peers_of peers (id ∷ ids) ≡ q ∷ peers_of peers ids
  unfolding peers_of
  peers_of-some id ids q h = rw (h, peers_of) refl

  -- A name that none of these ids has is that of none of their peers.
  peers_apart :
      (name : String) (ids : List String)
      → AbsentId name ids
      → All IsPeer ids
      → All (λ q. name ≢ peers.to_string q) (peers_of peers ids)
  unfolding peers_of
  peers_apart name [] h ps = tt
  peers_apart name (id ∷ ids) h ((q, parsed, named), ps) =
      rw (peers_of-some id ids q parsed)
        ((λ e. cc ((eq_iff id name).1 (sym named ∙ sym e), h.0)), peers_apart name ids h.1 ps)

module _ {T M N B : Type 0} (source : ModelSource) (fleet : List (String × Worker T M N B))
    (key : Bytes) where
  -- The fleet has a node with this id and the key, which knows the source and has loaded nothing.
  abbrev pub IsFresh : String → Type 0
  IsFresh id =
      (w : Worker T M N B) × (lookup id fleet ≡ some w)
      × (w.executor.cluster_key ≡ key)
      × (w.backend ≡ set_source new_backend source)

module _ {T Q M N B V F E P : Type 0} ⦃f : F32 F⦄ (p : Primitives) (peers : PeerIds P)
    (c : Candle T Q M N B F E) (s : Storage Q V F E) (source : ModelSource)
    (registry : NodeRegistry F) (fleet : List (String × Worker T M N B)) (key : Bytes) where
  block_placed :
      (id : String) (layers : List ℕ) (lo : ℕ) (q : P) (v : ModelWeights T M N B)
      → peers.to_string q ≡ id
      → IsFresh source fleet key id
      → Holds registry id layers
      → layers ≡ count_up lo (length layers)
      → 0 < length layers
      → lo + length layers < 2 ^ 32
      → (load_stage c s source lo (lo + length layers)).backend.model ≡ some v
      → IsPlaced p peers c s registry fleet key q (load_stage c s source lo (lo + length layers))
  unfolding load_stage
  block_placed id layers lo q v named (w, found, keyed, blank) (e, known, active, dealt) block more
        small held =
      let hi = lo + length layers in
      let (ready, loaded) = load_stage_ready c s source lo hi v held in
      record {
        worker = w;
        placed = rw named found;
        keyed = keyed;
        entry = e;
        registered = rw named known;
        named = layer_range_block e lo (length layers) (dealt ∙ block) more small;
        ready =
            subst
              (λ b. load_layer_range c s b lo hi ≡ ((load_stage c s source lo hi).backend, ok tt))
              (sym blank) ready;
        loaded = loaded;
      }

  -- The stages that load the blocks of a plan are at the peers that the plan names.
  pub plan_placed :
      (plan : Plan) (lo total : ℕ) (ends : Ends M N B) (ls : List (LayerWeights T M N))
      → total < 2 ^ 32
      → layers_of plan ≡ range lo total
      → HasLayers plan
      → Entries (λ id layers. Holds registry id layers) plan
      → NodupIds (keys plan)
      → All (IsPeer peers) (keys plan)
      → All (IsFresh source fleet key) (keys plan)
      → Covers c ends lo ls (load_chain c s source lo (cuts_of lo plan))
      → ArePlaced p peers c s registry fleet key
          (peers_of peers (keys plan))
          (load_chain c s source lo (cuts_of lo plan))
  unfolding ArePlaced load_chain peers_of Covers
  plan_placed [] lo total ends ls small h some_layers held distinct named fresh covered = tt
  plan_placed ((id, layers) ∷ plan) lo total ends ls small h (more, some_layers) (here, held)
        (apart, distinct) ((q, parsed, named), others) (blank, fresh) (v, rest, sl, at, cut, tail) =
      let (block, fits, after) = count_up-parts layers (layers_of plan) lo (total - lo) h in
      let hi = lo + length layers in
      let e : total - lo - length layers ≡ total - hi = omega arith in
      rw (peers_of-some peers id (keys plan) q parsed) (
        block_placed id layers lo q v named blank here block more (omega arith) sl.held,
        rw named (peers_apart peers id (keys plan) apart others),
        plan_placed plan hi total ends rest small (rw (← e) after) some_layers held distinct others
            fresh tail,
      )
