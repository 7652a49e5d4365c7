-- ===== src/Swarm/Places.antt =====
-- Where the stages of a pipeline run: what a delivery to one node leaves to the others.
use neural_swarm_ai.Common.{
  suc, ◌≤◌, ◌≡◌, ◌≢◌, refl, ap, ◌∙◌, true, String, some, List, [], ◌∷◌, ◌++◌, All, length, ok,
  lookup, insert, lookup-insert, eq_iff, str_eq, Bool-cases, inl, inr,
}
use neural_swarm_ai.Float.{F32}
use neural_swarm_ai.Protocol.{Bytes}
use neural_swarm_ai.Node.Registry.{NodeRegistry}
use neural_swarm_ai.Crypto.Primitives.{Primitives, as_bytes}
use neural_swarm_ai.Crypto.Envelope.{size_limit, compress, encrypt_with_aad}
use neural_swarm_ai.Executor.Tasks.{Executor, seal_state}
use neural_swarm_ai.Orchestrator.Rebalance.{PeerIds}
use neural_swarm_ai.Model.Tensors.{Candle}
use neural_swarm_ai.Model.Backend.{CandleBackend, Storage, is_loaded}
use neural_swarm_ai.Model.Chain.{Stage}
use neural_swarm_ai.Swarm.Tasks.{load_layer_range_loaded}
use neural_swarm_ai.Swarm.{Worker, CanSeal, IsPlaced, ArePlaced}

pub seal_state_ok :
    (p : Primitives) (x : Executor) (nonce : Bytes) (task_id : String) (raw : Bytes)
    → CanSeal p x.cluster_key
    → length nonce ≡ 12
    → length raw ≤ size_limit
    → (sealed : Bytes) × (seal_state p x nonce task_id raw ≡ ok sealed)
unfolding seal_state compress encrypt_with_aad
seal_state_ok p x nonce task_id raw can n small =
    let (packed, e) = can.packs raw small in
    let (sealed, e') = can.seals nonce raw packed (as_bytes task_id) n small e in
    (nonce ++ sealed, rw (e, seal_state, encrypt_with_aad, e') refl)

pub insert_other {ℓ} :
    {V : Type ℓ} (key other : String) (value : V) (entries : List (String × V))
    → key ≢ other
    → lookup other (insert key value entries) ≡ lookup other entries
insert_other key other value entries h = elim (Bool-cases (str_eq key other)) [
  | inl e ↦ absurd (h ((eq_iff key other).0 e))
  | inr e ↦ rw (lookup-insert key other value entries, e) refl
]

pub insert_same {ℓ} :
    {V : Type ℓ} (key : String) (value : V) (entries : List (String × V))
    → lookup key (insert key value entries) ≡ some value
insert_same key value entries =
    rw (lookup-insert key key value entries, (eq_iff key key).1 refl) refl

module _ {T Q M N B V F E P : Type 0} ⦃f : F32 F⦄ (p : Primitives) (peers : PeerIds P)
    (c : Candle T Q M N B F E) (s : Storage Q V F E) (registry : NodeRegistry F) (key : Bytes) where
  pub IsPlaced-frame :
      (fleet fleet' : List (String × Worker T M N B)) (peer : P) (n : Stage T M N B)
      → lookup (peers.to_string peer) fleet' ≡ lookup (peers.to_string peer) fleet
      → IsPlaced p peers c s registry fleet key peer n
      → IsPlaced p peers c s registry fleet' key peer n
  IsPlaced-frame fleet fleet' peer n same at = record {
    worker = at.worker;
    placed = same ∙ at.placed;
    keyed = at.keyed;
    entry = at.entry;
    registered = at.registered;
    named = at.named;
    ready = at.ready;
    loaded = at.loaded;
  }

  -- Stages whose nodes are as they were stay in their places.
  pub ArePlaced-frame :
      (fleet fleet' : List (String × Worker T M N B)) (others : List P) (ns : List (Stage T M N B))
      → All (λ q. lookup (peers.to_string q) fleet' ≡ lookup (peers.to_string q) fleet) others
      → ArePlaced p peers c s registry fleet key others ns
      → ArePlaced p peers c s registry fleet' key others ns
  unfolding ArePlaced
  ArePlaced-frame fleet fleet' [] [] same at = tt
  ArePlaced-frame fleet fleet' (q ∷ others) (n ∷ ns) same (here, apart, there) = (
    IsPlaced-frame fleet fleet' q n same.0 here,
    apart,
    ArePlaced-frame fleet fleet' others ns same.1 there,
  )
  ArePlaced-frame fleet fleet' [] (n ∷ ns) same at = at
  ArePlaced-frame fleet fleet' (q ∷ others) [] same at = at

  -- There are as many stages as peers.
  pub ArePlaced-lengths :
      (fleet : List (String × Worker T M N B)) (others : List P) (ns : List (Stage T M N B))
      → ArePlaced p peers c s registry fleet key others ns
      → length others ≡ length ns
  unfolding ArePlaced
  ArePlaced-lengths fleet [] [] at = refl
  ArePlaced-lengths fleet (q ∷ others) (n ∷ ns) at = ap suc (ArePlaced-lengths fleet others ns at.2)
  ArePlaced-lengths fleet [] (n ∷ ns) at = absurd at
  ArePlaced-lengths fleet (q ∷ others) [] at = absurd at

  pub insert_others :
      (fleet : List (String × Worker T M N B)) (peer : P) (w : Worker T M N B) (others : List P)
      → All (λ q. peers.to_string peer ≢ peers.to_string q) others
      → All
          (λ q.
            lookup (peers.to_string q) (insert (peers.to_string peer) w fleet)
            ≡ lookup (peers.to_string q) fleet)
          others
  insert_others fleet peer w [] h = tt
  insert_others fleet peer w (q ∷ others) h = (
    insert_other (peers.to_string peer) (peers.to_string q) w fleet h.0,
    insert_others fleet peer w others h.1,
  )

  -- The node of a stage has its place with the backend that a task leaves it.
  pub IsPlaced-after :
      (fleet fleet' : List (String × Worker T M N B)) (peer : P) (n : Stage T M N B)
      (b : CandleBackend T M N B) (at : IsPlaced p peers c s registry fleet key peer n)
      → lookup (peers.to_string peer) fleet' ≡ some (record (at.worker) { backend = b })
      → is_loaded b n.start_layer n.end_layer ≡ true
      → IsPlaced p peers c s registry fleet' key peer (record n { backend = b })
  IsPlaced-after fleet fleet' peer n b at placed loaded = record {
    worker = record (at.worker) { backend = b };
    placed = placed;
    keyed = at.keyed;
    entry = at.entry;
    registered = at.registered;
    named = at.named;
    ready = load_layer_range_loaded c s b n.start_layer n.end_layer loaded;
    loaded = loaded;
  }
