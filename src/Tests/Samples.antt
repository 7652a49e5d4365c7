-- ===== src/Tests/Samples.antt =====
-- Sample data: primitives that meet their laws, peer ids, statuses, and two registered nodes.
use neural_swarm_ai.Common.{
  ℕ, ◌+◌, ◌≡◌, refl, leb, ◌==◌, if◌then◌else◌, String, str_eq, Option, none, some, List, [], ◌∷◌,
  ◌++◌, length, arith, lookup,
}
use neural_swarm_ai.Float.{Fixed, fixed_f32}
use neural_swarm_ai.Compute.Profile.{Architecture, DeviceType, NodeProfile}
use neural_swarm_ai.Compute.Status.{ThermalState, NodeStatus}
use neural_swarm_ai.Node.State.{NodeState, can_accept_tasks}
use neural_swarm_ai.Node.Registry.{NodeEntry, NodeRegistry, get, active_nodes, nodes_with}
use neural_swarm_ai.Node.Ranking.{sorted_by_capacity, compare_entries}
use neural_swarm_ai.Node.Invariant.{IsValid}
use neural_swarm_ai.Protocol.{Bytes}
use neural_swarm_ai.Crypto.Primitives.{Primitives, IsSound}
use neural_swarm_ai.Orchestrator.Rebalance.{PeerIds}

abbrev pub sum : Bytes → ℕ
sum [] = 0
sum (b ∷ bs) = b + sum bs

-- A ciphertext is the message after a tag of the key and the additional data.
unfoldable pub toy_unseal : Bytes → Bytes → Bytes → Bytes → Option Bytes
toy_unseal key nonce [] aad = none
toy_unseal key nonce (tag ∷ msg) aad = if tag == sum key + sum aad then some msg else none

unfoldable pub toy_decompress : ℕ → Bytes → Option Bytes
toy_decompress limit packed = if leb (length packed) limit then some packed else none

abbrev pub toy : Primitives
toy = record {
  seal = λ key nonce msg aad. some ((sum key + sum aad) ∷ msg);
  unseal = toy_unseal;
  zstd_compress = λ level bytes. some bytes;
  zstd_decompress = toy_decompress;
  hmac_sha256 = λ key msg. key ++ msg;
  sha256 = λ bytes. bytes;
  public_of = λ secret. secret;
  diffie_hellman = λ a b. (sum a + sum b) ∷ [];
  hkdf = λ salt key info. salt ++ key ++ info;
}

toy_seal_unseal :
    (key nonce msg aad sealed : Bytes)
    → toy_unseal key nonce sealed aad ≡ some msg
    → some ((sum key + sum aad) ∷ msg) ≡ some sealed
unfolding toy_unseal
toy_seal_unseal key nonce msg aad [] e = cc
toy_seal_unseal key nonce msg aad (tag ∷ rest) e = ground arith

toy_unseal_seal :
    (key nonce msg aad sealed : Bytes)
    → some ((sum key + sum aad) ∷ msg) ≡ some sealed
    → toy_unseal key nonce sealed aad ≡ some msg
unfolding toy_unseal
toy_unseal_seal key nonce msg aad [] e = cc
toy_unseal_seal key nonce msg aad (tag ∷ rest) e = ground arith

pub toy-IsSound : IsSound toy
unfolding toy_decompress
toy-IsSound = record {
  unseal_seal = λ key nonce msg aad sealed n e. toy_unseal_seal key nonce msg aad sealed e;
  seal_unseal = λ key nonce msg aad sealed n e. toy_seal_unseal key nonce msg aad sealed e;
  decompress_compress = λ level limit bytes packed h e. ground arith;
  decompress_limit = λ limit bytes packed e. ground arith;
  dh_agree = λ a b. ground arith;
}

-- Every id but the empty one is a peer id.
abbrev pub names : PeerIds String
names = record { parse = λ s. if str_eq s "" then none else some s; to_string = λ s. s }

abbrev pub desktop_profile : NodeProfile
desktop_profile = record {
  arch = Architecture.x86_64;
  device_type = DeviceType.desktop;
  cpu_cores = 8;
  ram_total_mb = 16384;
  gpu = none;
  hostname = "my-pc";
}

abbrev pub status_of : ℕ → ℕ → NodeStatus Fixed
status_of percent ram = record {
  cpu_usage = fixed_f32.lit percent 100;
  ram_used_mb = 0;
  ram_available_mb = ram;
  thermal = ThermalState.nominal;
  latency_ms = none;
  measured_at = none;
}

-- A node with a composite in percent.
abbrev pub node_of : String → NodeState → ℕ → List ℕ → NodeEntry Fixed
node_of id state percent layers = record {
  id = id;
  profile = desktop_profile;
  status = status_of 10 8000;
  state = state;
  capacity = record {
    cpu_score = fixed_f32.lit percent 100;
    ram_available_mb = 8000;
    composite = fixed_f32.lit percent 100;
  };
  assigned_layers = layers;
  reservation = record { cpu_reserved = fixed_f32.lit 20 100; ram_reserved_mb = 2048 };
  last_heartbeat = 0;
}

abbrev pub weak : NodeEntry Fixed
weak = node_of "weak" NodeState.active 20 (0 ∷ [])

abbrev pub strong : NodeEntry Fixed
strong = node_of "strong" NodeState.ready 60 (1 ∷ 2 ∷ [])

abbrev pub gone : NodeEntry Fixed
gone = node_of "gone" NodeState.draining 90 []

abbrev pub two_nodes : NodeRegistry Fixed
two_nodes = record { nodes = ("weak", weak) ∷ ("strong", strong) ∷ ("gone", gone) ∷ [] }

pub weak_found : get two_nodes "weak" ≡ some weak
unfolding get lookup
weak_found = refl

pub two_nodes_ranked : sorted_by_capacity two_nodes ≡ strong ∷ weak ∷ []
unfolding sorted_by_capacity active_nodes nodes_with can_accept_tasks compare_entries
two_nodes_ranked = refl

pub two_nodes-IsValid : IsValid two_nodes
two_nodes-IsValid = record {
  distinct = ((refl, (refl, tt)), ((refl, tt), (tt, tt)));
  entries = (
    record { under_id = refl; total = omega arith; composite = (refl, refl) },
    (
      record { under_id = refl; total = omega arith; composite = (refl, refl) },
      (record { under_id = refl; total = omega arith; composite = (refl, refl) }, tt),
    ),
  );
}
