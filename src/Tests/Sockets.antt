-- ===== src/Tests/Sockets.antt =====
-- A node that joins an orchestrator, over a wire that knows the messages of the handshake.
use neural_swarm_ai.Common.{
  ℕ, zero, suc, ◌≡◌, refl, ap, String, Option, none, some, List, [], ◌∷◌, ◌+◌, ◌↔◌, ◌⊎◌, subst,
  true, arith, ok,
}
use neural_swarm_ai.Float.{Fixed, fixed_f32, Fixed-IsIeee}
use neural_swarm_ai.Compute.Status.{NodeStatus}
use neural_swarm_ai.Node.Registry.{NodeEntry, get}
use neural_swarm_ai.Protocol.{
  Bytes, SwarmMessage, auth_challenge, auth_response, node_announce, join_response, heartbeat,
}
use neural_swarm_ai.Crypto.Handshake.{sign_hmac, generate_ecdh_keys, derive_session_key}
use neural_swarm_ai.Orchestrator.Handlers.{Orchestrator, new}
use neural_swarm_ai.Orchestrator.Events.{HasValid}
use neural_swarm_ai.Pipeline.Stages.{new_pipeline}
use neural_swarm_ai.Transport.Wire.{binary, other, Wire, Carries}
use neural_swarm_ai.Transport.Server.{
  Secrets, Arrival, waiting, serving, closed, challenge, greet, step, handle_socket, handshake_aad,
}
use neural_swarm_ai.Transport.Client.{Hello, respond, announcement, hello, joined}
use neural_swarm_ai.Transport.Access.{IsMessage, Fits, Proves, Calls, step-Proves, step-Calls}
use neural_swarm_ai.Transport.Joining.{joined-step}
use neural_swarm_ai.Transport.Endings.{IsOwn, handle_socket_gone}
use neural_swarm_ai.Transport.Sockets.{
  Act, arrives, ends, prunes, Host, host_with, run, HasProved, run-HasValid,
}
use neural_swarm_ai.Tests.Samples.{
  sum, toy, toy-IsSound, names, desktop_profile, status_of, two_nodes, two_nodes-IsValid,
}

abbrev secrets : Secrets
secrets = record { nonce = 4 ∷ 2 ∷ []; secret = 9 ∷ [] }

abbrev my_status : NodeStatus Fixed
my_status = record (status_of 10 4096) { measured_at = some 3 }

abbrev key_32 : Bytes
key_32 =
    1 ∷ 2 ∷ 3 ∷ 4 ∷ 5 ∷ 6 ∷ 7 ∷ 8 ∷ 1 ∷ 2 ∷ 3 ∷ 4 ∷ 5 ∷ 6 ∷ 7 ∷ 8 ∷ 1 ∷ 2 ∷ 3 ∷ 4 ∷ 5 ∷ 6 ∷ 7 ∷ 8
    ∷ 1 ∷ 2 ∷ 3 ∷ 4 ∷ 5 ∷ 6 ∷ 7 ∷ 8 ∷ []

abbrev swarm : Orchestrator Fixed String
swarm = record {
  registry = two_nodes;
  pipeline = new_pipeline;
  total_model_layers = 32;
  shared_secret = "unused";
  cluster_key = key_32;
}

-- The messages of the node: its response and its announcement.
abbrev response : SwarmMessage Fixed String
response = auth_response desktop_profile.hostname (sign_hmac toy secrets.nonce "secret") (7 ∷ [])

abbrev announced : SwarmMessage Fixed String
announced =
    node_announce desktop_profile.hostname none desktop_profile
      (record my_status { latency_ms = some 12; measured_at = none })

-- Layers, each after a 1, and the bytes behind them after a 0.
abbrev write_layers : List ℕ → Bytes → Bytes
write_layers [] enc = 0 ∷ enc
write_layers (x ∷ xs) enc = 1 ∷ x ∷ write_layers xs enc

abbrev put_layer : ℕ → Option (List ℕ × Bytes) → Option (List ℕ × Bytes)
put_layer x none = none
put_layer x (some (xs, enc)) = some (x ∷ xs, enc)

abbrev read_layers : Bytes → Option (List ℕ × Bytes)
read_layers [] = none
read_layers (zero ∷ enc) = some ([], enc)
read_layers (suc k ∷ []) = none
read_layers (suc k ∷ x ∷ bytes) = put_layer x (read_layers bytes)

read_write_layers : (xs : List ℕ) (enc : Bytes) → read_layers (write_layers xs enc) ≡ some (xs, enc)
read_write_layers [] enc = refl
read_write_layers (x ∷ xs) enc = ap (put_layer x) (read_write_layers xs enc)

abbrev join_of : ℕ → Option (List ℕ × Bytes) → Option (SwarmMessage Fixed String)
join_of total none = none
join_of total (some (xs, enc)) = some (join_response xs total enc)

abbrev write : SwarmMessage Fixed String → Option Bytes
write (auth_challenge nonce public_key) = some (0 ∷ [])
write (auth_response node_id token_hash public_key) = some (1 ∷ [])
write (node_announce device_id peer_id profile status) = some (2 ∷ [])
write (join_response layers total enc) = some (3 ∷ total ∷ write_layers layers enc)
write heartbeat = some (4 ∷ [])
write _ = none

abbrev read : Bytes → Option (SwarmMessage Fixed String)
read (zero ∷ bytes) = some (auth_challenge secrets.nonce secrets.secret)
read (suc zero ∷ bytes) = some response
read (suc (suc zero) ∷ bytes) = some announced
read (suc (suc (suc zero)) ∷ total ∷ bytes) = join_of total (read_layers bytes)
read (suc (suc (suc zero)) ∷ []) = none
read (suc (suc (suc (suc k))) ∷ bytes) = some heartbeat
read [] = none

abbrev small_wire : Wire Fixed String
small_wire = record { serialize = write; deserialize = read }

some_fits : (a m : SwarmMessage Fixed String) → IsMessage a → some a ≡ some m → IsMessage m
some_fits a m h e = subst (λ k. IsMessage k) (cc e) h

join_fits :
    (total : ℕ) (o : Option (List ℕ × Bytes)) (m : SwarmMessage Fixed String)
    → join_of total o ≡ some m
    → IsMessage m
join_fits total none m h = cc h
join_fits total (some (xs, enc)) m h = some_fits (join_response xs total enc) m tt h

announced_fits : IsMessage announced
announced_fits = (omega arith, record { ram_available = omega arith; latency = omega arith })

small_wire-Fits : Fits small_wire
small_wire-Fits (zero ∷ bytes) m h = some_fits _ m tt h
small_wire-Fits (suc zero ∷ bytes) m h = some_fits response m tt h
small_wire-Fits (suc (suc zero) ∷ bytes) m h = some_fits announced m announced_fits h
small_wire-Fits (suc (suc (suc zero)) ∷ total ∷ bytes) m h = join_fits total (read_layers bytes) m h
small_wire-Fits (suc (suc (suc zero)) ∷ []) m h = cc h
small_wire-Fits (suc (suc (suc (suc k))) ∷ bytes) m h = some_fits heartbeat m tt h
small_wire-Fits [] m h = cc h

Carries-join :
    (layers : List ℕ) (total : ℕ) (enc : Bytes)
    → Carries small_wire (join_response layers total enc)
Carries-join layers total enc =
    (3 ∷ total ∷ write_layers layers enc, refl, ap (join_of total) (read_write_layers layers enc))

Carries-challenge : Carries small_wire (challenge toy small_wire secrets)
unfolding generate_ecdh_keys
Carries-challenge = (0 ∷ [], refl, refl)

Carries-response : Carries small_wire (
    respond toy small_wire
      (7 ∷ [])
      "secret"
      secrets.nonce
      (toy.public_of secrets.secret)
      desktop_profile)
unfolding generate_ecdh_keys
Carries-response = (1 ∷ [], refl, refl)

Carries-announced : Carries small_wire (announcement toy small_wire desktop_profile my_status 12)
Carries-announced = (2 ∷ [], refl, refl)

abbrev hello_at : Bytes → ℕ → Arrival
hello_at bin now = record { frame = binary bin; now = now; random = 1 ∷ 2 ∷ 3 ∷ [] }

step-Proves_example :
    ((step toy small_wire names "secret" secrets waiting (hello_at (1 ∷ []) 5) swarm).1 ≡ swarm)
    × ((step toy small_wire names "secret" secrets waiting (hello_at (1 ∷ []) 5) swarm).2 ≡ [])
    × ((id : String) (key : Bytes)
        → ((step toy small_wire names "secret" secrets waiting (hello_at (1 ∷ []) 5) swarm).0
            ≡ serving id key)
          ↔ Proves toy small_wire secrets "secret" (binary (1 ∷ [])) id key)
    × (((step toy small_wire names "secret" secrets waiting (hello_at (1 ∷ []) 5) swarm).0 ≡ closed)
        ⊎ ((id : String) × (key : Bytes) × ((step toy small_wire names "secret" secrets waiting
                (hello_at (1 ∷ []) 5)
                swarm).0
              ≡ serving id key)))
step-Proves_example = step-Proves toy small_wire names "secret" secrets (hello_at (1 ∷ []) 5) swarm

step-Calls_example :
    Calls toy small_wire names "my-pc" swarm
      (step toy small_wire names "secret" secrets
        (serving "my-pc" (8 ∷ []))
        (hello_at (2 ∷ []) 6)
        swarm).1
    × (((step toy small_wire names "secret" secrets
            (serving "my-pc" (8 ∷ []))
            (hello_at (2 ∷ []) 6)
            swarm).0
          ≡ serving "my-pc" (8 ∷ []))
        ⊎ ((step toy small_wire names "secret" secrets
              (serving "my-pc" (8 ∷ []))
              (hello_at (2 ∷ []) 6)
              swarm).0
            ≡ closed))
step-Calls_example =
    step-Calls toy small_wire names small_wire-Fits "secret" secrets "my-pc" (8 ∷ [])
      (hello_at (2 ∷ []) 6) swarm

abbrev session : Bytes
session = derive_session_key toy (7 ∷ []) (9 ∷ []) secrets.nonce

-- The frames after the first: an announcement of the node itself, a heartbeat, and a text.
abbrev later : List Arrival
later =
    hello_at (2 ∷ []) 7 ∷ hello_at (4 ∷ []) 8 ∷ record { frame = other; now = 9; random = [] } ∷ []

some-IsOwn :
    (a m : SwarmMessage Fixed String)
    → IsOwn toy small_wire names "my-pc" a
    → some a ≡ some m
    → IsOwn toy small_wire names "my-pc" m
some-IsOwn a m h e = subst (λ k. IsOwn toy small_wire names "my-pc" k) (cc e) h

join-IsOwn :
    (total : ℕ) (o : Option (List ℕ × Bytes)) (m : SwarmMessage Fixed String)
    → join_of total o ≡ some m
    → IsOwn toy small_wire names "my-pc" m
join-IsOwn total none m h = cc h
join-IsOwn total (some (xs, enc)) m h = some-IsOwn (join_response xs total enc) m tt h

read-IsOwn :
    (bin : Bytes) (m : SwarmMessage Fixed String)
    → read bin ≡ some m
    → IsOwn toy small_wire names "my-pc" m
read-IsOwn (zero ∷ bytes) m h = some-IsOwn _ m tt h
read-IsOwn (suc zero ∷ bytes) m h = some-IsOwn response m tt h
read-IsOwn (suc (suc zero) ∷ bytes) m h = some-IsOwn announced m refl h
read-IsOwn (suc (suc (suc zero)) ∷ total ∷ bytes) m h = join-IsOwn total (read_layers bytes) m h
read-IsOwn (suc (suc (suc zero)) ∷ []) m h = cc h
read-IsOwn (suc (suc (suc (suc k))) ∷ bytes) m h = some-IsOwn heartbeat m tt h
read-IsOwn [] m h = cc h

handle_socket_gone_example :
    get
      (handle_socket toy small_wire names "secret" secrets true
        (hello_at (1 ∷ []) 5 ∷ later)
        swarm).0.registry
      "my-pc"
    ≡ none
unfolding derive_session_key
handle_socket_gone_example =
    handle_socket_gone toy small_wire names Fixed-IsIeee small_wire-Fits "secret" secrets
      (hello_at (1 ∷ []) 5) "my-pc" session later swarm (1 ∷ [], 7 ∷ [], refl, refl, refl)
      (
        λ bin m e h. read-IsOwn bin m h,
        (λ bin m e h. read-IsOwn bin m h, (λ bin m e h. read-IsOwn bin m h, tt)),
      )
      two_nodes-IsValid

abbrev acts : List Act
acts =
    arrives 0 (hello_at (1 ∷ []) 5)
    ∷ arrives 1 (hello_at (4 ∷ []) 6)
    ∷ arrives 0 (hello_at (2 ∷ []) 7)
    ∷ prunes 8 60
    ∷ ends 1
    ∷ []

abbrev end_state : Host Fixed String
end_state =
    run toy small_wire names acts
      (host_with (new key_32 32 "unused") "secret" (secrets ∷ secrets ∷ []))

run-HasValid_example :
    HasValid end_state.orchestrator
    × ((id : String)
        → HasProved toy small_wire names "secret" (secrets ∷ secrets ∷ []) acts id
          ⊎ (get end_state.orchestrator.registry id ≡ none))
run-HasValid_example =
    run-HasValid toy small_wire names Fixed-IsIeee small_wire-Fits key_32 32 "unused" "secret"
      (secrets ∷ secrets ∷ []) acts

abbrev nonce_12 : Bytes
nonce_12 = 1 ∷ 2 ∷ 3 ∷ 4 ∷ 5 ∷ 6 ∷ 7 ∷ 8 ∷ 9 ∷ 10 ∷ 11 ∷ 12 ∷ []

joined-step_example :
    (ch : Bytes) × (h : Hello) × (o : Orchestrator Fixed String) × (e : NodeEntry Fixed)
    × (reply : Bytes) × (greet toy small_wire secrets true ≡ (waiting, ch ∷ []))
    × (hello toy small_wire
          (7 ∷ [])
          "secret"
          desktop_profile
          my_status
          12
          true
          true
          (some (binary ch))
        ≡ ok h)
    × (step toy small_wire names "secret" secrets waiting
          (record { frame = binary h.auth_bin; now = 5; random = [] })
          swarm
        ≡ (serving "my-pc" h.session_key, swarm, []))
    × (step toy small_wire names "secret" secrets
          (serving "my-pc" h.session_key)
          (record { frame = binary h.announce_bin; now = 6; random = nonce_12 })
          swarm
        ≡ (serving "my-pc" h.session_key, o, reply ∷ []))
    × (get o.registry "my-pc" ≡ some e)
    × (joined toy small_wire h.session_key (some (binary reply)) ≡ ok key_32)
joined-step_example =
    joined-step toy small_wire names "secret" secrets toy-IsSound (7 ∷ []) desktop_profile my_status
      12 5 6 [] nonce_12 ((sum session + sum handshake_aad) ∷ key_32) swarm swarm Carries-challenge
      Carries-response Carries-announced Carries-join refl refl refl
