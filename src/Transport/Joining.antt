-- ===== src/Transport/Joining.antt =====
-- A node that joins: `connect_to_cluster` against `handle_socket`, both of `src/transport.rs`.
use neural_swarm_ai.Common.{
  ℕ, ◌%◌, ◌^◌, ◌≡◌, refl, true, String, str_eq, eq_iff, some, List, [], ◌∷◌, ◌++◌, length, ok, ◌==◌,
  arith,
}
use neural_swarm_ai.Float.{F32}
use neural_swarm_ai.Compute.Profile.{NodeProfile}
use neural_swarm_ai.Compute.Status.{NodeStatus}
use neural_swarm_ai.Node.Registry.{NodeEntry, get}
use neural_swarm_ai.Protocol.{Bytes, auth_response, join_response}
use neural_swarm_ai.Crypto.Primitives.{Primitives, IsSound}
use neural_swarm_ai.Crypto.Envelope.{encrypt_with_aad}
use neural_swarm_ai.Crypto.Handshake.{sign_hmac, generate_ecdh_keys, derive_session_key}
use neural_swarm_ai.Crypto.Roundtrip.{decrypt-encrypt, verify_hmac_iff, derive_session_key_agree}
use neural_swarm_ai.Orchestrator.Rebalance.{PeerIds}
use neural_swarm_ai.Orchestrator.Handlers.{Orchestrator, handle_announce}
use neural_swarm_ai.Orchestrator.Replies.{handle_announce-joins}
use neural_swarm_ai.Transport.Wire.{binary, Wire, skipped, received, Carries}
use neural_swarm_ai.Transport.Server.{
  Secrets, Arrival, waiting, serving, handshake_aad, challenge, greet, check_response, authenticate,
  seal_key, send, answered, on_message, on_frame, step,
}
use neural_swarm_ai.Transport.Client.{
  Hello, respond, announcement, answer_challenge, hello, open_key, joined,
}

module _ {F P : Type 0} ⦃f : F32 F⦄ (c : Primitives) (w : Wire F P) (k : Secrets)
    (my_secret : Bytes) (shared_secret : String) (profile : NodeProfile) (status : NodeStatus F)
    (latency : ℕ) where
  abbrev session : Bytes
  session = derive_session_key c my_secret (c.public_of k.secret) k.nonce

  -- A node that is sent a challenge answers it with its response and its announcement.
  greeted :
      Carries w (challenge c w k)
      → Carries w (respond c w my_secret shared_secret k.nonce (c.public_of k.secret) profile)
      → Carries w (announcement c w profile status latency)
      → (ch : Bytes) × (h : Hello) × (greet c w k true ≡ (waiting, ch ∷ []))
        × (hello c w my_secret shared_secret profile status latency true true (some (binary ch))
            ≡ ok h)
        × (h.session_key ≡ session)
        × (w.deserialize h.auth_bin
            ≡ some (
                auth_response profile.hostname
                  (sign_hmac c k.nonce shared_secret)
                  (c.public_of my_secret)))
        × (w.deserialize h.announce_bin ≡ some (received (announcement c w profile status latency)))
  unfolding greet hello answer_challenge generate_ecdh_keys
  greeted (ch, written, read) (auth_bin, written₁, read₁) (announce_bin, written₂, read₂) = (
    ch,
    record { session_key = session; auth_bin = auth_bin; announce_bin = announce_bin },
    rw (greet, written) refl,
    rw (hello, read, answer_challenge, written₁, written₂) refl,
    refl,
    read₁,
    read₂,
  )

module _ {F P : Type 0} ⦃f : F32 F⦄ (c : Primitives) (w : Wire F P) (peers : PeerIds P)
    (shared_secret : String) (k : Secrets) where
  -- The server takes the response of a node with the same secret.
  authenticated :
      IsSound c
      → (my_secret : Bytes) (id : String) (bin : Bytes) (a : Arrival) (o : Orchestrator F P)
      → a.frame ≡ binary bin
      → w.deserialize bin
        ≡ some (auth_response id (sign_hmac c k.nonce shared_secret) (c.public_of my_secret))
      → step c w peers shared_secret k waiting a o
        ≡ (serving id (derive_session_key c my_secret (c.public_of k.secret) k.nonce), o, [])
  unfolding step authenticate check_response generate_ecdh_keys
  authenticated sound my_secret id bin a o e read =
      let valid = (verify_hmac_iff c k.nonce shared_secret _).1 refl in
      let agree = derive_session_key_agree c sound k.secret my_secret k.nonce in
      rw (step, e, authenticate, read, check_response, valid, agree) refl

  -- The announcement of the node itself is answered with the sealed cluster key.
  announced :
      ((layers : List ℕ) (total : ℕ) (enc : Bytes) → Carries w (join_response layers total enc))
      → (key : Bytes) (profile : NodeProfile) (status : NodeStatus F) (latency : ℕ)
        (bin text : Bytes) (a : Arrival) (o : Orchestrator F P)
      → a.frame ≡ binary bin
      → w.deserialize bin ≡ some (received (announcement c w profile status latency))
      → c.seal key a.random o.cluster_key handshake_aad ≡ some text
      → (o' : Orchestrator F P) × (e : NodeEntry F) × (reply : Bytes) × (step c w peers
            shared_secret k
            (serving profile.hostname key)
            a
            o
          ≡ (serving profile.hostname key, o', reply ∷ []))
        × (get o'.registry profile.hostname ≡ some e)
        × (w.deserialize reply
            ≡ some (join_response e.assigned_layers o.total_model_layers (a.random ++ text)))
  unfolding step on_frame on_message seal_key send encrypt_with_aad
  announced carries key profile status latency bin text a o e read sealed =
      let late = skipped (record status { latency_ms = some (latency % 2 ^ 32) }) in
      let (entry, found, answer) =
        handle_announce-joins peers a.now o profile.hostname profile late in
      let (reply, written, read') =
        carries entry.assigned_layers o.total_model_layers (a.random ++ text) in
      let self : str_eq profile.hostname profile.hostname ≡ true = (eq_iff _ _).1 refl in
      let o' = (handle_announce peers a.now o profile.hostname profile late).0 in
      let m = join_response entry.assigned_layers o.total_model_layers (a.random ++ text) in
      let handled : on_message c w peers profile.hostname key a.now a.random
            (received (announcement c w profile status latency)) o
          ≡ (o', answered (some m)) =
        rw (on_message, self, answer, seal_key, encrypt_with_aad, sealed) refl in
      let framed : on_frame c w peers profile.hostname key a o ≡ (o', answered (some m)) =
        rw (on_frame, e, read) handled in
      let sent : send c w (some m) ≡ reply ∷ [] = rw (send, written) refl in
      (o', entry, reply, rw (step, framed, framed, sent) refl, found, read')

  -- What the node reads of the answer.
  opened :
      IsSound c
      → (key : Bytes) (random text reply cluster_key : Bytes) (layers : List ℕ) (total : ℕ)
      → length random ≡ 12
      → length cluster_key ≡ 32
      → c.seal key random cluster_key handshake_aad ≡ some text
      → w.deserialize reply ≡ some (join_response layers total (random ++ text))
      → joined c w key (some (binary reply)) ≡ ok cluster_key
  unfolding joined open_key encrypt_with_aad
  opened sound key random text reply cluster_key layers total n size sealed read =
      let locked : encrypt_with_aad c random cluster_key key handshake_aad ≡ ok (random ++ text) =
        rw (encrypt_with_aad, sealed) refl in
      let unlocked =
        decrypt-encrypt c sound random cluster_key key handshake_aad (random ++ text) n locked in
      let whole : (length cluster_key == 32) ≡ true = grind arith in
      rw (joined, read, open_key, unlocked, whole) refl

  -- A node and a server with the same shared secret complete the handshake, if its messages are read
  -- as they are written, but for the time of the measurement that the serialization skips, the random nonce has 12 bytes and the cluster key 32: the node answers the
  -- challenge, the server takes the node for the one it is, with the same session key, registers it
  -- on its announcement, and its answer gives the node the cluster key. The orchestrator may have
  -- changed between the two frames.
  pub joined-step :
      IsSound c
      → (my_secret : Bytes) (profile : NodeProfile) (status : NodeStatus F) (latency : ℕ)
        (now₁ now₂ : ℕ) (random₁ random₂ text : Bytes) (o₁ o₂ : Orchestrator F P)
      → Carries w (challenge c w k)
      → Carries w (respond c w my_secret shared_secret k.nonce (c.public_of k.secret) profile)
      → Carries w (announcement c w profile status latency)
      → ((layers : List ℕ) (total : ℕ) (enc : Bytes) → Carries w (join_response layers total enc))
      → length random₂ ≡ 12
      → length o₂.cluster_key ≡ 32
      → c.seal
          (derive_session_key c my_secret (c.public_of k.secret) k.nonce)
          random₂
          o₂.cluster_key
          handshake_aad
        ≡ some text
      → (ch : Bytes) × (h : Hello) × (o : Orchestrator F P) × (e : NodeEntry F) × (reply : Bytes)
        × (greet c w k true ≡ (waiting, ch ∷ []))
        × (hello c w my_secret shared_secret profile status latency true true (some (binary ch))
            ≡ ok h)
        × (step c w peers shared_secret k waiting
              (record { frame = binary h.auth_bin; now = now₁; random = random₁ })
              o₁
            ≡ (serving profile.hostname h.session_key, o₁, []))
        × (step c w peers shared_secret k
              (serving profile.hostname h.session_key)
              (record { frame = binary h.announce_bin; now = now₂; random = random₂ })
              o₂
            ≡ (serving profile.hostname h.session_key, o, reply ∷ []))
        × (get o.registry profile.hostname ≡ some e)
        × (joined c w h.session_key (some (binary reply)) ≡ ok o₂.cluster_key)
  joined-step sound my_secret profile status latency now₁ now₂ random₁ random₂ text o₁ o₂ m₁ m₂ m₃
        m₄ n size sealed =
      let (ch, h, greeting, answer, same, read₁, read₂) =
        greeted c w k my_secret shared_secret profile status latency m₁ m₂ m₃ in
      let a₁ : Arrival = record { frame = binary h.auth_bin; now = now₁; random = random₁ } in
      let a₂ : Arrival = record { frame = binary h.announce_bin; now = now₂; random = random₂ } in
      let key = derive_session_key c my_secret (c.public_of k.secret) k.nonce in
      let entered = authenticated sound my_secret profile.hostname h.auth_bin a₁ o₁ refl read₁ in
      let (o, e, reply, stepped, found, read) =
        announced m₄ key profile status latency h.announce_bin text a₂ o₂ refl read₂ sealed in
      (
        ch,
        h,
        o,
        e,
        reply,
        greeting,
        answer,
        rw same entered,
        rw same stepped,
        found,
        rw same (
            opened sound key random₂ text reply o₂.cluster_key e.assigned_layers
              o₂.total_model_layers n size sealed read),
      )
