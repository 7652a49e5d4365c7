-- ===== src/Transport/Access.antt =====
-- What a connection may do to the orchestrator: nothing before its node has authenticated, and
-- nothing to other nodes after.
use neural_swarm_ai.Common.{
  ℕ, ◌<◌, ◌^◌, ◌≡◌, ◌↔◌, ◌⊎◌, refl, sym, ap, ◌∙◌, Bool-cases, Option-cases, inl, inr, String,
  str_eq, eq_iff, Option, some, List, [], ◌∷◌, All,
}
use neural_swarm_ai.Float.{F32}
use neural_swarm_ai.Compute.Bounds.{IsWord}
use neural_swarm_ai.Protocol.{
  Bytes, SwarmMessage, auth_response, node_announce, status_update, drain_request, heartbeat,
}
use neural_swarm_ai.Crypto.Primitives.{Primitives}
use neural_swarm_ai.Crypto.Handshake.{
  sign_hmac, verify_hmac, generate_ecdh_keys, derive_session_key,
}
use neural_swarm_ai.Crypto.Roundtrip.{verify_hmac_iff}
use neural_swarm_ai.Orchestrator.Rebalance.{PeerIds}
use neural_swarm_ai.Orchestrator.Handlers.{Orchestrator}
use neural_swarm_ai.Orchestrator.Events.{
  Event, announce, update, drain, beat, IsEvent, IsAbout, apply, apply_all,
}
use neural_swarm_ai.Transport.Wire.{Frame, binary, other, Wire}
use neural_swarm_ai.Transport.Server.{
  Secrets, Arrival, waiting, serving, closed, Outcome, dropped, answered, check_response,
  authenticate, on_message, on_frame, step,
}

-- The integers of a message fit their types.
abbrev pub IsMessage : {F P : Type 0} → SwarmMessage F P → Type 0
IsMessage (node_announce device_id peer_id profile status) =
    (profile.ram_total_mb < 2 ^ 64) × IsWord status
IsMessage (status_update status) = IsWord status
IsMessage _ = Unit

-- `bincode` reads integers that fit their types.
abbrev pub Fits : {F P : Type 0} → Wire F P → Type 0
Fits {F} {P} w = (bin : Bytes) (m : SwarmMessage F P) → w.deserialize bin ≡ some m → IsMessage m

module _ {F P : Type 0} (c : Primitives) (w : Wire F P) where
  -- The frame holds a response of this node with a tag of the nonce under the shared secret, and
  -- this is the session key that follows.
  abbrev pub Proves : Secrets → String → Frame → String → Bytes → Type 0
  Proves k shared_secret frame id key =
      (bin : Bytes) × (their_public : Bytes) × (frame ≡ binary bin)
      × (w.deserialize bin
          ≡ some (auth_response id (sign_hmac c k.nonce shared_secret) their_public))
      × (key ≡ derive_session_key c k.secret their_public k.nonce)

  check_response_iff :
      (k : Secrets) (shared_secret : String) (m : SwarmMessage F P) (id : String) (key : Bytes)
      → (check_response c w k shared_secret m ≡ some (id, key)) ↔ (
          (their_public : Bytes) × (m
            ≡ auth_response id (sign_hmac c k.nonce shared_secret) their_public)
          × (key ≡ derive_session_key c k.secret their_public k.nonce))
  unfolding check_response generate_ecdh_keys
  check_response_iff k shared_secret (auth_response id' tag pk) id key =
      let same = verify_hmac_iff c k.nonce shared_secret tag in
      elim (Bool-cases (verify_hmac c k.nonce shared_secret tag)) [
        | inl t ↦
            let right : sign_hmac c k.nonce shared_secret ≡ tag = same.0 t in
            rw t (λ h. (pk, cc, cc h), λ (pk', m, e). cc)
        | inr t ↦ rw t (
          λ h. cc h,
          λ (pk', m, e).
              let right : sign_hmac c k.nonce shared_secret ≡ tag = cc m in
              cc (sym t ∙ same.1 right),
        )
      ]
  check_response_iff k shared_secret _ id key = (λ h. cc h, λ h. cc (h.1))

  authenticate_iff :
      (k : Secrets) (shared_secret : String) (frame : Frame) (id : String) (key : Bytes)
      → (authenticate c w k shared_secret frame ≡ some (id, key))
        ↔ Proves k shared_secret frame id key
  unfolding authenticate
  authenticate_iff k shared_secret other id key = (λ h. cc h, λ h. cc (h.2))
  authenticate_iff k shared_secret (binary bin) id key = elim (Option-cases (w.deserialize bin)) [
    | inl e ↦
        rw (authenticate, e)
          (
            λ h. cc h,
            λ (bin', pk, same, read, made).
                let here : bin ≡ bin' = cc same in cc (sym e ∙ ap w.deserialize here ∙ read),
          )
    | inr (m, e) ↦
        let known = check_response_iff k shared_secret m id key in
        rw (authenticate, e)
          (
            λ h.
                (let (pk, made, derived) = known.0 h in (bin, pk, refl, e ∙ ap some made, derived)),
            λ (bin', pk, same, read, made).
                let here : bin ≡ bin' = cc same in
                let it : m ≡ auth_response id (sign_hmac c k.nonce shared_secret) pk =
                  cc (sym e ∙ ap w.deserialize here ∙ read) in
                known.1 (pk, it, made),
          )
  ]

module _ {F P : Type 0} ⦃f : F32 F⦄ (c : Primitives) (w : Wire F P) (peers : PeerIds P) where
  -- The first frame of a connection changes nothing in the orchestrator and is not answered. After
  -- it the connection serves a node under a session key exactly if the frame is that node's response
  -- with the tag of this connection's nonce under the shared secret of the server, and the key the one
  -- derived from its public key; and else the connection is closed.
  pub step-Proves :
      (shared_secret : String) (k : Secrets) (a : Arrival) (o : Orchestrator F P)
      → ((step c w peers shared_secret k waiting a o).1 ≡ o)
        × ((step c w peers shared_secret k waiting a o).2 ≡ [])
        × ((id : String) (key : Bytes)
            → ((step c w peers shared_secret k waiting a o).0 ≡ serving id key)
              ↔ Proves c w k shared_secret a.frame id key)
        × (((step c w peers shared_secret k waiting a o).0 ≡ closed)
            ⊎ ((id : String) × (key : Bytes) × ((step c w peers shared_secret k waiting a o).0
                  ≡ serving id key)))
  unfolding step
  step-Proves shared_secret k a o = elim (Option-cases (authenticate c w k shared_secret a.frame)) [
    | inl e ↦
        rw (step, e)
          (
            refl,
            refl,
            (λ id key.
                let proof = authenticate_iff c w k shared_secret a.frame id key in
                (λ h. cc h, λ h. cc (sym e ∙ proof.1 h))),
            inl refl,
          )
    | inr ((id', key'), e) ↦
        rw (step, e)
          (
            refl,
            refl,
            (λ id key.
                let proof = authenticate_iff c w k shared_secret a.frame id key in
                (
                  λ h. proof.0 (e ∙ cc h),
                  λ h. let same : some (id', key') ≡ some (id, key) = sym e ∙ proof.1 h in cc same,
                )),
            inr (id', key', refl),
          )
  ]

  -- What a call about the node does, if its integers fit.
  abbrev pub Calls : String → Orchestrator F P → Orchestrator F P → Type 0
  Calls id o o' =
      (es : List (Event F)) × All (IsAbout id) es × All IsEvent es × (o' ≡ apply_all peers es o)

  no_call : (id : String) (o : Orchestrator F P) → Calls id o o
  unfolding apply_all
  no_call id o = ([], tt, tt, refl)

  one_call :
      (id : String) (e : Event F) (o : Orchestrator F P)
      → IsAbout id e
      → IsEvent e
      → Calls id o (apply peers e o)
  unfolding apply_all
  one_call id e o about fits = (e ∷ [], (about, tt), (fits, tt), refl)

  on_message-Calls :
      (id : String) (key : Bytes) (now : ℕ) (random : Bytes) (m : SwarmMessage F P)
      (o : Orchestrator F P)
      → IsMessage m
      → Calls id o (on_message c w peers id key now random m o).0
  unfolding on_message apply
  on_message-Calls id key now random (node_announce device_id peer_id profile status) o fits =
      elim (Bool-cases (str_eq device_id id)) [
        | inl e ↦
            rw (on_message, e)
              (one_call id (announce now device_id profile status) o ((eq_iff device_id id).0 e)
                fits)
        | inr e ↦ rw (on_message, e) (no_call id o)
      ]
  on_message-Calls id key now random (status_update status) o fits =
      one_call id (update now id status) o refl fits
  on_message-Calls id key now random heartbeat o fits = one_call id (beat now id) o refl tt
  on_message-Calls id key now random (drain_request reason) o fits =
      one_call id (drain id) o refl tt
  on_message-Calls id key now random _ o fits = no_call id o

  on_frame-Calls :
      Fits w
      → (id : String) (key : Bytes) (a : Arrival) (o : Orchestrator F P)
      → Calls id o (on_frame c w peers id key a o).0
  unfolding on_frame
  on_frame-Calls fits id key a o = of_frame a.frame refl
    where
      of_frame : (frame : Frame) → a.frame ≡ frame → Calls id o (on_frame c w peers id key a o).0
      of_frame other e = rw (on_frame, e) (no_call id o)
      of_frame (binary bin) e = elim (Option-cases (w.deserialize bin)) [
        | inl r ↦ rw (on_frame, e, r) (no_call id o)
        | inr (m, r) ↦
            rw (on_frame, e, r) (on_message-Calls id key a.now a.random m o (fits bin m r))
      ]

  Outcome-cases :
      (r : Outcome F P) → (r ≡ dropped) ⊎ ((m : Option (SwarmMessage F P)) × (r ≡ answered m))
  Outcome-cases dropped = inl refl
  Outcome-cases (answered m) = inr (m, refl)

  -- If the integers of the messages that are read fit their types, a frame on a connection that serves
  -- a node makes only calls about that node, and the connection serves the same node after it or is
  -- closed.
  pub step-Calls :
      Fits w
      → (shared_secret : String) (k : Secrets) (id : String) (key : Bytes) (a : Arrival)
        (o : Orchestrator F P)
      → Calls id o (step c w peers shared_secret k (serving id key) a o).1
        × (((step c w peers shared_secret k (serving id key) a o).0 ≡ serving id key)
            ⊎ ((step c w peers shared_secret k (serving id key) a o).0 ≡ closed))
  unfolding step
  step-Calls fits shared_secret k id key a o =
      let called = on_frame-Calls fits id key a o in
      elim (Outcome-cases (on_frame c w peers id key a o).1) [
        | inl e ↦ rw (step, e) (called, inr refl)
        | inr (m, e) ↦ rw (step, e) (called, inl refl)
      ]
