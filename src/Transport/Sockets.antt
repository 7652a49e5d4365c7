-- ===== src/Transport/Sockets.antt =====
-- The connections of one orchestrator, `swarm_handler` of `src/transport.rs`: their frames arrive in
-- any order, and the orchestrator prunes nodes in between.
use neural_swarm_ai.Common.{
  ℕ, zero, suc, ◌≡◌, ◌⊎◌, refl, sym, ap, ◌∙◌, subst, Bool-cases, inl, inr, str_eq, eq_iff, String,
  none, some, get_elem?, List, [], ◌∷◌, map, All, lookup,
}
use mathlib.Core.List.{Memᴰ}
use neural_swarm_ai.Float.{F32, IsIeee}
use neural_swarm_ai.Node.Registry.{get}
use neural_swarm_ai.Protocol.{Bytes}
use neural_swarm_ai.Crypto.Primitives.{Primitives}
use neural_swarm_ai.Orchestrator.Rebalance.{PeerIds}
use neural_swarm_ai.Orchestrator.Handlers.{Orchestrator, new}
use neural_swarm_ai.Orchestrator.Events.{
  drain, prune, HasValid, apply, apply_all, apply-HasValid, apply_all-HasValid,
}
use neural_swarm_ai.Orchestrator.Strangers.{apply_all_stranger, prune_stranger}
use neural_swarm_ai.Transport.Wire.{Wire}
use neural_swarm_ai.Transport.Server.{
  Secrets, Arrival, Phase, waiting, serving, closed, step, hang_up,
}
use neural_swarm_ai.Transport.Access.{Fits, Calls, Proves, step-Proves, step-Calls}

pub record Socket : Type 0 where
  pub secrets : Secrets
  pub phase : Phase

-- What happens: a frame arrives at a connection, a connection ends, or dead nodes are pruned.
pub data Act : Type 0 where
  arrives : (socket : ℕ) (arrival : Arrival) → Act
  ends : (socket : ℕ) → Act
  prunes : (now timeout_secs : ℕ) → Act

pub record Host (F P : Type 0) : Type 0 where
  pub orchestrator : Orchestrator F P
  pub shared_secret : String
  pub sockets : List Socket

-- A connection whose challenge has been sent, and the orchestrator with several of them.
abbrev pub opened : Secrets → Socket
opened k = record { secrets = k; phase = waiting }

abbrev pub host_with : {F P : Type 0} → Orchestrator F P → String → List Secrets → Host F P
host_with o shared_secret secrets = record {
  orchestrator = o;
  shared_secret = shared_secret;
  sockets = map opened secrets;
}

abbrev pub secrets_of : List Socket → List Secrets
secrets_of [] = []
secrets_of (s ∷ ss) = s.secrets ∷ secrets_of ss

module _ {F P : Type 0} ⦃f : F32 F⦄ (c : Primitives) (w : Wire F P) (peers : PeerIds P) where
  -- A frame at the connection with this index.
  unfoldable pub step_at :
      String → ℕ → Arrival → List Socket → Orchestrator F P → List Socket × Orchestrator F P
  unfolding step
  step_at shared_secret n a [] o = ([], o)
  step_at shared_secret zero a (s ∷ ss) o =
      let (phase, o', sent) = step c w peers shared_secret s.secrets s.phase a o in
      (record s { phase = phase } ∷ ss, o')
  step_at shared_secret (suc n) a (s ∷ ss) o =
      let (ss', o') = step_at shared_secret n a ss o in (s ∷ ss', o')

  unfoldable pub end_at : ℕ → List Socket → Orchestrator F P → List Socket × Orchestrator F P
  unfolding hang_up
  end_at n [] o = ([], o)
  end_at zero (s ∷ ss) o = (record s { phase = closed } ∷ ss, hang_up c w peers s.phase o)
  end_at (suc n) (s ∷ ss) o = let (ss', o') = end_at n ss o in (s ∷ ss', o')

  unfoldable pub act : Act → Host F P → Host F P
  unfolding step_at end_at
  act (arrives n a) h =
      let (ss, o) = step_at h.shared_secret n a h.sockets h.orchestrator in
      record h { orchestrator = o; sockets = ss }
  act (ends n) h =
      let (ss, o) = end_at n h.sockets h.orchestrator in record h { orchestrator = o; sockets = ss }
  act (prunes now timeout_secs) h = record h {
    orchestrator = apply peers (prune now timeout_secs) h.orchestrator;
  }

  -- What happens in turn.
  unfoldable pub run : List Act → Host F P → Host F P
  unfolding act
  run [] h = h
  run (x ∷ acts) h = run acts (act x h)

  -- One of the frames that arrived at a connection is the response of this node with the tag of that
  -- connection's nonce under the shared secret.
  abbrev pub HasProved : String → List Secrets → List Act → String → Type 0
  HasProved shared_secret secrets acts id =
      (n : ℕ) × (a : Arrival) × (k : Secrets) × (key : Bytes) × Memᴰ (arrives n a) acts
      × (get_elem? secrets n ≡ some k)
      × Proves c w k shared_secret a.frame id key

  step-closed :
      (shared_secret : String) (k : Secrets) (a : Arrival) (o : Orchestrator F P)
      → step c w peers shared_secret k closed a o ≡ (closed, o, [])
  unfolding step
  step-closed shared_secret k a o = refl

  step_at-secrets :
      (shared_secret : String) (n : ℕ) (a : Arrival) (ss : List Socket) (o : Orchestrator F P)
      → secrets_of (step_at shared_secret n a ss o).0 ≡ secrets_of ss
  unfolding step_at
  step_at-secrets shared_secret n a [] o = refl
  step_at-secrets shared_secret zero a (s ∷ ss) o = refl
  step_at-secrets shared_secret (suc n) a (s ∷ ss) o =
      ap (λ ks. s.secrets ∷ ks) (step_at-secrets shared_secret n a ss o)

  end_at-secrets :
      (n : ℕ) (ss : List Socket) (o : Orchestrator F P)
      → secrets_of (end_at n ss o).0 ≡ secrets_of ss
  unfolding end_at
  end_at-secrets n [] o = refl
  end_at-secrets zero (s ∷ ss) o = refl
  end_at-secrets (suc n) (s ∷ ss) o = ap (λ ks. s.secrets ∷ ks) (end_at-secrets n ss o)

  -- What is shown of the nodes in the registry and of those that connections serve.
  module _ (laws : IsIeee F) (Good : String → Type 0) where
    abbrev Known : Orchestrator F P → Type 0
    Known o = (id : String) → Good id ⊎ (get o.registry id ≡ none)

    abbrev Serves : Phase → Type 0
    Serves phase = (id : String) (key : Bytes) → phase ≡ serving id key → Good id

    abbrev AreGood : List Socket → Type 0
    AreGood = All (λ s. Serves s.phase)

    -- What a call about a good node leaves.
    Calls-Known :
        (id : String) (o o' : Orchestrator F P)
        → Good id
        → Calls c w peers id o o'
        → HasValid o
        → Known o
        → HasValid o' × Known o'
    Calls-Known id o o' good (es, about, fits, same) v known = (
      rw same (apply_all-HasValid laws peers es o fits v),
      λ k. elim (known k) [
        | inl h ↦ inl h
        | inr h ↦ elim (Bool-cases (str_eq id k)) [
          | inl e ↦ inl (subst Good ((eq_iff id k).0 e) good)
          | inr e ↦ inr (rw same (apply_all_stranger peers laws id k es o e about fits v h))
        ]
      ],
    )

    step-Known :
        Fits w
        → (shared_secret : String) (k : Secrets) (phase : Phase) (a : Arrival)
          (o : Orchestrator F P)
        → ((id : String) (key : Bytes) → Proves c w k shared_secret a.frame id key → Good id)
        → HasValid o
        → Known o
        → Serves phase
        → let next = step c w peers shared_secret k phase a o in
          HasValid next.1 × Known next.1 × Serves next.0
    step-Known fits shared_secret k waiting a o proves v known served =
        let (same, quiet, proof, after) = step-Proves c w peers shared_secret k a o in
        (rw same v, rw same known, λ id key e. proves id key ((proof id key).0 e))
    step-Known fits shared_secret k (serving id key) a o proves v known served =
        let (called, after) = step-Calls c w peers fits shared_secret k id key a o in
        let (v', known') = Calls-Known id o _ (served id key refl) called v known in
        elim after [
          | inl e ↦ rw e (v', known', served)
          | inr e ↦ rw e (v', known', λ id' key' h. cc h)
        ]
    step-Known fits shared_secret k closed a o proves v known served =
        rw (step-closed shared_secret k a o) (v, known, served)

    hang_up-Known :
        (phase : Phase) (o : Orchestrator F P)
        → HasValid o
        → Known o
        → Serves phase
        → HasValid (hang_up c w peers phase o) × Known (hang_up c w peers phase o)
    unfolding hang_up apply apply_all
    hang_up-Known (serving id key) o v known served =
        Calls-Known id o _ (served id key refl) (drain id ∷ [], (refl, tt), (tt, tt), refl) v known
    hang_up-Known waiting o v known served = (v, known)
    hang_up-Known closed o v known served = (v, known)

    step_at-Known :
        Fits w
        → (shared_secret : String) (n : ℕ) (a : Arrival) (ss : List Socket) (o : Orchestrator F P)
        → ((k : Secrets) (id : String) (key : Bytes)
            → get_elem? (secrets_of ss) n ≡ some k
            → Proves c w k shared_secret a.frame id key
            → Good id)
        → HasValid o
        → Known o
        → AreGood ss
        → let next = step_at shared_secret n a ss o in
          HasValid next.1 × Known next.1 × AreGood next.0
    unfolding step_at
    step_at-Known fits shared_secret n a [] o proves v known served = (v, known, tt)
    step_at-Known fits shared_secret zero a (s ∷ ss) o proves v known served =
        let (v', known', served') =
          step-Known fits shared_secret s.secrets s.phase a o
            (λ id key. proves s.secrets id key refl) v known served.0 in
        (v', known', (served', served.1))
    step_at-Known fits shared_secret (suc n) a (s ∷ ss) o proves v known served =
        let (v', known', served') =
          step_at-Known fits shared_secret n a ss o proves v known served.1 in
        (v', known', (served.0, served'))

    end_at-Known :
        (n : ℕ) (ss : List Socket) (o : Orchestrator F P)
        → HasValid o
        → Known o
        → AreGood ss
        → let next = end_at n ss o in HasValid next.1 × Known next.1 × AreGood next.0
    unfolding end_at
    end_at-Known n [] o v known served = (v, known, tt)
    end_at-Known zero (s ∷ ss) o v known served =
        let (v', known') = hang_up-Known s.phase o v known served.0 in
        (v', known', ((λ id key h. cc h), served.1))
    end_at-Known (suc n) (s ∷ ss) o v known served =
        let (v', known', served') = end_at-Known n ss o v known served.1 in
        (v', known', (served.0, served'))

    run-Known :
        Fits w
        → (acts : List Act) (h : Host F P) (secrets : List Secrets)
        → ((id : String) → HasProved h.shared_secret secrets acts id → Good id)
        → secrets_of h.sockets ≡ secrets
        → HasValid h.orchestrator
        → Known h.orchestrator
        → AreGood h.sockets
        → HasValid (run acts h).orchestrator × Known (run acts h).orchestrator
    unfolding run act
    run-Known fits [] h secrets proves same v known served = (v, known)
    run-Known fits (arrives n a ∷ acts) h secrets proves same v known served =
        let (v', known', served') =
          step_at-Known fits h.shared_secret n a h.sockets h.orchestrator
            (λ k id key at proof.
              proves id
                (n, a, k, key, Memᴰ.head refl, ap (λ ks. get_elem? ks n) (sym same) ∙ at, proof))
            v known served in
        run-Known fits acts _ secrets
          (λ id (n', a', k, key, mem, at, proof).
            proves id (n', a', k, key, Memᴰ.tail mem, at, proof))
          (step_at-secrets h.shared_secret n a h.sockets h.orchestrator ∙ same) v' known' served'
    run-Known fits (ends n ∷ acts) h secrets proves same v known served =
        let (v', known', served') = end_at-Known n h.sockets h.orchestrator v known served in
        run-Known fits acts _ secrets
          (λ id (n', a', k, key, mem, at, proof).
            proves id (n', a', k, key, Memᴰ.tail mem, at, proof))
          (end_at-secrets n h.sockets h.orchestrator ∙ same) v' known' served'
    run-Known fits (prunes now timeout_secs ∷ acts) h secrets proves same v known served =
        let v' = apply-HasValid laws peers (prune now timeout_secs) h.orchestrator tt v in
        let known' : Known (apply peers (prune now timeout_secs) h.orchestrator) = λ k.
          elim (known k) [
            | inl e ↦ inl e
            | inr e ↦ inr (prune_stranger peers now timeout_secs h.orchestrator k v e)
          ] in
        run-Known fits acts _ secrets
          (λ id (n', a', k, key, mem, at, proof).
            proves id (n', a', k, key, Memᴰ.tail mem, at, proof))
          same v' known' served

    opened-AreGood : (secrets : List Secrets) → AreGood (map opened secrets)
    opened-AreGood [] = tt
    opened-AreGood (k ∷ ks) = ((λ id key h. cc h), opened-AreGood ks)

  secrets_of-opened : (secrets : List Secrets) → secrets_of (map opened secrets) ≡ secrets
  secrets_of-opened [] = refl
  secrets_of-opened (k ∷ ks) = ap (λ ks'. k ∷ ks') (secrets_of-opened ks)

  module _ (laws : IsIeee F) where
    -- If the integers of the messages that are read fit their types, then whatever arrives at the
    -- connections of a new orchestrator, in any order, and however they end, its registry is valid,
    -- and for every node in it one of the frames that arrived is that node's response with the tag
    -- of the nonce of the connection that it arrived at, under the shared secret of the server.
    pub run-HasValid :
        Fits w
        → (cluster_key : Bytes) (total_layers : ℕ) (unused shared_secret : String)
          (secrets : List Secrets) (acts : List Act)
        → let end_state =
            run acts (host_with (new cluster_key total_layers unused) shared_secret secrets) in
          HasValid end_state.orchestrator
          × ((id : String)
              → HasProved shared_secret secrets acts id
                ⊎ (get end_state.orchestrator.registry id ≡ none))
    unfolding new get lookup
    run-HasValid fits cluster_key total_layers unused shared_secret secrets acts =
        let o : Orchestrator F P = new cluster_key total_layers unused in
        let Good = HasProved shared_secret secrets acts in
        run-Known laws Good fits acts (host_with o shared_secret secrets) secrets (λ id h. h)
          (secrets_of-opened secrets) (record { distinct = tt; entries = tt }) (λ k. inr refl)
          (opened-AreGood laws Good secrets)
