-- ===== src/Orchestrator/Silence.antt =====
-- Nodes that are silent for too long: the ids that `prune_dead_nodes` of `src/orchestrator.rs`
-- collects, and the registry without them.
use neural_swarm_ai.Common.{
  ℕ, ◌≡◌, refl, ◌∙◌, Bool, true, false, if◌then◌else◌, Bool-cases, inl, inr, str_eq, eq_iff, String,
  none, List, [], ◌∷◌, lookup, Absent, IsDistinct,
}
use neural_swarm_ai.Float.{F32}
use neural_swarm_ai.Node.Registry.{NodeEntry, NodeRegistry, remove_node}
use neural_swarm_ai.Node.Invariant.{IsValid, remove_node-IsValid}
use neural_swarm_ai.Orchestrator.Handlers.{is_dead, dead_ids, remove_all}
use neural_swarm_ai.Orchestrator.Members.{unless_silent, heard, last_heard, last_heard-remove_node}

-- The id is in the list.
unfoldable pub listed : List String → String → Bool
listed [] k = false
listed (id ∷ ids) k = if str_eq id k then true else listed ids k

module _ {F : Type 0} where
  pub last_heard-remove_all :
      ⦃f : F32 F⦄
      → (ids : List String) (r : NodeRegistry F) (k : String) → IsValid r
      → last_heard (remove_all ids r) k ≡ (if listed ids k then none else last_heard r k)
  unfolding remove_all listed
  last_heard-remove_all [] r k v = refl
  last_heard-remove_all (id ∷ ids) r k v =
      last_heard-remove_all ids (remove_node r id).0 k (remove_node-IsValid r id v)
      ∙ rw (last_heard-remove_node r id k v.distinct) (elim (Bool-cases (str_eq id k)) [
        | inl s ↦ elim (Bool-cases (listed ids k)) [
          | inl l ↦ rw (listed, s, l) refl
          | inr l ↦ rw (listed, s, l) refl
        ]
        | inr s ↦ rw (listed, s) refl
      ])

  listed-Absent :
      (now timeout_secs : ℕ) (m : List (String × NodeEntry F)) (k : String)
      → Absent k m
      → listed (dead_ids now timeout_secs m) k ≡ false
  unfolding listed dead_ids
  listed-Absent now timeout_secs [] k a = refl
  listed-Absent now timeout_secs ((i, e) ∷ m) k a = elim (Bool-cases (is_dead now timeout_secs e)) [
    | inl d ↦ rw (dead_ids, d, listed, a.0) (listed-Absent now timeout_secs m k a.1)
    | inr d ↦ rw (dead_ids, d) (listed-Absent now timeout_secs m k a.1)
  ]

  -- The removal of the dead takes away exactly those that are silent for too long.
  pub dead_silent :
      (now timeout_secs : ℕ) (m : List (String × NodeEntry F)) (k : String)
      → IsDistinct m
      → (if listed (dead_ids now timeout_secs m) k then none else heard (lookup k m))
        ≡ unless_silent now timeout_secs (heard (lookup k m))
  unfolding listed dead_ids is_dead lookup heard unless_silent
  dead_silent now timeout_secs [] k v = refl
  dead_silent now timeout_secs ((i, e) ∷ m) k v =
      let gone = listed-Absent now timeout_secs m k in
      let ih = dead_silent now timeout_secs m k v.1 in
      elim (Bool-cases (str_eq i k)) [
        | inl s ↦
            let out : listed (dead_ids now timeout_secs m) k ≡ false =
              listed-Absent now timeout_secs m k (rw (← (eq_iff i k).0 s) v.0) in
            elim (Bool-cases (is_dead now timeout_secs e)) [
              | inl d ↦ rw (lookup, s, dead_ids, d, listed, s, heard, unless_silent) refl
              | inr d ↦ rw (lookup, s, dead_ids, d, out, heard, unless_silent) refl
            ]
        | inr s ↦ elim (Bool-cases (is_dead now timeout_secs e)) [
          | inl d ↦ rw (lookup, s, dead_ids, d, listed, s) ih
          | inr d ↦ rw (lookup, s, dead_ids, d) ih
        ]
      ]
