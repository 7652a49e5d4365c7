-- ===== src/Compute/Reports.antt =====
-- What the monitor sends, over every sequence of samples.
use neural_swarm_ai.Common.{false, Bool-cases, List, [], ◌∷◌, ◌++◌, ◌≡◌, refl, ◌⊎◌, inl, inr}
use neural_swarm_ai.Float.{F32, ◌≼◌}
use neural_swarm_ai.Compute.Status.{NodeStatus, unknown, delta}
use neural_swarm_ai.Compute.Monitor.{MonitorConfig, Reading, sample, round, run_from, run}

module _ {F : Type 0} ⦃f : F32 F⦄ (config : MonitorConfig F) where
  -- Each report differs from the one before it by the threshold at least.
  abbrev pub IsSpaced : NodeStatus F → List (NodeStatus F) → Type 0
  IsSpaced prev [] = Unit
  IsSpaced prev (s ∷ sent) = (config.change_threshold ≼ delta s prev) × IsSpaced s sent

  abbrev pub last_of : NodeStatus F → List (NodeStatus F) → NodeStatus F
  last_of prev [] = prev
  last_of prev (s ∷ sent) = last_of s sent

  abbrev pub IsFresh : NodeStatus F → NodeStatus F → Type 0
  IsFresh final status =
      (final ≡ status) ⊎ (f.le config.change_threshold (delta status final) ≡ false)

  run_from-IsSpaced :
      (last : NodeStatus F) (rs : List (Reading F))
      → IsSpaced last (run_from config last rs).0
        × ((run_from config last rs).1 ≡ last_of last (run_from config last rs).0)
  unfolding run_from
  run_from-IsSpaced last [] = (tt, refl)
  run_from-IsSpaced last (r ∷ rs) =
      elim (Bool-cases (f.le config.change_threshold (delta (sample r) last))) [
        | inl e ↦ rw (e, round) (let (a, b) = run_from-IsSpaced (sample r) rs in ((e, a), b))
        | inr e ↦ rw (e, round) (run_from-IsSpaced last rs)
      ]

  run_from-IsFresh :
      (last : NodeStatus F) (rs : List (Reading F)) (r : Reading F)
      → IsFresh (run_from config last (rs ++ (r ∷ []))).1 (sample r)
  unfolding run_from
  run_from-IsFresh last [] r =
      elim (Bool-cases (f.le config.change_threshold (delta (sample r) last))) [
        | inl e ↦ rw (e, round) (inl refl)
        | inr e ↦ rw (e, round) (inr e)
      ]
  run_from-IsFresh last (q ∷ rs) r = run_from-IsFresh (round config last (sample q)).0 rs r

  -- Of the monitor's whole run: each status that it sends differs from the one sent before (the
  -- first from the unknown status) by the threshold at least, and the last report that it keeps is
  -- the last one sent.
  pub run-IsSpaced :
      (rs : List (Reading F))
      → IsSpaced unknown (run config rs).0 × ((run config rs).1 ≡ last_of unknown (run config rs).0)
  unfolding run
  run-IsSpaced = run_from-IsSpaced unknown

  -- After a run that ends with a sample, the last report is that sample, or the sample's change
  -- from the last report does not reach the threshold.
  pub run-IsFresh :
      (rs : List (Reading F)) (r : Reading F) → IsFresh (run config (rs ++ (r ∷ []))).1 (sample r)
  unfolding run
  run-IsFresh = run_from-IsFresh unknown
