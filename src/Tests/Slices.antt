-- ===== src/Tests/Slices.antt =====
-- The model of three layers on one node and in slices.

use neural_swarm_ai.Model.Experts.{empties, route_rows}
use neural_swarm_ai.Model.Routing.{lengths, AreAligned, route_rows-AreAligned}
use neural_swarm_ai.Model.Causal.{mask_rows_entry}
use neural_swarm_ai.Model.Weights.{mask_rows}
use neural_swarm_ai.Common.{
  get_elem?, range, ltb, ◌*◌, ◌+◌, ℕ, ◌≡◌, refl, if◌then◌else◌, none, some, List, [], ◌∷◌, length,
  ok, arith,
}
use neural_swarm_ai.Float.{Fixed, pos, neg, fixed_f32}
use neural_swarm_ai.Protocol.{Bytes}
use neural_swarm_ai.Model.Handover.{set_state-get_state}
use neural_swarm_ai.Model.Backend.{
  CandleBackend, url, new_backend, load_model, set_state, get_state, run_layers,
}
use neural_swarm_ai.Model.Chain.{Simulates, run_chain}
use neural_swarm_ai.Model.Chain.Whole.{run_chain-run_layers}
use neural_swarm_ai.Model.Chain.Parts.{ends_of}
use neural_swarm_ai.Model.Chain.Loaded.{load_chain, load_chain-Simulates}
use neural_swarm_ai.Tests.Tiny.{
  Grid, grid, tiny, disk, file, tiny-IsLawful, model, file-loads, model-three, cuts,
  cuts-IsPartition,
}

load_chain-Simulates_example :
    Simulates tiny
      (ends_of model)
      (load_model tiny disk new_backend "m").0
      (load_chain tiny disk (url "u") 0 cuts)
load_chain-Simulates_example =
    load_chain-Simulates tiny disk file (url "u") "m" model cuts refl refl file-loads
      (rw model-three (omega arith)) cuts-IsPartition

run_chain-run_layers_example :
    ((run_chain tiny disk (load_chain tiny disk (url "u") 0 cuts) [] [] (7 ∷ 8 ∷ []) 0).1
      ≡ (run_layers tiny disk
          (load_model tiny disk new_backend "m").0
          0
          model.total_layers
          (7 ∷ 8 ∷ [])
          0).1)
    × Simulates tiny
        (ends_of model)
        (run_layers tiny disk
          (load_model tiny disk new_backend "m").0
          0
          model.total_layers
          (7 ∷ 8 ∷ [])
          0).0
        (run_chain tiny disk (load_chain tiny disk (url "u") 0 cuts) [] [] (7 ∷ 8 ∷ []) 0).0
run_chain-run_layers_example =
    run_chain-run_layers tiny disk tiny-IsLawful (ends_of model)
      (load_model tiny disk new_backend "m").0 (load_chain tiny disk (url "u") 0 cuts) (7 ∷ 8 ∷ [])
      0
      (load_chain-Simulates tiny disk file (url "u") "m" model cuts refl refl file-loads
        (rw model-three (omega arith)) cuts-IsPartition)

abbrev passing : CandleBackend Grid Fixed Fixed Fixed
passing = record {
  model = none;
  intermediate_state = some (grid 2 (pos 5 ∷ neg 3 ∷ []));
  source = none;
  loaded_range = none;
}

set_state-get_state_example :
    (bytes : Bytes) × (get_state tiny disk passing ≡ ok bytes)
    × ((b : CandleBackend Grid Fixed Fixed Fixed)
        → set_state tiny disk b bytes
          ≡ (record b { intermediate_state = some (grid 2 (pos 5 ∷ neg 3 ∷ [])) }, ok tt))
set_state-get_state_example =
    set_state-get_state tiny disk tiny-IsLawful passing (grid 2 (pos 5 ∷ neg 3 ∷ [])) (1, 2, 1) refl
      refl

-- Two rows with weights for three experts, of which each uses two.
abbrev weights : List (List Fixed)
weights = (pos 1 ∷ pos 2 ∷ pos 3 ∷ []) ∷ (pos 4 ∷ pos 5 ∷ []) ∷ []

route_rows-AreAligned_example :
    (acc : List (List ℕ) × List (List Fixed)) × (route_rows tiny 2 0 weights (empties 3, empties 3)
      ≡ some acc)
    × AreAligned tiny 3 acc
unfolding empties lengths
route_rows-AreAligned_example =
    route_rows-AreAligned tiny 2 0 3 weights (empties 3, empties 3) (omega arith, (omega arith, tt))
      (refl, refl, refl)

mask_rows_entry_example :
    (length (mask_rows 3 (range 0 3)) ≡ 3 * 3)
    × (get_elem? (mask_rows 3 (range 0 3)) (1 * 3 + 2) ≡ some (if ltb 1 2 then 1 else 0))
mask_rows_entry_example = mask_rows_entry 3 1 2 (omega arith) (omega arith)
