-- ===== src/Tests/Computing.antt =====
-- The capacity, the detection of a device and the monitor at sample inputs.
use neural_swarm_ai.Common.{ℕ, ◌*◌, true, false, ◌≡◌, refl, some, List, [], ◌∷◌, ◌++◌, arith}
use neural_swarm_ai.Float.{Fixed, nan, pos, fixed_f32, Fixed-IsIeee, zero_f, one_f, ◌≼◌, IsUnit}
use neural_swarm_ai.Compute.Profile.{DeviceType, custom}
use neural_swarm_ai.Compute.Status.{NodeStatus, penalty_factor, unknown}
use neural_swarm_ai.Compute.Capacity.{ResourceReservation, for_device, custom_reservation, compute}
use neural_swarm_ai.Compute.Monitor.{Reading, default_config, sample, run}
use neural_swarm_ai.Compute.Bounds.{composite-IsUnit, cpu_score_ceiling}
use neural_swarm_ai.Compute.Reports.{IsSpaced, last_of, IsFresh, run-IsSpaced, run-IsFresh}
use neural_swarm_ai.Tests.Samples.{desktop_profile, status_of}

abbrev idle : NodeStatus Fixed
idle = status_of 10 8000

-- A status with a NaN for its usage.
abbrev broken : NodeStatus Fixed
broken = record idle { cpu_usage = nan; latency_ms = some 3000 }

abbrev reserve : ResourceReservation Fixed
reserve = for_device DeviceType.desktop

compute-idle : (compute desktop_profile idle reserve).composite ≡ pos 565312
unfolding compute for_device penalty_factor
compute-idle = refl

custom_desktop :
    custom (record { is_x86_64 = true; is_aarch64 = false }) DeviceType.desktop 8 16384 "my-pc"
    ≡ desktop_profile
unfolding custom
custom_desktop = refl

custom_reservation_clamps : (custom_reservation (pos 2000000) 100).cpu_reserved ≡ pos 950000
unfolding custom_reservation
custom_reservation_clamps = refl

composite-IsUnit_example : IsUnit (compute desktop_profile broken reserve).composite
composite-IsUnit_example =
    composite-IsUnit Fixed-IsIeee desktop_profile broken reserve (omega arith)
      (record { ram_available = omega arith; latency = omega arith })

cpu_score_ceiling_example :
    (zero_f ≼ (compute desktop_profile idle reserve).cpu_score)
    × ((compute desktop_profile idle reserve).cpu_score ≼ fixed_f32.sub one_f reserve.cpu_reserved)
unfolding for_device
cpu_score_ceiling_example =
    cpu_score_ceiling Fixed-IsIeee desktop_profile idle reserve (refl, refl) refl

abbrev reading_of : ℕ → Reading Fixed
reading_of percent = record {
  cpus = fixed_f32.lit percent 1 ∷ [];
  used_memory = 0;
  available_memory = 8000 * 1024 * 1024;
  now = 1;
}

abbrev readings : List (Reading Fixed)
readings = reading_of 10 ∷ reading_of 12 ∷ reading_of 80 ∷ []

run-IsSpaced_example :
    IsSpaced default_config unknown (run default_config readings).0
    × ((run default_config readings).1
        ≡ last_of default_config unknown (run default_config readings).0)
run-IsSpaced_example = run-IsSpaced default_config readings

run-IsFresh_example :
    IsFresh default_config
      (run default_config (readings ++ (reading_of 81 ∷ []))).1
      (sample (reading_of 81))
run-IsFresh_example = run-IsFresh default_config readings (reading_of 81)
