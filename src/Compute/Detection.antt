-- ===== src/Compute/Detection.antt =====
-- The classes of `DeviceType::detect`.
use neural_swarm_ai.Common.{ℕ, ◌≤◌, ◌<◌, ◌≡◌, ◌≢◌, ◌↔◌, arith}
use neural_swarm_ai.Compute.Profile.{DeviceType, detect_device_type}

-- `detect` finds an embedded device exactly below 2048 MB, a mobile one exactly from there to below
-- 4096 MB with at most 4 cores, a server exactly from 16 cores and 32768 MB on, and never a laptop.
pub detect_device_type_classes :
    (cores ram : ℕ)
    → ((detect_device_type cores ram ≡ DeviceType.embedded) ↔ (ram < 2048))
      × ((detect_device_type cores ram ≡ DeviceType.mobile)
          ↔ ((2048 ≤ ram) × (ram < 4096) × (cores ≤ 4)))
      × ((detect_device_type cores ram ≡ DeviceType.server) ↔ ((16 ≤ cores) × (32768 ≤ ram)))
      × (detect_device_type cores ram ≢ DeviceType.laptop)
unfolding detect_device_type
detect_device_type_classes cores ram = (ground arith, ground arith, ground arith, ground arith)
