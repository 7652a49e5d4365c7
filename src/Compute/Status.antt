-- ===== src/Compute/Status.antt =====
-- `src/compute/status.rs`: the dynamic status of a node, over any type of `f32`.
use neural_swarm_ai.Common.{
  ℕ, ◌+◌, ◌%◌, ◌^◌, max, Bool, true, false, ◌&&◌, ◌==◌, Option, none, some,
}
use neural_swarm_ai.Float.{F32}

pub data ThermalState : Type 0 where
  nominal warm throttling critical : ThermalState

-- `measured_at` is an `Instant`, in nanoseconds.
pub record NodeStatus (F : Type 0) : Type 0 where
  pub cpu_usage : F
  pub ram_used_mb : ℕ  -- u64
  pub ram_available_mb : ℕ  -- u64
  pub thermal : ThermalState
  pub latency_ms : Option ℕ  -- u32
  pub measured_at : Option ℕ

pub thermal_eq : ThermalState → ThermalState → Bool
thermal_eq ThermalState.nominal ThermalState.nominal = true
thermal_eq ThermalState.warm ThermalState.warm = true
thermal_eq ThermalState.throttling ThermalState.throttling = true
thermal_eq ThermalState.critical ThermalState.critical = true
thermal_eq _ _ = false

pub latency_eq : Option ℕ → Option ℕ → Bool
latency_eq none none = true
latency_eq (some a) (some b) = a == b
latency_eq _ _ = false

module _ {F : Type 0} ⦃f : F32 F⦄ where
  unfoldable pub penalty_factor : ThermalState → F
  penalty_factor ThermalState.nominal = f.lit 1 1
  penalty_factor ThermalState.warm = f.lit 85 100
  penalty_factor ThermalState.throttling = f.lit 4 10
  penalty_factor ThermalState.critical = f.lit 0 1

  unfoldable pub unknown : NodeStatus F
  unknown = record {
    cpu_usage = f.lit 0 1;
    ram_used_mb = 0;
    ram_available_mb = 0;
    thermal = ThermalState.nominal;
    latency_ms = none;
    measured_at = none;
  }

  -- The sum of two `u64` wraps, as in a release build.
  unfoldable pub delta : NodeStatus F → NodeStatus F → F
  delta self other =
      let cpu_delta = f.abs (f.sub self.cpu_usage other.cpu_usage) in
      let ram_total = f.lit (max ((self.ram_used_mb + self.ram_available_mb) % 2 ^ 64) 1) 1 in
      let ram_delta =
        f.div (f.abs (f.sub (f.lit self.ram_available_mb 1) (f.lit other.ram_available_mb 1)))
          ram_total in
      f.add (f.mul cpu_delta (f.lit 7 10)) (f.mul ram_delta (f.lit 3 10))

  -- `measured_at` does not count.
  unfoldable pub status_eq : NodeStatus F → NodeStatus F → Bool
  unfolding thermal_eq latency_eq
  status_eq self other =
      f.eq self.cpu_usage other.cpu_usage
      && self.ram_used_mb == other.ram_used_mb
      && self.ram_available_mb == other.ram_available_mb
      && thermal_eq self.thermal other.thermal
      && latency_eq self.latency_ms other.latency_ms
