-- ===== src/Compute/Capacity.antt =====
-- `src/compute/capacity.rs`: the reservation for the user and the effective capacity of a node.
use neural_swarm_ai.Common.{ℕ, ◌-◌, max, Option, none, some}
use neural_swarm_ai.Float.{F32}
use neural_swarm_ai.Compute.Profile.{DeviceType, NodeProfile}
use neural_swarm_ai.Compute.Status.{NodeStatus, penalty_factor}

pub record ResourceReservation (F : Type 0) : Type 0 where
  pub cpu_reserved : F
  pub ram_reserved_mb : ℕ  -- u64

pub record EffectiveCapacity (F : Type 0) : Type 0 where
  pub cpu_score : F
  pub ram_available_mb : ℕ  -- u64
  pub composite : F

module _ {F : Type 0} ⦃f : F32 F⦄ where
  unfoldable pub for_device : DeviceType → ResourceReservation F
  for_device DeviceType.server = record { cpu_reserved = f.lit 5 100; ram_reserved_mb = 512 }
  for_device DeviceType.desktop = record { cpu_reserved = f.lit 20 100; ram_reserved_mb = 2048 }
  for_device DeviceType.laptop = record { cpu_reserved = f.lit 30 100; ram_reserved_mb = 2048 }
  for_device DeviceType.mobile = record { cpu_reserved = f.lit 40 100; ram_reserved_mb = 1024 }
  for_device DeviceType.embedded = record { cpu_reserved = f.lit 10 100; ram_reserved_mb = 256 }

  unfoldable pub custom_reservation : F → ℕ → ResourceReservation F
  custom_reservation cpu_reserved ram_reserved_mb = record {
    cpu_reserved = f.clamp cpu_reserved (f.lit 0 1) (f.lit 95 100);
    ram_reserved_mb = ram_reserved_mb;
  }

  -- The factor of `composite *= 1.0 - penalty`, where the status has a latency.
  unfoldable pub apply_latency : Option ℕ → F → F
  apply_latency none composite = composite
  apply_latency (some latency) composite =
      let penalty = f.fmin (f.div (f.lit latency 1) (f.lit 2000 1)) (f.lit 5 10) in
      f.mul composite (f.sub (f.lit 1 1) penalty)

  unfoldable pub compute : NodeProfile → NodeStatus F → ResourceReservation F → EffectiveCapacity F
  unfolding apply_latency
  compute profile status reservation =
      let cpu_ceiling = f.sub (f.lit 1 1) reservation.cpu_reserved in
      let cpu_score = f.fmax (f.sub cpu_ceiling status.cpu_usage) (f.lit 0 1) in
      let ram_after_reservation = status.ram_available_mb - reservation.ram_reserved_mb in
      let ram_total = max profile.ram_total_mb 1 in
      let ram_score = f.div (f.lit ram_after_reservation 1) (f.lit ram_total 1) in
      let thermal_penalty = penalty_factor status.thermal in
      let raw_composite =
        f.clamp (f.add (f.mul (f.lit 6 10) cpu_score) (f.mul (f.lit 4 10) ram_score)) (f.lit 0 1)
          (f.lit 1 1) in
      record {
        cpu_score = cpu_score;
        ram_available_mb = ram_after_reservation;
        composite = apply_latency status.latency_ms (f.mul raw_composite thermal_penalty);
      }

  -- `EffectiveCapacity::zero`
  unfoldable pub zero_capacity : EffectiveCapacity F
  zero_capacity = record { cpu_score = f.lit 0 1; ram_available_mb = 0; composite = f.lit 0 1 }
