-- ===== src/Compute/Bounds.antt =====
-- The range of the effective capacity, for every status that a node can send.
use neural_swarm_ai.Common.{ℕ, ◌-◌, ◌^◌, ◌≤◌, ◌<◌, max, Option, none, some, ◌≡◌, arith}
use neural_swarm_ai.Float.{F32, IsIeee, zero_f, one_f, ◌≼◌, IsUnit}
use neural_swarm_ai.Compute.Profile.{DeviceType, NodeProfile}
use neural_swarm_ai.Compute.Status.{ThermalState, NodeStatus, penalty_factor}
use neural_swarm_ai.Compute.Capacity.{ResourceReservation, for_device, apply_latency, compute}

-- The latency fits its `u32`.
abbrev pub IsLatency : Option ℕ → Type 0
IsLatency none = Unit
IsLatency (some l) = l < 2 ^ 32

-- The fields of a status that are machine integers, nothing being said of its floats.
pub record IsWord {F : Type 0} (s : NodeStatus F) : Type 0 where
  pub ram_available : s.ram_available_mb < 2 ^ 64
  pub latency : IsLatency s.latency_ms

module _ {F : Type 0} ⦃f : F32 F⦄ (laws : IsIeee F) where
  open laws use {le_trans, num_of_le, lit_mono, mul_unit, one_sub}

  -- A literal n / d with n ≤ d is a number of the unit interval.
  pub lit-IsUnit : (n d : ℕ) → 0 < d → n ≤ d → IsUnit (f.lit n d)
  lit-IsUnit n d hd h = (
    lit_mono 0 1 n d (omega arith) hd (omega arith),
    lit_mono n d 1 1 hd (omega arith) (omega arith),
  )

  mul-IsUnit : (x y : F) → IsUnit x → IsUnit y → IsUnit (f.mul x y)
  mul-IsUnit x y u v =
      let m = mul_unit x y u v.0 1 (omega arith) v.1 in (m.0, le_trans _ _ _ m.1 v.1)

  pub penalty_factor-IsUnit : (t : ThermalState) → IsUnit {F = F} (penalty_factor t)
  unfolding penalty_factor
  penalty_factor-IsUnit ThermalState.nominal = lit-IsUnit 1 1 (omega arith) (omega arith)
  penalty_factor-IsUnit ThermalState.warm = lit-IsUnit 85 100 (omega arith) (omega arith)
  penalty_factor-IsUnit ThermalState.throttling = lit-IsUnit 4 10 (omega arith) (omega arith)
  penalty_factor-IsUnit ThermalState.critical = lit-IsUnit 0 1 (omega arith) (omega arith)

  pub for_device-IsUnit : (d : DeviceType) → IsUnit {F = F} (for_device d).cpu_reserved
  unfolding for_device
  for_device-IsUnit DeviceType.server = lit-IsUnit 5 100 (omega arith) (omega arith)
  for_device-IsUnit DeviceType.desktop = lit-IsUnit 20 100 (omega arith) (omega arith)
  for_device-IsUnit DeviceType.laptop = lit-IsUnit 30 100 (omega arith) (omega arith)
  for_device-IsUnit DeviceType.mobile = lit-IsUnit 40 100 (omega arith) (omega arith)
  for_device-IsUnit DeviceType.embedded = lit-IsUnit 10 100 (omega arith) (omega arith)

  latency_factor-IsUnit :
      (l : ℕ)
      → l < 2 ^ 32
      → IsUnit (f.sub one_f (f.fmin (f.div (f.lit l 1) (f.lit 2000 1)) (f.lit 5 10)))
  latency_factor-IsUnit l h =
      let half = lit-IsUnit 5 10 (omega arith) (omega arith) in
      let share = laws.div_lit l 2000 (omega arith) (omega arith) (omega arith) in
      let p = laws.min_bounds (f.div (f.lit l 1) (f.lit 2000 1)) (f.lit 5 10) share half.0 in
      one_sub _ (p.0, le_trans _ _ _ p.1 half.1)

  apply_latency-IsUnit :
      (latency : Option ℕ) (c : F) → IsLatency latency → IsUnit c → IsUnit (apply_latency latency c)
  unfolding apply_latency
  apply_latency-IsUnit none c h u = u
  apply_latency-IsUnit (some l) c h u = mul-IsUnit c _ u (latency_factor-IsUnit l h)

  weighted : (n : ℕ) (x : F) → 0 < n → n ≤ 10 → zero_f ≼ x → zero_f ≼ f.mul (f.lit n 10) x
  weighted n x hn h =
      laws.mul_nonneg (f.lit n 10) x (laws.lit_pos n 10 hn (omega arith) (omega arith))
        (lit-IsUnit n 10 (omega arith) h).1

  apply_latency-le :
      (latency : Option ℕ) (c : F) → IsLatency latency → IsUnit c → apply_latency latency c ≼ c
  unfolding apply_latency
  apply_latency-le none c h u = (num_of_le _ _ u.0).1
  apply_latency-le (some l) c h u = laws.mul_le_left c _ u (latency_factor-IsUnit l h)

  module _ (profile : NodeProfile) (status : NodeStatus F)
      (reservation : ResourceReservation F) where
    -- The weighted sum before the penalties, as `compute` has it.
    abbrev raw_composite : F
    raw_composite =
        f.clamp
          (f.add
            (f.mul (f.lit 6 10)
              (f.fmax (f.sub (f.sub one_f reservation.cpu_reserved) status.cpu_usage) zero_f))
            (f.mul (f.lit 4 10) (
              f.div (f.lit (status.ram_available_mb - reservation.ram_reserved_mb) 1)
                (f.lit (max profile.ram_total_mb 1) 1))))
          zero_f one_f

    raw_composite-IsUnit : profile.ram_total_mb < 2 ^ 64 → IsWord status → IsUnit raw_composite
    raw_composite-IsUnit total word =
        let zero_num = lit-IsUnit 0 1 (omega arith) (omega arith) in
        let cpu =
          laws.max_bound (f.sub (f.sub one_f reservation.cpu_reserved) status.cpu_usage) zero_f
            zero_num.0 in
        let free : status.ram_available_mb - reservation.ram_reserved_mb < 2 ^ 64 =
          omega (arith, word.ram_available) in
        let ram =
          laws.div_lit (status.ram_available_mb - reservation.ram_reserved_mb)
            (max profile.ram_total_mb 1) free (omega arith) (omega arith) in
        let a = weighted 6 _ (omega arith) (omega arith) cpu in
        let b = weighted 4 _ (omega arith) (omega arith) ram in
        let sum = laws.add_bounds _ _ a b in
        laws.clamp_bounds _ zero_f one_f zero_num.1 (num_of_le _ _ sum.0).1

    -- The composite lies in the unit interval, and so is no NaN and not infinite, whatever the CPU
    -- usage that the status reports (NaN, infinite or negative) and whatever the reservation, if
    -- the memory of the profile and of the status and the latency fit their integer types.
    pub composite-IsUnit :
        profile.ram_total_mb < 2 ^ 64
        → IsWord status
        → IsUnit (compute profile status reservation).composite
    unfolding compute
    composite-IsUnit total word =
        apply_latency-IsUnit status.latency_ms _ word.latency
          (mul-IsUnit _ _ (raw_composite-IsUnit total word) (penalty_factor-IsUnit status.thermal))

    -- At a critical temperature the composite is at most 0, whatever the resources: the node has no
    -- claim to a layer by its share.
    composite_critical :
        profile.ram_total_mb < 2 ^ 64
        → IsWord status
        → status.thermal ≡ ThermalState.critical
        → (compute profile status reservation).composite ≼ zero_f
    unfolding compute penalty_factor
    composite_critical total word hot =
        let raw = raw_composite-IsUnit total word in
        let none_left = lit-IsUnit 0 1 (omega arith) (omega arith) in
        let cooled = laws.mul_unit _ zero_f raw none_left.0 1 (omega arith) none_left.1 in
        rw hot (
          le_trans _ _ _
            (apply_latency-le status.latency_ms _ word.latency (mul-IsUnit _ _ raw none_left))
            cooled.1)

    -- The reserve of the user holds: for a usage from 0 on and a reservation in the unit interval
    -- the CPU score is at most `1 - cpu_reserved`, even on an idle machine.
    pub cpu_score_ceiling :
        IsUnit reservation.cpu_reserved
        → zero_f ≼ status.cpu_usage
        → (zero_f ≼ (compute profile status reservation).cpu_score)
          × ((compute profile status reservation).cpu_score ≼ f.sub one_f reservation.cpu_reserved)
    unfolding compute
    cpu_score_ceiling reserved usage =
        let ceiling = one_sub _ reserved in
        (
          laws.max_bound _ zero_f (lit-IsUnit 0 1 (omega arith) (omega arith)).0,
          laws.max_le _ _ _ (laws.sub_le _ status.cpu_usage ceiling.1 usage) ceiling.0,
        )
