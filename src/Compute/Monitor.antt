-- ===== src/Compute/Monitor.antt =====
-- `src/compute/monitor.rs`: the monitor samples the system and reports changes that matter.
use neural_swarm_ai.Common.{ℕ, ◌/◌, ◌*◌, if◌then◌else◌, Option, none, some, List, [], ◌∷◌, length}
use mathlib.Core.List.{foldl}
use neural_swarm_ai.Float.{F32}
use neural_swarm_ai.Compute.Status.{ThermalState, NodeStatus, unknown, delta}

pub record MonitorConfig (F : Type 0) : Type 0 where
  pub interval_secs : ℕ
  pub change_threshold : F

-- What `sysinfo` and the clock report at one sample: usage in percent, memory in bytes.
pub record Reading (F : Type 0) : Type 0 where
  pub cpus : List F
  pub used_memory : ℕ
  pub available_memory : ℕ
  pub now : ℕ

module _ {F : Type 0} ⦃f : F32 F⦄ where
  unfoldable pub default_config : MonitorConfig F
  default_config = record { interval_secs = 5; change_threshold = f.lit 10 100 }

  unfoldable pub cpu_usage_of : List F → F
  cpu_usage_of [] = f.lit 0 1
  cpu_usage_of (c ∷ cs) =
      let total = foldl f.add (f.lit 0 1) (c ∷ cs) in
      f.div (f.div total (f.lit (length (c ∷ cs)) 1)) (f.lit 100 1)

  unfoldable pub sample : Reading F → NodeStatus F
  unfolding cpu_usage_of
  sample r = record {
    cpu_usage = cpu_usage_of r.cpus;
    ram_used_mb = r.used_memory / (1024 * 1024);
    ram_available_mb = r.available_memory / (1024 * 1024);
    thermal = ThermalState.nominal;
    latency_ms = none;
    measured_at = some r.now;
  }

  -- One round of the loop: the new `last_reported`, and the status that is sent, if any.
  unfoldable pub round :
      MonitorConfig F → NodeStatus F → NodeStatus F → NodeStatus F × Option (NodeStatus F)
  round config last_reported status =
      if f.le config.change_threshold (delta status last_reported)
      then (status, some status)
      else (last_reported, none)

  abbrev push : Option (NodeStatus F) → List (NodeStatus F) → List (NodeStatus F)
  push none sent = sent
  push (some s) sent = s ∷ sent

  -- The loop over the samples that it takes, with what it sends, and the last report.
  unfoldable pub run_from :
      MonitorConfig F → NodeStatus F → List (Reading F) → List (NodeStatus F) × NodeStatus F
  unfolding round
  run_from config last_reported [] = ([], last_reported)
  run_from config last_reported (r ∷ rs) =
      let (last', sent) = round config last_reported (sample r) in
      let (later, final) = run_from config last' rs in (push sent later, final)

  unfoldable pub run : MonitorConfig F → List (Reading F) → List (NodeStatus F) × NodeStatus F
  unfolding run_from
  run config = run_from config unknown
