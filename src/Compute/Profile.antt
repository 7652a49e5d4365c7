-- ===== src/Compute/Profile.antt =====
-- `src/compute/profile.rs`: the static hardware profile of a node. What `sysinfo` and the target of
-- the compiler say are arguments.
use neural_swarm_ai.Common.{
  ℕ, ◌/◌, ◌*◌, ◌%◌, ◌^◌, Bool, ◌&&◌, ltb, leb, if◌then◌else◌, String, Option, none, some,
}

pub data Architecture : Type 0 where
  x86_64 aarch64 other : Architecture

pub data DeviceType : Type 0 where
  server desktop laptop mobile embedded : DeviceType

pub record GpuProfile : Type 0 where
  pub name : String
  pub vram_mb : ℕ  -- u64

pub record NodeProfile : Type 0 where
  pub arch : Architecture
  pub device_type : DeviceType
  pub cpu_cores : ℕ  -- u32
  pub ram_total_mb : ℕ  -- u64
  pub gpu : Option GpuProfile
  pub hostname : String

-- `cfg!(target_arch = ..)`, which the build decides.
pub record Target : Type 0 where
  pub is_x86_64 : Bool
  pub is_aarch64 : Bool

pub detect_architecture : Target → Architecture
detect_architecture t =
    if t.is_x86_64
    then Architecture.x86_64
    else if t.is_aarch64
    then Architecture.aarch64
    else Architecture.other

unfoldable pub detect_device_type : ℕ → ℕ → DeviceType
detect_device_type cpu_cores ram_total_mb =
    if ltb ram_total_mb 2048
    then DeviceType.embedded
    else if leb cpu_cores 4 && ltb ram_total_mb 4096
    then DeviceType.mobile
    else if leb 16 cpu_cores && leb 32768 ram_total_mb
    then DeviceType.server
    else DeviceType.desktop

-- What `System::new_all()` reports: the number of processors, the memory in bytes, the host name.
pub record System : Type 0 where
  pub cpu_count : ℕ
  pub total_memory : ℕ
  pub host_name : Option String

abbrev name_or_unknown : Option String → String
name_or_unknown none = "unknown"
name_or_unknown (some s) = s

unfoldable pub detect : Target → System → NodeProfile
unfolding detect_architecture
detect t sys =
    let cpu_cores = sys.cpu_count % 2 ^ 32 in
    let ram_total_mb = sys.total_memory / (1024 * 1024) in
    record {
      arch = detect_architecture t;
      device_type = detect_device_type cpu_cores ram_total_mb;
      cpu_cores = cpu_cores;
      ram_total_mb = ram_total_mb;
      gpu = none;
      hostname = name_or_unknown sys.host_name;
    }

unfoldable pub custom : Target → DeviceType → ℕ → ℕ → String → NodeProfile
unfolding detect_architecture
custom t device_type cpu_cores ram_total_mb hostname = record {
  arch = detect_architecture t;
  device_type = device_type;
  cpu_cores = cpu_cores;
  ram_total_mb = ram_total_mb;
  gpu = none;
  hostname = hostname;
}
