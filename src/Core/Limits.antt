-- ===== src/Core/Limits.antt =====
-- cage-core/src/policy.rs: `ResourceLimits`. A `Duration` is its number of nanoseconds; the fields
-- are `u64` and `u32` values, whose ranges the upper bounds of the profile lie far below.
use cargo_cage.Base.{ℕ, ◌*◌, ◌≤◌, ◌<◌, ◌≡◌, ◌↔◌, Bool, true, ◌&&◌, arith, ltb, leb, not, nat_beq}

abbrev pub Duration : Type 0
Duration = ℕ

abbrev pub from_secs : ℕ → Duration
from_secs n = n * 1_000_000_000

pub record ResourceLimits : Type 0 where
  pub max_processes : ℕ
  pub max_memory_bytes : ℕ
  pub max_cpu_cores : ℕ
  pub max_wall_time : Duration
  pub max_file_size_bytes : ℕ
  pub max_open_files : ℕ

-- The constants of the profile, and `Default::default()`.
abbrev pub default_limits : ResourceLimits
default_limits = record {
  max_processes = 512;
  max_memory_bytes = 8 * 1024 * 1024 * 1024;
  max_cpu_cores = 4;
  max_wall_time = from_secs (30 * 60);
  max_file_size_bytes = 4 * 1024 * 1024 * 1024;
  max_open_files = 16 * 1024;
}

unfoldable pub validate : ResourceLimits → Bool
validate l =
    ltb 0 l.max_processes
    && leb l.max_processes default_limits.max_processes
    && ltb 0 l.max_memory_bytes
    && leb l.max_memory_bytes default_limits.max_memory_bytes
    && ltb 0 l.max_cpu_cores
    && leb l.max_cpu_cores default_limits.max_cpu_cores
    && not (nat_beq l.max_wall_time 0)
    && leb l.max_wall_time default_limits.max_wall_time
    && ltb 0 l.max_file_size_bytes
    && leb l.max_file_size_bytes default_limits.max_file_size_bytes
    && ltb 0 l.max_open_files
    && leb l.max_open_files default_limits.max_open_files

-- A budget is positive and at most the budget of the profile.
abbrev pub Within : ℕ → ℕ → Type 0
Within x most = (0 < x) × (x ≤ most)

pub record InProfile (l : ResourceLimits) : Type 0 where
  pub processes_within : Within l.max_processes default_limits.max_processes
  pub memory_within : Within l.max_memory_bytes default_limits.max_memory_bytes
  pub cores_within : Within l.max_cpu_cores default_limits.max_cpu_cores
  pub time_within : Within l.max_wall_time default_limits.max_wall_time
  pub size_within : Within l.max_file_size_bytes default_limits.max_file_size_bytes
  pub files_within : Within l.max_open_files default_limits.max_open_files

validate-InProfile : (l : ResourceLimits) → validate l ≡ true → InProfile l
unfolding validate
validate-InProfile l h = ground arith

InProfile-validate : (l : ResourceLimits) → InProfile l → validate l ≡ true
unfolding validate
InProfile-validate l p = ground arith

-- A profile validates exactly when each of its six budgets is positive and at most its maximum.
pub validate_iff : (l : ResourceLimits) → (validate l ≡ true) ↔ InProfile l
validate_iff l = (validate-InProfile l, InProfile-validate l)
