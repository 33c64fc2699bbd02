-- ===== src/Tests/Resources.antt =====
-- Runs of the selection of limits and of the report.
use cargo_cage.Base.{ℕ, ◌≡◌, refl, ◌*◌, true, false, none, some, ok, err}
use cargo_cage.Os.FilePath.{root}
use cargo_cage.Core.Error.{sandbox_setup, at_path, wall_time, memory}
use cargo_cage.Core.Limits.{default_limits, validate}
use cargo_cage.Linux.Resources.Report.{IsReported, resource_error-IsReported}
use cargo_cage.Linux.Resources.{
  EffectiveResourceLimits, discover_limits, EventCounters, ExitStatus, resource_error, IsBounded,
  discover_limits-IsBounded,
}

abbrev gib : ℕ
gib = 1024 * 1024 * 1024

abbrev limits : EffectiveResourceLimits
limits = record {
  max_processes = 512;
  max_memory_bytes = 3 * gib;
  max_cpu_cores = 4;
  max_wall_time = default_limits.max_wall_time;
  max_file_size_bytes = 4 * gib;
  max_open_files = 16 * 1024;
}

selected : discover_limits default_limits root (4 * gib) none ≡ ok limits
unfolding discover_limits validate
selected = refl

small_parent :
    discover_limits default_limits root (4 * gib) (some 1000)
    ≡ err (sandbox_setup (at_path root) "the effective memory budget must be at least 1 GiB")
unfolding discover_limits validate
small_parent = refl

discover_limits_example : IsBounded default_limits (4 * gib) none limits
discover_limits_example =
    discover_limits-IsBounded default_limits root (4 * gib) none limits selected

abbrev quiet : EventCounters
quiet = record { memory_max = 1; memory_oom_kill = 0; pids_max = 2 }

abbrev exited : ExitStatus
exited = record { code = some 101; signal = none }

reports :
    (resource_error quiet quiet exited true ≡ some wall_time)
    × (resource_error quiet (record quiet { memory_max = 2 }) exited false ≡ some memory)
    × (resource_error quiet quiet exited false ≡ none)
unfolding resource_error
reports = (refl, refl, refl)

resource_error_example :
    IsReported quiet
      (record quiet { pids_max = 3 })
      exited
      false
      (resource_error quiet (record quiet { pids_max = 3 }) exited false)
resource_error_example =
    resource_error-IsReported quiet (record quiet { pids_max = 3 }) exited false
