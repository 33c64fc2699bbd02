-- ===== src/Linux/Resources.antt =====
-- cage-linux/src/resources.rs: the budgets of a run, and what its counters say afterwards. What is
-- read from the control files and from /proc/meminfo is a parameter. A `u64` is below `2 ^ 64`.
pub mod Report
use cargo_cage.Base.{
  ok_or-some, ℕ, ◌+◌, ◌-◌, ◌*◌, ◌/◌, ◌^◌, ◌≤◌, ◌<◌, ◌⊎◌, inl, inr, true, ◌≡◌, ◌↔◌, subst, refl, min,
  Bool, false, not, ◌||◌, Option, none, some, ok, ◌>>=◌, ◌>>◌, reject_if, ok_or, bind_ok, guard_ok,
  ltb, nat_beq, arith, if◌then◌else◌,
}
use cargo_cage.Os.FilePath.{FilePath}
use cargo_cage.Core.Error.{
  CageResult, sandbox_setup, at_path, named, ResourceLimitKind, wall_time, memory, processes,
  file_size,
}
use cargo_cage.Core.Limits.{ResourceLimits, Duration, Within, validate, validate_iff, InProfile}

abbrev min_memory_bytes : ℕ
min_memory_bytes = 1024 * 1024 * 1024

abbrev cpu_period_micros : ℕ
cpu_period_micros = 100_000

pub record EffectiveResourceLimits : Type 0 where
  pub max_processes : ℕ
  pub max_memory_bytes : ℕ
  pub max_cpu_cores : ℕ
  pub max_wall_time : Duration
  pub max_file_size_bytes : ℕ
  pub max_open_files : ℕ

-- `u64::checked_mul`
checked_mul : ℕ → ℕ → Option ℕ
checked_mul a b = if ltb (a * b) (2 ^ 64) then some (a * b) else none

-- Three quarters of the host's memory.
host_budget : ℕ → Option ℕ
unfolding checked_mul
host_budget host_memory = elim (checked_mul host_memory 3) [
  | none ↦ none
  | some value ↦ some (value / 4)
]

memory_budget : ℕ → ℕ → Option ℕ → ℕ
memory_budget requested host parent =
    min (min requested host) (elim parent [ none ↦ 2 ^ 64 - 1 | some budget ↦ budget ])

with_memory : ResourceLimits → ℕ → EffectiveResourceLimits
with_memory requested bytes = record {
  max_processes = requested.max_processes;
  max_memory_bytes = bytes;
  max_cpu_cores = requested.max_cpu_cores;
  max_wall_time = requested.max_wall_time;
  max_file_size_bytes = requested.max_file_size_bytes;
  max_open_files = requested.max_open_files;
}

-- The limits that `CgroupContext::discover` selects for the delegated parent group.
unfoldable pub discover_limits :
    ResourceLimits → FilePath → ℕ → Option ℕ → CageResult EffectiveResourceLimits
unfolding host_budget memory_budget with_memory validate
discover_limits requested group host_memory parent_budget = do
  reject_if (not (validate requested)) (
      sandbox_setup (named "ResourceLimits")
        "every resource limit must be positive and within the fixed cargo-cage profile")
  host ←
      ok_or (host_budget host_memory) (
        sandbox_setup (named "/proc/meminfo") "the host memory budget must be representable safely")
  let bytes = memory_budget requested.max_memory_bytes host parent_budget
  reject_if (ltb bytes min_memory_bytes)
      (sandbox_setup (at_path group) "the effective memory budget must be at least 1 GiB")
  ok (with_memory requested bytes)

unfoldable pub cpu_quota_micros : ℕ → Option ℕ
unfolding checked_mul
cpu_quota_micros cores = checked_mul cores cpu_period_micros

pub record EventCounters : Type 0 where
  pub memory_max : ℕ
  pub memory_oom_kill : ℕ
  pub pids_max : ℕ

-- The exit code or the signal of a process, `std::process::ExitStatus`.
pub record ExitStatus : Type 0 where
  pub code : Option ℕ
  pub signal : Option ℕ

abbrev pub sigxfsz : ℕ
sigxfsz = 25

pub is_some_of : Option ℕ → ℕ → Bool
is_some_of none n = false
is_some_of (some m) n = nat_beq m n

-- The kind of the error that a run's report is.
unfoldable pub resource_error :
    EventCounters → EventCounters → ExitStatus → Bool → Option ResourceLimitKind
unfolding is_some_of
resource_error before after status wall_time_expired =
    if wall_time_expired
    then some wall_time
    else if ltb before.memory_oom_kill after.memory_oom_kill
        || ltb before.memory_max after.memory_max
    then some memory
    else if ltb before.pids_max after.pids_max
    then some processes
    else if is_some_of status.signal sigxfsz || is_some_of status.code (128 + sigxfsz)
    then some file_size
    else none

-- The budgets that a run gets for a profile. A wall time is told in nanoseconds.
pub record IsBounded (requested : ResourceLimits) (host_memory : ℕ) (parent : Option ℕ)
    (limits : EffectiveResourceLimits) : Type 0 where
  pub enough : 1024 * 1024 * 1024 ≤ limits.max_memory_bytes
  pub asked : limits.max_memory_bytes ≤ requested.max_memory_bytes
  pub on_host : 4 * limits.max_memory_bytes ≤ 3 * host_memory
  pub under_parent : (budget : ℕ) → parent ≡ some budget → limits.max_memory_bytes ≤ budget
  pub same_processes : limits.max_processes ≡ requested.max_processes
  pub same_cores : limits.max_cpu_cores ≡ requested.max_cpu_cores
  pub same_time : limits.max_wall_time ≡ requested.max_wall_time
  pub same_size : limits.max_file_size_bytes ≡ requested.max_file_size_bytes
  pub same_files : limits.max_open_files ≡ requested.max_open_files
  pub few_processes : Within limits.max_processes 512
  pub small_memory : limits.max_memory_bytes ≤ 8_589_934_592
  pub few_cores : Within limits.max_cpu_cores 4
  pub short_time : Within limits.max_wall_time 1_800_000_000_000
  pub small_files : Within limits.max_file_size_bytes 4_294_967_296
  pub few_files : Within limits.max_open_files 16_384
  pub quota : cpu_quota_micros limits.max_cpu_cores ≡ some (requested.max_cpu_cores * 100_000)

host_budget-bound : (m b : ℕ) → host_budget m ≡ some b → 4 * b ≤ 3 * m
unfolding host_budget checked_mul
host_budget-bound m b h = ground arith

memory_budget-bound :
    (requested host : ℕ) (parent : Option ℕ)
    → (memory_budget requested host parent ≤ requested)
      × (memory_budget requested host parent ≤ host)
unfolding memory_budget
memory_budget-bound requested host none = ground arith
memory_budget-bound requested host (some b) = ground arith

memory_budget-parent :
    (requested host : ℕ) (parent : Option ℕ) (budget : ℕ)
    → parent ≡ some budget
    → memory_budget requested host parent ≤ budget
unfolding memory_budget
memory_budget-parent requested host parent budget h = rw h (omega arith)

cpu_quota_micros-small : (cores : ℕ) → cores ≤ 4 → cpu_quota_micros cores ≡ some (cores * 100_000)
unfolding cpu_quota_micros checked_mul
cpu_quota_micros-small cores h = ground arith

at_least : (bytes : ℕ) → ltb bytes min_memory_bytes ≡ false → 1024 * 1024 * 1024 ≤ bytes
at_least bytes h = ground arith

profile_of : (requested : ResourceLimits) → not (validate requested) ≡ false → InProfile requested
profile_of requested h = (validate_iff requested).0 (ground arith)

bounded :
    (requested : ResourceLimits) (host_memory host : ℕ) (parent : Option ℕ)
    → InProfile requested
    → host_budget host_memory ≡ some host
    → 1024 * 1024 * 1024 ≤ memory_budget requested.max_memory_bytes host parent
    → IsBounded requested host_memory parent
        (with_memory requested (memory_budget requested.max_memory_bytes host parent))
unfolding with_memory
bounded requested host_memory host parent p h k =
    let bound = memory_budget-bound requested.max_memory_bytes host parent in
    let quarter = host_budget-bound host_memory host h in
    record {
      enough = k;
      asked = bound.0;
      on_host = omega (arith, bound.1, quarter);
      under_parent = memory_budget-parent requested.max_memory_bytes host parent;
      same_processes = refl;
      same_cores = refl;
      same_time = refl;
      same_size = refl;
      same_files = refl;
      few_processes = p.processes_within;
      small_memory = omega (arith, bound.0, p.memory_within.1);
      few_cores = p.cores_within;
      short_time = p.time_within;
      small_files = p.size_within;
      few_files = p.files_within;
      quota = cpu_quota_micros-small requested.max_cpu_cores p.cores_within.1;
    }

-- The limits that are selected are those that were asked for, but for the memory: a GiB at least, and at
-- most what was asked for, three quarters of the memory of the host and the budget of the parent group
-- if it has one. All are positive and at most 512 processes, 8 GiB of memory, 4 cores, 30 minutes,
-- 4 GiB per file and 16384 open files, and the CPU quota does not overflow.
pub discover_limits-IsBounded :
    (requested : ResourceLimits) (group : FilePath) (host_memory : ℕ) (parent : Option ℕ)
    (limits : EffectiveResourceLimits)
    → discover_limits requested group host_memory parent ≡ ok limits
    → IsBounded requested host_memory parent limits
unfolding discover_limits
discover_limits-IsBounded requested group host_memory parent limits h =
    let (valid, h1) = guard_ok (not (validate requested)) _ _ limits h in
    let (host, h2, h3) = bind_ok (ok_or (host_budget host_memory) _) _ limits h1 in
    let bytes = memory_budget requested.max_memory_bytes host parent in
    let (large, h4) = guard_ok (ltb bytes min_memory_bytes) _ _ limits h3 in
    let same : with_memory requested bytes ≡ limits = cc in
    subst (λ l. IsBounded requested host_memory parent l) same
      (bounded requested host_memory host parent (profile_of requested valid)
        (ok_or-some (host_budget host_memory) _ host h2) (at_least bytes large))
