-- ===== src/Linux/Resources/Report.antt =====
-- cage-linux/src/resources.rs: what `resource_error` says of a run.
use cargo_cage.Base.{
  ℕ, ◌+◌, ◌≤◌, ◌<◌, ◌⊎◌, ◌≡◌, ◌↔◌, refl, Bool, true, false, ◌||◌, Option, none, some, ltb, arith,
  if◌then◌else◌,
}
use cargo_cage.Core.Error.{ResourceLimitKind, wall_time, memory, processes, file_size}
use cargo_cage.Linux.Resources.{EventCounters, ExitStatus, sigxfsz, is_some_of, resource_error}

-- A limit of memory was reached during the run.
abbrev pub MemoryRanOut : EventCounters → EventCounters → Type 0
MemoryRanOut before after =
    (before.memory_oom_kill < after.memory_oom_kill) ⊎ (before.memory_max < after.memory_max)

-- SIGXFSZ, which has the number 25, ended the process, or it exited as a shell does then.
abbrev pub FileTooLarge : ExitStatus → Type 0
FileTooLarge status = (status.signal ≡ some 25) ⊎ (status.code ≡ some 153)

-- What a report says of a run.
pub IsReported :
    EventCounters → EventCounters → ExitStatus → Bool → Option ResourceLimitKind → Type 0
IsReported before after status expired (some wall_time) = expired ≡ true
IsReported before after status expired (some memory) = (expired ≡ false) × MemoryRanOut before after
IsReported before after status expired (some processes) =
    (expired ≡ false) × ¬ MemoryRanOut before after × (before.pids_max < after.pids_max)
IsReported before after status expired (some file_size) =
    (expired ≡ false)
    × ¬ MemoryRanOut before after
    × (after.pids_max ≤ before.pids_max)
    × FileTooLarge status
IsReported before after status expired (some _) = ⊥
IsReported before after status expired none =
    (expired ≡ false)
    × ¬ MemoryRanOut before after
    × (after.pids_max ≤ before.pids_max)
    × ¬ FileTooLarge status

is_some_of_iff : (o : Option ℕ) (n : ℕ) → (is_some_of o n ≡ true) ↔ (o ≡ some n)
unfolding is_some_of
is_some_of_iff none n = ground arith
is_some_of_iff (some m) n = ground arith

memory_tests_iff :
    (before after : EventCounters)
    → ((ltb before.memory_oom_kill after.memory_oom_kill || ltb before.memory_max after.memory_max)
        ≡ true)
      ↔ MemoryRanOut before after
memory_tests_iff before after = ground arith

file_tests_iff :
    (status : ExitStatus)
    → ((is_some_of status.signal sigxfsz || is_some_of status.code (128 + sigxfsz)) ≡ true)
      ↔ FileTooLarge status
file_tests_iff status =
    ground (arith, is_some_of_iff status.signal 25, is_some_of_iff status.code 153)

is_false : {test : Bool} {A : Type 0} → (test ≡ true) ↔ A → test ≡ false → ¬ A
is_false iff h a = ground (arith, h, iff.1 a)

-- The tests of `resource_error`, with their answers.
tests-IsReported :
    (before after : EventCounters) (status : ExitStatus) (expired e m p f : Bool)
    → expired ≡ e
    → (ltb before.memory_oom_kill after.memory_oom_kill || ltb before.memory_max after.memory_max)
      ≡ m
    → ltb before.pids_max after.pids_max ≡ p
    → (is_some_of status.signal sigxfsz || is_some_of status.code (128 + sigxfsz)) ≡ f
    → IsReported before after status expired (
        if e
        then some wall_time
        else if m
        then some memory
        else if p
        then some processes
        else if f
        then some file_size
        else none)
unfolding IsReported
tests-IsReported before after status expired true m p f he hm hp hf = he
tests-IsReported before after status expired false true p f he hm hp hf =
    (he, (memory_tests_iff before after).0 hm)
tests-IsReported before after status expired false false true f he hm hp hf =
    (he, is_false (memory_tests_iff before after) hm, ground (arith, hp))
tests-IsReported before after status expired false false false true he hm hp hf = (
  he,
  is_false (memory_tests_iff before after) hm,
  ground (arith, hp),
  (file_tests_iff status).0 hf,
)
tests-IsReported before after status expired false false false false he hm hp hf = (
  he,
  is_false (memory_tests_iff before after) hm,
  ground (arith, hp),
  is_false (file_tests_iff status) hf,
)

-- Of what happened to a run, the report names the first: the time is up, memory ran out, a process was
-- refused, a file grew too large. It names nothing if none of them happened.
pub resource_error-IsReported :
    (before after : EventCounters) (status : ExitStatus) (expired : Bool)
    → IsReported before after status expired (resource_error before after status expired)
unfolding resource_error
resource_error-IsReported before after status expired =
    tests-IsReported before after status expired _ _ _ _ refl refl refl refl
