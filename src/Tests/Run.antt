-- ===== src/Tests/Run.antt =====
-- Runs of the backend against small machines.
use cargo_cage.Base.{
  ℕ, ◌+◌, ◌*◌, ◌≤◌, ◌≡◌, ◌≢◌, refl, ◌⊎◌, true, false, none, some, List, [], ◌∷◌, ok, err, ltb,
  answer_of, arith,
}
use cargo_cage.Os.Text.{OsString, bytes}
use cargo_cage.Os.FilePath.{FilePath, path_of}
use cargo_cage.Core.Error.{sandbox_setup, named}
use cargo_cage.Core.Request.{SandboxOutcome, inherit_output, capture}
use cargo_cage.Linux.Resources.{EffectiveResourceLimits, ExitStatus, EventCounters}
use cargo_cage.Linux.Tree.MountTable.{split_whitespace}
use cargo_cage.Linux.Run.Cgroup.{cgroup_tree_is_empty}
use cargo_cage.Linux.Run.Capture.{got, read_capped, take, delivered, capped, read_capped-delivered}
use cargo_cage.Linux.Run.Session.{
  fsize, nofile, core, set_limit, enter_group, restore_supervisor, slept, spawn, remove_group, Log,
  listed, no_more, Machine, Session, done,
}
use cargo_cage.Linux.Run.Wait.{wait_loop, wait_loop-returns}
use cargo_cage.Linux.Run.Output.{capture_loop, capture_loop-returns}
use cargo_cage.Linux.Run.Quiet.{Grows}
use cargo_cage.Linux.Run.Inner.{run_inner, run_verified, preflight_output}
use cargo_cage.Linux.Run.Inner.Laws.{IsLaunched, run_inner-IsLaunched}
use cargo_cage.Linux.Run.Inner.Preflight.{
  Run, run_of, StartsOnly, IsContinued, run_verified-IsContinued,
}

short_output :
    read_capped 3 [] false (got (bytes "ab") ∷ got (bytes "cd") ∷ []) ≡ (ok (bytes "abc"), true)
unfolding read_capped
short_output = refl

read_capped_example :
    read_capped 3 (take 3 []) (ltb 3 0) (got (bytes "ab") ∷ got (bytes "cd") ∷ [])
    ≡ capped 3 (delivered [] (got (bytes "ab") ∷ got (bytes "cd") ∷ []))
read_capped_example = read_capped-delivered 3 [] (got (bytes "ab") ∷ got (bytes "cd") ∷ [])

elapsed : Log → ℕ
elapsed [] = 0
elapsed (slept duration ∷ log) = elapsed log + duration
elapsed (call ∷ log) = elapsed log

elapsed-sleeps :
    (log : Log) (duration : ℕ) → elapsed log + duration ≤ elapsed (slept duration ∷ log)
unfolding elapsed
elapsed-sleeps log duration = omega arith

abbrev exited : ExitStatus
exited = record { code = some 0; signal = none }

abbrev counters : EventCounters
counters = record { memory_max = 0; memory_oom_kill = 0; pids_max = 0 }

-- A host on which all calls succeed, and the child exits at once.
abbrev machine : Machine
machine = record {
  now = elapsed;
  act = λ log c. ok tt;
  hard_limit = λ log r. none;
  try_wait = λ log. ok (some exited);
  wait = λ log. ok exited;
  group = λ log. listed (ok []) no_more;
  events = λ log. ok counters;
  pipes = λ log. true;
  stdout_reads = λ log. got preflight_output ∷ [];
  stderr_reads = λ log. [];
  over_limit = λ log. false;
  grace = 0;
  sleeps = elapsed-sleeps;
  dies = λ log n k g h. cc;
}

abbrev session : Session
session = record { entered = false; finished = false; log = [] }

abbrev group_path : FilePath
group_path = path_of (bytes "/sys/fs/cgroup/run")

early : 20_000_000 ≤ elapsed [] + 10_000_000 * 2
unfolding elapsed
early = omega arith

wait_loop_example : wait_loop machine group_path 20_000_000 3 session ≢ none
wait_loop_example = wait_loop-returns machine group_path 20_000_000 2 session early

early_output : 20_000_000 ≤ elapsed [] + 5_000_000 * 4
unfolding elapsed
early_output = omega arith

few_rounds : 4 + 0 ≤ 4
few_rounds = omega arith

capture_loop_example : capture_loop machine group_path 20_000_000 5 (false, false) session ≢ none
capture_loop_example =
    capture_loop-returns machine group_path 20_000_000 4 4 session early_output few_rounds

abbrev limits : EffectiveResourceLimits
limits = record {
  max_processes = 16;
  max_memory_bytes = 1024;
  max_cpu_cores = 1;
  max_wall_time = 20_000_000;
  max_file_size_bytes = 4096;
  max_open_files = 64;
}

abbrev command : List OsString
command = bytes "--unshare-all" ∷ []

-- The calls of a run, the latest first.
launched :
    (run_inner machine
      (path_of (bytes "/usr/bin/bwrap"))
      group_path
      (ok (limits, counters))
      (ok command)
      inherit_output
      session).1.log
    ≡ remove_group group_path
      ∷ restore_supervisor
      ∷ spawn command
      ∷ enter_group
      ∷ set_limit core 0
      ∷ set_limit nofile 64
      ∷ set_limit fsize 4096
      ∷ []
unfolding run_inner elapsed answer_of wait_loop cgroup_tree_is_empty split_whitespace
launched = refl

run_inner_example :
    Grows []
      (run_inner machine
        (path_of (bytes "/usr/bin/bwrap"))
        group_path
        (ok (limits, counters))
        (ok command)
        inherit_output
        session).1.log
    ⊎ IsLaunched machine
        (path_of (bytes "/usr/bin/bwrap"))
        group_path
        limits
        (ok command)
        []
        (run_inner machine
          (path_of (bytes "/usr/bin/bwrap"))
          group_path
          (ok (limits, counters))
          (ok command)
          inherit_output
          session).1.log
run_inner_example =
    run_inner-IsLaunched machine (path_of (bytes "/usr/bin/bwrap")) group_path limits counters
      (ok command) inherit_output session

abbrev printed : OsString → SandboxOutcome
printed text = record { status = record { code = some 0 }; stdout = text; stderr = [] }

-- Any other output than the expected line is refused.
refused : run_verified (done (printed [])) (done (printed [])) session ≡ (
  err (
      sandbox_setup
        (named "Bubblewrap namespace preflight")
        "requested namespaces, capabilities, session, and parent-death isolation must be verified"),
  session,
)
unfolding run_verified
refused = refl

abbrev preflight_run : Run
preflight_run = record {
  path = group_path;
  limits = limits;
  counters = counters;
  command = ok (bytes "--preflight" ∷ []);
  mode = capture;
}

abbrev program_run : Run
program_run = record preflight_run { command = ok command; mode = inherit_output }

run_verified_example :
    StartsOnly machine
      (path_of (bytes "/usr/bin/bwrap"))
      preflight_run
      []
      (run_of machine (path_of (bytes "/usr/bin/bwrap")) preflight_run session).1.log
    × IsContinued machine
        (path_of (bytes "/usr/bin/bwrap"))
        program_run
        (run_of machine (path_of (bytes "/usr/bin/bwrap")) preflight_run session)
        (run_verified
          (run_of machine (path_of (bytes "/usr/bin/bwrap")) preflight_run)
          (run_of machine (path_of (bytes "/usr/bin/bwrap")) program_run)
          session)
run_verified_example =
    run_verified-IsContinued machine (path_of (bytes "/usr/bin/bwrap")) preflight_run program_run
      session
