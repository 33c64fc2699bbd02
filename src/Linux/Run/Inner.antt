-- ===== src/Linux/Run/Inner.antt =====
-- cage-linux/src/backend.rs: `run_inner`, with the command line of Bubblewrap as it is once the mounts and
-- the launcher context are open, and `run`, which runs the program only after a preflight.
pub mod Laws
pub mod Preflight
use cargo_cage.Base.{
  ℕ, ◌+◌, ◌*◌, ◌/◌, Bool, true, false, not, ◌||◌, Option, none, some, List, [], ◌∷◌, Result, ok,
  err, ◌==◌, list_eq, nat_eq, list_beq, if◌then◌else◌,
}
use cargo_cage.Os.Text.{OsString, bytes}
use cargo_cage.Os.FilePath.{FilePath}
use cargo_cage.Core.Error.{
  CageError, CageResult, ProcessStatus, successfully_exited, process_spawn, resource_limit_exceeded,
  sandbox_setup, named,
}
use cargo_cage.Core.Limits.{Duration}
use cargo_cage.Core.Request.{OutputMode, inherit_output, capture, SandboxOutcome}
use cargo_cage.Linux.Resources.{EffectiveResourceLimits, EventCounters, ExitStatus, resource_error}
use cargo_cage.Linux.Run.Group.{
  apply_inherited_limits, enter_current_process, restore_current_process,
}
use cargo_cage.Linux.Run.Group.Cleanup.{finish, with_group}
use cargo_cage.Linux.Run.Wait.{wait, wait_for_child}
use cargo_cage.Linux.Run.Output.{end_child, capture_child_output}
use cargo_cage.Linux.Run.Session.{
  Call, spawn, Log, Machine, Session, Outcome, Step, call, followed_by, ◌>>=◌, ◌>>◌, done, failed,
  told, ignored,
}

-- The status of a process with its output.
abbrev pub Output : Type 0
Output = ExitStatus × OsString × OsString

module _ (machine : Machine) where
  -- The part before the child is spawned.
  enter_limited :
      EffectiveResourceLimits
      → CageResult (List OsString)
      → Step (List OsString × EffectiveResourceLimits)
  unfolding apply_inherited_limits enter_current_process
  enter_limited limits command = do
    args ← told command
    lowered ← apply_inherited_limits machine limits
    enter_current_process machine
    done (args, lowered)

module _ (machine : Machine) (path : FilePath) where
  kill_unrestored : CageError → Step (Unit {0})
  unfolding end_child wait
  kill_unrestored error = do end_child machine path; ignored (wait machine path); failed error

  restored_or_killed : Outcome (Unit {0}) → Outcome (Unit {0})
  unfolding kill_unrestored
  restored_or_killed (ok restored, session) = (ok restored, session)
  restored_or_killed (err error, session) = kill_unrestored error session

  -- The child must not run while the supervisor is in its group.
  restore_or_kill : Step (Unit {0})
  unfolding restored_or_killed restore_current_process
  restore_or_kill session = restored_or_killed (restore_current_process machine session)

  -- The output is not captured.
  with_no_output : ExitStatus × Bool → CageResult (Output × Bool)
  with_no_output (status, expired) = ok ((status, [], []), expired)

  wait_only : Duration → Step (CageResult (Output × Bool))
  unfolding wait_for_child with_no_output
  wait_only wall_time = do
    result ← wait_for_child machine path wall_time
    done (with_no_output result)

  -- With the inherited output an error ends the run at once; otherwise the group is finished first.
  supervise : OutputMode → Duration → Step (CageResult (Output × Bool))
  unfolding wait_only capture_child_output
  supervise inherit_output wall_time session = wait_only wall_time session
  supervise capture wall_time session =
      let (result, now) = capture_child_output machine path wall_time session in (ok result, now)

  report : EventCounters → EventCounters → Output × Bool → CageResult SandboxOutcome
  unfolding resource_error
  report before after ((status, stdout, stderr), expired) =
      elim (resource_error before after status expired) [
        | some kind ↦ err (resource_limit_exceeded kind "" (some (record { code = status.code })))
        | none ↦
            ok (record { status = record { code = status.code }; stdout = stdout; stderr = stderr })
      ]

  -- The part after it.
  see_through : EventCounters → OutputMode → EffectiveResourceLimits → Step SandboxOutcome
  unfolding restore_or_kill supervise finish report
  see_through before mode limits = do
    restore_or_kill
    result ← supervise mode limits.max_wall_time
    after ← finish machine path
    output ← told result
    told (report before after output)

module _ (machine : Machine) (bwrap path : FilePath) where
  spawn_child : List OsString → Step (Unit {0})
  unfolding call
  spawn_child args = call machine (spawn args) (process_spawn bwrap)

  in_group :
      EffectiveResourceLimits
      → EventCounters
      → CageResult (List OsString)
      → OutputMode
      → Step SandboxOutcome
  unfolding enter_limited spawn_child see_through
  in_group limits before command mode = do
    (args, lowered) ← enter_limited machine limits command
    spawn_child args
    see_through machine path before mode lowered

  -- `prepared` is what `ResourceGroup::prepare` gave: the limits and the counters before the run.
  unfoldable pub run_inner :
      CageResult (EffectiveResourceLimits × EventCounters)
      → CageResult (List OsString)
      → OutputMode
      → Step SandboxOutcome
  unfolding in_group with_group
  run_inner (err error) command mode = failed error
  run_inner (ok (limits, before)) command mode =
      with_group machine path (in_group limits before command mode)

abbrev pub preflight_output : OsString
preflight_output = bytes "cargo-cage-namespace-preflight-ok\n"

-- The answer of the preflight is a success with just the expected output.
pub is_verified : SandboxOutcome → Bool
unfolding successfully_exited list_beq
is_verified outcome =
    not (not (successfully_exited outcome.status) || not (outcome.stdout == preflight_output))

abbrev pub not_verified : CageError
not_verified =
    sandbox_setup (named "Bubblewrap namespace preflight")
      "requested namespaces, capabilities, session, and parent-death isolation must be verified"

verified : Step SandboxOutcome → SandboxOutcome → Step SandboxOutcome
unfolding is_verified
verified program outcome = if is_verified outcome then program else failed not_verified

-- The second half of `run`: the preflight, and then the program.
unfoldable pub run_verified : Step SandboxOutcome → Step SandboxOutcome → Step SandboxOutcome
unfolding verified
run_verified preflight program = do outcome ← preflight; verified program outcome
