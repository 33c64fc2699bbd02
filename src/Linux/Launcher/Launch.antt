-- ===== src/Linux/Launcher/Launch.antt =====
-- cage-linux/src/landlock.rs: `run_internal_launcher`. The variables of the process, its files and the
-- kernel are parameters.
pub mod Laws
use cargo_cage.Base.{
  ℕ, ◌+◌, Bool, true, false, not, ◌&&◌, ◌||◌, Option, none, some, List, [], ◌∷◌, ok, err, ◌>>=◌,
  ◌>>◌, map_err, reject_if, keep, length, nat_beq, ◌==◌, list_eq, nat_eq, list_beq, if◌then◌else◌,
}
use cargo_cage.Os.Text.{OsString, bytes}
use cargo_cage.Os.FilePath.{FilePath, path_of}
use cargo_cage.Os.Fs.{Fs, IoResult, is_file}
use cargo_cage.Core.Error.{CageResult, sandbox_setup, named}
use cargo_cage.Core.Environment.Names.{
  is_allowed_sandbox_environment_name, is_sensitive_environment_name,
}
use cargo_cage.Linux.Launcher.{LauncherPlan, parse}
use cargo_cage.Linux.Launcher.Rules.{
  Ruleset, RestrictionStatus, Kernel, landlock_setup_error, apply_landlock,
}
use cargo_cage.Linux.Resources.{ExitStatus}

abbrev pub launcher_context_content : OsString
launcher_context_content = bytes "cargo-cage launcher context v1\n"

abbrev pub context_path : FilePath
context_path = path_of (bytes "/run/cargo-cage-launcher-context")

-- The process of the launcher: its files, and its variables.
pub record Process : Type 0 where
  pub fs : Fs
  pub read : FilePath → IoResult OsString
  pub vars : List (OsString × OsString)

inspect_marker : Process → CageResult (Unit {0})
unfolding path_of
inspect_marker process = do
  metadata ← map_err (process.fs.symlink_metadata context_path) (λ _.
      sandbox_setup (named "launcher context")
        "the Landlock launcher must be started from cargo-cage's Bubblewrap context")
  reject_if (not (is_file metadata) || not (nat_beq metadata.len (length launcher_context_content)))
      (sandbox_setup (named "launcher context")
        "the launcher-context marker must be the expected regular file")

read_marker : Process → CageResult OsString
unfolding path_of
read_marker process = map_err (process.read context_path) (λ _.
    sandbox_setup (named "launcher context")
      "the launcher-context marker must be readable before Landlock is applied")

check_marker : OsString → CageResult (Unit {0})
unfolding list_beq
check_marker content = reject_if (not (content == launcher_context_content)) (
    sandbox_setup (named "launcher context")
      "the launcher-context marker must match cargo-cage's fixed context")

unfoldable pub verify_launcher_context : Process → CageResult (Unit {0})
unfolding inspect_marker read_marker check_marker
verify_launcher_context process = do
  inspect_marker process
  content ← read_marker process
  check_marker content

-- A variable that the program may have.
unfoldable pub is_passed : LauncherPlan → OsString × OsString → Bool
unfolding is_allowed_sandbox_environment_name is_sensitive_environment_name
is_passed plan (name, value) =
    plan.inherit_environment
    || (is_allowed_sandbox_environment_name name && not (is_sensitive_environment_name name))

-- The program as it is started, and the rules that the process is under by then.
pub record Launch : Type 0 where
  pub restriction : Ruleset
  pub status : RestrictionStatus
  pub program : FilePath
  pub args : List OsString
  pub environment : List (OsString × OsString)

unfoldable pub launch_plan : Process → Kernel → LauncherPlan → CageResult Launch
unfolding verify_launcher_context apply_landlock is_passed
launch_plan process kernel plan = do
  verify_launcher_context process
  applied ← apply_landlock kernel plan
  reject_if (not applied.1.fully_enforced || not applied.1.no_new_privs) landlock_setup_error
  ok (record {
    restriction = applied.0;
    status = applied.1;
    program = plan.program;
    args = plan.args;
    environment = keep (is_passed plan) process.vars;
  })

-- `run_internal_launcher` up to the start of the program.
unfoldable pub launch : Process → Kernel → List OsString → CageResult Launch
unfolding parse launch_plan
launch process kernel args = do plan ← parse args; launch_plan process kernel plan

-- The exit code of the launcher, by which a signal is told as a shell does.
unfoldable pub launcher_exit_code : ExitStatus → ℕ
launcher_exit_code status = elim status.code [
  | some code ↦ code
  | none ↦ 128 + (elim status.signal [ some signal ↦ signal | none ↦ 1 ])
]
