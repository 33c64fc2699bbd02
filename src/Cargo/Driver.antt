-- ===== src/Cargo/Driver.antt =====
-- cage-cargo/src/lib.rs: the request that `run_cargo` makes of what it has found, and what it makes of
-- the outcome.
pub mod Laws
use cargo_cage.Base.{
  ℕ, Bool, true, false, not, ◌&&◌, Option, none, some, List, [], ◌∷◌, ◌++◌, ok, err, ◌>>=◌, ◌==◌,
  list_eq, list_beq, if◌then◌else◌,
}
use cargo_cage.Os.Text.{OsString, bytes}
use cargo_cage.Os.FilePath.{FilePath, into_os_string, starts_with, component_eq, component_beq}
use cargo_cage.Core.Error.{CageResult, ProcessStatus, successfully_exited}
use cargo_cage.Core.Request.{SandboxPolicy, SandboxRequest, SandboxOutcome, new_request}
use cargo_cage.Cargo.Args.{CargoCommand, as_str}
use cargo_cage.Cargo.HostEnvironment.{Toolchain, cargo_environment}
use cargo_cage.Cargo.Policy.{cargo_policy}

-- What `run_cargo` has found and prepared when it makes the request.
pub record Prepared : Type 0 where
  pub command : CargoCommand
  pub current_dir : FilePath
  pub toolchain : Toolchain
  pub workspace : FilePath
  pub target_dir : FilePath
  pub build_dir : FilePath
  pub lockfile : FilePath
  pub sandbox_current_dir : FilePath
  pub cargo_args : List OsString

-- The policy for Cargo with the paths of the run.
unfoldable pub run_policy : Prepared → SandboxPolicy → SandboxPolicy
unfolding starts_with list_beq component_beq
run_policy run policy = record policy {
  read_only_paths =
      policy.read_only_paths
      ++ (run.workspace ∷ [])
      ++ (if not (run.current_dir == run.workspace) && starts_with run.current_dir run.workspace
          then run.current_dir ∷ []
          else [])
      ++ run.toolchain.read_only_paths;
  writable_paths = policy.writable_paths ++ run.target_dir ∷ run.lockfile ∷ [];
}

unfoldable pub run_overrides : Prepared → List (OsString × OsString)
unfolding into_os_string
run_overrides run =
    (bytes "CARGO_TARGET_DIR", into_os_string run.target_dir)
    ∷ (bytes "CARGO_BUILD_BUILD_DIR", into_os_string run.build_dir)
    ∷ (bytes "CARGO_NET_OFFLINE", bytes "true")
    ∷ (bytes "TMPDIR", bytes "/tmp")
    ∷ []

-- HOME, CARGO_HOME and the variables of the host, `env::var_os` and `env::vars_os`.
pub record HostVariables : Type 0 where
  pub home : Option OsString
  pub cargo_home : Option OsString
  pub vars : List (OsString × OsString)

unfoldable pub cargo_request : HostVariables → Prepared → CageResult SandboxRequest
unfolding cargo_policy run_policy run_overrides cargo_environment new_request as_str
cargo_request host run = do
  policy ← cargo_policy host.home host.cargo_home host.vars true
  ok (record (new_request run.toolchain.cargo run.sandbox_current_dir) {
    args = as_str run.command ∷ run.cargo_args;
    policy = run_policy run policy;
    environment =
        cargo_environment host.vars run.toolchain run.sandbox_current_dir (run_overrides run);
  })

-- The exit code of cargo-cage: that of Cargo, or 1 if a signal ended it.
unfoldable pub exit_code : SandboxOutcome → ℕ
unfolding successfully_exited
exit_code outcome =
    if successfully_exited outcome.status
    then 0
    else elim outcome.status.code [ some code ↦ code | none ↦ 1 ]

-- The last part of `run_cargo`, with the backend as a function of the request.
unfoldable pub run_prepared :
    HostVariables → (SandboxRequest → CageResult SandboxOutcome) → Prepared → CageResult ℕ
unfolding cargo_request exit_code
run_prepared host backend run = do
  request ← cargo_request host run
  outcome ← backend request
  ok (exit_code outcome)
