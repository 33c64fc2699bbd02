-- ===== src/Cargo/Workspace/Located.antt =====
-- The search for the workspace as a whole: what Cargo is asked, and what is made of its answer.
use cargo_cage.Base.{◌≡◌, true, Option, List, ok, In}
use cargo_cage.Os.Text.{OsString}
use cargo_cage.Os.FilePath.{FilePath, starts_with}
use cargo_cage.Os.Fs.{Fs}
use cargo_cage.Core.Error.{CageResult, successfully_exited}
use cargo_cage.Core.Request.{SandboxRequest, SandboxOutcome, deny}
use cargo_cage.Cargo.HostEnvironment.{Toolchain}
use cargo_cage.Cargo.Driver.{HostVariables}
use cargo_cage.Cargo.Workspace.{exists_at}
use cargo_cage.Cargo.Workspace.Laws.{IsBase, IsWorkspace}

module _ (fs : Fs) (host : HostVariables) (cargo_target_dir : Option OsString)
    (toolchain : Toolchain) (current_dir : FilePath) (args : List OsString) where
  -- Whatever the request makes writable is there, and lies at or below the base of the search.
  pub record IsModest (request : SandboxRequest) : Type 0 where
    pub offline : request.policy.network ≡ deny
    pub base : FilePath
    pub is_base : IsBase fs args current_dir base
    pub writable_within :
        (p : FilePath)
        → In p request.policy.writable_paths
        → (exists_at fs p ≡ true) × (starts_with p base ≡ true)

  module _ (backend : SandboxRequest → CageResult SandboxOutcome) where
    pub record IsLocated (workspace : FilePath) : Type 0 where
      pub request : SandboxRequest
      pub outcome : SandboxOutcome
      pub is_modest : IsModest request
      pub is_answered : backend request ≡ ok outcome
      pub is_successful : successfully_exited outcome.status ≡ true
      pub is_workspace : IsWorkspace fs args current_dir workspace
