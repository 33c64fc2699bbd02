-- ===== src/Core/Request.antt =====
-- cage-core/src/policy.rs and backend.rs: what a sandboxed process is asked to be.
use cargo_cage.Base.{List, []}
use cargo_cage.Os.Text.{OsString}
use cargo_cage.Os.FilePath.{FilePath}
use cargo_cage.Core.Error.{ProcessStatus}
use cargo_cage.Core.Limits.{ResourceLimits, default_limits}
use cargo_cage.Core.Environment.{Environment, clean}

pub data NetworkAccess : Type 0 where
  deny allow : NetworkAccess

pub record SandboxPolicy : Type 0 where
  pub network : NetworkAccess
  pub resources : ResourceLimits
  pub writable_paths : List FilePath
  pub hidden_paths : List FilePath
  pub private_paths : List FilePath
  pub read_only_paths : List FilePath
  pub remove_environment : List OsString

abbrev pub default_policy : SandboxPolicy
default_policy = record {
  network = deny;
  resources = default_limits;
  writable_paths = [];
  hidden_paths = [];
  private_paths = [];
  read_only_paths = [];
  remove_environment = [];
}

pub data OutputMode : Type 0 where
  inherit_output capture : OutputMode

pub record SandboxOutcome : Type 0 where
  pub status : ProcessStatus
  pub stdout : OsString
  pub stderr : OsString

pub record SandboxRequest : Type 0 where
  pub program : FilePath
  pub args : List OsString
  pub current_dir : FilePath
  pub environment : Environment
  pub policy : SandboxPolicy
  pub output : OutputMode

unfoldable pub new_request : FilePath → FilePath → SandboxRequest
new_request program current_dir = record {
  program = program;
  args = [];
  current_dir = current_dir;
  environment = clean;
  policy = default_policy;
  output = inherit_output;
}
