-- ===== src/Core/Error.antt =====
-- cage-core/src/error.rs. An error keeps its kind, its subject and its rule; remedies and details,
-- which are texts for a reader, are left out. `policy_about` is a policy error whose rule names a
-- second path.
use cargo_cage.Base.{ℕ, String, Bool, false, Option, none, some, Result, nat_beq}
use cargo_cage.Os.FilePath.{FilePath}

-- `ProcessStatus` holds the exit code, if the process was not killed by a signal.
pub record ProcessStatus : Type 0 where
  pub code : Option ℕ

unfoldable pub successfully_exited : ProcessStatus → Bool
successfully_exited status = elim status.code [ none ↦ false | some n ↦ nat_beq n 0 ]

pub data ResourceLimitKind : Type 0 where
  processes memory cpu wall_time file_size open_files : ResourceLimitKind

pub kind_name : ResourceLimitKind → String
kind_name processes = "process count"
kind_name memory = "memory"
kind_name cpu = "CPU"
kind_name wall_time = "wall-clock time"
kind_name file_size = "file size"
kind_name open_files = "open file descriptors"

-- What an error is about: a path, or a fixed name.
pub data Subject : Type 0 where
  at_path : FilePath → Subject
  named : String → Subject

pub data CageError : Type 0 where
  invalid_invocation : String → CageError
  policy : Subject → String → CageError
  unsupported_platform : CageError
  backend_unavailable : String → CageError
  policy_about : Subject → String → FilePath → CageError
  sandbox_setup : Subject → String → CageError
  process_spawn : FilePath → CageError
  process_failed : ProcessStatus → String → CageError
  resource_limit_exceeded : ResourceLimitKind → String → Option ProcessStatus → CageError
  io : String → Subject → CageError

abbrev pub CageResult : Type 0 → Type 0
CageResult A = Result A CageError
