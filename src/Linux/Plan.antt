-- ===== src/Linux/Plan.antt =====
-- cage-linux/src/backend.rs: `SandboxPlan`, and how a request becomes one.
pub mod FromRequest
use cargo_cage.Base.{List}
use cargo_cage.Os.FilePath.{FilePath}
use cargo_cage.Core.Limits.{ResourceLimits}
use cargo_cage.Core.Environment.{Environment}
use cargo_cage.Core.Request.{NetworkAccess}
use cargo_cage.Linux.Overlap.{BindMount, MaskPath}

pub record SandboxPlan : Type 0 where
  pub current_dir : FilePath
  pub runtime_mounts : List BindMount
  pub writable_paths : List FilePath
  pub hidden_paths : List MaskPath
  pub private_paths : List FilePath
  pub read_only_paths : List FilePath
  pub cargo_cache_paths : List FilePath
  pub environment : Environment
  pub network : NetworkAccess
  pub resources : ResourceLimits
