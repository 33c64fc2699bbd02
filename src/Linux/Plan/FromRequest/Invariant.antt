-- ===== src/Linux/Plan/FromRequest/Invariant.antt =====
-- What holds of a plan that a request becomes.
use cargo_cage.Base.{
  ◌≡◌, ◌≢◌, ◌⊎◌, false, Option, some, List, [], ◌++◌, ok, err, In, contains, list_eq, nat_eq,
}
use cargo_cage.Os.Text.{OsString}
use cargo_cage.Os.FilePath.{FilePath, root}
use cargo_cage.Os.Fs.{Metadata, not_found}
use cargo_cage.Core.Environment.Names.{is_sensitive_environment_name}
use cargo_cage.Core.Request.{SandboxRequest}
use cargo_cage.Linux.Overlap.{BindMount, MaskPath, mask_path}
use cargo_cage.Linux.Overlap.Shared.{Below, SharesPath}
use cargo_cage.Linux.Overlap.Laws.{IsWritableAllowed, IsReadOnlyAllowed}
use cargo_cage.Linux.Sources.{required_runtime_paths, optional_runtime_paths}
use cargo_cage.Linux.Sources.Laws.{IsRuntimeMount, Masked}
use cargo_cage.Linux.CargoHome.{host_cargo_home}
use cargo_cage.Linux.Tree.Roots.{unique_mount_roots}
use cargo_cage.Linux.Tree.Walk.{TreeKind, cache, writable, read_only}
use cargo_cage.Linux.Tree.Validate.{Host}
use cargo_cage.Linux.Tree.Validate.Laws.{IsSoundRoot}
use cargo_cage.Linux.Plan.{SandboxPlan}
use cargo_cage.Linux.Plan.FromRequest.{run_dir}

module _ (host : Host) where
  -- The path is a directory with a tree as it should be, or a file to be written without another name.
  abbrev pub IsCheckedTree : TreeKind → List FilePath → FilePath → Type 0
  IsCheckedTree kind excluded path =
      (m : Metadata) × (host.fs.symlink_metadata path ≡ ok m)
      × IsSoundRoot host.fs host.mountinfo path kind (host.listing path) excluded m

  -- The path is what the kernel canonicalizes an asked one to.
  abbrev pub Includes : List FilePath → FilePath → Type 0
  Includes paths asked = (p : FilePath) × In p paths × (host.fs.canonicalize asked ≡ ok p)

  -- A path of the plan is what the kernel canonicalizes one of the asked paths to.
  abbrev pub IsAsked : List FilePath → FilePath → Type 0
  IsAsked asked path = (p : FilePath) × In p asked × (host.fs.canonicalize p ≡ ok path)

  -- The Cargo home of the host, if it is there, is private, and no read-only path shows a file of it.
  abbrev pub IsPrivateHome : SandboxPlan → FilePath → Type 0
  IsPrivateHome plan cargo_home =
      (cargo_home ≢ root)
      × ((p : FilePath) × In p plan.private_paths × Below cargo_home p)
      × ((v : FilePath) → In v plan.read_only_paths → ¬ SharesPath cargo_home v)

  -- A cache shares no file with a writable or a hidden path.
  pub record IsApart (plan : SandboxPlan) (path : FilePath) : Type 0 where
    pub from_writable : (w : FilePath) → In w plan.writable_paths → ¬ SharesPath path w
    pub from_hidden : (m : MaskPath) → In m plan.hidden_paths → ¬ SharesPath path (mask_path m)

  pub record IsSafePlan (cargo_home_variable home_variable : Option OsString)
      (request : SandboxRequest) (plan : SandboxPlan) : Type 0 where
    pub writable_allowed :
        (w : FilePath)
        → In w plan.writable_paths
        → IsWritableAllowed plan.hidden_paths plan.private_paths plan.read_only_paths w
          × IsCheckedTree writable [] w
    pub writable_asked :
        (w : FilePath) → In w plan.writable_paths → IsAsked request.policy.writable_paths w
    pub read_only_asked :
        (v : FilePath) → In v plan.read_only_paths → IsAsked request.policy.read_only_paths v
    pub read_only_allowed :
        (v : FilePath)
        → In v plan.read_only_paths
        → IsReadOnlyAllowed plan.private_paths plan.hidden_paths v
    pub read_only_checked :
        (v : FilePath)
        → In v (unique_mount_roots plan.read_only_paths)
        → IsCheckedTree read_only plan.writable_paths v
    pub caches_allowed :
        (c : FilePath) → In c plan.cargo_cache_paths → IsApart plan c × IsCheckedTree cache [] c
    pub runtime_allowed :
        (m : BindMount)
        → In m plan.runtime_mounts
        → IsRuntimeMount host.fs m
          × In m.destination (required_runtime_paths ++ optional_runtime_paths)
    pub home_private :
        (cargo_home : FilePath)
        → host_cargo_home host cargo_home_variable home_variable ≡ ok (some cargo_home)
        → IsPrivateHome plan cargo_home
    pub run_private : Includes plan.private_paths run_dir
    pub private_kept :
        (p : FilePath) → In p request.policy.private_paths → Includes plan.private_paths p
    pub hidden_masked :
        (p : FilePath)
        → In p request.policy.hidden_paths
        → (host.fs.symlink_metadata p ≡ err not_found)
          ⊎ ((mask : MaskPath) × In mask plan.hidden_paths × Masked host.fs p mask)
    pub secrets_unset :
        (k v : OsString)
        → In (k, v) plan.environment.set
        → (is_sensitive_environment_name k ≡ false)
          × (contains request.policy.remove_environment k ≡ false)
          × (contains request.environment.remove k ≡ false)
    pub network_kept : plan.network ≡ request.policy.network
    pub resources_kept : plan.resources ≡ request.policy.resources
