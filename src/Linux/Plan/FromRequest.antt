-- ===== src/Linux/Plan/FromRequest.antt =====
-- cage-linux/src/backend.rs: `SandboxPlan::from_request`, in four parts: the paths of the request are
-- looked up, the Cargo home of the host becomes private, the paths and their trees are checked, and
-- the caches of the Cargo home are taken.
pub mod Invariant
pub mod Laws
use cargo_cage.Base.{
  Bool, true, false, not, ◌||◌, Option, none, some, List, [], ◌∷◌, ◌++◌, ok, err, ◌>>=◌, ◌>>◌,
  reject_if, map_err, try_map, for_each, any, contains, ◌==◌, list_eq, list_beq, if◌then◌else◌,
}
use cargo_cage.Os.Text.{OsString, bytes}
use cargo_cage.Os.FilePath.{FilePath, path_of, root, component_eq, component_beq}
use cargo_cage.Core.Error.{CageResult}
use cargo_cage.Core.Paths.{canonical_existing_path_without_symlinks}
use cargo_cage.Core.Request.{SandboxRequest, SandboxPolicy}
use cargo_cage.Linux.Overlap.{
  BindMount, MaskPath, validate_read_only_paths, validate_writable_paths,
}
use cargo_cage.Linux.Merge.{merged_environment}
use cargo_cage.Linux.Sources.{
  flatten_options, canonical_existing_dir, make_mask, runtime_mounts, validate_program_path,
}
use cargo_cage.Linux.CargoHome.{host_cargo_home, with_cargo_home, validate_cargo_cache_paths}
use cargo_cage.Linux.Tree.Roots.{unique_mount_roots}
use cargo_cage.Linux.Tree.Validate.{
  Host, validate_tree, validate_writable_tree, validate_read_only_tree,
}
use cargo_cage.Linux.Plan.{SandboxPlan}

-- What the first part finds.
pub record PlanPaths : Type 0 where
  pub working_dir : FilePath
  pub runtime : List BindMount
  pub writable : List FilePath
  pub read_only : List FilePath
  pub private : List FilePath
  pub hidden : List MaskPath

-- `/run` is private in every plan.
abbrev pub run_dir : FilePath
run_dir = path_of (bytes "/run")

unfoldable pub with_run : List FilePath → FilePath → List FilePath
unfolding contains list_beq component_beq
with_run private run_path = if contains private run_path then private else private ++ run_path ∷ []

module _ (host : Host) where
  unfoldable pub find_paths : SandboxRequest → CageResult PlanPaths
  unfolding canonical_existing_dir canonical_existing_path_without_symlinks runtime_mounts try_map
      make_mask flatten_options with_run path_of
  find_paths request = do
    current_dir ← canonical_existing_dir host.fs request.current_dir "current directory"
    mounts ← runtime_mounts host.fs
    writable ←
        try_map (λ p. canonical_existing_path_without_symlinks host.fs p "writable path")
          request.policy.writable_paths
    read_only ←
        try_map (λ p. canonical_existing_dir host.fs p "read-only path")
          request.policy.read_only_paths
    private ←
        try_map (λ p. canonical_existing_dir host.fs p "private path") request.policy.private_paths
    run_path ← canonical_existing_dir host.fs run_dir "private path"
    masks ← try_map (make_mask host.fs) request.policy.hidden_paths
    ok (record {
      working_dir = current_dir;
      runtime = mounts;
      writable = writable;
      read_only = read_only;
      private = with_run private run_path;
      hidden = flatten_options masks;
    })

  unfoldable pub add_cargo_home : PlanPaths → Option FilePath → CageResult (List FilePath)
  unfolding with_cargo_home
  add_cargo_home paths none = ok paths.private
  add_cargo_home paths (some cargo_home) =
      with_cargo_home paths.runtime paths.read_only paths.private cargo_home

  unfoldable pub check_paths : PlanPaths → List FilePath → CageResult (Unit {0})
  unfolding validate_read_only_paths validate_writable_paths for_each validate_tree
      unique_mount_roots
  check_paths paths private = do
    validate_read_only_paths paths.read_only private paths.hidden
    validate_writable_paths paths.writable paths.hidden private paths.read_only
    for_each (validate_writable_tree host) paths.writable
    for_each (λ p. validate_read_only_tree host p paths.writable)
        (unique_mount_roots paths.read_only)

  unfoldable pub cache_paths : PlanPaths → Option FilePath → CageResult (List FilePath)
  unfolding validate_cargo_cache_paths
  cache_paths paths none = ok []
  cache_paths paths (some cargo_home) =
      validate_cargo_cache_paths host cargo_home paths.writable paths.hidden

  unfoldable pub from_request :
      Option OsString → Option OsString → SandboxRequest → CageResult SandboxPlan
  unfolding find_paths validate_program_path host_cargo_home add_cargo_home check_paths cache_paths
      merged_environment
  from_request cargo_home_variable home_variable request = do
    paths ← find_paths request
    validate_program_path host.fs request.program paths.runtime paths.writable paths.read_only
    cargo_home ← host_cargo_home host cargo_home_variable home_variable
    private ← add_cargo_home paths cargo_home
    check_paths paths private
    caches ← cache_paths paths cargo_home
    ok (record {
      current_dir = paths.working_dir;
      runtime_mounts = paths.runtime;
      writable_paths = paths.writable;
      hidden_paths = paths.hidden;
      private_paths = private;
      read_only_paths = paths.read_only;
      cargo_cache_paths = caches;
      environment = merged_environment request;
      network = request.policy.network;
      resources = request.policy.resources;
    })
