-- ===== src/Linux/CargoHome.antt =====
-- cage-linux/src/backend.rs: the Cargo home of the host and its caches. The variables CARGO_HOME and
-- HOME are parameters.
pub mod Laws
use cargo_cage.Base.{
  Bool, true, false, not, ◌||◌, Option, none, some, List, [], ◌∷◌, ◌++◌, ok, err, ◌>>=◌, ◌>>◌,
  reject_if, map_err, try_map, any, ◌==◌, list_eq, list_beq, if◌then◌else◌,
}
use cargo_cage.Os.Text.{OsString, bytes}
use cargo_cage.Os.FilePath.{
  FilePath, path_of, root, join, is_absolute, starts_with, component_eq, component_beq,
}
use cargo_cage.Os.Fs.{Fs, Metadata, is_symlink, is_dir, is_not_found}
use cargo_cage.Core.Error.{CageResult, policy, io, at_path}
use cargo_cage.Core.Paths.{canonical_existing_path_without_symlinks}
use cargo_cage.Linux.Overlap.{
  BindMount, MaskPath, validate_cache_source_policy, validate_cargo_home_mount_location,
}
use cargo_cage.Linux.Sources.{flatten_options}
use cargo_cage.Linux.Tree.Validate.{Host, validate_cache_tree, validate_tree}

module _ (host : Host) where
  check_cargo_home : FilePath → CageResult (Option FilePath)
  unfolding canonical_existing_path_without_symlinks is_absolute list_beq component_beq
  check_cargo_home path = do
    reject_if (not (is_absolute path)) (policy (at_path path) "CARGO_HOME must be an absolute path")
    reject_if (path == root) (policy (at_path path) "CARGO_HOME must not be the filesystem root")
    elim (host.fs.symlink_metadata path) [
      | ok metadata ↦
          if is_dir metadata
          then (do
            cargo_home ← canonical_existing_path_without_symlinks host.fs path "CARGO_HOME"
            ok (some cargo_home))
          else if is_symlink metadata
          then err (policy (at_path path) "CARGO_HOME must not be a symlink")
          else err (policy (at_path path) "CARGO_HOME must be a directory")
      | err error ↦
          if is_not_found error
          then ok none
          else err (io "could not inspect CARGO_HOME" (at_path path))
    ]

  unfoldable pub host_cargo_home : Option OsString → Option OsString → CageResult (Option FilePath)
  unfolding check_cargo_home path_of join
  host_cargo_home (some cargo_home) home = check_cargo_home (path_of cargo_home)
  host_cargo_home none (some home) =
      check_cargo_home (join (path_of home) (path_of (bytes ".cargo")))
  host_cargo_home none none = ok none

  check_cache : List FilePath → List MaskPath → FilePath → Metadata → CageResult (Option FilePath)
  unfolding canonical_existing_path_without_symlinks validate_cache_source_policy validate_tree
  check_cache writable_paths hidden_paths path metadata = do
    reject_if (is_symlink metadata)
        (policy (at_path path) "Cargo cache mount sources must not be symlinks")
    reject_if (not (is_dir metadata))
        (policy (at_path path) "Cargo cache mount sources must be directories")
    cache ← canonical_existing_path_without_symlinks host.fs path "Cargo cache"
    validate_cache_source_policy cache writable_paths hidden_paths
    validate_cache_tree host cache
    ok (some cache)

  -- The body of the loop over the names of the caches. A cache that is missing is left out.
  unfoldable pub cache_at : List FilePath → List MaskPath → FilePath → CageResult (Option FilePath)
  unfolding check_cache
  cache_at writable_paths hidden_paths path = elim (host.fs.symlink_metadata path) [
    | ok metadata ↦ check_cache writable_paths hidden_paths path metadata
    | err error ↦
        if is_not_found error
        then ok none
        else err (io "could not inspect Cargo cache" (at_path path))
  ]

  unfoldable pub validate_cargo_cache_paths :
      FilePath → List FilePath → List MaskPath → CageResult (List FilePath)
  unfolding cache_at join path_of try_map flatten_options
  validate_cargo_cache_paths cargo_home writable_paths hidden_paths = do
    caches ← try_map (cache_at writable_paths hidden_paths) (
        join cargo_home (path_of (bytes "registry")) ∷ join cargo_home (path_of (bytes "git")) ∷ [])
    ok (flatten_options caches)

-- The private paths with the Cargo home of the host, which must cover no runtime mount.
unfoldable pub with_cargo_home :
    List BindMount → List FilePath → List FilePath → FilePath → CageResult (List FilePath)
unfolding validate_cargo_home_mount_location starts_with list_beq component_beq
with_cargo_home runtime_mounts read_only_paths private_paths cargo_home = do
  reject_if (cargo_home == root)
      (policy (at_path cargo_home) "CARGO_HOME must not be the filesystem root")
  validate_cargo_home_mount_location cargo_home read_only_paths
  reject_if
      (any (λ m. cargo_home == m.destination || starts_with m.destination cargo_home)
        runtime_mounts)
      (policy (at_path cargo_home) "CARGO_HOME must not cover a required Linux runtime mount")
  ok (
      if any (λ p. cargo_home == p || starts_with cargo_home p) private_paths
      then private_paths
      else private_paths ++ cargo_home ∷ [])
