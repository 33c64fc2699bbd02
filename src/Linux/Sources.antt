-- ===== src/Linux/Sources.antt =====
-- cage-linux/src/backend.rs: the paths of a request and of the host, as a plan takes them.
pub mod Laws
use Prim.Native.String.{◌++◌ as ◌<>◌}
use cargo_cage.Base.{
  String, Bool, true, false, not, ◌&&◌, ◌||◌, Option, none, some, List, [], ◌∷◌, ◌++◌, ok, err,
  ◌>>=◌, ◌>>◌, reject_if, map_err, try_map, any, is_ok_and, ◌==◌, list_eq, list_beq, if◌then◌else◌,
}
use cargo_cage.Os.Text.{bytes}
use cargo_cage.Os.FilePath.{
  FilePath, path_of, root, is_absolute, has_parent_dir, starts_with, component_eq, component_beq,
}
use cargo_cage.Os.Fs.{Fs, Metadata, IoError, is_symlink, is_dir, is_file, is_not_found}
use cargo_cage.Core.Error.{CageResult, policy, io, at_path}
use cargo_cage.Core.Paths.{canonical_existing_path_without_symlinks}
use cargo_cage.Linux.Overlap.{BindMount, MaskPath, directory_mask, file_mask}

-- The members of a list that are there, `into_iter().flatten()`.
unfoldable pub flatten_options : {A : Type 0} → List (Option A) → List A
flatten_options [] = []
flatten_options (none ∷ xs) = flatten_options xs
flatten_options (some x ∷ xs) = x ∷ flatten_options xs

abbrev pub required_runtime_paths : List FilePath
required_runtime_paths =
    path_of (bytes "/usr")
    ∷ path_of (bytes "/bin")
    ∷ path_of (bytes "/lib")
    ∷ path_of (bytes "/etc")
    ∷ []

abbrev pub optional_runtime_paths : List FilePath
optional_runtime_paths =
    path_of (bytes "/sbin") ∷ path_of (bytes "/lib64") ∷ path_of (bytes "/lib32") ∷ []

module _ (fs : Fs) where
  unfoldable pub canonical_existing_dir : FilePath → String → CageResult FilePath
  unfolding canonical_existing_path_without_symlinks
  canonical_existing_dir path label = do
    metadata ←
        map_err (fs.symlink_metadata path) (λ _. io ("could not inspect " <> label) (at_path path))
    reject_if (is_symlink metadata || not (is_dir metadata))
        (policy (at_path path) (label <> " must be a real directory without symlink resolution"))
    canonical_existing_path_without_symlinks fs path label

  mask_existing : FilePath → Metadata → CageResult (Option MaskPath)
  unfolding canonical_existing_path_without_symlinks list_beq component_beq
  mask_existing path metadata = do
    reject_if (is_symlink metadata) (policy (at_path path) "hidden paths must not be symlinks")
    resolved ← canonical_existing_path_without_symlinks fs path "hidden path"
    reject_if (resolved == root)
        (policy (at_path path) "a hidden path must not resolve to the filesystem root")
    ok (some (if is_dir metadata then directory_mask resolved else file_mask resolved))

  unfoldable pub make_mask : FilePath → CageResult (Option MaskPath)
  unfolding mask_existing
  make_mask path = elim (fs.symlink_metadata path) [
    | ok metadata ↦ mask_existing path metadata
    | err error ↦
        if is_not_found error
        then ok none
        else err (io "could not inspect hidden path" (at_path path))
  ]

  runtime_mount_at : FilePath → Metadata → CageResult (Option BindMount)
  unfolding list_beq component_beq
  runtime_mount_at path metadata = do
    reject_if (not (is_dir metadata))
        (policy (at_path path) "runtime mount sources must be directories")
    source ←
        map_err (fs.canonicalize path)
          (λ _. io "could not canonicalize runtime path" (at_path path))
    reject_if (source == root)
        (policy (at_path path) "a runtime mount must not resolve to the filesystem root")
    ok (some (record { source = source; destination = path }))

  unfoldable pub runtime_mount : Bool → FilePath → CageResult (Option BindMount)
  unfolding runtime_mount_at
  runtime_mount required path = elim (fs.metadata path) [
    | ok metadata ↦ runtime_mount_at path metadata
    | err error ↦
        if not required && is_not_found error
        then ok none
        else err (io "could not inspect required runtime path" (at_path path))
  ]

  unfoldable pub runtime_mounts : CageResult (List BindMount)
  unfolding runtime_mount path_of flatten_options try_map
  runtime_mounts = do
    required ← try_map (runtime_mount true) required_runtime_paths
    optional ← try_map (runtime_mount false) optional_runtime_paths
    ok (flatten_options required ++ flatten_options optional)

  -- Some mount covers the program.
  is_visible : FilePath → List BindMount → List FilePath → List FilePath → Bool
  unfolding starts_with list_beq component_beq
  is_visible program mounts writable_paths read_only_paths =
      any (λ m. program == m.destination || starts_with program m.destination) mounts
      || any (λ p. program == p || starts_with program p) writable_paths
      || any (λ p. program == p || starts_with program p) read_only_paths

  unfoldable pub validate_program_path :
      FilePath → List BindMount → List FilePath → List FilePath → CageResult (Unit {0})
  unfolding is_visible is_absolute has_parent_dir component_beq
  validate_program_path program mounts writable_paths read_only_paths = do
    reject_if (not (is_absolute program))
        (policy (at_path program) "the sandbox program path must be absolute")
    reject_if (has_parent_dir program) (
        policy (at_path program)
          "the sandbox program path must not contain parent-directory traversal")
    reject_if (not (is_ok_and (fs.metadata program) is_file))
        (policy (at_path program) "the sandbox program must be an existing regular file")
    reject_if (not (is_visible program mounts writable_paths read_only_paths)) (
        policy (at_path program)
          "the sandbox program is not covered by an allowed filesystem mount")
