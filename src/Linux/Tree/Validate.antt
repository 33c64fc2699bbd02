-- ===== src/Linux/Tree/Validate.antt =====
-- cage-linux/src/tree.rs: `validate_tree`, by the walk with its fuel.
pub mod Laws
use Prim.Native.String.{◌++◌ as ◌<>◌}
use cargo_cage.Base.{
  zero, suc, ◌+◌, ◌<◌, Bool, true, false, not, List, [], ◌∷◌, ok, err, ◌>>=◌, ◌>>◌, map_err,
  answer_of, arith, if◌then◌else◌,
}
use cargo_cage.Os.Text.{OsString}
use cargo_cage.Os.FilePath.{FilePath}
use cargo_cage.Os.Fs.{Fs, Metadata, IoResult, is_symlink, is_dir, is_file}
use cargo_cage.Core.Error.{CageResult, policy, at_path}
use cargo_cage.Linux.Tree.Hardlinks.{validate_hardlink_aliases}
use cargo_cage.Linux.Tree.MountTable.{validate_no_nested_mounts}
use cargo_cage.Linux.Tree.Walk.{
  Listing, TreeKind, cache, read_only, writable, tree_label, tree_setup_failure, walk, listing_size,
  stack_size,
}
use cargo_cage.Linux.Tree.Walk.Termination.{walk-returns}

pub root_size :
    (root : FilePath) (listing : Listing)
    → stack_size ((root, listing) ∷ []) < suc (suc (listing_size listing))
unfolding stack_size
root_size root listing = omega arith

module _ (fs : Fs) (mountinfo : IoResult OsString) (root : FilePath) (kind : TreeKind) where
  -- `validate_tree`, where `listing` is the tree below the root.
  pub validate_directories : Listing → List FilePath → CageResult (Unit {0})
  unfolding answer_of
  validate_directories listing excluded = do
    validate_no_nested_mounts root (tree_label kind) mountinfo
    files ←
        answer_of
          (walk fs root kind excluded (suc (suc (listing_size listing))) ((root, listing) ∷ []) [])
          (walk-returns fs root kind excluded (suc (suc (listing_size listing)))
            ((root, listing) ∷ []) [] (root_size root listing))
    validate_hardlink_aliases files (tree_label kind)

  -- A root that is a regular file may only be one to be written.
  pub check_regular : TreeKind → Metadata → CageResult (Unit {0})
  check_regular writable metadata =
      validate_hardlink_aliases ((root, metadata) ∷ []) (tree_label kind)
  check_regular _ metadata =
      err (policy (at_path root) (tree_label kind <> " roots must be directories"))

  pub validate_root : Metadata → Listing → List FilePath → CageResult (Unit {0})
  unfolding validate_directories check_regular
  validate_root metadata listing excluded =
      if is_symlink metadata
      then err (policy (at_path root) (tree_label kind <> " roots must not be symlinks"))
      else if is_file metadata
      then check_regular kind metadata
      else if not (is_dir metadata)
      then err (
          policy (at_path root)
            (tree_label kind <> " trees may contain only regular files and directories"))
      else validate_directories listing excluded

  unfoldable pub validate_tree : Listing → List FilePath → CageResult (Unit {0})
  unfolding validate_root
  validate_tree listing excluded = do
    metadata ← map_err (fs.symlink_metadata root) (λ _. tree_setup_failure root kind)
    validate_root metadata listing excluded

-- What the kernel answers for the trees on the host: the file system, the mount table, and the
-- listing below each root.
pub record Host : Type 0 where
  pub fs : Fs
  pub mountinfo : IoResult OsString
  pub listing : FilePath → Listing

abbrev pub validate_cache_tree : Host → FilePath → CageResult (Unit {0})
validate_cache_tree host root =
    validate_tree host.fs host.mountinfo root cache (host.listing root) []

abbrev pub validate_writable_tree : Host → FilePath → CageResult (Unit {0})
validate_writable_tree host root =
    validate_tree host.fs host.mountinfo root writable (host.listing root) []

abbrev pub validate_read_only_tree : Host → FilePath → List FilePath → CageResult (Unit {0})
validate_read_only_tree host root excluded_paths =
    validate_tree host.fs host.mountinfo root read_only (host.listing root) excluded_paths
