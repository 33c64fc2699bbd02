-- ===== src/Linux/Tree/Walk.antt =====
-- cage-linux/src/tree.rs: `validate_tree`. What `read_dir` and `symlink_metadata` answer below a
-- root is one finite tree, since the walk follows no symlink.
pub mod Visited
pub mod Termination
pub mod Described
use Prim.Native.String.{◌++◌ as ◌<>◌}
use cargo_cage.Base.{
  ℕ, zero, suc, ◌+◌, ◌<◌, String, Bool, true, false, not, ◌||◌, Option, none, some, List, [], ◌∷◌,
  ◌++◌, Result, ok, err, ◌>>=◌, ◌>>◌, reject_if, map_err, any, ◌==◌, list_eq, list_beq,
  if◌then◌else◌,
}
use cargo_cage.Os.Text.{OsString}
use cargo_cage.Os.FilePath.{FilePath, normal, component_eq, component_beq, starts_with}
use cargo_cage.Os.Fs.{Fs, Metadata, IoError, IoResult, is_symlink, is_dir, is_file}
use cargo_cage.Core.Error.{CageError, CageResult, policy, sandbox_setup, at_path}

mutual
  -- A directory as `read_dir` answers for it.
  pub data Listing : Type 0 where
    unreadable : IoError → Listing
    readable : Entries → Listing

  pub data Entries : Type 0 where
    last : Entries
    next : Entry → Entries → Entries

  -- An entry that could not be read, or a name with what `symlink_metadata` answers for it and, if
  -- it is a directory, the listing of it.
  pub data Entry : Type 0 where
    unread : IoError → Entry
    named_entry : OsString → IoResult Metadata → Listing → Entry

pub data TreeKind : Type 0 where
  cache read_only writable : TreeKind

unfoldable pub tree_label : TreeKind → String
tree_label cache = "Cargo cache"
tree_label read_only = "read-only"
tree_label writable = "writable"

abbrev pub tree_setup_failure : FilePath → TreeKind → CageError
tree_setup_failure path kind =
    sandbox_setup (at_path path)
      (tree_label kind <> " trees must remain real, present, and stable during validation")

-- `path == *excluded || path.starts_with(excluded)` for some excluded path
unfoldable pub is_excluded : List FilePath → FilePath → Bool
unfolding list_beq component_beq starts_with
is_excluded excluded path = any (λ e. path == e || starts_with path e) excluded

-- What the loop does with an entry.
pub data Visit : Type 0 where
  skip : Visit
  directory_at : FilePath → Listing → Visit
  file_at : FilePath → Metadata → Visit

abbrev pub Stack : Type 0
Stack = List (FilePath × Listing)

abbrev pub Files : Type 0
Files = List (FilePath × Metadata)

module _ (fs : Fs) (root : FilePath) (kind : TreeKind) (excluded : List FilePath) where
  -- A symlink is followed nowhere; a read-only tree may hold one that resolves inside of it.
  visit_symlink : TreeKind → FilePath → CageResult Visit
  visit_symlink read_only path = do
    resolved ← map_err (fs.canonicalize path) (λ _. tree_setup_failure path read_only)
    reject_if (not (starts_with resolved root))
        (policy (at_path path) "read-only tree symlinks must resolve inside the validated tree")
    ok skip
  visit_symlink other path =
      err (policy (at_path path) (tree_label other <> " trees must not contain symlinks"))

  visit_metadata : FilePath → Metadata → Listing → CageResult Visit
  unfolding visit_symlink
  visit_metadata path metadata listing =
      if is_symlink metadata
      then visit_symlink kind path
      else if is_dir metadata
      then ok (directory_at path listing)
      else if is_file metadata
      then ok (file_at path metadata)
      else err (
          policy (at_path path)
            (tree_label kind <> " trees may contain only regular files and directories"))

  -- The body of the inner loop.
  unfoldable pub visit : FilePath → Entry → CageResult Visit
  unfolding visit_metadata is_excluded
  visit directory (unread error) = err (tree_setup_failure directory kind)
  visit directory (named_entry name answer listing) =
      let path = directory ++ normal name ∷ [] in
      if is_excluded excluded path then ok skip else (do
        metadata ← map_err answer (λ _. tree_setup_failure path kind)
        visit_metadata path metadata listing)

  unfoldable pub push_visit : Visit → Stack × Files → Stack × Files
  push_visit skip (stack, files) = (stack, files)
  push_visit (directory_at path listing) (stack, files) = ((path, listing) ∷ stack, files)
  push_visit (file_at path metadata) (stack, files) = (stack, files ++ (path, metadata) ∷ [])

  -- The inner loop over the entries of a directory.
  unfoldable pub scan : FilePath → Entries → Stack × Files → CageResult (Stack × Files)
  unfolding visit push_visit
  scan directory last found = ok found
  scan directory (next entry entries) found = do
    v ← visit directory entry
    scan directory entries (push_visit v found)

  unfoldable pub scan_listing : FilePath → Listing → Stack × Files → CageResult (Stack × Files)
  unfolding scan
  scan_listing directory (unreadable error) found = err (tree_setup_failure directory kind)
  scan_listing directory (readable entries) found = scan directory entries found

  -- The outer loop, which pops the directory that was pushed last. Without fuel it has no answer.
  unfoldable pub walk : ℕ → Stack → Files → Option (CageResult Files)
  unfolding scan_listing
  walk zero stack files = none
  walk (suc fuel) [] files = some (ok files)
  walk (suc fuel) ((directory, listing) ∷ stack) files =
      elim (scan_listing directory listing (stack, files)) [
        | err error ↦ some (err error)
        | ok (stack', files') ↦ walk fuel stack' files'
      ]

-- How many directories are below a listing. A symlink counts for none, whatever it leads to.
unfoldable mutual
  pub listing_size : Listing → ℕ
  listing_size (unreadable error) = 0
  listing_size (readable entries) = entries_size entries

  pub entries_size : Entries → ℕ
  entries_size last = 0
  entries_size (next entry entries) = entry_size entry + entries_size entries

  pub entry_size : Entry → ℕ
  entry_size (unread error) = 0
  entry_size (named_entry name (err error) listing) = 0
  entry_size (named_entry name (ok m) listing) =
      let below = suc (listing_size listing) in if is_dir m then below else 0

unfoldable pub stack_size : Stack → ℕ
stack_size [] = 0
stack_size ((directory, listing) ∷ stack) = suc (listing_size listing) + stack_size stack
