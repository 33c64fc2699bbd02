-- ===== src/Linux/Run/Cgroup.antt =====
-- cage-linux/src/resources.rs: whether a control group has processes, and its children.
use cargo_cage.Base.{
  Bool, true, false, not, [], ok, err, ◌>>=◌, ◌>>◌, map_err, reject_if, ◌==◌, list_eq, nat_eq,
  list_beq, if◌then◌else◌,
}
use cargo_cage.Os.Text.{OsString}
use cargo_cage.Os.FilePath.{FilePath}
use cargo_cage.Os.Fs.{IoResult, is_symlink, is_dir}
use cargo_cage.Core.Error.{CageError, CageResult, sandbox_setup, at_path}
use cargo_cage.Linux.Tree.MountTable.{split_whitespace}
use cargo_cage.Linux.Run.Session.{
  Cgroup, unlisted, listed, CgroupEntries, no_more, unread_entry, entry,
}

-- No line of `cgroup.procs` has more than white space.
cgroup_is_empty : FilePath → IoResult OsString → CageResult Bool
unfolding split_whitespace list_beq
cgroup_is_empty path procs = do
  text ←
      map_err procs (λ _. sandbox_setup (at_path path) "the cgroup control file must be readable")
  ok (split_whitespace text == [])

-- The checks of `child_cgroups`: every entry can be read and inspected, and none is a symlink.
unfoldable pub check_children : FilePath → CgroupEntries → CageResult (Unit {0})
check_children path no_more = ok tt
check_children path (unread_entry error entries) = err (
    sandbox_setup (at_path path)
      "the resource cgroup hierarchy must remain enumerable during cleanup")
check_children path (entry child answer group entries) = do
  metadata ← map_err answer (λ _.
      sandbox_setup (at_path child)
        "resource cgroup children must be inspectable without symlink traversal")
  reject_if (is_symlink metadata)
      (sandbox_setup (at_path child) "resource cgroup children must not be symlinks")
  check_children path entries

abbrev pub unreadable_hierarchy : FilePath → CageError
unreadable_hierarchy path =
    sandbox_setup (at_path path) "the resource cgroup hierarchy must remain readable during cleanup"

unfoldable mutual
  unfolding cgroup_is_empty check_children

  pub cgroup_tree_is_empty : FilePath → Cgroup → CageResult Bool
  cgroup_tree_is_empty path (unlisted procs error) = do
    empty ← cgroup_is_empty path procs
    (if not empty then ok false else err (unreadable_hierarchy path))
  cgroup_tree_is_empty path (listed procs entries) = do
    empty ← cgroup_is_empty path procs
    let below = children_are_empty entries
    (if not empty then ok false else (do check_children path entries; below))

  -- The loop over the children, which are the entries that are directories.
  children_are_empty : CgroupEntries → CageResult Bool
  children_are_empty no_more = ok true
  children_are_empty (unread_entry error entries) = children_are_empty entries
  children_are_empty (entry child (err error) group entries) = children_are_empty entries
  children_are_empty (entry child (ok metadata) group entries) =
      let here = cgroup_tree_is_empty child group in
      let others = children_are_empty entries in
      if is_dir metadata
      then (do empty ← here; (if not empty then ok false else others))
      else others
