-- ===== src/Linux/Delegated.antt =====
-- cage-linux/src/resources.rs: the search for the control group that may hold the group of a run. What
-- a control file holds, and whether it opens for writing, is a parameter.
pub mod Upward
pub mod Laws
use cargo_cage.Base.{
  ℕ, zero, suc, Bool, true, false, ◌&&◌, ◌||◌, Option, none, some, List, [], ◌∷◌, ok, err, ◌>>=◌,
  ◌==◌, list_eq, list_beq, nat_eq, map_err, any, all, length, if◌then◌else◌,
}
use cargo_cage.Os.Text.{OsString, bytes}
use cargo_cage.Os.FilePath.{FilePath, normal, join, parent, component_eq, component_beq}
use cargo_cage.Os.Fs.{IoResult, permission_denied}
use cargo_cage.Core.Error.{CageResult, sandbox_setup, at_path}
use cargo_cage.Linux.Tree.MountTable.{split_whitespace}

has_word : OsString → OsString → Bool
unfolding split_whitespace list_beq
has_word content word =
    any (λ value. value == word || value == b'+' ∷ word) (split_whitespace content)

pub record ControlFiles : Type 0 where
  pub read_to_string : FilePath → IoResult OsString
  pub open_for_writing : FilePath → IoResult (Unit {0})

-- What is made of the end of the loop.
picked : FilePath → Option FilePath → CageResult FilePath
picked restore (some candidate) = ok candidate
picked restore none = err (
    sandbox_setup (at_path restore)
      "an ancestor cgroup must delegate cpu, memory, and pids to a private child")

module _ (files : ControlFiles) where
  read_text : FilePath → CageResult OsString
  read_text path =
      map_err (files.read_to_string path)
        (λ _. sandbox_setup (at_path path) "the cgroup control file must be readable")

  has_required_controllers : FilePath → CageResult Bool
  unfolding read_text has_word join
  has_required_controllers path = do
    available ← read_text (join path (normal (bytes "cgroup.controllers") ∷ []))
    enabled ← read_text (join path (normal (bytes "cgroup.subtree_control") ∷ []))
    ok (
        all (λ controller. has_word available controller && has_word enabled controller)
          (bytes "cpu" ∷ bytes "memory" ∷ bytes "pids" ∷ []))

  can_create_child : FilePath → CageResult Bool
  unfolding join
  can_create_child path =
      elim (files.open_for_writing (join path (normal (bytes "cgroup.procs") ∷ []))) [
        | ok opened ↦ ok true
        | err permission_denied ↦ ok false
        | err _ ↦ err (
            sandbox_setup (at_path path)
              "the delegated ancestor cgroup process file must be writable")
      ]

  -- `has_required_controllers(&candidate)? && can_create_child(&candidate)?`
  unfoldable pub is_delegated : FilePath → CageResult Bool
  unfolding has_required_controllers can_create_child
  is_delegated candidate = do
    has ← has_required_controllers candidate
    if has then can_create_child candidate else ok false

  -- The loop. A parent is shorter than its path, so that one round more than the path is long is
  -- enough.
  unfoldable pub climb_to : ℕ → FilePath → FilePath → CageResult (Option FilePath)
  unfolding is_delegated parent list_beq component_beq
  climb_to zero mount candidate = ok none
  climb_to (suc fuel) mount candidate =
      let above : CageResult (Option FilePath) = elim (parent candidate) [
        | none ↦ ok none
        | some next ↦ climb_to fuel mount next
      ] in
      is_delegated candidate >>= λ delegated.
      if delegated then ok (some candidate) else if candidate == mount then ok none else above

  unfoldable pub find_delegated_parent : FilePath → FilePath → CageResult FilePath
  unfolding climb_to picked
  find_delegated_parent mount restore =
      climb_to (suc (length restore)) mount restore >>= picked restore
