-- ===== src/Linux/Mounts/Parents.antt =====
-- cage-linux/src/backend/mounts.rs: the directories made above mount points, and the order of the
-- private file systems.
pub mod Laws
use cargo_cage.Base.{
  ℕ, zero, suc, Bool, ◌||◌, List, [], ◌∷◌, ◌++◌, Option, none, some, ◌==◌, list_eq, list_beq,
  contains, if◌then◌else◌, sort_by_key, length, dedup, any,
}
use cargo_cage.Os.FilePath.{FilePath, root, parent, starts_with, component_eq, component_beq}
use cargo_cage.Linux.Overlap.{BindMount}

module _ (blocked_paths : List FilePath) (runtime_mounts : List BindMount) where
  -- The two tests that end the climb early.
  unfoldable pub is_blocked : FilePath → Bool
  unfolding starts_with list_beq component_beq
  is_blocked directory =
      any (λ blocked. directory == blocked || starts_with directory blocked) blocked_paths
      || any (λ m. directory == m.destination || starts_with directory m.destination) runtime_mounts

  -- The `while let` loop. A parent is shorter than its path, so the length of the path is enough fuel.
  pub climb : ℕ → Option FilePath → List FilePath → List FilePath
  unfolding is_blocked parent list_beq component_beq contains
  climb zero directory directories = directories
  climb (suc fuel) none directories = directories
  climb (suc fuel) (some directory) directories =
      let directories' =
        if contains directories directory then directories else directories ++ directory ∷ [] in
      let rest = climb fuel (parent directory) directories' in
      if directory == root || is_blocked directory then directories else rest

  pub climb_all : List FilePath → List FilePath → List FilePath
  unfolding climb
  climb_all [] directories = directories
  climb_all (path ∷ paths) directories =
      climb_all paths (climb (length path) (parent path) directories)

unfoldable pub collect_parent_directories :
    List FilePath → List FilePath → List BindMount → List FilePath
unfolding climb_all sort_by_key
collect_parent_directories paths blocked_paths runtime_mounts =
    sort_by_key length (climb_all blocked_paths runtime_mounts paths [])

unfoldable pub private_mount_order : List FilePath → List FilePath
unfolding sort_by_key dedup list_beq component_beq
private_mount_order paths = dedup (sort_by_key length paths)
