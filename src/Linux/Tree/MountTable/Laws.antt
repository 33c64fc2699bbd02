-- ===== src/Linux/Tree/MountTable/Laws.antt =====
-- cage-linux/src/tree.rs: when `validate_no_nested_mounts` passes.
use cargo_cage.Base.{◌≡◌, ◌⊎◌, false, Option, none, some, get_elem?, list_eq}
use cargo_cage.Os.Text.{OsString}
use cargo_cage.Os.FilePath.{FilePath, component_eq, starts_with}
use cargo_cage.Linux.Tree.MountTable.{split_whitespace, decode_mountinfo_path}

-- The fifth field of a line, decoded.
pub mountpoint_of : OsString → Option FilePath
mountpoint_of line = elim (get_elem? (split_whitespace line) 4) [
  | none ↦ none
  | some field ↦ decode_mountinfo_path field
]

-- The line names a mount point, which is the tree's root or lies elsewhere.
abbrev pub IsOutside : FilePath → OsString → Type 0
IsOutside root line =
    (mountpoint : FilePath) × (mountpoint_of line ≡ some mountpoint)
    × ((mountpoint ≡ root) ⊎ (starts_with mountpoint root ≡ false))
