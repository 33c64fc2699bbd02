-- ===== src/Cargo/Target/Laws.antt =====
-- cage-cargo/src/paths.rs: what an accepted target directory is.
use cargo_cage.Base.{◌≡◌, List, ◌++◌, ok, list_eq}
use cargo_cage.Os.FilePath.{FilePath, component_eq}
use cargo_cage.Os.Fs.{Fs}
use cargo_cage.Cargo.Target.{found, look_at}

-- What exists is a front of the path, and the missing names are the rest of it.
abbrev IsSplit : Fs → FilePath → FilePath → FilePath → FilePath → Type 0
IsSplit fs whole missing existing names =
    (between : FilePath) × (whole ≡ existing ++ between)
    × (names ≡ between ++ missing)
    × (look_at fs existing ≡ found)

-- A path that the loop passes has an existing part, whose place the kernel names, and the same
-- names below that place.
abbrev pub IsPlaced : Fs → FilePath → FilePath → Type 0
IsPlaced fs path place =
    (existing : FilePath) × (names : FilePath) × (canonical : FilePath) × (path ≡ existing ++ names)
    × (look_at fs existing ≡ found)
    × (fs.canonicalize existing ≡ ok canonical)
    × (place ≡ canonical ++ names)
