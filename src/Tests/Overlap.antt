-- ===== src/Tests/Overlap.antt =====
-- Runs of the checks that keep paths apart.
use cargo_cage.Base.{◌≡◌, refl, ◌↔◌, true, [], ◌∷◌, ok, err, In}
use cargo_cage.Os.Text.{bytes}
use cargo_cage.Os.FilePath.{FilePath, path_of}
use cargo_cage.Core.Error.{policy_about, at_path}
use cargo_cage.Linux.Overlap.{
  MaskPath, directory_mask, paths_overlap, validate_writable_paths, validate_read_only_paths,
}
use cargo_cage.Linux.Overlap.Shared.{SharesPath, paths_overlap_iff}
use cargo_cage.Linux.Overlap.Laws.{
  IsWritableAllowed, IsReadOnlyAllowed, validate_writable_paths-ok, validate_read_only_paths-ok,
}

abbrev workspace : FilePath
workspace = path_of (bytes "/home/u/w")

abbrev target : FilePath
target = path_of (bytes "/home/u/w/target")

abbrev home : FilePath
home = path_of (bytes "/home/u")

abbrev ssh : MaskPath
ssh = directory_mask (path_of (bytes "/home/u/.ssh"))

-- A target below a read-only workspace below the private home.
accepted :
    (validate_writable_paths (target ∷ []) (ssh ∷ []) (home ∷ []) (workspace ∷ []) ≡ ok tt)
    × (validate_read_only_paths (workspace ∷ []) (home ∷ []) (ssh ∷ []) ≡ ok tt)
unfolding validate_writable_paths validate_read_only_paths path_of
accepted = (refl, refl)

-- The workspace itself is not writable.
refused :
    validate_writable_paths (workspace ∷ []) [] [] (workspace ∷ [])
    ≡ err (
        policy_about
          (at_path workspace)
          "the writable path would re-expose read-only path"
          workspace)
unfolding validate_writable_paths path_of
refused = refl

paths_overlap_example : (paths_overlap target home ≡ true) ↔ SharesPath target home
paths_overlap_example = paths_overlap_iff target home

validate_writable_paths_example :
    (validate_writable_paths (target ∷ []) (ssh ∷ []) (home ∷ []) (workspace ∷ []) ≡ ok tt) ↔ (
      (w : FilePath)
      → In w (target ∷ [])
      → IsWritableAllowed (ssh ∷ []) (home ∷ []) (workspace ∷ []) w)
validate_writable_paths_example =
    validate_writable_paths-ok (target ∷ []) (ssh ∷ []) (home ∷ []) (workspace ∷ [])

validate_read_only_paths_example :
    (validate_read_only_paths (workspace ∷ []) (home ∷ []) (ssh ∷ []) ≡ ok tt)
    ↔ ((v : FilePath) → In v (workspace ∷ []) → IsReadOnlyAllowed (home ∷ []) (ssh ∷ []) v)
validate_read_only_paths_example =
    validate_read_only_paths-ok (workspace ∷ []) (home ∷ []) (ssh ∷ [])
