-- ===== src/Cargo/Target.antt =====
-- cage-cargo/src/paths.rs: where Cargo may write, `validate_target_dir`.
pub mod Laws
use cargo_cage.Base.{
  ℕ, zero, suc, String, Bool, true, false, not, ◌&&◌, ◌||◌, Option, none, some, List, [], ◌∷◌, ◌++◌,
  Result, ok, err, ◌>>=◌, ◌>>◌, reject_if, map_err, ◌==◌, list_eq, list_beq, if◌then◌else◌, length,
}
use mathlib.Core.List.{reverse}
use cargo_cage.Os.Text.{OsString}
use cargo_cage.Os.FilePath.{
  Component, root_dir, cur_dir, parent_dir, normal, FilePath, root, component_eq, is_absolute,
  has_parent_dir, starts_with, push_component, parent, file_name,
}
use cargo_cage.Os.Fs.{Fs, Metadata, is_symlink, is_dir, is_not_found}
use cargo_cage.Core.Error.{CageError, CageResult, policy, sandbox_setup, at_path}
use cargo_cage.Core.Paths.{more}

abbrev pub target_setup_failure : FilePath → CageError
target_setup_failure path =
    sandbox_setup (at_path path)
      "target paths and their parents must remain real, present, and stable during setup"

-- The loop of `lexical_normalize`.
normalize_onto : FilePath → List Component → FilePath
normalize_onto normalized [] = normalized
normalize_onto normalized (root_dir ∷ path) = normalize_onto root path
normalize_onto normalized (cur_dir ∷ path) = normalize_onto normalized path
normalize_onto normalized (parent_dir ∷ path) =
    normalize_onto
      (elim (file_name normalized) [
        | none ↦ normalized
        | some name ↦ elim (parent normalized) [ none ↦ normalized | some front ↦ front ]
      ])
      path
normalize_onto normalized (normal part ∷ path) =
    normalize_onto (normalized ++ normal part ∷ []) path

unfoldable pub lexical_normalize : FilePath → FilePath
unfolding normalize_onto
lexical_normalize = normalize_onto []

-- What `symlink_metadata` answers for the existing part ends the loop of
-- `canonicalize_with_missing_components`, or lets it take one more name away.
pub data Look : Type 0 where
  found missing_here : Look
  refused : CageError → Look

pub look_at : Fs → FilePath → Look
look_at fs existing = elim (fs.symlink_metadata existing) [
  | ok metadata ↦
      if is_symlink metadata
      then refused (
          policy (at_path existing)
            "the target path must not contain unresolved symlink components")
      else found
  | err error ↦ if is_not_found error then missing_here else refused (target_setup_failure existing)
]

no_parent : FilePath → CageError
no_parent path = policy (at_path path) "the target path must have an existing parent"

-- One round: the loop breaks, goes on, or fails.
settle :
    Look → FilePath → FilePath → CageResult (FilePath × FilePath) → CageResult (FilePath × FilePath)
settle found existing missing next = ok (existing, missing)
settle missing_here existing missing next = next
settle (refused error) existing missing next = err error

-- The loop: the existing part, with its last component first, and the missing names below it.
find_existing : Fs → FilePath → List Component → FilePath → CageResult (FilePath × FilePath)
unfolding look_at no_parent settle
find_existing fs path [] missing = settle (look_at fs []) [] missing (err (no_parent path))
find_existing fs path (normal name ∷ front) missing =
    settle (look_at fs (reverse (normal name ∷ front))) (reverse (normal name ∷ front)) missing
      (find_existing fs path front (normal name ∷ missing))
find_existing fs path (c ∷ front) missing =
    settle (look_at fs (reverse (c ∷ front))) (reverse (c ∷ front)) missing (err (no_parent path))

canonicalize_with_missing_components : Fs → FilePath → CageResult FilePath
unfolding find_existing
canonicalize_with_missing_components fs path = do
  (existing, missing) ← find_existing fs path (reverse path) []
  canonical ← map_err (fs.canonicalize existing) (λ _. target_setup_failure existing)
  ok (canonical ++ missing)

-- A symlink on the way to the target: it must neither lie in the workspace nor lead there. The
-- answer says whether it leads to a directory.
resolve_link : Fs → FilePath → FilePath → CageResult Bool
resolve_link fs workspace current = do
  let above : FilePath = elim (parent current) [ none ↦ root | some front ↦ front ]
  directory ← map_err (fs.canonicalize above) (λ _. target_setup_failure above)
  resolved ← map_err (fs.canonicalize current) (λ _.
      policy (at_path current)
        "the writable target path must not contain unresolved symlink components")
  reject_if
      (directory == workspace
        || starts_with directory workspace
        || resolved == workspace
        || starts_with resolved workspace)
      (policy (at_path current) "the writable target path must not contain symlink components")
  metadata ← map_err (fs.metadata current) (λ _. target_setup_failure current)
  ok (is_dir metadata)

-- The loop of `validate_target_symlink_components`, which ends at the first missing component.
walk_target : Fs → FilePath → FilePath → List Component → CageResult (Unit {0})
unfolding resolve_link
walk_target fs workspace current [] = ok tt
walk_target fs workspace current (c ∷ cs) =
    let here = push_component current c in
    let rest = walk_target fs workspace here cs in
    elim (fs.symlink_metadata here) [
      | err error ↦ if is_not_found error then ok tt else err (target_setup_failure here)
      | ok metadata ↦ do
        is_directory ←
            if is_symlink metadata then resolve_link fs workspace here else ok (is_dir metadata)
        reject_if (more cs && not is_directory)
            (policy (at_path here) "every target path component must be a directory")
        rest
    ]

unfoldable pub validate_target_dir : Fs → FilePath → FilePath → CageResult FilePath
unfolding lexical_normalize canonicalize_with_missing_components walk_target
validate_target_dir fs path workspace = do
  reject_if (not (is_absolute path))
      (policy (at_path path) "the target directory must be absolute after resolution")
  canonical_workspace ← map_err (fs.canonicalize workspace) (λ _. target_setup_failure workspace)
  reject_if (has_parent_dir path)
      (policy (at_path path) "the target directory must not contain parent-directory traversal")
  let normalized = lexical_normalize path
  containment_path ← canonicalize_with_missing_components fs normalized
  reject_if
      (containment_path == canonical_workspace
        || not (starts_with containment_path canonical_workspace))
      (policy (at_path containment_path)
        "the target directory must be inside the canonical workspace; paths outside the workspace are forbidden")
  walk_target fs canonical_workspace [] path
  walk_target fs canonical_workspace [] normalized
  ok containment_path
