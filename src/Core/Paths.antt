-- ===== src/Core/Paths.antt =====
-- cage-core/src/paths.rs
pub mod Laws
use Prim.Native.String.{◌++◌ as ◌<>◌}
use cargo_cage.Base.{
  String, Bool, true, false, not, ◌&&◌, List, [], ◌∷◌, Result, ok, err, ◌>>=◌, ◌>>◌, reject_if,
  map_err,
}
use cargo_cage.Os.FilePath.{Component, FilePath, is_absolute, has_parent_dir, push_component}
use cargo_cage.Os.Fs.{Fs, is_symlink, is_dir}
use cargo_cage.Core.Error.{CageResult, CageError, policy, sandbox_setup, at_path}

-- `components.peek().is_some()`
abbrev pub more : List Component → Bool
more [] = false
more (c ∷ cs) = true

module _ (fs : Fs) (path : FilePath) (label : String) where
  -- The loop over the components. No `..` reaches it, which the source marks as unreachable.
  unfoldable pub walk_components : FilePath → List Component → CageResult (Unit {0})
  walk_components current [] = ok tt
  walk_components current (c ∷ cs) = do
    let here = push_component current c
    metadata ← map_err (fs.symlink_metadata here) (λ _.
        sandbox_setup (at_path here)
          ("the " <> label <> " path must remain present and symlink-free during validation"))
    reject_if (is_symlink metadata)
        (policy (at_path path) ("the " <> label <> " must not contain symlink components"))
    reject_if (more cs && not (is_dir metadata))
        (policy (at_path here) (label <> " parent components must be directories"))
    walk_components here cs

  unfoldable pub canonical_existing_path_without_symlinks : CageResult FilePath
  unfolding walk_components
  canonical_existing_path_without_symlinks = do
    reject_if (not (is_absolute path))
        (policy (at_path path) ("the " <> label <> " must be an absolute path"))
    reject_if (has_parent_dir path)
        (policy (at_path path) ("the " <> label <> " must not contain parent-directory traversal"))
    walk_components [] path
    map_err (fs.canonicalize path) (λ _.
        sandbox_setup (at_path path)
          ("the " <> label <> " path must remain canonical and symlink-free during validation"))
