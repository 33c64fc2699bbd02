-- ===== src/Cargo/Options.antt =====
-- cage-cargo/src/paths.rs and workspace.rs: the options of Cargo that name paths.
pub mod Rewrite
use cargo_cage.Base.{
  ◌≡◌, String, Bool, true, false, not, ◌&&◌, ◌||◌, Option, none, some, List, [], ◌∷◌, Result, ok,
  err, ◌>>=◌, ◌==◌, list_eq, list_beq, nat_eq, if◌then◌else◌,
}
use cargo_cage.Os.Text.{OsString, bytes, to_str, strip_prefix}
use cargo_cage.Os.FilePath.{FilePath, path_of, is_absolute, join}
use cargo_cage.Os.Fs.{Fs}
use cargo_cage.Core.Error.{CageResult, CageError, invalid_invocation}
use cargo_cage.Core.Paths.{canonical_existing_path_without_symlinks}

-- `arg.to_str().and_then(|arg| arg.strip_prefix(prefix))`
unfoldable pub inline_value : OsString → OsString → Option OsString
unfolding to_str strip_prefix
inline_value prefix arg = elim (to_str arg) [ none ↦ none | some text ↦ strip_prefix text prefix ]

-- `result = Some(value)` if the argument holds a value behind the prefix.
or_inline : OsString → OsString → Option OsString → Option OsString
unfolding inline_value
or_inline prefix arg result = elim (inline_value prefix arg) [ none ↦ result | some v ↦ some v ]

-- The loop of `manifest_path_arg` and of `target_dir_arg`: the last value wins, and nothing counts
-- behind `--`.
last_value :
    OsString → OsString → CageError → Option OsString → List OsString → CageResult (Option OsString)
unfolding or_inline list_beq
last_value name prefix missing result [] = ok result
last_value name prefix missing result (arg ∷ []) =
    if arg == bytes "--"
    then ok result
    else if arg == name
    then err missing
    else ok (or_inline prefix arg result)
last_value name prefix missing result (arg ∷ value ∷ args) =
    let skip_two = last_value name prefix missing (some value) args in
    let skip_one = last_value name prefix missing (or_inline prefix arg result) (value ∷ args) in
    if arg == bytes "--" then ok result else if arg == name then skip_two else skip_one

unfoldable pub manifest_path_arg : List OsString → CageResult (Option OsString)
unfolding last_value
manifest_path_arg =
    last_value (bytes "--manifest-path") (bytes "--manifest-path=")
      (invalid_invocation "--manifest-path needs a value") none

-- The environment holds the variable CARGO_TARGET_DIR, or not.
unfoldable pub target_dir_arg :
    Option OsString → List OsString → FilePath → FilePath → CageResult FilePath
unfolding last_value
target_dir_arg cargo_target_dir args current_dir workspace = do
  cli_target ←
      last_value (bytes "--target-dir") (bytes "--target-dir=")
        (invalid_invocation "--target-dir needs a value") none args
  let target : FilePath = elim cli_target [
    | some text ↦ path_of text
    | none ↦ elim cargo_target_dir [
      | some text ↦ path_of text
      | none ↦ join workspace (path_of (bytes "target"))
    ]
  ]
  ok (if is_absolute target then target else join current_dir target)

unfoldable pub resolved_manifest_path : Fs → List OsString → FilePath → CageResult (Option FilePath)
unfolding manifest_path_arg canonical_existing_path_without_symlinks
resolved_manifest_path fs args current_dir = do
  value ← manifest_path_arg args
  elim value [
    | none ↦ ok none
    | some text ↦ do
      let manifest = path_of text
      path ←
          canonical_existing_path_without_symlinks fs
            (if is_absolute manifest then manifest else join current_dir manifest) "manifest path"
      ok (some path)
  ]
