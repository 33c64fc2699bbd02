-- ===== src/Cargo/Options/Rewrite.antt =====
-- cage-cargo/src/workspace.rs: `rewrite_relative_cargo_paths`.
pub mod Laws
use cargo_cage.Base.{
  Bool, not, ◌&&◌, ◌||◌, Option, none, some, List, [], ◌∷◌, ◌++◌, ok, ◌>>=◌, ok_or, ◌==◌, list_eq,
  list_beq, nat_eq, if◌then◌else◌,
}
use cargo_cage.Os.Text.{OsString, bytes}
use cargo_cage.Os.FilePath.{FilePath, path_of, into_os_string, is_absolute, component_eq}
use cargo_cage.Os.Fs.{Fs}
use cargo_cage.Core.Error.{CageResult, invalid_invocation}
use cargo_cage.Cargo.Options.{inline_value, resolved_manifest_path}

-- `manifest` is what `resolved_manifest_path` answers on the arguments before the loop, and `target`
-- the text of the target directory.
module _ (manifest : CageResult (Option FilePath)) (target : OsString) (moved forced : Bool) where
  manifest_text : CageResult OsString
  unfolding into_os_string
  manifest_text = do
    found ← manifest
    path ← ok_or found (invalid_invocation "--manifest-path needs a value")
    ok (into_os_string path)

  rewrite_manifest : OsString → CageResult OsString
  unfolding manifest_text
  rewrite_manifest value =
      if not (is_absolute (path_of value)) && moved then manifest_text else ok value

  rewrite_target : OsString → OsString
  rewrite_target value = if forced || not (is_absolute (path_of value)) then target else value

  -- An argument that is no option by itself.
  rewrite_inline : OsString → CageResult OsString
  unfolding inline_value rewrite_manifest rewrite_target
  rewrite_inline arg = elim (inline_value (bytes "--manifest-path=") arg) [
    | some value ↦ do text ← rewrite_manifest value; ok (bytes "--manifest-path=" ++ text)
    | none ↦ elim (inline_value (bytes "--target-dir=") arg) [
      | some [] ↦ ok arg
      | some (c ∷ value) ↦ ok (bytes "--target-dir=" ++ rewrite_target (c ∷ value))
      | none ↦ ok arg
    ]
  ]

  -- The loop over the arguments.
  pub rewrite_from : List OsString → CageResult (List OsString)
  unfolding rewrite_inline list_beq
  rewrite_from [] = ok []
  rewrite_from (arg ∷ []) =
      if arg == bytes "--" || arg == bytes "--manifest-path" || arg == bytes "--target-dir"
      then ok (arg ∷ [])
      else (do here ← rewrite_inline arg; ok (here ∷ []))
  rewrite_from (arg ∷ value ∷ args) =
      let after_value = rewrite_from args in
      let after_arg = rewrite_from (value ∷ args) in
      if arg == bytes "--"
      then ok (arg ∷ value ∷ args)
      else if arg == bytes "--manifest-path"
      then (do text ← rewrite_manifest value; rest ← after_value; ok (arg ∷ text ∷ rest))
      else if arg == bytes "--target-dir"
      then (do rest ← after_value; ok (arg ∷ rewrite_target value ∷ rest))
      else (do here ← rewrite_inline arg; rest ← after_arg; ok (here ∷ rest))

unfoldable pub rewrite_relative_cargo_paths :
    Fs → List OsString → FilePath → FilePath → OsString → Bool → CageResult (List OsString)
unfolding rewrite_from resolved_manifest_path
rewrite_relative_cargo_paths fs args current_dir sandbox_current_dir target_dir
      force_target_rewrite =
    rewrite_from (resolved_manifest_path fs args current_dir) target_dir
      (not (current_dir == sandbox_current_dir)) force_target_rewrite args
