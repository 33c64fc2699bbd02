-- ===== src/Tests/Cargo.antt =====
-- Runs of the command line and of the checks on the target directory.
use cargo_cage.Base.{
  inl, ◌≡◌, refl, ◌↔◌, ◌||◌, true, false, none, some, List, [], ◌∷◌, ok, err, is_ok_and, All, ◌==◌,
  list_eq, list_beq, nat_eq, if◌then◌else◌,
}
use cargo_cage.Os.Text.{OsString, bytes, to_str, is_utf8, strip_prefix}
use cargo_cage.Os.FilePath.{
  FilePath, absolute, component_eq, component_beq, starts_with, is_absolute, has_parent_dir,
  push_component, join, path_of,
}
use cargo_cage.Os.Fs.{Fs, Metadata, FileType, regular, directory, not_found}
use cargo_cage.Core.Error.{invalid_invocation, policy, at_path}
use cargo_cage.Cargo.Args.{build, test, help, cargo, doctor, parse_invocation}
use cargo_cage.Cargo.Args.Language.{cargo_line, parse_invocation-cargo_iff}
use cargo_cage.Cargo.Options.{inline_value, manifest_path_arg, target_dir_arg}
use cargo_cage.Cargo.Options.Rewrite.{rewrite_from, rewrite_relative_cargo_paths}
use cargo_cage.Cargo.Options.Rewrite.Laws.{
  Argument, other, target_value, target_inline, manifest_value, spell_all, IsArgument, redirect_all,
  rewrite_from-redirect_all,
}
use cargo_cage.Cargo.Target.{validate_target_dir}
use cargo_cage.Cargo.Lockfile.{inspect_lockfile, lockfile_of, IsUsable, inspect_lockfile-ok}

command_lines :
    (parse_invocation (bytes "doctor" ∷ bytes "-v" ∷ []) ≡ ok (doctor true))
    × (parse_invocation (bytes "--help" ∷ []) ≡ ok help)
    × (parse_invocation (bytes "build" ∷ bytes "--reuse-target" ∷ [])
        ≡ ok (cargo build (bytes "--reuse-target" ∷ []) false))
    × (parse_invocation (bytes "--reuse-target" ∷ [])
        ≡ err (invalid_invocation "`--reuse-target` needs a Cargo command"))
unfolding parse_invocation
command_lines = (refl, refl, refl, refl)

abbrev test_line : List OsString
test_line = bytes "--reuse-target" ∷ bytes "test" ∷ bytes "--lib" ∷ []

parse_invocation_example :
    (parse_invocation test_line ≡ ok (cargo test (bytes "--lib" ∷ []) true))
    ↔ (test_line ≡ cargo_line test (bytes "--lib" ∷ []) true)
parse_invocation_example = parse_invocation-cargo_iff test_line test (bytes "--lib" ∷ []) true

meta : FileType → Metadata
meta t = record { file_type = t; nlink = 1; dev = 0; ino = 0; mode = 0; len = 0 }

abbrev workspace : FilePath
workspace = absolute (bytes "w" ∷ [])

abbrev target : FilePath
target = absolute (bytes "w" ∷ bytes "target" ∷ [])

-- A disk with the workspace /w, which holds a lockfile.
disk : Fs
unfolding meta list_beq component_beq
disk =
    let look = λ (p : FilePath).
      if p == absolute [] || p == workspace
      then ok (meta directory)
      else if p == absolute (bytes "w" ∷ bytes "Cargo.lock" ∷ [])
      then ok (meta regular)
      else err not_found in
    record { symlink_metadata = look; metadata = look; canonicalize = λ p. ok p }

last_options :
    (manifest_path_arg (
        bytes "--manifest-path"
        ∷ bytes "a"
        ∷ bytes "--manifest-path=b"
        ∷ bytes "--"
        ∷ bytes "--manifest-path=c"
        ∷ [])
      ≡ ok (some (bytes "b")))
    × (target_dir_arg none (bytes "--target-dir" ∷ bytes "t" ∷ []) workspace workspace
        ≡ ok (absolute (bytes "w" ∷ bytes "t" ∷ [])))
    × (target_dir_arg none [] workspace workspace ≡ ok target)
unfolding manifest_path_arg target_dir_arg path_of join is_absolute
last_options = (refl, refl, refl)

rewritten :
    rewrite_relative_cargo_paths disk
      (bytes "--target-dir=t" ∷ bytes "--lib" ∷ bytes "--" ∷ bytes "--target-dir=t" ∷ [])
      workspace
      workspace
      (bytes "/w/run")
      true
    ≡ ok (bytes "--target-dir=/w/run" ∷ bytes "--lib" ∷ bytes "--" ∷ bytes "--target-dir=t" ∷ [])
unfolding rewrite_relative_cargo_paths disk path_of component_beq
rewritten = refl

outside :
    validate_target_dir disk workspace workspace
    ≡ err (
        policy
          (at_path workspace)
          "the target directory must be inside the canonical workspace; paths outside the workspace are forbidden")
unfolding validate_target_dir disk is_absolute has_parent_dir starts_with push_component
outside = refl

inspect_lockfile_example : (inspect_lockfile disk workspace ≡ ok true) ↔ (
    IsUsable (disk.symlink_metadata (lockfile_of workspace))
    × (true ≡ is_ok_and (disk.symlink_metadata (lockfile_of workspace)) (λ m. true)))
inspect_lockfile_example = inspect_lockfile-ok disk workspace true

abbrev arguments : List Argument
arguments =
    other (bytes "--lib")
    ∷ target_inline (bytes "t")
    ∷ manifest_value (bytes "m/Cargo.toml")
    ∷ target_value (bytes "/x")
    ∷ []

abbrev member_manifest : FilePath
member_manifest = path_of (bytes "/w/m/Cargo.toml")

arguments_valid : All (IsArgument (ok (some member_manifest)) member_manifest) arguments
unfolding IsArgument inline_value to_str is_utf8 strip_prefix list_beq
arguments_valid = ((refl, refl, refl, refl, inl refl), (refl, (refl, (tt, tt))))

rewrite_from_example :
    rewrite_from
      (ok (some member_manifest))
      (bytes "/w/run")
      true
      true
      (spell_all arguments (some (bytes "--target-dir" ∷ bytes "y" ∷ [])))
    ≡ ok (
        spell_all
          (redirect_all member_manifest (bytes "/w/run") true arguments)
          (some (bytes "--target-dir" ∷ bytes "y" ∷ [])))
rewrite_from_example =
    rewrite_from-redirect_all (ok (some member_manifest)) (bytes "/w/run") true member_manifest
      arguments (some (bytes "--target-dir" ∷ bytes "y" ∷ [])) arguments_valid
