-- ===== src/Tests/Core.antt =====
-- Runs of the shared policy and path checks.
use cargo_cage.Base.{
  List, ◌≡◌, refl, ◌↔◌, true, false, some, [], ◌∷◌, ok, err, ◌||◌, ◌==◌, list_eq, list_beq, nat_eq,
  if◌then◌else◌,
}
use cargo_cage.Os.Text.{OsString, bytes, to_ascii_uppercase}
use cargo_cage.Os.FilePath.{
  FilePath, absolute, root, path_of, is_absolute, has_parent_dir, push_component, component_eq,
  component_beq, parent, file_name, join,
}
use cargo_cage.Os.Fs.{Fs, Metadata, FileType, regular, directory, symlink, not_found}
use cargo_cage.Core.Error.{policy, at_path}
use cargo_cage.Core.Environment.Names.{
  is_sensitive_environment_name, is_allowed_sandbox_environment_name,
}
use cargo_cage.Core.Environment.Names.Laws.{
  is_sensitive_environment_name-upper, allowed-insensitive,
}
use cargo_cage.Core.Paths.{canonical_existing_path_without_symlinks}
use cargo_cage.Core.Paths.Laws.{
  IsRealRoot, IsRealBelow, canonical_existing_path_without_symlinks-ok,
}

paths :
    (path_of (bytes "/a//b/./c/") ≡ absolute (bytes "a" ∷ bytes "b" ∷ bytes "c" ∷ []))
    × (parent (path_of (bytes "/a/b")) ≡ some (path_of (bytes "/a")))
    × (file_name (path_of (bytes "/a/b")) ≡ some (bytes "b"))
    × (join (path_of (bytes "/a")) (path_of (bytes "./b")) ≡ path_of (bytes "/a/b"))
    × (join (path_of (bytes "/a")) (path_of (bytes "/b")) ≡ path_of (bytes "/b"))
unfolding path_of parent file_name join
paths = (refl, refl, refl, refl, refl)

meta : FileType → Metadata
meta t = record { file_type = t; nlink = 1; dev = 0; ino = 0; mode = 0; len = 0 }

-- A disk with /w/f, a file in a directory, and /l, a symlink.
disk : Fs
unfolding meta list_beq component_beq
disk =
    let look = λ (p : FilePath).
      if p == absolute [] || p == absolute (bytes "w" ∷ [])
      then ok (meta directory)
      else if p == absolute (bytes "w" ∷ bytes "f" ∷ [])
      then ok (meta regular)
      else if p == absolute (bytes "l" ∷ [])
      then ok (meta symlink)
      else err not_found in
    record { symlink_metadata = look; metadata = look; canonicalize = λ p. ok p }

real_file :
    canonical_existing_path_without_symlinks disk (path_of (bytes "/w/f")) "file"
    ≡ ok (path_of (bytes "/w/f"))
unfolding disk canonical_existing_path_without_symlinks path_of is_absolute has_parent_dir
    push_component
real_file = refl

linked_path :
    canonical_existing_path_without_symlinks disk (path_of (bytes "/l/f")) "file"
    ≡ err (policy (at_path (path_of (bytes "/l/f"))) "the file must not contain symlink components")
unfolding disk canonical_existing_path_without_symlinks path_of is_absolute has_parent_dir
    push_component
linked_path = refl

canonical_existing_path_without_symlinks_example :
    (canonical_existing_path_without_symlinks disk (absolute (bytes "w" ∷ bytes "f" ∷ [])) "file"
      ≡ ok (absolute (bytes "w" ∷ bytes "f" ∷ [])))
    ↔ ((names : List OsString) × (absolute (bytes "w" ∷ bytes "f" ∷ []) ≡ absolute names)
        × IsRealRoot disk names
        × IsRealBelow disk root names
        × (disk.canonicalize (absolute (bytes "w" ∷ bytes "f" ∷ []))
            ≡ ok (absolute (bytes "w" ∷ bytes "f" ∷ []))))
canonical_existing_path_without_symlinks_example =
    canonical_existing_path_without_symlinks-ok disk (absolute (bytes "w" ∷ bytes "f" ∷ [])) "file"
      (absolute (bytes "w" ∷ bytes "f" ∷ [])) (tt, (tt, tt))

mixed_case : is_sensitive_environment_name (bytes "Service_Token") ≡ true
unfolding is_sensitive_environment_name
mixed_case = refl

is_sensitive_environment_name-upper_example :
    is_sensitive_environment_name (to_ascii_uppercase (bytes "my_Api_Key"))
    ≡ is_sensitive_environment_name (bytes "my_Api_Key")
is_sensitive_environment_name-upper_example =
    is_sensitive_environment_name-upper (bytes "my_Api_Key")

home_allowed : is_allowed_sandbox_environment_name (bytes "CARGO_HOME") ≡ true
unfolding is_allowed_sandbox_environment_name
home_allowed = refl

allowed-insensitive_example : is_sensitive_environment_name (bytes "CARGO_HOME") ≡ false
allowed-insensitive_example = allowed-insensitive (bytes "CARGO_HOME") home_allowed
