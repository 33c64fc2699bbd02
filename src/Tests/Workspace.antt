-- ===== src/Tests/Workspace.antt =====
-- Runs of the search for the workspace.
use cargo_cage.Base.{
  ◌≡◌, refl, true, none, some, [], ◌∷◌, ok, err, ◌==◌, list_eq, list_beq, nat_eq, if◌then◌else◌,
}
use cargo_cage.Os.Text.{bytes}
use cargo_cage.Os.Text.White.{trim}
use cargo_cage.Os.Text.Lossy.{from_utf8_lossy}
use cargo_cage.Os.FilePath.{
  FilePath, absolute, path_of, component_eq, component_beq, is_absolute, has_parent_dir,
  push_component, starts_with, join,
}
use cargo_cage.Os.Fs.{Fs, Metadata, FileType, regular, directory, not_found}
use cargo_cage.Core.Error.{CageResult, policy, at_path}
use cargo_cage.Core.Request.{SandboxRequest, SandboxOutcome}
use cargo_cage.Cargo.Driver.{HostVariables}
use cargo_cage.Cargo.HostEnvironment.{Toolchain}
use cargo_cage.Cargo.Workspace.{
  sandbox_current_dir, discovery_writable_paths, workspace_from_output,
}
use cargo_cage.Cargo.Workspace.Laws.{sandbox_current_dir-within}

-- Space and the no-break space are cut off; a byte that starts nothing is replaced, and so is a
-- character that another one interrupts.
texts :
    (trim (0x20 ∷ 0xC2 ∷ 0xA0 ∷ b'a' ∷ 0x20 ∷ b'b' ∷ 0x0A ∷ []) ≡ bytes "a b")
    × (from_utf8_lossy (b'a' ∷ 0xFF ∷ 0xE2 ∷ 0x82 ∷ b'b' ∷ [])
        ≡ b'a' ∷ 0xEF ∷ 0xBF ∷ 0xBD ∷ 0xEF ∷ 0xBF ∷ 0xBD ∷ b'b' ∷ [])
unfolding trim from_utf8_lossy
texts = (refl, refl)

meta : FileType → Metadata
meta t = record { file_type = t; nlink = 1; dev = 0; ino = 0; mode = 0; len = 0 }

abbrev workspace : FilePath
workspace = absolute (bytes "w" ∷ [])

abbrev member : FilePath
member = absolute (bytes "w" ∷ bytes "m" ∷ [])

-- A disk with the directories /w, /w/m and /w/target, and the file /w/Cargo.toml.
disk : Fs
unfolding meta list_beq component_beq
disk =
    let look = λ (p : FilePath).
      if p == absolute (bytes "w" ∷ bytes "Cargo.toml" ∷ [])
      then ok (meta regular)
      else if p == absolute []
      then ok (meta directory)
      else if p == workspace
      then ok (meta directory)
      else if p == member
      then ok (meta directory)
      else if p == absolute (bytes "w" ∷ bytes "target" ∷ [])
      then ok (meta directory)
      else err not_found in
    record { symlink_metadata = look; metadata = look; canonicalize = λ p. ok p }

discovered :
    discovery_writable_paths disk none [] workspace
    ≡ ok (absolute (bytes "w" ∷ bytes "target" ∷ []) ∷ [])
unfolding discovery_writable_paths disk path_of join is_absolute starts_with list_beq component_beq
discovered = refl

abbrev host : HostVariables
host = record { home = some (bytes "/home/u"); cargo_home = none; vars = [] }

abbrev toolchain : Toolchain
toolchain = record {
  cargo = absolute (bytes "cargo" ∷ []);
  rustc = absolute (bytes "rustc" ∷ []);
  rustdoc = none;
  sysroot = absolute (bytes "rust" ∷ []);
  home = absolute (bytes "h" ∷ []);
  path = bytes "/bin";
  read_only_paths = [];
}

-- A backend whose Cargo prints the manifest of the workspace.
backend : SandboxRequest → CageResult SandboxOutcome
backend request =
    ok (record { status = record { code = some 0 }; stdout = bytes "/w/Cargo.toml\n"; stderr = [] })

sandbox_current_dir_example : starts_with member workspace ≡ true
unfolding sandbox_current_dir disk starts_with list_beq component_beq
sandbox_current_dir_example = sandbox_current_dir-within disk [] member workspace member refl

abbrev elsewhere : FilePath
elsewhere = absolute (bytes "x" ∷ [])

-- A workspace that does not hold the current directory is refused.
refused :
    workspace_from_output disk (bytes "/w/Cargo.toml\n") elsewhere []
    ≡ err (
        policy
          (at_path workspace)
          "workspace discovery returned a root that does not contain the current directory")
unfolding workspace_from_output disk path_of join is_absolute has_parent_dir push_component
    starts_with list_beq component_beq
refused = refl
