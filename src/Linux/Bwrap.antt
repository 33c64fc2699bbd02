-- ===== src/Linux/Bwrap.antt =====
-- cage-linux/src/backend.rs: the search for Bubblewrap and the launcher (`LinuxSandbox::new`). The
-- variable CARGO_CAGE_BWRAP, the path of the program, and what Bubblewrap prints are parameters.
pub mod Laws
use cargo_cage.Base.{
  ℕ, zero, suc, ◌+◌, ◌-◌, ◌*◌, ◌/◌, ◌%◌, ◌^◌, Bool, true, false, not, ◌&&◌, ◌||◌, Option, none,
  some, List, [], ◌∷◌, ◌++◌, Result, ok, err, ◌>>=◌, ◌>>◌, map_err, ok_or, reject_if, is_ok_and,
  ltb, leb, nat_beq, ◌==◌, list_eq, nat_eq, list_beq, if◌then◌else◌,
}
use cargo_cage.Os.Text.{OsString, bytes}
use cargo_cage.Os.FilePath.{
  Component, normal, FilePath, path_of, join, parent, file_name, is_absolute, split_at,
}
use cargo_cage.Os.Fs.{Fs, Metadata, IoResult, is_file}
use cargo_cage.Core.Error.{
  CageResult, ProcessStatus, successfully_exited, policy, io, backend_unavailable, process_spawn,
  at_path,
}
use cargo_cage.Core.Paths.{canonical_existing_path_without_symlinks}
use cargo_cage.Linux.Tree.MountTable.{split_whitespace}

-- `mode & 0o111 != 0` and `mode & 0o4000 != 0`
unfoldable pub is_executable : Metadata → Bool
is_executable m =
    nat_beq (m.mode % 2) 1 || nat_beq (m.mode / 8 % 2) 1 || nat_beq (m.mode / 64 % 2) 1

unfoldable pub is_setuid : Metadata → Bool
is_setuid m = nat_beq (m.mode / 2048 % 2) 1

is_digit : ℕ → Bool
is_digit c = leb b'0' c && leb c b'9'

-- `parse::<u32>()` on digits, with what was read so far.
digits_value : ℕ → OsString → Option ℕ
unfolding is_digit
digits_value value [] = some value
digits_value value (c ∷ text) =
    let next = value * 10 + (c - b'0') in
    let rest = digits_value next text in if is_digit c && ltb next (2 ^ 32) then rest else none

-- A plus sign is allowed, an empty text is not.
parse_u32 : OsString → Option ℕ
unfolding digits_value
parse_u32 [] = none
parse_u32 (c ∷ []) = digits_value 0 (c ∷ [])
parse_u32 (c ∷ d ∷ text) =
    if nat_beq c b'+' then digits_value 0 (d ∷ text) else digits_value 0 (c ∷ d ∷ text)

-- `trim_start_matches(['v', 'V'])`
trim_v : OsString → OsString
trim_v [] = []
trim_v (c ∷ text) =
    let rest = trim_v text in if nat_beq c b'v' || nat_beq c b'V' then rest else c ∷ text

leading_digits : OsString → OsString
unfolding is_digit
leading_digits [] = []
leading_digits (c ∷ text) = let rest = leading_digits text in if is_digit c then c ∷ rest else []

abbrev pub Version : Type 0
Version = ℕ × ℕ × ℕ

patch_of : List OsString → ℕ
unfolding parse_u32 leading_digits
patch_of [] = 0
patch_of (part ∷ parts) = elim (parse_u32 (leading_digits part)) [ none ↦ 0 | some patch ↦ patch ]

version_of_parts : List OsString → Option Version
unfolding parse_u32 patch_of
version_of_parts (major ∷ minor ∷ parts) = elim (parse_u32 major) [
  | none ↦ none
  | some a ↦ elim (parse_u32 minor) [ none ↦ none | some b ↦ some (a, b, patch_of parts) ]
]
version_of_parts _ = none

first_version : List OsString → Option Version
unfolding version_of_parts trim_v split_at
first_version [] = none
first_version (token ∷ tokens) =
    let rest = first_version tokens in
    elim (version_of_parts (split_at b'.' [] (trim_v token))) [ none ↦ rest | some v ↦ some v ]

unfoldable pub parse_version : OsString → Option Version
unfolding first_version split_whitespace
parse_version output = first_version (split_whitespace output)

-- Versions are compared as tuples are.
unfoldable pub version_at_least : Version → Version → Bool
version_at_least (a, b, c) (x, y, z) =
    ltb x a || (nat_beq a x && (ltb y b || (nat_beq b y && leb z c)))

abbrev pub required_version : Version
required_version = (0, 12, 0)

-- What the host answers for the executables.
pub record Executables : Type 0 where
  pub fs : Fs
  pub requested : Option OsString
  pub current_exe : IoResult FilePath
  pub print_version : FilePath → IoResult (ProcessStatus × OsString)

module _ (host : Executables) where
  -- `path.is_file()`
  is_file_at : FilePath → Bool
  is_file_at path = is_ok_and (host.fs.metadata path) is_file

  unfoldable pub validate_bwrap_path : FilePath → CageResult FilePath
  unfolding is_file_at is_executable is_setuid
  validate_bwrap_path path = do
    canonical ←
        map_err (host.fs.canonicalize path)
          (λ _. io "could not resolve Bubblewrap executable" (at_path path))
    reject_if (not (is_file_at canonical))
        (backend_unavailable "Bubblewrap path is not a regular file")
    metadata ←
        map_err (host.fs.metadata canonical)
          (λ _. io "could not inspect Bubblewrap permissions" (at_path canonical))
    reject_if (not (is_executable metadata)) (backend_unavailable "Bubblewrap is not executable")
    reject_if (is_setuid metadata) (backend_unavailable "Bubblewrap is setuid")
    ok canonical

  find_candidate : List FilePath → CageResult FilePath
  unfolding is_file_at validate_bwrap_path
  find_candidate [] = err (backend_unavailable "Bubblewrap >= 0.12.0 was not found")
  find_candidate (candidate ∷ candidates) =
      let rest = find_candidate candidates in
      if is_file_at candidate then validate_bwrap_path candidate else rest

  unfoldable pub find_bwrap : CageResult FilePath
  unfolding find_candidate validate_bwrap_path path_of is_absolute
  find_bwrap = elim host.requested [
    | some text ↦
        if not (is_absolute (path_of text))
        then err (backend_unavailable "CARGO_CAGE_BWRAP must be an absolute path")
        else validate_bwrap_path (path_of text)
    | none ↦ find_candidate (path_of (bytes "/usr/bin/bwrap") ∷ path_of (bytes "/bin/bwrap") ∷ [])
  ]

  bwrap_version : FilePath → CageResult Version
  unfolding parse_version successfully_exited
  bwrap_version path = do
    output ← map_err (host.print_version path) (λ _. process_spawn path)
    reject_if (not (successfully_exited output.0)) (backend_unavailable "--version failed")
    ok_or (parse_version output.1) (backend_unavailable "could not parse Bubblewrap version")

  unfoldable pub validate_launcher_executable : FilePath → CageResult FilePath
  unfolding canonical_existing_path_without_symlinks is_executable
  validate_launcher_executable path = do
    canonical ← canonical_existing_path_without_symlinks host.fs path "Landlock launcher executable"
    metadata ←
        map_err (host.fs.metadata canonical)
          (λ _. io "could not inspect Landlock launcher executable" (at_path canonical))
    reject_if (not (is_file metadata))
        (policy (at_path canonical) "the Landlock launcher must be a regular file")
    reject_if (not (is_executable metadata))
        (policy (at_path canonical) "the Landlock launcher must be executable")
    ok canonical

  is_some_name : Option OsString → Bool
  unfolding list_beq
  is_some_name none = false
  is_some_name (some name) = name == bytes "cargo-cage"

  no_launcher : CageResult FilePath
  no_launcher = err (
      backend_unavailable
        "the current program is not cargo-cage and no launcher was found beside it")

  launcher_beside : Option FilePath → CageResult FilePath
  unfolding validate_launcher_executable no_launcher path_of join
  launcher_beside none = no_launcher
  launcher_beside (some directory) =
      let sibling = join directory (path_of (bytes "cargo-cage-landlock-launcher")) in
      if is_ok_and (host.fs.metadata sibling) (λ m. true)
      then validate_launcher_executable sibling
      else no_launcher

  unfoldable pub default_launcher : CageResult FilePath
  unfolding validate_launcher_executable launcher_beside is_some_name file_name parent
  default_launcher = do
    current ←
        map_err host.current_exe
          (λ _. io "could not determine the cargo-cage executable path" (at_path []))
    executable ← validate_launcher_executable current
    (if is_some_name (file_name executable)
        then ok executable
        else launcher_beside (parent executable))

  -- `LinuxSandbox::from_paths`, which gives the paths of Bubblewrap and of the launcher.
  unfoldable pub from_paths : FilePath → FilePath → CageResult (FilePath × FilePath)
  unfolding bwrap_version version_at_least
  from_paths bwrap launcher = do
    version ← bwrap_version bwrap
    reject_if (not (version_at_least version required_version))
        (backend_unavailable "Bubblewrap is too old")
    ok (bwrap, launcher)

  unfoldable pub new_sandbox : CageResult (FilePath × FilePath)
  unfolding find_bwrap default_launcher from_paths
  new_sandbox = do bwrap ← find_bwrap; launcher ← default_launcher; from_paths bwrap launcher

  unfoldable pub with_launcher : FilePath → CageResult (FilePath × FilePath)
  unfolding find_bwrap validate_launcher_executable from_paths
  with_launcher path = do
    bwrap ← find_bwrap
    launcher ← validate_launcher_executable path
    from_paths bwrap launcher
