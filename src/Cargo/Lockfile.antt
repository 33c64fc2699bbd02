-- ===== src/Cargo/Lockfile.antt =====
-- cage-cargo/src/paths.rs: the checks on Cargo.lock.
use cargo_cage.Base.{
  ◌≤◌, ◌≡◌, refl, ◌↔◌, inl, inr, Bool, true, false, not, ok, err, ◌>>=◌, ◌>>◌, reject_if, ltb,
  arith, Result-cases, is_ok_and, if◌then◌else◌,
}
use cargo_cage.Os.Text.{bytes}
use cargo_cage.Os.FilePath.{FilePath, join, path_of}
use cargo_cage.Os.Fs.{
  Fs, Metadata, regular, not_found, permission_denied, already_exists, other_kind, IoResult,
  is_symlink, is_file, is_not_found,
}
use cargo_cage.Core.Error.{CageResult, policy, io, at_path}

validate_lockfile : FilePath → Metadata → CageResult (Unit {0})
validate_lockfile path metadata = do
  reject_if (is_symlink metadata)
      (policy (at_path path) "the workspace Cargo.lock must not be a symlink")
  reject_if (not (is_file metadata))
      (policy (at_path path) "the workspace Cargo.lock must be a regular file")
  reject_if (ltb 1 metadata.nlink)
      (policy (at_path path) "the workspace Cargo.lock must not be a hardlink to another file")

-- `symlink_metadata` is the file system's answer for the lockfile.
inspect_answer : FilePath → IoResult Metadata → CageResult Bool
unfolding validate_lockfile
inspect_answer lockfile (ok metadata) = do validate_lockfile lockfile metadata; ok true
inspect_answer lockfile (err error) =
    if is_not_found error
    then ok false
    else err (io "could not inspect workspace lockfile" (at_path lockfile))

abbrev pub lockfile_of : FilePath → FilePath
lockfile_of workspace = join workspace (path_of (bytes "Cargo.lock"))

unfoldable pub inspect_lockfile : Fs → FilePath → CageResult Bool
unfolding inspect_answer
inspect_lockfile fs workspace =
    inspect_answer (lockfile_of workspace) (fs.symlink_metadata (lockfile_of workspace))

-- `create_new` answers, and leaves the file system `after`, where the lockfile is looked at again.
create_lockfile : Fs → IoResult (Unit {0}) → FilePath → CageResult (Unit {0})
unfolding inspect_lockfile
create_lockfile after (err error) workspace =
    err (io "could not create workspace lockfile" (at_path (lockfile_of workspace)))
create_lockfile after (ok done) workspace = do found ← inspect_lockfile after workspace; ok tt

unfoldable pub prepare_lockfile : Fs → Fs → IoResult (Unit {0}) → FilePath → CageResult FilePath
unfolding inspect_lockfile create_lockfile
prepare_lockfile fs after created workspace = do
  exists ← inspect_lockfile fs workspace
  if exists then ok tt else create_lockfile after created workspace
  ok (lockfile_of workspace)

-- A regular file that has one name at most.
abbrev pub IsPlainFile : Metadata → Type 0
IsPlainFile metadata = (metadata.file_type ≡ regular) × (metadata.nlink ≤ 1)

-- The answer for a lockfile that may be used: it is missing, or a plain file.
abbrev pub IsUsable : IoResult Metadata → Type 0
IsUsable (ok metadata) = IsPlainFile metadata
IsUsable (err error) = error ≡ not_found

validate_lockfile-ok :
    (path : FilePath) (metadata : Metadata)
    → (validate_lockfile path metadata ≡ ok tt) ↔ IsPlainFile metadata
unfolding validate_lockfile
validate_lockfile-ok path metadata =
    elim metadata.file_type
      as (λ t.
        (validate_lockfile path (record metadata { file_type = t }) ≡ ok tt)
        ↔ IsPlainFile (record metadata { file_type = t })) [
          | regular ↦ ground arith
          | _ ↦ (λ h. cc, λ (h, k). cc)
        ]

inspect_answer-ok :
    (lockfile : FilePath) (answer : IoResult Metadata) (found : Bool)
    → (inspect_answer lockfile answer ≡ ok found)
      ↔ (IsUsable answer × (found ≡ is_ok_and answer (λ m. true)))
unfolding inspect_answer
inspect_answer-ok lockfile (ok metadata) found =
    let plain = validate_lockfile-ok lockfile metadata in
    elim (Result-cases (validate_lockfile lockfile metadata)) [
      | inl (done, e) ↦ rw e (λ h. (plain.0 e, cc), λ (p, h). cc)
      | inr (error, e) ↦ rw e (λ h. cc, λ (p, h). let passes = plain.1 p in cc)
    ]
inspect_answer-ok lockfile (err not_found) found = (λ h. (refl, cc), λ (h, k). cc)
inspect_answer-ok lockfile (err permission_denied) found = (λ h. cc, λ (h, k). cc)
inspect_answer-ok lockfile (err already_exists) found = (λ h. cc, λ (h, k). cc)
inspect_answer-ok lockfile (err other_kind) found = (λ h. cc, λ (h, k). cc)

-- Inspecting tells whether there is a lockfile, and passes exactly when it is missing or plain.
pub inspect_lockfile-ok :
    (fs : Fs) (workspace : FilePath) (found : Bool)
    → (inspect_lockfile fs workspace ≡ ok found) ↔ (
        IsUsable (fs.symlink_metadata (lockfile_of workspace))
        × (found ≡ is_ok_and (fs.symlink_metadata (lockfile_of workspace)) (λ m. true)))
unfolding inspect_lockfile
inspect_lockfile-ok fs workspace found =
    inspect_answer-ok (lockfile_of workspace) (fs.symlink_metadata (lockfile_of workspace)) found
