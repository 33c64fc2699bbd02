-- ===== src/Linux/Bwrap/Laws.antt =====
-- Which executables the backend uses.
use cargo_cage.Base.{◌≤◌, ◌≡◌, ◌⊎◌, true, false, some, ok}
use cargo_cage.Os.Text.{OsString}
use cargo_cage.Os.FilePath.{FilePath}
use cargo_cage.Os.Fs.{Metadata, is_file}
use cargo_cage.Linux.Bwrap.{is_executable, is_setuid, Version, parse_version, Executables}

-- Version 0.12 or later.
pub IsRecent : Version → Type 0
IsRecent (a, b, c) = (1 ≤ a) ⊎ (12 ≤ b)

module _ (host : Executables) where
  -- A regular file that may be run and is not setuid.
  pub record IsPlainExecutable (path : FilePath) : Type 0 where
    pub metadata : Metadata
    pub found : host.fs.metadata path ≡ ok metadata
    pub regular : is_file metadata ≡ true
    pub executable : is_executable metadata ≡ true
    pub not_setuid : is_setuid metadata ≡ false

  pub record IsUsable (bwrap : FilePath) : Type 0 where
    pub file : IsPlainExecutable bwrap
    pub printed : OsString
    pub version : Version
    pub asked : host.print_version bwrap ≡ ok (record { code = some 0 }, printed)
    pub parsed : parse_version printed ≡ some version
    pub recent : IsRecent version
