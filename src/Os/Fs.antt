-- ===== src/Os/Fs.antt =====
-- The file system as the program sees it: the answers of the calls that only look. What the host's
-- kernel answers is a parameter of every model that asks.
use cargo_cage.Base.{ℕ, Result, Bool, true, false}
use cargo_cage.Os.FilePath.{FilePath}

pub data FileType : Type 0 where
  regular directory symlink char_device special : FileType

pub record Metadata : Type 0 where
  pub file_type : FileType
  pub nlink : ℕ
  pub dev : ℕ
  pub ino : ℕ
  pub mode : ℕ
  pub len : ℕ

-- `io::ErrorKind`, as far as the program tells the kinds apart.
pub data IoError : Type 0 where
  not_found permission_denied already_exists other_kind : IoError

abbrev pub IoResult : Type 0 → Type 0
IoResult A = Result A IoError

abbrev pub is_symlink : Metadata → Bool
is_symlink m = elim m.file_type [ symlink ↦ true | _ ↦ false ]

abbrev pub is_dir : Metadata → Bool
is_dir m = elim m.file_type [ directory ↦ true | _ ↦ false ]

abbrev pub is_file : Metadata → Bool
is_file m = elim m.file_type [ regular ↦ true | _ ↦ false ]

abbrev pub is_char_device : Metadata → Bool
is_char_device m = elim m.file_type [ char_device ↦ true | _ ↦ false ]

abbrev pub is_not_found : IoError → Bool
is_not_found e = elim e [ not_found ↦ true | _ ↦ false ]

abbrev pub is_already_exists : IoError → Bool
is_already_exists e = elim e [ already_exists ↦ true | _ ↦ false ]

pub record Fs : Type 0 where
  pub symlink_metadata : FilePath → IoResult Metadata
  pub metadata : FilePath → IoResult Metadata
  pub canonicalize : FilePath → IoResult FilePath
