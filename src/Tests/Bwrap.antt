-- ===== src/Tests/Bwrap.antt =====
-- Runs of the search for Bubblewrap.
use cargo_cage.Base.{ℕ, ◌≡◌, refl, none, some, ◌∷◌, ok, list_beq}
use cargo_cage.Os.Text.{bytes}
use cargo_cage.Os.FilePath.{FilePath, path_of, split_at}
use cargo_cage.Os.Fs.{Metadata, FileType, regular, directory}
use cargo_cage.Linux.Tree.MountTable.{split_whitespace}
use cargo_cage.Linux.Bwrap.{Executables, parse_version}

versions :
    (parse_version (bytes "bubblewrap 0.12.0\n") ≡ some (0, 12, 0))
    × (parse_version (bytes "bubblewrap v1.2.3-rc1") ≡ some (1, 2, 3))
    × (parse_version (bytes "bubblewrap") ≡ none)
unfolding parse_version split_whitespace split_at list_beq
versions = (refl, refl, refl)

kind_of : FilePath → FileType
kind_of (a ∷ b ∷ c ∷ d ∷ path) = regular
kind_of _ = directory

-- Every path with three names is an executable file, with the given mode.
host_with : ℕ → Executables
unfolding kind_of
host_with mode =
    let metadata : FilePath → Metadata =
      λ p. record { file_type = kind_of p; nlink = 1; dev = 1; ino = 1; mode = mode; len = 1 } in
    record {
      fs = record {
        symlink_metadata = λ p. ok (metadata p);
        metadata = λ p. ok (metadata p);
        canonicalize = λ p. ok p;
      };
      requested = none;
      current_exe = ok (path_of (bytes "/usr/bin/cargo-cage"));
      print_version = λ p. ok (record { code = some 0 }, bytes "bubblewrap 0.12.1\n");
    }
