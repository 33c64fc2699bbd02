-- ===== src/Tests/Tree.antt =====
-- Runs of the checks on trees.
use cargo_cage.Base.{
  ℕ, ◌<◌, ◌≡◌, refl, ◌↔◌, Bool, true, List, [], ◌∷◌, ok, err, some, none, In, All, arith, nat_beq,
  ◌++◌, sort_by_key,
}
use cargo_cage.Os.Text.{OsString, bytes, is_utf8}
use cargo_cage.Os.FilePath.{FilePath, path_of, starts_with, component_beq}
use cargo_cage.Os.Fs.{Metadata, regular}
use cargo_cage.Core.Error.{policy, at_path}
use cargo_cage.Linux.Tree.Roots.{unique_mount_roots, unique_mount_roots_lem}
use cargo_cage.Linux.Tree.Hardlinks.{
  validate_hardlink_aliases, names_of, validate_hardlink_aliases-ok,
}
use cargo_cage.Linux.Tree.MountTable.{
  nonempty_lines, split_whitespace, decode_mountinfo_path, validate_no_nested_mounts,
}
use cargo_cage.Linux.Tree.MountTable.Escape.{escape, decode_mountinfo_path-escape}

abbrev usr : FilePath
usr = path_of (bytes "/usr")

abbrev usr_lib : FilePath
usr_lib = path_of (bytes "/usr/lib")

abbrev opt_rust : FilePath
opt_rust = path_of (bytes "/opt/rust")

roots : unique_mount_roots (usr_lib ∷ opt_rust ∷ usr ∷ usr_lib ∷ []) ≡ usr ∷ opt_rust ∷ []
unfolding unique_mount_roots path_of starts_with sort_by_key component_beq
roots = refl

unique_mount_roots_example : In usr (unique_mount_roots (usr_lib ∷ opt_rust ∷ usr ∷ [])) ↔ (
    In usr (usr_lib ∷ opt_rust ∷ usr ∷ [])
    × ((q : FilePath) → In q (usr_lib ∷ opt_rust ∷ usr ∷ []) → starts_with usr q ≡ true → q ≡ usr))
unique_mount_roots_example = unique_mount_roots_lem (usr_lib ∷ opt_rust ∷ usr ∷ []) usr

abbrev file_with : ℕ → ℕ → Metadata
file_with links number = record {
  file_type = regular;
  nlink = links;
  dev = 8;
  ino = number;
  mode = 0;
  len = 0;
}

abbrev linked_files : List (FilePath × Metadata)
linked_files = (usr, file_with 2 7) ∷ (usr_lib, file_with 2 7) ∷ (opt_rust, file_with 1 9) ∷ []

inside_links : validate_hardlink_aliases linked_files "writable" ≡ ok tt
unfolding validate_hardlink_aliases
inside_links = refl

outside_link :
    validate_hardlink_aliases ((usr, file_with 2 7) ∷ []) "writable"
    ≡ err (
        policy
          (at_path usr)
          "writable contains a hardlink with an alias outside the validated tree")
unfolding validate_hardlink_aliases
outside_link = refl

validate_hardlink_aliases_example :
    (validate_hardlink_aliases linked_files "writable" ≡ ok tt)
    ↔ All (λ file. file.1.nlink ≡ names_of file.1.dev file.1.ino linked_files) linked_files
validate_hardlink_aliases_example = validate_hardlink_aliases-ok linked_files "writable"

blank : ℕ → Bool
blank c = nat_beq c b' '

decoded :
    (decode_mountinfo_path (bytes "/a\\040b") ≡ some (path_of (bytes "/a b")))
    × (decode_mountinfo_path (bytes "/a\\48b") ≡ none)
unfolding decode_mountinfo_path is_utf8
decoded = (refl, refl)

small : All (λ c. c < 256) (bytes "/a b")
small = (omega arith, (omega arith, (omega arith, (omega arith, tt))))

valid_text : is_utf8 (bytes "/a b") ≡ true
unfolding is_utf8
valid_text = refl

decode_mountinfo_path_example :
    decode_mountinfo_path (escape blank (bytes "/a b")) ≡ some (path_of (bytes "/a b"))
decode_mountinfo_path_example = decode_mountinfo_path-escape blank (bytes "/a b") small valid_text

abbrev table : OsString
table = bytes "22 1 8:1 / / rw - ext4 /dev/sda1 rw\n23 22 0:5 / /usr/lib/x rw - tmpfs tmpfs rw\n"

nested :
    (validate_no_nested_mounts opt_rust "writable" (ok table) ≡ ok tt)
    × (validate_no_nested_mounts usr "writable" (ok table)
        ≡ err (
            policy
              (at_path (path_of (bytes "/usr/lib/x")))
              "writable trees must not contain nested mountpoints"))
unfolding validate_no_nested_mounts nonempty_lines decode_mountinfo_path path_of starts_with is_utf8
    split_whitespace component_beq
nested = (refl, refl)

-- A no-break space, which the kernel does not escape, is white space to `split_whitespace`: the
-- mount point that is read is too short, and a nested mount is not seen.
abbrev spaced : OsString
spaced = bytes "/u" ++ 0xC2 ∷ 0xA0 ∷ bytes "w"

abbrev spaced_table : OsString
spaced_table = bytes "23 22 0:5 / " ++ (spaced ++ bytes "/m rw - tmpfs tmpfs rw")

unseen :
    (validate_no_nested_mounts (path_of spaced) "writable" (ok spaced_table) ≡ ok tt)
    × (starts_with (path_of (spaced ++ bytes "/m")) (path_of spaced) ≡ true)
unfolding validate_no_nested_mounts nonempty_lines decode_mountinfo_path path_of starts_with is_utf8
    split_whitespace component_beq
unseen = (refl, refl)
