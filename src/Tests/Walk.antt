-- ===== src/Tests/Walk.antt =====
-- Runs of the walk over a tree.
use cargo_cage.Base.{ℕ, ◌<◌, ◌≡◌, ◌≢◌, refl, none, [], ◌∷◌, ok, err, answer_of, arith, list_beq}
use cargo_cage.Os.Text.{bytes}
use cargo_cage.Os.FilePath.{FilePath, path_of, starts_with, component_beq}
use cargo_cage.Os.Fs.{Fs, Metadata, FileType, regular, directory, symlink}
use cargo_cage.Core.Error.{policy, at_path}
use cargo_cage.Linux.Tree.Hardlinks.{validate_hardlink_aliases}
use cargo_cage.Linux.Tree.MountTable.{nonempty_lines, validate_no_nested_mounts}
use cargo_cage.Linux.Tree.Walk.{
  Listing, readable, last, next, named_entry, read_only, writable, walk, tree_label, listing_size,
  stack_size, is_excluded,
}
use cargo_cage.Linux.Tree.Walk.Termination.{walk-returns}
use cargo_cage.Linux.Tree.Validate.{validate_tree}
use cargo_cage.Linux.Tree.Validate.Laws.{IsSoundRoot, validate_tree-IsSoundRoot}

abbrev project : FilePath
project = path_of (bytes "/p")

abbrev metadata_of : FileType → ℕ → Metadata
metadata_of kind links = record {
  file_type = kind;
  nlink = links;
  dev = 8;
  ino = 3;
  mode = 0;
  len = 0;
}

-- A host on which every path is a directory, and every symlink resolves to `/p/a`.
abbrev host_fs : Fs
host_fs = record {
  symlink_metadata = λ p. ok (metadata_of directory 2);
  metadata = λ p. ok (metadata_of directory 2);
  canonicalize = λ p. ok (path_of (bytes "/p/a"));
}

abbrev no_listing : Listing
no_listing = readable last

-- `/p` with the directory `d`, whose file `x` is also `/p/y`.
abbrev linked_tree : Listing
linked_tree = readable (
    next
      (named_entry (bytes "d") (ok (metadata_of directory 2))
        (readable (next (named_entry (bytes "x") (ok (metadata_of regular 2)) no_listing) last)))
      (next (named_entry (bytes "y") (ok (metadata_of regular 2)) no_listing) last))

abbrev link_tree : Listing
link_tree = readable (next (named_entry (bytes "l") (ok (metadata_of symlink 1)) no_listing) last)

accepted : validate_tree host_fs (ok []) project writable linked_tree [] ≡ ok tt
unfolding validate_tree answer_of walk validate_hardlink_aliases validate_no_nested_mounts
    nonempty_lines path_of starts_with component_beq is_excluded listing_size
accepted = refl

-- A symlink is refused in a writable tree, and an excluded one is not looked at.
symlinks :
    (validate_tree host_fs (ok []) project writable link_tree []
      ≡ err (policy (at_path (path_of (bytes "/p/l"))) "writable trees must not contain symlinks"))
    × (validate_tree host_fs (ok []) project read_only link_tree [] ≡ ok tt)
    × (validate_tree host_fs (ok []) project writable link_tree (path_of (bytes "/p/l") ∷ [])
        ≡ ok tt)
unfolding validate_tree answer_of walk validate_hardlink_aliases validate_no_nested_mounts
    nonempty_lines path_of starts_with component_beq is_excluded listing_size tree_label list_beq
symlinks = (refl, refl, refl)

validate_tree_example :
    (m : Metadata) × (host_fs.symlink_metadata project ≡ ok m)
    × IsSoundRoot host_fs (ok []) project writable linked_tree [] m
validate_tree_example =
    validate_tree-IsSoundRoot host_fs (ok []) project writable linked_tree [] accepted

-- The tree above with a symlink to it.
abbrev looping_tree : Listing
looping_tree = readable (
    next (named_entry (bytes "l") (ok (metadata_of symlink 1)) linked_tree)
      (next (named_entry (bytes "d") (ok (metadata_of directory 2)) no_listing) last))

stack_fits : stack_size ((project, looping_tree) ∷ []) < 3
unfolding stack_size listing_size
stack_fits = omega arith

walk_example : walk host_fs project read_only [] 3 ((project, looping_tree) ∷ []) [] ≢ none
walk_example =
    walk-returns host_fs project read_only [] 3 ((project, looping_tree) ∷ []) [] stack_fits
