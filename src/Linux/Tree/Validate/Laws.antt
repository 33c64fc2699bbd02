-- ===== src/Linux/Tree/Validate/Laws.antt =====
-- What `validate_tree` accepts.
use cargo_cage.Core.Error.{CageResult, CageError}
use cargo_cage.Base.{
  err, map_err, map_err_ok, ◌⊎◌, inl, inr, ℕ, suc, ◌∙◌, ap, ◌≡◌, ◌≢◌, refl, Option, none, some,
  List, [], ◌∷◌, ok, bind_ok, answer_of, All, All-pointwise, arith, sym,
}
use cargo_cage.Os.Text.{OsString}
use cargo_cage.Os.FilePath.{FilePath}
use cargo_cage.Os.Fs.{
  Fs, Metadata, FileType, regular, directory, symlink, char_device, special, IoResult,
}
use cargo_cage.Linux.Tree.Hardlinks.{names_of, validate_hardlink_aliases-ok}
use cargo_cage.Linux.Tree.MountTable.{validate_no_nested_mounts}
use cargo_cage.Linux.Tree.Walk.{
  Listing, TreeKind, tree_label, cache, read_only, writable, walk, listing_size, Files,
}
use cargo_cage.Linux.Tree.Walk.Termination.{walk-returns}
use cargo_cage.Linux.Tree.Walk.Described.{
  listing_names, stack_names, IsTree, AreTrees, walk-AreTrees, walk-names,
}
use cargo_cage.Linux.Tree.Validate.{
  root_size, validate_directories, validate_root, validate_tree, check_regular,
}

answer_of-some : {A : Type 0} (o : Option A) (h : o ≢ none) → o ≡ some (answer_of o h)
unfolding answer_of
answer_of-some none h = absurd (h refl)
answer_of-some (some a) h = refl

not_ok : {e : CageError} → ¬ (Path (CageResult (Unit {0})) (err e) (ok tt))
not_ok h = cc

-- The number of links of a file is the number of names that it has in the tree.
abbrev pub HasAllNames : List FilePath → FilePath → Listing → FilePath × Metadata → Type 0
HasAllNames excluded root listing (path, m) =
    m.nlink ≡ listing_names excluded m.dev m.ino root listing

module _ (fs : Fs) (mountinfo : IoResult OsString) (root : FilePath) (kind : TreeKind) where
  walk-IsTree :
      (listing : Listing) (excluded : List FilePath) (out : Files)
      → walk fs root kind excluded (suc (suc (listing_size listing))) ((root, listing) ∷ []) []
        ≡ some (ok out)
      → All (λ file. file.1.nlink ≡ names_of file.1.dev file.1.ino out) out
      → IsTree fs root kind excluded (HasAllNames excluded root listing) root listing
  unfolding stack_names AreTrees names_of
  walk-IsTree listing excluded out e h =
      let counted : (dev ino : ℕ)
          → names_of dev ino out ≡ listing_names excluded dev ino root listing =
        λ dev ino. omega (
          arith,
          walk-names fs root kind excluded dev ino (suc (suc (listing_size listing)))
              ((root, listing) ∷ []) [] out e,
        ) in
      let h' =
        (All-pointwise {P = λ file. file.1.nlink ≡ names_of file.1.dev file.1.ino out}
            {Q = HasAllNames excluded root listing} out
            (λ (p, m). (λ x. x ∙ counted m.dev m.ino, λ x. x ∙ sym (counted m.dev m.ino)))).0
          h in
      (walk-AreTrees fs root kind excluded (HasAllNames excluded root listing) _
        ((root, listing) ∷ []) [] out e h').1.0

  validate_directories-IsTree :
      (listing : Listing) (excluded : List FilePath)
      → validate_directories fs mountinfo root kind listing excluded ≡ ok tt
      → IsTree fs root kind excluded (HasAllNames excluded root listing) root listing
  unfolding validate_directories
  validate_directories-IsTree listing excluded h =
      let stack = (root, listing) ∷ [] in
      let fuel = suc (suc (listing_size listing)) in
      let answer = walk fs root kind excluded fuel stack [] in
      let total = walk-returns fs root kind excluded fuel stack [] (root_size root listing) in
      let (d, m, h1) =
        bind_ok (validate_no_nested_mounts root (tree_label kind) mountinfo) _ tt h in
      let (out, w, h2) = bind_ok (answer_of answer total) _ tt h1 in
      walk-IsTree listing excluded out (answer_of-some answer total ∙ ap some w)
        ((validate_hardlink_aliases-ok out (tree_label kind)).0 h2)

  -- What a root is that is accepted: a directory with a tree as it should be, or a file to be written
  -- that has no other name.
  abbrev pub IsSoundRoot : Listing → List FilePath → Metadata → Type 0
  IsSoundRoot listing excluded m =
      ((m.file_type ≡ directory)
        × IsTree fs root kind excluded (HasAllNames excluded root listing) root listing)
      ⊎ ((kind ≡ writable) × (m.file_type ≡ regular) × (m.nlink ≡ 1))

  one_name : (m : Metadata) → names_of m.dev m.ino ((root, m) ∷ []) ≡ 1
  unfolding names_of
  one_name m = ground arith

  -- The check of a root that is a regular file.
  regular_root :
      (k : TreeKind) (m : Metadata)
      → check_regular fs mountinfo root kind k m ≡ ok tt
      → (k ≡ writable) × (m.nlink ≡ 1)
  unfolding check_regular
  regular_root writable m h =
      (refl, ((validate_hardlink_aliases-ok ((root, m) ∷ []) (tree_label kind)).0 h).0 ∙ one_name m)
  regular_root cache m h = cc
  regular_root read_only m h = cc

  validate_root-IsSoundRoot :
      (listing : Listing) (excluded : List FilePath) (m : Metadata) (type : FileType)
      → m.file_type ≡ type
      → validate_root fs mountinfo root kind m listing excluded ≡ ok tt
      → IsSoundRoot listing excluded m
  unfolding validate_root
  validate_root-IsSoundRoot listing excluded m directory d h =
      inl (d, validate_directories-IsTree listing excluded (rw (d, validate_root) at h))
  validate_root-IsSoundRoot listing excluded m regular d h =
      let (k, n) =
        regular_root kind (record m { file_type = regular }) (rw (d, validate_root) at h) in
      inr (k, d, n)
  validate_root-IsSoundRoot listing excluded m symlink d h =
      absurd (not_ok (rw (d, validate_root) at h))
  validate_root-IsSoundRoot listing excluded m char_device d h =
      absurd (not_ok (rw (d, validate_root) at h))
  validate_root-IsSoundRoot listing excluded m special d h =
      absurd (not_ok (rw (d, validate_root) at h))

  -- A root that is accepted is a directory or, if it is to be written, a regular file without another
  -- name. A directory holds, outside the excluded paths, directories like it, regular files with all
  -- their names in the tree, and no symlink but in a read-only tree, where it resolves inside.
  pub validate_tree-IsSoundRoot :
      (listing : Listing) (excluded : List FilePath)
      → validate_tree fs mountinfo root kind listing excluded ≡ ok tt
      → (m : Metadata) × (fs.symlink_metadata root ≡ ok m) × IsSoundRoot listing excluded m
  unfolding validate_tree
  validate_tree-IsSoundRoot listing excluded h =
      let (m, e, h1) = bind_ok (map_err (fs.symlink_metadata root) _) _ tt h in
      (
        m,
        map_err_ok (fs.symlink_metadata root) _ m e,
        validate_root-IsSoundRoot listing excluded m m.file_type refl h1,
      )
