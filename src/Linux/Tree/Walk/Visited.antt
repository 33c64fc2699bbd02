-- ===== src/Linux/Tree/Walk/Visited.antt =====
-- What the entries of a directory are that the loop passes.
use cargo_cage.Base.{
  ◌≡◌, refl, true, false, not, ok_injective, if_split, subst, sym, inl, inr, List, [], ◌∷◌, ◌++◌,
  ok, bind_ok, guard_ok, map_err_ok, map_err, arith,
}
use cargo_cage.Os.Text.{OsString}
use cargo_cage.Os.FilePath.{FilePath, normal, starts_with}
use cargo_cage.Os.Fs.{Fs, Metadata, IoResult, is_symlink, is_dir, is_file}
use cargo_cage.Linux.Tree.Walk.{
  Listing, Entry, unread, named_entry, TreeKind, cache, read_only, writable, Visit, skip,
  directory_at, file_at, visit_symlink, visit_metadata, visit, is_excluded,
}

module _ (fs : Fs) (root : FilePath) (kind : TreeKind) (excluded : List FilePath) where
  -- The reasons for which an entry passes, with what the loop does then.
  pub data Visited (parent : FilePath) : Entry → Visit → Type 0 where
    left_out :
        {name : OsString} {answer : IoResult Metadata} {listing : Listing}
        → is_excluded excluded (parent ++ normal name ∷ []) ≡ true
        → Visited parent (named_entry name answer listing) skip
    inner_link :
        {name : OsString} {answer : IoResult Metadata} {listing : Listing} (m : Metadata)
        (target : FilePath)
        → is_excluded excluded (parent ++ normal name ∷ []) ≡ false
        → answer ≡ ok m
        → is_symlink m ≡ true
        → kind ≡ read_only
        → fs.canonicalize (parent ++ normal name ∷ []) ≡ ok target
        → starts_with target root ≡ true
        → Visited parent (named_entry name answer listing) skip
    real_directory :
        {name : OsString} {answer : IoResult Metadata} {listing : Listing} (m : Metadata)
        → is_excluded excluded (parent ++ normal name ∷ []) ≡ false
        → answer ≡ ok m
        → is_symlink m ≡ false
        → is_dir m ≡ true
        → Visited parent
            (named_entry name answer listing)
            (directory_at (parent ++ normal name ∷ []) listing)
    regular_file :
        {name : OsString} {answer : IoResult Metadata} {listing : Listing} (m : Metadata)
        → is_excluded excluded (parent ++ normal name ∷ []) ≡ false
        → answer ≡ ok m
        → is_symlink m ≡ false
        → is_dir m ≡ false
        → is_file m ≡ true
        → Visited parent (named_entry name answer listing) (file_at (parent ++ normal name ∷ []) m)

  -- An accepted symlink belongs to a read-only tree and resolves inside of it.
  visit_symlink-ok :
      (k : TreeKind) (path : FilePath) (v : Visit)
      → visit_symlink fs root kind excluded k path ≡ ok v
      → (k ≡ read_only)
        × (v ≡ skip)
        × ((target : FilePath) × (fs.canonicalize path ≡ ok target)
            × (starts_with target root ≡ true))
  unfolding visit_symlink
  visit_symlink-ok cache path v h = cc
  visit_symlink-ok writable path v h = cc
  visit_symlink-ok read_only path v h =
      let (target, e, h1) = bind_ok (map_err (fs.canonicalize path) _) _ v h in
      let (inside, h2) = guard_ok (not (starts_with target root)) _ _ v h1 in
      (refl, cc, (target, map_err_ok (fs.canonicalize path) _ target e, ground arith))

  visit_metadata-Visited :
      (parent : FilePath) (name : OsString) (answer : IoResult Metadata) (listing : Listing)
      (m : Metadata) (v : Visit)
      → is_excluded excluded (parent ++ normal name ∷ []) ≡ false
      → answer ≡ ok m
      → visit_metadata fs root kind excluded (parent ++ normal name ∷ []) m listing ≡ ok v
      → Visited parent (named_entry name answer listing) v
  unfolding visit_metadata
  visit_metadata-Visited parent name answer listing m v x a h =
      elim (if_split (is_symlink m) _ _ (ok v) h) [
        | inl (l, g) ↦
            let (k, e, (target, c, i)) = visit_symlink-ok kind (parent ++ normal name ∷ []) v g in
            subst (Visited parent (named_entry name answer listing)) (sym e)
              (inner_link m target x a l k c i)
        | inr (l, g) ↦ elim (if_split (is_dir m) _ _ (ok v) g) [
          | inl (d, e) ↦
              subst (Visited parent (named_entry name answer listing)) (ok_injective e)
                (real_directory m x a l d)
          | inr (d, g) ↦ elim (if_split (is_file m) _ _ (ok v) g) [
            | inl (f, e) ↦
                subst (Visited parent (named_entry name answer listing)) (ok_injective e)
                  (regular_file m x a l d f)
            | inr (f, e) ↦ cc
          ]
        ]
      ]

  pub visit-Visited :
      (parent : FilePath) (entry : Entry) (v : Visit)
      → visit fs root kind excluded parent entry ≡ ok v
      → Visited parent entry v
  unfolding visit
  visit-Visited parent (unread error) v h = cc
  visit-Visited parent (named_entry name answer listing) v h =
      elim (if_split (is_excluded excluded (parent ++ normal name ∷ [])) _ _ (ok v) h) [
        | inl (x, e) ↦
            subst (Visited parent (named_entry name answer listing)) (ok_injective e) (left_out x)
        | inr (x, g) ↦
            let (m, a, r) = bind_ok (map_err answer _) _ v g in
            visit_metadata-Visited parent name answer listing m v x (map_err_ok answer _ m a) r
      ]
