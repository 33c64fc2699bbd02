-- ===== src/Linux/Tree/Walk/Described.antt =====
-- A tree as it should be, told from the tree itself, and that the walk finds just its files.
use cargo_cage.Base.{
  ℕ, zero, suc, ◌+◌, ◌≡◌, true, ◌&&◌, ◌⊎◌, inl, inr, some, List, [], ◌∷◌, ◌++◌, ok, err,
  Result-cases, bind_ok, ok_injective, subst, sym, All, arith, nat_beq, if◌then◌else◌,
}
use cargo_cage.Os.FilePath.{FilePath, normal, starts_with}
use cargo_cage.Os.Fs.{Fs, Metadata, is_symlink, is_dir, is_file}
use cargo_cage.Linux.Tree.Hardlinks.{names_of}
use cargo_cage.Linux.Tree.Walk.{
  Listing, unreadable, readable, Entries, last, next, Entry, unread, named_entry, TreeKind,
  read_only, Visit, Stack, Files, visit, push_visit, scan, scan_listing, walk, is_excluded,
}
use cargo_cage.Linux.Tree.Walk.Visited.{
  Visited, left_out, inner_link, real_directory, regular_file, visit-Visited,
}

module _ (excluded : List FilePath) where
  unfoldable mutual
    -- How many names a file has in the tree, outside the excluded paths.
    pub listing_names : ℕ → ℕ → FilePath → Listing → ℕ
    listing_names dev ino parent (unreadable error) = 0
    listing_names dev ino parent (readable entries) = entries_names dev ino parent entries

    pub entries_names : ℕ → ℕ → FilePath → Entries → ℕ
    entries_names dev ino parent last = 0
    entries_names dev ino parent (next entry entries) =
        entry_names dev ino parent entry + entries_names dev ino parent entries

    pub entry_names : ℕ → ℕ → FilePath → Entry → ℕ
    entry_names dev ino parent (unread error) = 0
    entry_names dev ino parent (named_entry name (err error) listing) = 0
    entry_names dev ino parent (named_entry name (ok m) listing) =
        let path = parent ++ normal name ∷ [] in
        let below = listing_names dev ino path listing in
        if is_excluded excluded path
        then 0
        else if is_symlink m
        then 0
        else if is_dir m
        then below
        else if nat_beq m.dev dev && nat_beq m.ino ino
        then 1
        else 0

  unfoldable pub stack_names : ℕ → ℕ → Stack → ℕ
  unfolding listing_names
  stack_names dev ino [] = 0
  stack_names dev ino ((parent, listing) ∷ stack) =
      listing_names dev ino parent listing + stack_names dev ino stack

module _ (fs : Fs) (root : FilePath) (kind : TreeKind) (excluded : List FilePath)
    (P : FilePath × Metadata → Type 0) where
  unfoldable mutual
    -- Every entry outside the excluded paths is a directory like that, a regular file that meets the
    -- condition, or, in a read-only tree, a symlink that resolves inside the root.
    pub IsTree : FilePath → Listing → Type 0
    IsTree parent (unreadable error) = ⊥
    IsTree parent (readable entries) = AreEntries parent entries

    pub AreEntries : FilePath → Entries → Type 0
    AreEntries parent last = Unit
    AreEntries parent (next entry entries) = IsEntry parent entry × AreEntries parent entries

    pub IsEntry : FilePath → Entry → Type 0
    IsEntry parent (unread error) = ⊥
    IsEntry parent (named_entry name answer listing) =
        (is_excluded excluded (parent ++ normal name ∷ []) ≡ true)
        ⊎ ((m : Metadata) × (answer ≡ ok m)
            × (((kind ≡ read_only)
                  × (is_symlink m ≡ true)
                  × (target : FilePath) × (fs.canonicalize (parent ++ normal name ∷ []) ≡ ok target)
                  × (starts_with target root ≡ true))
                ⊎ ((is_dir m ≡ true) × IsTree (parent ++ normal name ∷ []) listing)
                ⊎ ((is_file m ≡ true) × P (parent ++ normal name ∷ [], m))))

  unfoldable pub AreTrees : Stack → Type 0
  AreTrees [] = Unit
  AreTrees ((parent, listing) ∷ stack) = IsTree parent listing × AreTrees stack

  All-front : (xs : Files) (x : FilePath × Metadata) → All P (xs ++ x ∷ []) → All P xs × P x
  All-front [] x h = (tt, h.0)
  All-front (y ∷ xs) x h = let (a, b) = All-front xs x h.1 in ((h.0, a), b)

  -- What an entry adds to the stack and the files, taken back.
  Visited-IsEntry :
      {parent : FilePath} {entry : Entry} {v : Visit} (stack : Stack) (files : Files)
      → Visited fs root kind excluded parent entry v
      → AreTrees (push_visit fs root kind excluded v (stack, files)).0
      → All P (push_visit fs root kind excluded v (stack, files)).1
      → IsEntry parent entry × AreTrees stack × All P files
  unfolding push_visit AreTrees IsEntry
  Visited-IsEntry stack files (left_out x) t h = (inl x, t, h)
  Visited-IsEntry stack files (inner_link m target x a l k c i) t h =
      (inr (m, a, inl (k, l, target, c, i)), t, h)
  Visited-IsEntry stack files (real_directory m x a l d) t h =
      (inr (m, a, inr (inl (d, t.0))), t.1, h)
  Visited-IsEntry stack files (regular_file m x a l d f) t h =
      let (hs, p) = All-front files _ h in (inr (m, a, inr (inr (f, p))), t, hs)

  scan-AreEntries :
      (parent : FilePath) (entries : Entries) (start end : Stack × Files)
      → scan fs root kind excluded parent entries start ≡ ok end
      → AreTrees end.0
      → All P end.1
      → AreEntries parent entries × AreTrees start.0 × All P start.1
  unfolding scan AreEntries
  scan-AreEntries parent last start end e t h =
      let same : end ≡ start = sym (ok_injective e) in
      (tt, subst (λ x. AreTrees x.0) same t, subst (λ x. All P x.1) same h)
  scan-AreEntries parent (next entry entries) (stack, files) end e t h =
      let (v, w, r) = bind_ok (visit fs root kind excluded parent entry) _ end e in
      let (es, t', h') =
        scan-AreEntries parent entries (push_visit fs root kind excluded v (stack, files)) end r t
          h in
      let (i, t'', h'') =
        Visited-IsEntry stack files (visit-Visited fs root kind excluded parent entry v w) t' h' in
      ((i, es), t'', h'')

  scan_listing-IsTree :
      (parent : FilePath) (listing : Listing) (start end : Stack × Files)
      → scan_listing fs root kind excluded parent listing start ≡ ok end
      → AreTrees end.0
      → All P end.1
      → IsTree parent listing × AreTrees start.0 × All P start.1
  unfolding scan_listing IsTree
  scan_listing-IsTree parent (unreadable error) start end e t h = cc
  scan_listing-IsTree parent (readable entries) start end e t h =
      scan-AreEntries parent entries start end e t h

  -- If the files that the walk found meet the condition, what it walked over is as it should be.
  pub walk-AreTrees :
      (fuel : ℕ) (stack : Stack) (files out : Files)
      → walk fs root kind excluded fuel stack files ≡ some (ok out)
      → All P out
      → All P files × AreTrees stack
  unfolding walk AreTrees
  walk-AreTrees zero stack files out e h = cc
  walk-AreTrees (suc fuel) [] files out e h =
      let same : files ≡ out = cc in (subst (All P) (sym same) h, tt)
  walk-AreTrees (suc fuel) ((parent, listing) ∷ stack) files out e h =
      elim (Result-cases (scan_listing fs root kind excluded parent listing (stack, files))) [
        | inr (x, s) ↦ let stopped : some (err x) ≡ some (ok out) = rw (s, walk) at e in cc
        | inl (end, s) ↦
            let (hs, ts) = walk-AreTrees fuel end.0 end.1 out (rw (s, walk) at e) h in
            let (i, t, hf) = scan_listing-IsTree parent listing (stack, files) end s ts hs in
            (hf, (i, t))
      ]

names_of-snoc :
    (dev ino : ℕ) (files : Files) (path : FilePath) (m : Metadata)
    → names_of dev ino (files ++ (path, m) ∷ [])
      ≡ names_of dev ino files + (if nat_beq m.dev dev && nat_beq m.ino ino then 1 else 0)
unfolding names_of
names_of-snoc dev ino [] path m = ground arith
names_of-snoc dev ino ((other, n) ∷ files) path m =
    ground (arith, names_of-snoc dev ino files path m)

module _ (fs : Fs) (root : FilePath) (kind : TreeKind) (excluded : List FilePath)
    (dev ino : ℕ) where
  -- The names on the stack and among the files.
  found_names : Stack × Files → ℕ
  found_names (stack, files) = names_of dev ino files + stack_names excluded dev ino stack

  Visited-names :
      {parent : FilePath} {entry : Entry} {v : Visit} (stack : Stack) (files : Files)
      → Visited fs root kind excluded parent entry v
      → found_names (push_visit fs root kind excluded v (stack, files))
        ≡ found_names (stack, files) + entry_names excluded dev ino parent entry
  unfolding push_visit found_names stack_names entry_names
  Visited-names stack files (left_out {answer = err e} x) = omega arith
  Visited-names stack files (left_out {answer = ok m} x) = rw x (omega arith)
  Visited-names stack files (inner_link m target x a l k c i) =
      rw (a, entry_names, x, l) (omega arith)
  Visited-names stack files (real_directory m x a l d) = rw (a, entry_names, x, l, d) (omega arith)
  Visited-names {parent} stack files (regular_file {name = name} m x a l d f) =
      rw (a, entry_names, x, l, d, names_of-snoc dev ino files (parent ++ normal name ∷ []) m)
        (omega arith)

  scan-names :
      (parent : FilePath) (entries : Entries) (start end : Stack × Files)
      → scan fs root kind excluded parent entries start ≡ ok end
      → found_names end ≡ found_names start + entries_names excluded dev ino parent entries
  unfolding scan entries_names
  scan-names parent last start end e =
      let same : start ≡ end = ok_injective e in rw same (omega arith)
  scan-names parent (next entry entries) (stack, files) end e =
      let (v, w, r) = bind_ok (visit fs root kind excluded parent entry) _ end e in
      let pushed = push_visit fs root kind excluded v (stack, files) in
      omega (
        arith,
        scan-names parent entries pushed end r,
        Visited-names stack files (visit-Visited fs root kind excluded parent entry v w),
      )

  scan_listing-names :
      (parent : FilePath) (listing : Listing) (start end : Stack × Files)
      → scan_listing fs root kind excluded parent listing start ≡ ok end
      → found_names end ≡ found_names start + listing_names excluded dev ino parent listing
  unfolding scan_listing listing_names
  scan_listing-names parent (unreadable error) start end e = cc
  scan_listing-names parent (readable entries) start end e = scan-names parent entries start end e

  -- The walk finds a file as often as it has names in the tree.
  pub walk-names :
      (fuel : ℕ) (stack : Stack) (files out : Files)
      → walk fs root kind excluded fuel stack files ≡ some (ok out)
      → names_of dev ino out ≡ names_of dev ino files + stack_names excluded dev ino stack
  unfolding walk stack_names found_names
  walk-names zero stack files out e = cc
  walk-names (suc fuel) [] files out e = let same : files ≡ out = cc in rw same (omega arith)
  walk-names (suc fuel) ((parent, listing) ∷ stack) files out e =
      elim (Result-cases (scan_listing fs root kind excluded parent listing (stack, files))) [
        | inr (x, s) ↦ let stopped : some (err x) ≡ some (ok out) = rw (s, walk) at e in cc
        | inl (end, s) ↦ omega (
          arith,
          walk-names fuel end.0 end.1 out (rw (s, walk) at e),
          scan_listing-names parent listing (stack, files) end s,
        )
      ]
