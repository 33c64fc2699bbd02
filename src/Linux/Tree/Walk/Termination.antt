-- ===== src/Linux/Tree/Walk/Termination.antt =====
-- The walk over a finite tree ends: each round takes one directory off.
use cargo_cage.Base.{
  ℕ, zero, suc, ◌+◌, ◌≤◌, ◌<◌, ◌≡◌, ◌≢◌, refl, inl, inr, none, some, List, [], ◌∷◌, ok, err,
  Result-cases, bind_ok, ok_injective, arith,
}
use cargo_cage.Os.FilePath.{FilePath}
use cargo_cage.Os.Fs.{Fs}
use cargo_cage.Linux.Tree.Walk.{
  Listing, unreadable, readable, Entries, last, next, Entry, TreeKind, Visit, skip, directory_at,
  file_at, Stack, Files, visit, push_visit, scan, scan_listing, walk, listing_size, entries_size,
  entry_size, stack_size,
}
use cargo_cage.Linux.Tree.Walk.Visited.{
  Visited, left_out, inner_link, real_directory, regular_file, visit-Visited,
}

-- What a visit adds to the stack.
visit_size : Visit → ℕ
visit_size (directory_at path listing) = suc (listing_size listing)
visit_size _ = 0

module _ (fs : Fs) (root : FilePath) (kind : TreeKind) (excluded : List FilePath) where
  Visited-size :
      {parent : FilePath} {entry : Entry} {v : Visit}
      → Visited fs root kind excluded parent entry v
      → visit_size v ≤ entry_size entry
  unfolding visit_size entry_size
  Visited-size (left_out x) = omega arith
  Visited-size (inner_link m target x a l k c i) = omega arith
  Visited-size (real_directory m x a l d) = rw (a, entry_size, d) (omega arith)
  Visited-size (regular_file m x a l d f) = omega arith

  push_visit-size :
      (v : Visit) (stack : Stack) (files : Files)
      → stack_size (push_visit fs root kind excluded v (stack, files)).0
        ≡ visit_size v + stack_size stack
  unfolding push_visit visit_size stack_size
  push_visit-size skip stack files = omega arith
  push_visit-size (directory_at path listing) stack files = refl
  push_visit-size (file_at path m) stack files = omega arith

  scan-size :
      (parent : FilePath) (entries : Entries) (start end : Stack × Files)
      → scan fs root kind excluded parent entries start ≡ ok end
      → stack_size end.0 ≤ entries_size entries + stack_size start.0
  unfolding scan entries_size
  scan-size parent last start end h = let e : start ≡ end = ok_injective h in rw e (omega arith)
  scan-size parent (next entry entries) (stack, files) end h =
      let (v, w, r) = bind_ok (visit fs root kind excluded parent entry) _ end h in
      let rest =
        scan-size parent entries (push_visit fs root kind excluded v (stack, files)) end r in
      omega (
        arith,
        rest,
        push_visit-size v stack files,
        Visited-size (visit-Visited fs root kind excluded parent entry v w),
      )

  scan_listing-size :
      (parent : FilePath) (listing : Listing) (start end : Stack × Files)
      → scan_listing fs root kind excluded parent listing start ≡ ok end
      → stack_size end.0 ≤ listing_size listing + stack_size start.0
  unfolding scan_listing listing_size
  scan_listing-size parent (unreadable error) start end h = cc
  scan_listing-size parent (readable entries) start end h = scan-size parent entries start end h

  -- The walk over a stack of directories returns within one round more than there are directories on
  -- the stack and, reached without following a symlink, below it. What stands behind a symlink counts
  -- for nothing.
  pub walk-returns :
      (fuel : ℕ) (stack : Stack) (files : Files)
      → stack_size stack < fuel
      → walk fs root kind excluded fuel stack files ≢ none
  unfolding walk stack_size
  walk-returns zero stack files h e = absurd (omega arith)
  walk-returns (suc fuel) [] files h e = cc
  walk-returns (suc fuel) ((parent, listing) ∷ stack) files h e =
      elim (Result-cases (scan_listing fs root kind excluded parent listing (stack, files))) [
        | inl ((stack', files'), s) ↦
            walk-returns fuel stack' files'
              (omega (arith, scan_listing-size parent listing (stack, files) (stack', files') s))
              (rw (s, walk) at e)
        | inr (error, s) ↦ let stopped : some (err error) ≡ none = rw (s, walk) at e in cc
      ]
