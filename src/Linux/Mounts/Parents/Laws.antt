-- ===== src/Linux/Mounts/Parents/Laws.antt =====
-- cage-linux/src/backend/mounts.rs: which directories `collect_parent_directories` finds.
use cargo_cage.Base.{
  ℕ, zero, suc, ◌≤◌, ◌<◌, ◌≡◌, refl, sym, inl, inr, Bool, true, not, ◌||◌, Option, none, some, List,
  [], ◌∷◌, ◌++◌, arith, length, length-append, In, contains, list_eq, list_beq, list_beq_iff, ◌==◌,
  Bool-cases, if◌then◌else◌, sort_by_key-In, sort_by_key-IsSortedByKey, IsSortedByKey, subst,
}
use cargo_cage.Os.Text.{OsString}
use cargo_cage.Os.FilePath.{normal, FilePath, root, component_eq, parent}
use cargo_cage.Os.FilePath.Laws.{parent-snoc}
use cargo_cage.Linux.Overlap.{BindMount}
use cargo_cage.Linux.Mounts.Parents.{is_blocked, climb, climb_all, collect_parent_directories}

-- The path that lies below a directory, its last name first.
unfoldable pub below : FilePath → List OsString → FilePath
below directory [] = directory
below directory (name ∷ names) = below directory names ++ normal name ∷ []

length-below :
    (directory : FilePath) (names : List OsString) → length names ≤ length (below directory names)
unfolding below
length-below directory [] = omega arith
length-below directory (name ∷ names) =
    omega (
      arith,
      length-below directory names,
      length-append (below directory names) (normal name ∷ []),
    )

In-contains :
    (directories : List FilePath) (d : FilePath) → contains directories d ≡ true → In d directories
unfolding contains
In-contains [] d h = cc
In-contains (x ∷ directories) d h = elim (Bool-cases (list_beq x d)) [
  | inl e ↦ inl (sym ((list_beq_iff x d).0 e))
  | inr e ↦ inr (In-contains directories d (ground arith))
]

In-append_left : (xs ys : List FilePath) (d : FilePath) → In d xs → In d (xs ++ ys)
In-append_left [] ys d m = absurd m
In-append_left (x ∷ xs) ys d (inl e) = inl e
In-append_left (x ∷ xs) ys d (inr m) = inr (In-append_left xs ys d m)

In-append_last : (xs : List FilePath) (d : FilePath) → In d (xs ++ d ∷ [])
In-append_last [] d = inl refl
In-append_last (x ∷ xs) d = inr (In-append_last xs d)

module _ (blocked_paths : List FilePath) (runtime_mounts : List BindMount) where
  -- The climb goes on from this directory.
  unfoldable pub goes_on : FilePath → Bool
  goes_on directory = not (directory == root || is_blocked blocked_paths runtime_mounts directory)

  -- The climb from the path comes up to the directory.
  abbrev pub IsOpen : FilePath → List OsString → Type 0
  IsOpen directory [] = goes_on directory ≡ true
  IsOpen directory (name ∷ names) =
      (goes_on (below directory (name ∷ names)) ≡ true) × IsOpen directory names

  -- The list with one more directory, unless it is there.
  visited : List FilePath → FilePath → List FilePath
  visited directories directory =
      if contains directories directory then directories else directories ++ directory ∷ []

  visited-In :
      (directories : List FilePath) (d x : FilePath)
      → In x directories
      → In x (visited directories d)
  unfolding visited
  visited-In directories d x m = elim (Bool-cases (contains directories d)) [
    | inl e ↦ rw e m
    | inr e ↦ rw e (In-append_left directories (d ∷ []) x m)
  ]

  visited-itself : (directories : List FilePath) (d : FilePath) → In d (visited directories d)
  unfolding visited
  visited-itself directories d = elim (Bool-cases (contains directories d)) [
    | inl e ↦ rw e (In-contains directories d e)
    | inr e ↦ rw e (In-append_last directories d)
  ]

  -- What was found stays found.
  climb-In :
      (fuel : ℕ) (from : Option FilePath) (directories : List FilePath) (x : FilePath)
      → In x directories
      → In x (climb blocked_paths runtime_mounts fuel from directories)
  unfolding climb visited
  climb-In zero from directories x m = m
  climb-In (suc fuel) none directories x m = m
  climb-In (suc fuel) (some d) directories x m =
      elim (Bool-cases (d == root || is_blocked blocked_paths runtime_mounts d)) [
        | inl e ↦ rw e m
        | inr e ↦
            rw e (climb-In fuel (parent d) (visited directories d) x (visited-In directories d x m))
      ]

  climb-step :
      (fuel : ℕ) (d : FilePath) (directories : List FilePath)
      → goes_on d ≡ true
      → climb blocked_paths runtime_mounts (suc fuel) (some d) directories
        ≡ climb blocked_paths runtime_mounts fuel (parent d) (visited directories d)
  unfolding climb goes_on visited
  climb-step fuel d directories h =
      elim (Bool-cases (d == root || is_blocked blocked_paths runtime_mounts d)) [
        | inl e ↦ absurd (ground arith)
        | inr e ↦ rw e refl
      ]

  -- With fuel for each name the climb reaches the directory.
  climb-reaches :
      (names : List OsString) (fuel : ℕ) (d : FilePath) (directories : List FilePath)
      → length names < fuel
      → IsOpen d names
      → In d (climb blocked_paths runtime_mounts fuel (some (below d names)) directories)
  unfolding climb below
  climb-reaches names zero d directories h way = absurd (omega arith)
  climb-reaches [] (suc fuel) d directories h way =
      rw (climb-step fuel d directories way)
        (climb-In fuel (parent d) (visited directories d) d (visited-itself directories d))
  climb-reaches (name ∷ names) (suc fuel) d directories h way =
      rw
        (
          climb-step fuel (below d (name ∷ names)) directories way.0,
          below,
          parent-snoc (below d names) name,
        )
        (climb-reaches names fuel d (visited directories (below d (name ∷ names))) (omega arith)
          way.1)

  climb_all-In :
      (paths directories : List FilePath) (x : FilePath)
      → In x directories
      → In x (climb_all blocked_paths runtime_mounts paths directories)
  unfolding climb_all
  climb_all-In [] directories x m = m
  climb_all-In (path ∷ paths) directories x m =
      climb_all-In paths _ x (climb-In (length path) (parent path) directories x m)

  -- The length of a path is fuel enough for the climb from it.
  climb-length :
      (d : FilePath) (name : OsString) (names : List OsString) (directories : List FilePath)
      → IsOpen d names
      → In d (
          climb blocked_paths runtime_mounts
            (length (below d (name ∷ names)))
            (parent (below d (name ∷ names)))
            directories)
  unfolding below
  climb-length d name names directories way = rw (parent-snoc (below d names) name) (
      climb-reaches names (length (below d names ++ normal name ∷ [])) d directories
        (omega (arith, length-below d names, length-append (below d names) (normal name ∷ []))) way)

  climb_all-reaches :
      (paths directories : List FilePath) (d : FilePath) (name : OsString) (names : List OsString)
      → In (below d (name ∷ names)) paths
      → IsOpen d names
      → In d (climb_all blocked_paths runtime_mounts paths directories)
  unfolding climb_all
  climb_all-reaches [] directories d name names m way = absurd m
  climb_all-reaches (path ∷ paths) directories d name names (inl e) way = climb_all-In paths _ d (
      subst (λ p. In d (climb blocked_paths runtime_mounts (length p) (parent p) directories)) e
        (climb-length d name names directories way))
  climb_all-reaches (path ∷ paths) directories d name names (inr m) way =
      climb_all-reaches paths _ d name names m way

  -- Every directory above a path is found, unless the root or a blocked directory comes first on
  -- the way up to it, and the directories that are found come with the shorter ones first.
  pub collect_parent_directories-reaches :
      (paths : List FilePath) (d : FilePath) (name : OsString) (names : List OsString)
      → In (below d (name ∷ names)) paths
      → IsOpen d names
      → In d (collect_parent_directories paths blocked_paths runtime_mounts)
        × IsSortedByKey length (collect_parent_directories paths blocked_paths runtime_mounts)
  unfolding collect_parent_directories
  collect_parent_directories-reaches paths d name names m way =
      let found = climb_all blocked_paths runtime_mounts paths [] in
      (
        (sort_by_key-In length found d).1 (climb_all-reaches paths [] d name names m way),
        sort_by_key-IsSortedByKey length found,
      )
