-- ===== src/Core/Paths/Laws.antt =====
-- What `canonical_existing_path_without_symlinks` accepts.
use cargo_cage.Base.{
  ◌≡◌, refl, sym, ap, subst, All, true, ◌≢◌, ◌↔◌, String, false, not, ◌&&◌, List, [], ◌∷◌, ◌++◌,
  map, ok, arith, inl, inr, Result-cases, guard_ok, bind_ok, map_err_ok,
}
use cargo_cage.Os.Text.{OsString}
use cargo_cage.Os.FilePath.{
  Component, normal, root_dir, cur_dir, parent_dir, FilePath, absolute, root, is_absolute,
  has_parent_dir, push_component, component_beq,
}
use cargo_cage.Os.Fs.{Fs, Metadata, symlink, directory, is_symlink, is_dir}
use cargo_cage.Core.Paths.{more, walk_components, canonical_existing_path_without_symlinks}

-- Every beginning of `front ++ rest` that is longer than `front` is there and is no symlink, and
-- all but the whole are directories.
abbrev pub IsRealBelow : Fs → FilePath → List OsString → Type 0
IsRealBelow fs front [] = Unit
IsRealBelow fs front (s ∷ rest) =
    ((m : Metadata) × (fs.symlink_metadata (front ++ normal s ∷ []) ≡ ok m)
      × (m.file_type ≢ symlink)
      × (rest ≢ [] → m.file_type ≡ directory))
    × IsRealBelow fs (front ++ normal s ∷ []) rest

module _ (fs : Fs) (path : FilePath) (label : String) where
  -- One step of the walk passes exactly when its own checks and the rest pass.
  step-ok :
      (front : FilePath) (c : Component) (cs : List Component)
      → (walk_components fs path label front (c ∷ cs) ≡ ok tt) ↔ (
          ((m : Metadata) × (fs.symlink_metadata (push_component front c) ≡ ok m)
            × (is_symlink m ≡ false)
            × (more cs && not (is_dir m) ≡ false))
          × (walk_components fs path label (push_component front c) cs ≡ ok tt))
  unfolding walk_components
  step-ok front c cs = (
    λ h. elim (Result-cases (fs.symlink_metadata (push_component front c))) [
      | inl (m, e) ↦ ((m, e, ground arith, ground arith), ground arith)
      | inr (x, e) ↦ absurd (ground arith)
    ],
    λ h. ground arith,
  )

  walk_nil : (front : FilePath) → walk_components fs path label front [] ≡ ok tt
  unfolding walk_components
  walk_nil front = refl

  walk_components-ok :
      (front : FilePath) (names : List OsString)
      → (walk_components fs path label front (map normal names) ≡ ok tt)
        ↔ IsRealBelow fs front names
  unfolding push_component
  walk_components-ok front [] = ground (arith, walk_nil front)
  walk_components-ok front (s ∷ []) =
      ground (arith, step-ok front (normal s) [], walk_components-ok (front ++ normal s ∷ []) [])
  walk_components-ok front (s ∷ t ∷ names) = ground (
    arith,
    step-ok front (normal s) (map normal (t ∷ names)),
    walk_components-ok (front ++ normal s ∷ []) (t ∷ names),
  )

  no_parent_dir : (names : List OsString) → has_parent_dir (map normal names) ≡ false
  unfolding has_parent_dir component_beq
  no_parent_dir [] = refl
  no_parent_dir (s ∷ names) = no_parent_dir names

  absolute-no_parent_dir : (names : List OsString) → has_parent_dir (absolute names) ≡ false
  unfolding has_parent_dir component_beq
  absolute-no_parent_dir names = no_parent_dir names

-- The root is there and no symlink, and a directory if the path goes on.
abbrev pub IsRealRoot : Fs → List OsString → Type 0
IsRealRoot fs names =
    (m : Metadata) × (fs.symlink_metadata root ≡ ok m)
    × (m.file_type ≢ symlink)
    × (names ≢ [] → m.file_type ≡ directory)

-- An absolute path without `..`, by its names.
absolute-accepted :
    (fs : Fs) (names : List OsString) (label : String) (p : FilePath)
    → (canonical_existing_path_without_symlinks fs (absolute names) label ≡ ok p) ↔ (
        IsRealRoot fs names × IsRealBelow fs root names × (fs.canonicalize (absolute names) ≡ ok p))
unfolding canonical_existing_path_without_symlinks is_absolute push_component
absolute-accepted fs [] label p = ground (
  arith,
  absolute-no_parent_dir fs (absolute []) label [],
  step-ok fs (absolute []) label [] root_dir [],
  walk_components-ok fs (absolute []) label root [],
)
absolute-accepted fs (s ∷ names) label p = ground (
  arith,
  absolute-no_parent_dir fs (absolute (s ∷ names)) label (s ∷ names),
  step-ok fs (absolute (s ∷ names)) label [] root_dir (map normal (s ∷ names)),
  walk_components-ok fs (absolute (s ∷ names)) label root (s ∷ names),
)

-- A path as it is written out: the root and the dot stand only in front.
abbrev pub IsInner : Component → Type 0
IsInner c = elim c [ normal s ↦ Unit | parent_dir ↦ Unit | _ ↦ ⊥ ]

abbrev pub IsWritten : FilePath → Type 0
IsWritten [] = Unit
IsWritten (c ∷ path) = All IsInner path

-- Without `..`, what follows the first component are names.
inner_names :
    (path : FilePath)
    → All IsInner path
    → has_parent_dir path ≡ false
    → (names : List OsString) × (path ≡ map normal names)
unfolding has_parent_dir component_beq
inner_names [] w h = ([], refl)
inner_names (normal s ∷ path) w h =
    let (names, e) = inner_names path w.1 h in (s ∷ names, ap (λ q. normal s ∷ q) e)
inner_names (parent_dir ∷ path) w h = cc
inner_names (cur_dir ∷ path) w h = absurd w.0
inner_names (root_dir ∷ path) w h = absurd w.0

written_names :
    (path : FilePath)
    → IsWritten path
    → is_absolute path ≡ true
    → has_parent_dir path ≡ false
    → (names : List OsString) × (path ≡ absolute names)
unfolding is_absolute has_parent_dir component_beq
written_names (root_dir ∷ path) w a h =
    let (names, e) = inner_names path w h in (names, ap (λ q. root_dir ∷ q) e)
written_names _ w a h = cc

-- A path is accepted, with what the kernel canonicalizes it to, exactly when it is absolute and has no
-- `..`, no component on the way is missing or a symlink, all but the last are directories, and the
-- kernel canonicalizes it.
pub canonical_existing_path_without_symlinks-ok :
    (fs : Fs) (path : FilePath) (label : String) (p : FilePath)
    → IsWritten path
    → (canonical_existing_path_without_symlinks fs path label ≡ ok p) ↔ (
        (names : List OsString) × (path ≡ absolute names)
        × IsRealRoot fs names
        × IsRealBelow fs root names
        × (fs.canonicalize path ≡ ok p))
unfolding canonical_existing_path_without_symlinks
canonical_existing_path_without_symlinks-ok fs path label p written = (
  λ h.
      let (rooted, h1) = guard_ok (not (is_absolute path)) _ _ p h in
      let (straight, h2) = guard_ok (has_parent_dir path) _ _ p h1 in
      let (names, e) = written_names path written (ground (arith, rooted)) straight in
      let (top, below, c) =
        (absolute-accepted fs names label p).0
          (subst (λ q. canonical_existing_path_without_symlinks fs q label ≡ ok p) e h) in
      (names, e, top, below, subst (λ q. fs.canonicalize q ≡ ok p) (sym e) c),
  λ (names, e, top, below, c).
      subst (λ q. canonical_existing_path_without_symlinks fs q label ≡ ok p) (sym e)
        ((absolute-accepted fs names label p).1
          (top, below, subst (λ q. fs.canonicalize q ≡ ok p) e c)),
)

-- What is accepted is what the kernel canonicalizes the path to.
pub canonical_existing_path_without_symlinks-canonicalize :
    (fs : Fs) (path : FilePath) (label : String) (p : FilePath)
    → canonical_existing_path_without_symlinks fs path label ≡ ok p
    → fs.canonicalize path ≡ ok p
unfolding canonical_existing_path_without_symlinks
canonical_existing_path_without_symlinks-canonicalize fs path label p h =
    let (a, h1) = guard_ok (not (is_absolute path)) _ _ p h in
    let (b, h2) = guard_ok (has_parent_dir path) _ _ p h1 in
    let (c, w, h3) = bind_ok (walk_components fs path label [] path) _ p h2 in
    map_err_ok (fs.canonicalize path) _ p h3
