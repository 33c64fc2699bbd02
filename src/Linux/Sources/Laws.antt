-- ===== src/Linux/Sources/Laws.antt =====
-- Where the paths of a plan come from.
use cargo_cage.Base.{
  ◌≡◌, ◌≢◌, subst, map_err, append-In, In-append, ◌⊎◌, inl, inr, String, Bool, true, false, not,
  Option, none, some, List, [], ◌∷◌, ◌++◌, ok, err, In, Result-cases, bind_ok, guard_ok, map_err_ok,
  ok_injective, try_map, try_map-In, arith, list_beq_iff, ◌==◌, list_eq, sym, ap, ◌∙◌,
  if◌then◌else◌,
}
use cargo_cage.Os.FilePath.{FilePath, root, component_eq}
use cargo_cage.Os.Fs.{Fs, Metadata, not_found, is_symlink, is_dir}
use cargo_cage.Core.Error.{CageResult, io, at_path}
use cargo_cage.Core.Paths.{canonical_existing_path_without_symlinks}
use cargo_cage.Core.Paths.Laws.{canonical_existing_path_without_symlinks-canonicalize}
use cargo_cage.Linux.Overlap.{BindMount, MaskPath, directory_mask, file_mask, mask_path}
use cargo_cage.Linux.Sources.{
  flatten_options, canonical_existing_dir, mask_existing, make_mask, runtime_mount_at,
  runtime_mount, runtime_mounts, required_runtime_paths, optional_runtime_paths,
}

pub In-flatten_options :
    {A : Type 0} (xs : List (Option A)) (a : A) → In (some a) xs → In a (flatten_options xs)
unfolding flatten_options
In-flatten_options [] a m = m
In-flatten_options (none ∷ xs) a (inl e) = cc
In-flatten_options (none ∷ xs) a (inr m) = In-flatten_options xs a m
In-flatten_options (some x ∷ xs) a (inl e) = inl cc
In-flatten_options (some x ∷ xs) a (inr m) = inr (In-flatten_options xs a m)

pub flatten_options-In :
    {A : Type 0} (xs : List (Option A)) (a : A) → In a (flatten_options xs) → In (some a) xs
unfolding flatten_options
flatten_options-In [] a m = m
flatten_options-In (none ∷ xs) a m = inr (flatten_options-In xs a m)
flatten_options-In (some x ∷ xs) a (inl e) = inl cc
flatten_options-In (some x ∷ xs) a (inr m) = inr (flatten_options-In xs a m)

module _ (fs : Fs) where
  pub canonical_existing_dir-canonicalize :
      (path : FilePath) (label : String) (p : FilePath)
      → canonical_existing_dir fs path label ≡ ok p
      → fs.canonicalize path ≡ ok p
  unfolding canonical_existing_dir
  canonical_existing_dir-canonicalize path label p h =
      ground (arith, canonical_existing_path_without_symlinks-canonicalize fs path label p)

  -- A mask covers what the kernel canonicalizes a path to that is there and no symlink.
  pub record Masked (path : FilePath) (mask : MaskPath) : Type 0 where
    pub metadata : Metadata
    pub found : fs.symlink_metadata path ≡ ok metadata
    pub real : is_symlink metadata ≡ false
    pub resolved : fs.canonicalize path ≡ ok (mask_path mask)
    pub below_root : mask_path mask ≢ root

  mask_existing-Masked :
      (path : FilePath) (m : Metadata) (answer : Option MaskPath)
      → fs.symlink_metadata path ≡ ok m
      → mask_existing fs path m ≡ ok answer
      → (mask : MaskPath) × (answer ≡ some mask) × Masked path mask
  unfolding mask_existing
  mask_existing-Masked path m answer e h =
      let (a, h1) = guard_ok (is_symlink m) _ _ answer h in
      let (resolved, c, h2) =
        bind_ok (canonical_existing_path_without_symlinks fs path "hidden path") _ answer h1 in
      let (b, h3) = guard_ok (resolved == root) _ _ answer h2 in
      let mask = if is_dir m then directory_mask resolved else file_mask resolved in
      let same : mask_path mask ≡ resolved = ground arith in
      (
        mask,
        sym (ok_injective h3),
        record {
          metadata = m;
          found = e;
          real = a;
          resolved =
              canonical_existing_path_without_symlinks-canonicalize fs path "hidden path" resolved c
              ∙ ap ok (sym same);
          below_root = λ r. ground (arith, list_beq_iff resolved root, sym same ∙ r);
        },
      )

  -- A hidden path that is not there needs no mask, any other gets one.
  pub make_mask-Masked :
      (path : FilePath) (answer : Option MaskPath)
      → make_mask fs path ≡ ok answer
      → ((answer ≡ none) × (fs.symlink_metadata path ≡ err not_found))
        ⊎ ((mask : MaskPath) × (answer ≡ some mask) × Masked path mask)
  unfolding make_mask
  make_mask-Masked path answer h = elim (Result-cases (fs.symlink_metadata path)) [
    | inl (m, e) ↦ inr (mask_existing-Masked path m answer e (rw (e, make_mask) at h))
    | inr (x, e) ↦ inl (ground arith, ground arith)
  ]

  -- A runtime mount is what the kernel canonicalizes its place to, and not the root.
  abbrev pub IsRuntimeMount : BindMount → Type 0
  IsRuntimeMount mount =
      (fs.canonicalize mount.destination ≡ ok mount.source) × (mount.source ≢ root)

  runtime_mount_at-IsRuntimeMount :
      (path : FilePath) (m : Metadata) (mount : BindMount)
      → runtime_mount_at fs path m ≡ ok (some mount)
      → (mount.destination ≡ path) × IsRuntimeMount mount
  unfolding runtime_mount_at
  runtime_mount_at-IsRuntimeMount path m mount h =
      let (d, h1) = guard_ok (not (is_dir m)) _ _ (some mount) h in
      let (source, c, h2) =
        bind_ok
          (map_err (fs.canonicalize path)
            (λ _. io "could not canonicalize runtime path" (at_path path)))
          _ (some mount) h1 in
      let (r, h3) = guard_ok (source == root) _ _ (some mount) h2 in
      let same : some (record { source = source; destination = path }) ≡ some mount =
        ok_injective h3 in
      let at : path ≡ mount.destination = cc in
      let from : source ≡ mount.source = cc in
      (
        sym at,
        (
          subst (λ p. fs.canonicalize p ≡ ok mount.source) at
              (map_err_ok (fs.canonicalize path) _ source c ∙ ap ok from),
          λ q. ground (arith, list_beq_iff source root, from ∙ q),
        ),
      )

  runtime_mount-IsRuntimeMount :
      (required : Bool) (path : FilePath) (mount : BindMount)
      → runtime_mount fs required path ≡ ok (some mount)
      → (mount.destination ≡ path) × IsRuntimeMount mount
  unfolding runtime_mount
  runtime_mount-IsRuntimeMount required path mount h = elim (Result-cases (fs.metadata path)) [
    | inr (x, e) ↦ absurd (ground arith)
    | inl (m, e) ↦ runtime_mount_at-IsRuntimeMount path m mount (rw (e, runtime_mount) at h)
  ]

  -- A required path is never left out.
  runtime_mount-required : (path : FilePath) → runtime_mount fs true path ≢ ok none
  unfolding runtime_mount runtime_mount_at
  runtime_mount-required path h = ground arith

  mapped-IsRuntimeMount :
      (required : Bool) (paths : List FilePath) (answers : List (Option BindMount))
      (mount : BindMount)
      → try_map (runtime_mount fs required) paths ≡ ok answers
      → In mount (flatten_options answers)
      → IsRuntimeMount mount × In mount.destination paths
  mapped-IsRuntimeMount required paths answers mount h m =
      let (path, i, e) =
        (try_map-In (runtime_mount fs required) paths answers h).0 (some mount)
          (flatten_options-In answers mount m) in
      let (at, r) = runtime_mount-IsRuntimeMount required path mount e in
      (r, subst (λ p. In p paths) (sym at) i)

  pub runtime_mounts-IsRuntimeMount :
      (mounts : List BindMount) (mount : BindMount)
      → runtime_mounts fs ≡ ok mounts
      → In mount mounts
      → IsRuntimeMount mount
        × In mount.destination (required_runtime_paths ++ optional_runtime_paths)
  unfolding runtime_mounts
  runtime_mounts-IsRuntimeMount mounts mount h m =
      let (firsts, a, h1) =
        bind_ok (try_map (runtime_mount fs true) required_runtime_paths) _ mounts h in
      let (others, b, h2) =
        bind_ok (try_map (runtime_mount fs false) optional_runtime_paths) _ mounts h1 in
      elim (append-In (flatten_options firsts) (flatten_options others) mount
        (subst (In mount) (sym (ok_injective h2)) m)) [
          | inl i ↦
              let (r, d) = mapped-IsRuntimeMount true required_runtime_paths firsts mount a i in
              (r, In-append required_runtime_paths optional_runtime_paths mount.destination (inl d))
          | inr i ↦
              let (r, d) = mapped-IsRuntimeMount false optional_runtime_paths others mount b i in
              (r, In-append required_runtime_paths optional_runtime_paths mount.destination (inr d))
        ]

  -- What `canonical_existing_dir` or the like found for a list of paths.
  pub mapped-canonicalize :
      (f : FilePath → CageResult FilePath)
      → ((p q : FilePath) → f p ≡ ok q → fs.canonicalize p ≡ ok q)
      → (paths found : List FilePath) → try_map f paths ≡ ok found
      → (p : FilePath) → In p paths
      → (q : FilePath) × In q found × (fs.canonicalize p ≡ ok q)
  mapped-canonicalize f c paths found h p m =
      let (q, i, e) = (try_map-In f paths found h).1 p m in (q, i, c p q e)

  pub mapped-asked :
      (f : FilePath → CageResult FilePath)
      → ((p q : FilePath) → f p ≡ ok q → fs.canonicalize p ≡ ok q)
      → (paths found : List FilePath) → try_map f paths ≡ ok found
      → (q : FilePath) → In q found
      → (p : FilePath) × In p paths × (fs.canonicalize p ≡ ok q)
  mapped-asked f c paths found h q m =
      let (p, i, e) = (try_map-In f paths found h).0 q m in (p, i, c p q e)
