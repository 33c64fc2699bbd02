-- ===== src/Linux/CargoHome/Laws.antt =====
-- What the checks of the Cargo home and its caches accept.
use cargo_cage.Base.{
  ◌≡◌, ◌≢◌, refl, sym, subst, inl, inr, not, ◌||◌, some, List, [], ◌∷◌, ◌++◌, ok, In, In-append,
  Result-cases, bind_ok, guard_ok, ok_injective, if_split, try_map, try_map-In, any, any_iff, arith,
  ◌==◌, list_eq, list_beq_iff, if◌then◌else◌,
}
use cargo_cage.Os.Text.{bytes}
use cargo_cage.Os.FilePath.{FilePath, path_of, root, join, starts_with, component_eq}
use cargo_cage.Os.FilePath.Laws.{starts_with_iff, starts_with_refl}
use cargo_cage.Os.Fs.{Metadata, is_symlink, is_dir}
use cargo_cage.Core.Paths.{canonical_existing_path_without_symlinks}
use cargo_cage.Linux.Overlap.{
  BindMount, MaskPath, validate_cache_source_policy, validate_cargo_home_mount_location,
}
use cargo_cage.Linux.Overlap.Shared.{Below, SharesPath}
use cargo_cage.Linux.Overlap.Caches.{validate_cargo_home_mount_location-apart}
use cargo_cage.Linux.Sources.Laws.{flatten_options-In}
use cargo_cage.Linux.Tree.Validate.{Host, validate_cache_tree}
use cargo_cage.Linux.CargoHome.{check_cache, cache_at, validate_cargo_cache_paths, with_cargo_home}

module _ (host : Host) (writable : List FilePath) (hidden : List MaskPath) where
  abbrev pub IsAccepted : FilePath → Type 0
  IsAccepted c =
      (validate_cache_source_policy c writable hidden ≡ ok tt)
      × (validate_cache_tree host c ≡ ok tt)

  check_cache-IsAccepted :
      (path : FilePath) (m : Metadata) (c : FilePath)
      → check_cache host writable hidden path m ≡ ok (some c)
      → IsAccepted c
  unfolding check_cache
  check_cache-IsAccepted path m c h =
      let (a, h1) = guard_ok (is_symlink m) _ _ (some c) h in
      let (b, h2) = guard_ok (not (is_dir m)) _ _ (some c) h1 in
      let (d, k, h3) =
        bind_ok (canonical_existing_path_without_symlinks host.fs path "Cargo cache") _ (some c)
          h2 in
      let (u, p, h4) = bind_ok (validate_cache_source_policy d writable hidden) _ (some c) h3 in
      let (v, t, h5) = bind_ok (validate_cache_tree host d) _ (some c) h4 in
      let same : some d ≡ some c = ok_injective h5 in
      let it : d ≡ c = cc in subst IsAccepted it (p, t)

  cache_at-IsAccepted :
      (path c : FilePath) → cache_at host writable hidden path ≡ ok (some c) → IsAccepted c
  unfolding cache_at
  cache_at-IsAccepted path c h = elim (Result-cases (host.fs.symlink_metadata path)) [
    | inl (m, e) ↦ check_cache-IsAccepted path m c (rw (e, cache_at) at h)
    | inr (x, e) ↦ absurd (ground arith)
  ]

  pub validate_cargo_cache_paths-IsAccepted :
      (cargo_home : FilePath) (caches : List FilePath) (c : FilePath)
      → validate_cargo_cache_paths host cargo_home writable hidden ≡ ok caches
      → In c caches
      → IsAccepted c
  unfolding validate_cargo_cache_paths
  validate_cargo_cache_paths-IsAccepted cargo_home caches c h i =
      let places =
        join cargo_home (path_of (bytes "registry"))
        ∷ join cargo_home (path_of (bytes "git"))
        ∷ [] in
      let (found, e, h1) = bind_ok (try_map (cache_at host writable hidden) places) _ caches h in
      let (p, j, a) =
        (try_map-In (cache_at host writable hidden) places found e).0 (some c)
          (flatten_options-In found c (subst (In c) (sym (ok_injective h1)) i)) in
      cache_at-IsAccepted p c a

-- A path that is put among the private ones, unless one of them covers it.
covered :
    (private : List FilePath) (path : FilePath) (paths : List FilePath)
    → (if any (λ p. path == p || starts_with path p) private then private else private ++ path ∷ [])
      ≡ paths
    → ((p : FilePath) × In p paths × Below path p) × ((p : FilePath) → In p private → In p paths)
covered private path paths h = elim (if_split _ private (private ++ path ∷ []) paths h) [
  | inl (e, same) ↦
      let (p, i, q) = (any_iff (λ p. path == p || starts_with path p) private).0 e in
      (
        (
          p,
          subst (In p) same i,
          (starts_with_iff path p).0
              (ground (arith, q, list_beq_iff path p, starts_with_refl path)),
        ),
        λ p i. subst (In p) same i,
      )
  | inr (e, same) ↦ (
    (
      path,
      subst (In path) same (In-append private (path ∷ []) path (inr (inl refl))),
      (starts_with_iff path path).0 (starts_with_refl path),
    ),
    λ p i. subst (In p) same (In-append private (path ∷ []) p (inl i)),
  )
]

-- The Cargo home is below a private path afterwards, and no read-only path shares a file with it.
pub with_cargo_home-private :
    (runtime : List BindMount) (read_only private : List FilePath) (cargo_home : FilePath)
    (paths : List FilePath)
    → with_cargo_home runtime read_only private cargo_home ≡ ok paths
    → (cargo_home ≢ root)
      × ((p : FilePath) × In p paths × Below cargo_home p)
      × ((v : FilePath) → In v read_only → ¬ SharesPath cargo_home v)
      × ((p : FilePath) → In p private → In p paths)
unfolding with_cargo_home validate_cargo_home_mount_location
with_cargo_home-private runtime read_only private cargo_home paths h =
    let (r, h1) = guard_ok (cargo_home == root) _ _ paths h in
    let (u, l, h2) = bind_ok (validate_cargo_home_mount_location cargo_home read_only) _ paths h1 in
    let (c, h3) =
      guard_ok
        (any (λ m. cargo_home == m.destination || starts_with m.destination cargo_home) runtime) _ _
        paths h2 in
    let ((p, i, b), kept) = covered private cargo_home paths (ok_injective h3) in
    (
      λ q. ground (arith, list_beq_iff cargo_home root, q),
      (p, i, b),
      validate_cargo_home_mount_location-apart cargo_home read_only l,
      kept,
    )
