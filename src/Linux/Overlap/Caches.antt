-- ===== src/Linux/Overlap/Caches.antt =====
-- What the checks of caches and of the Cargo home accept: they share no file with other paths.
use cargo_cage.Base.{◌≡◌, inl, inr, false, List, ok, In, Option-cases, find, find-none, arith}
use cargo_cage.Os.FilePath.{FilePath}
use cargo_cage.Linux.Overlap.{
  MaskPath, mask_path, paths_overlap, check_cache_hidden, validate_cache_source_policy,
  validate_cargo_home_mount_location,
}
use cargo_cage.Linux.Overlap.Shared.{SharesPath, paths_overlap_iff}

apart : (p q : FilePath) → paths_overlap p q ≡ false → ¬ SharesPath p q
apart p q h s = ground (arith, (paths_overlap_iff p q).1 s)

check_cache_hidden-apart :
    (c : FilePath) (hidden : List MaskPath)
    → check_cache_hidden c hidden ≡ ok tt
    → (m : MaskPath) → In m hidden
    → ¬ SharesPath c (mask_path m)
unfolding check_cache_hidden
check_cache_hidden-apart c hidden h m i =
    apart c (mask_path m) (find-none (λ m. paths_overlap c (mask_path m)) hidden (ground arith) i)

pub validate_cache_source_policy-apart :
    (c : FilePath) (writable : List FilePath) (hidden : List MaskPath)
    → validate_cache_source_policy c writable hidden ≡ ok tt
    → ((w : FilePath) → In w writable → ¬ SharesPath c w)
      × ((m : MaskPath) → In m hidden → ¬ SharesPath c (mask_path m))
unfolding validate_cache_source_policy
validate_cache_source_policy-apart c writable hidden h =
    elim (Option-cases (find (paths_overlap c) writable)) [
      | inl e ↦ (
        λ w i. apart c w (find-none (paths_overlap c) writable e i),
        check_cache_hidden-apart c hidden (rw (e, validate_cache_source_policy) at h),
      )
      | inr (w, e) ↦ absurd (ground arith)
    ]

pub validate_cargo_home_mount_location-apart :
    (cargo_home : FilePath) (read_only : List FilePath)
    → validate_cargo_home_mount_location cargo_home read_only ≡ ok tt
    → (v : FilePath) → In v read_only
    → ¬ SharesPath cargo_home v
unfolding validate_cargo_home_mount_location
validate_cargo_home_mount_location-apart cargo_home read_only h v i =
    apart cargo_home v (find-none (paths_overlap cargo_home) read_only (ground arith) i)
