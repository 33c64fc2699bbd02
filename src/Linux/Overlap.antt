-- ===== src/Linux/Overlap.antt =====
-- cage-linux/src/backend.rs: the checks that keep writable, read-only, private and hidden paths of
-- a plan apart.
pub mod Shared
pub mod Laws
pub mod Caches
use cargo_cage.Base.{
  Bool, true, not, ◌&&◌, ◌||◌, List, [], ◌∷◌, none, some, ok, err, ◌>>=◌, ◌>>◌, reject_if, for_each,
  ◌==◌, list_eq, list_beq, any, find,
}
use cargo_cage.Os.FilePath.{FilePath, root, starts_with, component_eq, component_beq}
use cargo_cage.Core.Error.{CageResult, policy, policy_about, at_path}

pub record BindMount : Type 0 where
  pub source : FilePath
  pub destination : FilePath

pub data MaskPath : Type 0 where
  directory_mask file_mask : FilePath → MaskPath

abbrev pub mask_path : MaskPath → FilePath
mask_path (directory_mask path) = path
mask_path (file_mask path) = path

unfoldable pub paths_overlap : FilePath → FilePath → Bool
unfolding starts_with list_beq component_beq
paths_overlap first second = first == second || starts_with first second || starts_with second first

unfoldable pub is_reexposed_below_private : FilePath → FilePath → List FilePath → Bool
unfolding starts_with
is_reexposed_below_private path private_path read_only_paths =
    any (λ visible. starts_with path visible && starts_with visible private_path) read_only_paths

unfoldable pub validate_cargo_home_mount_location : FilePath → List FilePath → CageResult (Unit {0})
unfolding paths_overlap
validate_cargo_home_mount_location cargo_home read_only_paths =
    elim (find (paths_overlap cargo_home) read_only_paths) [
      | none ↦ ok tt
      | some read_only ↦ err (
          policy_about (at_path cargo_home)
            "CARGO_HOME overlaps the read-only mount; mounting that workspace or toolchain path would re-expose Cargo caches"
            read_only)
    ]

check_cache_hidden : FilePath → List MaskPath → CageResult (Unit {0})
check_cache_hidden cache hidden_paths =
    elim (find (λ hidden. paths_overlap cache (mask_path hidden)) hidden_paths) [
      | none ↦ ok tt
      | some hidden ↦ err (
          policy_about (at_path cache) "a Cargo cache must not overlap hidden path"
            (mask_path hidden))
    ]

unfoldable pub validate_cache_source_policy :
    FilePath → List FilePath → List MaskPath → CageResult (Unit {0})
unfolding paths_overlap check_cache_hidden
validate_cache_source_policy cache writable_paths hidden_paths =
    elim (find (paths_overlap cache) writable_paths) [
      | none ↦ check_cache_hidden cache hidden_paths
      | some writable ↦ err (
          policy_about (at_path cache) "a read-only Cargo cache must not overlap writable path"
            writable)
    ]

-- The three inner loops of `validate_writable_paths`.
check_hidden : FilePath → MaskPath → CageResult (Unit {0})
unfolding starts_with
check_hidden writable mask = do
  reject_if (writable == mask_path mask || starts_with writable (mask_path mask)) (
      policy_about (at_path writable) "the writable path is hidden by policy path" (mask_path mask))
  reject_if (starts_with (mask_path mask) writable) (
      policy_about (at_path writable) "the writable path would re-expose hidden path"
        (mask_path mask))

check_visible : FilePath → FilePath → CageResult (Unit {0})
unfolding starts_with
check_visible writable visible =
    reject_if (writable == visible || starts_with visible writable)
      (policy_about (at_path writable) "the writable path would re-expose read-only path" visible)

check_private : List FilePath → FilePath → FilePath → CageResult (Unit {0})
unfolding paths_overlap is_reexposed_below_private
check_private read_only writable private_path =
    reject_if
      (paths_overlap writable private_path
        && not (is_reexposed_below_private writable private_path read_only))
      (policy_about (at_path writable) "the writable path overlaps private filesystem" private_path)

check_writable : List MaskPath → List FilePath → List FilePath → FilePath → CageResult (Unit {0})
unfolding check_hidden check_visible check_private for_each
check_writable hidden private read_only writable = do
  reject_if (writable == root) (policy (at_path writable) "the filesystem root cannot be writable")
  for_each (check_hidden writable) hidden
  for_each (check_visible writable) read_only
  for_each (check_private read_only writable) private

unfoldable pub validate_writable_paths :
    List FilePath → List MaskPath → List FilePath → List FilePath → CageResult (Unit {0})
unfolding check_writable
validate_writable_paths paths hidden private read_only =
    for_each (check_writable hidden private read_only) paths

-- The two inner loops of `validate_read_only_paths`.
check_not_over_private : FilePath → FilePath → CageResult (Unit {0})
unfolding starts_with
check_not_over_private visible private_path =
    reject_if (visible == private_path || starts_with private_path visible) (
      policy_about (at_path visible) "a read-only mount must not overlap private filesystem"
        private_path)

check_not_hidden : FilePath → MaskPath → CageResult (Unit {0})
unfolding paths_overlap
check_not_hidden visible hidden = reject_if (paths_overlap visible (mask_path hidden)) (
    policy_about (at_path visible) "a read-only mount would re-expose hidden path"
      (mask_path hidden))

check_read_only : List FilePath → List MaskPath → FilePath → CageResult (Unit {0})
unfolding check_not_over_private check_not_hidden for_each
check_read_only private hidden visible = do
  for_each (check_not_over_private visible) private
  for_each (check_not_hidden visible) hidden

unfoldable pub validate_read_only_paths :
    List FilePath → List FilePath → List MaskPath → CageResult (Unit {0})
unfolding check_read_only
validate_read_only_paths paths private hidden = for_each (check_read_only private hidden) paths
