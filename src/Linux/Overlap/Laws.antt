-- ===== src/Linux/Overlap/Laws.antt =====
-- What the checks on the paths of a plan accept, in terms of the files below them.
use cargo_cage.Base.{
  ◌≡◌, ◌≢◌, ◌↔◌, true, false, ◌&&◌, List, ok, arith, list_eq, list_beq_iff, for_each, for_each-ok,
  In, All-at, All-of, any_iff, and_iff, not_true,
}
use cargo_cage.Os.FilePath.{FilePath, root, starts_with, component_eq}
use cargo_cage.Os.FilePath.Laws.{starts_with_iff, starts_with_refl}
use cargo_cage.Linux.Overlap.{
  MaskPath, mask_path, paths_overlap, is_reexposed_below_private, check_hidden, check_visible,
  check_private, check_writable, validate_writable_paths, check_not_over_private, check_not_hidden,
  check_read_only, validate_read_only_paths,
}
use cargo_cage.Linux.Overlap.Shared.{Below, SharesPath, paths_overlap_iff}

check_hidden-ok :
    (w : FilePath) (m : MaskPath)
    → (check_hidden w m ≡ ok tt) ↔ (paths_overlap w (mask_path m) ≡ false)
unfolding check_hidden paths_overlap
check_hidden-ok w m = ground arith

check_visible-ok : (w v : FilePath) → (check_visible w v ≡ ok tt) ↔ (starts_with v w ≡ false)
unfolding check_visible
check_visible-ok w v = ground (arith, list_beq_iff w v, starts_with_refl w)

check_private-ok :
    (read_only : List FilePath) (w p : FilePath)
    → (check_private read_only w p ≡ ok tt)
      ↔ (paths_overlap w p ≡ true → is_reexposed_below_private w p read_only ≡ true)
unfolding check_private
check_private-ok read_only w p = ground arith

-- A writable path is not the root, shares no file with a hidden path, has no read-only path at or
-- below it, and where it shares a file with a private path, a read-only path lies in between.
pub record IsWritableAllowed (hidden : List MaskPath) (private read_only : List FilePath)
    (w : FilePath) : Type 0 where
  pub not_root : w ≢ root
  pub apart_from_hidden : (m : MaskPath) → In m hidden → ¬ SharesPath w (mask_path m)
  pub not_above_read_only : (v : FilePath) → In v read_only → ¬ Below v w
  pub reexposed :
      (p : FilePath)
      → In p private
      → SharesPath w p
      → (v : FilePath) × In v read_only × Below w v × Below v p

reexposed_iff :
    (w p : FilePath) (read_only : List FilePath)
    → (is_reexposed_below_private w p read_only ≡ true)
      ↔ ((v : FilePath) × In v read_only × Below w v × Below v p)
unfolding is_reexposed_below_private
reexposed_iff w p read_only = (
  λ h.
      let (v, m, e) = (any_iff (λ v. starts_with w v && starts_with v p) read_only).0 h in
      let (a, b) = (and_iff (starts_with w v) (starts_with v p)).0 e in
      (v, m, (starts_with_iff w v).0 a, (starts_with_iff v p).0 b),
  λ (v, m, a, b).
      (any_iff (λ v. starts_with w v && starts_with v p) read_only).1
        (v, m, (and_iff _ _).1 ((starts_with_iff w v).1 a, (starts_with_iff v p).1 b)),
)

module _ (hidden : List MaskPath) (private read_only : List FilePath) (w : FilePath) where
  check_writable-parts : (check_writable hidden private read_only w ≡ ok tt) ↔ (
      (w ≢ root)
      × (for_each (check_hidden w) hidden ≡ ok tt)
      × (for_each (check_visible w) read_only ≡ ok tt)
      × (for_each (check_private read_only w) private ≡ ok tt))
  unfolding check_writable
  check_writable-parts = ground (arith, list_beq_iff w root)

  check_writable_sound :
      check_writable hidden private read_only w ≡ ok tt
      → IsWritableAllowed hidden private read_only w
  check_writable_sound h =
      let (not_root, hidden_ok, visible_ok, private_ok) = check_writable-parts.0 h in
      record {
        not_root = not_root;
        apart_from_hidden = λ m at shared. ground (
          arith,
          (check_hidden-ok w m).0
              (All-at _ hidden ((for_each-ok (check_hidden w) hidden).0 hidden_ok) at),
          (paths_overlap_iff w (mask_path m)).1 shared,
        );
        not_above_read_only = λ v at below. ground (
          arith,
          (check_visible-ok w v).0
              (All-at _ read_only ((for_each-ok (check_visible w) read_only).0 visible_ok) at),
          (starts_with_iff v w).1 below,
        );
        reexposed = λ p at shared. (reexposed_iff w p read_only).0 (
            (check_private-ok read_only w p).0
              (All-at _ private ((for_each-ok (check_private read_only w) private).0 private_ok) at)
              ((paths_overlap_iff w p).1 shared));
      }

  check_writable_complete :
      IsWritableAllowed hidden private read_only w
      → check_writable hidden private read_only w ≡ ok tt
  check_writable_complete allowed = check_writable-parts.1 (
    allowed.not_root,
    (for_each-ok (check_hidden w) hidden).1 (
        All-of _ hidden λ m at. (check_hidden-ok w m).1 (
          not_true _
            (λ e. allowed.apart_from_hidden m at ((paths_overlap_iff w (mask_path m)).0 e)))),
    (for_each-ok (check_visible w) read_only).1 (
        All-of _ read_only λ v at.
          (check_visible-ok w v).1
            (not_true _ (λ e. allowed.not_above_read_only v at ((starts_with_iff v w).0 e)))),
    (for_each-ok (check_private read_only w) private).1 (
        All-of _ private λ p at. (check_private-ok read_only w p).1 (λ e.
          (reexposed_iff w p read_only).1 (allowed.reexposed p at ((paths_overlap_iff w p).0 e)))),
  )

-- The check of the writable paths passes exactly when each of them is allowed beside the hidden,
-- private and read-only paths.
pub validate_writable_paths-ok :
    (paths : List FilePath) (hidden : List MaskPath) (private read_only : List FilePath)
    → (validate_writable_paths paths hidden private read_only ≡ ok tt)
      ↔ ((w : FilePath) → In w paths → IsWritableAllowed hidden private read_only w)
unfolding validate_writable_paths
validate_writable_paths-ok paths hidden private read_only = (
  λ h w at.
      check_writable_sound hidden private read_only w
        (All-at _ paths ((for_each-ok (check_writable hidden private read_only) paths).0 h) at),
  λ allowed.
      (for_each-ok (check_writable hidden private read_only) paths).1
        (All-of _ paths λ w at. check_writable_complete hidden private read_only w (allowed w at)),
)

-- A read-only path has no private path at or below it, and shares no file with a hidden path.
pub record IsReadOnlyAllowed (private : List FilePath) (hidden : List MaskPath) (v : FilePath)
    : Type 0 where
  pub not_over_private : (p : FilePath) → In p private → ¬ Below p v
  pub apart_from_hidden : (m : MaskPath) → In m hidden → ¬ SharesPath v (mask_path m)

check_not_over_private-ok :
    (v p : FilePath) → (check_not_over_private v p ≡ ok tt) ↔ (starts_with p v ≡ false)
unfolding check_not_over_private
check_not_over_private-ok v p = ground (arith, list_beq_iff v p, starts_with_refl v)

check_not_hidden-ok :
    (v : FilePath) (m : MaskPath)
    → (check_not_hidden v m ≡ ok tt) ↔ (paths_overlap v (mask_path m) ≡ false)
unfolding check_not_hidden
check_not_hidden-ok v m = ground arith

module _ (private : List FilePath) (hidden : List MaskPath) (v : FilePath) where
  check_read_only-parts : (check_read_only private hidden v ≡ ok tt) ↔ (
      (for_each (check_not_over_private v) private ≡ ok tt)
      × (for_each (check_not_hidden v) hidden ≡ ok tt))
  unfolding check_read_only
  check_read_only-parts = ground arith

  check_read_only_sound :
      check_read_only private hidden v ≡ ok tt → IsReadOnlyAllowed private hidden v
  check_read_only_sound h =
      let (private_ok, hidden_ok) = check_read_only-parts.0 h in
      record {
        not_over_private = λ p at below. ground (
          arith,
          (check_not_over_private-ok v p).0
              (All-at _ private ((for_each-ok (check_not_over_private v) private).0 private_ok) at),
          (starts_with_iff p v).1 below,
        );
        apart_from_hidden = λ m at shared. ground (
          arith,
          (check_not_hidden-ok v m).0
              (All-at _ hidden ((for_each-ok (check_not_hidden v) hidden).0 hidden_ok) at),
          (paths_overlap_iff v (mask_path m)).1 shared,
        );
      }

  check_read_only_complete :
      IsReadOnlyAllowed private hidden v → check_read_only private hidden v ≡ ok tt
  check_read_only_complete allowed = check_read_only-parts.1 (
    (for_each-ok (check_not_over_private v) private).1 (
        All-of _ private λ p at.
          (check_not_over_private-ok v p).1
            (not_true _ (λ e. allowed.not_over_private p at ((starts_with_iff p v).0 e)))),
    (for_each-ok (check_not_hidden v) hidden).1 (
        All-of _ hidden λ m at. (check_not_hidden-ok v m).1 (
          not_true _
            (λ e. allowed.apart_from_hidden m at ((paths_overlap_iff v (mask_path m)).0 e)))),
  )

-- The check of the read-only paths passes exactly when each of them is allowed beside the private
-- and hidden paths.
pub validate_read_only_paths-ok :
    (paths private : List FilePath) (hidden : List MaskPath)
    → (validate_read_only_paths paths private hidden ≡ ok tt)
      ↔ ((v : FilePath) → In v paths → IsReadOnlyAllowed private hidden v)
unfolding validate_read_only_paths
validate_read_only_paths-ok paths private hidden = (
  λ h v at.
      check_read_only_sound private hidden v
        (All-at _ paths ((for_each-ok (check_read_only private hidden) paths).0 h) at),
  λ allowed.
      (for_each-ok (check_read_only private hidden) paths).1
        (All-of _ paths λ v at. check_read_only_complete private hidden v (allowed v at)),
)
