-- ===== src/Linux/Tree/Hardlinks.antt =====
-- cage-linux/src/tree.rs: `validate_hardlink_aliases`. The `HashMap` is an association list. A count
-- is at most the number of files in memory, so that the `u64` never wraps.
use Prim.Native.String.{◌++◌ as ◌<>◌}
use cargo_cage.Base.{
  ℕ, suc, ◌+◌, ◌≡◌, ◌↔◌, String, Bool, not, ◌&&◌, List, [], ◌∷◌, arith, ok, reject_if, for_each,
  for_each-ok, if◌then◌else◌, nat_beq, All, All-pointwise,
}
use cargo_cage.Os.FilePath.{FilePath}
use cargo_cage.Os.Fs.{Metadata}
use cargo_cage.Core.Error.{CageResult, policy, at_path}

-- `(metadata.dev(), metadata.ino())`
abbrev Identity : Type 0
Identity = ℕ × ℕ

identity : Metadata → Identity
identity metadata = (metadata.dev, metadata.ino)

same_identity : Identity → Identity → Bool
same_identity (dev, ino) (dev', ino') = nat_beq dev dev' && nat_beq ino ino'

-- `*counts.entry(identity).or_insert(0) += 1`
add_count : Identity → List (Identity × ℕ) → List (Identity × ℕ)
unfolding same_identity
add_count key [] = (key, 1) ∷ []
add_count key ((other, n) ∷ counts) =
    let rest = (other, n) ∷ add_count key counts in
    if same_identity other key then (other, n + 1) ∷ counts else rest

count_all : List (FilePath × Metadata) → List (Identity × ℕ) → List (Identity × ℕ)
unfolding add_count identity
count_all [] counts = counts
count_all ((path, metadata) ∷ files) counts = count_all files (add_count (identity metadata) counts)

-- `counts[&identity]`, for which a missing key is impossible: every file was counted.
count_at : List (Identity × ℕ) → Identity → ℕ
unfolding same_identity
count_at [] key = 0
count_at ((other, n) ∷ counts) key =
    let rest = count_at counts key in if same_identity other key then n else rest

-- The second loop, for one file.
check_links : List (Identity × ℕ) → String → FilePath × Metadata → CageResult (Unit {0})
check_links counts label (path, metadata) =
    reject_if (not (nat_beq metadata.nlink (count_at counts (identity metadata)))) (
      policy (at_path path)
        (label <> " contains a hardlink with an alias outside the validated tree"))

unfoldable pub validate_hardlink_aliases :
    List (FilePath × Metadata) → String → CageResult (Unit {0})
unfolding count_all count_at identity for_each check_links
validate_hardlink_aliases files label = for_each (check_links (count_all files []) label) files

-- How many of the files are names of this file.
unfoldable pub names_of : ℕ → ℕ → List (FilePath × Metadata) → ℕ
names_of dev ino [] = 0
names_of dev ino ((path, metadata) ∷ files) =
    let rest = names_of dev ino files in
    if nat_beq metadata.dev dev && nat_beq metadata.ino ino then suc rest else rest

-- Counting one more name adds one to its own count, and leaves the others.
count_at-add_count :
    (key other : Identity) (counts : List (Identity × ℕ))
    → count_at (add_count key counts) other
      ≡ (if same_identity key other then suc (count_at counts other) else count_at counts other)
unfolding count_at add_count same_identity
count_at-add_count key other [] = ground arith
count_at-add_count key other ((first, n) ∷ counts) =
    ground (arith, count_at-add_count key other counts)

count_at-count_all :
    (files : List (FilePath × Metadata)) (counts : List (Identity × ℕ)) (dev ino : ℕ)
    → count_at (count_all files counts) (dev, ino)
      ≡ count_at counts (dev, ino) + names_of dev ino files
unfolding count_all names_of identity same_identity
count_at-count_all [] counts dev ino = omega arith
count_at-count_all ((path, metadata) ∷ files) counts dev ino = ground (
  arith,
  count_at-count_all files (add_count (identity metadata) counts) dev ino,
  count_at-add_count (identity metadata) (dev, ino) counts,
)

check_links-ok :
    (files : List (FilePath × Metadata)) (label : String) (file : FilePath × Metadata)
    → (check_links (count_all files []) label file ≡ ok tt)
      ↔ (file.1.nlink ≡ names_of file.1.dev file.1.ino files)
unfolding check_links identity count_at
check_links-ok files label (path, metadata) =
    ground (arith, count_at-count_all files [] metadata.dev metadata.ino)

-- The check passes exactly when every file has all its names among the files.
pub validate_hardlink_aliases-ok :
    (files : List (FilePath × Metadata)) (label : String)
    → (validate_hardlink_aliases files label ≡ ok tt)
      ↔ All (λ file. file.1.nlink ≡ names_of file.1.dev file.1.ino files) files
unfolding validate_hardlink_aliases
validate_hardlink_aliases-ok files label =
    let loop = for_each-ok (check_links (count_all files []) label) files in
    let each = All-pointwise files (check_links-ok files label) in
    (λ h. each.0 (loop.0 h), λ h. loop.1 (each.1 h))
