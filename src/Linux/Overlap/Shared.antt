-- ===== src/Linux/Overlap/Shared.antt =====
-- Two paths overlap when a file can lie below both.
use cargo_cage.Base.{◌≡◌, ◌↔◌, ◌⊎◌, inl, inr, ◌++◌, true, arith, list_eq, list_beq_iff}
use cargo_cage.Os.FilePath.{FilePath, starts_with, component_eq}
use cargo_cage.Os.FilePath.Laws.{starts_with_iff, starts_with_refl, prefixes_nested}
use cargo_cage.Linux.Overlap.{paths_overlap}

-- `p` is `q` or lies below it.
abbrev pub Below : FilePath → FilePath → Type 0
Below p q = (r : FilePath) × (p ≡ q ++ r)

-- Some path lies below both.
abbrev pub SharesPath : FilePath → FilePath → Type 0
SharesPath p q = (r : FilePath) × Below r p × Below r q

overlap-nested :
    (p q : FilePath)
    → paths_overlap p q ≡ true
    → (starts_with p q ≡ true) ⊎ (starts_with q p ≡ true)
unfolding paths_overlap
overlap-nested p q h = ground (arith, list_beq_iff p q, starts_with_refl p)

nested-overlap :
    (p q : FilePath)
    → (starts_with p q ≡ true) ⊎ (starts_with q p ≡ true)
    → paths_overlap p q ≡ true
unfolding paths_overlap
nested-overlap p q h = ground (arith, list_beq_iff p q)

overlap-SharesPath : (p q : FilePath) → paths_overlap p q ≡ true → SharesPath p q
overlap-SharesPath p q h = elim (overlap-nested p q h) [
  | inl k ↦ (p, (starts_with_iff p p).0 (starts_with_refl p), (starts_with_iff p q).0 k)
  | inr k ↦ (q, (starts_with_iff q p).0 k, (starts_with_iff q q).0 (starts_with_refl q))
]

SharesPath-overlap : (p q : FilePath) → SharesPath p q → paths_overlap p q ≡ true
SharesPath-overlap p q (r, below_p, below_q) =
    nested-overlap p q
      (prefixes_nested r p q ((starts_with_iff r p).1 below_p) ((starts_with_iff r q).1 below_q))

-- Two paths overlap exactly when some path is, or lies below, both of them.
pub paths_overlap_iff : (p q : FilePath) → (paths_overlap p q ≡ true) ↔ SharesPath p q
paths_overlap_iff p q = (overlap-SharesPath p q, SharesPath-overlap p q)
