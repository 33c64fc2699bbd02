-- ===== src/Linux/Tree/Roots.antt =====
-- cage-linux/src/tree.rs: `unique_mount_roots`.
use cargo_cage.Base.{
  ◌≤◌, ◌≡◌, refl, ◌⊎◌, inl, inr, Bool, true, false, List, [], ◌∷◌, ◌++◌, arith, if◌then◌else◌,
  Bool-cases, ◌||◌, ◌↔◌, length, any, any_iff, any-false, All, All-at, All-of, In, sort_by_key,
  sort_by_key-In, sort_by_key-IsSortedByKey, In-snoc, IsSortedByKey, subst,
}
use cargo_cage.Os.FilePath.{FilePath, starts_with, component_eq, component_beq_iff}
use cargo_cage.Os.FilePath.Laws.{starts_with_refl, starts_with_trans, starts_with_antisymm}

-- The loop over the sorted paths: a path below a root that was found is left out.
add_roots : List FilePath → List FilePath → List FilePath
add_roots roots [] = roots
add_roots roots (path ∷ paths) =
    add_roots (if any (starts_with path) roots then roots else roots ++ path ∷ []) paths

unfoldable pub unique_mount_roots : List FilePath → List FilePath
unfolding add_roots
unique_mount_roots paths = add_roots [] (sort_by_key length paths)

-- A path that starts with another is at least as long.
starts_with-length : (p q : FilePath) → starts_with p q ≡ true → length q ≤ length p
unfolding starts_with
starts_with-length p [] h = omega arith
starts_with-length [] (d ∷ q) h = cc
starts_with-length (c ∷ p) (d ∷ q) h = ground (arith, starts_with-length p q)

-- A prefix that is not shorter is the whole path.
starts_with_not_shorter : (p q : FilePath) → starts_with p q ≡ true → length p ≤ length q → p ≡ q
unfolding starts_with
starts_with_not_shorter [] [] h k = refl
starts_with_not_shorter [] (d ∷ q) h k = cc
starts_with_not_shorter (c ∷ p) [] h k = absurd (omega arith)
starts_with_not_shorter (c ∷ p) (d ∷ q) h k =
    ground (arith, component_beq_iff c d, starts_with_not_shorter p q)

-- Every root comes from the roots before or from the paths.
add_roots-In :
    (roots paths : List FilePath) (r : FilePath)
    → In r (add_roots roots paths)
    → In r roots ⊎ In r paths
unfolding add_roots
add_roots-In roots [] r m = inl m
add_roots-In roots (path ∷ paths) r m = elim (Bool-cases (any (starts_with path) roots)) [
  | inl e ↦ elim (add_roots-In roots paths r (rw e at m)) [ inl i ↦ inl i | inr j ↦ inr (inr j) ]
  | inr e ↦ elim (add_roots-In (roots ++ path ∷ []) paths r (rw e at m)) [
    | inl i ↦ elim (In-snoc roots r path i) [ inl k ↦ inl k | inr q ↦ inr (inl q) ]
    | inr j ↦ inr (inr j)
  ]
]

any-append :
    {A : Type 0} (p : A → Bool) (xs ys : List A) → any p (xs ++ ys) ≡ (any p xs || any p ys)
any-append p [] ys = refl
any-append p (x ∷ xs) ys = ground (arith, any-append p xs ys)

-- What a root covers stays covered.
add_roots-any :
    (roots paths : List FilePath) (q : FilePath)
    → any (starts_with q) roots ≡ true
    → any (starts_with q) (add_roots roots paths) ≡ true
unfolding add_roots
add_roots-any roots [] q h = h
add_roots-any roots (path ∷ paths) q h = elim (Bool-cases (any (starts_with path) roots)) [
  | inl e ↦ rw e (add_roots-any roots paths q h)
  | inr e ↦ rw e (
      add_roots-any (roots ++ path ∷ []) paths q
        (rw (any-append (starts_with q) roots (path ∷ []), h) refl))
]

-- Every path of the loop is covered.
add_roots-covers :
    (roots paths : List FilePath) (q : FilePath)
    → In q paths
    → any (starts_with q) (add_roots roots paths) ≡ true
unfolding add_roots
add_roots-covers roots [] q m = absurd m
add_roots-covers roots (path ∷ paths) q (inr m) = elim (Bool-cases (any (starts_with path) roots)) [
  | inl e ↦ rw e (add_roots-covers roots paths q m)
  | inr e ↦ rw e (add_roots-covers (roots ++ path ∷ []) paths q m)
]
add_roots-covers roots (path ∷ paths) q (inl p) = elim (Bool-cases (any (starts_with path) roots)) [
  | inl e ↦ rw e (add_roots-any roots paths q (rw p e))
  | inr e ↦ rw e (
      add_roots-any (roots ++ path ∷ []) paths q (
        rw (any-append (starts_with q) roots (path ∷ []), p)
          (ground (arith, starts_with_refl path))))
]

-- No member lies below another one.
abbrev IsFlat : List FilePath → Type 0
IsFlat roots = (r s : FilePath) → In r roots → In s roots → starts_with r s ≡ true → r ≡ s

abbrev IsShorter : List FilePath → FilePath → Type 0
IsShorter roots path = (r : FilePath) → In r roots → length r ≤ length path

-- A root that no root covers, and that is as long as any, keeps them flat.
IsFlat-snoc :
    (roots : List FilePath) (path : FilePath)
    → IsFlat roots
    → IsShorter roots path
    → any (starts_with path) roots ≡ false
    → IsFlat (roots ++ path ∷ [])
IsFlat-snoc roots path flat short new r s i j h = elim (In-snoc roots r path i) [
  | inl m ↦ elim (In-snoc roots s path j) [
    | inl n ↦ flat r s m n h
    | inr q ↦ starts_with_not_shorter r s h (rw q (short r m))
  ]
  | inr p ↦ elim (In-snoc roots s path j) [
    | inl n ↦ let fails = any-false (starts_with path) roots new n in cc
    | inr q ↦ cc
  ]
]

add_roots-IsFlat :
    (roots paths : List FilePath)
    → IsFlat roots
    → All (IsShorter roots) paths
    → IsSortedByKey length paths
    → IsFlat (add_roots roots paths)
unfolding add_roots
add_roots-IsFlat roots [] flat short sorted = flat
add_roots-IsFlat roots (path ∷ paths) flat short sorted =
    elim (Bool-cases (any (starts_with path) roots)) [
      | inl e ↦ rw e (add_roots-IsFlat roots paths flat short.1 sorted.1)
      | inr e ↦ rw e (
          add_roots-IsFlat (roots ++ path ∷ []) paths (IsFlat-snoc roots path flat short.0 e)
            (All-of (IsShorter (roots ++ path ∷ [])) paths (λ p m r i.
              elim (In-snoc roots r path i) [
                | inl j ↦ All-at (IsShorter roots) paths short.1 m r j
                | inr q ↦ rw q (All-at (λ y. length path ≤ length y) paths sorted.0 m)
              ]))
            sorted.1)
    ]

unique_mount_roots-In :
    (paths : List FilePath) (r : FilePath) → In r (unique_mount_roots paths) → In r paths
unfolding unique_mount_roots
unique_mount_roots-In paths r m = elim (add_roots-In [] (sort_by_key length paths) r m) [
  | inl i ↦ absurd i
  | inr i ↦ (sort_by_key-In length paths r).0 i
]

unique_mount_roots-covers :
    (paths : List FilePath) (q : FilePath)
    → In q paths
    → (r : FilePath) × In r (unique_mount_roots paths) × (starts_with q r ≡ true)
unfolding unique_mount_roots
unique_mount_roots-covers paths q m =
    let sorted = sort_by_key length paths in
    (any_iff (starts_with q) (add_roots [] sorted)).0
      (add_roots-covers [] sorted q ((sort_by_key-In length paths q).1 m))

unique_mount_roots-IsFlat : (paths : List FilePath) → IsFlat (unique_mount_roots paths)
unfolding unique_mount_roots
unique_mount_roots-IsFlat paths =
    let sorted = sort_by_key length paths in
    add_roots-IsFlat [] sorted (λ r s i j h. absurd i)
      (All-of (IsShorter []) sorted (λ p m r i. absurd i)) (sort_by_key-IsSortedByKey length paths)

-- The roots are the paths that lie below no other path of the list.
pub unique_mount_roots_lem :
    (paths : List FilePath) (r : FilePath)
    → In r (unique_mount_roots paths)
      ↔ (In r paths × ((q : FilePath) → In q paths → starts_with r q ≡ true → q ≡ r))
unique_mount_roots_lem paths r = (
  λ m. (
    unique_mount_roots-In paths r m,
    λ q i h.
        let (s, j, k) = unique_mount_roots-covers paths q i in
        let e = unique_mount_roots-IsFlat paths r s m j (starts_with_trans r q s h k) in
        starts_with_antisymm q r (rw e k) h,
  ),
  λ (m, least).
      let (s, j, k) = unique_mount_roots-covers paths r m in
      let e = least s (unique_mount_roots-In paths s j) k in
      subst (λ t. In t (unique_mount_roots paths)) e j,
)
