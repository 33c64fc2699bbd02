-- ===== src/Base/Sorting.antt =====
-- `slice::sort_by_key`, a stable sort by a number, and `Vec::dedup`.
use Prim.Native.Nat.{ℕ, ◌≤◌}
use mathlib.Core.Path.{◌≡◌}
use mathlib.Core.Logic.{◌↔◌, ◌⊎◌, inl, inr}
use mathlib.Core.List.{List, [], ◌∷◌, Perm}
use mathlib.Core.List.Perm
use native.Mathlib.Omega.{arith}
use cargo_cage.Base.Logic.{leb, leb→le, if◌then◌else◌, Bool-cases}
use cargo_cage.Base.Lists.{All, In}
use cargo_cage.Base.Equality.{Eq, ◌==◌}

module _ {ℓ} {A : Type ℓ} (key : A → ℕ) where
  -- In front of the first element whose key is not smaller.
  unfoldable pub insert_by_key : A → List A → List A
  insert_by_key x [] = x ∷ []
  insert_by_key x (y ∷ ys) =
      let after = y ∷ insert_by_key x ys in if leb (key x) (key y) then x ∷ y ∷ ys else after

  unfoldable pub sort_by_key : List A → List A
  unfolding insert_by_key
  sort_by_key [] = []
  sort_by_key (x ∷ xs) = insert_by_key x (sort_by_key xs)

  -- Ascending by key.
  abbrev pub IsSortedByKey : List A → Type 0
  IsSortedByKey [] = Unit
  IsSortedByKey (x ∷ xs) = All (λ y. key x ≤ key y) xs × IsSortedByKey xs

  insert_by_key-perm : (x : A) (ys : List A) → Perm (insert_by_key x ys) (x ∷ ys)
  unfolding insert_by_key
  insert_by_key-perm x [] = Perm.refl (x ∷ [])
  insert_by_key-perm x (y ∷ ys) = elim (Bool-cases (leb (key x) (key y))) [
    | inl e ↦ rw e (Perm.refl (x ∷ y ∷ ys))
    | inr e ↦ rw e (Perm.trans (Perm.cons y (insert_by_key-perm x ys)) (Perm.swap x y ys))
  ]

  -- Sorting keeps the elements, each as often.
  pub sort_by_key-perm : (xs : List A) → Perm (sort_by_key xs) xs
  unfolding sort_by_key
  sort_by_key-perm [] = Perm.refl []
  sort_by_key-perm (x ∷ xs) =
      Perm.trans (insert_by_key-perm x (sort_by_key xs)) (Perm.cons x (sort_by_key-perm xs))

  insert_by_key-All {κ} :
      (P : A → Type κ) (x : A) (ys : List A) → P x → All P ys → All P (insert_by_key x ys)
  unfolding insert_by_key
  insert_by_key-All P x [] p h = (p, tt)
  insert_by_key-All P x (y ∷ ys) p h = elim (Bool-cases (leb (key x) (key y))) [
    | inl e ↦ rw e (p, h)
    | inr e ↦ rw e (h.0, insert_by_key-All P x ys p h.1)
  ]

  All-le :
      (x y : A) (ys : List A)
      → key x ≤ key y
      → All (λ z. key y ≤ key z) ys
      → All (λ z. key x ≤ key z) ys
  All-le x y [] h k = tt
  All-le x y (z ∷ ys) h k = (omega arith, All-le x y ys h k.1)

  insert_by_key-IsSortedByKey :
      (x : A) (ys : List A) → IsSortedByKey ys → IsSortedByKey (insert_by_key x ys)
  unfolding insert_by_key
  insert_by_key-IsSortedByKey x [] s = (tt, tt)
  insert_by_key-IsSortedByKey x (y ∷ ys) s = elim (Bool-cases (leb (key x) (key y))) [
    | inl e ↦ rw e ((leb→le _ _ e, All-le x y ys (leb→le _ _ e) s.0), s)
    | inr e ↦ rw e (
      insert_by_key-All (λ z. key y ≤ key z) x ys (ground arith) s.0,
      insert_by_key-IsSortedByKey x ys s.1,
    )
  ]

  pub sort_by_key-IsSortedByKey : (xs : List A) → IsSortedByKey (sort_by_key xs)
  unfolding sort_by_key
  sort_by_key-IsSortedByKey [] = tt
  sort_by_key-IsSortedByKey (x ∷ xs) =
      insert_by_key-IsSortedByKey x (sort_by_key xs) (sort_by_key-IsSortedByKey xs)

module _ {ℓ} {A : Type ℓ} ⦃e : Eq A⦄ where
  -- Of equal elements in a row the first is kept.
  unfoldable pub dedup : List A → List A
  dedup [] = []
  dedup (x ∷ []) = x ∷ []
  dedup (x ∷ y ∷ xs) = let rest = dedup (y ∷ xs) in if x == y then rest else x ∷ rest

-- Membership is the same before and after a sort.
pub insert_by_key-In :
    {A : Type 0} (key : A → ℕ) (x : A) (ys : List A) (a : A)
    → In a (insert_by_key key x ys) ↔ ((a ≡ x) ⊎ In a ys)
unfolding insert_by_key
insert_by_key-In key x [] a = (λ h. h, λ h. h)
insert_by_key-In key x (y ∷ ys) a = elim (Bool-cases (leb (key x) (key y))) [
  | inl e ↦ rw e (λ h. h, λ h. h)
  | inr e ↦ rw e (
    elim [
      | inl p ↦ inr (inl p)
      | inr q ↦ elim ((insert_by_key-In key x ys a).0 q) [ inl p ↦ inl p | inr r ↦ inr (inr r) ]
    ],
    elim [
      | inl p ↦ inr ((insert_by_key-In key x ys a).1 (inl p))
      | inr q ↦ elim q [ inl p ↦ inl p | inr r ↦ inr ((insert_by_key-In key x ys a).1 (inr r)) ]
    ],
  )
]

pub sort_by_key-In :
    {A : Type 0} (key : A → ℕ) (xs : List A) (a : A) → In a (sort_by_key key xs) ↔ In a xs
unfolding sort_by_key
sort_by_key-In key [] a = (λ h. h, λ h. h)
sort_by_key-In key (x ∷ xs) a = (
  λ h. elim ((insert_by_key-In key x (sort_by_key key xs) a).0 h) [
    | inl p ↦ inl p
    | inr q ↦ inr ((sort_by_key-In key xs a).0 q)
  ],
  λ h.
      (insert_by_key-In key x (sort_by_key key xs) a).1
        (elim h [ inl p ↦ inl p | inr q ↦ inr ((sort_by_key-In key xs a).1 q) ]),
)
