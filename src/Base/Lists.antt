-- ===== src/Base/Lists.antt =====
-- Lists: lengths by native numbers, Boolean searches, and predicates by recursion.
use Prim.Native.Nat.{ℕ, zero, suc, ◌+◌}
use mathlib.Core.Path.{◌≡◌, refl}
use mathlib.Core.Logic.{◌↔◌, ◌⊎◌, inl, inr}
use mathlib.Core.Bool.{Bool, true, false, ◌&&◌, ◌||◌}
use mathlib.Core.Option.{Option, none, some}
use mathlib.Core.List.{List, [], ◌∷◌, ◌++◌}
use native.Mathlib.Omega.{arith}
use cargo_cage.Base.Logic.{Bool-cases, or_iff}

module _ {ℓ} {A : Type ℓ} where
  abbrev pub length : List A → ℕ
  length [] = 0
  length (x ∷ xs) = suc (length xs)

  abbrev pub get_elem? : List A → ℕ → Option A
  get_elem? [] i = none
  get_elem? (x ∷ xs) zero = some x
  get_elem? (x ∷ xs) (suc i) = get_elem? xs i

  pub length-append : (xs ys : List A) → length (xs ++ ys) ≡ length xs + length ys
  length-append [] ys = omega arith
  length-append (x ∷ xs) ys = omega (arith, length-append xs ys)

  -- `iter().any` and `iter().all`
  abbrev pub any : (A → Bool) → List A → Bool
  any p [] = false
  any p (x ∷ xs) = p x || any p xs

  abbrev pub all : (A → Bool) → List A → Bool
  all p [] = true
  all p (x ∷ xs) = p x && all p xs

  -- `iter().filter`, and `iter().find`
  abbrev pub keep : (A → Bool) → List A → List A
  keep p [] = []
  keep p (x ∷ xs) = let rest = keep p xs in elim (p x) [ true ↦ x ∷ rest | false ↦ rest ]

  abbrev pub find : (A → Bool) → List A → Option A
  find p [] = none
  find p (x ∷ xs) = let rest = find p xs in elim (p x) [ true ↦ some x | false ↦ rest ]

  abbrev pub All {κ} : (A → Type κ) → List A → Type κ
  All P [] = Unit
  All P (x ∷ xs) = P x × All P xs

-- A member, by its place.
abbrev pub In : {A : Type 0} → A → List A → Type 0
In a [] = ⊥
In a (x ∷ xs) = (a ≡ x) ⊎ In a xs

pub All-at {κ} : {A : Type 0} (P : A → Type κ) (xs : List A) {a : A} → All P xs → In a xs → P a
All-at P [] h m = absurd m
All-at P (x ∷ xs) h (inl e) = rw e h.0
All-at P (x ∷ xs) h (inr m) = All-at P xs h.1 m

pub All-of {κ} : {A : Type 0} (P : A → Type κ) (xs : List A) → ((a : A) → In a xs → P a) → All P xs
All-of P [] h = tt
All-of P (x ∷ xs) h = (h x (inl refl), All-of P xs (λ a m. h a (inr m)))

pub All-pointwise {ℓ κ μ} :
    {A : Type ℓ} {P : A → Type κ} {Q : A → Type μ} (xs : List A)
    → ((a : A) → P a ↔ Q a)
    → All P xs ↔ All Q xs
All-pointwise [] h = (λ x. tt, λ x. tt)
All-pointwise (x ∷ xs) h =
    let rest = All-pointwise xs h in
    (λ (p, ps). ((h x).0 p, rest.0 ps), λ (q, qs). ((h x).1 q, rest.1 qs))

any-In :
    {A : Type 0} (p : A → Bool) (xs : List A) → any p xs ≡ true → (a : A) × In a xs × (p a ≡ true)
any-In p [] h = cc
any-In p (x ∷ xs) h = elim (Bool-cases (p x)) [
  | inl e ↦ (x, inl refl, e)
  | inr e ↦ let (a, m, q) = any-In p xs (rw e at h) in (a, inr m, q)
]

In-any : {A : Type 0} (p : A → Bool) (xs : List A) {a : A} → In a xs → p a ≡ true → any p xs ≡ true
In-any p [] m h = absurd m
In-any p (x ∷ xs) (inl e) h = rw (← e, h)
In-any p (x ∷ xs) (inr m) h = (or_iff (p x) (any p xs)).1 (inr (In-any p xs m h))

pub any_iff :
    {A : Type 0} (p : A → Bool) (xs : List A)
    → (any p xs ≡ true) ↔ ((a : A) × In a xs × (p a ≡ true))
any_iff p xs = (any-In p xs, λ (a, m, h). In-any p xs m h)

-- No member passes the test that `any` refuses.
pub any-false :
    {A : Type 0} (p : A → Bool) (xs : List A) {a : A} → any p xs ≡ false → In a xs → p a ≡ false
any-false p [] h m = absurd m
any-false p (x ∷ xs) h (inl e) = rw e (ground arith)
any-false p (x ∷ xs) h (inr m) = any-false p xs (ground arith) m

pub all_iff :
    {A : Type 0} (p : A → Bool) (xs : List A) → (all p xs ≡ true) ↔ All (λ x. p x ≡ true) xs
all_iff p [] = (λ h. tt, λ h. refl)
all_iff p (x ∷ xs) = ground (arith, all_iff p xs)

-- What is found is a member that passes the test, and if nothing is, no member does.
pub find-none :
    {A : Type 0} (p : A → Bool) (xs : List A) {a : A} → find p xs ≡ none → In a xs → p a ≡ false
find-none p [] h m = absurd m
find-none p (x ∷ xs) h (inl e) = rw e (ground arith)
find-none p (x ∷ xs) h (inr m) = find-none p xs (ground arith) m

-- A member of a list with one more element at its end.
pub In-snoc : {A : Type 0} (xs : List A) (a b : A) → In a (xs ++ b ∷ []) → In a xs ⊎ (a ≡ b)
In-snoc [] a b (inl e) = inr e
In-snoc [] a b (inr m) = absurd m
In-snoc (x ∷ xs) a b (inl e) = inl (inl e)
In-snoc (x ∷ xs) a b (inr m) = elim (In-snoc xs a b m) [ inl i ↦ inl (inr i) | inr e ↦ inr e ]

pub append-In : {A : Type 0} (xs ys : List A) (a : A) → In a (xs ++ ys) → In a xs ⊎ In a ys
append-In [] ys a m = inr m
append-In (x ∷ xs) ys a (inl e) = inl (inl e)
append-In (x ∷ xs) ys a (inr m) = elim (append-In xs ys a m) [ inl i ↦ inl (inr i) | inr i ↦ inr i ]

pub In-append : {A : Type 0} (xs ys : List A) (a : A) → In a xs ⊎ In a ys → In a (xs ++ ys)
In-append [] ys a (inl m) = absurd m
In-append [] ys a (inr m) = m
In-append (x ∷ xs) ys a (inl (inl e)) = inl e
In-append (x ∷ xs) ys a (inl (inr i)) = inr (In-append xs ys a (inl i))
In-append (x ∷ xs) ys a (inr i) = inr (In-append xs ys a (inr i))

not_both : (b : Bool) → b ≡ false → ¬ (b ≡ true)
not_both b e h = ground arith

-- Filtering keeps the members that pass the test.
pub In-keep :
    {A : Type 0} (p : A → Bool) (xs : List A) (a : A) → In a (keep p xs) ↔ (In a xs × (p a ≡ true))
In-keep p [] a = ground arith
In-keep p (x ∷ xs) a = elim (Bool-cases (p x)) [
  | inl e ↦
      rw (e, In, keep)
        (
          elim [
            | inl q ↦ (inl q, rw q e)
            | inr m ↦ let (i, h) = (In-keep p xs a).0 m in (inr i, h)
          ],
          λ (m, h). elim m [ inl q ↦ inl q | inr i ↦ inr ((In-keep p xs a).1 (i, h)) ],
        )
  | inr e ↦
      rw (e, In, keep)
        (
          (λ m. let (i, h) = (In-keep p xs a).0 m in (inr i, h)),
          λ (m, h). elim m [
            | inl q ↦ absurd (not_both (p x) e (rw q at h))
            | inr i ↦ (In-keep p xs a).1 (i, h)
          ],
        )
]
