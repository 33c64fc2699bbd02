-- ===== src/Base/Outcome.antt =====
-- Rust's `Result`, with `?` as bind, and loops that stop at the first error.
use mathlib.Core.Path.{◌≡◌, refl, sym, ap, ◌∙◌, subst}
use mathlib.Core.Logic.{◌↔◌, ◌⊎◌, ◌≢◌, inl, inr}
use mathlib.Core.Bool.{Bool, true, false}
use mathlib.Core.Option.{Option, none, some}
use mathlib.Core.List.{List, [], ◌∷◌}
use native.Mathlib.Omega.{arith}
use cargo_cage.Base.Lists.{All, In}

pub data Result {ℓ κ} (A : Type ℓ) (E : Type κ) : Type (ℓ ⊔ κ) where
  ok : A → Result A E
  err : E → Result A E

-- `?`: the first error ends the block.
infixl 5 ◌>>=◌ ◌>>◌
abbrev pub ◌>>=◌ {ℓ κ μ} :
    {E : Type μ} {A : Type ℓ} {B : Type κ} → Result A E → (A → Result B E) → Result B E
◌>>=◌ (err error) next = err error
◌>>=◌ (ok value) next = next value

abbrev pub ◌>>◌ {ℓ μ} : {E : Type μ} {B : Type ℓ} → Result (Unit {0}) E → Result B E → Result B E
◌>>◌ first second = first >>= λ done. second

-- `if test { return Err(e) }`
abbrev pub reject_if {ℓ} : {E : Type ℓ} → Bool → E → Result (Unit {0}) E
reject_if true e = err e
reject_if false e = ok tt

-- `ok_or_else`, `map_err`, `is_ok_and`
abbrev pub ok_or {ℓ κ} : {A : Type ℓ} {E : Type κ} → Option A → E → Result A E
ok_or none e = err e
ok_or (some a) e = ok a

abbrev pub map_err {ℓ κ μ} :
    {A : Type ℓ} {E : Type κ} {F : Type μ} → Result A E → (E → F) → Result A F
map_err (ok a) f = ok a
map_err (err e) f = err (f e)

abbrev pub is_ok_and {ℓ κ} : {A : Type ℓ} {E : Type κ} → Result A E → (A → Bool) → Bool
is_ok_and (ok a) p = p a
is_ok_and (err e) p = false

module _ {ℓ κ} {A : Type ℓ} {E : Type κ} where
  -- `for x in xs { f(x)?; }`
  unfoldable pub for_each : (A → Result (Unit {0}) E) → List A → Result (Unit {0}) E
  for_each f [] = ok tt
  for_each f (x ∷ xs) = f x >> for_each f xs

  pub for_each-ok :
      (f : A → Result (Unit {0}) E) (xs : List A)
      → (for_each f xs ≡ ok tt) ↔ All (λ x. f x ≡ ok tt) xs
  unfolding for_each
  for_each-ok f [] = (λ _. tt, λ _. refl)
  for_each-ok f (x ∷ xs) = ground (arith, for_each-ok f xs)

module _ {ℓ κ μ} {A : Type ℓ} {B : Type κ} {E : Type μ} where
  -- `iter().map(f).collect::<Result<Vec<_>, _>>()`
  unfoldable pub try_map : (A → Result B E) → List A → Result (List B) E
  try_map f [] = ok []
  try_map f (x ∷ xs) = do y ← f x; ys ← try_map f xs; ok (y ∷ ys)

pub Result-cases {ℓ κ} :
    {A : Type ℓ} {E : Type κ} (r : Result A E) → ((a : A) × (r ≡ ok a)) ⊎ ((e : E) × (r ≡ err e))
Result-cases (ok a) = inl (a, refl)
Result-cases (err e) = inr (e, refl)

-- A bind that succeeds has two parts that do.
pub bind_ok {ℓ κ μ} :
    {E : Type μ} {A : Type ℓ} {B : Type κ} (r : Result A E) (f : A → Result B E) (b : B)
    → (r >>= f) ≡ ok b
    → (a : A) × (r ≡ ok a) × (f a ≡ ok b)
bind_ok (ok a) f b h = (a, refl, h)
bind_ok (err e) f b h = cc

-- A guard that passes has a test that fails.
pub guard_ok {ℓ κ} :
    {E : Type ℓ} {B : Type κ} (test : Bool) (e : E) (next : Result B E) (b : B)
    → (reject_if test e >> next) ≡ ok b
    → (test ≡ false) × (next ≡ ok b)
guard_ok true e next b h = cc
guard_ok false e next b h = (refl, h)

pub ok_or-some {ℓ κ} :
    {A : Type ℓ} {E : Type κ} (o : Option A) (e : E) (a : A) → ok_or o e ≡ ok a → o ≡ some a
ok_or-some none e a h = cc
ok_or-some (some x) e a h = cc

-- An error that is only renamed leaves a success alone.
pub map_err_ok {ℓ κ μ} :
    {A : Type ℓ} {E : Type κ} {F : Type μ} (r : Result A E) (f : E → F) (a : A)
    → map_err r f ≡ ok a
    → r ≡ ok a
map_err_ok (ok x) f a h = cc
map_err_ok (err e) f a h = cc

pub ok_injective {ℓ κ} :
    {A : Type ℓ} {E : Type κ} {x y : A} → Path (Result A E) (ok x) (ok y) → x ≡ y
ok_injective e = cc

-- What a mapped list holds comes from the list, and what the list holds is in the mapped one.
pub try_map-In {ℓ} :
    {A B : Type 0} {E : Type ℓ} (f : A → Result B E) (xs : List A) (ys : List B)
    → try_map f xs ≡ ok ys
    → ((y : B) → In y ys → (x : A) × In x xs × (f x ≡ ok y))
      × ((x : A) → In x xs → (y : B) × In y ys × (f x ≡ ok y))
unfolding try_map
try_map-In f [] ys h =
    let empty : [] ≡ ys = ok_injective h in
    (λ y m. absurd (subst (In y) (sym empty) m), λ x m. absurd m)
try_map-In f (x ∷ xs) ys h =
    let (y, e, h1) = bind_ok (f x) (λ y. try_map f xs >>= λ zs. ok (y ∷ zs)) ys h in
    let (zs, t, h2) = bind_ok (try_map f xs) (λ zs. ok (y ∷ zs)) ys h1 in
    let (back, forth) = try_map-In f xs zs t in
    let same : y ∷ zs ≡ ys = ok_injective h2 in
    (
      λ b m. elim (subst (In b) (sym same) m) [
        | inl q ↦ (x, inl refl, e ∙ ap ok (sym q))
        | inr i ↦ let (a, j, g) = back b i in (a, inr j, g)
      ],
      λ a m. elim m [
        | inl q ↦ (y, subst (In y) same (inl refl), ap f q ∙ e)
        | inr i ↦ let (b, j, g) = forth a i in (b, subst (In b) same (inr j), g)
      ],
    )

-- The answer of a loop that returns.
unfoldable pub answer_of {ℓ} : {A : Type ℓ} (o : Option A) → o ≢ none → A
answer_of none h = absurd (h refl)
answer_of (some a) h = a
