-- ===== src/Cargo/Policy/Parts.antt =====
-- The lists that a policy for Cargo is made of: the files of both Cargo homes, and the names to remove.
use cargo_cage.Base.{
  Bool, false, ◌⊎◌, ◌≡◌, refl, sym, ap, subst, inl, inr, true, not, ◌&&◌, List, [], ◌∷◌, ◌++◌, map,
  arith, In, contains, list_eq, list_beq_iff, nat_eq, ◌==◌, eq_self, Bool-cases,
}
use cargo_cage.Os.Text.{OsString}
use cargo_cage.Os.FilePath.{FilePath, component_eq}
use cargo_cage.Core.Environment.Names.{is_sensitive_environment_name}
use cargo_cage.Cargo.Policy.{
  hidden_in, hidden_in_all, cargo_homes, add_sensitive_name, add_sensitive_names,
}

pub In-map : {A B : Type 0} (f : A → B) (xs : List A) (a : A) → In a xs → In (f a) (map f xs)
In-map f [] a m = absurd m
In-map f (x ∷ xs) a (inl e) = inl (ap f e)
In-map f (x ∷ xs) a (inr m) = inr (In-map f xs a m)

pub In-left : {A : Type 0} (xs ys : List A) (a : A) → In a xs → In a (xs ++ ys)
In-left [] ys a m = absurd m
In-left (x ∷ xs) ys a (inl e) = inl e
In-left (x ∷ xs) ys a (inr m) = inr (In-left xs ys a m)

pub In-right : {A : Type 0} (xs ys : List A) (a : A) → In a ys → In a (xs ++ ys)
In-right [] ys a m = m
In-right (x ∷ xs) ys a m = inr (In-right xs ys a m)

pub hidden_in_all-In :
    (homes : List FilePath) (home path : FilePath)
    → In home homes
    → In path (hidden_in home)
    → In path (hidden_in_all homes)
unfolding hidden_in_all
hidden_in_all-In [] home path m h = absurd m
hidden_in_all-In (x ∷ homes) home path (inl e) h =
    In-left (hidden_in x) (hidden_in_all homes) path (subst (λ p. In path (hidden_in p)) e h)
hidden_in_all-In (x ∷ homes) home path (inr m) h =
    In-right (hidden_in x) (hidden_in_all homes) path (hidden_in_all-In homes home path m h)

-- Both Cargo homes are among those whose files are hidden.
pub cargo_homes-default :
    (cargo_home default : FilePath)
    → In default (cargo_homes cargo_home default) × In cargo_home (cargo_homes cargo_home default)
unfolding cargo_homes
cargo_homes-default cargo_home default = elim (Bool-cases (cargo_home == default)) [
  | inl e ↦ rw e (inl (sym ((list_beq_iff cargo_home default).0 e)), inl refl)
  | inr e ↦ rw e (inr (inl refl), inl refl)
]

contains-snoc_left :
    (names : List OsString) (x k : OsString)
    → contains names k ≡ true
    → contains (names ++ x ∷ []) k ≡ true
unfolding contains
contains-snoc_left [] x k h = cc
contains-snoc_left (n ∷ names) x k h = ground (arith, contains-snoc_left names x k)

contains-snoc_last : (names : List OsString) (k : OsString) → contains (names ++ k ∷ []) k ≡ true
unfolding contains
contains-snoc_last [] k = ground (arith, eq_self k)
contains-snoc_last (n ∷ names) k = ground (arith, contains-snoc_last names k)

add_sensitive_name-keeps :
    (names : List OsString) (name k : OsString)
    → contains names k ≡ true
    → contains (add_sensitive_name names name) k ≡ true
unfolding add_sensitive_name
add_sensitive_name-keeps names name k h =
    elim (Bool-cases (is_sensitive_environment_name name && not (contains names name))) [
      | inl e ↦ rw e (contains-snoc_left names name k h)
      | inr e ↦ rw e h
    ]

add_sensitive_name-has :
    (names : List OsString) (k : OsString)
    → is_sensitive_environment_name k ≡ true
    → contains (add_sensitive_name names k) k ≡ true
unfolding add_sensitive_name
add_sensitive_name-has names k h = elim (Bool-cases (contains names k)) [
  | inl e ↦ rw (h, e) e
  | inr e ↦ rw (h, e) (contains-snoc_last names k)
]

pub add_sensitive_names-keeps :
    (vars : List (OsString × OsString)) (names : List OsString) (k : OsString)
    → contains names k ≡ true
    → contains (add_sensitive_names names vars) k ≡ true
unfolding add_sensitive_names
add_sensitive_names-keeps [] names k h = h
add_sensitive_names-keeps ((name, value) ∷ vars) names k h =
    add_sensitive_names-keeps vars (add_sensitive_name names name) k
      (add_sensitive_name-keeps names name k h)

pub In-contains :
    (names : List OsString) (name : OsString) → In name names → contains names name ≡ true
unfolding contains
In-contains [] name m = absurd m
In-contains (n ∷ names) name (inl e) = rw e (ground (arith, eq_self n))
In-contains (n ∷ names) name (inr m) = ground (arith, In-contains names name m)

pub add_sensitive_names-In :
    (vars : List (OsString × OsString)) (names : List OsString) (k v : OsString)
    → In (k, v) vars
    → is_sensitive_environment_name k ≡ true
    → contains (add_sensitive_names names vars) k ≡ true
unfolding add_sensitive_names
add_sensitive_names-In [] names k v m h = absurd m
add_sensitive_names-In ((name, value) ∷ vars) names k v (inr m) h =
    add_sensitive_names-In vars (add_sensitive_name names name) k v m h
add_sensitive_names-In ((name, value) ∷ vars) names k v (inl e) h =
    add_sensitive_names-keeps vars (add_sensitive_name names name) k (
      subst (λ n. contains (add_sensitive_name names n) k ≡ true) (ap (λ p. p.0) e)
        (add_sensitive_name-has names k h))

contains-snoc_only :
    (names : List OsString) (x k : OsString)
    → contains (names ++ x ∷ []) k ≡ true
    → (contains names k ≡ true) ⊎ (x ≡ k)
unfolding contains
contains-snoc_only [] x k h = inr ((list_beq_iff x k).0 (ground (arith, h)))
contains-snoc_only (n ∷ names) x k h = ground (arith, contains-snoc_only names x k)

first_true : (a b : Bool) → (a && b) ≡ true → a ≡ true
first_true true b h = refl
first_true false b h = cc

add_sensitive_name-only :
    (names : List OsString) (name k : OsString)
    → contains (add_sensitive_name names name) k ≡ true
    → (contains names k ≡ true) ⊎ ((is_sensitive_environment_name name ≡ true) × (name ≡ k))
unfolding add_sensitive_name
add_sensitive_name-only names name k h =
    elim (Bool-cases (is_sensitive_environment_name name && not (contains names name))) [
      | inl e ↦ elim (contains-snoc_only names name k (rw (e, add_sensitive_name) at h)) [
        | inl m ↦ inl m
        | inr same ↦ inr (first_true _ _ e, same)
      ]
      | inr e ↦ inl (rw (e, add_sensitive_name) at h)
    ]

-- A name that is removed was to be removed, or is a sensitive one of the host.
pub add_sensitive_names-only :
    (vars : List (OsString × OsString)) (names : List OsString) (k : OsString)
    → contains (add_sensitive_names names vars) k ≡ true
    → (contains names k ≡ true)
      ⊎ ((is_sensitive_environment_name k ≡ true) × (v : OsString) × In (k, v) vars)
unfolding add_sensitive_names
add_sensitive_names-only [] names k h = inl h
add_sensitive_names-only ((name, value) ∷ vars) names k h =
    elim (add_sensitive_names-only vars (add_sensitive_name names name) k h) [
      | inr (s, v, m) ↦ inr (s, v, inr m)
      | inl c ↦ elim (add_sensitive_name-only names name k c) [
        | inl m ↦ inl m
        | inr (s, same) ↦ inr (
          subst (λ n. is_sensitive_environment_name n ≡ true) same s,
          value,
          inl (ap (λ n. (n, value)) (sym same)),
        )
      ]
    ]
