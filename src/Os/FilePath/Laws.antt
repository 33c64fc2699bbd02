-- ===== src/Os/FilePath/Laws.antt =====
-- Prefixes of paths: `starts_with` is a partial order, and two prefixes of one path are nested.
use cargo_cage.Base.{◌≡◌, refl, ◌↔◌, ◌⊎◌, inl, inr, true, some, List, [], ◌∷◌, ◌++◌, arith}
use cargo_cage.Os.Text.{OsString}
use cargo_cage.Os.FilePath.{
  join, drop_dot, is_absolute, Component, normal, parent, unsnoc, parent_of_last, FilePath,
  starts_with, component_eq, component_beq_iff,
}

pub starts_with-rest : (p q : FilePath) → starts_with p q ≡ true → (r : FilePath) × (p ≡ q ++ r)
unfolding starts_with
starts_with-rest p [] h = (p, refl)
starts_with-rest [] (d ∷ q) h = cc
starts_with-rest (c ∷ p) (d ∷ q) h =
    let (r, e) = starts_with-rest p q (ground arith) in (r, ground (arith, component_beq_iff c d))

pub starts_with-append : (q r : FilePath) → starts_with (q ++ r) q ≡ true
unfolding starts_with
starts_with-append [] r = refl
starts_with-append (d ∷ q) r = ground (arith, component_beq_iff d d, starts_with-append q r)

-- `p` starts with `q` exactly when `q` followed by some components is `p`.
pub starts_with_iff : (p q : FilePath) → (starts_with p q ≡ true) ↔ ((r : FilePath) × (p ≡ q ++ r))
starts_with_iff p q = (starts_with-rest p q, λ (r, e). rw e (starts_with-append q r))

pub starts_with_refl : (p : FilePath) → starts_with p p ≡ true
unfolding starts_with
starts_with_refl [] = refl
starts_with_refl (c ∷ p) = ground (arith, component_beq_iff c c, starts_with_refl p)

pub starts_with_trans :
    (p q r : FilePath) → starts_with p q ≡ true → starts_with q r ≡ true → starts_with p r ≡ true
unfolding starts_with
starts_with_trans p q [] h k = refl
starts_with_trans p [] (e ∷ r) h k = cc
starts_with_trans [] (d ∷ q) (e ∷ r) h k = cc
starts_with_trans (c ∷ p) (d ∷ q) (e ∷ r) h k = ground (
  arith,
  component_beq_iff c d,
  component_beq_iff d e,
  component_beq_iff c e,
  starts_with_trans p q r,
)

-- Two prefixes of one path are nested.
pub prefixes_nested :
    (p q r : FilePath)
    → starts_with p q ≡ true
    → starts_with p r ≡ true
    → (starts_with q r ≡ true) ⊎ (starts_with r q ≡ true)
unfolding starts_with
prefixes_nested p [] r h k = inr refl
prefixes_nested p (d ∷ q) [] h k = inl refl
prefixes_nested [] (d ∷ q) (e ∷ r) h k = cc
prefixes_nested (c ∷ p) (d ∷ q) (e ∷ r) h k = ground (
  arith,
  component_beq_iff c d,
  component_beq_iff c e,
  component_beq_iff d e,
  component_beq_iff e d,
  prefixes_nested p q r,
)

pub starts_with_antisymm :
    (p q : FilePath) → starts_with p q ≡ true → starts_with q p ≡ true → p ≡ q
unfolding starts_with
starts_with_antisymm [] [] h k = refl
starts_with_antisymm [] (d ∷ q) h k = cc
starts_with_antisymm (c ∷ p) [] h k = cc
starts_with_antisymm (c ∷ p) (d ∷ q) h k =
    ground (arith, component_beq_iff c d, starts_with_antisymm p q)

unsnoc-snoc : (p : List Component) (c : Component) → unsnoc (p ++ c ∷ []) ≡ some (p, c)
unfolding unsnoc
unsnoc-snoc [] c = refl
unsnoc-snoc (b ∷ p) c = rw (unsnoc-snoc p c) refl

pub parent-snoc : (p : FilePath) (name : OsString) → parent (p ++ normal name ∷ []) ≡ some p
unfolding parent parent_of_last
parent-snoc p name = rw (parent, unsnoc-snoc p (normal name)) refl

pub join-starts_with :
    (p : FilePath) (name : OsString) (q : FilePath)
    → starts_with (join p (normal name ∷ q)) p ≡ true
unfolding join is_absolute drop_dot starts_with
join-starts_with [] name q = refl
join-starts_with (c ∷ p) name q = starts_with-append (c ∷ p) (normal name ∷ q)

-- A prefix of a longer path is the path itself or a prefix of its parent.
pub starts_with_snoc :
    (p q : FilePath) (c : Component)
    → starts_with (p ++ c ∷ []) q ≡ true
    → (p ++ c ∷ [] ≡ q) ⊎ (starts_with p q ≡ true)
unfolding starts_with
starts_with_snoc p [] c h = inr refl
starts_with_snoc [] (d ∷ []) c h = ground (arith, component_beq_iff c d)
starts_with_snoc [] (d ∷ e ∷ q) c h = absurd (ground arith)
starts_with_snoc (b ∷ p) (d ∷ q) c h = ground (arith, component_beq_iff b d, starts_with_snoc p q c)
