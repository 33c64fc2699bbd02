-- ===== src/Linux/Delegated/Upward.antt =====
-- Absolute paths as their names from the last one up.
use mathlib.Core.List.{append_assoc, append-nil}
use cargo_cage.Base.{
  suc, ◌<◌, ◌≡◌, refl, sym, ap, ◌∙◌, true, List, [], ◌∷◌, ◌++◌, map, length, arith,
}
use cargo_cage.Os.Text.{OsString}
use cargo_cage.Os.FilePath.{
  FilePath, Component, normal, root_dir, root, is_absolute, starts_with, component_eq,
}

-- The absolute path with these names, the last one first.
unfoldable pub path_up : List OsString → FilePath
path_up [] = root
path_up (name ∷ names) = path_up names ++ normal name ∷ []

pub path_up-grow :
    (names more : List OsString)
    → (all : List OsString) × (path_up names ++ map normal more ≡ path_up all)
unfolding path_up
path_up-grow names [] = (names, append-nil (path_up names))
path_up-grow names (name ∷ more) =
    let (all, e) = path_up-grow (name ∷ names) more in
    (all, sym (append_assoc (path_up names) (normal name ∷ []) (map normal more)) ∙ e)

length-snoc : (p : FilePath) (c : Component) → length (p ++ c ∷ []) ≡ suc (length p)
length-snoc [] c = refl
length-snoc (b ∷ p) c = ap suc (length-snoc p c)

pub length-path_up : (names : List OsString) → length names < suc (length (path_up names))
unfolding path_up
length-path_up [] = ground arith
length-path_up (name ∷ names) =
    rw (length-snoc (path_up names) (normal name)) (ground (arith, length-path_up names))

pub absolute-root :
    (mount : FilePath) → is_absolute mount ≡ true → starts_with root mount ≡ true → mount ≡ root
unfolding is_absolute starts_with
absolute-root (root_dir ∷ []) h k = refl
absolute-root (root_dir ∷ c ∷ p) h k = absurd (ground (arith, k))
absolute-root _ h k = absurd (ground (arith, h))
