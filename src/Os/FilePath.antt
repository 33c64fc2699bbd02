-- ===== src/Os/FilePath.antt =====
-- `std::path` on Unix. A path is the list of its components: what `==`, `starts_with`, `parent`,
-- `file_name`, `join` and `components` of `Path` read. Repeated slashes and inner dots are dropped.
pub mod Laws
pub mod Spelling
use cargo_cage.Base.{
  ℕ, ◌≡◌, refl, ap, ◌↔◌, Bool, true, false, ◌&&◌, ◌||◌, Option, none, some, List, [], ◌∷◌, ◌++◌,
  map, arith, nat_beq, Eq, ◌==◌, list_eq, list_beq, list_beq_iff, nat_eq, if◌then◌else◌, length,
  any,
}
use cargo_cage.Os.Text.{OsString, bytes}

pub data Component : Type 0 where
  root_dir cur_dir parent_dir : Component
  normal : OsString → Component

unfoldable pub component_beq : Component → Component → Bool
unfolding list_beq
component_beq root_dir root_dir = true
component_beq cur_dir cur_dir = true
component_beq parent_dir parent_dir = true
component_beq (normal a) (normal b) = a == b
component_beq _ _ = false

pub component_beq_iff : (a b : Component) → (component_beq a b ≡ true) ↔ (a ≡ b)
unfolding component_beq
component_beq_iff (normal a) (normal b) = ground (arith, list_beq_iff a b)
component_beq_iff a b = ground arith

instance abbrev pub component_eq : Eq Component
component_eq = record { same = component_beq; same_iff = component_beq_iff }

abbrev pub FilePath : Type 0
FilePath = List Component

abbrev pub root : FilePath
root = root_dir ∷ []

-- The pieces of a text between the separators, `split(separator)`.
unfoldable pub split_at : ℕ → OsString → OsString → List OsString
split_at d piece [] = piece ∷ []
split_at d piece (c ∷ s) =
    let here = piece ∷ split_at d [] s in
    let more = split_at d (piece ++ c ∷ []) s in if nat_beq c d then here else more

-- A piece in the middle of a path.
component_of : OsString → List Component
component_of s =
    if s == [] || s == bytes "."
    then []
    else if s == bytes ".."
    then parent_dir ∷ []
    else normal s ∷ []

components_of : List OsString → List Component
unfolding component_of
components_of [] = []
components_of (s ∷ ss) = component_of s ++ components_of ss

-- A dot in front of a relative path is kept.
leading : List OsString → List Component
unfolding components_of
leading [] = []
leading (s ∷ ss) = if s == bytes "." then cur_dir ∷ components_of ss else components_of (s ∷ ss)

-- `PathBuf::from(text)`
unfoldable pub path_of : OsString → FilePath
unfolding leading components_of split_at list_beq
path_of [] = []
path_of (c ∷ s) =
    if nat_beq c b'/'
    then root_dir ∷ components_of (split_at b'/' [] s)
    else leading (split_at b'/' [] (c ∷ s))

component_text : Component → OsString
component_text root_dir = []
component_text cur_dir = bytes "."
component_text parent_dir = bytes ".."
component_text (normal s) = s

join_text : List Component → OsString
join_text [] = []
join_text (c ∷ []) = component_text c
join_text (c ∷ d ∷ cs) = component_text c ++ b'/' ∷ join_text (d ∷ cs)

-- `path.into_os_string()` of a path spelled without repeated slashes.
unfoldable pub into_os_string : FilePath → OsString
unfolding join_text component_text
into_os_string (root_dir ∷ []) = bytes "/"
into_os_string p = join_text p

unfoldable pub is_absolute : FilePath → Bool
is_absolute (root_dir ∷ p) = true
is_absolute _ = false

unfoldable pub has_parent_dir : FilePath → Bool
has_parent_dir p = any (λ c. c == parent_dir) p

unfoldable pub starts_with : FilePath → FilePath → Bool
starts_with p [] = true
starts_with [] (d ∷ q) = false
starts_with (c ∷ p) (d ∷ q) = c == d && starts_with p q

drop_dot : List Component → List Component
drop_dot (cur_dir ∷ q) = q
drop_dot q = q

-- `p.join(q)` and `p.push(q)`
unfoldable pub join : FilePath → FilePath → FilePath
unfolding is_absolute drop_dot
join [] q = q
join (c ∷ p) q = if is_absolute q then q else (c ∷ p) ++ drop_dot q

-- `current.push(component)`
unfoldable pub push_component : FilePath → Component → FilePath
push_component p root_dir = root
push_component p cur_dir = p
push_component p parent_dir = p ++ parent_dir ∷ []
push_component p (normal s) = p ++ normal s ∷ []

-- The absolute path with these names.
abbrev pub absolute : List OsString → FilePath
absolute names = root_dir ∷ map normal names

-- A list that is not empty, as its front and its last element.
pub unsnoc : List Component → Option (List Component × Component)
unsnoc [] = none
unsnoc (c ∷ p) = elim (unsnoc p) [
  | none ↦ some ([], c)
  | some (front, last) ↦ some (c ∷ front, last)
]

parent_of_last : List Component × Component → Option FilePath
parent_of_last (front, root_dir) = none
parent_of_last (front, _) = some front

unfoldable pub parent : FilePath → Option FilePath
unfolding unsnoc parent_of_last
parent p = elim (unsnoc p) [ none ↦ none | some l ↦ parent_of_last l ]

name_of_last : List Component × Component → Option OsString
name_of_last (front, normal s) = some s
name_of_last (front, _) = none

unfoldable pub file_name : FilePath → Option OsString
unfolding unsnoc name_of_last
file_name p = elim (unsnoc p) [ none ↦ none | some l ↦ name_of_last l ]
