-- ===== src/Os/FilePath/Spelling.antt =====
-- An absolute path is read back from its text.
use mathlib.Core.List.{append_assoc, append-nil}
use cargo_cage.Base.{
  ℕ, Bool, true, not, ◌&&◌, all, ◌≡◌, sym, ap, ◌≢◌, List, [], ◌∷◌, ◌++◌, map, arith, nat_beq, ◌==◌,
  list_eq, nat_eq, list_beq_iff, All,
}
use cargo_cage.Os.Text.{OsString, bytes}
use cargo_cage.Os.FilePath.{
  normal, root_dir, absolute, split_at, component_of, components_of, path_of, component_text,
  join_text, into_os_string,
}

-- A file name: not empty, not a dot or two, and without a slash.
pub record IsName (s : OsString) : Type 0 where
  pub not_empty : s ≢ []
  pub not_dot : s ≢ bytes "."
  pub not_dots : s ≢ bytes ".."
  pub no_slash : All (λ c. c ≢ b'/') s

abbrev pub name_test : OsString → Bool
name_test s =
    not (s == [])
    && not (s == bytes ".")
    && not (s == bytes "..")
    && all (λ c. not (nat_beq c b'/')) s

no_slash_test : (s : OsString) → all (λ c. not (nat_beq c b'/')) s ≡ true → All (λ c. c ≢ b'/') s
no_slash_test [] h = tt
no_slash_test (c ∷ s) h = ground (arith, no_slash_test s)

-- A name, by a test that evaluates.
pub IsName-name_test : (s : OsString) → name_test s ≡ true → IsName s
IsName-name_test s h = record {
  not_empty = ground (arith, list_beq_iff s []);
  not_dot = ground (arith, list_beq_iff s (bytes "."));
  not_dots = ground (arith, list_beq_iff s (bytes ".."));
  no_slash = no_slash_test s (ground arith);
}

split_at-end :
    (d : ℕ) (piece s : OsString) → All (λ c. c ≢ d) s → split_at d piece s ≡ (piece ++ s) ∷ []
unfolding split_at
split_at-end d piece [] h = ap (λ (t : OsString). t ∷ []) (sym (append-nil piece))
split_at-end d piece (c ∷ s) h =
    ground (arith, split_at-end d (piece ++ c ∷ []) s h.1, append_assoc piece (c ∷ []) s)

split_at-append :
    (d : ℕ) (piece s rest : OsString)
    → All (λ c. c ≢ d) s
    → split_at d piece (s ++ d ∷ rest) ≡ (piece ++ s) ∷ split_at d [] rest
unfolding split_at
split_at-append d piece [] rest h = ground (arith, append-nil piece)
split_at-append d piece (c ∷ s) rest h =
    ground (arith, split_at-append d (piece ++ c ∷ []) s rest h.1, append_assoc piece (c ∷ []) s)

component_of-name : (s : OsString) → IsName s → component_of s ≡ normal s ∷ []
unfolding component_of
component_of-name s name =
    ground (arith, list_beq_iff s [], list_beq_iff s (bytes "."), list_beq_iff s (bytes ".."))

components_of-join :
    (s : OsString) (names : List OsString)
    → IsName s
    → All IsName names
    → components_of (split_at b'/' [] (join_text (map normal (s ∷ names)))) ≡ map normal (s ∷ names)
unfolding components_of join_text component_text
components_of-join s [] name h = rw (split_at-end b'/' [] s name.no_slash, component_of-name s name)
components_of-join s (t ∷ names) name h =
    rw (split_at-append b'/' [] s (join_text (map normal (t ∷ names))) name.no_slash)
      (rw (component_of-name s name) (ap (◌∷◌ (normal s)) (components_of-join t names h.0 h.1)))

-- The text of an absolute path, other than the root, reads back as the path.
pub path_of-into_os_string :
    (s : OsString) (names : List OsString)
    → IsName s
    → All IsName names
    → path_of (into_os_string (absolute (s ∷ names))) ≡ absolute (s ∷ names)
unfolding path_of into_os_string
path_of-into_os_string s names name h = ap (◌∷◌ root_dir) (components_of-join s names name h)
