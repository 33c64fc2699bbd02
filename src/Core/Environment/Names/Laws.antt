-- ===== src/Core/Environment/Names/Laws.antt =====
-- The two filters on names agree, and neither depends on the case of letters.
use cargo_cage.Base.{
  ◌≡◌, refl, sym, ap, Bool, true, false, not, ◌||◌, none, some, List, [], ◌∷◌, arith, list_eq,
  nat_eq, list_beq_iff, contains, all, or_iff, ◌∙◌, inl, inr, if◌then◌else◌,
}
use cargo_cage.Os.Text.{
  OsString, to_str, is_utf8, is_utf8-upper, to_ascii_uppercase, to_ascii_uppercase_idem,
}
use cargo_cage.Core.Environment.Names.{
  forwarded_host_environment_names, sandbox_only_environment_names, sensitive_upper, sensitive_text,
  listed_text, is_sensitive_environment_name, is_allowed_host_environment_name,
  is_allowed_sandbox_environment_name,
}

to_str-some : (s t : OsString) → to_str s ≡ some t → t ≡ s
unfolding to_str
to_str-some s t h = ground arith

sensitive_text-upper :
    (name : OsString) (b : Bool)
    → sensitive_text (if b then some (to_ascii_uppercase name) else none)
      ≡ sensitive_text (if b then some name else none)
unfolding sensitive_text
sensitive_text-upper name true = ap sensitive_upper (to_ascii_uppercase_idem name)
sensitive_text-upper name false = refl

to_str-upper :
    (name : OsString)
    → to_str (to_ascii_uppercase name)
      ≡ (if is_utf8 name then some (to_ascii_uppercase name) else none)
unfolding to_str
to_str-upper name = rw (is_utf8-upper name)

-- A name is sensitive however its letters are written.
pub is_sensitive_environment_name-upper :
    (name : OsString)
    → is_sensitive_environment_name (to_ascii_uppercase name) ≡ is_sensitive_environment_name name
unfolding is_sensitive_environment_name
is_sensitive_environment_name-upper name =
    ap sensitive_text (to_str-upper name) ∙ sensitive_text-upper name (is_utf8 name)

contains-all :
    (p : OsString → Bool) (names : List OsString) (name : OsString)
    → all p names ≡ true
    → contains names name ≡ true
    → p name ≡ true
unfolding contains
contains-all p [] name h k = cc
contains-all p (n ∷ names) name h k = ground (arith, list_beq_iff n name, contains-all p names name)

forwarded_insensitive :
    all (λ n. not (is_sensitive_environment_name n)) forwarded_host_environment_names ≡ true
unfolding is_sensitive_environment_name
forwarded_insensitive = refl

sandbox_only_insensitive :
    all (λ n. not (is_sensitive_environment_name n)) sandbox_only_environment_names ≡ true
unfolding is_sensitive_environment_name
sandbox_only_insensitive = refl

listed_text-contains :
    (names : List OsString) (name : OsString)
    → listed_text names name ≡ true
    → contains names name ≡ true
unfolding listed_text to_str
listed_text-contains names name h = ground arith

listed_text-insensitive :
    (names : List OsString) (name : OsString)
    → all (λ n. not (is_sensitive_environment_name n)) names ≡ true
    → listed_text names name ≡ true
    → is_sensitive_environment_name name ≡ false
listed_text-insensitive names name h k = ground (
  arith,
  contains-all (λ n. not (is_sensitive_environment_name n)) names name h
      (listed_text-contains names name k),
)

sandbox-cases :
    (name : OsString)
    → is_allowed_sandbox_environment_name name ≡ (
        listed_text forwarded_host_environment_names name
        || listed_text sandbox_only_environment_names name)
unfolding is_allowed_sandbox_environment_name
sandbox-cases name = refl

-- No variable that a sandbox may see has a sensitive name.
pub allowed-insensitive :
    (name : OsString)
    → is_allowed_sandbox_environment_name name ≡ true
    → is_sensitive_environment_name name ≡ false
allowed-insensitive name h =
    elim ((or_iff (listed_text forwarded_host_environment_names name) _).0
      (sym (sandbox-cases name) ∙ h)) [
        | inl k ↦
            listed_text-insensitive forwarded_host_environment_names name forwarded_insensitive k
        | inr k ↦
            listed_text-insensitive sandbox_only_environment_names name sandbox_only_insensitive k
      ]

-- What is forwarded from the host, a sandbox may see.
pub allowed_host-allowed_sandbox :
    (name : OsString)
    → is_allowed_host_environment_name name ≡ true
    → is_allowed_sandbox_environment_name name ≡ true
unfolding is_allowed_host_environment_name is_allowed_sandbox_environment_name
allowed_host-allowed_sandbox name h = rw h refl
