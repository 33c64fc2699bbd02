-- ===== src/Cargo/Options/Rewrite/Laws.antt =====
-- Where the target options of a rewritten command line point.
use cargo_cage.Base.{
  ℕ, ◌≡◌, refl, ap, Bool, true, false, Option, none, some, ◌⊎◌, inl, inr, Bool-cases, if◌then◌else◌,
  List, [], ◌∷◌, ◌++◌, ok, All, ◌==◌, list_eq, list_beq, nat_eq,
}
use cargo_cage.Os.Text.{OsString, bytes, to_str, is_utf8, strip_prefix}
use cargo_cage.Os.FilePath.{FilePath, path_of, is_absolute, into_os_string}
use cargo_cage.Core.Error.{CageResult}
use cargo_cage.Cargo.Options.{inline_value}
use cargo_cage.Cargo.Options.Rewrite.{
  manifest_text, rewrite_manifest, rewrite_target, rewrite_inline, rewrite_from,
}

-- A command line by its parts: an argument that is no option for a path, and the two spellings of the
-- options for the target and for the manifest.
pub data Argument : Type 0 where
  other : OsString → Argument
  target_value target_inline manifest_value manifest_inline : OsString → Argument

unfoldable pub spell : Argument → List OsString → List OsString
spell (other arg) rest = arg ∷ rest
spell (target_value value) rest = bytes "--target-dir" ∷ value ∷ rest
spell (target_inline value) rest = (bytes "--target-dir=" ++ value) ∷ rest
spell (manifest_value value) rest = bytes "--manifest-path" ∷ value ∷ rest
spell (manifest_inline value) rest = (bytes "--manifest-path=" ++ value) ∷ rest

-- The end of the command line: nothing, or `--` with the arguments for the program.
unfoldable pub line_end : Option (List OsString) → List OsString
line_end none = []
line_end (some program_args) = bytes "--" ∷ program_args

unfoldable pub spell_all : List Argument → Option (List OsString) → List OsString
unfolding spell line_end
spell_all [] program_args = line_end program_args
spell_all (a ∷ arguments) program_args = spell a (spell_all arguments program_args)

module _ (manifest : CageResult (Option FilePath)) (resolved : FilePath) where
  -- What the parts have to be: an option that holds its value in one argument is valid text, for the
  -- target with a value that is not empty, and the manifest of an option was resolved.
  unfoldable pub IsArgument : Argument → Type 0
  IsArgument (other arg) =
      (arg == bytes "--" ≡ false)
      × (arg == bytes "--manifest-path" ≡ false)
      × (arg == bytes "--target-dir" ≡ false)
      × (inline_value (bytes "--manifest-path=") arg ≡ none)
      × ((inline_value (bytes "--target-dir=") arg ≡ none)
          ⊎ (inline_value (bytes "--target-dir=") arg ≡ some []))
  IsArgument (target_value value) = Unit
  IsArgument (target_inline []) = ⊥
  IsArgument (target_inline (c ∷ value)) = is_utf8 (bytes "--target-dir=" ++ c ∷ value) ≡ true
  IsArgument (manifest_value value) = manifest ≡ ok (some resolved)
  IsArgument (manifest_inline value) =
      (manifest ≡ ok (some resolved)) × (is_utf8 (bytes "--manifest-path=" ++ value) ≡ true)

module _ (resolved : FilePath) (target : OsString) (moved : Bool) where
  -- A relative manifest is named by its resolved path if Cargo is started somewhere else.
  unfoldable pub located : OsString → OsString
  unfolding into_os_string
  located value =
      if is_absolute (path_of value)
      then value
      else if moved
      then into_os_string resolved
      else value

  unfoldable pub redirect : Argument → Argument
  unfolding located
  redirect (other arg) = other arg
  redirect (target_value value) = target_value target
  redirect (target_inline value) = target_inline target
  redirect (manifest_value value) = manifest_value (located value)
  redirect (manifest_inline value) = manifest_inline (located value)

  unfoldable pub redirect_all : List Argument → List Argument
  unfolding redirect
  redirect_all [] = []
  redirect_all (a ∷ arguments) = redirect a ∷ redirect_all arguments

inline_value-text :
    (prefix arg : OsString) → is_utf8 arg ≡ true → inline_value prefix arg ≡ strip_prefix arg prefix
unfolding inline_value to_str
inline_value-text prefix arg h = rw (inline_value, to_str, h) refl

module _ (manifest : CageResult (Option FilePath)) (target : OsString) (moved : Bool) where
  -- One argument that is no option for a path, or is one by itself.
  single_step :
      (arg here : OsString) (args rest : List OsString)
      → (arg == bytes "--" ≡ false)
      → (arg == bytes "--manifest-path" ≡ false)
      → (arg == bytes "--target-dir" ≡ false)
      → rewrite_inline manifest target moved true arg ≡ ok here
      → rewrite_from manifest target moved true args ≡ ok rest
      → rewrite_from manifest target moved true (arg ∷ args) ≡ ok (here ∷ rest)
  unfolding rewrite_from
  single_step arg here [] rest a b c h k =
      let last : [] ≡ rest = cc in rw (a, b, c, h) (ap (λ r. ok (here ∷ r)) last)
  single_step arg here (value ∷ args) rest a b c h k = rw (a, b, c, h, k) refl

  inline_target :
      (c : ℕ) (value : OsString)
      → is_utf8 (bytes "--target-dir=" ++ c ∷ value) ≡ true
      → rewrite_inline manifest target moved true (bytes "--target-dir=" ++ c ∷ value)
        ≡ ok (bytes "--target-dir=" ++ target)
  unfolding rewrite_inline inline_value to_str strip_prefix rewrite_target
  inline_target c value h =
      rw
        (
          rewrite_inline,
          inline_value-text (bytes "--manifest-path=") (bytes "--target-dir=" ++ c ∷ value) h,
          inline_value-text (bytes "--target-dir=") (bytes "--target-dir=" ++ c ∷ value) h,
        )
        refl

  inline_other :
      (arg : OsString)
      → (inline_value (bytes "--manifest-path=") arg ≡ none)
      → (inline_value (bytes "--target-dir=") arg ≡ none)
        ⊎ (inline_value (bytes "--target-dir=") arg ≡ some [])
      → rewrite_inline manifest target moved true arg ≡ ok arg
  unfolding rewrite_inline
  inline_other arg a (inl b) = rw (rewrite_inline, a, b) refl
  inline_other arg a (inr b) = rw (rewrite_inline, a, b) refl

  module _ (resolved : FilePath) where
    rewrite_manifest-located :
        (value : OsString)
        → manifest ≡ ok (some resolved)
        → rewrite_manifest manifest target moved true value
          ≡ ok (located resolved target moved value)
    unfolding rewrite_manifest manifest_text located
    rewrite_manifest-located value e = elim (Bool-cases (is_absolute (path_of value))) [
      | inl a ↦ rw (rewrite_manifest, located, a) refl
      | inr a ↦ elim (Bool-cases moved) [
        | inl m ↦ rw (rewrite_manifest, manifest_text, located, a, m, e) refl
        | inr m ↦ rw (rewrite_manifest, located, a, m) refl
      ]
    ]

    inline_manifest :
        (value : OsString)
        → manifest ≡ ok (some resolved)
        → is_utf8 (bytes "--manifest-path=" ++ value) ≡ true
        → rewrite_inline manifest target moved true (bytes "--manifest-path=" ++ value)
          ≡ ok (bytes "--manifest-path=" ++ located resolved target moved value)
    unfolding rewrite_inline inline_value to_str strip_prefix
    inline_manifest value e h =
        rw
          (
            rewrite_inline,
            inline_value-text (bytes "--manifest-path=") (bytes "--manifest-path=" ++ value) h,
            rewrite_manifest-located value e,
          )
          refl

    spell_step :
        (a : Argument) (rest rest' : List OsString)
        → IsArgument manifest resolved a
        → rewrite_from manifest target moved true rest ≡ ok rest'
        → rewrite_from manifest target moved true (spell a rest)
          ≡ ok (spell (redirect resolved target moved a) rest')
    unfolding spell redirect IsArgument list_beq
    spell_step (other arg) rest rest' p h =
        single_step arg arg rest rest' p.0 p.1 p.2 (inline_other arg p.3 p.4) h
    spell_step (target_value value) rest rest' p h = unfold rewrite_from rewrite_target in rw h refl
    spell_step (target_inline []) rest rest' p h = absurd p
    spell_step (target_inline (c ∷ value)) rest rest' p h =
        single_step (bytes "--target-dir=" ++ c ∷ value) (bytes "--target-dir=" ++ target) rest
          rest' refl refl refl (inline_target c value p) h
    spell_step (manifest_value value) rest rest' p h =
        unfold rewrite_from in rw (rewrite_manifest-located value p, h) refl
    spell_step (manifest_inline value) rest rest' (p, q) h =
        single_step (bytes "--manifest-path=" ++ value)
          (bytes "--manifest-path=" ++ located resolved target moved value) rest rest' refl refl
          refl (inline_manifest value p q) h

    -- When the rewrite is forced, each target option of a command line points to the given directory
    -- afterwards, a relative manifest option names the resolved manifest if Cargo is started somewhere
    -- else, and the other arguments stay as they are, from `--` on all of them. Each option has a
    -- value; one that holds it in its own argument is valid text, for the target with a value that is
    -- not empty. The manifest of an option was resolved.
    pub rewrite_from-redirect_all :
        (arguments : List Argument) (program_args : Option (List OsString))
        → All (IsArgument manifest resolved) arguments
        → rewrite_from manifest target moved true (spell_all arguments program_args)
          ≡ ok (spell_all (redirect_all resolved target moved arguments) program_args)
    unfolding spell_all redirect_all line_end list_beq
    rewrite_from-redirect_all [] none p = unfold rewrite_from in refl
    rewrite_from-redirect_all [] (some []) p = unfold rewrite_from in refl
    rewrite_from-redirect_all [] (some (arg ∷ args)) p = unfold rewrite_from in refl
    rewrite_from-redirect_all (a ∷ arguments) program_args p =
        spell_step a (spell_all arguments program_args)
          (spell_all (redirect_all resolved target moved arguments) program_args) p.0
          (rewrite_from-redirect_all arguments program_args p.1)
