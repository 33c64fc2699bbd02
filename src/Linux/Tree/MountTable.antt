-- ===== src/Linux/Tree/MountTable.antt =====
-- cage-linux/src/tree.rs: `validate_no_nested_mounts` and `decode_mountinfo_path`. The text of
-- /proc/self/mountinfo is a parameter. A `u8` wraps, as in a build without overflow checks.
pub mod Escape
pub mod Laws
use Prim.Native.String.{◌++◌ as ◌<>◌}
use cargo_cage.Base.{
  ℕ, zero, suc, ◌+◌, ◌-◌, ◌*◌, ◌%◌, String, Bool, true, false, not, ◌&&◌, ◌||◌, Option, none, some,
  List, [], ◌∷◌, ◌++◌, ok, err, Result, ◌>>=◌, ◌>>◌, reject_if, ok_or, map_err, for_each, get_elem?,
  keep, ltb, leb, nat_beq, ◌==◌, list_eq, list_beq, nat_eq, if◌then◌else◌,
}
use cargo_cage.Os.Text.{OsString, is_utf8}
use cargo_cage.Os.Text.White.{white_length}
use cargo_cage.Os.FilePath.{FilePath, component_eq, path_of, starts_with}
use cargo_cage.Os.Fs.{IoResult}
use cargo_cage.Core.Error.{CageResult, policy, io, at_path}

-- `value * 8 + digit - b'0'` on `u8`
octal_step : ℕ → ℕ → ℕ
octal_step value digit = ((value * 8 % 256 + digit) % 256 + 256 - b'0') % 256

-- `(b'0'..=b'7').contains(&digit)`
is_octal : ℕ → Bool
is_octal digit = leb b'0' digit && leb digit b'7'

octal_byte : ℕ → ℕ → ℕ → Option ℕ
unfolding octal_step is_octal
octal_byte a b c =
    if is_octal a && is_octal b && is_octal c
    then some (octal_step (octal_step (octal_step 0 a) b) c)
    else none

-- `decoded.push(c)`, in front of what the rest of the loop pushes.
push_byte : Option ℕ → Option OsString → Option OsString
push_byte (some c) (some s) = some (c ∷ s)
push_byte _ _ = none

-- The loop over the bytes: an escape is a backslash with three octal digits.
decode_bytes : OsString → Option OsString
unfolding octal_byte push_byte
decode_bytes [] = some []
decode_bytes (c ∷ d ∷ e ∷ f ∷ s) =
    let plain = decode_bytes (d ∷ e ∷ f ∷ s) in
    let escaped = decode_bytes s in
    if nat_beq c b'\\' then push_byte (octal_byte d e f) escaped else push_byte (some c) plain
decode_bytes (c ∷ s) =
    let plain = decode_bytes s in if nat_beq c b'\\' then none else push_byte (some c) plain

unfoldable pub decode_mountinfo_path : OsString → Option FilePath
unfolding decode_bytes
decode_mountinfo_path encoded = elim (decode_bytes encoded) [
  | none ↦ none
  | some decoded ↦ if is_utf8 decoded then some (path_of decoded) else none
]

-- A word that is complete; no word is empty.
end_word : OsString → List OsString → List OsString
end_word [] words = words
end_word (c ∷ word) words = (c ∷ word) ∷ words

-- `split_whitespace`, with the bytes that are left of a white space and the word so far.
words_from : ℕ → OsString → OsString → List OsString
unfolding white_length end_word
words_from skip word [] = end_word word []
words_from (suc skip) word (c ∷ s) = words_from skip word s
words_from zero word (c ∷ s) =
    let more = words_from zero (word ++ c ∷ []) s in
    let skip_one = end_word word (words_from 0 [] s) in
    let skip_two = end_word word (words_from 1 [] s) in
    let skip_three = end_word word (words_from 2 [] s) in
    elim (white_length (c ∷ s)) [
      | zero ↦ more
      | suc zero ↦ skip_one
      | suc (suc zero) ↦ skip_two
      | suc (suc (suc n)) ↦ skip_three
    ]

unfoldable pub split_whitespace : OsString → List OsString
unfolding words_from
split_whitespace = words_from 0 []

drop_return : OsString → OsString
unfolding list_beq
drop_return [] = []
drop_return (c ∷ s) =
    let rest = drop_return s in if nat_beq c b'\r' && s == [] then [] else c ∷ rest

-- `lines()` with the empty ones left out.
lines_from : OsString → OsString → List OsString
unfolding drop_return end_word
lines_from line [] = end_word line []
lines_from line (c ∷ s) =
    let here = end_word (drop_return line) (lines_from [] s) in
    let more = lines_from (line ++ c ∷ []) s in if nat_beq c b'\n' then here else more

unfoldable pub nonempty_lines : OsString → List OsString
unfolding lines_from
nonempty_lines = lines_from []

module _ (root : FilePath) (label : String) where
  -- One line of the table.
  check_mount : OsString → CageResult (Unit {0})
  check_mount line = do
    field ← ok_or (get_elem? (split_whitespace line) 4) (
        policy (at_path root)
          "the host mount table could not be parsed while validating a protected tree")
    mountpoint ←
        ok_or (decode_mountinfo_path field)
          (policy (at_path root) "the host mount table contained an invalid protected-tree path")
    reject_if (not (mountpoint == root) && starts_with mountpoint root)
        (policy (at_path mountpoint) (label <> " trees must not contain nested mountpoints"))

  unfoldable pub validate_no_nested_mounts : IoResult OsString → CageResult (Unit {0})
  unfolding check_mount for_each
  validate_no_nested_mounts mountinfo = do
    text ← map_err mountinfo (λ _. io "could not inspect mountpoints below" (at_path root))
    for_each check_mount (nonempty_lines text)
