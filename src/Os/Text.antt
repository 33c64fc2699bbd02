-- ===== src/Os/Text.antt =====
-- `OsString`, `OsStr` and `str` on Unix: byte strings, with the tests of `str` that the program uses.
-- A `str` is an `OsString` that `to_str` accepts, so that both are lists of bytes here.
pub mod White
pub mod Lossy
use Prim.Native.Char.{code}
use cargo_cage.Base.{
  ℕ, ◌-◌, ◌≡◌, refl, String, Bool, true, false, ◌&&◌, ◌||◌, Option, none, some, List, [], ◌∷◌, map,
  arith, leb, nat_beq, ◌==◌, list_eq, list_beq, nat_eq, if◌then◌else◌, Option-cases, inl, inr,
}

abbrev pub OsString : Type 0
OsString = List ℕ

-- The bytes of an ASCII literal.
abbrev pub bytes : String → OsString
bytes String.[] = []
bytes (String.◌∷◌ c s) = code c ∷ bytes s

-- `value.strip_prefix(prefix)` and `value.starts_with(prefix)`
unfoldable pub strip_prefix : OsString → OsString → Option OsString
strip_prefix s [] = some s
strip_prefix [] (p ∷ ps) = none
strip_prefix (c ∷ s) (p ∷ ps) = let rest = strip_prefix s ps in if nat_beq c p then rest else none

unfoldable pub text_starts_with : OsString → OsString → Bool
text_starts_with s [] = true
text_starts_with [] (p ∷ ps) = false
text_starts_with (c ∷ s) (p ∷ ps) = nat_beq c p && text_starts_with s ps

-- `value.ends_with(suffix)`
unfoldable pub text_ends_with : OsString → OsString → Bool
unfolding list_beq
text_ends_with [] t = [] == t
text_ends_with (c ∷ s) t = (c ∷ s) == t || text_ends_with s t

-- `str::to_ascii_uppercase`, byte by byte.
unfoldable pub upper_byte : ℕ → ℕ
upper_byte c = if leb b'a' c && leb c b'z' then c - 32 else c

unfoldable pub to_ascii_uppercase : OsString → OsString
to_ascii_uppercase = map upper_byte

-- Well-formed UTF-8, which `to_str` checks: the states of the automaton name what may come next.
pub data Utf8State : Type 0 where
  start one two three : Utf8State
  after_e0 after_ed after_f0 after_f4 : Utf8State

between : ℕ → ℕ → ℕ → Bool
between low high c = leb low c && leb c high

first_byte : ℕ → Option Utf8State
unfolding between
first_byte c =
    if leb c 0x7F
    then some start
    else if between 0xC2 0xDF c
    then some one
    else if nat_beq c 0xE0
    then some after_e0
    else if nat_beq c 0xED
    then some after_ed
    else if between 0xE1 0xEF c
    then some two
    else if nat_beq c 0xF0
    then some after_f0
    else if between 0xF1 0xF3 c
    then some three
    else if nat_beq c 0xF4
    then some after_f4
    else none

utf8_step : Utf8State → ℕ → Option Utf8State
unfolding first_byte between
utf8_step start c = first_byte c
utf8_step one c = if between 0x80 0xBF c then some start else none
utf8_step two c = if between 0x80 0xBF c then some one else none
utf8_step three c = if between 0x80 0xBF c then some two else none
utf8_step after_e0 c = if between 0xA0 0xBF c then some one else none
utf8_step after_ed c = if between 0x80 0x9F c then some one else none
utf8_step after_f0 c = if between 0x90 0xBF c then some two else none
utf8_step after_f4 c = if between 0x80 0x8F c then some two else none

utf8_run : OsString → Utf8State → Bool
unfolding utf8_step
utf8_run [] start = true
utf8_run [] _ = false
utf8_run (c ∷ s) q = elim (utf8_step q c) [ none ↦ false | some r ↦ utf8_run s r ]

unfoldable pub is_utf8 : OsString → Bool
unfolding utf8_run
is_utf8 s = utf8_run s start

unfoldable pub to_str : OsString → Option OsString
unfolding is_utf8
to_str s = if is_utf8 s then some s else none

-- Upper case touches ASCII letters alone, so well-formed text stays well-formed and no other becomes so.
utf8_step-upper_byte : (q : Utf8State) (c : ℕ) → utf8_step q (upper_byte c) ≡ utf8_step q c
unfolding utf8_step upper_byte
utf8_step-upper_byte start c = ground arith
utf8_step-upper_byte _ c = ground arith

utf8_run-upper : (s : OsString) (q : Utf8State) → utf8_run (to_ascii_uppercase s) q ≡ utf8_run s q
unfolding utf8_run to_ascii_uppercase
utf8_run-upper [] q = refl
utf8_run-upper (c ∷ s) q = elim (Option-cases (utf8_step q c)) [
  | inl e ↦ rw (utf8_step-upper_byte q c, e, utf8_run)
  | inr (r, e) ↦ rw (utf8_step-upper_byte q c, e, utf8_run) (utf8_run-upper s r)
]

pub is_utf8-upper : (s : OsString) → is_utf8 (to_ascii_uppercase s) ≡ is_utf8 s
unfolding is_utf8
is_utf8-upper s = utf8_run-upper s start

pub upper_byte_idem : (c : ℕ) → upper_byte (upper_byte c) ≡ upper_byte c
unfolding upper_byte
upper_byte_idem c = ground arith

pub to_ascii_uppercase_idem :
    (s : OsString) → to_ascii_uppercase (to_ascii_uppercase s) ≡ to_ascii_uppercase s
unfolding to_ascii_uppercase
to_ascii_uppercase_idem [] = refl
to_ascii_uppercase_idem (c ∷ s) = cc (upper_byte_idem c, to_ascii_uppercase_idem s)
