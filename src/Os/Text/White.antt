-- ===== src/Os/Text/White.antt =====
-- White space in Unicode's sense, as bytes of UTF-8, and `str::trim`.
use cargo_cage.Base.{ℕ, zero, suc, ◌&&◌, ◌||◌, [], ◌∷◌, ◌++◌, leb, nat_beq, if◌then◌else◌}
use cargo_cage.Os.Text.{OsString}

-- The length of the white space, in Unicode's sense, that a text starts with; 0 if it is none.
unfoldable pub white_length : OsString → ℕ
white_length [] = 0
white_length (c ∷ []) = if leb 0x09 c && leb c 0x0D || nat_beq c 0x20 then 1 else 0
white_length (c ∷ d ∷ []) =
    if leb 0x09 c && leb c 0x0D || nat_beq c 0x20
    then 1
    else if nat_beq c 0xC2 && (nat_beq d 0x85 || nat_beq d 0xA0)
    then 2
    else 0
white_length (c ∷ d ∷ e ∷ s) =
    if leb 0x09 c && leb c 0x0D || nat_beq c 0x20
    then 1
    else if nat_beq c 0xC2 && (nat_beq d 0x85 || nat_beq d 0xA0)
    then 2
    else if nat_beq c 0xE1 && nat_beq d 0x9A && nat_beq e 0x80
    then 3
    else if nat_beq c 0xE2
        && nat_beq d 0x80
        && (leb 0x80 e && leb e 0x8A || nat_beq e 0xA8 || nat_beq e 0xA9 || nat_beq e 0xAF)
    then 3
    else if nat_beq c 0xE2 && nat_beq d 0x81 && nat_beq e 0x9F
    then 3
    else if nat_beq c 0xE3 && nat_beq d 0x80 && nat_beq e 0x80
    then 3
    else 0

-- The text from its first character that is no white space on; so many bytes are left of one.
trim_start_from : ℕ → OsString → OsString
unfolding white_length
trim_start_from skip [] = []
trim_start_from (suc skip) (c ∷ s) = trim_start_from skip s
trim_start_from zero (c ∷ s) = elim (white_length (c ∷ s)) [
  | zero ↦ c ∷ s
  | suc n ↦ trim_start_from n s
]

-- The text up to its last character that is no white space; `pending` is the white space so far.
trim_end_from : OsString → ℕ → OsString → OsString
unfolding white_length
trim_end_from pending skip [] = []
trim_end_from pending (suc skip) (c ∷ s) = trim_end_from (pending ++ c ∷ []) skip s
trim_end_from pending zero (c ∷ s) = elim (white_length (c ∷ s)) [
  | zero ↦ pending ++ c ∷ trim_end_from [] 0 s
  | suc n ↦ trim_end_from (pending ++ c ∷ []) n s
]

unfoldable pub trim : OsString → OsString
unfolding trim_start_from trim_end_from
trim s = trim_end_from [] 0 (trim_start_from 0 s)
