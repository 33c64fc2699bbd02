-- ===== src/Linux/Tree/MountTable/Escape.antt =====
-- cage-linux/src/tree.rs: what `decode_mountinfo_path` reads back. The kernel writes the bytes that
-- would break a field of the table, and the backslash, as three octal digits behind a backslash.
use cargo_cage.Base.{
  ℕ, ◌+◌, ◌*◌, ◌/◌, ◌%◌, ◌<◌, ◌≡◌, refl, Bool, true, false, ◌||◌, some, [], ◌∷◌, arith, ap, All,
  nat_beq, if◌then◌else◌, Bool-cases, inl, inr,
}
use cargo_cage.Os.Text.{OsString, is_utf8}
use cargo_cage.Os.FilePath.{path_of}
use cargo_cage.Linux.Tree.MountTable.{
  octal_step, is_octal, octal_byte, push_byte, decode_bytes, decode_mountinfo_path,
}

-- The text with the backslash and every byte that the test picks escaped.
pub escape : (ℕ → Bool) → OsString → OsString
escape picked [] = []
escape picked (c ∷ s) =
    let rest = escape picked s in
    let octal = b'\\' ∷ (b'0' + c / 64) ∷ (b'0' + c / 8 % 8) ∷ (b'0' + c % 8) ∷ rest in
    if nat_beq c b'\\' || picked c then octal else c ∷ rest

is_octal-digit : (d : ℕ) → d < 8 → is_octal (b'0' + d) ≡ true
unfolding is_octal
is_octal-digit d h = ground arith

-- No step of a byte's three digits overflows in its result.
octal_step-digit :
    (value d : ℕ) → d < 8 → value * 8 + d < 256 → octal_step value (b'0' + d) ≡ value * 8 + d
unfolding octal_step
octal_step-digit value d h k = omega arith

octal_byte-digits :
    (c : ℕ) → c < 256 → octal_byte (b'0' + c / 64) (b'0' + c / 8 % 8) (b'0' + c % 8) ≡ some c
unfolding octal_byte
octal_byte-digits c h =
    rw
      (
        is_octal-digit (c / 64) (omega arith),
        is_octal-digit (c / 8 % 8) (omega arith),
        is_octal-digit (c % 8) (omega arith),
        octal_step-digit 0 (c / 64) (omega arith) (omega arith),
        octal_step-digit (0 * 8 + c / 64) (c / 8 % 8) (omega arith) (omega arith),
        octal_step-digit ((0 * 8 + c / 64) * 8 + c / 8 % 8) (c % 8) (omega arith) (omega arith),
      )
      (ap some (omega arith))

decode_bytes-plain :
    (c : ℕ) (s : OsString)
    → nat_beq c b'\\' ≡ false
    → decode_bytes (c ∷ s) ≡ push_byte (some c) (decode_bytes s)
unfolding decode_bytes
decode_bytes-plain c [] h = rw h refl
decode_bytes-plain c (d ∷ []) h = rw h refl
decode_bytes-plain c (d ∷ e ∷ []) h = rw h refl
decode_bytes-plain c (d ∷ e ∷ f ∷ s) h = rw h refl

decode_bytes-octal :
    (c : ℕ) (s rest : OsString)
    → c < 256
    → decode_bytes rest ≡ some s
    → decode_bytes (b'\\' ∷ (b'0' + c / 64) ∷ (b'0' + c / 8 % 8) ∷ (b'0' + c % 8) ∷ rest)
      ≡ some (c ∷ s)
unfolding decode_bytes push_byte
decode_bytes-octal c s rest h e = rw (octal_byte-digits c h, e) refl

decode_bytes-escape :
    (picked : ℕ → Bool) (s : OsString)
    → All (λ c. c < 256) s
    → decode_bytes (escape picked s) ≡ some s
unfolding escape
decode_bytes-escape picked [] h = unfold decode_bytes in refl
decode_bytes-escape picked (c ∷ s) h = elim (Bool-cases (nat_beq c b'\\' || picked c)) [
  | inl e ↦ rw e (decode_bytes-octal c s (escape picked s) h.0 (decode_bytes-escape picked s h.1))
  | inr e ↦
      rw
        (e, decode_bytes-plain c (escape picked s) (ground arith), decode_bytes-escape picked s h.1)
        (unfold push_byte in refl)
]

-- Whatever other bytes are written as escapes, the decoder reads back the path of the text.
pub decode_mountinfo_path-escape :
    (picked : ℕ → Bool) (s : OsString)
    → All (λ c. c < 256) s
    → is_utf8 s ≡ true
    → decode_mountinfo_path (escape picked s) ≡ some (path_of s)
unfolding decode_mountinfo_path
decode_mountinfo_path-escape picked s h u =
    rw (decode_mountinfo_path, decode_bytes-escape picked s h, u) refl
