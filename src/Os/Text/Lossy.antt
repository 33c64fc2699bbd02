-- ===== src/Os/Text/Lossy.antt =====
-- `String::from_utf8_lossy`
use cargo_cage.Base.{none, some, [], ◌∷◌, ◌++◌}
use cargo_cage.Os.Text.{OsString, Utf8State, start, utf8_step}

-- U+FFFD
abbrev replacement : OsString
replacement = 0xEF ∷ 0xBF ∷ 0xBD ∷ []

-- `pending` holds the bytes of the character that has begun. A byte that cannot go on with it turns
-- it into one replacement, and may begin the next character.
lossy_from : OsString → Utf8State → OsString → OsString
unfolding utf8_step
lossy_from pending start [] = []
lossy_from pending _ [] = replacement
lossy_from pending q (c ∷ s) =
    let begin : OsString = elim (utf8_step start c) [
      | none ↦ replacement ++ lossy_from [] start s
      | some start ↦ c ∷ lossy_from [] start s
      | some r ↦ lossy_from (c ∷ []) r s
    ] in
    elim (utf8_step q c) [
      | some start ↦ pending ++ c ∷ lossy_from [] start s
      | some r ↦ lossy_from (pending ++ c ∷ []) r s
      | none ↦ elim q [ start ↦ begin | _ ↦ replacement ++ begin ]
    ]

unfoldable pub from_utf8_lossy : OsString → OsString
unfolding lossy_from
from_utf8_lossy = lossy_from [] start
