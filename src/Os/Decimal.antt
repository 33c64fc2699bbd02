-- ===== src/Os/Decimal.antt =====
-- Numbers written in decimal, `to_string()`.
use cargo_cage.Base.{ℕ, zero, suc, ◌+◌, ◌/◌, ◌%◌, [], ◌∷◌, ltb, if◌then◌else◌}
use cargo_cage.Os.Text.{OsString}

-- The digits in front of a text. A number below ten to the power of the fuel is written whole.
digits_onto : ℕ → ℕ → OsString → OsString
digits_onto zero n rest = rest
digits_onto (suc fuel) n rest =
    let here = (b'0' + n % 10) ∷ rest in
    let more = digits_onto fuel (n / 10) here in if ltb n 10 then here else more

-- Twenty digits hold every `u64`.
unfoldable pub decimal : ℕ → OsString
unfolding digits_onto
decimal n = digits_onto 20 n []
