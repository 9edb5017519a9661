-- ===== src/Text/Literal/Escapes.antt =====
-- Escapes with hexadecimal digits.
use hwarangdo.Prelude.{ℕ, ◌+◌, ◌/◌, ◌%◌, List, [], ◌∷◌, ◌++◌, ltb, if◌then◌else◌}

-- The digit of a number below 16, in lower case.
abbrev pub hex_digit : ℕ → ℕ
hex_digit d = if ltb d 10 then 48 + d else 87 + d

-- The last four digits of a number.
abbrev pub hex4 : ℕ → List ℕ
hex4 n =
    hex_digit (n / 4096 % 16)
    ∷ hex_digit (n / 256 % 16)
    ∷ hex_digit (n / 16 % 16)
    ∷ hex_digit (n % 16)
    ∷ []

-- Its last eight digits.
abbrev pub hex8 : ℕ → List ℕ
hex8 n = hex4 (n / 65536) ++ hex4 n
