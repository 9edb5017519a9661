-- ===== src/Numerals/Examples.antt =====
-- The theorem on integer literals at 02147483648.
use hwarangdo.Prelude.{ℕ, ◌-◌, ◌^◌, ◌≡◌, arith, none, some, List, [], ◌∷◌, leb, if◌then◌else◌}
use hwarangdo.Numerals.{significant, resolve_lit_int}
use hwarangdo.Numerals.Values.{value, Digits, resolve_lit_int-width}

abbrev over_max32 : List ℕ
over_max32 = 48 ∷ 50 ∷ 49 ∷ 52 ∷ 55 ∷ 52 ∷ 56 ∷ 51 ∷ 54 ∷ 52 ∷ 56 ∷ []

over_max32-Digits : Digits over_max32
over_max32-Digits = (
  (omega arith, omega arith),
  (
    (omega arith, omega arith),
    (
      (omega arith, omega arith),
      (
        (omega arith, omega arith),
        (
          (omega arith, omega arith),
          (
            (omega arith, omega arith),
            (
              (omega arith, omega arith),
              (
                (omega arith, omega arith),
                (
                  (omega arith, omega arith),
                  ((omega arith, omega arith), ((omega arith, omega arith), tt)),
                ),
              ),
            ),
          ),
        ),
      ),
    ),
  ),
)

resolve_lit_int-width_example :
    (resolve_lit_int over_max32 ≡ (
      if leb (value over_max32) (2 ^ 31 - 1)
      then some (32, significant over_max32)
      else if leb (value over_max32) (2 ^ 63 - 1)
      then some (64, significant over_max32)
      else if leb (value over_max32) (2 ^ 127 - 1)
      then some (128, significant over_max32)
      else none))
    × (value (significant over_max32) ≡ value over_max32)
resolve_lit_int-width_example = resolve_lit_int-width over_max32 over_max32-Digits
