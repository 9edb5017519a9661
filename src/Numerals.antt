-- ===== src/Numerals.antt =====
-- Integer literals: `compareUnsignedDecimal` and `resolveLitInt` of src/util/Helper.cpp. A text is
-- the list of its bytes; the lexer hands on digits, 48 to 57. `APInt` then reads the text without its
-- leading zeros, at the width that is found here.
pub mod Values
mod Examples
use hwarangdo.Prelude.{
  ℕ, zero, suc, ◌+◌, Bool, true, false, not, ◌&&◌, ◌||◌, Option, none, some, List, [], ◌∷◌, leb,
  ltb, ◌==◌, if◌then◌else◌, length,
}

-- The signs of the results -1, 0 and 1.
pub data Sign : Type 0 where
  negative zero_sign positive : Sign

-- `a < b` on `std::string`.
unfoldable pub less_text : List ℕ → List ℕ → Bool
less_text [] [] = false
less_text [] (y ∷ ys) = true
less_text (x ∷ xs) [] = false
less_text (x ∷ xs) (y ∷ ys) = ltb x y || (x == y && less_text xs ys)

unfoldable pub compare_unsigned_decimal : List ℕ → List ℕ → Sign
unfolding less_text
compare_unsigned_decimal a b =
    if ltb (length a) (length b)
    then negative
    else if ltb (length b) (length a)
    then positive
    else if less_text a b
    then negative
    else if less_text b a
    then positive
    else zero_sign

abbrev pub at_most : Sign → Bool
at_most positive = false
at_most _ = true

abbrev pub max32 : List ℕ
max32 = 50 ∷ 49 ∷ 52 ∷ 55 ∷ 52 ∷ 56 ∷ 51 ∷ 54 ∷ 52 ∷ 55 ∷ []

abbrev pub max64 : List ℕ
max64 =
    57 ∷ 50 ∷ 50 ∷ 51 ∷ 51 ∷ 55 ∷ 50 ∷ 48 ∷ 51 ∷ 54 ∷ 56 ∷ 53 ∷ 52 ∷ 55 ∷ 55 ∷ 53 ∷ 56 ∷ 48 ∷ 55
    ∷ []

abbrev pub max128 : List ℕ
max128 =
    49 ∷ 55 ∷ 48 ∷ 49 ∷ 52 ∷ 49 ∷ 49 ∷ 56 ∷ 51 ∷ 52 ∷ 54 ∷ 48 ∷ 52 ∷ 54 ∷ 57 ∷ 50 ∷ 51 ∷ 49 ∷ 55
    ∷ 51 ∷ 49 ∷ 54 ∷ 56 ∷ 55 ∷ 51 ∷ 48 ∷ 51 ∷ 55 ∷ 49 ∷ 53 ∷ 56 ∷ 56 ∷ 52 ∷ 49 ∷ 48 ∷ 53 ∷ 55 ∷ 50
    ∷ 55 ∷ []

-- `substr(find_first_not_of('0'))`; the empty list is `npos`.
unfoldable pub drop_zeros : List ℕ → List ℕ
drop_zeros [] = []
drop_zeros (c ∷ s) = let rest = drop_zeros s in if c == 48 then rest else c ∷ s

abbrev pub or_zero : List ℕ → List ℕ
or_zero [] = 48 ∷ []
or_zero (c ∷ s) = c ∷ s

unfoldable pub significant : List ℕ → List ℕ
unfolding drop_zeros
significant s = or_zero (drop_zeros s)

-- The width and the text that `APInt` reads; `none` is the diagnostic.
unfoldable pub resolve_lit_int : List ℕ → Option (ℕ × List ℕ)
unfolding compare_unsigned_decimal significant
resolve_lit_int text =
    let s = significant text in
    if at_most (compare_unsigned_decimal s max32)
    then some (32, s)
    else if at_most (compare_unsigned_decimal s max64)
    then some (64, s)
    else if at_most (compare_unsigned_decimal s max128)
    then some (128, s)
    else none
