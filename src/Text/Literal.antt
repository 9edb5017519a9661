-- ===== src/Text/Literal.antt =====
-- The values and types of literals: `decodeCharLiteral`, `resolveChar` and `resolveString` of
-- src/SemanticAnalyzer/Resolver/ResolveChar.cpp, and `parseHex` and the classification of widths of
-- include/hrd/SemanticAnalyzer/Resolver.h. The text of a literal is what the lexer hands on, without
-- its quotes. A type is given by the width of its characters, 8, 16 or 32 bits: the table of types
-- has a symbol for each.
pub mod Plain
pub mod Escapes
pub mod Widths
use hwarangdo.Prelude.{
  ℕ, zero, suc, ◌+◌, ◌-◌, ◌*◌, ◌%◌, Bool, true, false, not, ◌&&◌, ◌||◌, Option, none, some, List,
  [], ◌∷◌, ltb, leb, ◌==◌, if◌then◌else◌, length,
}
use hwarangdo.Text.{
  Result, ok, err, ◌>>=◌, ◌>>◌, fail_if, one_scalar, empty_char, invalid_utf8, overlong,
  invalid_escape, bad_u4, bad_u8, unknown_escape, invalid_scalar, invalid_hex, leads_two,
  leads_three, leads_four, is_continuation, is_valid_unicode_scalar, spell_two, spell_three,
  spell_four, decode_all,
}

-- The sequences of one to four bytes; here the text must have no other byte.
unfoldable pub only_one : ℕ → List ℕ → Result ℕ
only_one b₀ [] = ok b₀
only_one b₀ _ = err one_scalar

unfoldable pub only_two : ℕ → List ℕ → Result ℕ
unfolding is_continuation
only_two b₀ (b₁ ∷ []) = do
  fail_if (not (is_continuation b₁)) invalid_utf8
  fail_if (ltb (spell_two b₀ b₁) 0x80) overlong
  ok (spell_two b₀ b₁)
only_two b₀ _ = err one_scalar

unfoldable pub only_three : ℕ → List ℕ → Result ℕ
unfolding is_continuation
only_three b₀ (b₁ ∷ b₂ ∷ []) = do
  fail_if (not (is_continuation b₁) || not (is_continuation b₂)) invalid_utf8
  fail_if (ltb (spell_three b₀ b₁ b₂) 0x800) overlong
  ok (spell_three b₀ b₁ b₂)
only_three b₀ _ = err one_scalar

unfoldable pub only_four : ℕ → List ℕ → Result ℕ
unfolding is_continuation
only_four b₀ (b₁ ∷ b₂ ∷ b₃ ∷ []) = do
  fail_if (not (is_continuation b₁) || not (is_continuation b₂) || not (is_continuation b₃))
      invalid_utf8
  fail_if (ltb (spell_four b₀ b₁ b₂ b₃) 0x10000) overlong
  ok (spell_four b₀ b₁ b₂ b₃)
only_four b₀ _ = err one_scalar

unfoldable pub decode_plain : ℕ → List ℕ → Result ℕ
unfolding leads_two leads_three leads_four only_one only_two only_three only_four
decode_plain b₀ rest =
    if ltb b₀ 0x80
    then only_one b₀ rest
    else if leads_two b₀
    then only_two b₀ rest
    else if leads_three b₀
    then only_three b₀ rest
    else if leads_four b₀
    then only_four b₀ rest
    else err invalid_utf8

unfoldable pub is_hex_digit : ℕ → Bool
is_hex_digit c = (leb 48 c && leb c 57) || (leb 97 c && leb c 102) || (leb 65 c && leb c 70)

-- Called on hexadecimal digits only.
unfoldable pub hex_value : ℕ → ℕ
hex_value c =
    if leb 48 c && leb c 57
    then c - 48
    else if leb 97 c && leb c 102
    then 10 + (c - 97)
    else 10 + (c - 65)

-- The loop of `parseHex` over the digits that are left. A `uint32_t` that is shifted by four bits
-- loses its upper ones, and has four zeros at its end.
unfoldable pub parse_hex : ℕ → List ℕ → Result ℕ
unfolding is_hex_digit hex_value
parse_hex value [] = ok value
parse_hex value (c ∷ cs) = do
  fail_if (not (is_hex_digit c)) invalid_hex
  parse_hex ((value * 16) % 0x1_0000_0000 + hex_value c) cs

-- An escape of one letter.
abbrev pub letter : ℕ → List ℕ → Result ℕ
letter cp [] = ok cp
letter cp _ = err invalid_escape

-- What stands behind the backslash.
unfoldable pub decode_escape : List ℕ → Result ℕ
unfolding parse_hex
decode_escape [] = err invalid_escape
decode_escape (e ∷ rest) =
    if e == 92
    then letter 92 rest
    else if e == 39
    then letter 39 rest
    else if e == 34
    then letter 34 rest
    else if e == 110
    then letter 10 rest
    else if e == 114
    then letter 13 rest
    else if e == 116
    then letter 9 rest
    else if e == 48
    then letter 0 rest
    else if e == 117
    then (do fail_if (not (length rest == 4)) bad_u4; parse_hex 0 rest)
    else if e == 85
    then (do fail_if (not (length rest == 8)) bad_u8; parse_hex 0 rest)
    else err unknown_escape

abbrev pub check_literal : ℕ → Result ℕ
check_literal cp = do fail_if (not (is_valid_unicode_scalar cp)) invalid_scalar; ok cp

unfoldable pub decode_char_literal : List ℕ → Result ℕ
unfolding decode_plain decode_escape
decode_char_literal [] = err empty_char
decode_char_literal (c ∷ rest) =
    (if c == 92 then decode_escape rest else decode_plain c rest) >>= check_literal

abbrev pub width_of : ℕ → ℕ
width_of cp = if leb cp 0xFF then 8 else if leb cp 0xFFFF then 16 else 32

-- A width and a value.
unfoldable pub resolve_char : List ℕ → Result (ℕ × ℕ)
unfolding decode_char_literal
resolve_char s = do cp ← decode_char_literal s; ok (width_of cp, cp)

-- `maxCp = std::max(maxCp, cp)` for each code point.
unfoldable pub max_cp : ℕ → List ℕ → ℕ
max_cp m [] = m
max_cp m (cp ∷ cps) = max_cp (if ltb m cp then cp else m) cps

-- A width and the code points.
unfoldable pub resolve_string : List ℕ → Option (Result (ℕ × List ℕ))
unfolding max_cp
resolve_string s = elim (decode_all (length s) s) [
  | none ↦ none
  | some (err e) ↦ some (err e)
  | some (ok cps) ↦ some (ok (width_of (max_cp 0 cps), cps))
]

-- The loop of `classifyStringWidth`; `none` is its early return.
unfoldable pub max_scalar : ℕ → List ℕ → Option ℕ
unfolding is_valid_unicode_scalar
max_scalar m [] = some m
max_scalar m (cp ∷ cps) =
    let rest = max_scalar (if ltb m cp then cp else m) cps in
    if not (is_valid_unicode_scalar cp) then none else rest

unfoldable pub classify_string_width : List ℕ → ℕ
unfolding max_scalar
classify_string_width cps = elim (max_scalar 0 cps) [ none ↦ 0 | some m ↦ width_of m ]
