-- ===== src/Text/Examples.antt =====
-- The theorems on UTF-8 at the letters of a short text.
use hwarangdo.Prelude.{List, ℕ}
use hwarangdo.Text.{err, TextError}
use hwarangdo.Prelude.{◌⊎◌, ◌≡◌, refl, true, some, [], ◌∷◌, ◌++◌, arith}
use hwarangdo.Text.{ok, is_valid_unicode_scalar, decode_one, decode_all}
use hwarangdo.Text.Encode.{encode, encode_all}
use hwarangdo.Text.RoundTrip.{decode_all-encode}
use hwarangdo.Text.Sound.{decode_one-Spells}
use hwarangdo.Text.RoundTrip.{AllScalars}
use hwarangdo.Text.Literal.{
  decode_char_literal, decode_escape, resolve_string, classify_string_width,
}
use hwarangdo.Text.Literal.Plain.{decode_char_literal-encode, decode_char_literal-cases}
use hwarangdo.Text.Literal.Widths.{resolve_string-total, resolve_string-encode_all}

decode_all-encode_example :
    decode_all 2 (encode_all (0xD654 ∷ 0x1F600 ∷ [])) ≡ some (ok (0xD654 ∷ 0x1F600 ∷ []))
decode_all-encode_example =
    decode_all-encode (0xD654 ∷ 0x1F600 ∷ []) 2
      (unfold is_valid_unicode_scalar in (refl, (refl, tt))) (omega arith)

decode_one-Spells_example :
    (0xED ∷ 0x99 ∷ 0x94 ∷ 65 ∷ [] ≡ encode 0xD654 ++ 65 ∷ [])
    × (is_valid_unicode_scalar 0xD654 ≡ true)
decode_one-Spells_example =
    decode_one-Spells (0xED ∷ 0x99 ∷ 0x94 ∷ 65 ∷ []) 0xD654 (65 ∷ []) (unfold decode_one in refl)

decode_char_literal-encode_example : decode_char_literal (encode 0xD654) ≡ ok 0xD654
decode_char_literal-encode_example =
    decode_char_literal-encode 0xD654 (unfold is_valid_unicode_scalar in refl)
      (λ e. omega (arith, e))

decode_char_literal-cases_example :
    (is_valid_unicode_scalar 65 ≡ true)
    × ((65 ∷ [] ≡ encode 65) ⊎ ((e : List ℕ) × (65 ∷ [] ≡ 92 ∷ e) × (decode_escape e ≡ ok 65)))
decode_char_literal-cases_example =
    decode_char_literal-cases (65 ∷ []) 65
      (unfold decode_char_literal is_valid_unicode_scalar in refl)

resolve_string-total_example :
    ((cps : List ℕ) × (resolve_string (0xED ∷ 0x99 ∷ 0x94 ∷ [])
        ≡ some (ok (classify_string_width cps, cps)))
      × (0xED ∷ 0x99 ∷ 0x94 ∷ [] ≡ encode_all cps)
      × AllScalars cps)
    ⊎ ((e : TextError) × (resolve_string (0xED ∷ 0x99 ∷ 0x94 ∷ []) ≡ some (err e)))
resolve_string-total_example = resolve_string-total (0xED ∷ 0x99 ∷ 0x94 ∷ [])

resolve_string-encode_all_example :
    resolve_string (encode_all (0xD654 ∷ 33 ∷ []))
    ≡ some (ok (classify_string_width (0xD654 ∷ 33 ∷ []), 0xD654 ∷ 33 ∷ []))
resolve_string-encode_all_example =
    resolve_string-encode_all (0xD654 ∷ 33 ∷ [])
      (unfold is_valid_unicode_scalar in (refl, (refl, tt)))
