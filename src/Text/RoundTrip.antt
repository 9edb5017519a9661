-- ===== src/Text/RoundTrip.antt =====
-- What is encoded is decoded.
use hwarangdo.Prelude.{
  ℕ, zero, suc, ◌<◌, ◌≤◌, ◌≡◌, refl, true, some, List, [], ◌∷◌, ◌++◌, arith, ltb, length,
  Bool-cases, inl, inr,
}
use hwarangdo.Text.{ok, is_valid_unicode_scalar, decode_one, decode_all}
use hwarangdo.Text.Encode.{encode, encode_all}

decode-encode_one :
    (cp : ℕ) (rest : List ℕ) → cp < 0x80 → decode_one (encode cp ++ rest) ≡ ok (cp, rest)
unfolding encode decode_one
decode-encode_one cp rest h = ground arith

decode-encode_two :
    (cp : ℕ) (rest : List ℕ)
    → 0x80 ≤ cp
    → cp < 0x800
    → decode_one (encode cp ++ rest) ≡ ok (cp, rest)
unfolding encode decode_one
decode-encode_two cp rest l h = ground arith

decode-encode_three :
    (cp : ℕ) (rest : List ℕ)
    → 0x800 ≤ cp
    → cp < 0x10000
    → is_valid_unicode_scalar cp ≡ true
    → decode_one (encode cp ++ rest) ≡ ok (cp, rest)
unfolding encode decode_one is_valid_unicode_scalar
decode-encode_three cp rest l h v = ground arith

decode-encode_four :
    (cp : ℕ) (rest : List ℕ)
    → 0x10000 ≤ cp
    → is_valid_unicode_scalar cp ≡ true
    → decode_one (encode cp ++ rest) ≡ ok (cp, rest)
unfolding encode decode_one is_valid_unicode_scalar
decode-encode_four cp rest l v = ground arith

-- Every Unicode scalar value is decoded from its UTF-8 bytes, which are all that is read.
pub decode_one-encode :
    (cp : ℕ) (rest : List ℕ)
    → is_valid_unicode_scalar cp ≡ true
    → decode_one (encode cp ++ rest) ≡ ok (cp, rest)
decode_one-encode cp rest v = elim (Bool-cases (ltb cp 0x80)) [
  | inl h ↦ decode-encode_one cp rest (ground arith)
  | inr l ↦ elim (Bool-cases (ltb cp 0x800)) [
    | inl h ↦ decode-encode_two cp rest (ground arith) (ground arith)
    | inr m ↦ elim (Bool-cases (ltb cp 0x10000)) [
      | inl h ↦ decode-encode_three cp rest (ground arith) (ground arith) v
      | inr n ↦ decode-encode_four cp rest (ground arith) v
    ]
  ]
]

abbrev pub AllScalars : List ℕ → Type 0
AllScalars [] = Unit
AllScalars (cp ∷ cps) = (is_valid_unicode_scalar cp ≡ true) × AllScalars cps

decode_all_step :
    (fuel : ℕ) (s rest : List ℕ) (cp : ℕ) (cps : List ℕ)
    → decode_one s ≡ ok (cp, rest)
    → decode_all fuel rest ≡ some (ok cps)
    → decode_all (suc fuel) s ≡ some (ok (cp ∷ cps))
unfolding decode_all
decode_all_step fuel [] rest cp cps d e = absurd (unfold decode_one in cc d)
decode_all_step fuel (x ∷ s) rest cp cps d e = ground (arith, d, e)

-- The UTF-8 bytes of a sequence of scalar values are decoded to that sequence; a round for each of
-- them is fuel enough.
pub decode_all-encode :
    (cps : List ℕ) (fuel : ℕ)
    → AllScalars cps
    → length cps ≤ fuel
    → decode_all fuel (encode_all cps) ≡ some (ok cps)
unfolding encode_all
decode_all-encode [] fuel v h = unfold decode_all in refl
decode_all-encode (cp ∷ cps) zero v h = absurd (omega arith)
decode_all-encode (cp ∷ cps) (suc fuel) v h =
    decode_all_step fuel (encode cp ++ encode_all cps) (encode_all cps) cp cps
      (decode_one-encode cp (encode_all cps) v.0) (decode_all-encode cps fuel v.1 (omega arith))
