-- ===== src/Text/Literal/Widths.antt =====
-- The types of literals, and the decoding of whole strings.
use hwarangdo.Prelude.{
  ℕ, zero, suc, ◌<◌, ◌≤◌, ◌≡◌, ◌⊎◌, refl, ap, ◌∙◌, some, List, [], ◌∷◌, ◌++◌, arith, ltb,
  if◌then◌else◌, length, inl, inr, length-append,
}
use hwarangdo.Text.{TextError, Result, ok, err, decode_one, decode_all}
use hwarangdo.Text.Encode.{encode, encode_all}
use hwarangdo.Text.RoundTrip.{AllScalars, decode_all-encode}
use hwarangdo.Text.Sound.{decode_one-Spells}
use hwarangdo.Text.Literal.{resolve_string, classify_string_width, width_of, max_cp, max_scalar}

Result-cases {ℓ} :
    {A : Type ℓ} (m : Result A) → ((a : A) × (m ≡ ok a)) ⊎ ((e : TextError) × (m ≡ err e))
Result-cases (ok a) = inl (a, refl)
Result-cases (err e) = inr (e, refl)

encode_nonempty : (cp : ℕ) → 0 < length (encode cp)
unfolding encode
encode_nonempty cp = ground arith

-- What is decoded is shorter than the text.
rest_shorter : (s rest : List ℕ) (cp : ℕ) → decode_one s ≡ ok (cp, rest) → length rest < length s
rest_shorter s rest cp e =
    let (spells, valid) = decode_one-Spells s cp rest e in
    omega (arith, ap length spells, length-append (encode cp) rest, encode_nonempty cp)

-- `decodeOneUtf8CodePoint` reads every byte of a text once: on as much fuel as the text has bytes
-- the loop ends, with an error or with code points whose UTF-8 is the text.
pub decode_all-total :
    (fuel : ℕ) (s : List ℕ)
    → length s ≤ fuel
    → ((cps : List ℕ) × (decode_all fuel s ≡ some (ok cps)) × (s ≡ encode_all cps) × AllScalars cps)
      ⊎ ((e : TextError) × (decode_all fuel s ≡ some (err e)))
unfolding decode_all encode_all
decode_all-total fuel [] h = inl ([], refl, refl, tt)
decode_all-total zero (x ∷ s) h = absurd (omega arith)
decode_all-total (suc fuel) (x ∷ s) h = elim (Result-cases (decode_one (x ∷ s))) [
  | inr (e, f) ↦ inr (e, ground (arith, f))
  | inl ((cp, rest), f) ↦
      let (spells, valid) = decode_one-Spells (x ∷ s) cp rest f in
      elim (decode_all-total fuel rest (omega (arith, rest_shorter (x ∷ s) rest cp f))) [
        | inr (e, g) ↦ inr (e, ground (arith, f, g))
        | inl (cps, g, t, all) ↦
            inl (cp ∷ cps, ground (arith, f, g), spells ∙ ap (λ r. encode cp ++ r) t, (valid, all))
      ]
]

max_scalar-max_cp : (m : ℕ) (cps : List ℕ) → AllScalars cps → max_scalar m cps ≡ some (max_cp m cps)
unfolding max_scalar max_cp
max_scalar-max_cp m [] v = refl
max_scalar-max_cp m (cp ∷ cps) v =
    let rest = max_scalar-max_cp (if ltb m cp then cp else m) cps v.1 in ground (arith, v.0, rest)

classify-width :
    (cps : List ℕ) → AllScalars cps → classify_string_width cps ≡ width_of (max_cp 0 cps)
unfolding classify_string_width
classify-width cps v = ground (arith, max_scalar-max_cp 0 cps v)

-- Every string literal is resolved: either with an error, or to code points whose UTF-8 is the text
-- and to the type that the classification of widths names for these.
pub resolve_string-total :
    (s : List ℕ)
    → ((cps : List ℕ) × (resolve_string s ≡ some (ok (classify_string_width cps, cps)))
        × (s ≡ encode_all cps)
        × AllScalars cps)
      ⊎ ((e : TextError) × (resolve_string s ≡ some (err e)))
unfolding resolve_string
resolve_string-total s = elim (decode_all-total (length s) s (omega arith)) [
  | inl (cps, f, spells, valid) ↦
      inl (cps, ground (arith, f, classify-width cps valid), spells, valid)
  | inr (e, f) ↦ inr (e, ground (arith, f))
]

length-encode_all : (cps : List ℕ) → length cps ≤ length (encode_all cps)
unfolding encode_all
length-encode_all [] = omega arith
length-encode_all (cp ∷ cps) =
    omega
      (arith, length-append (encode cp) (encode_all cps), encode_nonempty cp, length-encode_all cps)

-- The UTF-8 of any scalar values is a string literal with these code points, and has the type that
-- the classification of widths names for them.
pub resolve_string-encode_all :
    (cps : List ℕ)
    → AllScalars cps
    → resolve_string (encode_all cps) ≡ some (ok (classify_string_width cps, cps))
unfolding resolve_string
resolve_string-encode_all cps v =
    let decoded = decode_all-encode cps (length (encode_all cps)) v (length-encode_all cps) in
    ground (arith, decoded, classify-width cps v)
