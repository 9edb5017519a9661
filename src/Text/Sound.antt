-- ===== src/Text/Sound.antt =====
-- What is decoded was encoded: only the UTF-8 of a scalar value is accepted, and in one form.
use hwarangdo.Prelude.{
  ℕ, ◌<◌, ◌≡◌, true, List, [], ◌∷◌, ◌++◌, arith, ltb, if◌then◌else◌, Bool-cases, inl, inr,
}
use hwarangdo.Text.{
  Result, Decoded, ok, err, invalid_leading, ◌>>=◌, is_valid_unicode_scalar, decode_one, leads_two,
  leads_three, leads_four, one_two, one_three, one_four, check_scalar,
}
use hwarangdo.Text.Encode.{encode}

-- The bytes `s` are the UTF-8 of `cp` and then `rest`.
abbrev pub Spells : List ℕ → ℕ → List ℕ → Type 0
Spells s cp rest = s ≡ encode cp ++ rest

one-Spells :
    (b₀ : ℕ) (s rest : List ℕ) (cp : ℕ)
    → b₀ < 0x80
    → ◌≡◌ {A = Result Decoded} (ok (b₀, s)) (ok (cp, rest))
    → Spells (b₀ ∷ s) cp rest
unfolding encode
one-Spells b₀ s rest cp h e = ground arith

one_two-Spells :
    (b₀ : ℕ) (s rest : List ℕ) (cp : ℕ)
    → leads_two b₀ ≡ true
    → one_two b₀ s ≡ ok (cp, rest)
    → Spells (b₀ ∷ s) cp rest
unfolding encode one_two leads_two
one_two-Spells b₀ [] rest cp h e = absurd (cc e)
one_two-Spells b₀ (b₁ ∷ s) rest cp h e = ground arith

one_three-Spells :
    (b₀ : ℕ) (s rest : List ℕ) (cp : ℕ)
    → leads_three b₀ ≡ true
    → one_three b₀ s ≡ ok (cp, rest)
    → Spells (b₀ ∷ s) cp rest
unfolding encode one_three leads_three
one_three-Spells b₀ [] rest cp h e = absurd (cc e)
one_three-Spells b₀ (b₁ ∷ []) rest cp h e = absurd (cc e)
one_three-Spells b₀ (b₁ ∷ b₂ ∷ s) rest cp h e = ground arith

one_four-Spells :
    (b₀ : ℕ) (s rest : List ℕ) (cp : ℕ)
    → leads_four b₀ ≡ true
    → one_four b₀ s ≡ ok (cp, rest)
    → Spells (b₀ ∷ s) cp rest
unfolding encode one_four leads_four
one_four-Spells b₀ [] rest cp h e = absurd (cc e)
one_four-Spells b₀ (b₁ ∷ []) rest cp h e = absurd (cc e)
one_four-Spells b₀ (b₁ ∷ b₂ ∷ []) rest cp h e = absurd (cc e)
one_four-Spells b₀ (b₁ ∷ b₂ ∷ b₃ ∷ s) rest cp h e = ground arith

-- The cases of the leading byte, in front of the last two checks.
pub one : ℕ → List ℕ → Result Decoded
unfolding leads_two leads_three leads_four
one b₀ s =
    if ltb b₀ 0x80
    then ok (b₀, s)
    else if leads_two b₀
    then one_two b₀ s
    else if leads_three b₀
    then one_three b₀ s
    else if leads_four b₀
    then one_four b₀ s
    else err invalid_leading

check-ok :
    (m : Result Decoded) (cp : ℕ) (rest : List ℕ)
    → (m >>= check_scalar) ≡ ok (cp, rest)
    → (m ≡ ok (cp, rest)) × (is_valid_unicode_scalar cp ≡ true)
unfolding check_scalar is_valid_unicode_scalar
check-ok (ok (c, r)) cp rest e = (ground arith, ground arith)
check-ok (err m) cp rest e = absurd (cc e)

one-Spells_cases :
    (b₀ : ℕ) (s rest : List ℕ) (cp : ℕ) → one b₀ s ≡ ok (cp, rest) → Spells (b₀ ∷ s) cp rest
one-Spells_cases b₀ s rest cp e = elim (Bool-cases (ltb b₀ 0x80)) [
  | inl h ↦ one-Spells b₀ s rest cp (ground arith) (unfold one in ground arith)
  | inr l ↦ elim (Bool-cases (leads_two b₀)) [
    | inl h ↦ one_two-Spells b₀ s rest cp h (unfold one in ground (arith, l, h))
    | inr m ↦ elim (Bool-cases (leads_three b₀)) [
      | inl h ↦ one_three-Spells b₀ s rest cp h (unfold one in ground (arith, l, m, h))
      | inr n ↦ elim (Bool-cases (leads_four b₀)) [
        | inl h ↦ one_four-Spells b₀ s rest cp h (unfold one in ground (arith, l, m, n, h))
        | inr o ↦ absurd (unfold one in ground (arith, l, m, n, o))
      ]
    ]
  ]
]

-- An accepted text begins with the UTF-8 bytes of the code point that is returned, which is a
-- Unicode scalar value: overlong forms, surrogates, stray and missing continuation bytes are
-- refused.
pub decode_one-Spells :
    (s : List ℕ) (cp : ℕ) (rest : List ℕ)
    → decode_one s ≡ ok (cp, rest)
    → (s ≡ encode cp ++ rest) × (is_valid_unicode_scalar cp ≡ true)
unfolding decode_one
decode_one-Spells [] cp rest e = absurd (cc e)
decode_one-Spells (b₀ ∷ s) cp rest e =
    let (found, valid) = check-ok (one b₀ s) cp rest (unfold one in e) in
    (one-Spells_cases b₀ s rest cp found, valid)
