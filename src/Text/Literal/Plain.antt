-- ===== src/Text/Literal/Plain.antt =====
-- Character literals without a backslash.
use hwarangdo.Prelude.{
  ℕ, ◌<◌, ◌≤◌, ◌≡◌, ◌≢◌, ◌⊎◌, true, List, [], ◌∷◌, arith, ltb, ◌==◌, if◌then◌else◌, Bool-cases, inl,
  inr,
}
use hwarangdo.Text.{
  Result, ok, err, ◌>>=◌, is_valid_unicode_scalar, leads_two, leads_three, leads_four,
}
use hwarangdo.Text.Encode.{encode}
use hwarangdo.Text.Literal.{
  decode_char_literal, decode_plain, decode_escape, only_one, only_two, only_three, only_four,
  check_literal,
}

abbrev head_byte : List ℕ → ℕ
head_byte [] = 0
head_byte (c ∷ s) = c

plain_one : (cp : ℕ) → cp < 0x80 → cp ≢ 92 → decode_char_literal (encode cp) ≡ ok cp
unfolding encode decode_char_literal is_valid_unicode_scalar
plain_one cp h n = ground arith

plain_two : (cp : ℕ) → 0x80 ≤ cp → cp < 0x800 → decode_char_literal (encode cp) ≡ ok cp
unfolding encode decode_char_literal is_valid_unicode_scalar
plain_two cp l h = ground arith

plain_three :
    (cp : ℕ)
    → 0x800 ≤ cp
    → cp < 0x10000
    → is_valid_unicode_scalar cp ≡ true
    → decode_char_literal (encode cp) ≡ ok cp
unfolding encode decode_char_literal is_valid_unicode_scalar
plain_three cp l h v = ground arith

plain_four :
    (cp : ℕ)
    → 0x10000 ≤ cp
    → is_valid_unicode_scalar cp ≡ true
    → decode_char_literal (encode cp) ≡ ok cp
unfolding encode decode_char_literal is_valid_unicode_scalar
plain_four cp l v = ground arith

-- The UTF-8 bytes of any scalar value but the backslash are a character literal with that value.
pub decode_char_literal-encode :
    (cp : ℕ) → is_valid_unicode_scalar cp ≡ true → cp ≢ 92 → decode_char_literal (encode cp) ≡ ok cp
decode_char_literal-encode cp v n = elim (Bool-cases (ltb cp 0x80)) [
  | inl h ↦ plain_one cp (ground arith) n
  | inr l ↦ elim (Bool-cases (ltb cp 0x800)) [
    | inl h ↦ plain_two cp (ground arith) (ground arith)
    | inr m ↦ elim (Bool-cases (ltb cp 0x10000)) [
      | inl h ↦ plain_three cp (ground arith) (ground arith) v
      | inr o ↦ plain_four cp (ground arith) v
    ]
  ]
]

only_one-encode :
    (b₀ : ℕ) (s : List ℕ) (cp : ℕ) → b₀ < 0x80 → only_one b₀ s ≡ ok cp → b₀ ∷ s ≡ encode cp
unfolding encode only_one
only_one-encode b₀ [] cp h e = ground arith
only_one-encode b₀ (x ∷ s) cp h e = absurd (cc e)

only_two-encode :
    (b₀ : ℕ) (s : List ℕ) (cp : ℕ)
    → leads_two b₀ ≡ true
    → only_two b₀ s ≡ ok cp
    → b₀ ∷ s ≡ encode cp
unfolding encode only_two leads_two
only_two-encode b₀ [] cp h e = absurd (cc e)
only_two-encode b₀ (b₁ ∷ []) cp h e = ground arith
only_two-encode b₀ (b₁ ∷ b₂ ∷ s) cp h e = absurd (cc e)

only_three-encode :
    (b₀ : ℕ) (s : List ℕ) (cp : ℕ)
    → leads_three b₀ ≡ true
    → only_three b₀ s ≡ ok cp
    → b₀ ∷ s ≡ encode cp
unfolding encode only_three leads_three
only_three-encode b₀ [] cp h e = absurd (cc e)
only_three-encode b₀ (b₁ ∷ []) cp h e = absurd (cc e)
only_three-encode b₀ (b₁ ∷ b₂ ∷ []) cp h e = ground arith
only_three-encode b₀ (b₁ ∷ b₂ ∷ b₃ ∷ s) cp h e = absurd (cc e)

only_four-encode :
    (b₀ : ℕ) (s : List ℕ) (cp : ℕ)
    → leads_four b₀ ≡ true
    → only_four b₀ s ≡ ok cp
    → b₀ ∷ s ≡ encode cp
unfolding encode only_four leads_four
only_four-encode b₀ [] cp h e = absurd (cc e)
only_four-encode b₀ (b₁ ∷ []) cp h e = absurd (cc e)
only_four-encode b₀ (b₁ ∷ b₂ ∷ []) cp h e = absurd (cc e)
only_four-encode b₀ (b₁ ∷ b₂ ∷ b₃ ∷ []) cp h e = ground arith
only_four-encode b₀ (b₁ ∷ b₂ ∷ b₃ ∷ b₄ ∷ s) cp h e = absurd (cc e)

decode_plain-encode :
    (b₀ : ℕ) (s : List ℕ) (cp : ℕ) → decode_plain b₀ s ≡ ok cp → b₀ ∷ s ≡ encode cp
decode_plain-encode b₀ s cp e = elim (Bool-cases (ltb b₀ 0x80)) [
  | inl h ↦ only_one-encode b₀ s cp (ground arith) (unfold decode_plain in ground arith)
  | inr l ↦ elim (Bool-cases (leads_two b₀)) [
    | inl h ↦ only_two-encode b₀ s cp h (unfold decode_plain in ground (arith, l, h))
    | inr m ↦ elim (Bool-cases (leads_three b₀)) [
      | inl h ↦ only_three-encode b₀ s cp h (unfold decode_plain in ground (arith, l, m, h))
      | inr n ↦ elim (Bool-cases (leads_four b₀)) [
        | inl h ↦ only_four-encode b₀ s cp h (unfold decode_plain in ground (arith, l, m, n, h))
        | inr o ↦ absurd (unfold decode_plain in ground (arith, l, m, n, o))
      ]
    ]
  ]
]

check_literal-ok :
    (m : Result ℕ) (cp : ℕ)
    → (m >>= check_literal) ≡ ok cp
    → (m ≡ ok cp) × (is_valid_unicode_scalar cp ≡ true)
check_literal-ok (ok c) cp e = (ground arith, ground arith)
check_literal-ok (err m) cp e = absurd (cc e)

-- A character literal that is accepted has a scalar value, and is either the UTF-8 of that value
-- and no more, or an escape: a backslash, and behind it a text that `decode_escape` reads as that
-- value.
pub decode_char_literal-cases :
    (s : List ℕ) (cp : ℕ)
    → decode_char_literal s ≡ ok cp
    → (is_valid_unicode_scalar cp ≡ true)
      × ((s ≡ encode cp) ⊎ ((e : List ℕ) × (s ≡ 92 ∷ e) × (decode_escape e ≡ ok cp)))
unfolding decode_char_literal
decode_char_literal-cases [] cp h = absurd (cc h)
decode_char_literal-cases (c ∷ s) cp h =
    let (found, valid) =
      check_literal-ok (if c == 92 then decode_escape s else decode_plain c s) cp h in
    (
      valid,
      elim (Bool-cases (c == 92)) [
        | inl b ↦ inr (s, ground arith, ground (arith, found))
        | inr o ↦ inl (decode_plain-encode c s cp (ground (arith, found)))
      ],
    )
