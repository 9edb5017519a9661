-- ===== src/Text.antt =====
-- Character and string literals: src/SemanticAnalyzer/Resolver/ResolveChar.cpp and the helpers of
-- include/hrd/SemanticAnalyzer/Resolver.h. A text is the list of its bytes, numbers below 256. The
-- masks of the source are written out: for a byte, `(x & 0xE0) == 0xC0` says that x lies in
-- [0xC0, 0xE0), `x & 0x1F` is x % 32, and `|` joins fields that do not overlap.
pub mod Encode
pub mod RoundTrip
pub mod Sound
pub mod Literal
mod Examples
use hwarangdo.Prelude.{
  ℕ, zero, suc, ◌+◌, ◌-◌, ◌*◌, ◌%◌, Bool, true, false, not, ◌&&◌, ◌||◌, Option, none, some, List,
  [], ◌∷◌, ltb, leb, ◌==◌, if◌then◌else◌,
}

-- The messages of the diagnostics, and the internal errors.
pub data TextError : Type 0 where
  empty_char one_scalar invalid_utf8 overlong truncated invalid_continuation : TextError
  invalid_leading invalid_code_point surrogate invalid_escape bad_u4 bad_u8 unknown_escape :
      TextError
  invalid_scalar invalid_hex unexpected_end : TextError

-- What a function that can end in a diagnostic returns.
pub data Result {ℓ} (A : Type ℓ) : Type ℓ where
  err : TextError → Result A
  ok : A → Result A

infixl 5 ◌>>=◌ ◌>>◌
abbrev pub ◌>>=◌ {ℓ κ} : {X : Type ℓ} {Y : Type κ} → Result X → (X → Result Y) → Result Y
err message >>= next = err message
ok x >>= next = next x

-- `if (test) Error::diagnostic(...);`
abbrev pub fail_if : Bool → TextError → Result (Unit {0})
fail_if false message = ok tt
fail_if true message = err message

abbrev pub ◌>>◌ {ℓ} : {Y : Type ℓ} → Result (Unit {0}) → Result Y → Result Y
check >> next = check >>= λ _. next

abbrev between : ℕ → ℕ → ℕ → Bool
between lo hi x = leb lo x && ltb x hi

-- `(x & 0xE0) == 0xC0` and the like.
pub leads_two : ℕ → Bool
leads_two x = between 0xC0 0xE0 x

pub leads_three : ℕ → Bool
leads_three x = between 0xE0 0xF0 x

pub leads_four : ℕ → Bool
leads_four x = between 0xF0 0xF8 x

-- `(x & 0xC0) == 0x80`.
pub is_continuation : ℕ → Bool
is_continuation x = between 0x80 0xC0 x

pub is_valid_unicode_scalar : ℕ → Bool
is_valid_unicode_scalar cp =
    if ltb 0x10FFFF cp then false else if leb 0xD800 cp && leb cp 0xDFFF then false else true

pub classify_char_width : ℕ → ℕ
unfolding is_valid_unicode_scalar
classify_char_width cp =
    if not (is_valid_unicode_scalar cp)
    then 0
    else if leb cp 0xFF
    then 8
    else if leb cp 0xFFFF
    then 16
    else 32

-- The code points that the bytes of a sequence spell.
abbrev pub spell_two : ℕ → ℕ → ℕ
spell_two b₀ b₁ = (b₀ % 32) * 64 + b₁ % 64

abbrev pub spell_three : ℕ → ℕ → ℕ → ℕ
spell_three b₀ b₁ b₂ = (b₀ % 16) * 4096 + (b₁ % 64) * 64 + b₂ % 64

abbrev pub spell_four : ℕ → ℕ → ℕ → ℕ → ℕ
spell_four b₀ b₁ b₂ b₃ = (b₀ % 8) * 262144 + (b₁ % 64) * 4096 + (b₂ % 64) * 64 + b₃ % 64

-- A code point and the bytes behind it. The cases of `decodeOneUtf8CodePoint`, on `s` from `i` on.
abbrev pub Decoded : Type 0
Decoded = ℕ × List ℕ

one_two : ℕ → List ℕ → Result Decoded
unfolding is_continuation
one_two b₀ (b₁ ∷ rest) = do
  fail_if (not (is_continuation b₁)) invalid_continuation
  fail_if (ltb (spell_two b₀ b₁) 0x80) overlong
  ok (spell_two b₀ b₁, rest)
one_two b₀ [] = err truncated

one_three : ℕ → List ℕ → Result Decoded
unfolding is_continuation
one_three b₀ (b₁ ∷ b₂ ∷ rest) = do
  fail_if (not (is_continuation b₁) || not (is_continuation b₂)) invalid_continuation
  fail_if (ltb (spell_three b₀ b₁ b₂) 0x800) overlong
  ok (spell_three b₀ b₁ b₂, rest)
one_three b₀ _ = err truncated

one_four : ℕ → List ℕ → Result Decoded
unfolding is_continuation
one_four b₀ (b₁ ∷ b₂ ∷ b₃ ∷ rest) = do
  fail_if (not (is_continuation b₁) || not (is_continuation b₂) || not (is_continuation b₃))
      invalid_continuation
  fail_if (ltb (spell_four b₀ b₁ b₂ b₃) 0x10000) overlong
  ok (spell_four b₀ b₁ b₂ b₃, rest)
one_four b₀ _ = err truncated

-- The two checks behind the cases.
check_scalar : Decoded → Result Decoded
check_scalar (cp, rest) = do
  fail_if (ltb 0x10FFFF cp) invalid_code_point
  fail_if (leb 0xD800 cp && leb cp 0xDFFF) surrogate
  ok (cp, rest)

pub decode_one : List ℕ → Result Decoded
unfolding leads_two leads_three leads_four one_two one_three one_four check_scalar
decode_one [] = err unexpected_end
decode_one (b₀ ∷ rest) =
    (if ltb b₀ 0x80
      then ok (b₀, rest)
      else if leads_two b₀
      then one_two b₀ rest
      else if leads_three b₀
      then one_three b₀ rest
      else if leads_four b₀
      then one_four b₀ rest
      else err invalid_leading)
    >>= check_scalar

-- The loop of `resolveString`. Each round reads a byte at least, so the length of the text is fuel
-- enough; `none` means that the fuel ran out.
pub decode_all : ℕ → List ℕ → Option (Result (List ℕ))
decode_all fuel [] = some (ok [])
decode_all zero (x ∷ s) = none
decode_all (suc fuel) (x ∷ s) = elim (decode_one (x ∷ s)) [
  | err e ↦ some (err e)
  | ok d ↦ elim (decode_all fuel d.1) [
    | none ↦ none
    | some (err e) ↦ some (err e)
    | some (ok cps) ↦ some (ok (d.0 ∷ cps))
  ]
]
