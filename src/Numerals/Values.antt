-- ===== src/Numerals/Values.antt =====
-- The width of an integer literal against the number that its digits write.
use native.Mathlib.Nat.{mul-le-mul_right}
use hwarangdo.Prelude.{
  ℕ, ◌+◌, ◌-◌, ◌*◌, ◌^◌, ◌≤◌, ◌<◌, ◌≡◌, ◌⊎◌, inl, inr, refl, ap, sym, ◌∙◌, arith, Bool, true, false,
  ◌&&◌, none, some, List, [], ◌∷◌, leb, ltb, ◌==◌, if◌then◌else◌, length, Bool-cases, of_either,
}
use hwarangdo.Numerals.{
  less_text, compare_unsigned_decimal, at_most, max32, max64, max128, drop_zeros, or_zero,
  significant, resolve_lit_int,
}

-- 10 to the length of a text, and the number that the text writes.
unfoldable pub scale : List ℕ → ℕ
scale [] = 1
scale (c ∷ s) = 10 * scale s

unfoldable pub value : List ℕ → ℕ
unfolding scale
value [] = 0
value (c ∷ s) = (c - 48) * scale s + value s

abbrev pub Digits : List ℕ → Type 0
Digits [] = Unit
Digits (c ∷ s) = ((48 ≤ c) × (c ≤ 57)) × Digits s

mul_le : (m n k : ℕ) → m ≤ n → m * k ≤ n * k
mul_le m n k h = mul-le-mul_right k h

value_lt : (s : List ℕ) → Digits s → value s < scale s
unfolding value scale
value_lt [] d = omega arith
value_lt (c ∷ s) d =
    let small = mul_le (c - 48) 9 (scale s) (omega (arith, d.0.1)) in
    omega (arith, small, value_lt s d.1)

scale_le : (a b : List ℕ) → length a ≤ length b → scale a ≤ scale b
unfolding scale
scale_le [] [] h = omega arith
scale_le [] (y ∷ b) h =
    let rest = scale_le [] b (omega arith) in unfold scale in omega (arith, rest)
scale_le (x ∷ a) [] h = absurd (omega arith)
scale_le (x ∷ a) (y ∷ b) h = let rest = scale_le a b (omega arith) in omega (arith, rest)

-- A text that is not empty and does not begin with a zero.
abbrev pub Leads : List ℕ → Type 0
Leads [] = ⊥
Leads (c ∷ s) = 48 < c

shorter_lt :
    (a b : List ℕ) → Digits a → Digits b → Leads b → length a < length b → value a < value b
unfolding value
shorter_lt a [] da db n h = absurd (omega arith)
shorter_lt a (y ∷ b) da db n h =
    let top = mul_le 1 (y - 48) (scale b) (omega (arith, n)) in
    omega (arith, top, scale_le a b (omega arith), value_lt a da)

longer_lt :
    (a b : List ℕ)
    → Digits a
    → Digits b
    → Leads b
    → Leads a ⊎ (length a ≤ 1)
    → length b < length a
    → value b < value a
longer_lt a [] da db nb na h = absurd nb
longer_lt a (y ∷ b) da db nb (inl na) h = shorter_lt (y ∷ b) a db da na h
longer_lt a (y ∷ b) da db nb (inr na) h = absurd (omega arith)

digit_step : (x y p : ℕ) → 48 ≤ x → x < y → (x - 48) * p + p ≤ (y - 48) * p
digit_step x y p l h =
    let step = mul_le (x - 48 + 1) (y - 48) p (omega arith) in omega (arith, step)

scale_eq : (a b : List ℕ) → length a ≡ length b → scale a ≡ scale b
scale_eq a b h = omega (arith, scale_le a b (omega arith), scale_le b a (omega arith))

less-lt :
    (a b : List ℕ)
    → Digits a
    → Digits b
    → length a ≡ length b
    → less_text a b ≡ true
    → value a < value b
unfolding value less_text
less-lt [] [] da db l h = absurd (cc h)
less-lt [] (y ∷ b) da db l h = absurd (omega arith)
less-lt (x ∷ a) [] da db l h = absurd (omega arith)
less-lt (x ∷ a) (y ∷ b) da db l h =
    let same = scale_eq a b (omega arith) in
    elim (Bool-cases (ltb x y)) [
      | inl k ↦
          let step = digit_step x y (scale a) da.0.0 (ground arith) in
          let top : (y - 48) * scale a ≡ (y - 48) * scale b = ap (λ z. (y - 48) * z) same in
          omega (arith, step, top, value_lt a da.1)
      | inr k ↦
          let e : x ≡ y = ground (arith, h, k) in
          let rest = less-lt a b da.1 db.1 (omega arith) (ground (arith, h, k)) in
          let top : (x - 48) * scale a ≡ (y - 48) * scale b =
            ap (λ z. (z - 48) * scale a) e ∙ ap (λ z. (y - 48) * z) same in
          omega (arith, top, rest)
    ]

neither-eq :
    (a b : List ℕ) → length a ≡ length b → less_text a b ≡ false → less_text b a ≡ false → a ≡ b
unfolding less_text
neither-eq [] [] l h k = refl
neither-eq [] (y ∷ b) l h k = absurd (omega arith)
neither-eq (x ∷ a) [] l h k = absurd (omega arith)
neither-eq (x ∷ a) (y ∷ b) l h k =
    let e : x ≡ y = ground (arith, h, k) in
    let rest = neither-eq a b (omega arith) (ground (arith, h, e)) (ground (arith, k, e)) in
    cc (e, rest)

at_most-leb :
    (a b : List ℕ)
    → Digits a
    → Digits b
    → Leads b
    → Leads a ⊎ (length a ≤ 1)
    → at_most (compare_unsigned_decimal a b) ≡ leb (value a) (value b)
unfolding compare_unsigned_decimal
at_most-leb a b da db nb na = elim (Bool-cases (ltb (length a) (length b))) [
  | inl h ↦ ground (arith, h, shorter_lt a b da db nb (ground arith))
  | inr h ↦ elim (Bool-cases (ltb (length b) (length a))) [
    | inl k ↦ ground (arith, h, k, longer_lt a b da db nb na (ground arith))
    | inr k ↦
        let l : length a ≡ length b = ground (arith, h, k) in
        elim (Bool-cases (less_text a b)) [
          | inl m ↦ ground (arith, h, k, m, less-lt a b da db l m)
          | inr m ↦ elim (Bool-cases (less_text b a)) [
            | inl n ↦ ground (arith, h, k, m, n, less-lt b a db da (sym l) n)
            | inr n ↦ ground (arith, h, k, m, n, ap value (neither-eq a b l m n))
          ]
        ]
  ]
]

drop_zeros-value : (s : List ℕ) → Digits s → value (drop_zeros s) ≡ value s
unfolding drop_zeros value
drop_zeros-value [] d = refl
drop_zeros-value (c ∷ s) d = elim (Bool-cases (c == 48)) [
  | inl h ↦
      let e : c ≡ 48 = ground arith in
      let top : (c - 48) * scale s ≡ 0 = ap (λ z. (z - 48) * scale s) e ∙ omega arith in
      ground (arith, h, top, drop_zeros-value s d.1)
  | inr h ↦ ground (arith, h)
]

drop_zeros-Digits : (s : List ℕ) → Digits s → Digits (drop_zeros s)
unfolding drop_zeros
drop_zeros-Digits [] d = tt
drop_zeros-Digits (c ∷ s) d =
    of_either Digits (c == 48) (drop_zeros s) (c ∷ s) (λ _. drop_zeros-Digits s d.1) (λ _. d)

-- Without its leading zeros a text is empty or begins with another digit.
drop_zeros-Leads : (s : List ℕ) → Digits s → (drop_zeros s ≡ []) ⊎ Leads (drop_zeros s)
unfolding drop_zeros
drop_zeros-Leads [] d = inl refl
drop_zeros-Leads (c ∷ s) d =
    of_either (λ t. (t ≡ []) ⊎ Leads t) (c == 48) (drop_zeros s) (c ∷ s)
      (λ _. drop_zeros-Leads s d.1) (λ h. inr (ground (arith, h, d.0.0)))

or_zero-good :
    (t : List ℕ) (v : ℕ)
    → Digits t
    → (t ≡ []) ⊎ Leads t
    → value t ≡ v
    → Digits (or_zero t) × (Leads (or_zero t) ⊎ (length (or_zero t) ≤ 1)) × (value (or_zero t) ≡ v)
unfolding value scale
or_zero-good [] v d n e = (((omega arith, omega arith), tt), inr (omega arith), omega (arith, e))
or_zero-good (c ∷ t) v d (inl n) e = absurd (cc n)
or_zero-good (c ∷ t) v d (inr n) e = (d, inl n, e)

significant-good :
    (s : List ℕ)
    → Digits s
    → Digits (significant s)
      × (Leads (significant s) ⊎ (length (significant s) ≤ 1))
      × (value (significant s) ≡ value s)
unfolding significant
significant-good s d =
    or_zero-good (drop_zeros s) (value s) (drop_zeros-Digits s d) (drop_zeros-Leads s d)
      (drop_zeros-value s d)

digit_range : (c : ℕ) → leb 48 c ≡ true → leb c 57 ≡ true → (48 ≤ c) × (c ≤ 57)
digit_range c h k = (ground arith, ground arith)

max-values : (value max32 ≡ 2 ^ 31 - 1) × (value max64 ≡ 2 ^ 63 - 1) × (value max128 ≡ 2 ^ 127 - 1)
unfolding value
max-values = (refl, refl, refl)

all_digits : List ℕ → Bool
all_digits [] = true
all_digits (c ∷ s) = (leb 48 c && leb c 57) && all_digits s

all_digits-Digits : (s : List ℕ) → all_digits s ≡ true → Digits s
unfolding all_digits
all_digits-Digits [] h = tt
all_digits-Digits (c ∷ s) h =
    (digit_range c (ground arith) (ground arith), all_digits-Digits s (ground arith))

fits :
    (s b : List ℕ) (m : ℕ)
    → Digits s
    → all_digits b ≡ true
    → Leads b
    → value b ≡ m
    → at_most (compare_unsigned_decimal (significant s) b) ≡ leb (value s) m
fits s b m d db nb e =
    let (ds, ns, v) = significant-good s d in
    at_most-leb (significant s) b ds (all_digits-Digits b db) nb ns
    ∙ ap (λ x. leb x (value b)) v
    ∙ ap (leb (value s)) e

-- An integer literal of decimal digits has the first type of `i32`, `i64` and `i128` that holds the
-- number it writes, and is refused if none does. The text that is read at that width writes the same
-- number.
pub resolve_lit_int-width :
    (s : List ℕ)
    → Digits s
    → (resolve_lit_int s ≡ (
        if leb (value s) (2 ^ 31 - 1)
        then some (32, significant s)
        else if leb (value s) (2 ^ 63 - 1)
        then some (64, significant s)
        else if leb (value s) (2 ^ 127 - 1)
        then some (128, significant s)
        else none))
      × (value (significant s) ≡ value s)
unfolding resolve_lit_int
resolve_lit_int-width s d =
    let (m32, m64, m128) = max-values in
    (
      ground (
        arith,
        fits s max32 (2 ^ 31 - 1) d (unfold all_digits in refl) (omega arith) m32,
        fits s max64 (2 ^ 63 - 1) d (unfold all_digits in refl) (omega arith) m64,
        fits s max128 (2 ^ 127 - 1) d (unfold all_digits in refl) (omega arith) m128,
      ),
      (significant-good s d).2,
    )
