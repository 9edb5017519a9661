-- ===== src/Types/Convert/Ranges.antt =====
-- The verdicts on integer types against the values of the types.
use hwarangdo.Prelude.{
  ℕ, ◌-◌, ◌^◌, ◌≤◌, ◌≡◌, ◌⊎◌, ◌↔◌, refl, Bool, true, false, not, ◌&&◌, ◌||◌, ◌==◌, leb,
  if◌then◌else◌, arith,
}
use hwarangdo.Types.{
  BuiltInType, int, float, same_category, category, bit_width, is_signed, precious,
}
use hwarangdo.Types.Enumerate.{for_all, for_all₂}
use hwarangdo.Types.Convert.{convert_builtin, Verdict, CastingResultKind, none_kind, precision_loss}

abbrev is_integer : BuiltInType → Bool
is_integer t = same_category (category t) int

abbrev is_floating : BuiltInType → Bool
is_floating t = same_category (category t) float

-- The greatest value of an integer type, and the magnitude of its least one.
abbrev pub max_value : BuiltInType → ℕ
max_value t = if is_signed t then 2 ^ (bit_width t - 1) - 1 else 2 ^ bit_width t - 1

abbrev pub min_magnitude : BuiltInType → ℕ
min_magnitude t = if is_signed t then 2 ^ (bit_width t - 1) else 0

abbrev within : BuiltInType → BuiltInType → Bool
within s t = leb (max_value s) (max_value t) && leb (min_magnitude s) (min_magnitude t)

-- The one exception: an unsigned type and the signed type as wide.
abbrev pub same_width_to_signed : BuiltInType → BuiltInType → Bool
same_width_to_signed s t = not (is_signed s) && is_signed t && bit_width s == bit_width t

abbrev int_row : BuiltInType → BuiltInType → Bool
int_row s t =
    not (is_integer s && is_integer t)
    || (if (convert_builtin s t).0
        then within s t || same_width_to_signed s t
        else not (within s t || same_width_to_signed s t))

int_table : for_all (λ s. for_all (int_row s)) ≡ true
unfolding for_all convert_builtin category bit_width is_signed
int_table = refl

int_row_iff :
    (a b c d : ℕ) (v e : Bool)
    → (if v then leb a b && leb c d || e else not (leb a b && leb c d || e)) ≡ true
    → (v ≡ true) ↔ (((a ≤ b) × (c ≤ d)) ⊎ (e ≡ true))
int_row_iff a b c d true e h = (λ _. ground arith, λ _. refl)
int_row_iff a b c d false e h = (λ x. absurd (cc x), λ x. ground arith)

-- An integer type converts to another one exactly if every value of the first is a value of the
-- second, or the first is unsigned and the second is the signed type of the same width.
pub convert_int_iff :
    (s t : BuiltInType)
    → category s ≡ int
    → category t ≡ int
    → ((convert_builtin s t).0 ≡ true) ↔ (
        ((max_value s ≤ max_value t) × (min_magnitude s ≤ min_magnitude t))
        ⊎ (same_width_to_signed s t ≡ true))
convert_int_iff s t p q =
    int_row_iff (max_value s) (max_value t) (min_magnitude s) (min_magnitude t)
      (convert_builtin s t).0 (same_width_to_signed s t)
      (ground (arith, for_all₂ int_row s t int_table, p, q))

abbrev pub exact : BuiltInType → BuiltInType → Bool
exact s t = leb (max_value s) (2 ^ precious t) && leb (min_magnitude s) (2 ^ precious t)

abbrev float_verdict : Bool → CastingResultKind → Bool → ℕ → ℕ → Bool
float_verdict v none_kind x m n = v && x
float_verdict v precision_loss x m n = v && not x && m == n
float_verdict v _ x m n = not v && not x && not (m == n)

abbrev float_row : BuiltInType → BuiltInType → Bool
float_row s t =
    not (is_integer s && is_floating t)
    || float_verdict (convert_builtin s t).0 (convert_builtin s t).1 (exact s t) (bit_width s)
        (bit_width t)

float_table : for_all (λ s. for_all (float_row s)) ≡ true
unfolding for_all convert_builtin category bit_width is_signed precious
float_table = refl

float_row_iff :
    (v : Bool) (k : CastingResultKind) (x : Bool) (m n : ℕ)
    → float_verdict v k x m n ≡ true
    → ((◌≡◌ {A = Verdict} (v, k) (true, none_kind)) ↔ (x ≡ true))
      × ((◌≡◌ {A = Verdict} (v, k) (true, precision_loss)) ↔ ((x ≡ false) × (m ≡ n)))
float_row_iff v none_kind x m n h =
    ((λ e. ground arith, λ e. ground arith), (λ e. ground arith, λ e. ground arith))
float_row_iff v _ x m n h =
    ((λ e. ground arith, λ e. ground arith), (λ e. ground arith, λ e. ground arith))

-- An integer type converts to a floating-point type in silence exactly if both ends of its range,
-- and so all its values, have magnitudes up to 2^precision, and with a warning about precision
-- exactly if they have not and the two types are as wide.
pub convert_int_float :
    (s t : BuiltInType)
    → category s ≡ int
    → category t ≡ float
    → ((convert_builtin s t ≡ (true, none_kind)) ↔ (exact s t ≡ true))
      × ((convert_builtin s t ≡ (true, precision_loss))
          ↔ ((exact s t ≡ false) × (bit_width s ≡ bit_width t)))
convert_int_float s t p q =
    float_row_iff (convert_builtin s t).0 (convert_builtin s t).1 (exact s t) (bit_width s)
      (bit_width t) (ground (arith, for_all₂ float_row s t float_table, p, q))
