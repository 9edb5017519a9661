-- ===== src/Types/Convert.antt =====
-- Implicit conversion and promotion: `canImplicitlyConvert`, `getPromotionCandidates` and
-- `binaryCasting` of src/SemanticAnalyzer/Resolver/ResolverUtil.cpp.
pub mod Order
pub mod Ranges
pub mod Promote
use hwarangdo.Prelude.{
  ℕ, ◌≡◌, Bool, true, false, not, ◌&&◌, ◌||◌, ◌==◌, leb, if◌then◌else◌, Option, none, some, List,
  [], ◌∷◌,
}
use hwarangdo.Types.{
  BuiltInType, BuiltinCategory, int, float, string, TypeSymbol, primitive, declared, derived,
  category, same_category, bit_width, is_signed, precious, same_symbol, builtin, is_primitive,
}

pub data CastingResultKind : Type 0 where
  none_kind overflow underflow sign_to_unsign negative_to_unsigned precision_loss :
      CastingResultKind
  fraction_loss unmatched invalid_category explicit_required narrowing nan : CastingResultKind
  infinity not_implemented : CastingResultKind

abbrev pub Verdict : Type 0
Verdict = Bool × CastingResultKind

-- `for (p = from; p != nullptr; p = p->base) if (p == to) ...`
unfoldable pub has_base : TypeSymbol → TypeSymbol → Bool
unfolding same_symbol
has_base (derived k n base) to = same_symbol (derived k n base) to || has_base base to
has_base (primitive t) to = same_symbol (primitive t) to
has_base (declared k n) to = same_symbol (declared k n) to

-- Two integer types.
unfoldable pub int_to_int : BuiltInType → BuiltInType → Verdict
unfolding bit_width is_signed
int_to_int f t =
    if is_signed f && is_signed t || not (is_signed f) && not (is_signed t)
    then (leb (bit_width f) (bit_width t), overflow)
    else if is_signed f && not (is_signed t)
    then (false, sign_to_unsign)
    else (leb (bit_width f) (bit_width t), overflow)

unfoldable pub int_to_float : BuiltInType → BuiltInType → Verdict
unfolding bit_width precious
int_to_float f t =
    if bit_width f == bit_width t
    then (true, precision_loss)
    else if leb (bit_width f) (precious t)
    then (true, none_kind)
    else (false, overflow)

-- The tests by category.
unfoldable pub convert_builtin : BuiltInType → BuiltInType → Verdict
unfolding category int_to_int int_to_float
convert_builtin f t =
    if same_category (category f) int && same_category (category t) int
    then int_to_int f t
    else if same_category (category f) float && same_category (category t) float
    then (leb (bit_width f) (bit_width t), overflow)
    else if same_category (category f) int && same_category (category t) float
    then int_to_float f t
    else (false, unmatched)

unfoldable pub can_implicitly_convert : TypeSymbol → TypeSymbol → Verdict
unfolding has_base convert_builtin
can_implicitly_convert from to =
    if has_base from to then (true, none_kind) else elim (builtin from) [
      | none ↦ (false, unmatched)
      | some f ↦ elim (builtin to) [ none ↦ (false, unmatched) | some t ↦ convert_builtin f t ]
    ]

unfoldable pub is_assignable : TypeSymbol → TypeSymbol → Bool
unfolding can_implicitly_convert
is_assignable from to = (can_implicitly_convert from to).0

-- The wider of two operands first, the left one where they are as wide.
abbrev wider_first : TypeSymbol → TypeSymbol → ℕ → ℕ → List TypeSymbol
wider_first left right l r = if leb r l then left ∷ right ∷ [] else right ∷ left ∷ []

unfoldable pub candidates : BuiltInType → BuiltInType → List TypeSymbol
unfolding category bit_width
candidates l r =
    if same_category (category l) float || same_category (category r) float
    then (if same_category (category l) float
        then (if same_category (category r) float
            then primitive l ∷ primitive r ∷ []
            else primitive l ∷ [])
        else primitive r ∷ [])
    else if same_category (category l) int && same_category (category r) int
    then wider_first (primitive l) (primitive r) (bit_width l) (bit_width r)
    else if same_category (category l) string && same_category (category r) string
    then wider_first (primitive l) (primitive r) (bit_width l) (bit_width r)
    else []

unfoldable pub get_promotion_candidates : TypeSymbol → TypeSymbol → List TypeSymbol
unfolding candidates
get_promotion_candidates left right = elim (builtin left) [
  | none ↦ []
  | some l ↦ elim (builtin right) [ none ↦ [] | some r ↦ candidates l r ]
]

abbrev pub is_precision_loss : CastingResultKind → Bool
is_precision_loss precision_loss = true
is_precision_loss _ = false

-- The loop over the candidates; `none` is the null pointer.
unfoldable pub first_common :
    TypeSymbol → TypeSymbol → List TypeSymbol → Option TypeSymbol × CastingResultKind
unfolding can_implicitly_convert
first_common left right [] = (none, unmatched)
first_common left right (t ∷ ts) =
    let l = can_implicitly_convert left t in
    let r = can_implicitly_convert right t in
    if l.0 && r.0
    then (some t, if is_precision_loss l.1 then l.1 else r.1)
    else first_common left right ts

unfoldable pub binary_casting : TypeSymbol → TypeSymbol → Option TypeSymbol × CastingResultKind
unfolding first_common get_promotion_candidates same_symbol
binary_casting left right =
    if same_symbol left right
    then (some left, none_kind)
    else if not (is_primitive left) || not (is_primitive right)
    then (none, unmatched)
    else first_common left right (get_promotion_candidates left right)
