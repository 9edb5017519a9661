-- ===== src/Types/Operators.antt =====
-- The typing of binary expressions: `isBinaryOperatalbe`, `isCmpable` and `binaryResult` of
-- src/SemanticAnalyzer/Resolver/ResolverUtil.cpp, and `visit(BinaryExpr *)` of ResolverExpr.cpp
-- behind the visits of the two operands.
pub mod Typing
use hwarangdo.Prelude.{Bool, true, false, ◌&&◌, ◌||◌, if◌then◌else◌, Option, none, some}
use hwarangdo.Types.{
  TypeSymbol, primitive, declared, derived, enum_kind, b, is_int, is_string, is_numberic, is_bool,
  is_kind_class, is_kind_enum, same_symbol, has_category,
}
use hwarangdo.Types.Convert.{
  CastingResultKind, none_kind, unmatched, binary_casting, is_precision_loss,
}

pub data Operator : Type 0 where
  add sub mul div rem pow b_and b_or b_xor and or eq nt ls lse gr gre lsh rsh : Operator
  l_not b_not plus minus : Operator

unfoldable pub is_cmpable : TypeSymbol → TypeSymbol → Bool
unfolding has_category is_bool same_symbol
is_cmpable left right =
    if is_kind_class left || is_kind_class right
    then false
    else if is_numberic left && is_numberic right
    then true
    else if is_bool left && is_bool right
    then true
    else if is_kind_enum left && is_kind_enum right
    then same_symbol left right
    else same_symbol left right

-- A unary operator is an internal error: `none`.
unfoldable pub is_binary_operatable : Operator → TypeSymbol → TypeSymbol → Option Bool
unfolding has_category is_bool is_cmpable
is_binary_operatable b_and l r = some (is_int l && is_int r)
is_binary_operatable b_or l r = some (is_int l && is_int r)
is_binary_operatable b_xor l r = some (is_int l && is_int r)
is_binary_operatable lsh l r = some (is_int l && is_int r)
is_binary_operatable rsh l r = some (is_int l && is_int r)
is_binary_operatable add l r =
    some (if is_string l && is_string r then true else is_numberic l && is_numberic r)
is_binary_operatable ls l r = some (is_numberic l && is_numberic r)
is_binary_operatable lse l r = some (is_numberic l && is_numberic r)
is_binary_operatable gr l r = some (is_numberic l && is_numberic r)
is_binary_operatable gre l r = some (is_numberic l && is_numberic r)
is_binary_operatable sub l r = some (is_numberic l && is_numberic r)
is_binary_operatable mul l r = some (is_numberic l && is_numberic r)
is_binary_operatable div l r = some (is_numberic l && is_numberic r)
is_binary_operatable rem l r = some (is_numberic l && is_numberic r)
is_binary_operatable pow l r = some (is_numberic l && is_numberic r)
is_binary_operatable and l r = some (is_bool l && is_bool r)
is_binary_operatable or l r = some (is_bool l && is_bool r)
is_binary_operatable eq l r = some (is_cmpable l r)
is_binary_operatable nt l r = some (is_cmpable l r)
is_binary_operatable l_not l r = none
is_binary_operatable b_not l r = none
is_binary_operatable plus l r = none
is_binary_operatable minus l r = none

-- What an analysis ends with: a type, an error of the program, or an error of the compiler.
pub data Resolution : Type 0 where
  resolved : (type operand : TypeSymbol) (warns : Bool) → Resolution
  diagnostic : Resolution
  internal : Resolution

abbrev promoted : TypeSymbol → TypeSymbol → Option (TypeSymbol × CastingResultKind)
promoted l r = elim (binary_casting l r).0 [
  | none ↦ none
  | some t ↦ some (t, (binary_casting l r).1)
]

-- `none` is an internal error.
unfoldable pub binary_result :
    Operator → TypeSymbol → TypeSymbol → Option (TypeSymbol × CastingResultKind)
binary_result ls l r = some (primitive b, none_kind)
binary_result lse l r = some (primitive b, none_kind)
binary_result gr l r = some (primitive b, none_kind)
binary_result gre l r = some (primitive b, none_kind)
binary_result and l r = some (primitive b, none_kind)
binary_result or l r = some (primitive b, none_kind)
binary_result eq l r = some (primitive b, none_kind)
binary_result nt l r = some (primitive b, none_kind)
binary_result l_not l r = none
binary_result b_not l r = none
binary_result plus l r = none
binary_result minus l r = none
binary_result _ l r = promoted l r

typed : Option TypeSymbol → Option (TypeSymbol × CastingResultKind) → Resolution
typed none _ = internal
typed (some o) none = internal
typed (some o) (some (t, k)) = resolved t o (is_precision_loss k)

unfoldable pub resolve_binary : Operator → TypeSymbol → TypeSymbol → Resolution
unfolding binary_result typed
resolve_binary op l r = elim (is_binary_operatable op l r) [
  | none ↦ internal
  | some true ↦ typed (binary_casting l r).0 (binary_result op l r)
  | some false ↦ diagnostic
]
