-- ===== src/Types.antt =====
-- The type symbols that conversions look at: include/hrd/BuiltInType.h,
-- include/hrd/SemanticAnalyzer/symbol/TypeSymbol.h and the tests of SymbolTable.h.
pub mod Enumerate
pub mod Convert
pub mod Operators
mod Examples
use hwarangdo.Prelude.{ℕ, Bool, true, false, ◌||◌, ◌==◌, Option, none, some}

pub data BuiltInType : Type 0 where
  i8 i16 i32 i64 i128 u8 u16 u32 u64 u128 : BuiltInType
  f16 f32 f64 f128 : BuiltInType
  c8 c16 c32 : BuiltInType
  s8 s16 s32 : BuiltInType
  b fi void : BuiltInType

pub data BuiltinCategory : Type 0 where
  int float char string bool void_category func fixed : BuiltinCategory

-- `builtinEntries`. It has no row for `fi` and `void`, of which no type symbol is made.
unfoldable pub category : BuiltInType → BuiltinCategory
category i8 = int
category i16 = int
category i32 = int
category i64 = int
category i128 = int
category u8 = int
category u16 = int
category u32 = int
category u64 = int
category u128 = int
category f16 = float
category f32 = float
category f64 = float
category f128 = float
category c8 = char
category c16 = char
category c32 = char
category s8 = string
category s16 = string
category s32 = string
category b = bool
category fi = fixed
category void = void_category

-- `bitWidth` of IntType, FloatType, CharType and StringType.
unfoldable pub bit_width : BuiltInType → ℕ
bit_width i8 = 8
bit_width i16 = 16
bit_width i32 = 32
bit_width i64 = 64
bit_width i128 = 128
bit_width u8 = 8
bit_width u16 = 16
bit_width u32 = 32
bit_width u64 = 64
bit_width u128 = 128
bit_width f16 = 16
bit_width f32 = 32
bit_width f64 = 64
bit_width f128 = 128
bit_width c8 = 8
bit_width c16 = 16
bit_width c32 = 32
bit_width s8 = 8
bit_width s16 = 16
bit_width s32 = 32
bit_width _ = 0

-- `isSigned` of IntType.
unfoldable pub is_signed : BuiltInType → Bool
is_signed u8 = false
is_signed u16 = false
is_signed u32 = false
is_signed u64 = false
is_signed u128 = false
is_signed _ = true

-- `precious` of FloatType: the bits of a significand.
unfoldable pub precious : BuiltInType → ℕ
precious f16 = 11
precious f32 = 24
precious f64 = 53
precious f128 = 113
precious _ = 0

-- The kinds of type symbols that are not primitive.
pub data TypeKind : Type 0 where
  class_kind enum_kind struct_kind trait_kind void_kind func_kind handle_kind : TypeKind
  result_kind option_kind error_kind unknown_kind builtin_kind default_kind array_kind : TypeKind

-- A symbol is known by its address. There is one symbol for each builtin type. `derived` has a base
-- class; the chain of bases ends.
pub data TypeSymbol : Type 0 where
  primitive : BuiltInType → TypeSymbol
  declared : TypeKind → ℕ → TypeSymbol
  derived : TypeKind → ℕ → TypeSymbol → TypeSymbol

unfoldable pub code : BuiltInType → ℕ
code i8 = 0
code i16 = 1
code i32 = 2
code i64 = 3
code i128 = 4
code u8 = 5
code u16 = 6
code u32 = 7
code u64 = 8
code u128 = 9
code f16 = 10
code f32 = 11
code f64 = 12
code f128 = 13
code c8 = 14
code c16 = 15
code c32 = 16
code s8 = 17
code s16 = 18
code s32 = 19
code b = 20
code fi = 21
code void = 22

-- Equality of pointers to symbols.
unfoldable pub same_symbol : TypeSymbol → TypeSymbol → Bool
unfolding code
same_symbol (primitive s) (primitive t) = code s == code t
same_symbol (primitive s) _ = false
same_symbol (declared _ m) (primitive t) = false
same_symbol (declared _ m) (declared _ n) = m == n
same_symbol (declared _ m) (derived _ n _) = m == n
same_symbol (derived _ m _) (primitive t) = false
same_symbol (derived _ m _) (declared _ n) = m == n
same_symbol (derived _ m _) (derived _ n _) = m == n

abbrev pub builtin : TypeSymbol → Option BuiltInType
builtin (primitive t) = some t
builtin (declared _ _) = none
builtin (derived _ _ _) = none

abbrev pub is_primitive : TypeSymbol → Bool
is_primitive (primitive _) = true
is_primitive _ = false

abbrev pub is_kind_class : TypeSymbol → Bool
is_kind_class (declared class_kind _) = true
is_kind_class (derived class_kind _ _) = true
is_kind_class _ = false

abbrev pub is_kind_enum : TypeSymbol → Bool
is_kind_enum (declared enum_kind _) = true
is_kind_enum (derived enum_kind _ _) = true
is_kind_enum _ = false

abbrev pub same_category : BuiltinCategory → BuiltinCategory → Bool
same_category int int = true
same_category float float = true
same_category char char = true
same_category string string = true
same_category bool bool = true
same_category void_category void_category = true
same_category func func = true
same_category fixed fixed = true
same_category _ _ = false

unfoldable pub has_category : BuiltinCategory → TypeSymbol → Bool
unfolding category
has_category c t = elim (builtin t) [ none ↦ false | some p ↦ same_category (category p) c ]

abbrev pub is_int : TypeSymbol → Bool
is_int = has_category int

abbrev pub is_float : TypeSymbol → Bool
is_float = has_category float

abbrev pub is_fixed : TypeSymbol → Bool
is_fixed = has_category fixed

abbrev pub is_string : TypeSymbol → Bool
is_string = has_category string

abbrev pub is_char : TypeSymbol → Bool
is_char = has_category char

unfoldable pub is_bool : TypeSymbol → Bool
unfolding same_symbol
is_bool t = same_symbol (primitive b) t

-- `isNumberic`.
abbrev pub is_numberic : TypeSymbol → Bool
is_numberic t = is_int t || is_float t || is_fixed t
