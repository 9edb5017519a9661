-- ===== src/Types/Examples.antt =====
-- The theorems on conversions and operators at particular types.
use hwarangdo.Prelude.{◌≡◌, ◌≤◌, ◌⊎◌, ◌↔◌, refl, true, false, none, if◌then◌else◌}
use hwarangdo.Types.{
  declared, derived, class_kind, same_symbol, TypeSymbol, category, i32, i64, u32, f32, b,
  bit_width, primitive,
}
use hwarangdo.Types.Convert.{
  is_assignable, convert_builtin, binary_casting, none_kind, precision_loss,
}
use hwarangdo.Types.Convert.Order.{Above, itself, further, is_assignable_trans}
use hwarangdo.Types.Convert.Ranges.{
  max_value, min_magnitude, same_width_to_signed, exact, convert_int_iff, convert_int_float,
}
use hwarangdo.Types.Convert.Promote.{upper, as_symbol, binary_casting-upper}
use hwarangdo.Types.Operators.{add, ls, resolved, internal, is_binary_operatable, resolve_binary}
use hwarangdo.Types.Operators.Typing.{gives_bool, resolve_binary-converts, resolve_binary-internal}

-- Class 1 is derived from class 2, and that from class 3.
abbrev root_class : TypeSymbol
root_class = declared class_kind 3

abbrev middle_class : TypeSymbol
middle_class = derived class_kind 2 root_class

abbrev leaf_class : TypeSymbol
leaf_class = derived class_kind 1 middle_class

one_middle :
    (p : TypeSymbol) → Above leaf_class p → same_symbol p middle_class ≡ true → p ≡ middle_class
unfolding same_symbol
one_middle _ (itself _) h = absurd (cc h)
one_middle _ (further _ _ _ _ (itself _)) h = refl
one_middle _ (further _ _ _ _ (further _ _ _ _ (itself _))) h = absurd (cc h)

leaf_to_middle : is_assignable leaf_class middle_class ≡ true
unfolding is_assignable
leaf_to_middle = refl

middle_to_root : is_assignable middle_class root_class ≡ true
unfolding is_assignable
middle_to_root = refl

is_assignable_trans_example : is_assignable leaf_class root_class ≡ true
is_assignable_trans_example =
    is_assignable_trans leaf_class middle_class root_class refl one_middle leaf_to_middle
      middle_to_root

convert_int_iff_example : ((convert_builtin u32 i32).0 ≡ true) ↔ (
    ((max_value u32 ≤ max_value i32) × (min_magnitude u32 ≤ min_magnitude i32))
    ⊎ (same_width_to_signed u32 i32 ≡ true))
unfolding category
convert_int_iff_example = convert_int_iff u32 i32 refl refl

convert_int_float_example :
    ((convert_builtin i32 f32 ≡ (true, none_kind)) ↔ (exact i32 f32 ≡ true))
    × ((convert_builtin i32 f32 ≡ (true, precision_loss))
        ↔ ((exact i32 f32 ≡ false) × (bit_width i32 ≡ bit_width f32)))
unfolding category
convert_int_float_example = convert_int_float i32 f32 refl refl

binary_casting-upper_example :
    (binary_casting (primitive i64) (primitive f32)).0 ≡ as_symbol (upper i64 f32)
binary_casting-upper_example = binary_casting-upper i64 f32

less_typed :
    resolve_binary ls (primitive i32) (primitive f32) ≡ resolved (primitive b) (primitive f32) false
unfolding resolve_binary is_binary_operatable binary_casting
less_typed = refl

resolve_binary-converts_example :
    (is_assignable (primitive i32) (primitive f32) ≡ true)
    × (is_assignable (primitive f32) (primitive f32) ≡ true)
    × (primitive b ≡ (if gives_bool ls then primitive b else primitive f32))
resolve_binary-converts_example =
    resolve_binary-converts ls (primitive i32) (primitive f32) (primitive b) (primitive f32) false
      less_typed

resolve_binary-internal_example :
    (resolve_binary add (primitive i64) (primitive f32) ≡ internal) ↔ (upper i64 f32 ≡ none)
resolve_binary-internal_example =
    resolve_binary-internal add i64 f32 (unfold is_binary_operatable in refl)
