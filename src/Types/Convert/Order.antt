-- ===== src/Types/Convert/Order.antt =====
-- Implicit conversion composes.
use hwarangdo.Prelude.{
  ℕ, ◌≡◌, refl, Bool, true, false, not, ◌&&◌, ◌||◌, arith, inl, inr, Bool-cases, subst,
}
use hwarangdo.Types.{
  BuiltInType, TypeKind, TypeSymbol, primitive, declared, derived, same_symbol, is_primitive,
}
use hwarangdo.Types.Enumerate.{for_all, for_all₃}
use hwarangdo.Types.Convert.{has_base, can_implicitly_convert, is_assignable}

abbrev converts : BuiltInType → BuiltInType → Bool
converts s t = is_assignable (primitive s) (primitive t)

trans_table :
    for_all (λ s. for_all (λ t. for_all (λ u. not (converts s t && converts t u) || converts s u)))
    ≡ true
unfolding for_all is_assignable
trans_table = refl

builtin_trans :
    (s t u : BuiltInType)
    → is_assignable (primitive s) (primitive t) ≡ true
    → is_assignable (primitive t) (primitive u) ≡ true
    → is_assignable (primitive s) (primitive u) ≡ true
builtin_trans s t u p q = ground (
  arith,
  for_all₃ (λ s t u. not (converts s t && converts t u) || converts s u) s t u trans_table,
)

-- A type or a base of it, near or far.
pub data Above : TypeSymbol → TypeSymbol → Type 0 where
  itself : (s : TypeSymbol) → Above s s
  further : (k : TypeKind) (n : ℕ) (b s : TypeSymbol) → Above b s → Above (derived k n b) s

-- No base is a builtin type.
abbrev pub has_class_bases : TypeSymbol → Bool
has_class_bases (derived k n b) = not (is_primitive b) && has_class_bases b
has_class_bases _ = true

has_base-Above :
    (s t : TypeSymbol)
    → has_base s t ≡ true
    → (p : TypeSymbol) × Above s p × (same_symbol p t ≡ true)
unfolding has_base
has_base-Above (primitive x) t h = (primitive x, itself (primitive x), h)
has_base-Above (declared k n) t h = (declared k n, itself (declared k n), h)
has_base-Above (derived k n b) t h = elim (Bool-cases (same_symbol (derived k n b) t)) [
  | inl e ↦ (derived k n b, itself (derived k n b), e)
  | inr e ↦ let (p, a, f) = has_base-Above b t (ground (arith, e, h)) in (p, further k n b p a, f)
]

Above-has_base : (s t u : TypeSymbol) → Above s t → has_base t u ≡ true → has_base s u ≡ true
unfolding has_base
Above-has_base s t u (itself _) h = h
Above-has_base _ t u (further k n b _ a) h = ground (arith, Above-has_base b t u a h)

Above-is_primitive :
    (s t : TypeSymbol)
    → Above s t
    → is_primitive s ≡ false
    → has_class_bases s ≡ true
    → is_primitive t ≡ false
Above-is_primitive s t (itself _) h c = h
Above-is_primitive _ t (further k n b _ a) h c =
    Above-is_primitive b t a (ground (arith, c)) (ground (arith, c))

-- A type that is not builtin converts to its bases only.
class_only :
    (s t : TypeSymbol) → is_primitive s ≡ false → is_assignable s t ≡ true → has_base s t ≡ true
unfolding is_assignable can_implicitly_convert
class_only (primitive x) t h e = absurd (cc h)
class_only (declared k n) t h e = ground (arith, e)
class_only (derived k n b) t h e = ground (arith, e)

base_converts : (s t : TypeSymbol) → has_base s t ≡ true → is_assignable s t ≡ true
unfolding is_assignable can_implicitly_convert
base_converts s t h = ground (arith, h)

class_trans :
    (s t u : TypeSymbol)
    → is_primitive s ≡ false
    → has_class_bases s ≡ true
    → ((p : TypeSymbol) → Above s p → same_symbol p t ≡ true → p ≡ t)
    → is_assignable s t ≡ true
    → is_assignable t u ≡ true
    → is_assignable s u ≡ true
class_trans s t u h c one p q =
    let (x, above, same) = has_base-Above s t (class_only s t h p) in
    let a : Above s t = subst (Above s) (one x above same) above in
    let to_u = class_only t u (Above-is_primitive s t a h c) q in
    base_converts s u (Above-has_base s t u a to_u)

-- Conversions compose: where a first type converts to a second and that to a third, the first
-- converts to the third. No base of the first type is builtin, and a symbol among the first type and
-- its bases that has the second type's address is the second type.
pub is_assignable_trans :
    (s t u : TypeSymbol)
    → has_class_bases s ≡ true
    → ((p : TypeSymbol) → Above s p → same_symbol p t ≡ true → p ≡ t)
    → is_assignable s t ≡ true
    → is_assignable t u ≡ true
    → is_assignable s u ≡ true
unfolding is_assignable can_implicitly_convert has_base same_symbol
is_assignable_trans (primitive s) (primitive t) (primitive u) c one p q = builtin_trans s t u p q
is_assignable_trans (primitive s) (primitive t) (declared k n) c one p q = absurd (cc q)
is_assignable_trans (primitive s) (primitive t) (derived k n b) c one p q = absurd (cc q)
is_assignable_trans (primitive s) (declared k n) u c one p q = absurd (cc p)
is_assignable_trans (primitive s) (derived k n b) u c one p q = absurd (cc p)
is_assignable_trans (declared k n) t u c one p q = class_trans (declared k n) t u refl c one p q
is_assignable_trans (derived k n b) t u c one p q = class_trans (derived k n b) t u refl c one p q
