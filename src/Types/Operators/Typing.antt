-- ===== src/Types/Operators/Typing.antt =====
-- What the typing of a binary expression promises.
use hwarangdo.Prelude.{
  ◌≡◌, ◌↔◌, inl, inr, refl, ap, sym, ◌∙◌, subst, Bool, true, false, not, ◌&&◌, ◌||◌, none, some,
  List, [], ◌∷◌, arith, Option-cases, Bool-cases, some-eq, if◌then◌else◌,
}
use hwarangdo.Types.{
  BuiltInType, TypeSymbol, primitive, b, declared, derived, same_symbol, is_primitive,
}
use hwarangdo.Types.Convert.{
  binary_casting, is_precision_loss, is_assignable, can_implicitly_convert, has_base, first_common,
  get_promotion_candidates,
}
use hwarangdo.Types.Convert.Promote.{upper, as_symbol, binary_casting-upper}
use hwarangdo.Types.Operators.{
  Operator, add, and, or, eq, nt, ls, lse, gr, gre, l_not, b_not, plus, minus, resolved, internal,
  is_binary_operatable, resolve_binary, diagnostic,
}

-- The operators whose result is `bool`.
abbrev pub gives_bool : Operator → Bool
gives_bool and = true
gives_bool or = true
gives_bool eq = true
gives_bool nt = true
gives_bool ls = true
gives_bool lse = true
gives_bool gr = true
gives_bool gre = true
gives_bool _ = false

operand_typed :
    (op : Operator) (l r o : TypeSymbol)
    → is_binary_operatable op l r ≡ some true
    → (binary_casting l r).0 ≡ some o
    → resolve_binary op l r
      ≡ resolved
          (if gives_bool op then primitive b else o)
          o
          (if gives_bool op then false else is_precision_loss (binary_casting l r).1)
unfolding resolve_binary
operand_typed add l r o h e = ground (arith, h, e)
operand_typed l_not l r o h e = absurd (unfold is_binary_operatable in cc h)
operand_typed b_not l r o h e = absurd (unfold is_binary_operatable in cc h)
operand_typed plus l r o h e = absurd (unfold is_binary_operatable in cc h)
operand_typed minus l r o h e = absurd (unfold is_binary_operatable in cc h)
operand_typed _ l r o h e = ground (arith, h, e)

operand_untyped :
    (op : Operator) (l r : TypeSymbol)
    → is_binary_operatable op l r ≡ some true
    → (binary_casting l r).0 ≡ none
    → resolve_binary op l r ≡ internal
unfolding resolve_binary
operand_untyped op l r h e = ground (arith, h, e)

-- An operation that is allowed on two builtin types fails inside the compiler exactly if neither
-- type converts to the other; the program gets no diagnostic then.
pub resolve_binary-internal :
    (op : Operator) (l r : BuiltInType)
    → is_binary_operatable op (primitive l) (primitive r) ≡ some true
    → (resolve_binary op (primitive l) (primitive r) ≡ internal) ↔ (upper l r ≡ none)
resolve_binary-internal op l r h =
    let e = binary_casting-upper l r in
    elim (Option-cases (upper l r)) [
      | inl n ↦
          ((λ _. n), λ _. operand_untyped op (primitive l) (primitive r) h (e ∙ ap as_symbol n))
      | inr (t, s) ↦
          let typed =
            operand_typed op (primitive l) (primitive r) (primitive t) h (e ∙ ap as_symbol s) in
          ((λ i. absurd (cc (i, typed))), λ n. absurd (cc (n, s)))
    ]

same_symbol_sym : (s t : TypeSymbol) → same_symbol s t ≡ true → same_symbol t s ≡ true
unfolding same_symbol
same_symbol_sym (primitive x) (primitive y) h = ground (arith, h)
same_symbol_sym (primitive x) (declared k n) h = h
same_symbol_sym (primitive x) (derived k n c) h = h
same_symbol_sym (declared k n) (primitive x) h = h
same_symbol_sym (declared k n) (declared k' m) h = ground (arith, h)
same_symbol_sym (declared k n) (derived k' m c) h = ground (arith, h)
same_symbol_sym (derived k n c) (primitive x) h = h
same_symbol_sym (derived k n c) (declared k' m) h = ground (arith, h)
same_symbol_sym (derived k n c) (derived k' m c') h = ground (arith, h)

same_symbol_refl : (s : TypeSymbol) → same_symbol s s ≡ true
unfolding same_symbol
same_symbol_refl (primitive x) = ground arith
same_symbol_refl (declared k n) = ground arith
same_symbol_refl (derived k n c) = ground arith

same-converts : (s t : TypeSymbol) → same_symbol s t ≡ true → is_assignable s t ≡ true
unfolding is_assignable can_implicitly_convert has_base
same-converts (primitive x) t h = ground (arith, h)
same-converts (declared k n) t h = ground (arith, h)
same-converts (derived k n c) t h = ground (arith, h)

and-split : (a c : Bool) → (a && c) ≡ true → (a ≡ true) × (c ≡ true)
and-split true c h = (refl, h)
and-split false c h = absurd (cc h)

if_first : {A B : Type 0} (c : Bool) (x y : A × B) → c ≡ true → (if c then x else y).0 ≡ x.0
if_first true x y h = refl
if_first false x y h = absurd (cc h)

if_second : {A B : Type 0} (c : Bool) (x y : A × B) → c ≡ false → (if c then x else y).0 ≡ y.0
if_second true x y h = absurd (cc h)
if_second false x y h = refl

first_common-converts :
    (l r : TypeSymbol) (ts : List TypeSymbol) (o : TypeSymbol)
    → (first_common l r ts).0 ≡ some o
    → (is_assignable l o ≡ true) × (is_assignable r o ≡ true)
unfolding first_common is_assignable
first_common-converts l r [] o h = absurd (cc h)
first_common-converts l r (t ∷ ts) o h =
    let pick = is_assignable l t && is_assignable r t in
    elim (Bool-cases pick) [
      | inl e ↦
          let t-o : t ≡ o = some-eq (sym (if_first pick _ (first_common l r ts) e) ∙ h) in
          subst (λ x. (is_assignable l x ≡ true) × (is_assignable r x ≡ true)) t-o
            (and-split (is_assignable l t) (is_assignable r t) e)
      | inr e ↦
          first_common-converts l r ts o
            (sym (if_second pick (some t, _) (first_common l r ts) e) ∙ h)
    ]

binary_casting-converts :
    (l r o : TypeSymbol)
    → (binary_casting l r).0 ≡ some o
    → (is_assignable l o ≡ true) × (is_assignable r o ≡ true)
unfolding binary_casting
binary_casting-converts l r o h = elim (Bool-cases (same_symbol l r)) [
  | inl e ↦
      let l-o : l ≡ o = some-eq (ground (arith, e, h)) in
      subst (λ x. (is_assignable l x ≡ true) × (is_assignable r x ≡ true)) l-o
        (same-converts l l (same_symbol_refl l), same-converts r l (same_symbol_sym l r e))
  | inr e ↦ elim (Bool-cases (not (is_primitive l) || not (is_primitive r))) [
    | inl f ↦ absurd (ground (arith, e, f, h))
    | inr f ↦ first_common-converts l r (get_promotion_candidates l r) o (ground (arith, e, f, h))
  ]
]

not_operatable :
    (op : Operator) (l r : TypeSymbol)
    → is_binary_operatable op l r ≡ none
    → resolve_binary op l r ≡ internal
unfolding resolve_binary
not_operatable op l r h = ground (arith, h)

refused :
    (op : Operator) (l r : TypeSymbol)
    → is_binary_operatable op l r ≡ some false
    → resolve_binary op l r ≡ diagnostic
unfolding resolve_binary
refused op l r h = ground (arith, h)

-- When a binary expression gets a type, both its operands convert to the type that the operands are
-- given, and the type of the expression is that type, or `bool` for an operator that compares or joins
-- truth values. This holds for all symbols, not for builtin types only.
pub resolve_binary-converts :
    (op : Operator) (l r t o : TypeSymbol) (w : Bool)
    → resolve_binary op l r ≡ resolved t o w
    → (is_assignable l o ≡ true)
      × (is_assignable r o ≡ true)
      × (t ≡ (if gives_bool op then primitive b else o))
unfolding resolve_binary
resolve_binary-converts op l r t o w h = elim (Option-cases (is_binary_operatable op l r)) [
  | inl e ↦ absurd (cc (sym (not_operatable op l r e) ∙ h))
  | inr (ok, e) ↦ elim (Bool-cases ok) [
    | inr f ↦ absurd (cc (sym (refused op l r (e ∙ ap some f)) ∙ h))
    | inl f ↦ elim (Option-cases (binary_casting l r).0) [
      | inl g ↦ absurd (cc (sym (operand_untyped op l r (e ∙ ap some f) g) ∙ h))
      | inr (c, g) ↦
          let same = sym (operand_typed op l r c (e ∙ ap some f) g) ∙ h in
          let c-o : c ≡ o = cc same in
          let (left, right) = binary_casting-converts l r o (g ∙ ap some c-o) in
          (left, right, cc (same, c-o))
    ]
  ]
]
