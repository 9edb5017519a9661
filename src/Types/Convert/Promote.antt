-- ===== src/Types/Convert/Promote.antt =====
-- The common type of two operands, `binaryCasting`.
use hwarangdo.Prelude.{
  ◌≡◌, refl, ap, sym, ◌∙◌, Bool, true, false, not, ◌&&◌, if◌then◌else◌, Option, none, some, arith,
}
use hwarangdo.Types.{BuiltInType, TypeSymbol, primitive, declared, derived, same_symbol}
use hwarangdo.Types.Enumerate.{for_all, for_all₂, code-injective}
use hwarangdo.Types.Convert.{is_assignable, binary_casting, is_precision_loss}

abbrev same_result : Option TypeSymbol → Option TypeSymbol → Bool
same_result none none = true
same_result (some s) (some t) = same_symbol s t
same_result _ _ = false

abbrev common : BuiltInType → BuiltInType → Option TypeSymbol
common l r = (binary_casting (primitive l) (primitive r)).0

abbrev converts : BuiltInType → BuiltInType → Bool
converts s t = is_assignable (primitive s) (primitive t)

-- The common type by the order alone: the operand that the other converts to.
abbrev pub upper : BuiltInType → BuiltInType → Option BuiltInType
upper l r = if converts l r then some r else if converts r l then some l else none

abbrev upper_row : BuiltInType → BuiltInType → Bool
upper_row l r =
    same_result (common l r) (elim (upper l r) [ none ↦ none | some t ↦ some (primitive t) ])

upper_table : for_all (λ l. for_all (upper_row l)) ≡ true
unfolding for_all binary_casting is_assignable
upper_table = refl

abbrev pub as_symbol : Option BuiltInType → Option TypeSymbol
as_symbol none = none
as_symbol (some t) = some (primitive t)

same_result-eq :
    (o : Option TypeSymbol) (u : Option BuiltInType)
    → same_result o (as_symbol u) ≡ true
    → o ≡ as_symbol u
unfolding same_symbol
same_result-eq none none h = refl
same_result-eq none (some t) h = absurd (cc h)
same_result-eq (some s) none h = absurd (cc h)
same_result-eq (some (primitive s)) (some t) h =
    ap (λ (x : BuiltInType). some (primitive x)) (code-injective s t (ground arith))
same_result-eq (some (declared k n)) (some t) h = absurd (cc h)
same_result-eq (some (derived k n b)) (some t) h = absurd (cc h)

-- The common type of two builtin operands is the one that the other converts to, and there is none
-- exactly if neither converts to the other.
pub binary_casting-upper :
    (l r : BuiltInType) → (binary_casting (primitive l) (primitive r)).0 ≡ as_symbol (upper l r)
binary_casting-upper l r =
    same_result-eq (common l r) (upper l r) (for_all₂ upper_row l r upper_table ∙ refl)

abbrev agree : Bool → Bool → Bool
agree true b = b
agree false b = not b

abbrev comm_row : BuiltInType → BuiltInType → Bool
comm_row l r =
    same_result (common l r) (common r l)
    && agree (is_precision_loss (binary_casting (primitive l) (primitive r)).1)
        (is_precision_loss (binary_casting (primitive r) (primitive l)).1)

comm_table : for_all (λ l. for_all (comm_row l)) ≡ true
unfolding for_all binary_casting
comm_table = refl

agree-eq : (a b : Bool) → agree a b ≡ true → a ≡ b
agree-eq true b h = ground arith
agree-eq false b h = ground arith

-- The order of two builtin operands changes neither their common type nor whether the compiler
-- warns about precision.
pub binary_casting_comm :
    (l r : BuiltInType)
    → ((binary_casting (primitive l) (primitive r)).0
        ≡ (binary_casting (primitive r) (primitive l)).0)
      × (is_precision_loss (binary_casting (primitive l) (primitive r)).1
          ≡ is_precision_loss (binary_casting (primitive r) (primitive l)).1)
binary_casting_comm l r =
    let row : comm_row l r ≡ true = for_all₂ comm_row l r comm_table in
    let from_right = binary_casting-upper r l in
    (
      same_result-eq (common l r) (upper r l)
            (ap (same_result (common l r)) (sym from_right) ∙ ground (arith, row))
          ∙ sym from_right,
      agree-eq _ _ (ground (arith, row)),
    )
