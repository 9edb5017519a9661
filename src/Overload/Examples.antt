-- ===== src/Overload/Examples.antt =====
-- The choice of a method at concrete candidates.
use hwarangdo.Prelude.{
  ℕ, zero, suc, ◌≡◌, refl, ◌↔◌, Bool, true, false, some, List, [], ◌∷◌, get_elem?,
}
use hwarangdo.Types.{TypeSymbol, primitive, i16, i32, i64}
use hwarangdo.Overload.{
  exact, implicit_cast, invalid, is_better_than, Arg, typed_expr, Candidate, unknown, ambiguous,
  chosen, viable_candidates, resolve_overload,
}
use hwarangdo.Overload.Ranks.{is_better_than-strict}
use hwarangdo.Overload.Best.{beats_others, resolve_overload-best, resolve_overload-unknown}
use hwarangdo.Overload.Viable.{Takes, viable_candidates-Takes}

abbrev no_literal : ℕ → TypeSymbol → Bool
no_literal l t = false

-- Method 0 takes an `i32`, method 1 an `i64`.
abbrev type_of : ℕ → ℕ → TypeSymbol
type_of zero i = primitive i32
type_of (suc s) i = primitive i64

abbrev one_param : ℕ → ℕ
one_param s = 1

abbrev no_default : ℕ → ℕ → Bool
no_default s i = false

abbrev one_arg : List Arg
one_arg = typed_expr (primitive i32) ∷ []

first_chosen :
    resolve_overload no_literal one_param type_of no_default (1 ∷ 0 ∷ []) one_arg ≡ chosen 0
unfolding resolve_overload
first_chosen = refl

-- Both take an `i16`, by a conversion.
both_convert :
    resolve_overload no_literal one_param type_of no_default
      (1 ∷ 0 ∷ [])
      (typed_expr (primitive i16) ∷ [])
    ≡ ambiguous
unfolding resolve_overload
both_convert = refl

exact_better : is_better_than (exact ∷ []) (implicit_cast ∷ []) ≡ true
unfolding is_better_than
exact_better = refl

cast_better : is_better_than (implicit_cast ∷ []) (invalid ∷ []) ≡ true
unfolding is_better_than
cast_better = refl

is_better_than-strict_example :
    (is_better_than (exact ∷ []) (invalid ∷ []) ≡ true)
    × (is_better_than (implicit_cast ∷ []) (exact ∷ []) ≡ false)
is_better_than-strict_example =
    is_better_than-strict (exact ∷ []) (implicit_cast ∷ []) (invalid ∷ []) exact_better cast_better

abbrev both : List (Candidate ℕ)
both = viable_candidates no_literal one_param type_of no_default one_arg (1 ∷ 0 ∷ [])

resolve_overload-best_example :
    (m : ℕ) × (c : Candidate ℕ) × (get_elem? both m ≡ some c)
    × (c.symbol ≡ 0)
    × (beats_others m c 0 both ≡ true)
resolve_overload-best_example =
    resolve_overload-best no_literal one_param type_of no_default (1 ∷ 0 ∷ []) one_arg 0
      first_chosen

resolve_overload-unknown_example :
    (resolve_overload no_literal one_param type_of no_default (1 ∷ []) [] ≡ unknown)
    ↔ (viable_candidates no_literal one_param type_of no_default [] (1 ∷ []) ≡ [])
resolve_overload-unknown_example =
    resolve_overload-unknown no_literal one_param type_of no_default (1 ∷ []) []

second_of_both : get_elem? both 1 ≡ some (record { kinds = exact ∷ []; symbol = 0 })
unfolding viable_candidates
second_of_both = refl

viable_candidates-Takes_example :
    ((i : ℕ) × (get_elem?
          (viable_candidates no_literal one_param type_of no_default one_arg (1 ∷ 0 ∷ []))
          i
        ≡ some (record { kinds = exact ∷ []; symbol = 0 })))
    ↔ Takes no_literal one_param type_of no_default one_arg (1 ∷ 0 ∷ []) 0 (exact ∷ [])
viable_candidates-Takes_example =
    viable_candidates-Takes no_literal one_param type_of no_default one_arg (1 ∷ 0 ∷ []) 0
      (exact ∷ [])
