-- ===== src/Overload.antt =====
-- The choice of a method or a runtime function for a call: `resolveOverload`, `matchArgument`,
-- `isBetterThan` and `rankOf` of src/SemanticAnalyzer/Resolver/ResolveCall.cpp. What converts a literal
-- is a parameter, and so are the reads of a symbol's parameters. An end in `Error::diagnostic` is an
-- outcome.
pub mod Ranks
pub mod Best
pub mod Viable
mod Examples
use hwarangdo.Prelude.{
  ℕ, zero, suc, ◌+◌, ◌-◌, ◌*◌, ◌/◌, ◌%◌, ◌^◌, ◌≤◌, ◌<◌, ◌≡◌, refl, sym, ap, ◌∙◌, subst, ◌≢◌, ◌↔◌,
  ◌⊎◌, inl, inr, Bool, true, false, not, ◌&&◌, ◌||◌, Option, none, some, List, [], ◌∷◌, ◌++◌, map,
  arith, ltb, leb, ◌==◌, if◌then◌else◌, ltb→lt, lt→ltb, leb→le, ==_iff, tests, Bool-cases,
  Option-cases, some-eq, of_either, length, get_elem?, set, length-append, length-set,
  get_elem?-set_self, get_elem?-set_ne, get_or, take, drop, replicate, take-append-drop,
  length-take, length-drop, length-replicate, length-map, get_elem?-set, get_elem?-append_one,
  get_elem?-lt, contains, distinct, contains-drop-append, contains-append_one, contains-drop_head,
  contains_of_get, get_elem?-append_left, length_of_none, get_of_lt, drop-eq-nil,
}
use hwarangdo.Types.{TypeSymbol, same_symbol}
use hwarangdo.Types.Convert.{can_implicitly_convert}

pub data ArgMatchKind : Type 0 where
  exact default_arg implicit_cast invalid : ArgMatchKind

unfoldable pub rank_of : ArgMatchKind → ℕ
rank_of exact = 0
rank_of default_arg = 0
rank_of implicit_cast = 1
rank_of invalid = 999

-- The loop of `isBetterThan`. The kinds of two candidates for one call are as many as its arguments,
-- so that the case of fewer on the right is not reached.
unfoldable pub is_better_from : Bool → List ArgMatchKind → List ArgMatchKind → Bool
unfolding rank_of
is_better_from better [] bs = better
is_better_from better (a ∷ as') [] = false
is_better_from better (a ∷ as') (b ∷ bs) =
    let rest = is_better_from (better || ltb (rank_of a) (rank_of b)) as' bs in
    if ltb (rank_of b) (rank_of a) then false else rest

unfoldable pub is_better_than : List ArgMatchKind → List ArgMatchKind → Bool
unfolding is_better_from
is_better_than = is_better_from false

-- What `matchArgument` tells apart: `_`, a literal, and any other expression, with its type.
pub data Arg : Type 0 where
  default_value_expr : Arg
  literal_expr : ℕ → TypeSymbol → Arg
  typed_expr : TypeSymbol → Arg

unfoldable pub match_argument : (ℕ → TypeSymbol → Bool) → Arg → TypeSymbol → Bool → ArgMatchKind
unfolding same_symbol can_implicitly_convert
match_argument converts default_value_expr param has_init =
    if has_init then default_arg else invalid
match_argument converts (literal_expr l t) param has_init =
    if same_symbol t param then exact else if converts l param then implicit_cast else invalid
match_argument converts (typed_expr t) param has_init =
    if same_symbol t param
    then exact
    else if (can_implicitly_convert t param).0
    then implicit_cast
    else invalid

pub record Candidate (S : Type 0) : Type 0 where
  pub kinds : List ArgMatchKind
  pub symbol : S

abbrev pub is_invalid : ArgMatchKind → Bool
is_invalid invalid = true
is_invalid _ = false

-- Whether candidate `i`, which is `c`, is beaten by one of `ds`, the first of which is number `j`.
unfoldable pub is_beaten : {S : Type 0} → ℕ → Candidate S → ℕ → List (Candidate S) → Bool
unfolding is_better_than
is_beaten i c j [] = false
is_beaten i c j (d ∷ ds) =
    let rest = is_beaten i c (suc j) ds in
    if i == j then rest else if is_better_than d.kinds c.kinds then true else rest

-- The loop that fills `bestIdx`, at the candidates from number `i` on.
unfoldable pub best_from : {S : Type 0} → List (Candidate S) → ℕ → List (Candidate S) → List ℕ
unfolding is_beaten
best_from all i [] = []
best_from all i (c ∷ cs) =
    let rest = best_from all (suc i) cs in if is_beaten i c 0 all then rest else i ∷ rest

pub data Choice (S : Type 0) : Type 0 where
  unknown ambiguous : Choice S
  chosen : S → Choice S

-- `bestIdx` decides. An index out of the candidates' range is not reached.
unfoldable pub choose : {S : Type 0} → List (Candidate S) → List ℕ → Choice S
choose cs [] = unknown
choose cs (i ∷ []) = elim (get_elem? cs i) [ none ↦ unknown | some c ↦ chosen c.symbol ]
choose cs (i ∷ k ∷ is) = ambiguous

module _ {S : Type 0} (converts : ℕ → TypeSymbol → Bool) (param_count : S → ℕ)
    (param_type : S → ℕ → TypeSymbol) (has_default : S → ℕ → Bool) where
  -- The kinds of the arguments from number `i` on, if none is invalid.
  unfoldable pub match_from : S → ℕ → List Arg → Option (List ArgMatchKind)
  unfolding match_argument
  match_from s i [] = some []
  match_from s i (a ∷ args) =
      let kind = match_argument converts a (param_type s i) (has_default s i) in
      let rest = match_from s (suc i) args in
      if is_invalid kind then none else elim rest [ none ↦ none | some ks ↦ some (kind ∷ ks) ]

  unfoldable pub viable_candidates : List Arg → List S → List (Candidate S)
  unfolding match_from
  viable_candidates args [] = []
  viable_candidates args (s ∷ bucket) =
      let rest = viable_candidates args bucket in
      if param_count s == length args
      then elim (match_from s 0 args) [
        | none ↦ rest
        | some ks ↦ record { kinds = ks; symbol = s } ∷ rest
      ]
      else rest

  unfoldable pub resolve_overload : List S → List Arg → Choice S
  unfolding viable_candidates choose best_from
  resolve_overload bucket args =
      let cs = viable_candidates args bucket in choose cs (best_from cs 0 cs)
