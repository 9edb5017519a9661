-- ===== src/Inherit.antt =====
-- The search for cyclic inheritance: `verifyCycledInherit` and the loop over the classes in `verify`
-- of src/SemanticAnalyzer/Verifier.cpp. A class is known by its number among the declarations. The
-- recursion is on fuel; one more than the number of classes is enough.
pub mod Marks
pub mod Chains
mod Examples
use hwarangdo.Prelude.{
  ℕ, zero, suc, ◌+◌, ◌-◌, ◌*◌, ◌/◌, ◌%◌, ◌^◌, ◌≤◌, ◌<◌, ◌≡◌, refl, sym, ap, ◌∙◌, subst, ◌≢◌, ◌↔◌,
  ◌⊎◌, inl, inr, Bool, true, false, not, ◌&&◌, ◌||◌, Option, none, some, List, [], ◌∷◌, ◌++◌, map,
  arith, ltb, leb, ◌==◌, if◌then◌else◌, ltb→lt, lt→ltb, leb→le, ==_iff, tests, Bool-cases,
  Option-cases, some-eq, of_either, length, get_elem?, set, length-append, length-set,
  get_elem?-set_self, get_elem?-set_ne, get_or, take, drop, replicate, take-append-drop,
  length-take, length-drop, length-replicate, length-map, get_elem?-set, get_elem?-append_one,
  get_elem?-lt, contains, distinct, contains-drop-append, contains-append_one, contains-drop_head,
  contains_of_get, get_elem?-append_left, length_of_none, get_of_lt, drop-eq-nil, set-inv,
}

pub data InheritState : Type 0 where
  unvisited visiting finished : InheritState

-- What a declaration's `baseClass` is: absent, a class, or another kind of type.
pub data BaseClass : Type 0 where
  no_base other_base : BaseClass
  base_class : ℕ → BaseClass

-- `cyclic` and `not_class` are the two diagnostics, with the class that they point at.
pub data Verdict : Type 0 where
  passed : List InheritState → Verdict
  cyclic not_class : ℕ → Verdict
  out_of_fuel : Verdict

abbrev pub then_finish : ℕ → Verdict → Verdict
then_finish c (passed st) = passed (set st c finished)
then_finish c (cyclic k) = cyclic k
then_finish c (not_class k) = not_class k
then_finish c out_of_fuel = out_of_fuel

unfoldable pub verify_cycled_inherit : ℕ → List BaseClass → ℕ → List InheritState → Verdict
verify_cycled_inherit zero bases c st = out_of_fuel
verify_cycled_inherit (suc fuel) bases c st = elim (get_or st c unvisited) [
  | finished ↦ passed st
  | visiting ↦ cyclic c
  | unvisited ↦ elim (get_or bases c no_base) [
    | no_base ↦ passed (set (set st c visiting) c finished)
    | other_base ↦ not_class c
    | base_class p ↦ then_finish c (verify_cycled_inherit fuel bases p (set st c visiting))
  ]
]

abbrev pub then_verify : Verdict → (List InheritState → Verdict) → Verdict
then_verify (passed st) f = f st
then_verify (cyclic k) f = cyclic k
then_verify (not_class k) f = not_class k
then_verify out_of_fuel f = out_of_fuel

-- The loop over the classes, at the numbers in the list.
unfoldable pub verify_from : ℕ → List BaseClass → List ℕ → List InheritState → Verdict
unfolding verify_cycled_inherit
verify_from fuel bases [] st = passed st
verify_from fuel bases (c ∷ cs) st = elim (get_or st c unvisited) [
  | unvisited ↦ then_verify (verify_cycled_inherit fuel bases c st) (verify_from fuel bases cs)
  | _ ↦ verify_from fuel bases cs st
]

-- The classes are visited in the order `order`.
unfoldable pub verify : List BaseClass → List ℕ → Verdict
unfolding verify_from
verify bases order =
    verify_from (suc (length bases)) bases order (replicate (length bases) unvisited)
