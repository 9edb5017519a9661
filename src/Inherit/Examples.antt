-- ===== src/Inherit/Examples.antt =====
-- The search for cyclic inheritance at concrete classes.
use hwarangdo.Prelude.{ℕ, ◌≡◌, refl, ◌⊎◌, true, List, [], ◌∷◌, get_elem?, some, length}
use hwarangdo.Inherit.{
  InheritState, BaseClass, no_base, other_base, base_class, passed, cyclic, not_class, verify,
  verify_from, verify_cycled_inherit,
}
use hwarangdo.Inherit.Marks.{Ends, Below, are_declared}
use hwarangdo.Inherit.Chains.{verify-Ends}

abbrev two_classes : List BaseClass
two_classes = no_base ∷ base_class 0 ∷ []

two_declared : are_declared (length two_classes) two_classes ≡ true
unfolding are_declared
two_declared = refl

verify-Ends_example :
    ((st : List InheritState) × (verify two_classes (1 ∷ 0 ∷ []) ≡ passed st) × Ends two_classes 1)
    ⊎ ((k : ℕ) × (verify two_classes (1 ∷ 0 ∷ []) ≡ cyclic k) × Below two_classes k k)
    ⊎ ((k : ℕ) × (verify two_classes (1 ∷ 0 ∷ []) ≡ not_class k)
        × (get_elem? two_classes k ≡ some other_base))
verify-Ends_example = verify-Ends two_classes two_declared (1 ∷ 0 ∷ []) 1 refl refl

-- Two classes, each the base of the other.
cycle_found : verify (base_class 1 ∷ base_class 0 ∷ []) (0 ∷ 1 ∷ []) ≡ cyclic 0
unfolding verify verify_from verify_cycled_inherit
cycle_found = refl
