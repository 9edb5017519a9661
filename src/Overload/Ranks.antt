-- ===== src/Overload/Ranks.antt =====
-- The order of candidates by the ranks of their arguments.
use hwarangdo.Prelude.{
  ℕ, ◌+◌, ◌≤◌, ◌<◌, ◌≡◌, refl, sym, ◌∙◌, inl, inr, Bool, true, false, ◌&&◌, ◌||◌, List, [], ◌∷◌,
  arith, ltb, leb, Bool-cases,
}
use hwarangdo.Overload.{ArgMatchKind, rank_of, is_better_from, is_better_than}

unfoldable none_worse : List ArgMatchKind → List ArgMatchKind → Bool
none_worse [] bs = true
none_worse (a ∷ as') [] = false
none_worse (a ∷ as') (b ∷ bs) = leb (rank_of a) (rank_of b) && none_worse as' bs

unfoldable some_better : List ArgMatchKind → List ArgMatchKind → Bool
some_better [] bs = false
some_better (a ∷ as') [] = false
some_better (a ∷ as') (b ∷ bs) = ltb (rank_of a) (rank_of b) || some_better as' bs

is_better_from_lem :
    (t : Bool) (as' bs : List ArgMatchKind)
    → is_better_from t as' bs ≡ (none_worse as' bs && (t || some_better as' bs))
unfolding is_better_from none_worse some_better
is_better_from_lem t [] bs = ground arith
is_better_from_lem t (a ∷ as') [] = refl
is_better_from_lem t (a ∷ as') (b ∷ bs) =
    ground (arith, is_better_from_lem (t || ltb (rank_of a) (rank_of b)) as' bs)

none_worse_trans :
    (as' bs cs : List ArgMatchKind)
    → none_worse as' bs ≡ true
    → none_worse bs cs ≡ true
    → none_worse as' cs ≡ true
unfolding none_worse
none_worse_trans [] bs cs h k = refl
none_worse_trans (a ∷ as') [] cs h k = absurd (cc h)
none_worse_trans (a ∷ as') (b ∷ bs) [] h k = absurd (cc k)
none_worse_trans (a ∷ as') (b ∷ bs) (c ∷ cs) h k = ground (arith, h, k, none_worse_trans as' bs cs)

some_better_trans :
    (as' bs cs : List ArgMatchKind)
    → none_worse as' bs ≡ true
    → some_better as' bs ≡ true
    → none_worse bs cs ≡ true
    → some_better as' cs ≡ true
unfolding none_worse some_better
some_better_trans [] bs cs h l k = absurd (cc l)
some_better_trans (a ∷ as') [] cs h l k = absurd (cc h)
some_better_trans (a ∷ as') (b ∷ bs) [] h l k = absurd (cc k)
some_better_trans (a ∷ as') (b ∷ bs) (c ∷ cs) h l k =
    ground (arith, h, l, k, some_better_trans as' bs cs)

some_better_irrefl : (as' : List ArgMatchKind) → some_better as' as' ≡ false
unfolding some_better
some_better_irrefl [] = refl
some_better_irrefl (a ∷ as') = ground (arith, some_better_irrefl as')

is_better_than_irrefl : (as' : List ArgMatchKind) → is_better_than as' as' ≡ false
unfolding is_better_than
is_better_than_irrefl as' = ground (arith, is_better_from_lem false as' as', some_better_irrefl as')

pub is_better_than_trans :
    (as' bs cs : List ArgMatchKind)
    → is_better_than as' bs ≡ true
    → is_better_than bs cs ≡ true
    → is_better_than as' cs ≡ true
unfolding is_better_than
is_better_than_trans as' bs cs h k =
    let h' = sym (is_better_from_lem false as' bs) ∙ h in
    let k' = sym (is_better_from_lem false bs cs) ∙ k in
    is_better_from_lem false as' cs
    ∙ ground (arith, h', k', none_worse_trans as' bs cs, some_better_trans as' bs cs)

-- To be better is a strict order on the lists of kinds: what is better than a better one is better,
-- and the worse of two is not better than the other.
pub is_better_than-strict :
    (as' bs cs : List ArgMatchKind)
    → is_better_than as' bs ≡ true
    → is_better_than bs cs ≡ true
    → (is_better_than as' cs ≡ true) × (is_better_than bs as' ≡ false)
is_better_than-strict as' bs cs h k = (
  is_better_than_trans as' bs cs h k,
  elim (Bool-cases (is_better_than bs as')) [
    | inl l ↦ absurd (cc (sym (is_better_than_trans as' bs as' h l) ∙ is_better_than_irrefl as'))
    | inr f ↦ f
  ],
)

-- The sum of the ranks falls from a list to a better one.
unfoldable pub total : List ArgMatchKind → ℕ
total [] = 0
total (a ∷ as') = rank_of a + total as'

none_worse-total : (as' bs : List ArgMatchKind) → none_worse as' bs ≡ true → total as' ≤ total bs
unfolding none_worse total
none_worse-total [] bs h = omega arith
none_worse-total (a ∷ as') [] h = absurd (cc h)
none_worse-total (a ∷ as') (b ∷ bs) h = ground (arith, h, none_worse-total as' bs)

some_better-total :
    (as' bs : List ArgMatchKind)
    → none_worse as' bs ≡ true
    → some_better as' bs ≡ true
    → total as' < total bs
unfolding none_worse some_better total
some_better-total [] bs h k = absurd (cc k)
some_better-total (a ∷ as') [] h k = absurd (cc k)
some_better-total (a ∷ as') (b ∷ bs) h k =
    ground (arith, h, k, none_worse-total as' bs, some_better-total as' bs)

pub is_better_than-total :
    (as' bs : List ArgMatchKind) → is_better_than as' bs ≡ true → total as' < total bs
unfolding is_better_than
is_better_than-total as' bs h =
    let h' = sym (is_better_from_lem false as' bs) ∙ h in
    ground (arith, h', some_better-total as' bs)
