-- ===== src/Inherit/Marks.antt =====
-- The marks on the classes, and what a verdict says of them.
use hwarangdo.Prelude.{
  ℕ, zero, suc, ◌+◌, ◌≤◌, ◌<◌, ◌≡◌, refl, sym, ap, ◌∙◌, subst, inl, inr, Bool, true, false, ◌&&◌,
  some, List, [], ◌∷◌, arith, ltb, ◌==◌, Bool-cases, some-eq, of_either, length, get_elem?, set,
  length-set, get_elem?-set_self, get_or, get_elem?-set, get_elem?-lt, get_of_lt, set-inv,
}
use hwarangdo.Inherit.{
  InheritState, unvisited, visiting, finished, BaseClass, no_base, other_base, base_class, Verdict,
  passed, cyclic, not_class, out_of_fuel, then_finish,
}

-- The chain of bases from a class ends.
pub data Ends (bases : List BaseClass) : ℕ → Type 0 where
  at_root : (c : ℕ) → get_elem? bases c ≡ some no_base → Ends bases c
  above : (c p : ℕ) → get_elem? bases c ≡ some (base_class p) → Ends bases p → Ends bases c

-- One class is a base, near or far, of another.
pub data Below (bases : List BaseClass) : ℕ → ℕ → Type 0 where
  base : (c p : ℕ) → get_elem? bases c ≡ some (base_class p) → Below bases c p
  further :
      (c p q : ℕ) → Below bases c p → get_elem? bases p ≡ some (base_class q) → Below bases c q

abbrev pub base_exists : ℕ → BaseClass → Bool
base_exists n (base_class p) = ltb p n
base_exists n _ = true

-- The base classes are among the declarations.
unfoldable pub are_declared : ℕ → List BaseClass → Bool
are_declared n [] = true
are_declared n (b ∷ bs) = base_exists n b && are_declared n bs

pub are_declared_get :
    (n : ℕ) (bs : List BaseClass) (c p : ℕ)
    → are_declared n bs ≡ true
    → get_elem? bs c ≡ some (base_class p)
    → p < n
unfolding are_declared
are_declared_get n [] c p h g = absurd (cc g)
are_declared_get n (b ∷ bs) zero p h g =
    let fits : base_exists n b ≡ true = ground (arith, h) in
    let fits' : base_exists n (base_class p) ≡ true = ap (base_exists n) (sym (some-eq g)) ∙ fits in
    ground (arith, fits')
are_declared_get n (b ∷ bs) (suc c) p h g = are_declared_get n bs c p (ground (arith, h)) g

abbrev pub is_unvisited : InheritState → ℕ
is_unvisited unvisited = 1
is_unvisited _ = 0

unfoldable pub count_unvisited : List InheritState → ℕ
count_unvisited [] = 0
count_unvisited (s ∷ st) = is_unvisited s + count_unvisited st

pub count_set :
    (st : List InheritState) (c : ℕ) (s t : InheritState)
    → get_elem? st c ≡ some s
    → count_unvisited (set st c t) + is_unvisited s ≡ count_unvisited st + is_unvisited t
unfolding count_unvisited
count_set [] c s t g = absurd (cc g)
count_set (x ∷ st) zero s t g = let same = ap is_unvisited (some-eq g) in omega (arith, same)
count_set (x ∷ st) (suc c) s t g = omega (arith, count_set st c s t g)

pub get_or_get {ℓ} :
    {A : Type ℓ} (xs : List A) (i : ℕ) (d a : A) → get_elem? xs i ≡ some a → get_or xs i d ≡ a
get_or_get [] i d a g = absurd (cc g)
get_or_get (x ∷ xs) zero d a g = some-eq g
get_or_get (x ∷ xs) (suc i) d a g = get_or_get xs i d a g

-- The classes that are finished have chains that end.
abbrev pub Settled : List BaseClass → List InheritState → Type 0
Settled bases st = (x : ℕ) → get_elem? st x ≡ some finished → Ends bases x

-- What a verdict on class `c` says, from the states `st`.
unfoldable pub Sound : List BaseClass → ℕ → List InheritState → Verdict → Type 0
Sound bases c st (passed st') =
    (length st' ≡ length st)
    × Settled bases st'
    × (get_elem? st' c ≡ some finished)
    × ((x : ℕ) → get_elem? st' x ≡ some visiting → get_elem? st x ≡ some visiting)
    × (count_unvisited st' ≤ count_unvisited st)
    × ((x : ℕ) → get_elem? st x ≡ some finished → get_elem? st' x ≡ some finished)
Sound bases c st (cyclic k) = Below bases k k
Sound bases c st (not_class k) = get_elem? bases k ≡ some other_base
Sound bases c st out_of_fuel = ¬ Unit

-- Marking a class, and finishing it.
pub Settled-mark :
    (bases : List BaseClass) (st : List InheritState) (c : ℕ)
    → get_elem? st c ≡ some unvisited
    → Settled bases st
    → Settled bases (set st c visiting)
Settled-mark bases st c g f x h = elim (set-inv st c x visiting unvisited finished g h) [
  | inl (e, t) ↦ absurd (cc t)
  | inr (e, old) ↦ f x old
]

pub Settled-finish :
    (bases : List BaseClass) (st : List InheritState) (c : ℕ) (s : InheritState)
    → get_elem? st c ≡ some s
    → Settled bases st
    → Ends bases c
    → Settled bases (set st c finished)
Settled-finish bases st c s g f ends x h = elim (set-inv st c x finished s finished g h) [
  | inl (e, t) ↦ subst (Ends bases) e ends
  | inr (e, old) ↦ f x old
]

-- Behind the marks of `c`, no other class is left visiting.
pub visiting_finish :
    (st : List InheritState) (c x : ℕ) (s : InheritState)
    → get_elem? st c ≡ some s
    → get_elem? (set st c finished) x ≡ some visiting
    → ((c == x) ≡ false) × (get_elem? st x ≡ some visiting)
visiting_finish st c x s g h = elim (set-inv st c x finished s visiting g h) [
  | inl (e, t) ↦ absurd (cc t)
  | inr (e, old) ↦ (e, old)
]

-- What is finished stays so.
pub finished_mark :
    (st : List InheritState) (c x : ℕ)
    → get_elem? st c ≡ some unvisited
    → get_elem? st x ≡ some finished
    → get_elem? (set st c visiting) x ≡ some finished
finished_mark st c x g h = elim (Bool-cases (c == x)) [
  | inl e ↦ let c-x : c ≡ x = ground (arith, e) in absurd (cc (sym g ∙ ap (get_elem? st) c-x ∙ h))
  | inr e ↦ get_elem?-set st c x visiting unvisited g ∙ ground (arith, e, h)
]

pub finished_finish :
    (st : List InheritState) (c x : ℕ) (s : InheritState)
    → get_elem? st c ≡ some s
    → get_elem? st x ≡ some finished
    → get_elem? (set st c finished) x ≡ some finished
finished_finish st c x s g h =
    get_elem?-set st c x finished s g
    ∙ of_either (λ o. o ≡ some finished) (c == x) _ _ (λ e. refl) (λ e. h)

pub finish-Sound :
    (bases : List BaseClass) (c p : ℕ) (st : List InheritState) (v : Verdict)
    → get_elem? st c ≡ some unvisited
    → get_elem? bases c ≡ some (base_class p)
    → Sound bases p (set st c visiting) v
    → Sound bases c st (then_finish c v)
unfolding Sound
finish-Sound bases c p st (passed st') g b (len, settled, done_p, still, fewer, kept) =
    let inside : c < length st' =
      omega (arith, len, length-set st c visiting, get_elem?-lt st c unvisited g) in
    let (s, gs) = get_of_lt st' c inside in
    let marked = count_set st c unvisited visiting g in
    let closed = count_set st' c s finished gs in
    (
      length-set st' c finished ∙ len ∙ length-set st c visiting,
      Settled-finish bases st' c s gs settled (above c p b (settled p done_p)),
      get_elem?-set_self st' c finished inside,
      λ x h.
          let (ne, at) = visiting_finish st' c x s gs h in
          elim (set-inv st c x visiting unvisited visiting g (still x at)) [
            | inl (e, t) ↦ absurd (ground (arith, e, ne))
            | inr (e, old) ↦ old
          ],
      omega (arith, marked, closed, fewer),
      λ x h. finished_finish st' c x s gs (kept x (finished_mark st c x g h)),
    )
finish-Sound bases c p st (cyclic k) g b h = h
finish-Sound bases c p st (not_class k) g b h = h
finish-Sound bases c p st out_of_fuel g b h = h

pub root-Sound :
    (bases : List BaseClass) (c : ℕ) (st : List InheritState)
    → get_elem? st c ≡ some unvisited
    → get_elem? bases c ≡ some no_base
    → Settled bases st
    → Sound bases c st (passed (set (set st c visiting) c finished))
unfolding Sound
root-Sound bases c st g b settled =
    let inside = get_elem?-lt st c unvisited g in
    let st1 = set st c visiting in
    let at1 = get_elem?-set_self st c visiting inside in
    let marked = count_set st c unvisited visiting g in
    let closed = count_set st1 c visiting finished at1 in
    (
      length-set st1 c finished ∙ length-set st c visiting,
      Settled-finish bases st1 c visiting at1 (Settled-mark bases st c g settled) (at_root c b),
      get_elem?-set_self st1 c finished (omega (arith, inside, length-set st c visiting)),
      λ x h.
          let (ne, at) = visiting_finish st1 c x visiting at1 h in
          elim (set-inv st c x visiting unvisited visiting g at) [
            | inl (e, t) ↦ absurd (ground (arith, e, ne))
            | inr (e, old) ↦ old
          ],
      omega (arith, marked, closed),
      λ x h. finished_finish st1 c x visiting at1 (finished_mark st c x g h),
    )
