-- ===== src/Inherit/Chains.antt =====
-- The verdict against the chains of base classes.
use hwarangdo.Prelude.{
  ℕ, zero, suc, ◌≤◌, ◌<◌, ◌≡◌, refl, sym, ap, ◌∙◌, subst, ◌⊎◌, inl, inr, Bool, true, ◌&&◌, some,
  List, [], ◌∷◌, arith, ltb, Bool-cases, some-eq, length, get_elem?, set, length-set, get_or,
  replicate, length-replicate, contains, get_of_lt, set-inv,
}
use hwarangdo.Inherit.{
  InheritState, unvisited, visiting, finished, BaseClass, no_base, other_base, base_class, Verdict,
  passed, cyclic, not_class, out_of_fuel, then_finish, verify_cycled_inherit, then_verify,
  verify_from, verify,
}
use hwarangdo.Inherit.Marks.{
  root-Sound, finish-Sound, Ends, Below, are_declared, are_declared_get, count_unvisited, count_set,
  get_or_get, Settled, Sound, Settled-mark, base, further,
}

module _ (bases : List BaseClass) (declared : are_declared (length bases) bases ≡ true) where
  -- What the states are when class `c` is looked at: the visiting ones are below it.
  record Ready (c : ℕ) (st : List InheritState) : Type 0 where
    all_there : length st ≡ length bases
    known : c < length bases
    settled : Settled bases st
    path : (x : ℕ) → get_elem? st x ≡ some visiting → Below bases x c

  base-Ready :
      (c p : ℕ) (st : List InheritState)
      → Ready c st
      → get_elem? st c ≡ some unvisited
      → get_elem? bases c ≡ some (base_class p)
      → Ready p (set st c visiting)
  base-Ready c p st r g b = record {
    all_there = length-set st c visiting ∙ r.all_there;
    known = are_declared_get (length bases) bases c p declared b;
    settled = Settled-mark bases st c g r.settled;
    path = λ x h. elim (set-inv st c x visiting unvisited visiting g h) [
      | inl (e, t) ↦ subst (λ y. Below bases y p) e (base c p b)
      | inr (e, old) ↦ further x c p (r.path x old) b
    ];
  }

  -- One look at a class, once its state and its base are known.
  abbrev looked : ℕ → ℕ → List InheritState → InheritState → BaseClass → Verdict
  looked fuel c st s k = elim s [
    | finished ↦ passed st
    | visiting ↦ cyclic c
    | unvisited ↦ elim k [
      | no_base ↦ passed (set (set st c visiting) c finished)
      | other_base ↦ not_class c
      | base_class p ↦ then_finish c (verify_cycled_inherit fuel bases p (set st c visiting))
    ]
  ]

  looked-Sound :
      (fuel c : ℕ) (st : List InheritState) (s : InheritState) (k : BaseClass)
      → get_elem? st c ≡ some s
      → get_elem? bases c ≡ some k
      → Ready c st
      → ((p : ℕ)
          → get_elem? st c ≡ some unvisited
          → Ready p (set st c visiting)
          → Sound bases p
              (set st c visiting)
              (verify_cycled_inherit fuel bases p (set st c visiting)))
      → Sound bases c st (looked fuel c st s k)
  unfolding Sound
  looked-Sound fuel c st finished k g b r ih = (refl, r.settled, g, λ x h. h, omega arith, λ x h. h)
  looked-Sound fuel c st visiting k g b r ih = r.path c g
  looked-Sound fuel c st unvisited no_base g b r ih = root-Sound bases c st g b r.settled
  looked-Sound fuel c st unvisited other_base g b r ih = b
  looked-Sound fuel c st unvisited (base_class p) g b r ih =
      finish-Sound bases c p st _ g b (ih p g (base-Ready c p st r g b))

  verify-Sound :
      (fuel c : ℕ) (st : List InheritState)
      → Ready c st
      → count_unvisited st < fuel
      → Sound bases c st (verify_cycled_inherit fuel bases c st)
  unfolding verify_cycled_inherit
  verify-Sound zero c st r l = absurd (omega (arith, l))
  verify-Sound (suc fuel) c st r l =
      let (s, g) = get_of_lt st c (omega (arith, r.all_there, r.known)) in
      let (k, b) = get_of_lt bases c r.known in
      let same : verify_cycled_inherit (suc fuel) bases c st ≡ looked fuel c st s k =
        ap (λ t. looked fuel c st t (get_or bases c no_base)) (get_or_get st c unvisited s g)
        ∙ ap (looked fuel c st s) (get_or_get bases c no_base k b) in
      subst (Sound bases c st) (sym same) (
        looked-Sound fuel c st s k g b r (λ p fresh ready.
          verify-Sound fuel p (set st c visiting) ready
            (omega (arith, l, count_set st c unvisited visiting fresh))))

  -- Between two searches no class is visiting.
  record Calm (st : List InheritState) : Type 0 where
    whole : length st ≡ length bases
    calm_settled : Settled bases st
    idle : (x : ℕ) → ¬ (get_elem? st x ≡ some visiting)
    bounded : count_unvisited st ≤ length bases

  Calm-Ready : (c : ℕ) (st : List InheritState) → Calm st → c < length bases → Ready c st
  Calm-Ready c st m h = record {
    all_there = m.whole;
    known = h;
    settled = m.calm_settled;
    path = λ x v. absurd (m.idle x v);
  }

  -- What the verdict on all classes says.
  unfoldable AllSound : List ℕ → List InheritState → Verdict → Type 0
  AllSound cs st (passed st') =
      Settled bases st'
      × ((c : ℕ) → contains c cs ≡ true → get_elem? st' c ≡ some finished)
      × ((c : ℕ) → get_elem? st c ≡ some finished → get_elem? st' c ≡ some finished)
  AllSound cs st (cyclic k) = Below bases k k
  AllSound cs st (not_class k) = get_elem? bases k ≡ some other_base
  AllSound cs st out_of_fuel = ¬ Unit

  abbrev all_known : List ℕ → Bool
  all_known [] = true
  all_known (c ∷ cs) = ltb c (length bases) && all_known cs

  -- A class that is finished, before the others.
  AllSound-cons :
      (c : ℕ) (cs : List ℕ) (st st1 : List InheritState) (v : Verdict)
      → get_elem? st1 c ≡ some finished
      → ((x : ℕ) → get_elem? st x ≡ some finished → get_elem? st1 x ≡ some finished)
      → AllSound cs st1 v
      → AllSound (c ∷ cs) st v
  unfolding AllSound
  AllSound-cons c cs st st1 (passed st') g kept (settled, listed, later) = (
    settled,
    λ x h. elim (Bool-cases (contains x cs)) [
      | inl e ↦ listed x e
      | inr e ↦ let x-c : x ≡ c = ground (arith, h, e) in later x (ap (get_elem? st1) x-c ∙ g)
    ],
    λ x h. later x (kept x h),
  )
  AllSound-cons c cs st st1 (cyclic k) g kept h = h
  AllSound-cons c cs st st1 (not_class k) g kept h = h
  AllSound-cons c cs st st1 out_of_fuel g kept h = h

  then-AllSound :
      (c : ℕ) (cs : List ℕ) (st : List InheritState) (v : Verdict) (f : List InheritState → Verdict)
      → Calm st
      → Sound bases c st v
      → ((st1 : List InheritState) → Calm st1 → AllSound cs st1 (f st1))
      → AllSound (c ∷ cs) st (then_verify v f)
  unfolding AllSound Sound
  then-AllSound c cs st (passed st1) f m (len, settled, done_c, still, fewer, kept) ih =
      AllSound-cons c cs st st1 (f st1) done_c kept (
        ih st1 (record {
          whole = len ∙ m.whole;
          calm_settled = settled;
          idle = λ x h. m.idle x (still x h);
          bounded = omega (arith, fewer, m.bounded);
        }))
  then-AllSound c cs st (cyclic k) f m h ih = h
  then-AllSound c cs st (not_class k) f m h ih = h
  then-AllSound c cs st out_of_fuel f m h ih = h

  abbrev turned : ℕ → List ℕ → List InheritState → InheritState → Verdict
  turned c cs st s = elim s [
    | unvisited ↦
        then_verify (verify_cycled_inherit (suc (length bases)) bases c st)
          (verify_from (suc (length bases)) bases cs)
    | _ ↦ verify_from (suc (length bases)) bases cs st
  ]

  turned-AllSound :
      (c : ℕ) (cs : List ℕ) (st : List InheritState) (s : InheritState)
      → get_elem? st c ≡ some s
      → Calm st
      → c < length bases
      → ((st1 : List InheritState)
          → Calm st1
          → AllSound cs st1 (verify_from (suc (length bases)) bases cs st1))
      → AllSound (c ∷ cs) st (turned c cs st s)
  turned-AllSound c cs st unvisited g m known ih =
      then-AllSound c cs st _ _ m
        (verify-Sound (suc (length bases)) c st (Calm-Ready c st m known)
          (omega (arith, m.bounded)))
        ih
  turned-AllSound c cs st visiting g m known ih = absurd (m.idle c g)
  turned-AllSound c cs st finished g m known ih = AllSound-cons c cs st st _ g (λ x h. h) (ih st m)

  replicate_get :
      (n x : ℕ) (s : InheritState) → get_elem? (replicate n unvisited) x ≡ some s → unvisited ≡ s
  replicate_get zero x s g = absurd (cc g)
  replicate_get (suc n) zero s g = some-eq g
  replicate_get (suc n) (suc x) s g = replicate_get n x s g

  replicate_count : (n : ℕ) → count_unvisited (replicate n unvisited) ≡ n
  unfolding count_unvisited
  replicate_count zero = refl
  replicate_count (suc n) = omega (arith, replicate_count n)

  start_Calm : Calm (replicate (length bases) unvisited)
  start_Calm = record {
    whole = length-replicate (length bases) unvisited;
    calm_settled = λ x g. absurd (cc (replicate_get (length bases) x finished g));
    idle = λ x g. cc (replicate_get (length bases) x visiting g);
    bounded = omega (arith, replicate_count (length bases));
  }

  judged :
      (order : List ℕ) (c : ℕ)
      → contains c order ≡ true
      → (v : Verdict) → verify bases order ≡ v
      → AllSound order (replicate (length bases) unvisited) v
      → ((st : List InheritState) × (verify bases order ≡ passed st) × Ends bases c)
        ⊎ ((k : ℕ) × (verify bases order ≡ cyclic k) × Below bases k k)
        ⊎ ((k : ℕ) × (verify bases order ≡ not_class k) × (get_elem? bases k ≡ some other_base))
  unfolding AllSound
  judged order c e (passed st) q (settled, listed, later) = inl (st, q, settled c (listed c e))
  judged order c e (cyclic k) q h = inr (inl (k, q, h))
  judged order c e (not_class k) q h = inr (inr (k, q, h))
  judged order c e out_of_fuel q h = absurd (h tt)

  verify_from-AllSound :
      (cs : List ℕ) (st : List InheritState)
      → Calm st
      → all_known cs ≡ true
      → AllSound cs st (verify_from (suc (length bases)) bases cs st)
  unfolding verify_from AllSound
  verify_from-AllSound [] st m h = (m.calm_settled, λ c e. absurd (cc e), λ c e. e)
  verify_from-AllSound (c ∷ cs) st m h =
      let known : c < length bases = ground (arith, h) in
      let others : all_known cs ≡ true = ground (arith, h) in
      let (s, g) = get_of_lt st c (omega (arith, m.whole, known)) in
      subst (λ t. AllSound (c ∷ cs) st (turned c cs st t)) (sym (get_or_get st c unvisited s g))
        (turned-AllSound c cs st s g m known (λ st1 m1. verify_from-AllSound cs st1 m1 others))

  -- The search ends. When it passes, the chain of bases of each class that it was given ends; when it
  -- reports a cycle, at a class that is its own base, near or far; and when it reports a base that is
  -- no class, at a class with such a base. The bases are among the declarations.
  pub verify-Ends :
      (order : List ℕ) (c : ℕ)
      → all_known order ≡ true
      → contains c order ≡ true
      → ((st : List InheritState) × (verify bases order ≡ passed st) × Ends bases c)
        ⊎ ((k : ℕ) × (verify bases order ≡ cyclic k) × Below bases k k)
        ⊎ ((k : ℕ) × (verify bases order ≡ not_class k) × (get_elem? bases k ≡ some other_base))
  unfolding verify
  verify-Ends order c h e =
      judged order c e (verify bases order) refl
        (verify_from-AllSound order (replicate (length bases) unvisited) start_Calm h)
