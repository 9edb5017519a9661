-- ===== src/Overload/Best.antt =====
-- The candidate that is chosen, against the others.
use hwarangdo.Prelude.{
  ℕ, zero, suc, ◌+◌, ◌<◌, ◌≡◌, refl, sym, ap, ◌∙◌, ◌≢◌, ◌↔◌, ◌⊎◌, inl, inr, Bool, true, false, ◌&&◌,
  ◌||◌, none, some, List, [], ◌∷◌, arith, ◌==◌, if◌then◌else◌, Bool-cases, Option-cases, some-eq,
  of_either, get_elem?, contains,
}
use hwarangdo.Types.{TypeSymbol}
use hwarangdo.Overload.{
  is_better_than, Arg, Candidate, is_beaten, best_from, Choice, unknown, chosen, choose,
  viable_candidates, resolve_overload,
}
use hwarangdo.Overload.Ranks.{is_better_than_trans, total, is_better_than-total}

module _ {S : Type 0} where
  -- A beaten candidate has one that is better.
  beaten-by :
      (i : ℕ) (c : Candidate S) (j : ℕ) (ds : List (Candidate S))
      → is_beaten i c j ds ≡ true
      → (k : ℕ) × (d : Candidate S) × (get_elem? ds k ≡ some d)
        × (is_better_than d.kinds c.kinds ≡ true)
  unfolding is_beaten
  beaten-by i c j [] h = absurd (cc h)
  beaten-by i c j (d ∷ ds) h = elim (Bool-cases (is_better_than d.kinds c.kinds)) [
    | inl b ↦ (0, d, refl, b)
    | inr n ↦
        let later : is_beaten i c (suc j) ds ≡ true = ground (arith, h, n) in
        let (k, e, g, b) = beaten-by i c (suc j) ds later in (suc k, e, g, b)
  ]

  -- The indices in `bestIdx` are those of the candidates that are not beaten.
  best-contains :
      (all cs : List (Candidate S)) (i k m : ℕ) (c : Candidate S)
      → m ≡ k + i
      → get_elem? cs k ≡ some c
      → is_beaten m c 0 all ≡ false
      → contains m (best_from all i cs) ≡ true
  unfolding best_from
  best-contains all [] i k m c e g h = absurd (cc g)
  best-contains all (d ∷ cs) i zero m c e g h =
      let here : m ≡ i = omega (arith, e) in
      let free : is_beaten i d 0 all ≡ false =
        ap (λ j. is_beaten j d 0 all) (sym here) ∙ ap (λ x. is_beaten m x 0 all) (some-eq g) ∙ h in
      let first : contains m (i ∷ best_from all (suc i) cs) ≡ true = ground (arith, here) in
      ap (λ t. contains m (if t then best_from all (suc i) cs else i ∷ best_from all (suc i) cs))
        free
      ∙ first
  best-contains all (d ∷ cs) i (suc k) m c e g h =
      let found = best-contains all cs (suc i) k m c (omega (arith, e)) g h in
      of_either (λ l. contains m l ≡ true) (is_beaten i d 0 all) _ _ (λ _. found)
        (λ _. ground (arith, found))

  head_of :
      (all : List (Candidate S)) (i : ℕ) (d : Candidate S) (cs : List (Candidate S)) (m : ℕ)
      → contains m (best_from all i (d ∷ cs)) ≡ true
      → contains m (best_from all (suc i) cs) ≡ false
      → m ≡ 0 + i
  unfolding best_from
  head_of all i d cs m h other = elim (Bool-cases (is_beaten i d 0 all)) [
    | inl b ↦ absurd (ground (arith, h, other, b))
    | inr b ↦
        let inside : (i == m || contains m (best_from all (suc i) cs)) ≡ true =
          sym (
            ap
              (λ t.
                contains m (if t then best_from all (suc i) cs else i ∷ best_from all (suc i) cs))
              b)
          ∙ h in
        ground (arith, inside, other)
  ]

  best-contains-inv :
      (all cs : List (Candidate S)) (i m : ℕ)
      → contains m (best_from all i cs) ≡ true
      → (k : ℕ) × (c : Candidate S) × (get_elem? cs k ≡ some c) × (m ≡ k + i)
  unfolding best_from
  best-contains-inv all [] i m h = absurd (cc h)
  best-contains-inv all (d ∷ cs) i m h = elim (Bool-cases (contains m (best_from all (suc i) cs))) [
    | inl later ↦
        let (k, c, g, e) = best-contains-inv all cs (suc i) m later in
        (suc k, c, g, omega (arith, e))
    | inr other ↦ (0, d, refl, head_of all i d cs m h other)
  ]

  -- Each candidate is in `bestIdx` or has a better one there, by recursion on a bound of its ranks.
  best-above :
      (all : List (Candidate S)) (n i : ℕ) (c : Candidate S)
      → total c.kinds < n
      → get_elem? all i ≡ some c
      → (m : ℕ) × (d : Candidate S) × (get_elem? all m ≡ some d)
        × (contains m (best_from all 0 all) ≡ true)
        × ((m ≡ i) ⊎ (is_better_than d.kinds c.kinds ≡ true))
  best-above all zero i c l g = absurd (omega (arith, l))
  best-above all (suc n) i c l g = elim (Bool-cases (is_beaten i c 0 all)) [
    | inr free ↦ (i, c, g, best-contains all all 0 i i c (omega arith) g free, inl refl)
    | inl beaten ↦
        let (k, d, gd, b) = beaten-by i c 0 all beaten in
        let (m, e, ge, inside, up) =
          best-above all n k d (omega (arith, l, is_better_than-total d.kinds c.kinds b)) gd in
        (
          m,
          e,
          ge,
          inside,
          elim up [
            | inl same ↦
                let e-d : e ≡ d = some-eq (sym ge ∙ ap (get_elem? all) same ∙ gd) in
                inr (ap (λ x. is_better_than x.kinds c.kinds) e-d ∙ b)
            | inr better ↦ inr (is_better_than_trans e.kinds d.kinds c.kinds better b)
          ],
        )
  ]

  best-one :
      (cs : List (Candidate S)) (s : S) (is : List ℕ)
      → choose cs is ≡ chosen s
      → (m : ℕ) × (is ≡ m ∷ []) × (c : Candidate S) × (get_elem? cs m ≡ some c) × (c.symbol ≡ s)
  unfolding choose
  best-one cs s [] h = absurd (cc h)
  best-one cs s (m ∷ []) h = elim (Option-cases (get_elem? cs m)) [
    | inl e ↦ absurd (ground (arith, e, h))
    | inr (c, e) ↦ (m, refl, c, e, ground (arith, e, h))
  ]
  best-one cs s (m ∷ k ∷ is) h = absurd (cc h)

  best-nil :
      (cs : List (Candidate S)) (i : ℕ) (c : Candidate S)
      → get_elem? cs i ≡ some c
      → best_from cs 0 cs ≢ []
  best-nil cs i c g e =
      let (m, d, gd, inside, up) = best-above cs (suc (total c.kinds)) i c (omega arith) g in
      absurd (ground (arith, sym (ap (contains m) e) ∙ inside))

  -- What the choice among candidates says of them.
  choose-best :
      (cs : List (Candidate S)) (s : S)
      → choose cs (best_from cs 0 cs) ≡ chosen s
      → (m : ℕ) × (c : Candidate S) × (get_elem? cs m ≡ some c)
        × (c.symbol ≡ s)
        × ((i : ℕ) (d : Candidate S)
            → get_elem? cs i ≡ some d
            → i ≢ m
            → is_better_than c.kinds d.kinds ≡ true)
  choose-best cs s h =
      let (m, one, c, g, e) = best-one cs s (best_from cs 0 cs) h in
      (
        m,
        c,
        g,
        e,
        λ i d gd ne.
            let (k, x, gx, inside, up) = best-above cs (suc (total d.kinds)) i d (omega arith) gd in
            let k-m : k ≡ m = ground (arith, sym (ap (contains k) one) ∙ inside) in
            let x-c : x ≡ c = some-eq (sym gx ∙ ap (get_elem? cs) k-m ∙ g) in
            elim up [
              | inl same ↦ absurd (ne (sym same ∙ k-m))
              | inr b ↦ ap (λ y. is_better_than y.kinds d.kinds) (sym x-c) ∙ b
            ],
      )

  unknown-cases :
      (cs : List (Candidate S)) (is : List ℕ)
      → choose cs is ≡ unknown
      → (is ≡ []) ⊎ ((i : ℕ) × (is ≡ i ∷ []) × (get_elem? cs i ≡ none))
  unfolding choose
  unknown-cases cs [] h = inl refl
  unknown-cases cs (i ∷ []) h = elim (Option-cases (get_elem? cs i)) [
    | inl e ↦ inr (i, refl, e)
    | inr (c, e) ↦ absurd (ground (arith, e, h))
  ]
  unknown-cases cs (i ∷ k ∷ is) h = absurd (cc h)

  choose-unknown : (cs : List (Candidate S)) → choose cs (best_from cs 0 cs) ≡ unknown → cs ≡ []
  choose-unknown [] h = refl
  choose-unknown (c ∷ cs) h = elim (unknown-cases (c ∷ cs) (best_from (c ∷ cs) 0 (c ∷ cs)) h) [
    | inl e ↦ absurd (best-nil (c ∷ cs) 0 c refl e)
    | inr (i, one, e) ↦
        let inside : contains i (best_from (c ∷ cs) 0 (c ∷ cs)) ≡ true =
          ap (contains i) one ∙ ground arith in
        let (k, d, g, at) = best-contains-inv (c ∷ cs) (c ∷ cs) 0 i inside in
        let i-k : i ≡ k = omega (arith, at) in absurd (cc (sym e ∙ ap (get_elem? (c ∷ cs)) i-k ∙ g))
  ]

-- Whether `c`, which is number `m`, is better than each of `ds`, the first of which is number `i`.
unfoldable pub beats_others : {S : Type 0} → ℕ → Candidate S → ℕ → List (Candidate S) → Bool
beats_others m c i [] = true
beats_others m c i (d ∷ ds) =
    (i == m || is_better_than c.kinds d.kinds) && beats_others m c (suc i) ds

beats_all :
    {S : Type 0} (m : ℕ) (c : Candidate S) (i : ℕ) (ds : List (Candidate S))
    → ((k : ℕ) (d : Candidate S)
        → get_elem? ds k ≡ some d
        → k + i ≢ m
        → is_better_than c.kinds d.kinds ≡ true)
    → beats_others m c i ds ≡ true
unfolding beats_others
beats_all m c i [] f = refl
beats_all m c i (d ∷ ds) f =
    let rest = beats_all m c (suc i) ds (λ k e g ne. f (suc k) e g (λ q. ne (omega (arith, q)))) in
    elim (Bool-cases (i == m)) [
      | inl e ↦ ground (arith, e, rest)
      | inr e ↦
          let here = f 0 d refl (λ q. absurd (ground (arith, q, e))) in
          ground (arith, e, rest, here)
    ]

module _ {S : Type 0} (converts : ℕ → TypeSymbol → Bool) (param_count : S → ℕ)
    (param_type : S → ℕ → TypeSymbol) (has_default : S → ℕ → Bool) where
  abbrev viable : List Arg → List S → List (Candidate S)
  viable args bucket = viable_candidates converts param_count param_type has_default args bucket

  abbrev resolve : List S → List Arg → Choice S
  resolve = resolve_overload converts param_count param_type has_default

  -- The symbol that a call is resolved to is that of a candidate which is better than each of the
  -- others: no worse at any argument, and better at one.
  pub resolve_overload-best :
      (bucket : List S) (args : List Arg) (s : S)
      → resolve bucket args ≡ chosen s
      → (m : ℕ) × (c : Candidate S) × (get_elem? (viable args bucket) m ≡ some c)
        × (c.symbol ≡ s)
        × (beats_others m c 0 (viable args bucket) ≡ true)
  unfolding resolve_overload
  resolve_overload-best bucket args s h =
      let (m, c, g, e, best) = choose-best (viable args bucket) s h in
      (
        m,
        c,
        g,
        e,
        beats_all m c 0 (viable args bucket)
            (λ k d gk ne. best k d gk (λ q. ne (omega (arith, q)))),
      )

  none_found : choose {S = S} [] (best_from {S = S} [] 0 []) ≡ unknown
  unfolding choose best_from
  none_found = refl

  -- A call is unknown exactly when no symbol of the bucket takes its arguments.
  pub resolve_overload-unknown :
      (bucket : List S) (args : List Arg)
      → (resolve bucket args ≡ unknown) ↔ (viable args bucket ≡ [])
  unfolding resolve_overload
  resolve_overload-unknown bucket args = (
    choose-unknown (viable args bucket),
    λ e. ap (λ cs. choose cs (best_from cs 0 cs)) e ∙ none_found,
  )
