-- ===== src/Overload/Viable.antt =====
-- The candidates of a call: the symbols that take its arguments, with the kinds of the matches.
use hwarangdo.Prelude.{
  ℕ, zero, suc, ◌≡◌, refl, sym, ap, ◌∙◌, ◌≢◌, ◌↔◌, ◌⊎◌, inl, inr, Bool, true, false, Option, none,
  some, List, [], ◌∷◌, arith, ◌==◌, Bool-cases, Option-cases, some-eq, length, get_elem?, subst,
}
use hwarangdo.Types.{TypeSymbol}
use hwarangdo.Overload.{
  ArgMatchKind, exact, default_arg, implicit_cast, invalid, is_invalid, Arg, Candidate,
  match_argument, match_from, viable_candidates,
}

get_elem?-cons :
    {A : Type 0} (x : A) (xs : List A) (i : ℕ) (c : A)
    → get_elem? (x ∷ xs) i ≡ some c
    → (x ≡ c) ⊎ ((k : ℕ) × (get_elem? xs k ≡ some c))
get_elem?-cons x xs zero c g = inl (some-eq g)
get_elem?-cons x xs (suc i) c g = inr (i, g)

invalid-cases :
    (k : ArgMatchKind)
    → (is_invalid k ≡ true) × (k ≡ invalid) ⊎ (is_invalid k ≡ false) × (k ≢ invalid)
invalid-cases invalid = inl (refl, refl)
invalid-cases exact = inr (refl, λ e. absurd (cc e))
invalid-cases default_arg = inr (refl, λ e. absurd (cc e))
invalid-cases implicit_cast = inr (refl, λ e. absurd (cc e))

module _ {S : Type 0} (converts : ℕ → TypeSymbol → Bool) (param_count : S → ℕ)
    (param_type : S → ℕ → TypeSymbol) (has_default : S → ℕ → Bool) where
  abbrev viable : List Arg → List S → List (Candidate S)
  viable = viable_candidates converts param_count param_type has_default

  abbrev matched : ℕ → List Arg → S → Option (List ArgMatchKind)
  matched i args s = match_from converts param_count param_type has_default s i args

  abbrev kind_of : S → ℕ → Arg → ArgMatchKind
  kind_of s i a = match_argument converts a (param_type s i) (has_default s i)

  -- The arguments match the parameters of `s` from number `i` on, with these kinds, none invalid.
  pub data Fits (s : S) : ℕ → List Arg → List ArgMatchKind → Type 0 where
    no_more : (i : ℕ) → Fits s i [] []
    one_more :
        (i : ℕ) (a : Arg) (args : List Arg) (k : ArgMatchKind) (ks : List ArgMatchKind)
        → match_argument converts a (param_type s i) (has_default s i) ≡ k
        → k ≢ invalid
        → Fits s (suc i) args ks
        → Fits s i (a ∷ args) (k ∷ ks)

  match_from-Fits :
      (s : S) (i : ℕ) (args : List Arg) (ks : List ArgMatchKind)
      → matched i args s ≡ some ks
      → Fits s i args ks
  unfolding match_from
  match_from-Fits s i [] ks h = subst (Fits s i []) (some-eq h) (no_more i)
  match_from-Fits s i (a ∷ args) ks h = elim (invalid-cases (kind_of s i a)) [
    | inl (e, _) ↦ absurd (ground (arith, e, h))
    | inr (e, valid) ↦ elim (Option-cases (matched (suc i) args s)) [
      | inl f ↦ absurd (ground (arith, e, f, h))
      | inr (ks', f) ↦
          let whole : kind_of s i a ∷ ks' ≡ ks = ground (arith, e, f, h) in
          subst (Fits s i (a ∷ args)) whole (
            one_more i a args (kind_of s i a) ks' refl valid (match_from-Fits s (suc i) args ks' f))
    ]
  ]

  Fits-match_from :
      (s : S) (i : ℕ) (args : List Arg) (ks : List ArgMatchKind)
      → Fits s i args ks
      → matched i args s ≡ some ks
  unfolding match_from
  Fits-match_from s i [] [] (no_more _) = refl
  Fits-match_from s i [] (k ∷ ks) x = elim x [ ]
  Fits-match_from s i (a ∷ args) [] x = elim x [ ]
  Fits-match_from s i (a ∷ args) (k ∷ ks) (one_more _ _ _ _ _ e valid rest) =
      let later = Fits-match_from s (suc i) args ks rest in
      elim (invalid-cases (kind_of s i a)) [
        | inl (f, bad) ↦ absurd (valid (sym e ∙ bad))
        | inr (f, _) ↦ ground (arith, e, f, later)
      ]

  viable_candidates-cons :
      (args : List Arg) (s : S) (bucket : List S)
      → ((viable args (s ∷ bucket) ≡ viable args bucket)
          × (param_count s ≡ length args → matched 0 args s ≡ none))
        ⊎ ((ks : List ArgMatchKind) × (param_count s ≡ length args)
            × (matched 0 args s ≡ some ks)
            × (viable args (s ∷ bucket) ≡ record { kinds = ks; symbol = s } ∷ viable args bucket))
  unfolding viable_candidates
  viable_candidates-cons args s bucket = elim (Bool-cases (param_count s == length args)) [
    | inr n ↦ inl (ground (arith, n), λ e. absurd (ground (arith, n, e)))
    | inl n ↦ elim (Option-cases (matched 0 args s)) [
      | inl e ↦ inl (ground (arith, n, e), λ _. e)
      | inr (ks, e) ↦ inr (ks, ground (arith, n), e, ground (arith, n, e))
    ]
  ]

  -- A symbol of the bucket that takes the arguments, with these kinds.
  pub data Takes (args : List Arg) (bucket : List S) (s : S) (ks : List ArgMatchKind) : Type 0 where
    takes :
        (j : ℕ)
        → get_elem? bucket j ≡ some s
        → param_count s ≡ length args
        → Fits s 0 args ks
        → Takes args bucket s ks

  Takes-later :
      (args : List Arg) (t : S) (bucket : List S) (s : S) (ks : List ArgMatchKind)
      → Takes args bucket s ks
      → Takes args (t ∷ bucket) s ks
  Takes-later args t bucket s ks (takes j g n f) = takes (suc j) g n f

  abbrev pub Listed : List Arg → List S → S → List ArgMatchKind → Type 0
  Listed args bucket s ks =
      (i : ℕ) × (get_elem? (viable args bucket) i ≡ some (record { kinds = ks; symbol = s }))

  Listed-Takes :
      (args : List Arg) (bucket : List S) (s : S) (ks : List ArgMatchKind) (i : ℕ)
      → get_elem? (viable args bucket) i ≡ some (record { kinds = ks; symbol = s })
      → Takes args bucket s ks
  unfolding viable_candidates
  Listed-Takes args [] s ks i g = absurd (cc g)
  Listed-Takes args (t ∷ bucket) s ks i g = elim (viable_candidates-cons args t bucket) [
    | inl (e, _) ↦
        Takes-later args t bucket s ks
          (Listed-Takes args bucket s ks i (sym (ap (λ l. get_elem? l i) e) ∙ g))
    | inr (ls, n, m, e) ↦
        elim (get_elem?-cons (record { kinds = ls; symbol = t }) (viable args bucket) i
          (record { kinds = ks; symbol = s }) (sym (ap (λ l. get_elem? l i) e) ∙ g)) [
            | inl d ↦
                let t-s : t ≡ s = ap (λ x. x.symbol) d in
                let ls-ks : ls ≡ ks = ap (λ x. x.kinds) d in
                takes 0 (ap some t-s) (ap param_count (sym t-s) ∙ n)
                  (match_from-Fits s 0 args ks (ap (matched 0 args) (sym t-s) ∙ m ∙ ap some ls-ks))
            | inr (k, later) ↦
                Takes-later args t bucket s ks (Listed-Takes args bucket s ks k later)
          ]
  ]

  Takes-Listed :
      (args : List Arg) (bucket : List S) (s : S) (ks : List ArgMatchKind) (j : ℕ)
      → get_elem? bucket j ≡ some s
      → param_count s ≡ length args
      → matched 0 args s ≡ some ks
      → Listed args bucket s ks
  Takes-Listed args [] s ks j g n m = absurd (cc g)
  Takes-Listed args (t ∷ bucket) s ks j g n m = elim (viable_candidates-cons args t bucket) [
    | inl (e, fails_if) ↦ elim (get_elem?-cons t bucket j s g) [
      | inl t-s ↦
          let fails = fails_if (ap param_count t-s ∙ n) in
          absurd (cc (sym fails ∙ ap (matched 0 args) t-s ∙ m))
      | inr (k, later) ↦
          let (i, found) = Takes-Listed args bucket s ks k later n m in
          (i, ap (λ l. get_elem? l i) e ∙ found)
    ]
    | inr (ls, n', m', e) ↦ elim (get_elem?-cons t bucket j s g) [
      | inl t-s ↦
          let ls-ks : ls ≡ ks = some-eq (sym m' ∙ ap (matched 0 args) t-s ∙ m) in
          (
            0,
            ap (λ l. get_elem? l 0) e
                ∙ ap (λ l. some (record { kinds = l; symbol = t })) ls-ks
                ∙ ap (λ x. some (record { kinds = ks; symbol = x })) t-s,
          )
      | inr (k, later) ↦
          let (i, found) = Takes-Listed args bucket s ks k later n m in
          (suc i, ap (λ l. get_elem? l (suc i)) e ∙ found)
    ]
  ]

  Takes-Listed_all :
      (args : List Arg) (bucket : List S) (s : S) (ks : List ArgMatchKind)
      → Takes args bucket s ks
      → Listed args bucket s ks
  Takes-Listed_all args bucket s ks (takes j g n f) =
      Takes-Listed args bucket s ks j g n (Fits-match_from s 0 args ks f)

  -- The candidates of a call are the symbols of the bucket that have as many parameters as there are
  -- arguments and whose parameters all take their arguments, none by an invalid match; a candidate has
  -- the kinds of these matches.
  pub viable_candidates-Takes :
      (args : List Arg) (bucket : List S) (s : S) (ks : List ArgMatchKind)
      → ((i : ℕ) × (get_elem? (viable args bucket) i ≡ some (record { kinds = ks; symbol = s })))
        ↔ Takes args bucket s ks
  viable_candidates-Takes args bucket s ks =
      (λ (i, g). Listed-Takes args bucket s ks i g, Takes-Listed_all args bucket s ks)
