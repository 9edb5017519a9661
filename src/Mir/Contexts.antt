-- ===== src/Mir/Contexts.antt =====
-- The loops and the matches that a part of a body stands in, and the actions that keep what they must.
use hwarangdo.Prelude.{
  ℕ, ◌≤◌, ◌<◌, ◌≡◌, refl, sym, ap, ◌∙◌, subst, Bool, true, some, List, [], ◌∷◌, arith, length,
}
use hwarangdo.Mir.{MethodSymbol}
use hwarangdo.Mir.State.{
  LoopContext, MatchContext, Builder, undefined, done, Lower, pop_loop, last_loop, pop_match,
  last_match,
}
use hwarangdo.Mir.Wf.{also, Context, Wf, loops_fit, matches_fit, Post, returns}
use hwarangdo.Mir.Scopes.{Post-cons}

-- A part of a body, lowered: in a loop or in a match when it has to be.
pub record Fitting (lo ma : Bool) (c : Context) : Type 0 where
  pub loops_fitting : loops_fit c.floor c.height c.inside_loops ≡ true
  pub matches_fitting : matches_fit c.floor c.inside_matches ≡ true
  pub in_loop : lo ≡ true → 0 < length c.inside_loops
  pub in_match : ma ≡ true → 0 < length c.inside_matches
  pub in_scope : 0 < c.height

loops_fit_mono :
    (n m h k : ℕ) (ls : List LoopContext)
    → n ≤ m
    → h ≤ k
    → loops_fit n h ls ≡ true
    → loops_fit m k ls ≡ true
loops_fit_mono n m h k [] l g e = refl
loops_fit_mono n m h k (x ∷ ls) l g e = ground (arith, loops_fit_mono n m h k ls l g)

matches_fit_mono :
    (n m : ℕ) (ms : List MatchContext) → n ≤ m → matches_fit n ms ≡ true → matches_fit m ms ≡ true
matches_fit_mono n m [] l e = refl
matches_fit_mono n m (x ∷ ms) l e = ground (arith, matches_fit_mono n m ms l)

abbrev pub inside : ℕ → ℕ → Context → Context
inside n h c = record c { floor = n; height = h }

pub Fitting-inside :
    {lo ma : Bool} {c : Context} (n h : ℕ)
    → Fitting lo ma c
    → c.floor ≤ n
    → c.height ≤ h
    → Fitting lo ma (inside n h c)
Fitting-inside {c = c} n h f l g = record {
  loops_fitting = loops_fit_mono c.floor n c.height h c.inside_loops l g f.loops_fitting;
  matches_fitting = matches_fit_mono c.floor n c.inside_matches l f.matches_fitting;
  in_loop = f.in_loop;
  in_match = f.in_match;
  in_scope = omega (arith, g, f.in_scope);
}

abbrev pub looping : LoopContext → Context → Context
looping l c = record c { inside_loops = l ∷ c.inside_loops }

pub Fitting-loop :
    {lo ma : Bool} {c : Context} (l : LoopContext)
    → Fitting lo ma c
    → l.continue_target < c.floor
    → l.break_target < c.floor
    → l.break_scope ≤ c.height
    → l.continue_scope ≤ c.height
    → Fitting true ma (looping l c)
Fitting-loop l f h1 h2 h3 h4 = record {
  loops_fitting = ground (arith, f.loops_fitting);
  matches_fitting = f.matches_fitting;
  in_loop = λ _. omega arith;
  in_match = f.in_match;
  in_scope = f.in_scope;
}

abbrev pub matching : MatchContext → Context → Context
matching m c = record c { inside_matches = m ∷ c.inside_matches }

pub Fitting-match :
    {lo ma : Bool} {c : Context} (m : MatchContext)
    → Fitting lo ma c
    → m.join < c.floor
    → Fitting lo true (matching m c)
Fitting-match m f h = record {
  loops_fitting = f.loops_fitting;
  matches_fitting = ground (arith, f.matches_fitting);
  in_loop = f.in_loop;
  in_match = λ _. omega arith;
  in_scope = f.in_scope;
}

pub Wf-loop :
    {c : Context} {x : ℕ} {p : ℕ → Bool} {b : Builder} (l : LoopContext)
    → Wf c x p b
    → Wf (looping l c) x p (record b { loops = l ∷ b.loops })
Wf-loop l w = record {
  at_block = w.at_block;
  exists = w.exists;
  grown = w.grown;
  below = w.below;
  covered = w.covered;
  outside = record {
    deep = w.outside.deep;
    loops_kept = ap (λ ls. l ∷ ls) w.outside.loops_kept;
    matches_kept = w.outside.matches_kept;
    method_kept = w.outside.method_kept;
  };
}

pub Wf-match :
    {c : Context} {x : ℕ} {p : ℕ → Bool} {b : Builder} (m : MatchContext)
    → Wf c x p b
    → Wf (matching m c) x p (record b { matches = m ∷ b.matches })
Wf-match m w = record {
  at_block = w.at_block;
  exists = w.exists;
  grown = w.grown;
  below = w.below;
  covered = w.covered;
  outside = record {
    deep = w.outside.deep;
    loops_kept = w.outside.loops_kept;
    matches_kept = ap (λ ms. m ∷ ms) w.outside.matches_kept;
    method_kept = w.outside.method_kept;
  };
}

abbrev pub tail {ℓ} : {A : Type ℓ} → List A → List A
tail [] = []
tail (a ∷ s) = s

pub Post-pop_loop :
    {x : ℕ} {p : ℕ → Bool} {b : Builder} (c : Context) (l : LoopContext)
    → Wf (looping l c) x p b
    → Post (λ _. Wf c x p) (pop_loop b)
unfolding pop_loop
Post-pop_loop {b = b} c l w =
    Post-cons b.loops undefined (λ _ ls. done (record b { loops = ls }) tt)
      (omega (arith, ap length w.outside.loops_kept))
      (λ _ ls e. returns (record {
        at_block = w.at_block;
        exists = w.exists;
        grown = w.grown;
        below = w.below;
        covered = w.covered;
        outside = record {
          deep = w.outside.deep;
          loops_kept = ap tail (sym e ∙ w.outside.loops_kept);
          matches_kept = w.outside.matches_kept;
          method_kept = w.outside.method_kept;
        };
      }))

pub Post-pop_match :
    {x : ℕ} {p : ℕ → Bool} {b : Builder} (c : Context) (m : MatchContext)
    → Wf (matching m c) x p b
    → Post (λ _. Wf c x p) (pop_match b)
unfolding pop_match
Post-pop_match {b = b} c m w =
    Post-cons b.matches undefined (λ _ ms. done (record b { matches = ms }) tt)
      (omega (arith, ap length w.outside.matches_kept))
      (λ _ ms e. returns (record {
        at_block = w.at_block;
        exists = w.exists;
        grown = w.grown;
        below = w.below;
        covered = w.covered;
        outside = record {
          deep = w.outside.deep;
          loops_kept = w.outside.loops_kept;
          matches_kept = ap tail (sym e ∙ w.outside.matches_kept);
          method_kept = w.outside.method_kept;
        };
      }))

-- The context on top fits.
pub Post-last_loop :
    {lo ma : Bool} {c : Context} {x : ℕ} {p : ℕ → Bool} {b : Builder}
    → Wf c x p b
    → Fitting lo ma c
    → lo ≡ true
    → Post
        (λ l b'.
          Wf c x p b'
          × (l.continue_target < c.floor)
          × (l.break_target < c.floor)
          × (l.break_scope ≤ c.height)
          × (l.continue_scope ≤ c.height))
        (last_loop b)
unfolding last_loop
Post-last_loop {c = c} {b = b} w f i =
    Post-cons b.loops undefined (λ l _. done b l)
      (omega (arith, ap length w.outside.loops_kept, f.in_loop i))
      (λ l ls e.
        let fits : loops_fit c.floor c.height (l ∷ ls) ≡ true =
          ap (loops_fit c.floor c.height) (sym e ∙ w.outside.loops_kept) ∙ f.loops_fitting in
        returns (
          w,
          ground (arith, fits),
          ground (arith, fits),
          ground (arith, fits),
          ground (arith, fits),
        ))

pub Post-last_match :
    {lo ma : Bool} {c : Context} {x : ℕ} {p : ℕ → Bool} {b : Builder}
    → Wf c x p b
    → Fitting lo ma c
    → ma ≡ true
    → Post (λ m b'. Wf c x p b' × (m.join < c.floor)) (last_match b)
unfolding last_match
Post-last_match {c = c} {b = b} w f i =
    Post-cons b.matches undefined (λ m _. done b m)
      (omega (arith, ap length w.outside.matches_kept, f.in_match i))
      (λ m ms e.
        let fits : matches_fit c.floor (m ∷ ms) ≡ true =
          ap (matches_fit c.floor) (sym e ∙ w.outside.matches_kept) ∙ f.matches_fitting in
        returns (w, ground (arith, fits)))

-- The current block may be left unfinished.
abbrev pub Open : Context → (ℕ → Bool) → Builder → Type 0
Open c q b = Wf c b.current_block (also b.current_block q) b

pub Open-of : {c : Context} {x : ℕ} {b : Builder} (q : ℕ → Bool) → Wf c x (also x q) b → Open c q b
Open-of {c = c} {b = b} q w = subst (λ y. Wf c y (also y q) b) (sym w.at_block) w

-- An action that ends, and finds again what it must.
abbrev pub Safe : {A : Type 0} → Bool → Bool → Lower A → Type 0
Safe lo ma m =
    (c : Context)
    → Fitting lo ma c
    → (q : ℕ → Bool) (b : Builder) → Open c q b
    → Post (λ _ b'. Open c q b') (m b)

-- An action that leaves the state as it is.
abbrev pub Quiet : {A : Type 0} → Lower A → Type 0
Quiet {A = A} m = (b : Builder) (s : MethodSymbol) → b.method ≡ some s → (a : A) × (m b ≡ done b a)

pub Post-Quiet :
    {A : Type 0} {m : Lower A} {c : Context} {x : ℕ} {p : ℕ → Bool} {b : Builder}
    → Quiet m
    → Wf c x p b
    → Post (λ _. Wf c x p) (m b)
Post-Quiet {c = c} {x} {p} {b} h w =
    let (a, e) = h b _ w.outside.method_kept in subst (Post (λ _. Wf c x p)) (sym e) (returns w)
