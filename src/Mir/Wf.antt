-- ===== src/Mir/Wf.antt =====
-- What every step of the builder keeps: targets are blocks of the function, and a block without a
-- terminator is one that the builder will come back to.
use hwarangdo.Prelude.{
  ℕ, zero, suc, ◌≤◌, ◌<◌, ◌≡◌, refl, sym, ap, ◌∙◌, subst, inl, inr, Bool, true, false, ◌&&◌, ◌||◌,
  Option, some, List, [], ◌∷◌, ◌++◌, arith, ltb, leb, ◌==◌, Bool-cases, some-eq, length, get_elem?,
  set,
}
use hwarangdo.Mir.{
  ValueSymbol, Case, Terminator, unset, goto, branch, return, switch, BasicBlock, fresh_block,
  MethodSymbol,
}
use hwarangdo.Mir.State.{
  LoopContext, MatchContext, Builder, Lowered, done, Lower, continue_with, is_unset,
}

abbrev pub cases_below : ℕ → List Case → Bool
cases_below n [] = true
cases_below n (c ∷ cs) = ltb c.target n && cases_below n cs

abbrev pub targets_below : ℕ → Terminator → Bool
targets_below n unset = true
targets_below n (goto t) = ltb t n
targets_below n (branch _ t f) = ltb t n && ltb f n
targets_below n (return _) = true
targets_below n (switch _ cs d) = cases_below n cs && ltb d n

abbrev pub blocks_below : ℕ → List BasicBlock → Bool
blocks_below n [] = true
blocks_below n (k ∷ ks) = targets_below n k.terminator && blocks_below n ks

-- Whether block `j` exists and has no terminator yet.
abbrev pub unfinished : ℕ → List BasicBlock → Bool
unfinished j [] = false
unfinished zero (k ∷ ks) = is_unset k.terminator
unfinished (suc j) (k ∷ ks) = unfinished j ks

abbrev pub also : ℕ → (ℕ → Bool) → ℕ → Bool
also x p j = j == x || p j

-- What a step must find again: the blocks that exist, the contexts, and how deep the scopes are.
pub record Context : Type 0 where
  pub floor : ℕ
  pub height : ℕ
  pub inside_loops : List LoopContext
  pub inside_matches : List MatchContext
  pub of_method : MethodSymbol

-- What lies outside the function's blocks.
pub record Outside (c : Context) (scopes : List (List ValueSymbol)) (loops : List LoopContext)
    (matches : List MatchContext) (method : Option MethodSymbol) : Type 0 where
  pub deep : length scopes ≡ c.height
  pub loops_kept : loops ≡ c.inside_loops
  pub matches_kept : matches ≡ c.inside_matches
  pub method_kept : method ≡ some c.of_method

-- `x` is the current block; the unfinished blocks satisfy `p`.
pub record Wf (c : Context) (x : ℕ) (p : ℕ → Bool) (b : Builder) : Type 0 where
  pub at_block : b.current_block ≡ x
  pub exists : x < length b.blocks
  pub grown : c.floor ≤ length b.blocks
  pub below : blocks_below (length b.blocks) b.blocks ≡ true
  pub covered : (j : ℕ) → unfinished j b.blocks ≡ true → p j ≡ true
  pub outside : Outside c b.scopes b.loops b.matches b.method

-- The loops' and matches' targets exist, and their scopes are enclosing ones.
abbrev pub loops_fit : ℕ → ℕ → List LoopContext → Bool
loops_fit n h [] = true
loops_fit n h (l ∷ ls) =
    ltb l.continue_target n
    && ltb l.break_target n
    && leb l.break_scope h
    && leb l.continue_scope h
    && loops_fit n h ls

abbrev pub matches_fit : ℕ → List MatchContext → Bool
matches_fit n [] = true
matches_fit n (m ∷ ms) = ltb m.join n && matches_fit n ms

-- The step ends, in a state and with a result that satisfy `Q`.
pub data Post {A : Type 0} (Q : A → Builder → Type 0) : Lowered A → Type 0 where
  returns : {b : Builder} {a : A} → Q a b → Post Q (done b a)

pub Post-bind :
    {A B : Type 0} {P : A → Builder → Type 0} {Q : B → Builder → Type 0} {r : Lowered A}
    {k : A → Lower B}
    → Post P r
    → ((a : A) (b : Builder) → P a b → Post Q (k a b))
    → Post Q (continue_with r k)
Post-bind (returns {b} {a} h) f = f a b h

pub Post-map :
    {A : Type 0} {P Q : A → Builder → Type 0} {r : Lowered A}
    → Post P r
    → ((a : A) (b : Builder) → P a b → Q a b)
    → Post Q r
Post-map (returns {b} {a} h) f = returns (f a b h)

pub continue_with-done :
    {A B : Type 0} {r : Lowered A} {b : Builder} {a : A} (k : A → Lower B)
    → r ≡ done b a
    → continue_with r k ≡ k a b
continue_with-done k e = ap (λ r. continue_with r k) e

-- A step whose result is known.
pub Post-step :
    {A B : Type 0} {Q : B → Builder → Type 0} {r : Lowered A} {b : Builder} {a : A}
    (k : A → Lower B)
    → r ≡ done b a
    → Post Q (k a b)
    → Post Q (continue_with r k)
Post-step {Q = Q} k e h = subst (λ r. Post Q (continue_with r k)) (sym e) h

pub Post-result :
    {A : Type 0} {Q : A → Builder → Type 0} {r : Lowered A}
    → Post Q r
    → (b : Builder) × (a : A) × (r ≡ done b a) × Q a b
Post-result (returns {b} {a} h) = (b, a, refl, h)

-- Blocks after a step.
unfinished_before :
    (ks : List BasicBlock) (j : ℕ)
    → (j == length ks) ≡ false
    → unfinished j (ks ++ fresh_block ∷ []) ≡ true
    → unfinished j ks ≡ true
unfinished_before [] zero e h = ground arith
unfinished_before [] (suc j) e h = h
unfinished_before (k ∷ ks) zero e h = h
unfinished_before (k ∷ ks) (suc j) e h = unfinished_before ks j (ground arith) h

pub unfinished-append_one :
    (ks : List BasicBlock) (j : ℕ) (p : ℕ → Bool)
    → (unfinished j ks ≡ true → p j ≡ true)
    → unfinished j (ks ++ fresh_block ∷ []) ≡ true
    → also (length ks) p j ≡ true
unfinished-append_one ks j p f h = elim (Bool-cases (j == length ks)) [
  | inl e ↦ ground (arith, e)
  | inr e ↦ ground (arith, f (unfinished_before ks j e h))
]

pub unfinished-set :
    (ks : List BasicBlock) (i j : ℕ) (k : BasicBlock)
    → is_unset k.terminator ≡ false
    → unfinished j (set ks i k) ≡ true
    → ((j == i) ≡ false) × (unfinished j ks ≡ true)
unfinished-set [] i j k e h = absurd (cc h)
unfinished-set (l ∷ ks) zero zero k e h = absurd (cc (e, h))
unfinished-set (l ∷ ks) zero (suc j) k e h = (ground arith, h)
unfinished-set (l ∷ ks) (suc i) zero k e h = (ground arith, h)
unfinished-set (l ∷ ks) (suc i) (suc j) k e h =
    let (n, u) = unfinished-set ks i j k e h in (ground arith, u)

pub unfinished-set_same :
    (ks : List BasicBlock) (i j : ℕ) (k l : BasicBlock)
    → get_elem? ks i ≡ some l
    → k.terminator ≡ l.terminator
    → unfinished j (set ks i k) ≡ unfinished j ks
unfinished-set_same [] i j k l g e = refl
unfinished-set_same (m ∷ ks) zero zero k l g e =
    ap is_unset (e ∙ ap (λ n. n.terminator) (sym (some-eq g)))
unfinished-set_same (m ∷ ks) zero (suc j) k l g e = refl
unfinished-set_same (m ∷ ks) (suc i) zero k l g e = refl
unfinished-set_same (m ∷ ks) (suc i) (suc j) k l g e = unfinished-set_same ks i j k l g e

pub cases_below_mono :
    (n m : ℕ) (cs : List Case) → n ≤ m → cases_below n cs ≡ true → cases_below m cs ≡ true
cases_below_mono n m [] l h = refl
cases_below_mono n m (c ∷ cs) l h = ground (arith, cases_below_mono n m cs l)

pub cases_below-append :
    (n : ℕ) (cs ds : List Case)
    → cases_below n cs ≡ true
    → cases_below n ds ≡ true
    → cases_below n (cs ++ ds) ≡ true
cases_below-append n [] ds h k = k
cases_below-append n (c ∷ cs) ds h k = ground (arith, cases_below-append n cs ds)

pub targets_below_mono :
    (n m : ℕ) (t : Terminator) → n ≤ m → targets_below n t ≡ true → targets_below m t ≡ true
targets_below_mono n m unset l h = refl
targets_below_mono n m (goto t) l h = ground arith
targets_below_mono n m (branch v t f) l h = ground arith
targets_below_mono n m (return v) l h = refl
targets_below_mono n m (switch v cs d) l h = ground (arith, cases_below_mono n m cs l)

pub blocks_below-append_one :
    (n m : ℕ) (ks : List BasicBlock)
    → n ≤ m
    → blocks_below n ks ≡ true
    → blocks_below m (ks ++ fresh_block ∷ []) ≡ true
blocks_below-append_one n m [] l h = refl
blocks_below-append_one n m (k ∷ ks) l h =
    ground (arith, targets_below_mono n m k.terminator l, blocks_below-append_one n m ks l)

pub blocks_below-set :
    (n : ℕ) (ks : List BasicBlock) (i : ℕ) (k : BasicBlock)
    → targets_below n k.terminator ≡ true
    → blocks_below n ks ≡ true
    → blocks_below n (set ks i k) ≡ true
blocks_below-set n [] i k t h = refl
blocks_below-set n (l ∷ ks) zero k t h = ground arith
blocks_below-set n (l ∷ ks) (suc i) k t h = ground (arith, blocks_below-set n ks i k t)

pub blocks_below-get :
    (n : ℕ) (ks : List BasicBlock) (i : ℕ) (k : BasicBlock)
    → blocks_below n ks ≡ true
    → get_elem? ks i ≡ some k
    → targets_below n k.terminator ≡ true
blocks_below-get n [] i k h g = absurd (cc g)
blocks_below-get n (l ∷ ks) zero k h g = ground (arith, some-eq g)
blocks_below-get n (l ∷ ks) (suc i) k h g = ground (arith, blocks_below-get n ks i k)
