-- ===== src/Mir/Rules.antt =====
-- What each small step of the builder does to a state that is well formed.
use hwarangdo.Prelude.{
  ℕ, zero, suc, ◌≤◌, ◌<◌, ◌≡◌, refl, sym, ap, ◌∙◌, subst, inl, inr, Bool, true, false, not, Option,
  none, some, List, [], ◌∷◌, ◌++◌, arith, ◌==◌, Bool-cases, some-eq, length, get_elem?, set,
  length-append, length-set, get_of_lt,
}
use hwarangdo.Types.{TypeSymbol}
use hwarangdo.Mir.{
  ValueSymbol, temporary, Statement, Terminator, BasicBlock, fresh_block, MethodSymbol,
}
use hwarangdo.Mir.State.{
  LoopContext, MatchContext, Builder, undefined, done, when, get_block, make_block, is_unset,
  has_terminator, terminate, terminate_open, terminate_current, emit, make_temp,
}
use hwarangdo.Mir.Wf.{
  targets_below, blocks_below, unfinished, also, Context, Outside, Wf, Post, returns,
  continue_with-done, Post-step, unfinished-append_one, unfinished-set, unfinished-set_same,
  targets_below_mono, blocks_below-append_one, blocks_below-set, blocks_below-get,
}

abbrev pub raise : ℕ → Context → Context
raise n c = record c { floor = n }

Outside-raise :
    {c : Context} {s : List (List ValueSymbol)} {l : List LoopContext} {m : List MatchContext}
    {o : Option MethodSymbol} (n : ℕ)
    → Outside c s l m o
    → Outside (raise n c) s l m o
Outside-raise n u = record {
  deep = u.deep;
  loops_kept = u.loops_kept;
  matches_kept = u.matches_kept;
  method_kept = u.method_kept;
}

pub get_block-done :
    (id : ℕ) (b : Builder)
    → id < length b.blocks
    → (k : BasicBlock) × (get_elem? b.blocks id ≡ some k) × (get_block id b ≡ done b k)
unfolding get_block
get_block-done id b h = let (k, g) = get_of_lt b.blocks id h in (k, g, ground (arith, g))

abbrev pub with_terminator : ℕ → BasicBlock → Terminator → Builder → Builder
with_terminator id k t b = record b { blocks = set b.blocks id (record k { terminator = t }) }

pub terminate-done :
    (id : ℕ) (t : Terminator) (b : Builder)
    → id < length b.blocks
    → (k : BasicBlock) × (get_elem? b.blocks id ≡ some k)
      × (terminate id t b ≡ done (with_terminator id k t b) tt)
unfolding terminate
terminate-done id t b h = let (k, g, e) = get_block-done id b h in (k, g, continue_with-done _ e)

pub has_terminator-done :
    (id : ℕ) (b : Builder)
    → id < length b.blocks
    → (k : BasicBlock) × (get_elem? b.blocks id ≡ some k)
      × (has_terminator id b ≡ done b (not (is_unset k.terminator)))
unfolding has_terminator
has_terminator-done id b h = let (k, g, e) = get_block-done id b h in (k, g, continue_with-done _ e)

-- A well-formed state with other scopes, or at another block.
pub Wf-set_current :
    {c : Context} {x : ℕ} {p : ℕ → Bool} {b : Builder} (y : ℕ)
    → Wf c x p b
    → y < c.floor
    → Wf c y p (record b { current_block = y })
Wf-set_current y w h = record {
  at_block = refl;
  exists = omega (arith, h, w.grown);
  grown = w.grown;
  below = w.below;
  covered = w.covered;
  outside = w.outside;
}

pub Wf-weaken :
    {c : Context} {x : ℕ} {p q : ℕ → Bool} {b : Builder}
    → Wf c x p b
    → ((j : ℕ) → p j ≡ true → q j ≡ true)
    → Wf c x q b
Wf-weaken w f = record {
  at_block = w.at_block;
  exists = w.exists;
  grown = w.grown;
  below = w.below;
  covered = λ j h. f j (w.covered j h);
  outside = w.outside;
}

pub Wf-lower :
    {c : Context} {x : ℕ} {p : ℕ → Bool} {b : Builder} (n : ℕ)
    → Wf c x p b
    → n ≤ c.floor
    → Wf (raise n c) x p b
Wf-lower n w h = record {
  at_block = w.at_block;
  exists = w.exists;
  grown = omega (arith, h, w.grown);
  below = w.below;
  covered = w.covered;
  outside = Outside-raise n w.outside;
}

-- Every block exists so far.
pub Wf-all :
    {c : Context} {x : ℕ} {p : ℕ → Bool} {b : Builder}
    → Wf c x p b
    → Wf (raise (length b.blocks) c) x p b
Wf-all {b = b} w = record {
  at_block = w.at_block;
  exists = w.exists;
  grown = omega arith;
  below = w.below;
  covered = w.covered;
  outside = Outside-raise (length b.blocks) w.outside;
}

pub Post-make_block :
    {c : Context} {x : ℕ} {p : ℕ → Bool} {b : Builder}
    → Wf c x p b
    → Post
        (λ id b'. (c.floor ≤ id) × (x < id) × Wf (raise (suc id) c) x (also id p) b')
        (make_block b)
unfolding make_block
Post-make_block {c = c} {x} {p} {b} w =
    let longer = length-append b.blocks (fresh_block ∷ []) in
    returns (
      w.grown,
      w.exists,
      record {
        at_block = w.at_block;
        exists = omega (arith, longer, w.exists);
        grown = omega (arith, longer);
        below =
            blocks_below-append_one (length b.blocks) _ b.blocks (omega (arith, longer)) w.below;
        covered = λ j. unfinished-append_one b.blocks j p (w.covered j);
        outside = Outside-raise _ w.outside;
      },
    )

pub Post-terminate :
    {c : Context} {x : ℕ} {q : ℕ → Bool} {b : Builder} (id : ℕ) (t : Terminator)
    → Wf c x (also id q) b
    → id < length b.blocks
    → is_unset t ≡ false
    → targets_below (length b.blocks) t ≡ true
    → Post (λ _. Wf c x q) (terminate id t b)
Post-terminate {c = c} {x} {q} {b} id t w h s l =
    let (k, g, e) = terminate-done id t b h in
    let k' : BasicBlock = record k { terminator = t } in
    let same = length-set b.blocks id k' in
    subst (Post (λ _. Wf c x q)) (sym e) (
      returns (record {
        at_block = w.at_block;
        exists = omega (arith, same, w.exists);
        grown = omega (arith, same, w.grown);
        below =
            subst (λ n. blocks_below n (set b.blocks id k') ≡ true) (sym same)
              (blocks_below-set (length b.blocks) b.blocks id k' l w.below);
        covered = λ j u.
            let (n, before) = unfinished-set b.blocks id j k' s u in
            ground (arith, n, w.covered j before);
        outside = w.outside;
      }))

-- With the targets below the floor.
pub Post-goto :
    {c : Context} {x : ℕ} {q : ℕ → Bool} {b : Builder} (id : ℕ) (t : Terminator)
    → Wf c x (also id q) b
    → id < length b.blocks
    → is_unset t ≡ false
    → targets_below c.floor t ≡ true
    → Post (λ _. Wf c x q) (terminate id t b)
Post-goto {c = c} {b = b} id t w h s l =
    Post-terminate id t w h s (targets_below_mono c.floor (length b.blocks) t w.grown l)

ended-ne :
    (ks : List BasicBlock) (i j : ℕ) (k : BasicBlock)
    → get_elem? ks i ≡ some k
    → is_unset k.terminator ≡ false
    → unfinished j ks ≡ true
    → (j == i) ≡ false
ended-ne [] i j k g e u = absurd (cc u)
ended-ne (l ∷ ks) zero zero k g e u =
    absurd (cc (u, e, ap (λ n. is_unset n.terminator) (some-eq g)))
ended-ne (l ∷ ks) zero (suc j) k g e u = ground arith
ended-ne (l ∷ ks) (suc i) zero k g e u = ground arith
ended-ne (l ∷ ks) (suc i) (suc j) k g e u = ground (arith, ended-ne ks i j k g e u)

pub Post-terminate_open :
    {c : Context} {x : ℕ} {q : ℕ → Bool} {b : Builder} (id : ℕ) (t : Terminator)
    → Wf c x (also id q) b
    → id < length b.blocks
    → is_unset t ≡ false
    → targets_below c.floor t ≡ true
    → Post (λ _. Wf c x q) (terminate_open id t b)
unfolding terminate_open
Post-terminate_open {c = c} {x} {q} {b} id t w h s l =
    let (k, g, e) = has_terminator-done id b h in
    Post-step _ e (elim (Bool-cases (is_unset k.terminator)) [
      | inl u ↦
          subst (λ d. Post (λ _. Wf c x q) (when (not (not d)) (terminate id t) b)) (sym u)
            (Post-goto id t w h s l)
      | inr u ↦
          subst (λ d. Post (λ _. Wf c x q) (when (not (not d)) (terminate id t) b)) (sym u)
            (returns (record {
              at_block = w.at_block;
              exists = w.exists;
              grown = w.grown;
              below = w.below;
              covered = λ j f. ground (arith, ended-ne b.blocks id j k g u f, w.covered j f);
              outside = w.outside;
            }))
    ])

pub Post-terminate_current :
    {c : Context} {x : ℕ} {q : ℕ → Bool} {b : Builder} (t : Terminator)
    → Wf c x (also x q) b
    → is_unset t ≡ false
    → targets_below c.floor t ≡ true
    → Post (λ _. Wf c x q) (terminate_current t b)
unfolding terminate_current
Post-terminate_current {c = c} {x} {q} {b} t w s l =
    subst (λ i. Post (λ _. Wf c x q) (terminate_open i t b)) (sym w.at_block)
      (Post-terminate_open x t w w.exists s l)

pub Post-terminate_here :
    {c : Context} {x : ℕ} {q : ℕ → Bool} {b : Builder} (t : Terminator)
    → Wf c x (also x q) b
    → is_unset t ≡ false
    → targets_below c.floor t ≡ true
    → Post (λ _. Wf c x q) (terminate b.current_block t b)
Post-terminate_here {c = c} {x} {q} {b} t w s l =
    subst (λ i. Post (λ _. Wf c x q) (terminate i t b)) (sym w.at_block)
      (Post-goto x t w w.exists s l)

pub Post-emit :
    {c : Context} {x : ℕ} {p : ℕ → Bool} {b : Builder} (s : Statement)
    → Wf c x p b
    → Post (λ _. Wf c x p) (emit s b)
unfolding emit
Post-emit {c = c} {x} {p} {b} s w =
    let inside : b.current_block < length b.blocks = omega (arith, w.at_block, w.exists) in
    let (k, g, e) = get_block-done b.current_block b inside in
    let k' : BasicBlock = record k { stmts = k.stmts ++ s ∷ [] } in
    let same = length-set b.blocks b.current_block k' in
    Post-step _ e (
      returns (record {
        at_block = w.at_block;
        exists = omega (arith, same, w.exists);
        grown = omega (arith, same, w.grown);
        below =
            subst (λ n. blocks_below n (set b.blocks b.current_block k') ≡ true) (sym same)
              (blocks_below-set (length b.blocks) b.blocks b.current_block k'
                (blocks_below-get (length b.blocks) b.blocks b.current_block k w.below g) w.below);
        covered = λ j u.
            w.covered j (sym (unfinished-set_same b.blocks b.current_block j k' k g refl) ∙ u);
        outside = w.outside;
      }))

pub Post-make_temp :
    {c : Context} {x : ℕ} {p : ℕ → Bool} {b : Builder} (t : TypeSymbol)
    → Wf c x p b
    → Post (λ _. Wf c x p) (make_temp t b)
unfolding make_temp
Post-make_temp {c = c} {x} {p} {b} t w =
    subst
      (λ m.
        Post (λ _. Wf c x p)
          (elim m [
            | none ↦ undefined
            | some _ ↦ done (record b { next_temp = suc b.next_temp }) (temporary b.next_temp t)
          ]))
      (sym w.outside.method_kept)
      (returns (record {
        at_block = w.at_block;
        exists = w.exists;
        grown = w.grown;
        below = w.below;
        covered = w.covered;
        outside = w.outside;
      }))
