-- ===== src/Mir/Closed.antt =====
-- The builder on a fit body: it ends, and the function that it makes is a closed graph of blocks.
use hwarangdo.Prelude.{
  ℕ, zero, suc, ◌<◌, ◌≡◌, refl, inl, inr, Bool, true, false, not, ◌&&◌, none, some, List, [], ◌∷◌,
  arith, Bool-cases, length,
}
use hwarangdo.Types.{TypeSymbol}
use hwarangdo.Mir.{return, BasicBlock, fresh_block, MethodSymbol, Function}
use hwarangdo.Mir.Hir.{Stmts}
use hwarangdo.Mir.State.{Builder, done, make_block, is_unset}
use hwarangdo.Mir.Lower.{new_function, lower_body, lower_method}
use hwarangdo.Mir.Fit.{are_fit_stmts}
use hwarangdo.Mir.Wf.{
  blocks_below, unfinished, also, Context, Wf, Post, Post-bind, Post-map, continue_with-done,
  Post-result,
}
use hwarangdo.Mir.Rules.{Post-terminate_current}
use hwarangdo.Mir.Scopes.{Post-enter_scope, Post-exit_scope}
use hwarangdo.Mir.Contexts.{Fitting, inside, Open-of}
use hwarangdo.Mir.Steps.{make_block_stmt-Safe}
use hwarangdo.Mir.Safe.{lower_stmts-Safe}

abbrev all_finished : List BasicBlock → Bool
all_finished [] = true
all_finished (k ∷ ks) = not (is_unset k.terminator) && all_finished ks

-- Each block ends, and leads to blocks of the function only.
unfoldable pub is_closed : Function → Bool
is_closed f = all_finished f.blocks && blocks_below (length f.blocks) f.blocks

all_finished_of :
    (ks : List BasicBlock)
    → ((j : ℕ) → unfinished j ks ≡ true → false ≡ true)
    → all_finished ks ≡ true
all_finished_of [] f = refl
all_finished_of (k ∷ ks) f = elim (Bool-cases (is_unset k.terminator)) [
  | inl e ↦ absurd (cc (f 0 e))
  | inr e ↦ ground (arith, e, all_finished_of ks (λ j. f (suc j)))
]

nowhere : ℕ → Bool
nowhere j = false

abbrev in_method : MethodSymbol → Context
in_method m = record {
  floor = 1;
  height = 0;
  inside_loops = [];
  inside_matches = [];
  of_method = m;
}

abbrev at_entry : MethodSymbol → Builder
at_entry m = record (new_function (some m)) { blocks = fresh_block ∷ [] }

only_entry : (j : ℕ) → unfinished j (fresh_block ∷ []) ≡ true → also 0 nowhere j ≡ true
unfolding nowhere
only_entry zero h = ground arith
only_entry (suc j) h = absurd (cc h)

at_entry-Wf : (m : MethodSymbol) → Wf (in_method m) 0 (also 0 nowhere) (at_entry m)
unfolding nowhere
at_entry-Wf m = record {
  at_block = refl;
  exists = omega arith;
  grown = omega arith;
  below = refl;
  covered = only_entry;
  outside = record { deep = refl; loops_kept = refl; matches_kept = refl; method_kept = refl };
}

in_method-Fitting : (m : MethodSymbol) → Fitting false false (inside 1 1 (in_method m))
in_method-Fitting m = record {
  loops_fitting = refl;
  matches_fitting = refl;
  in_loop = λ e. absurd (cc e);
  in_match = λ e. absurd (cc e);
  in_scope = omega arith;
}

Post-lower_body :
    (m : MethodSymbol) (ss : Stmts)
    → are_fit_stmts false false ss ≡ true
    → Post (λ _ b. (x : ℕ) × Wf (in_method m) x nowhere b) (lower_body ss (new_function (some m)))
unfolding lower_body make_block
Post-lower_body m ss h = Post-bind (Post-enter_scope (at_entry-Wf m)) λ s b1 (e, w1).
    Post-bind
      (make_block_stmt-Safe (lower_stmts-Safe false false ss h) _ (in_method-Fitting m) nowhere b1
        (Open-of nowhere w1))
      λ _ b2 w2.
        Post-bind (Post-exit_scope 0 w2 refl)
          λ _ b3 w3. Post-map (Post-terminate_current (return none) w3 refl refl) λ _ b4 w4. (_, w4)

-- A method's body that is fit is lowered: no pointer is null, no vector is empty and no internal error
-- is raised. In the function that results each block has a terminator, whose targets are blocks of
-- that function; the entry is one of them.
pub lower_method-Closed :
    (owner : TypeSymbol) (m : MethodSymbol) (ss : Stmts)
    → are_fit_stmts false false ss ≡ true
    → (b : Builder) × (f : Function) × (lower_method owner m ss ≡ done b f)
      × (is_closed f ≡ true)
      × (f.entry ≡ some 0)
      × (0 < length f.blocks)
unfolding lower_method is_closed nowhere
lower_method-Closed owner m ss h =
    let (b, u, e, (x, w)) = Post-result (Post-lower_body m ss h) in
    (
      b,
      _,
      continue_with-done _ e,
      ground (arith, all_finished_of b.blocks w.covered, w.below),
      refl,
      omega (arith, w.grown),
    )
