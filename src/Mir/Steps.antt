-- ===== src/Mir/Steps.antt =====
-- The statements that do not branch, at any parts that are safe to lower.
use hwarangdo.Prelude.{
  ℕ, suc, ◌≡◌, refl, Bool, true, false, not, Option, some, arith, of_either, length,
}
use hwarangdo.Types.{TypeSymbol}
use hwarangdo.Mir.{
  ValueSymbol, Value, Place, local_at, Statement, assign, local_decl, Terminator, goto, return,
}
use hwarangdo.Mir.State.{Builder, Lower, pure, ◌>>=◌, when, is_unset, terminate, emit, emit_cleanup}
use hwarangdo.Mir.Lower.{
  make_block_stmt, unless_ended, make_local_decl, make_return, lower_break, lower_continue,
  make_value_transfer, make_assign,
}
use hwarangdo.Mir.Wf.{
  targets_below, also, Context, Wf, Post, returns, Post-bind, Post-map, Post-step,
}
use hwarangdo.Mir.Rules.{has_terminator-done, Wf-weaken, Post-terminate_here, Post-emit}
use hwarangdo.Mir.Scopes.{
  Post-enter_scope, Post-exit_scope, Post-add_local, Post-emit_cleanup, Post-emit_cleanup_until,
}
use hwarangdo.Mir.Contexts.{
  inside, Fitting-inside, Post-last_loop, Post-last_match, Open, Open-of, Safe, Quiet, Post-Quiet,
}

-- An action behind a test of the current block.
Post-unless_ended :
    {Q : Unit {0} → Builder → Type 0} {c : Context} {x : ℕ} {p : ℕ → Bool} {b : Builder}
    (m : Lower (Unit {0}))
    → Wf c x p b
    → Post Q (m b)
    → Q tt b
    → Post Q (unless_ended m b)
unfolding unless_ended
Post-unless_ended {Q = Q} {b = b} m w h k =
    let (block, g, e) =
      has_terminator-done b.current_block b (omega (arith, w.at_block, w.exists)) in
    Post-step _ e (
      of_either {A = Lower (Unit {0})} (λ n. Post Q (n b)) (not (not (is_unset block.terminator))) m
        (pure tt) (λ _. h) (λ _. returns k))

-- The current block is given its terminator, with nothing left open.
Post-end :
    {c : Context} {x : ℕ} {b : Builder} (q : ℕ → Bool) (t : Terminator)
    → Wf c x (also x q) b
    → is_unset t ≡ false
    → targets_below c.floor t ≡ true
    → Post (λ _. Open c q) (terminate b.current_block t b)
Post-end q t w s l =
    Post-map (Post-terminate_here t w s l) λ _ b2 w2. Open-of q (Wf-weaken w2 (λ j h. ground arith))

module _ {lo ma : Bool} where
  pub pure-Safe : {A : Type 0} (a : A) → Safe lo ma (pure a)
  pure-Safe a c f q b w = returns w

  pub Quiet-Safe : {A : Type 0} {m : Lower A} → Quiet m → Safe lo ma m
  Quiet-Safe h c f q b w = Post-map (Post-Quiet h w) λ _ b' w'. Open-of q w'

  pub bind-Safe :
      {A B : Type 0} {m : Lower A} {k : A → Lower B}
      → Safe lo ma m
      → ((a : A) → Safe lo ma (k a))
      → Safe lo ma (m >>= k)
  bind-Safe h g c f q b w = Post-bind (h c f q b w) λ a b' w'. g a c f q b' w'

  pub emit-Safe : (s : Statement) → Safe lo ma (emit s)
  emit-Safe s c f q b w = Post-map (Post-emit s w) λ _ b' w'. Open-of q w'

  pub unless_ended-Safe : {m : Lower (Unit {0})} → Safe lo ma m → Safe lo ma (unless_ended m)
  unless_ended-Safe {m = m} h c f q b w = Post-unless_ended m w (h c f q b w) w

  pub make_block_stmt-Safe : {m : Lower (Unit {0})} → Safe lo ma m → Safe lo ma (make_block_stmt m)
  unfolding make_block_stmt unless_ended
  make_block_stmt-Safe {m = m} h c f q b w = Post-bind (Post-enter_scope w) λ s b1 (e, w1).
      Post-bind
        (h _ (Fitting-inside c.floor (suc c.height) f (omega arith) (omega arith)) q b1
          (Open-of q w1))
        λ _ b2 w2.
          let (block, g, d) = has_terminator-done b2.current_block b2 w2.exists in
          let cleaned : Post (λ _. Open (inside c.floor (suc c.height) c) q)
              (when (not (not (is_unset block.terminator))) (emit_cleanup s) b2) =
            of_either {A = Lower (Unit {0})}
              (λ n. Post (λ _. Open (inside c.floor (suc c.height) c) q) (n b2))
              (not (not (is_unset block.terminator))) (emit_cleanup s) (pure tt)
              (λ _. Post-map (Post-emit_cleanup s w2) λ _ b3 w3. Open-of q w3) (λ _. returns w2) in
          Post-step _ d (
            Post-bind cleaned
              λ _ b3 w3. Post-map (Post-exit_scope c.height w3 refl) λ _ b4 w4. Open-of q w4)

  pub make_local_decl-Safe :
      (t : TypeSymbol) (s : ValueSymbol) {m : Lower (Option Value)}
      → Safe lo ma m
      → Safe lo ma (make_local_decl (some t) s m)
  unfolding make_local_decl
  make_local_decl-Safe t s h c f q b w = Post-bind (h c f q b w) λ v b1 w1.
      Post-bind
        (Post-add_local (length b1.scopes) s w1 (omega (arith, w1.outside.deep, f.in_scope)))
        λ _ b2 w2. Post-map (Post-emit (local_decl t s v) w2) λ _ b3 w3. Open-of q w3

  pub make_return-Safe : {m : Lower (Option Value)} → Safe lo ma m → Safe lo ma (make_return m)
  unfolding make_return
  make_return-Safe h c f q b w = Post-bind (h c f q b w) λ v b1 w1.
      Post-bind (Post-emit_cleanup_until 0 w1 (omega arith))
        λ _ b2 w2. Post-end q (return v) w2 refl refl

  pub lower_break-Safe : lo ≡ true → Safe lo ma lower_break
  unfolding lower_break
  lower_break-Safe i c f q b w = Post-bind (Post-last_loop w f i) λ l b1 (w1, h1, h2, h3, h4).
      Post-bind (Post-emit_cleanup_until l.break_scope w1 h3)
        λ _ b2 w2. Post-end q (goto l.break_target) w2 refl (ground (arith, h2))

  pub lower_continue-Safe : lo ≡ true → Safe lo ma lower_continue
  unfolding lower_continue
  lower_continue-Safe i c f q b w = Post-bind (Post-last_loop w f i) λ l b1 (w1, h1, h2, h3, h4).
      Post-bind (Post-emit_cleanup_until l.continue_scope w1 h4)
        λ _ b2 w2. Post-end q (goto l.continue_target) w2 refl (ground (arith, h1))

  pub make_value_transfer-Safe :
      {m : Lower Value} → ma ≡ true → Safe lo ma m → Safe lo ma (make_value_transfer m)
  unfolding make_value_transfer
  make_value_transfer-Safe i h c f q b w = Post-bind (h c f q b w) λ v b1 w1.
      Post-bind (Post-last_match w1 f i) λ m b2 (w2, h1).
        Post-bind (Post-emit (assign (local_at m.result) v) w2)
          λ _ b3 w3. Post-end q (goto m.join) w3 refl (ground (arith, h1))

  pub make_assign-Safe :
      {l : Lower Place} {m : Lower Value}
      → Safe lo ma l
      → Safe lo ma m
      → Safe lo ma (make_assign l m)
  unfolding make_assign
  make_assign-Safe hl hm = bind-Safe hl (λ p. bind-Safe hm (λ v. emit-Safe (assign p v)))
