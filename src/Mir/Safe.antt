-- ===== src/Mir/Safe.antt =====
-- The builder on the parts of a fit body: each ends and keeps the graph of blocks well formed.
use hwarangdo.Prelude.{
  ◌≡◌, refl, sym, ap, ◌∙◌, subst, Bool, true, false, ◌&&◌, Option, none, some, arith,
}
use hwarangdo.Types.Operators.{Operator}
use hwarangdo.Mir.{ValueSymbol, Place, place_symbol}
use hwarangdo.Mir.Hir.{
  Expr, literal_expr, load_expr, unary_expr, binary_expr, cast_expr, method_call_expr,
  runtime_call_expr, spawn_expr, view_expr, match_expr, ternary_expr, unit_value, payload_value,
  struct_init_expr, self_expr, other_expr, Exprs, no_exprs, exprs, PlaceExpr, local_place,
  param_place, array_access_place, field_place, other_place, Receiver, self_receiver_expr,
  root_expr, other_receiver, load_receiver, place_receiver, Stmt, block_stmt, expr_stmt,
  local_decl_stmt, local_init_stmt, if_stmt, if_else_stmt, while_stmt, for_range_stmt, return_stmt,
  return_value_stmt, break_stmt, continue_stmt, on_exit_stmt, quit_stmt, other_stmt, switch_stmt,
  value_transfer_stmt, destroy_stmt, assign_stmt, compound_assign_stmt, Stmts, no_stmts, stmts_of,
  Cases, no_cases, cases_of,
}
use hwarangdo.Mir.State.{Builder, Lowered, internal, undefined, done, Lower, continue_with, deref}
use hwarangdo.Mir.Branches.{SwitchData, has_default, make_switch_stmt, make_match}
use hwarangdo.Mir.Lower.{
  make_compound_assign, lower_expr, lower_args, lower_place, lower_receiver_to_place, lower_stmt,
  lower_stmts, lower_cases,
}
use hwarangdo.Mir.Fit.{
  is_straight, has_symbol, is_fit, are_fit, is_fit_place, is_fit_receiver, is_fit_stmt,
  are_fit_stmts, are_fit_cases,
}
use hwarangdo.Mir.Wf.{Post, returns, Post-bind}
use hwarangdo.Mir.Contexts.{Open, Safe}
use hwarangdo.Mir.Steps.{
  pure-Safe, Quiet-Safe, bind-Safe, emit-Safe, unless_ended-Safe, make_block_stmt-Safe,
  make_local_decl-Safe, make_return-Safe, lower_break-Safe, lower_continue-Safe,
  make_value_transfer-Safe, make_assign-Safe,
}
use hwarangdo.Mir.Handlers.{make_if-Safe, make_while-Safe, make_ternary-Safe, make_for-Safe}
use hwarangdo.Mir.Cases.{
  SafeCases, make_case-Safe, no_cases-Safe, more_cases-Safe, make_switch_stmt-Safe, make_match-Safe,
}
use hwarangdo.Mir.Straight.{and_left, and_right, self_place-Quiet, lower_self-Quiet, straight-Quiet}

and3_middle : (a b c : Bool) → (a && b && c) ≡ true → b ≡ true
and3_middle a b c h = ground (arith, h)

continue_with-inv :
    {A B : Type 0} (r : Lowered A) (k : A → Lower B) {b' : Builder} {v : B}
    → continue_with r k ≡ done b' v
    → (b : Builder) × (a : A) × (r ≡ done b a) × (k a b ≡ done b' v)
continue_with-inv (done b a) k e = (b, a, refl, e)
continue_with-inv internal k e = absurd (cc e)
continue_with-inv undefined k e = absurd (cc e)

abbrev is_some {ℓ} : {A : Type ℓ} → Option A → Bool
is_some none = false
is_some (some a) = true

result : {A : Type 0} → A → Lowered A → A
result d (done b a) = a
result d internal = d
result d undefined = d

same_result : {A : Type 0} {b b' : Builder} {v w : A} → done b v ≡ done b' w → v ≡ w
unfolding result
same_result {v = v} e = ap (result v) e

-- The lowered place has a symbol where `has_symbol` says so.
place_symbol-lower :
    (p : PlaceExpr) (b b' : Builder) (v : Place)
    → has_symbol p ≡ true
    → lower_place p b ≡ done b' v
    → is_some (place_symbol v) ≡ true
unfolding has_symbol lower_expr place_symbol
place_symbol-lower (local_place s) b b' v h e =
    ap (λ w. is_some (place_symbol w)) (sym (same_result e))
place_symbol-lower (param_place s) b b' v h e =
    ap (λ w. is_some (place_symbol w)) (sym (same_result e))
place_symbol-lower (array_access_place p i t) b b' v h e =
    let (b1, base, e1, e2) = continue_with-inv (lower_place p b) _ e in
    let (b2, index, e3, e4) = continue_with-inv (lower_expr i b1) _ e2 in
    ap (λ w. is_some (place_symbol w)) (sym (same_result e4)) ∙ place_symbol-lower p b b1 base h e1
place_symbol-lower (field_place r s t) b b' v h e =
    let (b1, base, e1, e2) = continue_with-inv (lower_receiver_to_place r b) _ e in
    ap (λ w. is_some (place_symbol w)) (sym (same_result e2))
place_symbol-lower other_place b b' v h e = absurd (cc h)

Post-and :
    {A : Type 0} {P : A → Builder → Type 0} {R : A → Type 0} {r : Lowered A}
    → Post P r
    → ((b : Builder) (a : A) → r ≡ done b a → R a)
    → Post (λ a b. P a b × R a) r
Post-and (returns {b} {a} h) f = returns (h, f b a refl)

Post-deref :
    {A : Type 0} (P : Builder → Type 0) (b : Builder) (o : Option A)
    → is_some o ≡ true
    → P b
    → Post (λ _. P) (deref o b)
Post-deref P b none h k = absurd (cc h)
Post-deref P b (some a) h k = returns k

make_compound_assign-Safe :
    {lo ma : Bool} (p : PlaceExpr) (e : Expr) (op : Operator)
    → has_symbol p ≡ true
    → Safe lo ma (lower_place p)
    → Safe lo ma (lower_expr e)
    → Safe lo ma (make_compound_assign (lower_place p) (lower_expr e) op)
unfolding make_compound_assign
make_compound_assign-Safe p e op s hp he c f q b w =
    Post-bind (Post-and (hp c f q b w) (λ b' v. place_symbol-lower p b b' v s)) λ lhs b1 (w1, k).
      Post-bind (Post-deref (Open c q) b1 (place_symbol lhs) k w1)
        λ t b2 w2. Post-bind (he c f q b2 w2) λ rhs b3 w3. emit-Safe _ c f q b3 w3

mutual
  unfolding lower_expr is_fit

  lower_expr-Safe : (lo ma : Bool) (e : Expr) → is_fit lo ma e ≡ true → Safe lo ma (lower_expr e)
  lower_expr-Safe lo ma (literal_expr l t) h = pure-Safe _
  lower_expr-Safe lo ma (load_expr p t) h = bind-Safe (lower_place-Safe lo ma p h) λ v. pure-Safe _
  lower_expr-Safe lo ma (unary_expr op e t) h =
      bind-Safe (lower_expr-Safe lo ma e h) λ v. pure-Safe _
  lower_expr-Safe lo ma (binary_expr op l r t o) h =
      bind-Safe (lower_expr-Safe lo ma l (and_left _ _ h))
        λ v. bind-Safe (lower_expr-Safe lo ma r (and_right (is_fit lo ma l) _ h)) λ u. pure-Safe _
  lower_expr-Safe lo ma (cast_expr e s t) h = bind-Safe (lower_expr-Safe lo ma e h) λ v. pure-Safe _
  lower_expr-Safe lo ma (method_call_expr e es m t) h =
      bind-Safe (lower_args-Safe lo ma es (and_left _ _ h)) λ vs.
        bind-Safe (lower_expr-Safe lo ma e (and_right (are_fit lo ma es) _ h)) λ v. pure-Safe _
  lower_expr-Safe lo ma (runtime_call_expr s es t) h =
      bind-Safe (lower_args-Safe lo ma es h) λ v. pure-Safe _
  lower_expr-Safe lo ma (spawn_expr n m es t) h =
      bind-Safe (lower_args-Safe lo ma es h) λ v. pure-Safe _
  lower_expr-Safe lo ma (view_expr n e t) h = bind-Safe (lower_expr-Safe lo ma e h) λ v. pure-Safe _
  lower_expr-Safe lo ma (match_expr e t cs r) h =
      let d : has_default cs ≡ true = and3_middle (is_straight e) _ (are_fit_cases lo true cs) h in
      subst (λ x. Safe lo ma (make_match r t (lower_expr e) x (λ d temp. lower_cases d temp cs)))
        (sym d)
        (make_match-Safe r t (straight-Quiet e (and_left _ _ (and_left _ _ h))) (λ d temp.
          lower_cases-Safe lo true d temp cs (and_right (is_straight e && has_default cs) _ h)))
  lower_expr-Safe lo ma (ternary_expr c l r t) h =
      make_ternary-Safe t (straight-Quiet c (and_left _ _ (and_left _ _ h)))
        (straight-Quiet l (and3_middle (is_straight c) _ (is_straight r) h))
        (straight-Quiet r (and_right (is_straight c && is_straight l) _ h))
  lower_expr-Safe lo ma (unit_value s t) h = pure-Safe _
  lower_expr-Safe lo ma (payload_value s e t) h =
      bind-Safe (lower_expr-Safe lo ma e h) λ v. pure-Safe _
  lower_expr-Safe lo ma (struct_init_expr es m t) h =
      bind-Safe (lower_args-Safe lo ma es h) λ v. pure-Safe _
  lower_expr-Safe lo ma (self_expr k o a) h = Quiet-Safe (lower_self-Quiet k o a)
  lower_expr-Safe lo ma other_expr h = absurd (cc h)

  lower_args-Safe :
      (lo ma : Bool) (es : Exprs) → are_fit lo ma es ≡ true → Safe lo ma (lower_args es)
  lower_args-Safe lo ma no_exprs h = pure-Safe _
  lower_args-Safe lo ma (exprs e es) h =
      bind-Safe (lower_expr-Safe lo ma e (and_left _ _ h))
        λ v. bind-Safe (lower_args-Safe lo ma es (and_right (is_fit lo ma e) _ h)) λ vs. pure-Safe _

  lower_place-Safe :
      (lo ma : Bool) (p : PlaceExpr) → is_fit_place lo ma p ≡ true → Safe lo ma (lower_place p)
  lower_place-Safe lo ma (local_place s) h = pure-Safe _
  lower_place-Safe lo ma (param_place s) h = pure-Safe _
  lower_place-Safe lo ma (array_access_place p e t) h =
      bind-Safe (lower_place-Safe lo ma p (and_left _ _ h)) λ v.
        bind-Safe (lower_expr-Safe lo ma e (and_right (is_fit_place lo ma p) _ h)) λ u. pure-Safe _
  lower_place-Safe lo ma (field_place r s t) h =
      bind-Safe (lower_receiver-Safe lo ma r h) λ v. pure-Safe _
  lower_place-Safe lo ma other_place h = absurd (cc h)

  lower_receiver-Safe :
      (lo ma : Bool) (r : Receiver)
      → is_fit_receiver lo ma r ≡ true
      → Safe lo ma (lower_receiver_to_place r)
  lower_receiver-Safe lo ma self_receiver_expr h = Quiet-Safe self_place-Quiet
  lower_receiver-Safe lo ma root_expr h = pure-Safe _
  lower_receiver-Safe lo ma other_receiver h = absurd (cc h)
  lower_receiver-Safe lo ma (load_receiver p) h = lower_place-Safe lo ma p h
  lower_receiver-Safe lo ma (place_receiver p) h = lower_place-Safe lo ma p h

  lower_stmt-Safe :
      (lo ma : Bool) (s : Stmt) → is_fit_stmt lo ma s ≡ true → Safe lo ma (lower_stmt s)
  lower_stmt-Safe lo ma (block_stmt ss) h = make_block_stmt-Safe (lower_stmts-Safe lo ma ss h)
  lower_stmt-Safe lo ma (expr_stmt e) h = bind-Safe (lower_expr-Safe lo ma e h) λ v. emit-Safe _
  lower_stmt-Safe lo ma (local_decl_stmt none s) h = absurd (cc h)
  lower_stmt-Safe lo ma (local_decl_stmt (some t) s) h = make_local_decl-Safe t s (pure-Safe _)
  lower_stmt-Safe lo ma (local_init_stmt none s e) h = absurd (cc h)
  lower_stmt-Safe lo ma (local_init_stmt (some t) s e) h =
      make_local_decl-Safe t s (bind-Safe (lower_expr-Safe lo ma e h) λ v. pure-Safe _)
  lower_stmt-Safe lo ma (if_stmt c ss) h =
      make_if-Safe (lower_expr-Safe lo ma c (and_left _ _ h))
        (make_block_stmt-Safe (lower_stmts-Safe lo ma ss (and_right (is_fit lo ma c) _ h)))
        (pure-Safe _)
  lower_stmt-Safe lo ma (if_else_stmt c ss es) h =
      make_if-Safe (lower_expr-Safe lo ma c (and_left _ _ (and_left _ _ h)))
        (make_block_stmt-Safe
          (lower_stmts-Safe lo ma ss (and3_middle (is_fit lo ma c) _ (are_fit_stmts lo ma es) h)))
        (make_block_stmt-Safe
          (lower_stmts-Safe lo ma es (and_right (is_fit lo ma c && are_fit_stmts lo ma ss) _ h)))
  lower_stmt-Safe lo ma (while_stmt c ss) h =
      make_while-Safe (lower_expr-Safe lo ma c (and_left _ _ h))
        (make_block_stmt-Safe (lower_stmts-Safe true ma ss (and_right (is_fit lo ma c) _ h)))
  lower_stmt-Safe lo ma (for_range_stmt i t start end step ss) h =
      let h3 = and_left (is_straight start && is_straight end && is_straight step) _ h in
      make_for-Safe i t (straight-Quiet start (and_left _ _ (and_left _ _ h3)))
        (straight-Quiet end (and3_middle (is_straight start) _ (is_straight step) h3))
        (straight-Quiet step (and_right (is_straight start && is_straight end) _ h3))
        (make_block_stmt-Safe (
          lower_stmts-Safe true ma ss
            (and_right (is_straight start && is_straight end && is_straight step) _ h)))
  lower_stmt-Safe lo ma return_stmt h = make_return-Safe (pure-Safe _)
  lower_stmt-Safe lo ma (return_value_stmt e) h =
      make_return-Safe (bind-Safe (lower_expr-Safe lo ma e h) λ v. pure-Safe _)
  lower_stmt-Safe lo ma break_stmt h = lower_break-Safe h
  lower_stmt-Safe lo ma continue_stmt h = lower_continue-Safe h
  lower_stmt-Safe lo ma on_exit_stmt h = pure-Safe _
  lower_stmt-Safe lo ma quit_stmt h = emit-Safe _
  lower_stmt-Safe lo ma other_stmt h = absurd (cc h)
  lower_stmt-Safe lo ma (switch_stmt e t cs) h =
      let d : has_default cs ≡ true = and3_middle (is_straight e) _ (are_fit_cases lo ma cs) h in
      subst
        (λ x. Safe lo ma (make_switch_stmt t (lower_expr e) x (λ d temp. lower_cases d temp cs)))
        (sym d)
        (make_switch_stmt-Safe t (straight-Quiet e (and_left _ _ (and_left _ _ h))) (λ d temp.
          lower_cases-Safe lo ma d temp cs (and_right (is_straight e && has_default cs) _ h)))
  lower_stmt-Safe lo ma (value_transfer_stmt e) h =
      make_value_transfer-Safe (and_left _ _ h) (lower_expr-Safe lo ma e (and_right ma _ h))
  lower_stmt-Safe lo ma (destroy_stmt e t) h =
      bind-Safe (lower_expr-Safe lo ma e h) λ v. emit-Safe _
  lower_stmt-Safe lo ma (assign_stmt p e) h =
      make_assign-Safe (lower_place-Safe lo ma p (and_left _ _ h))
        (lower_expr-Safe lo ma e (and_right (is_fit_place lo ma p) _ h))
  lower_stmt-Safe lo ma (compound_assign_stmt p e op) h =
      make_compound_assign-Safe p e op (and3_middle (is_fit_place lo ma p) _ (is_fit lo ma e) h)
        (lower_place-Safe lo ma p (and_left _ _ (and_left _ _ h)))
        (lower_expr-Safe lo ma e (and_right (is_fit_place lo ma p && has_symbol p) _ h))

  pub lower_stmts-Safe :
      (lo ma : Bool) (ss : Stmts) → are_fit_stmts lo ma ss ≡ true → Safe lo ma (lower_stmts ss)
  lower_stmts-Safe lo ma no_stmts h = pure-Safe _
  lower_stmts-Safe lo ma (stmts_of s ss) h = unless_ended-Safe (
      bind-Safe (lower_stmt-Safe lo ma s (and_left _ _ h))
        λ _. lower_stmts-Safe lo ma ss (and_right (is_fit_stmt lo ma s) _ h))

  lower_cases-Safe :
      (lo ma : Bool) (d : SwitchData) (temp : ValueSymbol) (cs : Cases)
      → are_fit_cases lo ma cs ≡ true
      → SafeCases lo ma d (lower_cases d temp cs)
  lower_cases-Safe lo ma d temp no_cases h = no_cases-Safe d
  lower_cases-Safe lo ma d temp (cases_of k s ss cs) h =
      more_cases-Safe d
        (make_case-Safe d temp k s
          (make_block_stmt-Safe (lower_stmts-Safe lo ma ss (and_left _ _ h))))
        (lower_cases-Safe lo ma d temp cs (and_right (are_fit_stmts lo ma ss) _ h))
