-- ===== src/Mir/Straight.antt =====
-- Straight expressions, which make their value and no code.
use hwarangdo.Prelude.{some, ◌≡◌, refl, ap, ◌∙◌, Bool, true, false, ◌&&◌, arith}
use hwarangdo.Types.{TypeSymbol}
use hwarangdo.Mir.{Value, param_at, MethodSymbol}
use hwarangdo.Mir.Hir.{
  SelfKind, Expr, literal_expr, load_expr, unary_expr, binary_expr, cast_expr, method_call_expr,
  runtime_call_expr, spawn_expr, view_expr, match_expr, ternary_expr, unit_value, payload_value,
  struct_init_expr, self_expr, other_expr, Exprs, no_exprs, exprs, PlaceExpr, local_place,
  param_place, array_access_place, field_place, other_place, Receiver, self_receiver_expr,
  root_expr, other_receiver, load_receiver, place_receiver,
}
use hwarangdo.Mir.State.{Builder, done, Lower, pure, ◌>>=◌, deref}
use hwarangdo.Mir.Lower.{
  self_place, lower_self, lower_expr, lower_args, lower_place, lower_receiver_to_place,
}
use hwarangdo.Mir.Fit.{is_straight, are_straight, is_straight_place, is_straight_receiver}
use hwarangdo.Mir.Wf.{continue_with-done}
use hwarangdo.Mir.Contexts.{Quiet}

pure-Quiet : {A : Type 0} (a : A) → Quiet (pure a)
pure-Quiet a b s e = (a, refl)

bind-Quiet :
    {A B : Type 0} {m : Lower A} {k : A → Lower B}
    → Quiet m
    → ((a : A) → Quiet (k a))
    → Quiet (m >>= k)
bind-Quiet {k = k} h g b s e =
    let (a, e1) = h b s e in let (v, e2) = g a b s e in (v, continue_with-done k e1 ∙ e2)

map-Quiet : {A B : Type 0} {m : Lower A} (f : A → B) → Quiet m → Quiet (m >>= λ a. pure (f a))
map-Quiet f h = bind-Quiet h (λ a. pure-Quiet (f a))

pub and_left : (a c : Bool) → (a && c) ≡ true → a ≡ true
and_left true c h = refl
and_left false c h = absurd (cc h)

pub and_right : (a c : Bool) → (a && c) ≡ true → c ≡ true
and_right true c h = h
and_right false c h = absurd (cc h)

pub self_place-Quiet : Quiet self_place
unfolding self_place
self_place-Quiet b s e = (param_at s.self_receiver, ground (arith, e))

deref-Quiet : Quiet (λ b. deref b.method b)
deref-Quiet b s e = (s, ap (λ m. deref m b) e)

pub lower_self-Quiet : (k : SelfKind) (o a : TypeSymbol) → Quiet (lower_self k o a)
unfolding lower_self
lower_self-Quiet k o a = map-Quiet _ deref-Quiet

mutual
  unfolding lower_expr is_straight

  value_only : (e : Expr) → is_straight e ≡ true → Quiet (lower_expr e)
  value_only (literal_expr l t) h = pure-Quiet _
  value_only (load_expr p t) h = map-Quiet _ (lower_place-Quiet p h)
  value_only (unary_expr op e t) h = map-Quiet _ (value_only e h)
  value_only (binary_expr op l r t o) h =
      bind-Quiet (value_only l (and_left _ _ h))
        λ v. map-Quiet _ (value_only r (and_right (is_straight l) _ h))
  value_only (cast_expr e s t) h = map-Quiet _ (value_only e h)
  value_only (method_call_expr e es m t) h =
      bind-Quiet (lower_args-Quiet es (and_left _ _ h))
        λ v. map-Quiet _ (value_only e (and_right (are_straight es) _ h))
  value_only (runtime_call_expr s es t) h = map-Quiet _ (lower_args-Quiet es h)
  value_only (spawn_expr n m es t) h = map-Quiet _ (lower_args-Quiet es h)
  value_only (view_expr n e t) h = map-Quiet _ (value_only e h)
  value_only (match_expr c t cs r) h = absurd (cc h)
  value_only (ternary_expr c l r t) h = absurd (cc h)
  value_only (unit_value s t) h = pure-Quiet _
  value_only (payload_value s e t) h = map-Quiet _ (value_only e h)
  value_only (struct_init_expr es m t) h = map-Quiet _ (lower_args-Quiet es h)
  value_only (self_expr k o a) h = lower_self-Quiet k o a
  value_only other_expr h = absurd (cc h)

  lower_args-Quiet : (es : Exprs) → are_straight es ≡ true → Quiet (lower_args es)
  lower_args-Quiet no_exprs h = pure-Quiet _
  lower_args-Quiet (exprs e es) h =
      bind-Quiet (value_only e (and_left _ _ h))
        λ v. map-Quiet _ (lower_args-Quiet es (and_right (is_straight e) _ h))

  lower_place-Quiet : (p : PlaceExpr) → is_straight_place p ≡ true → Quiet (lower_place p)
  lower_place-Quiet (local_place s) h = pure-Quiet _
  lower_place-Quiet (param_place s) h = pure-Quiet _
  lower_place-Quiet (array_access_place p e t) h =
      bind-Quiet (lower_place-Quiet p (and_left _ _ h))
        λ v. map-Quiet _ (value_only e (and_right (is_straight_place p) _ h))
  lower_place-Quiet (field_place r s t) h = map-Quiet _ (lower_receiver-Quiet r h)
  lower_place-Quiet other_place h = absurd (cc h)

  lower_receiver-Quiet :
      (r : Receiver) → is_straight_receiver r ≡ true → Quiet (lower_receiver_to_place r)
  lower_receiver-Quiet self_receiver_expr h = self_place-Quiet
  lower_receiver-Quiet root_expr h = pure-Quiet _
  lower_receiver-Quiet other_receiver h = absurd (cc h)
  lower_receiver-Quiet (load_receiver p) h = lower_place-Quiet p h
  lower_receiver-Quiet (place_receiver p) h = lower_place-Quiet p h

pub straight-Quiet : (e : Expr) → is_straight e ≡ true → Quiet (lower_expr e)
straight-Quiet e h = value_only e h

-- The lowering of a straight expression, in a method, ends with a value, and leaves the builder as it
-- was: it emits no statement and makes no block. An expression is straight if it holds no ternary, no
-- match, and none of the expressions, places and receivers that have no handler, whose lowering is an
-- internal error.
pub lower_expr-straight :
    (e : Expr) (b : Builder) (m : MethodSymbol)
    → is_straight e ≡ true
    → b.method ≡ some m
    → (v : Value) × (lower_expr e b ≡ done b v)
lower_expr-straight e b m h k = straight-Quiet e h b m k
