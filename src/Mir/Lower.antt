-- ===== src/Mir/Lower.antt =====
-- The lowering of expressions, places, statements and functions: src/IR/MIR/{MIRExprBuilder,MIRPlace,
-- MIRStmtBuilder,MIRBuilder}.cpp. A handler takes the lowerings of its parts as actions. Where C++
-- leaves the order of two arguments' lowerings open, it is from left to right. The line that
-- `lowerReturn` prints is left out.
use hwarangdo.Prelude.{true, false, not, Option, none, some, List, [], ◌∷◌, ◌++◌, if◌then◌else◌}
use hwarangdo.Types.{TypeSymbol, is_string}
use hwarangdo.Types.Operators.{Operator, internal}
use hwarangdo.Mir.{
  ValueSymbol, symbol_type, Category, borrowed, owned_temp, Value, binary, load, literal, unary,
  cast, call, spawn, view, struct_init, unit_variant, payload_variant, runtime_call, Values,
  no_values, values, Place, local_at, param_at, array_at, field_at, root_at, make_value,
  with_category, place_symbol, clone_place, expr, assign, local_decl, quit, destroy, Case, goto,
  return, MethodSymbol, Function,
}
use hwarangdo.Mir.Hir.{
  SelfKind, super, Expr, literal_expr, load_expr, unary_expr, binary_expr, cast_expr,
  method_call_expr, runtime_call_expr, spawn_expr, view_expr, match_expr, ternary_expr, unit_value,
  payload_value, struct_init_expr, self_expr, other_expr, Exprs, no_exprs, exprs, PlaceExpr,
  local_place, param_place, array_access_place, field_place, other_place, Receiver,
  self_receiver_expr, root_expr, other_receiver, load_receiver, place_receiver, Stmt, block_stmt,
  expr_stmt, local_decl_stmt, local_init_stmt, if_stmt, if_else_stmt, while_stmt, for_range_stmt,
  return_stmt, return_value_stmt, break_stmt, continue_stmt, on_exit_stmt, quit_stmt, other_stmt,
  switch_stmt, value_transfer_stmt, destroy_stmt, assign_stmt, compound_assign_stmt, Stmts,
  no_stmts, stmts_of, Cases, no_cases, cases_of,
}
use hwarangdo.Mir.State.{
  Builder, Lowered, internal, done, Lower, pure, continue_with, ◌>>=◌, ◌>>◌, when, deref, current,
  set_current, make_block, has_terminator, terminate, terminate_current, emit, current_scope,
  enter_scope, exit_scope, add_local, emit_cleanup, emit_cleanup_until, last_loop, last_match,
}
use hwarangdo.Mir.Branches.{
  SwitchData, has_default, make_case, make_for, make_if, make_match, make_switch_stmt, make_ternary,
  make_while,
}

-- `lowerBlock`, with the loop over its statements.
unfoldable pub make_block_stmt : Lower (Unit {0}) → Lower (Unit {0})
make_block_stmt lower_stmts = do
  scope ← enter_scope
  lower_stmts
  id ← current
  ended ← has_terminator id
  when (not ended) (emit_cleanup scope)
  exit_scope

-- A statement of a block is skipped, with the rest, when the current block has ended.
unfoldable pub unless_ended : Lower (Unit {0}) → Lower (Unit {0})
unless_ended m = do id ← current; ended ← has_terminator id; when (not ended) m

unfoldable pub make_local_decl :
    Option TypeSymbol → ValueSymbol → Lower (Option Value) → Lower (Unit {0})
make_local_decl none s lower_init b = internal
make_local_decl (some type) s lower_init b =
    (do init ← lower_init; scope ← current_scope; add_local scope s; emit (local_decl type s init))
      b

unfoldable pub make_return : Lower (Option Value) → Lower (Unit {0})
make_return lower_value = do
  v ← lower_value
  emit_cleanup_until 0
  id ← current
  terminate id (return v)

unfoldable pub lower_break : Lower (Unit {0})
lower_break = do
  l ← last_loop
  emit_cleanup_until l.break_scope
  id ← current
  terminate id (goto l.break_target)

unfoldable pub lower_continue : Lower (Unit {0})
lower_continue = do
  l ← last_loop
  emit_cleanup_until l.continue_scope
  id ← current
  terminate id (goto l.continue_target)

-- The cast to `StringType` is applied to an `HIRType`, which is of another class: it always fails, and
-- the value keeps its category.
unfoldable pub make_value_transfer : Lower Value → Lower (Unit {0})
make_value_transfer lower_value = do
  v ← lower_value
  m ← last_match
  emit (assign (local_at m.result) v)
  id ← current
  terminate id (goto m.join)

unfoldable pub make_assign : Lower Place → Lower Value → Lower (Unit {0})
make_assign lower_lhs lower_rhs = do lhs ← lower_lhs; rhs ← lower_rhs; emit (assign lhs rhs)

-- `lhs->symbol` is dereferenced.
unfoldable pub make_compound_assign : Lower Place → Lower Value → Operator → Lower (Unit {0})
make_compound_assign lower_lhs lower_rhs op = do
  lhs ← lower_lhs
  s ← deref (place_symbol lhs)
  rhs ← lower_rhs
  let type = symbol_type s
  emit
      (assign lhs (make_value (binary (make_value (load (clone_place lhs)) type) rhs op type) type))

unfoldable pub self_place : Lower Place
self_place b = elim b.method [
  | none ↦ done b (param_at none)
  | some m ↦ done b (param_at m.self_receiver)
]

unfoldable pub lower_self : SelfKind → TypeSymbol → TypeSymbol → Lower Value
lower_self kind owner access = do
  m ← λ b. deref b.method b
  pure (make_value (load (param_at m.self_receiver)) (elim kind [ super ↦ access | _ ↦ owner ]))

-- Literals, loads and binary expressions of a string type set their category again.
unfoldable pub categorise : Category → TypeSymbol → Value → Value
categorise c t v = if is_string t then with_category c v else v

unfoldable mutual
  pub lower_expr : Expr → Lower Value
  lower_expr (literal_expr l t) = pure (categorise borrowed t (make_value (literal l) t))
  lower_expr (load_expr p t) = do
    place ← lower_place p
    pure (categorise borrowed t (make_value (load place) t))
  lower_expr (unary_expr op e t) = do v ← lower_expr e; pure (make_value (unary v op) t)
  lower_expr (binary_expr op l r t operand) = do
    left ← lower_expr l
    right ← lower_expr r
    pure (categorise owned_temp t (make_value (binary left right op operand) t))
  lower_expr (cast_expr e from to) = do v ← lower_expr e; pure (make_value (cast v from to) to)
  lower_expr (method_call_expr receiver xs m t) = do
    args ← lower_args xs
    base ← lower_expr receiver
    pure (make_value (call base args m) t)
  lower_expr (runtime_call_expr s xs t) = do
    args ← lower_args xs
    pure (make_value (runtime_call s args) t)
  lower_expr (spawn_expr entity m xs t) = do
    args ← lower_args xs
    pure (make_value (spawn entity m args) t)
  lower_expr (view_expr entity e t) = do v ← lower_expr e; pure (make_value (view entity v) t)
  lower_expr (match_expr c type cs t) =
      make_match t type (lower_expr c) (has_default cs) (λ d temp. lower_cases d temp cs)
  lower_expr (ternary_expr c l r t) = make_ternary t (lower_expr c) (lower_expr l) (lower_expr r)
  lower_expr (unit_value s t) = pure (make_value (unit_variant s) t)
  lower_expr (payload_value s e t) = do v ← lower_expr e; pure (make_value (payload_variant s v) t)
  lower_expr (struct_init_expr xs m t) = do
    args ← lower_args xs
    pure (make_value (struct_init t m args) t)
  lower_expr (self_expr kind owner access) = lower_self kind owner access
  lower_expr other_expr = λ b. internal

  pub lower_args : Exprs → Lower Values
  lower_args no_exprs = pure no_values
  lower_args (exprs e es) = do v ← lower_expr e; vs ← lower_args es; pure (values v vs)

  pub lower_place : PlaceExpr → Lower Place
  lower_place (local_place s) = pure (local_at s)
  lower_place (param_place s) = pure (param_at (some s))
  lower_place (array_access_place p e t) = do
    base ← lower_place p
    index ← lower_expr e
    pure (array_at base index (place_symbol base) t)
  lower_place (field_place r s t) = do base ← lower_receiver_to_place r; pure (field_at s base t)
  lower_place other_place = λ b. internal

  pub lower_receiver_to_place : Receiver → Lower Place
  lower_receiver_to_place self_receiver_expr = self_place
  lower_receiver_to_place root_expr = pure root_at
  lower_receiver_to_place (load_receiver p) = lower_place p
  lower_receiver_to_place (place_receiver p) = lower_place p
  lower_receiver_to_place other_receiver = λ b. internal

  pub lower_stmt : Stmt → Lower (Unit {0})
  lower_stmt (block_stmt ss) = make_block_stmt (lower_stmts ss)
  lower_stmt (expr_stmt e) = do v ← lower_expr e; emit (expr v)
  lower_stmt (local_decl_stmt t s) = make_local_decl t s (pure none)
  lower_stmt (local_init_stmt t s e) = make_local_decl t s (do v ← lower_expr e; pure (some v))
  lower_stmt (if_stmt c ss) = make_if (lower_expr c) (make_block_stmt (lower_stmts ss)) (pure tt)
  lower_stmt (if_else_stmt c ss es) =
      make_if (lower_expr c) (make_block_stmt (lower_stmts ss)) (make_block_stmt (lower_stmts es))
  lower_stmt (while_stmt c ss) = make_while (lower_expr c) (make_block_stmt (lower_stmts ss))
  lower_stmt (for_range_stmt i t start end step ss) =
      make_for i t (lower_expr start) (lower_expr end) (lower_expr step)
        (make_block_stmt (lower_stmts ss))
  lower_stmt return_stmt = make_return (pure none)
  lower_stmt (return_value_stmt e) = make_return (do v ← lower_expr e; pure (some v))
  lower_stmt break_stmt = lower_break
  lower_stmt continue_stmt = lower_continue
  lower_stmt on_exit_stmt = pure tt
  lower_stmt quit_stmt = emit quit
  lower_stmt other_stmt = λ b. internal
  lower_stmt (switch_stmt c type cs) =
      make_switch_stmt type (lower_expr c) (has_default cs) (λ d temp. lower_cases d temp cs)
  lower_stmt (value_transfer_stmt e) = make_value_transfer (lower_expr e)
  lower_stmt (destroy_stmt e t) = do v ← lower_expr e; emit (destroy v t)
  lower_stmt (assign_stmt p e) = make_assign (lower_place p) (lower_expr e)
  lower_stmt (compound_assign_stmt p e op) = make_compound_assign (lower_place p) (lower_expr e) op

  pub lower_stmts : Stmts → Lower (Unit {0})
  lower_stmts no_stmts = pure tt
  lower_stmts (stmts_of s ss) = unless_ended (lower_stmt s >> lower_stmts ss)

  pub lower_cases : SwitchData → ValueSymbol → Cases → Lower (List Case)
  lower_cases d temp no_cases = pure []
  lower_cases d temp (cases_of kind selectors ss cs) = do
    cases ← make_case d temp kind selectors (make_block_stmt (lower_stmts ss))
    more ← lower_cases d temp cs
    pure (cases ++ more)

-- The builder as `lowerMethod` finds it: `currentFunc` is a new function.
abbrev pub new_function : Option MethodSymbol → Builder
new_function m = record {
  method = m;
  blocks = [];
  next_temp = 0;
  current_block = 0;
  scopes = [];
  loops = [];
  matches = [];
}

unfoldable pub lower_body : Stmts → Lower (Unit {0})
lower_body ss = do
  id ← make_block
  set_current id
  scope ← enter_scope
  make_block_stmt (lower_stmts ss)
  exit_scope
  terminate_current (return none)

-- `lowerMethod`: the function's `entry` is its first block.
unfoldable pub lower_method : TypeSymbol → MethodSymbol → Stmts → Lowered Function
lower_method owner m ss = continue_with (lower_body ss (new_function (some m))) λ _ b.
    done b (record {
      method = some m;
      owner = owner;
      entry = some 0;
      is_default_init = false;
      blocks = b.blocks;
      next_temp = b.next_temp;
    })

-- The function for the fields' defaults, in `lowerType`. There is no scope around its block.
unfoldable pub lower_default_init : TypeSymbol → Stmts → Lowered Function
lower_default_init owner ss =
    continue_with
      ((do
        id ← make_block
        set_current id
        make_block_stmt (lower_stmts ss)
        terminate_current (return none))
        (new_function none))
      λ _ b. done b (record {
        method = none;
        owner = owner;
        entry = none;
        is_default_init = true;
        blocks = b.blocks;
        next_temp = b.next_temp;
      })

unfoldable pub lower_methods : TypeSymbol → List (MethodSymbol × Stmts) → Lower (List Function)
lower_methods owner [] = pure []
lower_methods owner ((m, ss) ∷ ms) = do
  f ← λ b. lower_method owner m ss
  fs ← lower_methods owner ms
  pure (f ∷ fs)

-- `lowerType`: what it appends to the program's functions.
unfoldable pub lower_type :
    TypeSymbol → Stmts → List (MethodSymbol × Stmts) → Lowered (List Function)
lower_type owner defaults ms =
    continue_with (lower_default_init owner defaults)
      λ f. lower_methods owner ms >>= λ fs. pure (f ∷ fs)
