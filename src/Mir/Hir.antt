-- ===== src/Mir/Hir.antt =====
-- The builder's input: include/hrd/IR/HIR/{HIRExpr,HIRStmt,HIRPattern}.h, less the source spans and
-- what the builder does not read. A literal is known by a number, as are variants and methods.
use hwarangdo.Prelude.{ℕ, Option, List}
use hwarangdo.Types.{TypeSymbol}
use hwarangdo.Types.Operators.{Operator}
use hwarangdo.Mir.{ValueSymbol}

-- `HIRDefaultKind`
pub data DefaultKind : Type 0 where
  not_default default_case wild_card : DefaultKind

-- `HIRSelfKind`
pub data SelfKind : Type 0 where
  this super self : SelfKind

-- `HIRCasePattern::Selector`
pub data Selector : Type 0 where
  literal_selector unit_selector : ℕ → Selector
  payload_selector : ℕ → ValueSymbol → Selector
  wildcard_selector : Selector

mutual
  -- The type of an expression is its last argument. `other_expr` is a kind that `lowerExpr` refuses.
  pub data Expr : Type 0 where
    literal_expr : ℕ → TypeSymbol → Expr
    load_expr : PlaceExpr → TypeSymbol → Expr
    unary_expr : Operator → Expr → TypeSymbol → Expr
    binary_expr : Operator → Expr → Expr → TypeSymbol → TypeSymbol → Expr
    cast_expr : Expr → TypeSymbol → TypeSymbol → Expr
    method_call_expr : Expr → Exprs → ℕ → TypeSymbol → Expr
    runtime_call_expr : ℕ → Exprs → TypeSymbol → Expr
    spawn_expr : TypeSymbol → Option ℕ → Exprs → TypeSymbol → Expr
    view_expr : TypeSymbol → Expr → TypeSymbol → Expr
    match_expr : Expr → TypeSymbol → Cases → TypeSymbol → Expr
    ternary_expr : Expr → Expr → Expr → TypeSymbol → Expr
    unit_value : ℕ → TypeSymbol → Expr
    payload_value : ℕ → Expr → TypeSymbol → Expr
    struct_init_expr : Exprs → Option ℕ → TypeSymbol → Expr
    self_expr : SelfKind → TypeSymbol → TypeSymbol → Expr
    other_expr : Expr

  pub data Exprs : Type 0 where
    no_exprs : Exprs
    exprs : Expr → Exprs → Exprs

  pub data PlaceExpr : Type 0 where
    local_place : ValueSymbol → PlaceExpr
    param_place : ValueSymbol → PlaceExpr
    array_access_place : PlaceExpr → Expr → TypeSymbol → PlaceExpr
    field_place : Receiver → ValueSymbol → TypeSymbol → PlaceExpr
    other_place : PlaceExpr

  -- What `lowerReceiverToPlace` tells apart.
  pub data Receiver : Type 0 where
    self_receiver_expr root_expr other_receiver : Receiver
    load_receiver place_receiver : PlaceExpr → Receiver

  pub data Stmt : Type 0 where
    block_stmt : Stmts → Stmt
    expr_stmt : Expr → Stmt
    local_decl_stmt : Option TypeSymbol → ValueSymbol → Stmt
    local_init_stmt : Option TypeSymbol → ValueSymbol → Expr → Stmt
    if_stmt : Expr → Stmts → Stmt
    if_else_stmt : Expr → Stmts → Stmts → Stmt
    while_stmt : Expr → Stmts → Stmt
    for_range_stmt : ValueSymbol → TypeSymbol → Expr → Expr → Expr → Stmts → Stmt
    return_stmt : Stmt
    return_value_stmt : Expr → Stmt
    break_stmt continue_stmt on_exit_stmt quit_stmt other_stmt : Stmt
    switch_stmt : Expr → TypeSymbol → Cases → Stmt
    value_transfer_stmt : Expr → Stmt
    destroy_stmt : Expr → TypeSymbol → Stmt
    assign_stmt : PlaceExpr → Expr → Stmt
    compound_assign_stmt : PlaceExpr → Expr → Operator → Stmt

  -- A block's statements.
  pub data Stmts : Type 0 where
    no_stmts : Stmts
    stmts_of : Stmt → Stmts → Stmts

  pub data Cases : Type 0 where
    no_cases : Cases
    cases_of : DefaultKind → List Selector → Stmts → Cases → Cases
