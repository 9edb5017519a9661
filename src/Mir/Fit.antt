-- ===== src/Mir/Fit.antt =====
-- The bodies whose code the builder closes. A straight expression holds no ternary and no match, so
-- that its value is made in one block.
use hwarangdo.Prelude.{Bool, true, false, ◌&&◌, none, some}
use hwarangdo.Mir.Hir.{
  Expr, literal_expr, load_expr, unary_expr, binary_expr, cast_expr, method_call_expr,
  runtime_call_expr, spawn_expr, view_expr, match_expr, ternary_expr, unit_value, payload_value,
  struct_init_expr, self_expr, other_expr, Exprs, no_exprs, exprs, PlaceExpr, local_place,
  param_place, array_access_place, field_place, other_place, Receiver, self_receiver_expr,
  root_expr, other_receiver, load_receiver, place_receiver, Stmt, block_stmt, expr_stmt,
  local_decl_stmt, local_init_stmt, if_stmt, if_else_stmt, while_stmt, for_range_stmt, return_stmt,
  return_value_stmt, break_stmt, continue_stmt, on_exit_stmt, quit_stmt, other_stmt, switch_stmt,
  value_transfer_stmt, destroy_stmt, assign_stmt, compound_assign_stmt, Stmts, no_stmts, stmts_of,
  Cases, no_cases, cases_of,
}
use hwarangdo.Mir.Branches.{has_default}

unfoldable mutual
  pub is_straight : Expr → Bool
  is_straight (literal_expr _ _) = true
  is_straight (load_expr p _) = is_straight_place p
  is_straight (unary_expr _ e _) = is_straight e
  is_straight (binary_expr _ l r _ _) = is_straight l && is_straight r
  is_straight (cast_expr e _ _) = is_straight e
  is_straight (method_call_expr e es _ _) = are_straight es && is_straight e
  is_straight (runtime_call_expr _ es _) = are_straight es
  is_straight (spawn_expr _ _ es _) = are_straight es
  is_straight (view_expr _ e _) = is_straight e
  is_straight (match_expr _ _ _ _) = false
  is_straight (ternary_expr _ _ _ _) = false
  is_straight (unit_value _ _) = true
  is_straight (payload_value _ e _) = is_straight e
  is_straight (struct_init_expr es _ _) = are_straight es
  is_straight (self_expr _ _ _) = true
  is_straight other_expr = false

  pub are_straight : Exprs → Bool
  are_straight no_exprs = true
  are_straight (exprs e es) = is_straight e && are_straight es

  pub is_straight_place : PlaceExpr → Bool
  is_straight_place (local_place _) = true
  is_straight_place (param_place _) = true
  is_straight_place (array_access_place p e _) = is_straight_place p && is_straight e
  is_straight_place (field_place r _ _) = is_straight_receiver r
  is_straight_place other_place = false

  pub is_straight_receiver : Receiver → Bool
  is_straight_receiver self_receiver_expr = true
  is_straight_receiver root_expr = true
  is_straight_receiver other_receiver = false
  is_straight_receiver (load_receiver p) = is_straight_place p
  is_straight_receiver (place_receiver p) = is_straight_place p

-- Where the lowered place has a symbol. A compound assignment reads it.
unfoldable pub has_symbol : PlaceExpr → Bool
has_symbol (local_place _) = true
has_symbol (param_place _) = true
has_symbol (array_access_place p _ _) = has_symbol p
has_symbol (field_place _ _ _) = true
has_symbol other_place = false

-- Whether a part stands in a loop and in a match is given: a break needs the one, a transfer of a
-- value the other. Each switch and each match has a default.
unfoldable mutual
  unfolding is_straight has_symbol

  pub is_fit : Bool → Bool → Expr → Bool
  is_fit lo ma (literal_expr _ _) = true
  is_fit lo ma (load_expr p _) = is_fit_place lo ma p
  is_fit lo ma (unary_expr _ e _) = is_fit lo ma e
  is_fit lo ma (binary_expr _ l r _ _) = is_fit lo ma l && is_fit lo ma r
  is_fit lo ma (cast_expr e _ _) = is_fit lo ma e
  is_fit lo ma (method_call_expr e es _ _) = are_fit lo ma es && is_fit lo ma e
  is_fit lo ma (runtime_call_expr _ es _) = are_fit lo ma es
  is_fit lo ma (spawn_expr _ _ es _) = are_fit lo ma es
  is_fit lo ma (view_expr _ e _) = is_fit lo ma e
  is_fit lo ma (match_expr e _ cs _) = is_straight e && has_default cs && are_fit_cases lo true cs
  is_fit lo ma (ternary_expr c l r _) = is_straight c && is_straight l && is_straight r
  is_fit lo ma (unit_value _ _) = true
  is_fit lo ma (payload_value _ e _) = is_fit lo ma e
  is_fit lo ma (struct_init_expr es _ _) = are_fit lo ma es
  is_fit lo ma (self_expr _ _ _) = true
  is_fit lo ma other_expr = false

  pub are_fit : Bool → Bool → Exprs → Bool
  are_fit lo ma no_exprs = true
  are_fit lo ma (exprs e es) = is_fit lo ma e && are_fit lo ma es

  pub is_fit_place : Bool → Bool → PlaceExpr → Bool
  is_fit_place lo ma (local_place _) = true
  is_fit_place lo ma (param_place _) = true
  is_fit_place lo ma (array_access_place p e _) = is_fit_place lo ma p && is_fit lo ma e
  is_fit_place lo ma (field_place r _ _) = is_fit_receiver lo ma r
  is_fit_place lo ma other_place = false

  pub is_fit_receiver : Bool → Bool → Receiver → Bool
  is_fit_receiver lo ma self_receiver_expr = true
  is_fit_receiver lo ma root_expr = true
  is_fit_receiver lo ma other_receiver = false
  is_fit_receiver lo ma (load_receiver p) = is_fit_place lo ma p
  is_fit_receiver lo ma (place_receiver p) = is_fit_place lo ma p

  pub is_fit_stmt : Bool → Bool → Stmt → Bool
  is_fit_stmt lo ma (block_stmt ss) = are_fit_stmts lo ma ss
  is_fit_stmt lo ma (expr_stmt e) = is_fit lo ma e
  is_fit_stmt lo ma (local_decl_stmt none _) = false
  is_fit_stmt lo ma (local_decl_stmt (some _) _) = true
  is_fit_stmt lo ma (local_init_stmt none _ _) = false
  is_fit_stmt lo ma (local_init_stmt (some _) _ e) = is_fit lo ma e
  is_fit_stmt lo ma (if_stmt c ss) = is_fit lo ma c && are_fit_stmts lo ma ss
  is_fit_stmt lo ma (if_else_stmt c ss es) =
      is_fit lo ma c && are_fit_stmts lo ma ss && are_fit_stmts lo ma es
  is_fit_stmt lo ma (while_stmt c ss) = is_fit lo ma c && are_fit_stmts true ma ss
  is_fit_stmt lo ma (for_range_stmt _ _ start end step ss) =
      is_straight start && is_straight end && is_straight step && are_fit_stmts true ma ss
  is_fit_stmt lo ma return_stmt = true
  is_fit_stmt lo ma (return_value_stmt e) = is_fit lo ma e
  is_fit_stmt lo ma break_stmt = lo
  is_fit_stmt lo ma continue_stmt = lo
  is_fit_stmt lo ma on_exit_stmt = true
  is_fit_stmt lo ma quit_stmt = true
  is_fit_stmt lo ma other_stmt = false
  is_fit_stmt lo ma (switch_stmt e _ cs) = is_straight e && has_default cs && are_fit_cases lo ma cs
  is_fit_stmt lo ma (value_transfer_stmt e) = ma && is_fit lo ma e
  is_fit_stmt lo ma (destroy_stmt e _) = is_fit lo ma e
  is_fit_stmt lo ma (assign_stmt p e) = is_fit_place lo ma p && is_fit lo ma e
  is_fit_stmt lo ma (compound_assign_stmt p e _) =
      is_fit_place lo ma p && has_symbol p && is_fit lo ma e

  pub are_fit_stmts : Bool → Bool → Stmts → Bool
  are_fit_stmts lo ma no_stmts = true
  are_fit_stmts lo ma (stmts_of s ss) = is_fit_stmt lo ma s && are_fit_stmts lo ma ss

  pub are_fit_cases : Bool → Bool → Cases → Bool
  are_fit_cases lo ma no_cases = true
  are_fit_cases lo ma (cases_of _ _ ss cs) = are_fit_stmts lo ma ss && are_fit_cases lo ma cs
