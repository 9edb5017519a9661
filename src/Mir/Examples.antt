-- ===== src/Mir/Examples.antt =====
-- The builder at work on small bodies, and the theorems on it at concrete inputs.
use hwarangdo.Prelude.{
  ℕ, ◌<◌, ◌≡◌, refl, Bool, true, false, not, Option, none, some, List, [], ◌∷◌, arith, length,
  get_elem?, drop,
}
use hwarangdo.Types.{TypeSymbol, primitive, i32, b, s32, has_category}
use hwarangdo.Types.Operators.{ls, l_not}
use hwarangdo.Mir.{
  ValueSymbol, declared, temporary, plain, Value, value, literal, make_value, with_category,
  place_symbol, Statement, quit, cleanup, goto, branch, return, BasicBlock, fresh_block,
  MethodSymbol, Function,
}
use hwarangdo.Mir.Hir.{
  not_default, default_case, literal_selector, payload_selector, Expr, literal_expr, load_expr,
  unary_expr, binary_expr, ternary_expr, local_place, Stmt, expr_stmt, local_init_stmt,
  if_else_stmt, while_stmt, return_stmt, return_value_stmt, break_stmt, continue_stmt, quit_stmt,
  switch_stmt, assign_stmt, Stmts, no_stmts, stmts_of, no_cases, cases_of,
}
use hwarangdo.Mir.Pointers.{
  IrScope, Chain, outermost, inside, cleanup_until, cleanup_until-internal,
}
use hwarangdo.Mir.State.{
  Builder, Lowered, internal, undefined, done, get_block, make_block, is_unset, has_terminator,
  terminate, terminate_open, terminate_current, emit, make_temp, set_scope, enter_scope, push_scope,
  exit_scope, add_local, emit_cleanup, cleanup_from, emit_cleanup_until, pop_loop, last_loop,
  pop_match, last_match,
}
use hwarangdo.Mir.Branches.{
  make_if, make_while, make_for, make_ternary, lower_selectors, make_case, make_switch,
  make_switch_stmt, make_match,
}
use hwarangdo.Mir.Lower.{
  make_block_stmt, unless_ended, make_local_decl, make_return, lower_break, lower_continue,
  make_value_transfer, make_assign, make_compound_assign, self_place, lower_self, categorise,
  lower_expr, new_function, lower_body, lower_method, lower_default_init,
}
use hwarangdo.Mir.Fit.{is_straight, is_fit, are_fit_stmts}
use hwarangdo.Mir.Straight.{lower_expr-straight}
use hwarangdo.Mir.Closed.{lower_method-Closed, is_closed}
use hwarangdo.Mir.Cleanup.{emit_cleanup_until-Emitted, Emitted}

abbrev int : TypeSymbol
int = primitive i32

abbrev bool : TypeSymbol
bool = primitive b

abbrev text : TypeSymbol
text = primitive s32

abbrev sample_method : MethodSymbol
sample_method = record { symbol = 1; self_receiver = some (declared 0 int) }

abbrev owner : TypeSymbol
owner = primitive i32

abbrev index_symbol : ValueSymbol
index_symbol = declared 10 int

abbrev item_symbol : ValueSymbol
item_symbol = declared 11 text

abbrev one_stmt : Stmt → Stmts
one_stmt s = stmts_of s no_stmts

abbrev yes : Expr
yes = literal_expr 1 bool

-- while (i < 3) { if (true) break; else continue; } switch (i) { 0 => return; default => i = 1; }
abbrev sample_body : Stmts
sample_body = stmts_of (local_init_stmt (some int) index_symbol (literal_expr 0 int)) (
    stmts_of
      (while_stmt
        (binary_expr ls (load_expr (local_place index_symbol) int) (literal_expr 3 int) bool int)
        (one_stmt (if_else_stmt yes (one_stmt break_stmt) (one_stmt continue_stmt))))
      (one_stmt (
        switch_stmt (load_expr (local_place index_symbol) int) int (
          cases_of not_default (literal_selector 0 ∷ []) (one_stmt return_stmt) (
            cases_of default_case []
              (one_stmt (assign_stmt (local_place index_symbol) (literal_expr 1 int))) no_cases)))))

sample_body-fit : are_fit_stmts false false sample_body ≡ true
unfolding is_fit is_straight
sample_body-fit = refl

lower_method-Closed_example :
    (b : Builder) × (f : Function) × (lower_method owner sample_method sample_body ≡ done b f)
    × (is_closed f ≡ true)
    × (f.entry ≡ some 0)
    × (0 < length f.blocks)
lower_method-Closed_example = lower_method-Closed owner sample_method sample_body sample_body-fit

abbrev two_scopes : Builder
two_scopes = record (new_function (some sample_method)) {
  blocks = fresh_block ∷ [];
  scopes = (item_symbol ∷ []) ∷ (index_symbol ∷ []) ∷ [];
}

yes-straight : is_straight (unary_expr l_not yes bool) ≡ true
unfolding is_straight
yes-straight = refl

lower_expr-straight_example :
    (v : Value) × (lower_expr (unary_expr l_not yes bool) two_scopes ≡ done two_scopes v)
lower_expr-straight_example =
    lower_expr-straight (unary_expr l_not yes bool) two_scopes sample_method yes-straight refl

emit_cleanup_until-Emitted_example :
    (b' : Builder) × (emit_cleanup_until 1 two_scopes ≡ done b' tt)
    × Emitted 0 fresh_block (cleanup (item_symbol ∷ []) ∷ []) b'
emit_cleanup_until-Emitted_example =
    emit_cleanup_until-Emitted 1 two_scopes fresh_block (omega arith) refl

-- The scope 2 is made in scope 0, behind scope 1, which has been left by then.
abbrev three_made : List IrScope
three_made =
    record { parent = 0; locals = index_symbol ∷ [] }
    ∷ record { parent = 1; locals = [] }
    ∷ record { parent = 1; locals = item_symbol ∷ [] }
    ∷ []

three_made-Chain : Chain three_made 3 (3 ∷ 1 ∷ []) two_scopes.scopes
three_made-Chain =
    inside 2 (record { parent = 1; locals = item_symbol ∷ [] }) (1 ∷ []) ((index_symbol ∷ []) ∷ [])
      refl (inside 0 (record { parent = 0; locals = index_symbol ∷ [] }) [] [] refl outermost)

cleanup_until-internal_example : cleanup_until 3 three_made 2 3 two_scopes ≡ some internal
cleanup_until-internal_example =
    cleanup_until-internal 3 three_made 3 2 (3 ∷ 1 ∷ []) two_scopes fresh_block three_made-Chain
      (omega arith) refl refl

blocks_of : Lowered Function → Option (List BasicBlock)
blocks_of (done _ f) = some f.blocks
blocks_of internal = none
blocks_of undefined = none

-- The blocks that a method's body is lowered to.
lowered : Stmts → Option (List BasicBlock)
unfolding blocks_of lower_method lower_body lower_expr make_block get_block has_terminator terminate
    terminate_open terminate_current emit make_temp set_scope enter_scope push_scope exit_scope
    add_local emit_cleanup cleanup_from emit_cleanup_until pop_loop last_loop pop_match last_match
    make_if make_while make_for make_ternary lower_selectors make_case make_switch make_switch_stmt
    make_match make_block_stmt unless_ended make_local_decl make_return lower_break lower_continue
    make_value_transfer make_assign make_compound_assign self_place lower_self categorise make_value
    with_category place_symbol has_category
lowered ss = blocks_of (lower_method owner sample_method ss)

statements_at : ℕ → Option (List BasicBlock) → List Statement
statements_at i none = []
statements_at i (some ks) = elim (get_elem? ks i) [ none ↦ [] | some k ↦ k.stmts ]

ended_at : ℕ → Option (List BasicBlock) → Bool
ended_at i none = true
ended_at i (some ks) = elim (get_elem? ks i) [ none ↦ true | some k ↦ not (is_unset k.terminator) ]

-- The block that the loop goes back to holds the statement before the loop.
while_repeats :
    lowered (stmts_of quit_stmt (one_stmt (while_stmt yes no_stmts)))
    ≡ some (
        record { terminator = branch (value (literal 1) bool plain) 1 2; stmts = quit ∷ [] }
        ∷ record { terminator = goto 0; stmts = cleanup [] ∷ [] }
        ∷ record { terminator = goto 3; stmts = [] }
        ∷ record { terminator = return none; stmts = cleanup [] ∷ [] }
        ∷ [])
unfolding lowered
while_repeats = refl

-- A switch with no default leaves the block for the default without a terminator.
no_default_open : ended_at 1 (lowered (one_stmt (switch_stmt yes bool no_cases))) ≡ false
unfolding lowered ended_at
no_default_open = refl

-- A ternary in a branch of a ternary leaves the block behind the inner one without a terminator.
nested_ternary_open :
    ended_at 8 (
      lowered
        (one_stmt (return_value_stmt (ternary_expr yes (ternary_expr yes yes yes bool) yes bool))))
    ≡ false
unfolding lowered ended_at
nested_ternary_open = refl

-- A case that returns cleans up its payload twice.
payload_twice :
    drop 1 (
      statements_at 4 (
        lowered (
          one_stmt (
            switch_stmt yes bool (
              cases_of not_default
                (payload_selector 4 item_symbol ∷ [])
                (one_stmt return_stmt)
                (cases_of default_case [] no_stmts no_cases))))))
    ≡ cleanup []
      ∷ cleanup (item_symbol ∷ [])
      ∷ cleanup (temporary 0 bool ∷ [])
      ∷ cleanup []
      ∷ cleanup []
      ∷ cleanup (item_symbol ∷ [])
      ∷ []
unfolding lowered statements_at
payload_twice = refl

-- A ternary among the fields' defaults reads the symbol of a function that has none.
default_ternary :
    lower_default_init owner (one_stmt (expr_stmt (ternary_expr yes yes yes bool))) ≡ undefined
unfolding lower_default_init lower_expr make_block make_block_stmt enter_scope unless_ended
    has_terminator get_block make_ternary make_temp
default_ternary = refl
