-- ===== src/Mir/Branches.antt =====
-- The handlers of branches, loops, switches and matches: src/IR/MIR/{MIRExprBuilder,MIRStmtBuilder}.cpp
-- and `makeSwitch` of src/IR/MIR/MIRUtil.cpp. A handler takes the lowerings of its parts as actions.
use hwarangdo.Prelude.{ℕ, ◌-◌, Bool, true, false, ◌||◌, none, some, List, [], ◌∷◌, if◌then◌else◌}
use hwarangdo.Types.{TypeSymbol}
use hwarangdo.Types.Operators.{add, ls}
use hwarangdo.Mir.{
  ValueSymbol, symbol_type, owned_temp, Value, binary, payload_extract, local_at, make_value,
  with_category, assign, local_decl, literal_case, variant_case, Case, goto, branch, switch,
}
use hwarangdo.Mir.Hir.{
  DefaultKind, not_default, default_case, wild_card, Selector, literal_selector, unit_selector,
  payload_selector, wildcard_selector, Cases, no_cases, cases_of,
}
use hwarangdo.Mir.State.{
  Lower, pure, ◌>>=◌, ◌>>◌, when, current, set_current, make_block, terminate, terminate_open,
  terminate_current, emit, make_temp, load_local, current_scope, set_scope, enter_scope, push_scope,
  exit_scope, add_local, emit_cleanup, push_loop, pop_loop, push_match, pop_match,
}

-- `lowerIf`; without an else block, `lower_else` does nothing.
unfoldable pub make_if : Lower Value → Lower (Unit {0}) → Lower (Unit {0}) → Lower (Unit {0})
make_if lower_condition lower_then lower_else = do
  condition ← lower_condition
  cond ← current
  then_id ← make_block
  else_id ← make_block
  join ← make_block
  terminate cond (branch condition then_id else_id)
  set_current then_id
  lower_then
  terminate_current (goto join)
  set_current else_id
  lower_else
  terminate_current (goto join)
  set_current join

unfoldable pub make_while : Lower Value → Lower (Unit {0}) → Lower (Unit {0})
make_while lower_condition lower_body = do
  condition ← lower_condition
  cond ← current
  then_id ← make_block
  else_id ← make_block
  join ← make_block
  outer ← current_scope
  terminate cond (branch condition then_id else_id)
  set_current then_id
  push_loop (record {
    continue_target = cond;
    break_target = join;
    break_scope = outer;
    continue_scope = outer;
  })
  lower_body
  pop_loop
  terminate_current (goto cond)
  terminate else_id (goto join)
  set_current join

unfoldable pub make_for :
    ValueSymbol
    → TypeSymbol
    → Lower Value
    → Lower Value
    → Lower Value
    → Lower (Unit {0})
    → Lower (Unit {0})
make_for index type lower_start lower_end lower_step lower_body = do
  for_scope ← enter_scope
  entry ← current
  cond ← make_block
  body ← make_block
  step ← make_block
  join ← make_block
  set_current entry
  scope ← current_scope
  add_local scope index
  emit (local_decl type index none)
  start ← lower_start
  emit (assign (local_at index) start)
  terminate entry (goto cond)
  set_current cond
  end ← lower_end
  terminate cond (branch (make_value (binary (load_local index type) end ls type) type) body join)
  set_current body
  push_loop (record {
    continue_target = step;
    break_target = join;
    break_scope = for_scope - 1;
    continue_scope = for_scope;
  })
  lower_body
  terminate_current (goto step)
  pop_loop
  set_current step
  amount ← lower_step
  emit (assign (local_at index) (make_value (binary (load_local index type) amount add type) type))
  terminate step (goto cond)
  set_current join
  emit_cleanup for_scope
  exit_scope

unfoldable pub make_ternary : TypeSymbol → Lower Value → Lower Value → Lower Value → Lower Value
make_ternary type lower_condition lower_then lower_else = do
  temp ← make_temp type
  entry ← current
  cond ← make_block
  then_id ← make_block
  else_id ← make_block
  join ← make_block
  emit (local_decl type temp none)
  terminate entry (goto cond)
  set_current cond
  condition ← lower_condition
  terminate cond (branch condition then_id else_id)
  set_current then_id
  left ← lower_then
  emit (assign (local_at temp) left)
  terminate then_id (goto join)
  set_current else_id
  right ← lower_else
  emit (assign (local_at temp) right)
  terminate else_id (goto join)
  set_current join
  pure (load_local temp type)

-- `SwitchData`, less the case list and the condition's expression.
pub record SwitchData : Type 0 where
  pub cond : ℕ
  pub default_target : ℕ
  pub cleanup_target : ℕ
  pub join_target : ℕ
  pub scope : ℕ
  pub type : TypeSymbol

abbrev pub is_default : DefaultKind → Bool
is_default not_default = false
is_default default_case = true
is_default wild_card = true

abbrev pub has_default : Cases → Bool
has_default no_cases = false
has_default (cases_of k _ _ cs) = is_default k || has_default cs

-- The loop over the selectors of a case whose block is `id`; `temp` holds the scrutinee.
unfoldable pub lower_selectors : ValueSymbol → ℕ → ℕ → List Selector → Lower (List Case)
lower_selectors temp case_scope id [] = pure []
lower_selectors temp case_scope id (literal_selector l ∷ ss) = do
  cases ← lower_selectors temp case_scope id ss
  pure (record { case_value = literal_case l; target = id } ∷ cases)
lower_selectors temp case_scope id (unit_selector v ∷ ss) = do
  cases ← lower_selectors temp case_scope id ss
  pure (record { case_value = variant_case v; target = id } ∷ cases)
lower_selectors temp case_scope id (payload_selector v binding ∷ ss) = do
  add_local case_scope binding
  emit (
      local_decl (symbol_type binding) binding (
        some
          (make_value (payload_extract v (load_local temp (symbol_type temp))) (symbol_type temp))))
  cases ← lower_selectors temp case_scope id ss
  pure (record { case_value = variant_case v; target = id } ∷ cases)
lower_selectors temp case_scope id (wildcard_selector ∷ ss) = lower_selectors temp case_scope id ss

-- One turn of the loop over the cases.
unfoldable pub make_case :
    SwitchData → ValueSymbol → DefaultKind → List Selector → Lower (Unit {0}) → Lower (List Case)
make_case d temp kind selectors lower_body = do
  id ← if is_default kind then pure d.default_target else make_block
  set_current id
  case_scope ← push_scope
  cases ← lower_selectors temp case_scope id selectors
  lower_body
  emit_cleanup case_scope
  terminate_current (goto d.cleanup_target)
  set_scope d.scope
  pure cases

unfoldable pub make_switch :
    SwitchData → Lower Value → Bool → (ValueSymbol → Lower (List Case)) → Lower (Unit {0})
make_switch d lower_cond default_found lower_cases = do
  condition ← lower_cond
  temp ← make_temp d.type
  scope ← current_scope
  add_local scope temp
  emit (local_decl (symbol_type temp) temp (some condition))
  cases ← lower_cases temp
  when default_found (terminate_open d.default_target (goto d.cleanup_target))
  terminate d.cond (
      switch (load_local temp (symbol_type temp)) cases
        (if default_found then d.default_target else d.cleanup_target))
  set_current d.cleanup_target
  emit_cleanup d.scope
  id ← current
  terminate id (goto d.join_target)

unfoldable pub make_switch_stmt :
    TypeSymbol
    → Lower Value
    → Bool
    → (SwitchData → ValueSymbol → Lower (List Case))
    → Lower (Unit {0})
make_switch_stmt type lower_cond default_found lower_cases = do
  outer ← current_scope
  switch_scope ← push_scope
  default_target ← make_block
  cleanup_target ← make_block
  join_target ← make_block
  cond ← current
  let d : SwitchData = record {
    cond = cond;
    default_target = default_target;
    cleanup_target = cleanup_target;
    join_target = join_target;
    scope = switch_scope;
    type = type;
  }
  make_switch d lower_cond default_found (lower_cases d)
  set_scope outer
  set_current join_target

unfoldable pub make_match :
    TypeSymbol
    → TypeSymbol
    → Lower Value
    → Bool
    → (SwitchData → ValueSymbol → Lower (List Case))
    → Lower Value
make_match result_type type lower_cond default_found lower_cases = do
  entry ← current
  outer ← current_scope
  switch_scope ← push_scope
  cond ← make_block
  default_target ← make_block
  cleanup_target ← make_block
  join_target ← make_block
  set_current entry
  result ← make_temp result_type
  add_local outer result
  emit (local_decl (symbol_type result) result none)
  terminate entry (goto cond)
  push_match (record { result = result; join = cleanup_target })
  set_current cond
  let d : SwitchData = record {
    cond = cond;
    default_target = default_target;
    cleanup_target = cleanup_target;
    join_target = join_target;
    scope = switch_scope;
    type = type;
  }
  make_switch d lower_cond default_found (lower_cases d)
  terminate_open cleanup_target (goto join_target)
  set_scope outer
  set_current join_target
  pop_match
  pure (with_category owned_temp (load_local result result_type))
