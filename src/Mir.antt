-- ===== src/Mir.antt =====
-- The code that the MIR builder makes: include/hrd/IR/MIR/{MIRExpr,MIRStmt,MIRNode}.h and
-- include/hrd/IR/IRScope.h. Symbols are numbers, a local also carries its type; a null pointer is
-- `none` or a constructor of its own.
pub mod Hir
pub mod State
pub mod Branches
pub mod Lower
pub mod Fit
pub mod Wf
pub mod Rules
pub mod Scopes
pub mod Contexts
pub mod Handlers
pub mod Steps
pub mod Cases
pub mod Straight
pub mod Safe
pub mod Closed
pub mod Cleanup
pub mod Pointers
mod Examples
use hwarangdo.Prelude.{ℕ, Option, none, some, List, Bool, true, false, [], ◌∷◌, if◌then◌else◌}
use hwarangdo.Types.{TypeSymbol, is_string}
use hwarangdo.Types.Operators.{Operator}

-- A value symbol: one of the program, or a temporary of `makeTemp`, by its number in the function.
pub data ValueSymbol : Type 0 where
  declared temporary : ℕ → TypeSymbol → ValueSymbol

pub symbol_type : ValueSymbol → TypeSymbol
symbol_type (declared _ t) = t
symbol_type (temporary _ t) = t

pub data Category : Type 0 where
  plain borrowed owned_temp : Category

-- The member `valueCategory` of a value is set after its construction, so it stands beside the kind.
mutual
  pub data Value : Type 0 where
    value : Kind → TypeSymbol → Category → Value

  pub data Kind : Type 0 where
    binary : Value → Value → Operator → TypeSymbol → Kind
    load : Place → Kind
    payload_extract : ℕ → Value → Kind
    literal : ℕ → Kind
    unary : Value → Operator → Kind
    cast : Value → TypeSymbol → TypeSymbol → Kind
    call : Value → Values → ℕ → Kind
    spawn : TypeSymbol → Option ℕ → Values → Kind
    view : TypeSymbol → Value → Kind
    struct_init : TypeSymbol → Option ℕ → Values → Kind
    unit_variant : ℕ → Kind
    payload_variant : ℕ → Value → Kind
    runtime_call : ℕ → Values → Kind

  pub data Values : Type 0 where
    no_values : Values
    values : Value → Values → Values

  pub data Place : Type 0 where
    local_at : ValueSymbol → Place
    param_at : Option ValueSymbol → Place
    array_at : Place → Value → Option ValueSymbol → TypeSymbol → Place
    field_at : ValueSymbol → Place → TypeSymbol → Place
    root_at : Place

-- The constructor of `MIRValue`: strings are borrowed.
unfoldable pub make_value : Kind → TypeSymbol → Value
make_value k t = value k t (if is_string t then borrowed else plain)

unfoldable pub with_category : Category → Value → Value
with_category c (value k t _) = value k t c

-- The member `symbol` of `MIRPlace`.
unfoldable pub place_symbol : Place → Option ValueSymbol
place_symbol (local_at s) = some s
place_symbol (param_at s) = s
place_symbol (array_at _ _ s _) = s
place_symbol (field_at s _ _) = some s
place_symbol root_at = none

-- `clone`: the copies are constructed anew, so that a category set later is lost.
unfoldable mutual
  pub clone : Value → Value
  clone (value k t _) = make_value (clone_kind k) t

  pub clone_kind : Kind → Kind
  clone_kind (binary l r o t) = binary (clone l) (clone r) o t
  clone_kind (load p) = load (clone_place p)
  clone_kind (payload_extract s v) = payload_extract s (clone v)
  clone_kind (literal l) = literal l
  clone_kind (unary v o) = unary (clone v) o
  clone_kind (cast v s t) = cast (clone v) s t
  clone_kind (call v vs m) = call (clone v) (clone_values vs) m
  clone_kind (spawn t m vs) = spawn t m (clone_values vs)
  clone_kind (view t v) = view t (clone v)
  clone_kind (struct_init t m vs) = struct_init t m (clone_values vs)
  clone_kind (unit_variant s) = unit_variant s
  clone_kind (payload_variant s v) = payload_variant s (clone v)
  clone_kind (runtime_call s vs) = runtime_call s (clone_values vs)

  pub clone_values : Values → Values
  clone_values no_values = no_values
  clone_values (values v vs) = values (clone v) (clone_values vs)

  pub clone_place : Place → Place
  clone_place (local_at s) = local_at s
  clone_place (param_at s) = param_at s
  clone_place (array_at p v s t) = array_at (clone_place p) (clone v) s t
  clone_place (field_at s p t) = field_at s (clone_place p) t
  clone_place root_at = root_at

pub data Statement : Type 0 where
  expr : Value → Statement
  assign : Place → Value → Statement
  local_decl : TypeSymbol → ValueSymbol → Option Value → Statement
  quit : Statement
  destroy : Value → TypeSymbol → Statement
  cleanup : List ValueSymbol → Statement

-- A literal or a variant of an enumeration.
pub data CaseValue : Type 0 where
  literal_case variant_case : ℕ → CaseValue

pub record Case : Type 0 where
  pub case_value : CaseValue
  pub target : ℕ

-- `unset` is the `monostate` that a block starts with.
pub data Terminator : Type 0 where
  unset : Terminator
  goto : ℕ → Terminator
  branch : Value → ℕ → ℕ → Terminator
  return : Option Value → Terminator
  switch : Value → List Case → ℕ → Terminator

-- A block's `id` is its place in the function's list.
pub record BasicBlock : Type 0 where
  pub terminator : Terminator
  pub stmts : List Statement

abbrev pub fresh_block : BasicBlock
fresh_block = record { terminator = unset; stmts = [] }

pub record MethodSymbol : Type 0 where
  pub symbol : ℕ
  pub self_receiver : Option ValueSymbol

-- `symbol` is null for the function that sets the fields' defaults; `entry` has no initial value.
pub record Function : Type 0 where
  pub method : Option MethodSymbol
  pub owner : TypeSymbol
  pub entry : Option ℕ
  pub is_default_init : Bool
  pub blocks : List BasicBlock
  pub next_temp : ℕ
