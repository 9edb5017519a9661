-- ===== src/Mir/State.antt =====
-- The builder's state and its small steps: include/hrd/IR/MIR/{MIRBuilder,MIRNode}.h,
-- src/IR/MIR/MIRScope.cpp and the helpers of src/IR/MIR/MIRUtil.cpp. The scopes from the current one
-- outwards are a list, and a pointer to one of them is the number of scopes from it outwards, 0 for
-- the null pointer. A context that holds such a pointer is popped before its scope is left, so that no
-- pointer to another scope is used; Mir/Pointers has the cleanup on any pointers.
use hwarangdo.Prelude.{
  ℕ, zero, suc, ◌-◌, Option, none, some, List, [], ◌∷◌, ◌++◌, length, get_elem?, set, drop, ltb,
  ◌==◌, Bool, true, false, not, if◌then◌else◌,
}
use hwarangdo.Types.{TypeSymbol}
use hwarangdo.Mir.{
  ValueSymbol, temporary, Value, local_at, load, make_value, Statement, cleanup, Terminator, unset,
  BasicBlock, fresh_block, MethodSymbol,
}

pub record LoopContext : Type 0 where
  pub continue_target : ℕ
  pub break_target : ℕ
  pub break_scope : ℕ
  pub continue_scope : ℕ

pub record MatchContext : Type 0 where
  pub result : ValueSymbol
  pub join : ℕ

-- `method` is `currentFunc->symbol`; the lists `loops` and `matches` have the last context first.
pub record Builder : Type 0 where
  pub method : Option MethodSymbol
  pub blocks : List BasicBlock
  pub next_temp : ℕ
  pub current_block : ℕ
  pub scopes : List (List ValueSymbol)
  pub loops : List LoopContext
  pub matches : List MatchContext

-- `internal` is an end in `Error::internal`; `undefined` is a null pointer that is dereferenced, an
-- index out of bounds or the `back` of an empty vector.
pub data Lowered (A : Type 0) : Type 0 where
  internal undefined : Lowered A
  done : Builder → A → Lowered A

abbrev pub Lower : Type 0 → Type 0
Lower A = Builder → Lowered A

abbrev pub pure : {A : Type 0} → A → Lower A
pure a b = done b a

abbrev pub continue_with : {A B : Type 0} → Lowered A → (A → Lower B) → Lowered B
continue_with (done b a) k = k a b
continue_with internal k = internal
continue_with undefined k = undefined

infixl 5 ◌>>=◌ ◌>>◌
abbrev pub ◌>>=◌ : {A B : Type 0} → Lower A → (A → Lower B) → Lower B
◌>>=◌ m k b = continue_with (m b) k

abbrev pub ◌>>◌ : {B : Type 0} → Lower (Unit {0}) → Lower B → Lower B
m >> n = m >>= λ _. n

abbrev pub when : Bool → Lower (Unit {0}) → Lower (Unit {0})
when c m = if c then m else pure tt

abbrev pub deref : {A : Type 0} → Option A → Lower A
deref none b = undefined
deref (some a) b = done b a

abbrev pub current : Lower ℕ
current b = done b b.current_block

abbrev pub set_current : ℕ → Lower (Unit {0})
set_current id b = done (record b { current_block = id }) tt

-- `id > blocks.size()` lets the size itself through.
unfoldable pub get_block : ℕ → Lower BasicBlock
get_block id b =
    if ltb (length b.blocks) id
    then internal
    else elim (get_elem? b.blocks id) [ none ↦ undefined | some k ↦ done b k ]

abbrev pub put_block : ℕ → BasicBlock → Lower (Unit {0})
put_block id k b = done (record b { blocks = set b.blocks id k }) tt

unfoldable pub make_block : Lower ℕ
make_block b = done (record b { blocks = b.blocks ++ fresh_block ∷ [] }) (length b.blocks)

abbrev pub is_unset : Terminator → Bool
is_unset unset = true
is_unset _ = false

unfoldable pub has_terminator : ℕ → Lower Bool
unfolding get_block
has_terminator id = do k ← get_block id; pure (not (is_unset k.terminator))

-- `getBlock(id)->terminator = t`
unfoldable pub terminate : ℕ → Terminator → Lower (Unit {0})
unfolding get_block
terminate id t = do k ← get_block id; put_block id (record k { terminator = t })

-- `if (!hasTerminator(id)) getBlock(id)->terminator = t;`
unfoldable pub terminate_open : ℕ → Terminator → Lower (Unit {0})
unfolding has_terminator terminate
terminate_open id t = do ended ← has_terminator id; when (not ended) (terminate id t)

unfoldable pub terminate_current : Terminator → Lower (Unit {0})
unfolding terminate_open
terminate_current t = do id ← current; terminate_open id t

unfoldable pub emit : Statement → Lower (Unit {0})
unfolding get_block
emit s = do id ← current; k ← get_block id; put_block id (record k { stmts = k.stmts ++ s ∷ [] })

unfoldable pub make_temp : TypeSymbol → Lower ValueSymbol
make_temp t b = elim b.method [
  | none ↦ undefined
  | some _ ↦ done (record b { next_temp = suc b.next_temp }) (temporary b.next_temp t)
]

-- `MIRLoad` of a `MIRLocalPlace`
abbrev pub load_local : ValueSymbol → TypeSymbol → Value
load_local s t = make_value (load (local_at s)) t

-- `currentScope`, and `currentScope = scope` for an enclosing one.
abbrev pub current_scope : Lower ℕ
current_scope b = done b (length b.scopes)

unfoldable pub set_scope : ℕ → Lower (Unit {0})
set_scope n b = done (record b { scopes = drop (length b.scopes - n) b.scopes }) tt

unfoldable pub enter_scope : Lower ℕ
enter_scope b = done (record b { scopes = [] ∷ b.scopes }) (suc (length b.scopes))

-- A local `IRScope` whose parent is the current scope: the parent's `depth` is read.
unfoldable pub push_scope : Lower ℕ
unfolding enter_scope
push_scope b = elim b.scopes [ [] ↦ undefined | _ ∷ _ ↦ enter_scope b ]

unfoldable pub exit_scope : Lower (Unit {0})
exit_scope b = elim b.scopes [ [] ↦ undefined | _ ∷ outer ↦ done (record b { scopes = outer }) tt ]

-- `scope->locals.push_back(s)`, for the scope that `n` points to.
abbrev pub push_at : ℕ → ValueSymbol → List (List ValueSymbol) → List (List ValueSymbol)
push_at n s [] = []
push_at n s (locals ∷ outer) =
    if n == suc (length outer) then (locals ++ s ∷ []) ∷ outer else locals ∷ push_at n s outer

unfoldable pub add_local : ℕ → ValueSymbol → Lower (Unit {0})
add_local n s b = if n == 0 then undefined else done (record b { scopes = push_at n s b.scopes }) tt

abbrev pub locals_at : ℕ → List (List ValueSymbol) → List ValueSymbol
locals_at n [] = []
locals_at n (locals ∷ outer) = if n == suc (length outer) then locals else locals_at n outer

-- A null scope has nothing to clean up.
unfoldable pub emit_cleanup : ℕ → Lower (Unit {0})
unfolding emit
emit_cleanup zero b = done b tt
emit_cleanup (suc n) b = emit (cleanup (locals_at (suc n) b.scopes)) b

-- The loop of `emitCleanupUntil`, at the scopes from `scope` outwards.
unfoldable pub cleanup_from : ℕ → List (List ValueSymbol) → Lower (Unit {0})
unfolding emit
cleanup_from to [] = if to == 0 then pure tt else λ b. internal
cleanup_from to (locals ∷ outer) =
    if to == suc (length outer) then pure tt else (emit (cleanup locals) >> cleanup_from to outer)

unfoldable pub emit_cleanup_until : ℕ → Lower (Unit {0})
unfolding cleanup_from
emit_cleanup_until to b = cleanup_from to b.scopes b

-- `loops` and `matches`: `push_back`, `pop_back` and `back`.
abbrev pub push_loop : LoopContext → Lower (Unit {0})
push_loop l b = done (record b { loops = l ∷ b.loops }) tt

unfoldable pub pop_loop : Lower (Unit {0})
pop_loop b = elim b.loops [ [] ↦ undefined | _ ∷ ls ↦ done (record b { loops = ls }) tt ]

unfoldable pub last_loop : Lower LoopContext
last_loop b = elim b.loops [ [] ↦ undefined | l ∷ _ ↦ done b l ]

abbrev pub push_match : MatchContext → Lower (Unit {0})
push_match m b = done (record b { matches = m ∷ b.matches }) tt

unfoldable pub pop_match : Lower (Unit {0})
pop_match b = elim b.matches [ [] ↦ undefined | _ ∷ ms ↦ done (record b { matches = ms }) tt ]

unfoldable pub last_match : Lower MatchContext
last_match b = elim b.matches [ [] ↦ undefined | m ∷ _ ↦ done b m ]
