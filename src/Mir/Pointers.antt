-- ===== src/Mir/Pointers.antt =====
-- `emitCleanupUntil` of src/IR/MIR/MIRScope.cpp on pointers to scopes, against the numbers that stand for
-- them elsewhere. A pointer is 0 for null, and `suc i` for the scope number `i` that was made.
use hwarangdo.Prelude.{
  ℕ, zero, suc, ◌<◌, ◌≡◌, refl, sym, ap, ◌∙◌, inl, inr, true, false, ◌||◌, Option, none, some, List,
  [], ◌∷◌, arith, ◌==◌, if◌then◌else◌, Bool-cases, length, get_elem?, of_either, contains, subst,
}
use hwarangdo.Mir.{ValueSymbol, cleanup, BasicBlock}
use hwarangdo.Mir.State.{
  Builder, Lowered, internal, undefined, done, pure, continue_with, ◌>>◌, emit, cleanup_from,
  emit_cleanup_until,
}
use hwarangdo.Mir.Cleanup.{emit_cleanup_until-internal}

-- `depth` is left out: the loop does not read it.
pub record IrScope : Type 0 where
  pub parent : ℕ
  pub locals : List ValueSymbol

-- What follows a step that may fail.
abbrev pub go_on :
    Lowered (Unit {0}) → (Builder → Option (Lowered (Unit {0}))) → Option (Lowered (Unit {0}))
go_on (done b _) k = k b
go_on internal k = some internal
go_on undefined k = some undefined

-- The loop, from `scope` on, for at most `fuel` rounds; `none` is a loop that is not over by then.
unfoldable pub cleanup_until : ℕ → List IrScope → ℕ → ℕ → Builder → Option (Lowered (Unit {0}))
cleanup_until zero heap to scope b = none
cleanup_until (suc fuel) heap to scope b = if scope == to then some (done b tt) else elim scope [
  | zero ↦ some internal
  | suc i ↦ elim (get_elem? heap i) [
    | none ↦ some undefined
    | some s ↦ go_on (emit (cleanup s.locals) b) (cleanup_until fuel heap to s.parent)
  ]
]

-- The scopes from a pointer outwards: their pointers, and their locals.
pub data Chain (heap : List IrScope) : ℕ → List ℕ → List (List ValueSymbol) → Type 0 where
  outermost : Chain heap 0 [] []
  inside :
      (i : ℕ) (s : IrScope) (ps : List ℕ) (ls : List (List ValueSymbol))
      → get_elem? heap i ≡ some s
      → Chain heap s.parent ps ls
      → Chain heap (suc i) (suc i ∷ ps) (s.locals ∷ ls)

-- The number that stands for a pointer: how many scopes there are from it outwards. A pointer to none
-- of the scopes has a number that is too large for any of them.
abbrev place : List ℕ → ℕ → ℕ
place [] to = 0
place (p ∷ ps) to = if p == to then suc (length ps) else place ps to

abbrev pub number : List ℕ → ℕ → ℕ
number ps to = if to == 0 || contains to ps then place ps to else suc (length ps)

-- The loop stops at the same scope for the pointer and for its number.
data Agree (to n : ℕ) : List ℕ → Type 0 where
  at_end : (to == 0) ≡ (n == 0) → Agree to n []
  here :
      (p : ℕ) (ps : List ℕ) → (p == to) ≡ true → (n == suc (length ps)) ≡ true → Agree to n (p ∷ ps)
  beyond :
      (p : ℕ) (ps : List ℕ)
      → (p == to) ≡ false
      → (n == suc (length ps)) ≡ false
      → Agree to n ps
      → Agree to n (p ∷ ps)

place-bound : (ps : List ℕ) (to : ℕ) → place ps to < suc (length ps)
place-bound [] to = omega arith
place-bound (p ∷ ps) to = ground (arith, place-bound ps to)

contains-head : (to p : ℕ) (ps : List ℕ) → (p == to) ≡ false → contains to (p ∷ ps) ≡ contains to ps
contains-head to p ps h = ground (arith, h)

Agree-place :
    (ps : List ℕ) (to : ℕ) → (to == 0 || contains to ps) ≡ true → Agree to (place ps to) ps
Agree-place [] to h = at_end (ground (arith, h))
Agree-place (p ∷ ps) to h = elim (Bool-cases (p == to)) [
  | inl e ↦ here p ps e (ground (arith, e))
  | inr e ↦
      let rest = Agree-place ps to (ground (arith, h, e)) in
      let same : place (p ∷ ps) to ≡ place ps to = ground (arith, e) in
      subst (λ n. Agree to n (p ∷ ps)) (sym same)
        (beyond p ps e (ground (arith, place-bound ps to)) rest)
]

Agree-far :
    (ps : List ℕ) (to n : ℕ) → (to == 0 || contains to ps) ≡ false → length ps < n → Agree to n ps
Agree-far [] to n h l = at_end (ground (arith, h, l))
Agree-far (p ∷ ps) to n h l =
    beyond p ps (ground (arith, h)) (ground (arith, l))
      (Agree-far ps to n (ground (arith, h)) (omega (arith, l)))

Agree-number : (ps : List ℕ) (to : ℕ) → Agree to (number ps to) ps
Agree-number ps to =
    of_either (λ n. Agree to n ps) (to == 0 || contains to ps) (place ps to) (suc (length ps))
      (λ h. Agree-place ps to h) (λ h. Agree-far ps to (suc (length ps)) h (omega arith))

go_on-continue_with :
    (r : Lowered (Unit {0})) (k : Builder → Option (Lowered (Unit {0})))
    (m : Builder → Lowered (Unit {0}))
    → ((b : Builder) → k b ≡ some (m b))
    → go_on r k ≡ some (continue_with r (λ _. m))
go_on-continue_with (done b a) k m e = e b
go_on-continue_with internal k m e = refl
go_on-continue_with undefined k m e = refl

Chain-length :
    {heap : List IrScope} {p : ℕ} {ps : List ℕ} {ls : List (List ValueSymbol)}
    → Chain heap p ps ls
    → length ls ≡ length ps
Chain-length outermost = refl
Chain-length (inside i s ps ls g c) = ap suc (Chain-length c)

-- One round at a scope that is not the last.
abbrev round_at : ℕ → List IrScope → ℕ → Builder → Option IrScope → Option (Lowered (Unit {0}))
round_at fuel heap to b o = elim o [
  | none ↦ some undefined
  | some s ↦ go_on (emit (cleanup s.locals) b) (cleanup_until fuel heap to s.parent)
]

cleanup_until-Agree :
    (fuel : ℕ) (heap : List IrScope) (to n p : ℕ) (ps : List ℕ) (ls : List (List ValueSymbol))
    (b : Builder)
    → Chain heap p ps ls
    → Agree to n ps
    → length ls < fuel
    → cleanup_until fuel heap to p b ≡ some (cleanup_from n ls b)
unfolding cleanup_until cleanup_from
cleanup_until-Agree zero heap to n p ps ls b c a h = absurd (omega (arith, h))
cleanup_until-Agree (suc fuel) heap to n _ _ _ b outermost (at_end e) h =
    elim (Bool-cases (n == 0)) [ inl z ↦ ground (arith, e, z) | inr z ↦ ground (arith, e, z) ]
cleanup_until-Agree (suc fuel) heap to n _ _ _ b (inside i s ps ls g c) (here p _ e f) h =
    ground (arith, e, f, Chain-length c)
cleanup_until-Agree (suc fuel) heap to n _ _ _ b (inside i s ps ls g c) (beyond p _ e f a) h =
    let later : (n == suc (length ls)) ≡ false = ground (arith, f, Chain-length c) in
    ap (λ t. if t then some (done b tt) else round_at fuel heap to b (get_elem? heap i)) e
    ∙ ap (round_at fuel heap to b) g
    ∙ go_on-continue_with (emit (cleanup s.locals) b) (cleanup_until fuel heap to s.parent)
        (cleanup_from n ls)
        (λ b'. cleanup_until-Agree fuel heap to n s.parent ps ls b' c a (omega (arith, h)))
    ∙ ap (λ t. some ((if t then pure tt else (emit (cleanup s.locals) >> cleanup_from n ls)) b))
        (sym later)

pub cleanup_until-number :
    (fuel : ℕ) (heap : List IrScope) (p to : ℕ) (ps : List ℕ) (b : Builder)
    → Chain heap p ps b.scopes
    → length b.scopes < fuel
    → cleanup_until fuel heap to p b ≡ some (emit_cleanup_until (number ps to) b)
unfolding emit_cleanup_until
cleanup_until-number fuel heap p to ps b c h =
    cleanup_until-Agree fuel heap to (number ps to) p ps b.scopes b c (Agree-number ps to) h

-- `emitCleanupUntil` at a pointer that is not null and is not met on the way from the current scope
-- outwards, such as that of a scope which has been left, ends in an internal error.
pub cleanup_until-internal :
    (fuel : ℕ) (heap : List IrScope) (p to : ℕ) (ps : List ℕ) (b : Builder) (k : BasicBlock)
    → Chain heap p ps b.scopes
    → length b.scopes < fuel
    → (to == 0 || contains to ps) ≡ false
    → get_elem? b.blocks b.current_block ≡ some k
    → cleanup_until fuel heap to p b ≡ some internal
cleanup_until-internal fuel heap p to ps b k c h off g =
    let far : number ps to ≡ suc (length ps) =
      ap (λ t. if t then place ps to else suc (length ps)) off in
    cleanup_until-number fuel heap p to ps b c h
    ∙ ap some
        (emit_cleanup_until-internal (number ps to) b k (omega (arith, far, Chain-length c)) g)
