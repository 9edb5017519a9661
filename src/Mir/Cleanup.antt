-- ===== src/Mir/Cleanup.antt =====
-- What a statement that leaves scopes cleans up: `emitCleanupUntil` of src/IR/MIR/MIRScope.cpp.
use mathlib.Core.List.{append_assoc, append-nil}
use hwarangdo.Prelude.{
  ℕ, zero, suc, ◌-◌, ◌≤◌, ◌<◌, ◌≡◌, refl, sym, ap, ◌∙◌, inl, inr, false, some, List, [], ◌∷◌, ◌++◌,
  map, arith, ◌==◌, if◌then◌else◌, Bool-cases, some-eq, length, get_elem?, set, get_elem?-set_self,
  take, get_elem?-lt,
}
use hwarangdo.Mir.{ValueSymbol, Statement, cleanup, BasicBlock}
use hwarangdo.Mir.State.{
  Builder, internal, done, pure, continue_with, ◌>>◌, emit, cleanup_from, emit_cleanup_until,
}
use hwarangdo.Mir.Wf.{continue_with-done}
use hwarangdo.Mir.Rules.{get_block-done}

-- `s` is at the end of the block `id`, behind what `k` holds.
abbrev pub Emitted : ℕ → BasicBlock → List Statement → Builder → Type 0
Emitted id k s b =
    (k' : BasicBlock) × (get_elem? b.blocks id ≡ some k')
    × (k'.stmts ≡ k.stmts ++ s)
    × (k'.terminator ≡ k.terminator)
    × (b.current_block ≡ id)

emit-done :
    (s : Statement) (b : Builder) (k : BasicBlock)
    → get_elem? b.blocks b.current_block ≡ some k
    → emit s b
      ≡ done
          (record b {
            blocks = set b.blocks b.current_block (record k { stmts = k.stmts ++ s ∷ [] });
          })
          tt
unfolding emit
emit-done s b k g =
    let (k', g', e) =
      get_block-done b.current_block b (get_elem?-lt b.blocks b.current_block k g) in
    continue_with-done _ e
    ∙ ap
        (λ l.
          done
            (record b {
              blocks = set b.blocks b.current_block (record l { stmts = l.stmts ++ s ∷ [] });
            })
            tt)
        (some-eq (sym g' ∙ g))

cleanup_from-Emitted :
    (n : ℕ) (s : List (List ValueSymbol)) (b : Builder) (k : BasicBlock)
    → n ≤ length s
    → get_elem? b.blocks b.current_block ≡ some k
    → (b' : Builder) × (cleanup_from n s b ≡ done b' tt)
      × Emitted b.current_block k (map cleanup (take (length s - n) s)) b'
unfolding cleanup_from
cleanup_from-Emitted zero [] b k h g = (b, refl, (k, g, sym (append-nil k.stmts), refl, refl))
cleanup_from-Emitted (suc n) [] b k h g = absurd (omega arith)
cleanup_from-Emitted n (l ∷ s) b k h g = elim (Bool-cases (n == suc (length s))) [
  | inl e ↦
      let none_left : suc (length s) - n ≡ 0 = ground (arith, e) in
      (
        b,
        ground (arith, e),
        (
          k,
          g,
          sym (append-nil k.stmts)
              ∙ ap (λ m. k.stmts ++ map cleanup (take m (l ∷ s))) (sym none_left),
          refl,
          refl,
        ),
      )
  | inr e ↦
      let k1 : BasicBlock = record k { stmts = k.stmts ++ cleanup l ∷ [] } in
      let b1 : Builder = record b { blocks = set b.blocks b.current_block k1 } in
      let here =
        get_elem?-set_self b.blocks b.current_block k1
          (get_elem?-lt b.blocks b.current_block k g) in
      let (b2, run, (k2, g2, stmts, ended, at)) =
        cleanup_from-Emitted n s b1 k1 (ground (arith, h, e)) here in
      let one_more : suc (length s) - n ≡ suc (length s - n) = ground (arith, h, e) in
      let turn : cleanup_from n (l ∷ s) b
          ≡ continue_with (emit (cleanup l) b) (λ _. cleanup_from n s) =
        ap (λ t. (if t then pure tt else (emit (cleanup l) >> cleanup_from n s)) b) e in
      (
        b2,
        turn ∙ continue_with-done _ (emit-done (cleanup l) b k g) ∙ run,
        (
          k2,
          g2,
          stmts
              ∙ append_assoc k.stmts (cleanup l ∷ []) (map cleanup (take (length s - n) s))
              ∙ ap (λ m. k.stmts ++ map cleanup (take m (l ∷ s))) (sym one_more),
          ended,
          at,
        ),
      )
]

-- `emitCleanupUntil`, at an enclosing scope or the null pointer, cleans up the scopes from the current
-- one to it, that one not included, each once and the innermost first, at the end of the current block.
-- The block's terminator and the choice of the current block stay.
pub emit_cleanup_until-Emitted :
    (n : ℕ) (b : Builder) (k : BasicBlock)
    → n ≤ length b.scopes
    → get_elem? b.blocks b.current_block ≡ some k
    → (b' : Builder) × (emit_cleanup_until n b ≡ done b' tt)
      × Emitted b.current_block k (map cleanup (take (length b.scopes - n) b.scopes)) b'
unfolding emit_cleanup_until
emit_cleanup_until-Emitted n b k h g = cleanup_from-Emitted n b.scopes b k h g

cleanup_from-internal :
    (n : ℕ) (s : List (List ValueSymbol)) (b : Builder) (k : BasicBlock)
    → length s < n
    → get_elem? b.blocks b.current_block ≡ some k
    → cleanup_from n s b ≡ internal
unfolding cleanup_from
cleanup_from-internal n [] b k h g =
    let other : (n == 0) ≡ false = ground (arith, h) in
    ap (λ t. (if t then pure tt else λ b. internal) b) other
cleanup_from-internal n (l ∷ s) b k h g =
    let other : (n == suc (length s)) ≡ false = ground (arith, h) in
    let k1 : BasicBlock = record k { stmts = k.stmts ++ cleanup l ∷ [] } in
    let b1 : Builder = record b { blocks = set b.blocks b.current_block k1 } in
    let here =
      get_elem?-set_self b.blocks b.current_block k1 (get_elem?-lt b.blocks b.current_block k g) in
    ap (λ t. (if t then pure tt else (emit (cleanup l) >> cleanup_from n s)) b) other
    ∙ continue_with-done _ (emit-done (cleanup l) b k g)
    ∙ cleanup_from-internal n s b1 k1 (omega (arith, h)) here

-- A number above that of the scopes is an internal error.
pub emit_cleanup_until-internal :
    (n : ℕ) (b : Builder) (k : BasicBlock)
    → length b.scopes < n
    → get_elem? b.blocks b.current_block ≡ some k
    → emit_cleanup_until n b ≡ internal
unfolding emit_cleanup_until
emit_cleanup_until-internal n b k h g = cleanup_from-internal n b.scopes b k h g
