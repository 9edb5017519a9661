-- ===== src/Lexer/Comments.antt =====
-- The loops over comments against the bytes that are left: where they end, and when they never do.
use hwarangdo.Prelude.{
  ℕ, zero, suc, ◌≡◌, ◌<◌, inl, inr, refl, ap, sym, ◌∙◌, subst, arith, Bool, true, false, Option,
  none, some, List, [], ◌∷◌, ◌++◌, ◌==◌, ==_iff, if◌then◌else◌, length, Bool-cases, of_either,
}
use hwarangdo.Lexer.{diagnostic, Lexer, Lexed, got, runs_on}
use hwarangdo.Lexer.Cursor.{
  after, advance, peek, first, tail, line_comment_loop, block_comment_loop, ended, line_comment,
  block_comment,
}
use hwarangdo.Lexer.Progress.{
  Reads, Reads-refl, Reads-trans, Reads-after, after-src, advance-after, first_split,
}

-- The state at the first newline.
unfoldable pub line_comment_from : List ℕ → Lexer → Lexed Lexer
line_comment_from [] l = runs_on
line_comment_from (c ∷ s) l =
    let rest = line_comment_from s (after c s l) in if c == 10 then got l else rest

-- The state behind the first `*/`.
unfoldable pub block_comment_from : List ℕ → Lexer → Lexed Lexer
block_comment_from [] l = runs_on
block_comment_from (c ∷ s) l =
    let l' = after c s l in
    let rest = block_comment_from s l' in
    if c == 42 then (if first s == 47 then got (after 47 (tail s) l') else rest) else rest

advance-nil : (l : Lexer) → l.src ≡ [] → advance l ≡ l
unfolding advance
advance-nil l e = ap (λ t. elim t [ [] ↦ l | c ∷ s ↦ after c s l ]) e

-- At the end of the source no number of rounds ends the loops.
pub line_comment_loop-nil : (fuel : ℕ) (l : Lexer) → l.src ≡ [] → line_comment_loop fuel l ≡ none
unfolding line_comment_loop
line_comment_loop-nil zero l e = refl
line_comment_loop-nil (suc fuel) l e =
    let at : peek l ≡ 0 = ap first e in
    of_either (λ o. o ≡ none) (peek l == 10) (some l) (line_comment_loop fuel (advance l))
      (λ h. absurd (ground (arith, h, at)))
      (λ h. ap (line_comment_loop fuel) (advance-nil l e) ∙ line_comment_loop-nil fuel l e)

pub block_comment_loop-nil : (fuel : ℕ) (l : Lexer) → l.src ≡ [] → block_comment_loop fuel l ≡ none
unfolding block_comment_loop
block_comment_loop-nil zero l e = refl
block_comment_loop-nil (suc fuel) l e =
    let at : peek l ≡ 0 = ap first e in
    let other : (peek l == 42) ≡ false = ground (arith, at) in
    rw other (ap (block_comment_loop fuel) (advance-nil l e) ∙ block_comment_loop-nil fuel l e)

ended-if :
    (b : Bool) (l : Lexer) (o : Option Lexer) (r : Lexed Lexer)
    → ended o ≡ r
    → ended (if b then some l else o) ≡ (if b then got l else r)
ended-if true l o r e = refl
ended-if false l o r e = e

line_comment_loop-ended :
    (fuel : ℕ) (s : List ℕ) (l : Lexer)
    → l.src ≡ s
    → length s < fuel
    → ended (line_comment_loop fuel l) ≡ line_comment_from s l
unfolding line_comment_loop line_comment_from
line_comment_loop-ended fuel [] l e h = ap ended (line_comment_loop-nil fuel l e)
line_comment_loop-ended zero (c ∷ s) l e h = absurd (omega (arith, h))
line_comment_loop-ended (suc fuel) (c ∷ s) l e h =
    let at : peek l ≡ c = ap first e in
    let rest =
      ap (λ m. ended (line_comment_loop fuel m)) (advance-after l c s e)
      ∙ line_comment_loop-ended fuel s (after c s l) (after-src c s l) (omega (arith, h)) in
    rw at (ended-if (c == 10) l _ _ rest)

block_comment_loop-ended :
    (fuel : ℕ) (s : List ℕ) (l : Lexer)
    → l.src ≡ s
    → length s < fuel
    → ended (block_comment_loop fuel l) ≡ block_comment_from s l
unfolding block_comment_loop block_comment_from
block_comment_loop-ended fuel [] l e h = ap ended (block_comment_loop-nil fuel l e)
block_comment_loop-ended zero (c ∷ s) l e h = absurd (omega (arith, h))
block_comment_loop-ended (suc fuel) (c ∷ s) l e h =
    let at : peek l ≡ c = ap first e in
    let rest = block_comment_loop-ended fuel s (after c s l) (after-src c s l) (omega (arith, h)) in
    let next : peek (after c s l) ≡ first s = ap first (after-src c s l) in
    rw at (
      rw (advance-after l c s e) (
        rw next (elim (Bool-cases (c == 42)) [
          | inr h ↦ rw h rest
          | inl h ↦ rw h (elim (Bool-cases (first s == 47)) [
            | inr g ↦ rw g rest
            | inl g ↦
                let split = first_split s 47 ((==_iff (first s) 47).0 g) (λ z. omega (arith, z)) in
                rw g (ap got (advance-after (after c s l) 47 (tail s) (after-src c s l ∙ split)))
          ])
        ])))

pub line_comment_lem : (l : Lexer) → line_comment l ≡ line_comment_from l.src l
unfolding line_comment
line_comment_lem l = line_comment_loop-ended (suc (length l.src)) l.src l refl (omega arith)

pub block_comment_lem : (l : Lexer) → block_comment l ≡ block_comment_from l.src l
unfolding block_comment
block_comment_lem l = block_comment_loop-ended (suc (length l.src)) l.src l refl (omega arith)

-- The state that a loop of a comment ends with is behind some text.
abbrev pub Behind : Lexer → Lexed Lexer → Type 0
Behind l (got l') = (body : List ℕ) × Reads body l l'
Behind l _ = Unit

Behind-trans : (s : List ℕ) (l m : Lexer) (r : Lexed Lexer) → Reads s l m → Behind m r → Behind l r
Behind-trans s l m (got l') a (body, b) = (s ++ body, Reads-trans a b)
Behind-trans s l m (diagnostic e) a b = tt
Behind-trans s l m runs_on a b = tt

line_comment_from-Behind : (s : List ℕ) (l : Lexer) → l.src ≡ s → Behind l (line_comment_from s l)
unfolding line_comment_from
line_comment_from-Behind [] l e = tt
line_comment_from-Behind (c ∷ s) l e =
    of_either (Behind l) (c == 10) (got l) (line_comment_from s (after c s l))
      (λ h. ([], Reads-refl l))
      (λ h.
        Behind-trans (c ∷ []) l (after c s l) _ (Reads-after c s l e)
          (line_comment_from-Behind s (after c s l) (after-src c s l)))

block_comment_from-Behind : (s : List ℕ) (l : Lexer) → l.src ≡ s → Behind l (block_comment_from s l)
unfolding block_comment_from
block_comment_from-Behind [] l e = tt
block_comment_from-Behind (c ∷ s) l e =
    let l' = after c s l in
    let rest = block_comment_from s l' in
    let more =
      Behind-trans (c ∷ []) l l' rest (Reads-after c s l e)
        (block_comment_from-Behind s l' (after-src c s l)) in
    of_either (Behind l) (c == 42) (if first s == 47 then got (after 47 (tail s) l') else rest) rest
      (λ h.
        of_either (Behind l) (first s == 47) (got (after 47 (tail s) l')) rest
          (λ g.
            let split = first_split s 47 ((==_iff (first s) 47).0 g) (λ z. omega (arith, z)) in
            (
              c ∷ 47 ∷ [],
              Reads-trans (Reads-after c s l e)
                  (Reads-after 47 (tail s) l' (after-src c s l ∙ split)),
            ))
          (λ g. more))
      (λ h. more)

-- A block comment that ends does so behind its first byte.
block_comment_from-Behind_first :
    (c : ℕ) (s : List ℕ) (l : Lexer)
    → l.src ≡ c ∷ s
    → Behind (after c s l) (block_comment_from (c ∷ s) l)
unfolding block_comment_from
block_comment_from-Behind_first c s l e =
    let l' = after c s l in
    let rest = block_comment_from s l' in
    let more = block_comment_from-Behind s l' (after-src c s l) in
    of_either (Behind l') (c == 42) (if first s == 47 then got (after 47 (tail s) l') else rest)
      rest
      (λ h.
        of_either (Behind l') (first s == 47) (got (after 47 (tail s) l')) rest
          (λ g.
            let split = first_split s 47 ((==_iff (first s) 47).0 g) (λ z. omega (arith, z)) in
            (47 ∷ [], Reads-after 47 (tail s) l' (after-src c s l ∙ split)))
          (λ g. more))
      (λ h. more)

pub line_comment-Behind : (l : Lexer) → Behind l (line_comment l)
line_comment-Behind l =
    subst (Behind l) (sym (line_comment_lem l)) (line_comment_from-Behind l.src l refl)

-- A block comment that ends does so behind its first byte.
pub block_comment-Behind_first :
    (c : ℕ) (s : List ℕ) (l : Lexer) → l.src ≡ c ∷ s → Behind (after c s l) (block_comment l)
block_comment-Behind_first c s l e =
    subst (Behind (after c s l))
      (ap (λ t. block_comment_from t l) (sym e) ∙ sym (block_comment_lem l))
      (block_comment_from-Behind_first c s l e)
