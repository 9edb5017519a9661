-- ===== src/Lexer/CommentEnds.antt =====
-- Where the loops over comments end, and when they never do.
use hwarangdo.Prelude.{
  ◌&&◌, ◌||◌, ℕ, zero, suc, ◌≡◌, ◌⊎◌, inl, inr, refl, ap, sym, ◌∙◌, subst, arith, Bool, true, false,
  not, none, some, List, [], ◌∷◌, ◌++◌, ◌==◌, if◌then◌else◌, Bool-cases, of_either,
}
use hwarangdo.Lexer.{Lexer, Lexed, got, runs_on}
use hwarangdo.Lexer.Cursor.{
  after, advance, peek, first, tail, line_comment_loop, block_comment_loop, line_comment,
  block_comment,
}
use hwarangdo.Lexer.Progress.{
  all, Reads, Reads-refl, Reads-trans, Reads-after, after-src, advance-after, first_split,
}
use hwarangdo.Lexer.Comments.{
  line_comment_from, block_comment_from, line_comment_lem, block_comment_lem, line_comment_loop-nil,
  block_comment_loop-nil,
}

abbrev pub no_newline : ℕ → Bool
no_newline c = not (c == 10)

line_comment_loop-none :
    (fuel : ℕ) (s : List ℕ) (l : Lexer)
    → l.src ≡ s
    → all no_newline s ≡ true
    → line_comment_loop fuel l ≡ none
unfolding line_comment_loop
line_comment_loop-none zero s l e h = refl
line_comment_loop-none (suc fuel) [] l e h = line_comment_loop-nil (suc fuel) l e
line_comment_loop-none (suc fuel) (c ∷ s) l e h =
    let at : peek l ≡ c = ap first e in
    let other : (c == 10) ≡ false = ground (arith, h) in
    let rest = line_comment_loop-none fuel s (after c s l) (after-src c s l) (ground (arith, h)) in
    of_either (λ o. o ≡ none) (peek l == 10) (some l) (line_comment_loop fuel (advance l))
      (λ g. absurd (ground (arith, g, at, other)))
      (λ _. ap (line_comment_loop fuel) (advance-after l c s e) ∙ rest)

-- Where the loop over a line comment ends, or that it does not.
abbrev pub Stops : Lexer → Lexed Lexer → Type 0
Stops l r =
    (body : List ℕ) × (l' : Lexer) × (r ≡ got l')
    × Reads body l l'
    × (all no_newline body ≡ true)
    × (peek l' ≡ 10)

line_comment_from-cases :
    (s : List ℕ) (l : Lexer)
    → l.src ≡ s
    → Stops l (line_comment_from s l)
      ⊎ (line_comment_from s l ≡ runs_on) × (all no_newline s ≡ true)
unfolding line_comment_from
line_comment_from-cases [] l e = inr (refl, refl)
line_comment_from-cases (c ∷ s) l e = elim (Bool-cases (c == 10)) [
  | inl h ↦ inl ([], l, ground (arith, h), Reads-refl l, refl, ground (arith, ap first e, h))
  | inr h ↦
      let step : line_comment_from (c ∷ s) l ≡ line_comment_from s (after c s l) =
        ap (λ b. if b then got l else line_comment_from s (after c s l)) h in
      elim (line_comment_from-cases s (after c s l) (after-src c s l)) [
        | inl (body, l', f, a, every, at) ↦ inl (
          c ∷ body,
          l',
          step ∙ f,
          Reads-trans (Reads-after c s l e) a,
          ground (arith, h, every),
          at,
        )
        | inr (f, every) ↦ inr (step ∙ f, ground (arith, h, every))
      ]
]

-- The loop over a line comment ends at the first newline, from where it has read the bytes before it.
-- If no newline is left in the source, no number of rounds ends it.
pub line_comment-cases :
    (l : Lexer)
    → Stops l (line_comment l)
      ⊎ ((fuel : ℕ) → line_comment_loop fuel l ≡ none)
        × (line_comment l ≡ runs_on)
        × (all no_newline l.src ≡ true)
line_comment-cases l = elim (line_comment_from-cases l.src l refl) [
  | inl (body, l', f, a, every, at) ↦ inl (body, l', line_comment_lem l ∙ f, a, every, at)
  | inr (f, every) ↦
      inr ((λ fuel. line_comment_loop-none fuel l.src l refl every), line_comment_lem l ∙ f, every)
]

-- Whether `*/` is in a text.
abbrev pub has_close : List ℕ → Bool
has_close [] = false
has_close (c ∷ s) = c == 42 && first s == 47 || has_close s

block_comment_loop-none :
    (fuel : ℕ) (s : List ℕ) (l : Lexer)
    → l.src ≡ s
    → has_close s ≡ false
    → block_comment_loop fuel l ≡ none
unfolding block_comment_loop
block_comment_loop-none zero s l e h = refl
block_comment_loop-none (suc fuel) [] l e h = block_comment_loop-nil (suc fuel) l e
block_comment_loop-none (suc fuel) (c ∷ s) l e h =
    let at : peek l ≡ c = ap first e in
    let next : peek (after c s l) ≡ first s = ap first (after-src c s l) in
    let rest = block_comment_loop-none fuel s (after c s l) (after-src c s l) (ground (arith, h)) in
    rw at (
      rw (advance-after l c s e) (
        rw next (elim (Bool-cases (c == 42)) [
          | inr g ↦ rw g rest
          | inl g ↦
              let other : (first s == 47) ≡ false = ground (arith, g, h) in rw g (rw other rest)
        ])))

-- A block comment is read up to its first `*/`.
abbrev pub Closes : Lexer → Lexed Lexer → Type 0
Closes l r =
    (body : List ℕ) × (l' : Lexer) × (r ≡ got l')
    × Reads (body ++ 42 ∷ 47 ∷ []) l l'
    × (has_close (body ++ 42 ∷ []) ≡ false)

first-close : (body t : List ℕ) → first ((body ++ 42 ∷ 47 ∷ []) ++ t) ≡ first (body ++ 42 ∷ [])
first-close [] t = refl
first-close (c ∷ body) t = refl

Closes-later :
    (c : ℕ) (s : List ℕ) (l : Lexer) (r : Lexed Lexer)
    → l.src ≡ c ∷ s
    → (c == 42 && first s == 47) ≡ false
    → Closes (after c s l) r
    → Closes l r
Closes-later c s l r e other (body, l', f, a, never) =
    let rest : s ≡ (body ++ 42 ∷ 47 ∷ []) ++ l'.src = sym (after-src c s l) ∙ a.src in
    let same : first s ≡ first (body ++ 42 ∷ []) = ap first rest ∙ first-close body l'.src in
    let first_other : (c == 42 && first (body ++ 42 ∷ []) == 47) ≡ false =
      ap (λ x. c == 42 && x == 47) (sym same) ∙ other in
    (c ∷ body, l', f, Reads-trans (Reads-after c s l e) a, ground (arith, first_other, never))

block_comment_from-cases :
    (s : List ℕ) (l : Lexer)
    → l.src ≡ s
    → Closes l (block_comment_from s l) ⊎ (block_comment_from s l ≡ runs_on) × (has_close s ≡ false)
unfolding block_comment_from
block_comment_from-cases [] l e = inr (refl, refl)
block_comment_from-cases (c ∷ s) l e = elim (Bool-cases (c == 42 && first s == 47)) [
  | inl h ↦
      let split = first_split s 47 (ground (arith, h)) (λ z. omega (arith, z)) in
      let star : c ≡ 42 = ground (arith, h) in
      let both =
        Reads-trans (Reads-after c s l e)
          (Reads-after 47 (tail s) (after c s l) (after-src c s l ∙ split)) in
      inl (
        [],
        after 47 (tail s) (after c s l),
        ground (arith, h),
        subst (λ x. Reads (x ∷ 47 ∷ []) l (after 47 (tail s) (after c s l))) star both,
        refl,
      )
  | inr h ↦
      let step : block_comment_from (c ∷ s) l ≡ block_comment_from s (after c s l) =
        ground (arith, h) in
      elim (block_comment_from-cases s (after c s l) (after-src c s l)) [
        | inl found ↦ inl (
            subst (Closes l) (sym step)
              (Closes-later c s l (block_comment_from s (after c s l)) e h found))
        | inr (f, never) ↦ inr (step ∙ f, ground (arith, h, never))
      ]
]

-- The loop over a block comment reads the bytes up to the first `*/`, and that. If no `*/` is left in
-- the source, no number of rounds ends it.
pub block_comment-cases :
    (l : Lexer)
    → Closes l (block_comment l)
      ⊎ ((fuel : ℕ) → block_comment_loop fuel l ≡ none)
        × (block_comment l ≡ runs_on)
        × (has_close l.src ≡ false)
block_comment-cases l = elim (block_comment_from-cases l.src l refl) [
  | inl found ↦ inl (subst (Closes l) (sym (block_comment_lem l)) found)
  | inr (f, never) ↦
      inr
        ((λ fuel. block_comment_loop-none fuel l.src l refl never), block_comment_lem l ∙ f, never)
]
