-- ===== src/Lexer/Located.antt =====
-- Where the tokens of a source lie.
use mathlib.Core.List.{append_assoc}
use hwarangdo.Prelude.{
  ℕ, zero, suc, ◌≡◌, inl, inr, refl, ap, sym, ◌∙◌, subst, arith, false, some, List, [], ◌∷◌, ◌++◌,
  ◌==◌, Bool-cases, Option-cases,
}
use hwarangdo.Lexer.{Span, Token, Lexer, Lexed, got, diagnostic, runs_on}
use hwarangdo.Lexer.Cursor.{peek}
use hwarangdo.Lexer.Progress.{Reads, Reads-refl, Reads-trans}
use hwarangdo.Lexer.Scan.{scan}
use hwarangdo.Lexer.Spelling.{Spells, Read, byte}
use hwarangdo.Lexer.Progress.{line_after, col_after}
use hwarangdo.Lexer.Scan.{is_empty, push, lexing_from, lexing}
use hwarangdo.Lexer.Ends.{scan-Read, Lexed-cases}

-- Behind the part `before` of the source, `raw` is read for a token, whose span has the line and the
-- column of both of its ends.
pub record Located (l₀ : Lexer) (before raw : List ℕ) (t : Token) : Type 0 where
  pub rest : List ℕ
  pub src : l₀.src ≡ before ++ raw ++ rest
  pub spells : Spells t.kind t.text raw
  pub line : t.span.line ≡ line_after before l₀.line
  pub col : t.span.col ≡ col_after before l₀.col
  pub end_line : t.span.end_line ≡ line_after (before ++ raw) l₀.line
  pub end_col : t.span.end_col ≡ col_after (before ++ raw) l₀.col

-- The tokens lie in the source in their order, behind `p`, and none overlaps the next.
pub data Tiled (l₀ : Lexer) : List ℕ → List Token → Type 0 where
  no_token : {p : List ℕ} → Tiled l₀ p []
  token :
      {p : List ℕ} {t : Token} {ts : List Token} (gap before raw : List ℕ)
      → before ≡ p ++ gap
      → Located l₀ before raw t
      → Tiled l₀ (before ++ raw) ts
      → Tiled l₀ p (t ∷ ts)

Tiled-wider :
    (l₀ : Lexer) {p q : List ℕ} {ts : List Token} (g : List ℕ)
    → q ≡ p ++ g
    → Tiled l₀ q ts
    → Tiled l₀ p ts
Tiled-wider l₀ g e no_token = no_token
Tiled-wider l₀ {p} g e (token gap before raw f a b) =
    token (g ++ gap) before raw (f ∙ ap (λ x. x ++ gap) e ∙ append_assoc p g gap) a b

-- A token that is read behind `p` is located there.
Read-Located :
    {l₀ start l : Lexer} {t : Token} (before : List ℕ)
    → Reads before l₀ start
    → (r : Read start t l) → Located l₀ before r.raw t × Reads (before ++ r.raw) l₀ l
Read-Located {l₀} {start} {l} {t} before a r =
    let both = Reads-trans a r.reads in
    (
      record {
        rest = l.src;
        src = both.src;
        spells = r.spells;
        line = ap (λ (x : Span). x.line) r.span ∙ a.line;
        col = ap (λ (x : Span). x.col) r.span ∙ a.col;
        end_line = ap (λ (x : Span). x.end_line) r.span ∙ both.line;
        end_col = ap (λ (x : Span). x.end_col) r.span ∙ both.col;
      },
      both,
    )

pushed :
    (l₀ : Lexer) (p gap before raw : List ℕ) (t : Token) (ts : List Token)
    → before ≡ p ++ gap
    → Located l₀ before raw t
    → Tiled l₀ (before ++ raw) ts
    → (ts' : List Token) → push t (got ts) ≡ got ts'
    → Tiled l₀ p ts'
pushed l₀ p gap before raw t ts e a rest ts' h = elim (Bool-cases (is_empty t.kind)) [
  | inl k ↦
      let same : ts ≡ ts' = ground (arith, h, k) in
      subst (Tiled l₀ p) same
        (Tiled-wider l₀ (gap ++ raw) (ap (λ x. x ++ raw) e ∙ append_assoc p gap raw) rest)
  | inr k ↦
      let same : t ∷ ts ≡ ts' = ground (arith, h, k) in
      subst (Tiled l₀ p) same (token gap before raw e a rest)
]

push-got :
    (t : Token) (r : Lexed (List Token)) (ts' : List Token)
    → push t r ≡ got ts'
    → (ts : List Token) × (r ≡ got ts)
push-got t (got ts) ts' h = (ts, refl)
push-got t (diagnostic e) ts' h = absurd (cc h)
push-got t runs_on ts' h = absurd (cc h)

lexing_from-step :
    (fuel : ℕ) (l : Lexer) (ts : List Token)
    → (peek l == 0) ≡ false
    → lexing_from (suc fuel) l ≡ some (got ts)
    → (t : Token) × (l' : Lexer) × (ts' : List Token) × (scan l ≡ got (t, l'))
      × (lexing_from fuel l' ≡ some (got ts'))
      × (push t (got ts') ≡ got ts)
lexing_from-step fuel l ts e h = elim (Lexed-cases (scan l)) [
  | inl ((t, l'), f) ↦ elim (Option-cases (lexing_from fuel l')) [
    | inl g ↦ absurd (unfold lexing_from in ground (arith, e, f, g, h))
    | inr (r, g) ↦
        let done : push t r ≡ got ts = unfold lexing_from in ground (arith, e, f, g, h) in
        let (ts', q) = push-got t r ts done in
        (t, l', ts', f, g ∙ ap (λ x. some x) q, sym (ap (push t) q) ∙ done)
  ]
  | inr (inl (x, f)) ↦ absurd (unfold lexing_from in ground (arith, e, f, h))
  | inr (inr f) ↦ absurd (unfold lexing_from in ground (arith, e, f, h))
]

at_end_Tiled :
    (fuel : ℕ) (l₀ l : Lexer) (p : List ℕ) (ts : List Token)
    → peek l ≡ 0
    → lexing_from fuel l ≡ some (got ts)
    → Tiled l₀ p ts
unfolding lexing_from
at_end_Tiled zero l₀ l p [] e h = no_token
at_end_Tiled (suc fuel) l₀ l p [] e h = no_token
at_end_Tiled zero l₀ l p (t ∷ ts) e h = absurd (ground (arith, e, h))
at_end_Tiled (suc fuel) l₀ l p (t ∷ ts) e h = absurd (ground (arith, e, h))

lexing_from-Tiled :
    (fuel : ℕ) (l₀ l : Lexer) (p : List ℕ) (ts : List Token)
    → Reads p l₀ l
    → lexing_from fuel l ≡ some (got ts)
    → Tiled l₀ p ts
lexing_from-Tiled zero l₀ l p ts a h = elim (Bool-cases (peek l == 0)) [
  | inl e ↦ at_end_Tiled zero l₀ l p ts (byte (peek l) 0 e) h
  | inr e ↦ absurd (unfold lexing_from in ground (arith, e, h))
]
lexing_from-Tiled (suc fuel) l₀ l p ts a h = elim (Bool-cases (peek l == 0)) [
  | inl e ↦ at_end_Tiled (suc fuel) l₀ l p ts (byte (peek l) 0 e) h
  | inr e ↦
      let (t, l', ts', f, g, q) = lexing_from-step fuel l ts e h in
      let (blank, start, b, _, _, read) = scan-Read l l' t f in
      let (here, both) = Read-Located (p ++ blank) (Reads-trans a b) read in
      pushed l₀ p blank (p ++ blank) read.raw t ts' refl here
        (lexing_from-Tiled fuel l₀ l' ((p ++ blank) ++ read.raw) ts' both g) ts q
]

-- When `lexing` ends with tokens, they lie in the source in their order and without overlap: what
-- was read for each of them is its text, with the quotes of a literal, and its span has the line and
-- the column where that begins and those where it ends, counted from the front of the source.
pub lexing-Tiled :
    (fuel : ℕ) (src : List ℕ) (ts : List Token)
    → lexing fuel src ≡ some (got ts)
    → Tiled (record { src = src; line = 1; col = 1 }) [] ts
unfolding lexing
lexing-Tiled fuel src ts h =
    let l₀ : Lexer = record { src = src; line = 1; col = 1 } in
    lexing_from-Tiled fuel l₀ l₀ [] ts (Reads-refl l₀) h
