-- ===== src/Lexer/Progress.antt =====
-- What the lexer reads. From one state to a later one it reads a part of the source, and the line
-- and the column follow from that part.
use mathlib.Core.List.{append_assoc}
use hwarangdo.Prelude.{
  ℕ, ◌+◌, ◌≡◌, ◌≢◌, ◌⊎◌, inl, inr, refl, ap, sym, ◌∙◌, subst, arith, Bool, true, false, ◌&&◌, List,
  [], ◌∷◌, ◌++◌, ◌==◌, if◌then◌else◌, Bool-cases,
}
use hwarangdo.Lexer.{Lexer}
use hwarangdo.Lexer.Cursor.{after, advance, peek, take_while, take_while_from, first, tail}

-- The line and the column behind a text.
unfoldable pub line_after : List ℕ → ℕ → ℕ
line_after [] n = n
line_after (c ∷ s) n = line_after s (if c == 10 then n + 1 else n)

unfoldable pub col_after : List ℕ → ℕ → ℕ
col_after [] n = n
col_after (c ∷ s) n = col_after s (if c == 10 then 1 else n + 1)

pub record Reads (s : List ℕ) (l l' : Lexer) : Type 0 where
  pub src : l.src ≡ s ++ l'.src
  pub line : l'.line ≡ line_after s l.line
  pub col : l'.col ≡ col_after s l.col

pub Reads-refl : (l : Lexer) → Reads [] l l
unfolding line_after col_after
Reads-refl l = record { src = refl; line = refl; col = refl }

line_after-append : (s t : List ℕ) (n : ℕ) → line_after (s ++ t) n ≡ line_after t (line_after s n)
unfolding line_after
line_after-append [] t n = refl
line_after-append (c ∷ s) t n = line_after-append s t (if c == 10 then n + 1 else n)

col_after-append : (s t : List ℕ) (n : ℕ) → col_after (s ++ t) n ≡ col_after t (col_after s n)
unfolding col_after
col_after-append [] t n = refl
col_after-append (c ∷ s) t n = col_after-append s t (if c == 10 then 1 else n + 1)

pub Reads-trans : {s t : List ℕ} {l m n : Lexer} → Reads s l m → Reads t m n → Reads (s ++ t) l n
Reads-trans {s} {t} {l} {m} {n} a b = record {
  src = a.src ∙ ap (λ x. s ++ x) b.src ∙ sym (append_assoc s t n.src);
  line = b.line ∙ ap (line_after t) a.line ∙ sym (line_after-append s t l.line);
  col = b.col ∙ ap (col_after t) a.col ∙ sym (col_after-append s t l.col);
}

pub Reads-after : (c : ℕ) (s : List ℕ) (l : Lexer) → l.src ≡ c ∷ s → Reads (c ∷ []) l (after c s l)
unfolding line_after col_after
Reads-after c s l e = elim (Bool-cases (c == 10)) [
  | inl h ↦ record { src = ground (arith, e, h); line = ground (arith, h); col = ground (arith, h) }
  | inr h ↦ record { src = ground (arith, e, h); line = ground (arith, h); col = ground (arith, h) }
]

pub after-src : (c : ℕ) (s : List ℕ) (l : Lexer) → (after c s l).src ≡ s
after-src c s l = ground arith

pub advance-after : (l : Lexer) (c : ℕ) (s : List ℕ) → l.src ≡ c ∷ s → advance l ≡ after c s l
unfolding advance
advance-after l c s e =
    ap (λ (x : List ℕ). elim x as (λ _. Lexer) [ [] ↦ l | c ∷ s ↦ after c s l ]) e

pub first_split : (s : List ℕ) (c : ℕ) → first s ≡ c → c ≢ 0 → s ≡ c ∷ tail s
first_split [] c e n = absurd (n (sym e))
first_split (x ∷ s) c e n = cc

-- A byte that is seen is read by `get`.
pub Reads-advance : (l : Lexer) (c : ℕ) → peek l ≡ c → c ≢ 0 → Reads (c ∷ []) l (advance l)
Reads-advance l c e n =
    let split = first_split l.src c e n in
    subst (Reads (c ∷ []) l) (sym (advance-after l c (tail l.src) split))
      (Reads-after c (tail l.src) l split)

List-split : (s : List ℕ) → (s ≡ []) ⊎ (s ≡ first s ∷ tail s)
List-split [] = inl refl
List-split (c ∷ s) = inr refl

-- `get` at the end of the source does nothing, and elsewhere it reads the byte that is seen.
pub advance-cases :
    (l : Lexer) → ((l.src ≡ []) × (advance l ≡ l)) ⊎ Reads (peek l ∷ []) l (advance l)
advance-cases l = elim (List-split l.src) [
  | inl e ↦ inl (
    e,
    unfold advance in
        ap (λ (x : List ℕ). elim x as (λ _. Lexer) [ [] ↦ l | c ∷ s ↦ after c s l ]) e,
  )
  | inr e ↦ inr (
      subst (Reads (peek l ∷ []) l) (sym (advance-after l (peek l) (tail l.src) e))
        (Reads-after (peek l) (tail l.src) l e))
]

take_while_from-Reads :
    (test : ℕ → Bool) (s : List ℕ) (l : Lexer)
    → l.src ≡ s
    → Reads (take_while_from test s l).0 l (take_while_from test s l).1
unfolding take_while_from
take_while_from-Reads test [] l e = Reads-refl l
take_while_from-Reads test (c ∷ s) l e = elim (Bool-cases (test c)) [
  | inl h ↦
      let rest =
        Reads-trans (Reads-after c s l e)
          (take_while_from-Reads test s (after c s l) (after-src c s l)) in
      rw h rest
  | inr h ↦ rw h (Reads-refl l)
]

pub take_while-Reads :
    (test : ℕ → Bool) (l : Lexer) → Reads (take_while test l).0 l (take_while test l).1
unfolding take_while
take_while-Reads test l = take_while_from-Reads test l.src l refl

abbrev pub all : (ℕ → Bool) → List ℕ → Bool
all test [] = true
all test (c ∷ s) = test c && all test s

take_while_from-all :
    (test : ℕ → Bool) (s : List ℕ) (l : Lexer)
    → l.src ≡ s
    → (all test (take_while_from test s l).0 ≡ true)
      × (test 0 ≡ false → test (peek (take_while_from test s l).1) ≡ false)
unfolding take_while_from
take_while_from-all test [] l e = (refl, λ z. ap (λ x. test (first x)) e ∙ z)
take_while_from-all test (c ∷ s) l e = elim (Bool-cases (test c)) [
  | inl h ↦
      let rest = take_while_from-all test s (after c s l) (after-src c s l) in
      rw h (ground (arith, rest.0), rest.1)
  | inr h ↦ rw h (refl, λ z. ap (λ x. test (first x)) e ∙ h)
]

-- What is read passes the test, and the byte behind it does not.
pub take_while-all :
    (test : ℕ → Bool) (l : Lexer)
    → (all test (take_while test l).0 ≡ true)
      × (test 0 ≡ false → test (peek (take_while test l).1) ≡ false)
unfolding take_while
take_while-all test l = take_while_from-all test l.src l refl
