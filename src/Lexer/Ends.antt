-- ===== src/Lexer/Ends.antt =====
-- `scan` and `lexing` as a whole: where tokens lie in the source, and that the loop ends.
use hwarangdo.Prelude.{
  ℕ, zero, suc, ◌+◌, ◌≤◌, ◌<◌, ◌≡◌, ◌≢◌, ◌⊎◌, inl, inr, refl, ap, ◌∙◌, subst, arith, true, false,
  Option, none, some, List, [], ◌∷◌, ◌==◌, length, length-append, Bool-cases, of_either,
}
use hwarangdo.Lexer.{
  TKind, dot, double_dot, plus, minus, star, double_star, percent, equal, plus_equal, minus_equal,
  star_equal, double_star_equal, percent_equal, caret_equal, ampersand_equal, pipe_equal,
  double_angle_equal, double_right_angle_equal, double_equal, bang_equal, less, greater, less_equal,
  greater_equal, bang, and, or, end, double_angle, equal_angle, caret, ampersand, pipe,
  double_right_angle, Token, Lexer, LexError, Lexed, got, diagnostic, runs_on,
}
use hwarangdo.Lexer.Cursor.{advance, peek, is_space, take_while, skip_ws}
use hwarangdo.Lexer.Progress.{
  Reads, Reads-refl, Reads-advance, take_while-Reads, take_while-all, all,
}
use hwarangdo.Lexer.Scan.{Scanned, make, single, scan_operator, scan_literal, scan_token, scan}
use hwarangdo.Lexer.Cursor.{first}
use hwarangdo.Lexer.Spelling.{
  is_plain, plainly, Read, Good, make-Good, byte, pair-Good, either-Good, doubled-Good,
}
use hwarangdo.Lexer.Tokens.{slash-Good, literal-Good}
use hwarangdo.Lexer.Scan.{push, lexing_from, lexing}

abbrev GoodIf : Lexer → Option Scanned → Type 0
GoodIf start none = Unit
GoodIf start (some r) = Good start r

operator-Good : (start : Lexer) → GoodIf start (scan_operator (peek start) start)
unfolding scan_operator
operator-Good start =
    let P = GoodIf start in
    let c = peek start in
    of_either P (c == 46) _ _
      (λ h.
        pair-Good 46 46 dot double_dot start h (λ z. omega (arith, z)) (λ z. omega (arith, z)) refl
          refl)
      (λ _.
        of_either P (c == 43) _ _
          (λ h.
            pair-Good 43 61 plus plus_equal start h (λ z. omega (arith, z)) (λ z. omega (arith, z))
              refl refl)
          (λ _.
            of_either P (c == 45) _ _
              (λ h.
                pair-Good 45 61 minus minus_equal start h (λ z. omega (arith, z))
                  (λ z. omega (arith, z)) refl refl)
              (λ _.
                of_either P (c == 42) _ _
                  (λ h.
                    doubled-Good 42 star star_equal double_star double_star_equal start h
                      (λ z. omega (arith, z)) refl refl refl refl)
                  (λ _.
                    of_either P (c == 47) _ _ (λ h. slash-Good start h)
                      (λ _.
                        of_either P (c == 37) _ _
                          (λ h.
                            pair-Good 37 61 percent percent_equal start h (λ z. omega (arith, z))
                              (λ z. omega (arith, z)) refl refl)
                          (λ _.
                            of_either P (c == 61) _ _
                              (λ h.
                                either-Good 61 61 62 equal double_equal equal_angle start h
                                  (λ z. omega (arith, z)) (λ z. omega (arith, z))
                                  (λ z. omega (arith, z)) refl refl refl)
                              (λ _.
                                of_either P (c == 33) _ _
                                  (λ h.
                                    pair-Good 33 61 bang bang_equal start h (λ z. omega (arith, z))
                                      (λ z. omega (arith, z)) refl refl)
                                  (λ _.
                                    of_either P (c == 60) _ _
                                      (λ h.
                                        doubled-Good 60 less less_equal double_angle
                                          double_angle_equal start h (λ z. omega (arith, z)) refl
                                          refl refl refl)
                                      (λ _.
                                        of_either P (c == 62) _ _
                                          (λ h.
                                            doubled-Good 62 greater greater_equal double_right_angle
                                              double_right_angle_equal start h
                                              (λ z. omega (arith, z)) refl refl refl refl)
                                          (λ _.
                                            of_either P (c == 38) _ _
                                              (λ h.
                                                either-Good 38 38 61 ampersand and ampersand_equal
                                                  start h (λ z. omega (arith, z))
                                                  (λ z. omega (arith, z)) (λ z. omega (arith, z))
                                                  refl refl refl)
                                              (λ _.
                                                of_either P (c == 124) _ _
                                                  (λ h.
                                                    either-Good 124 124 61 pipe or pipe_equal start
                                                      h (λ z. omega (arith, z))
                                                      (λ z. omega (arith, z))
                                                      (λ z. omega (arith, z)) refl refl refl)
                                                  (λ _.
                                                    of_either P (c == 94) _ _
                                                      (λ h.
                                                        pair-Good 94 61 caret caret_equal start h
                                                          (λ z. omega (arith, z))
                                                          (λ z. omega (arith, z)) refl refl)
                                                      (λ _. tt)))))))))))))

abbrev PlainIf : Option TKind → Type 0
PlainIf none = Unit
PlainIf (some k) = is_plain k ≡ true

single-Plain : (c : ℕ) → PlainIf (single c)
unfolding single
single-Plain c =
    of_either PlainIf (c == 40) _ _ (λ _. refl)
      (λ _.
        of_either PlainIf (c == 41) _ _ (λ _. refl)
          (λ _.
            of_either PlainIf (c == 123) _ _ (λ _. refl)
              (λ _.
                of_either PlainIf (c == 125) _ _ (λ _. refl)
                  (λ _.
                    of_either PlainIf (c == 91) _ _ (λ _. refl)
                      (λ _.
                        of_either PlainIf (c == 93) _ _ (λ _. refl)
                          (λ _.
                            of_either PlainIf (c == 59) _ _ (λ _. refl)
                              (λ _.
                                of_either PlainIf (c == 58) _ _ (λ _. refl)
                                  (λ _.
                                    of_either PlainIf (c == 44) _ _ (λ _. refl)
                                      (λ _.
                                        of_either PlainIf (c == 95) _ _ (λ _. refl)
                                          (λ _.
                                            of_either PlainIf (c == 126) _ _ (λ _. refl)
                                              (λ _.
                                                of_either PlainIf (c == 63) _ _ (λ _. refl)
                                                  (λ _. tt))))))))))))

single-Good :
    (start : Lexer) (o : Option TKind) (r : Option Scanned)
    → peek start ≢ 0
    → PlainIf o
    → GoodIf start r
    → Good start (elim o [
      | some kind ↦ make kind (peek start ∷ []) start (advance start)
      | none ↦ elim r [ some t ↦ t | none ↦ scan_literal (peek start) start ]
    ])
single-Good start (some k) r n p g =
    make-Good k (peek start ∷ []) (peek start ∷ []) start (advance start)
      (Reads-advance start (peek start) refl n) (plainly p refl) (omega arith)
single-Good start none (some t) n p g = g
single-Good start none none n p g = literal-Good start

token-Good : (start : Lexer) → Good start (scan_token start)
unfolding scan_token
token-Good start =
    of_either (Good start) (peek start == 0) (make end [] start start) _
      (λ h. record {
        raw = [];
        reads = Reads-refl start;
        spells = plainly refl refl;
        moves = inr (byte (peek start) 0 h);
        span = refl;
      })
      (λ h.
        single-Good start (single (peek start)) (scan_operator (peek start) start)
          (λ z. ground (arith, h, z)) (single-Plain (peek start)) (operator-Good start))

-- The token that `scan` returns is read from behind the blanks at the front, the longest run of
-- them: what is read for it is its text, with its quotes, or the comment that begins with the text.
-- It begins and ends where its span says. What is read is empty at the end of the source only.
pub scan-Read :
    (l l' : Lexer) (t : Token)
    → scan l ≡ got (t, l')
    → (blank : List ℕ) × (start : Lexer) × Reads blank l start
      × (all is_space blank ≡ true)
      × (is_space (peek start) ≡ false)
      × Read start t l'
unfolding scan skip_ws
scan-Read l l' t h =
    let (blank, start) = take_while is_space l in
    let (spaces, stop) = take_while-all is_space l in
    (
      blank,
      start,
      take_while-Reads is_space l,
      spaces,
      stop (unfold is_space in refl),
      subst (Good start) h (token-Good start),
    )

Reads-length : {s : List ℕ} {l l' : Lexer} → Reads s l l' → length l.src ≡ length s + length l'.src
Reads-length {s} {l} {l'} r = ap length r.src ∙ length-append s l'.src

blank_or_moved :
    (blank : List ℕ) (l start : Lexer)
    → Reads blank l start
    → peek l ≢ 0
    → peek start ≡ 0
    → 0 < length blank
blank_or_moved [] l start r n z = absurd (n (ap first r.src ∙ z))
blank_or_moved (c ∷ s) l start r n z = omega arith

-- Unless it stands at the end, `scan` reads a byte at least.
scan_shorter :
    (l l' : Lexer) (t : Token) → scan l ≡ got (t, l') → peek l ≢ 0 → length l'.src < length l.src
scan_shorter l l' t h n =
    let (blank, start, before, _, _, read) = scan-Read l l' t h in
    let total = Reads-length before in
    let rest = Reads-length read.reads in
    elim read.moves [
      | inl m ↦ omega (arith, total, rest, m)
      | inr z ↦ omega (arith, total, rest, blank_or_moved blank l start before n z)
    ]

pub Lexed-cases {ℓ} :
    {A : Type ℓ} (m : Lexed A)
    → ((a : A) × (m ≡ got a)) ⊎ (((e : LexError) × (m ≡ diagnostic e)) ⊎ (m ≡ runs_on))
Lexed-cases (got a) = inl (a, refl)
Lexed-cases (diagnostic e) = inr (inl (e, refl))
Lexed-cases runs_on = inr (inr refl)

first_nil : (s : List ℕ) → length s ≤ 0 → first s ≡ 0
first_nil [] h = refl
first_nil (c ∷ s) h = absurd (omega arith)

lexing_from-total :
    (fuel : ℕ) (l : Lexer)
    → length l.src ≤ fuel
    → (r : Lexed (List Token)) × (lexing_from fuel l ≡ some r)
unfolding lexing_from
lexing_from-total zero l h = (got [], ground (arith, first_nil l.src h))
lexing_from-total (suc fuel) l h = elim (Bool-cases (peek l == 0)) [
  | inl e ↦ (got [], ground (arith, e))
  | inr e ↦ elim (Lexed-cases (scan l)) [
    | inl ((t, l'), f) ↦
        let shorter = scan_shorter l l' t f (λ z. ground (arith, e, z)) in
        let (r, g) = lexing_from-total fuel l' (omega (arith, shorter)) in
        (push t r, ground (arith, e, f, g))
    | inr (inl (x, f)) ↦ (diagnostic x, ground (arith, e, f))
    | inr (inr f) ↦ (runs_on, ground (arith, e, f))
  ]
]

-- A round of the loop for each byte of the source is fuel enough: the loop of `lexing` ends then,
-- with tokens, with a diagnostic, or in a loop of `scan` that goes on for ever.
pub lexing-total :
    (fuel : ℕ) (src : List ℕ)
    → length src ≤ fuel
    → (r : Lexed (List Token)) × (lexing fuel src ≡ some r)
unfolding lexing
lexing-total fuel src h = lexing_from-total fuel (record { src = src; line = 1; col = 1 }) h
