-- ===== src/Lexer/Tokens.antt =====
-- Every token that `scan` returns is spelled by the part of the source that was read for it.
use hwarangdo.Prelude.{
  ℕ, ◌<◌, ◌≡◌, ◌≢◌, inl, inr, refl, ap, ◌∙◌, arith, Bool, true, false, not, ◌&&◌, ◌||◌, some, List,
  [], ◌∷◌, ◌++◌, ◌==◌, if◌then◌else◌, length, length-append, Bool-cases, Option-cases, of_either,
}
use hwarangdo.Lexer.{
  TKind, slash, slash_equal, lit_int, lit_float, lit_character, lit_string, Lexer, diagnostic,
  unterminated_string, invalid_escape, unterminated_char, unexpected,
}
use hwarangdo.Lexer.Cursor.{
  advance, peek, peek_one, is_ident_first, is_ident_rest, is_number, is_escape_char, take_while,
  line_comment, block_comment, in_string,
}
use hwarangdo.Lexer.Keywords.{keyword, keyword_map, find, same_text}
use hwarangdo.Lexer.Progress.{Reads, Reads-trans, Reads-advance, take_while-Reads, take_while-all}
use hwarangdo.Lexer.Scan.{
  make, comment_end, scan_slash, word_kind, scan_word, scan_string, close_char, scan_char, Number,
  exponent_digits, scan_exponent, scan_fraction, number_token, scan_number, scan_literal,
}
use hwarangdo.Lexer.Cursor.{after, take_while_from, first, tail}
use hwarangdo.Lexer.Progress.{first_split, advance-cases, Reads-after}
use hwarangdo.Lexer.Comments.{line_comment-Behind, block_comment-Behind_first}
use hwarangdo.Lexer.Spelling.{
  is_plain, plainly, in_quotes, in_ticks, Good, make-Good, byte, seen, comment-Good,
}

take_while_from-nonempty :
    (test : ℕ → Bool) (s : List ℕ) (l : Lexer)
    → test (first s) ≡ true
    → test 0 ≡ false
    → 0 < length (take_while_from test s l).0
unfolding take_while_from
take_while_from-nonempty test [] l h z = absurd (cc (h, z))
take_while_from-nonempty test (c ∷ s) l h z = ground (arith, h)

slash-Good_block :
    (start l : Lexer)
    → Reads (47 ∷ []) start l
    → l.src ≡ 42 ∷ tail l.src
    → Good start (comment_end (47 ∷ 42 ∷ []) start (block_comment l))
slash-Good_block start l a e =
    let s = tail l.src in
    comment-Good (47 ∷ 42 ∷ []) (47 ∷ 42 ∷ []) start (after 42 s l) (block_comment l)
      (Reads-trans a (Reads-after 42 s l e)) (block_comment-Behind_first 42 s l e)
      (λ body. (body, refl)) (omega arith)

pub slash-Good : (start : Lexer) → (peek start == 47) ≡ true → Good start (scan_slash start)
unfolding scan_slash
slash-Good start h =
    let l = advance start in
    let m = advance l in
    let a = seen start 47 h (λ z. omega (arith, z)) in
    of_either (Good start) (peek l == 61) (make slash_equal (47 ∷ 61 ∷ []) start m)
      (if peek l == 47
        then comment_end (47 ∷ 47 ∷ []) start (line_comment m)
        else if peek l == 42
        then comment_end (47 ∷ 42 ∷ []) start (block_comment l)
        else make slash (47 ∷ []) start l)
      (λ g.
        make-Good slash_equal (47 ∷ 61 ∷ []) (47 ∷ 61 ∷ []) start m
          (Reads-trans a (seen l 61 g (λ z. omega (arith, z)))) (plainly refl refl) (omega arith))
      (λ _.
        of_either (Good start) (peek l == 47) (comment_end (47 ∷ 47 ∷ []) start (line_comment m))
          (if peek l == 42
            then comment_end (47 ∷ 42 ∷ []) start (block_comment l)
            else make slash (47 ∷ []) start l)
          (λ g.
            comment-Good (47 ∷ 47 ∷ []) (47 ∷ 47 ∷ []) start m (line_comment m)
              (Reads-trans a (seen l 47 g (λ z. omega (arith, z)))) (line_comment-Behind m)
              (λ body. (body, refl)) (omega arith))
          (λ _.
            of_either (Good start) (peek l == 42)
              (comment_end (47 ∷ 42 ∷ []) start (block_comment l)) (make slash (47 ∷ []) start l)
              (λ g.
                slash-Good_block start l a
                  (first_split l.src 42 (byte (peek l) 42 g) (λ z. omega (arith, z))))
              (λ _.
                make-Good slash (47 ∷ []) (47 ∷ []) start l a (plainly refl refl) (omega arith))))

-- A word that is found in rows of plain kinds, or that is not the empty word, has a plain kind.
row_ok : List ℕ × TKind → Bool
row_ok ([], k) = true
row_ok (c ∷ s, k) = is_plain k

all_rows : List (List ℕ × TKind) → Bool
unfolding row_ok
all_rows [] = true
all_rows (r ∷ rs) = row_ok r && all_rows rs

find-plain :
    (c : ℕ) (s : List ℕ) (rows : List (List ℕ × TKind)) (k : TKind)
    → all_rows rows ≡ true
    → find (c ∷ s) rows ≡ some k
    → is_plain k ≡ true
unfolding all_rows find
find-plain c s [] k h e = absurd (cc e)
find-plain c s (([], k') ∷ rs) k h e = find-plain c s rs k h e
find-plain c s ((x ∷ xs, k') ∷ rs) k h e = elim (Bool-cases (same_text (c ∷ s) (x ∷ xs))) [
  | inl g ↦ ground (arith, g, h, e)
  | inr g ↦ find-plain c s rs k (ground (arith, h)) (ground (arith, g, e))
]

word_kind-plain : (word : List ℕ) → 0 < length word → is_plain (word_kind word) ≡ true
word_kind-plain [] m = absurd (omega arith)
word_kind-plain (c ∷ s) m = elim (Option-cases (keyword (c ∷ s))) [
  | inl e ↦ ground (arith, e)
  | inr (k, e) ↦
      ground
        (arith, e, find-plain c s keyword_map k (unfold all_rows in refl) (unfold keyword in e))
]

word-Good : (start : Lexer) → is_ident_first (peek start) ≡ true → Good start (scan_word start)
unfolding scan_word
word-Good start h =
    let (word, l) = take_while is_ident_rest start in
    let more : 0 < length (take_while is_ident_rest start).0 =
      unfold take_while in
      take_while_from-nonempty is_ident_rest start.src start
        (unfold is_ident_first is_ident_rest in ground (arith, h)) (unfold is_ident_rest in refl) in
    make-Good (word_kind word) word word start l (take_while-Reads is_ident_rest start)
      (plainly (word_kind-plain word more) refl) more

string-Good : (start : Lexer) → (peek start == 34) ≡ true → Good start (scan_string start)
unfolding scan_string
string-Good start h =
    let (text, l) = take_while in_string (advance start) in
    let a =
      Reads-trans (seen start 34 h (λ z. omega (arith, z)))
        (take_while-Reads in_string (advance start)) in
    of_either (Good start) (peek l == 0) (diagnostic unterminated_string)
      (make lit_string text start (advance l)) (λ _. tt)
      (λ g.
        let stop = (take_while-all in_string (advance start)).1 refl in
        let quote : (peek l == 34) ≡ true = ground (arith, g, stop) in
        make-Good lit_string text (34 ∷ text ++ 34 ∷ []) start (advance l)
          (Reads-trans a (seen l 34 quote (λ z. omega (arith, z)))) (in_quotes refl refl)
          (omega arith))

close-Good :
    (ch : List ℕ) (start l : Lexer) → Reads (39 ∷ ch) start l → Good start (close_char ch start l)
unfolding close_char
close-Good ch start l a =
    of_either (Good start) (peek l == 39) (make lit_character ch start (advance l))
      (diagnostic unterminated_char)
      (λ g.
        make-Good lit_character ch (39 ∷ ch ++ 39 ∷ []) start (advance l)
          (Reads-trans a (seen l 39 g (λ z. omega (arith, z)))) (in_ticks refl refl) (omega arith))
      (λ _. tt)

escape_nonzero : (c : ℕ) → is_escape_char c ≡ true → c ≢ 0
unfolding is_escape_char
escape_nonzero c h z = ground (arith, h, z)

-- At the end of the source no quote follows.
at_end : (ch : List ℕ) (start l : Lexer) → l.src ≡ [] → Good start (close_char ch start l)
unfolding close_char
at_end ch start l e =
    of_either (Good start) (peek l == 39) (make lit_character ch start (advance l))
      (diagnostic unterminated_char) (λ g. absurd (ground (arith, g, ap first e))) (λ _. tt)

char-Good : (start : Lexer) → (peek start == 39) ≡ true → Good start (scan_char start)
unfolding scan_char
char-Good start h =
    let l = advance start in
    let m = advance l in
    let val = peek l in
    let a = seen start 39 h (λ z. omega (arith, z)) in
    of_either (Good start) (val == 92)
      (if not (is_escape_char (peek m))
        then diagnostic invalid_escape
        else close_char (92 ∷ peek m ∷ []) start (advance m))
      (close_char (val ∷ []) start m)
      (λ g.
        of_either (Good start) (not (is_escape_char (peek m))) (diagnostic invalid_escape)
          (close_char (92 ∷ peek m ∷ []) start (advance m)) (λ _. tt)
          (λ k. close-Good (92 ∷ peek m ∷ []) start (advance m) (
            Reads-trans (Reads-trans a (seen l 92 g (λ z. omega (arith, z))))
              (Reads-advance m (peek m) refl (escape_nonzero (peek m) (ground (arith, k)))))))
      (λ _. elim (advance-cases l) [
        | inr b ↦ close-Good (val ∷ []) start m (Reads-trans a b)
        | inl (e, stays) ↦ at_end (val ∷ []) start m (ap (λ (x : Lexer). x.src) stays ∙ e)
      ])

-- The text that a number has read.
abbrev Num : Lexer → Number → Type 0
Num start (real, text, l) = Reads text start l × (0 < length text)

number_token-Good : (start : Lexer) (n : Number) → Num start n → Good start (number_token start n)
number_token-Good start (true, text, l) (a, m) =
    make-Good lit_float text text start l a (plainly refl refl) m
number_token-Good start (false, text, l) (a, m) =
    make-Good lit_int text text start l a (plainly refl refl) m

digits-Num :
    (start l : Lexer) (text : List ℕ)
    → Reads text start l
    → 0 < length text
    → Num start (exponent_digits text l)
unfolding exponent_digits
digits-Num start l text a m = (
  Reads-trans a (take_while-Reads is_number l),
  omega (arith, length-append text (take_while is_number l).0),
)

exponent-Num : (start : Lexer) (n : Number) → Num start n → Num start (scan_exponent n)
unfolding scan_exponent
exponent-Num start (real, text, l) (a, more) =
    let m = advance l in
    of_either (Num start) (peek l == 101 || peek l == 69)
      (if peek m == 43 || peek m == 45
        then exponent_digits ((text ++ peek l ∷ []) ++ peek m ∷ []) (advance m)
        else exponent_digits (text ++ peek l ∷ []) m)
      (real, text, l)
      (λ g.
        let b = Reads-trans a (Reads-advance l (peek l) refl (λ z. ground (arith, g, z))) in
        let n = length-append text (peek l ∷ []) in
        of_either (Num start) (peek m == 43 || peek m == 45)
          (exponent_digits ((text ++ peek l ∷ []) ++ peek m ∷ []) (advance m))
          (exponent_digits (text ++ peek l ∷ []) m)
          (λ k.
            digits-Num start (advance m) ((text ++ peek l ∷ []) ++ peek m ∷ [])
              (Reads-trans b (Reads-advance m (peek m) refl (λ z. ground (arith, k, z))))
              (omega (arith, n, length-append (text ++ peek l ∷ []) (peek m ∷ []))))
          (λ _. digits-Num start m (text ++ peek l ∷ []) b (omega (arith, n))))
      (λ _. (a, more))

fraction-Num :
    (start l : Lexer) (text : List ℕ)
    → Reads text start l
    → 0 < length text
    → Num start (scan_fraction text l)
unfolding scan_fraction
fraction-Num start l text a more =
    let (digits, m) = take_while is_number (advance l) in
    of_either (Num start) (peek l == 46) (true, (text ++ 46 ∷ []) ++ digits, m) (false, text, l)
      (λ g. (
        Reads-trans (Reads-trans a (seen l 46 g (λ z. omega (arith, z))))
            (take_while-Reads is_number (advance l)),
        omega (arith, length-append (text ++ 46 ∷ []) digits, length-append text (46 ∷ [])),
      ))
      (λ _. (a, more))

number-Good :
    (c : ℕ) (start : Lexer) → peek start ≡ c → is_number c ≡ true → Good start (scan_number c start)
unfolding scan_number
number-Good c start e h =
    let (digits, l) = take_while is_number (advance start) in
    let nonzero : c ≢ 0 = λ z. unfold is_number in ground (arith, h, z) in
    let a =
      Reads-trans (Reads-advance start c e nonzero) (take_while-Reads is_number (advance start)) in
    of_either (Good start) (peek l == 46 && peek_one l == 46) (make lit_int (c ∷ digits) start l)
      (number_token start (scan_exponent (scan_fraction (c ∷ digits) l)))
      (λ _. make-Good lit_int (c ∷ digits) (c ∷ digits) start l a (plainly refl refl) (omega arith))
      (λ _. number_token-Good start (scan_exponent (scan_fraction (c ∷ digits) l)) (
        exponent-Num start (scan_fraction (c ∷ digits) l)
          (fraction-Num start l (c ∷ digits) a (omega arith))))

pub literal-Good : (start : Lexer) → Good start (scan_literal (peek start) start)
unfolding scan_literal
literal-Good start =
    let c = peek start in
    of_either (Good start) (is_ident_first c) (scan_word start)
      (if c == 34
        then scan_string start
        else if c == 39
        then scan_char start
        else if is_number c
        then scan_number c start
        else diagnostic unexpected)
      (λ h. word-Good start h)
      (λ _.
        of_either (Good start) (c == 34) (scan_string start)
          (if c == 39
            then scan_char start
            else if is_number c
            then scan_number c start
            else diagnostic unexpected)
          (λ h. string-Good start h)
          (λ _.
            of_either (Good start) (c == 39) (scan_char start)
              (if is_number c then scan_number c start else diagnostic unexpected)
              (λ h. char-Good start h)
              (λ _.
                of_either (Good start) (is_number c) (scan_number c start) (diagnostic unexpected)
                  (λ h. number-Good c start refl h) (λ _. tt))))
