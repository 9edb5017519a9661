-- ===== src/Lexer/Scan.antt =====
-- `scan` and `lexing` of src/lexer/lexer.cpp. The functions read the token that starts at `start`.
use hwarangdo.Prelude.{
  ℕ, zero, suc, Bool, true, false, not, ◌&&◌, ◌||◌, Option, none, some, List, [], ◌∷◌, ◌++◌, ◌==◌,
  if◌then◌else◌,
}
use hwarangdo.Lexer.{
  TKind, left_paren, right_paren, left_brace, right_brace, left_bracket, right_bracket, semicolon,
  colon, comma, dot, double_dot, plus, minus, star, double_star, slash, percent, equal, plus_equal,
  minus_equal, star_equal, double_star_equal, slash_equal, percent_equal, caret_equal,
  ampersand_equal, pipe_equal, double_angle_equal, double_right_angle_equal, double_equal,
  bang_equal, less, greater, less_equal, greater_equal, bang, and, or, underbar, question, lit_int,
  lit_float, lit_character, lit_string, lit_bool, identifier, end, double_angle, equal_angle, caret,
  ampersand, tilde, pipe, double_right_angle, empty, Token, Lexer, Lexed, got, diagnostic, runs_on,
  unterminated_string, invalid_escape, unterminated_char, unexpected,
}
use hwarangdo.Lexer.Cursor.{
  advance, peek, peek_one, is_ident_first, is_ident_rest, is_number, is_escape_char, take_while,
  skip_ws, line_comment, block_comment, in_string,
}
use hwarangdo.Lexer.Keywords.{keyword, is_lit_bool}

abbrev pub Scanned : Type 0
Scanned = Lexed (Token × Lexer)

-- A token from `start` to where the lexer stands.
abbrev pub make : TKind → List ℕ → Lexer → Lexer → Scanned
make kind text start l = got (
  record {
    kind = kind;
    text = text;
    span = record { line = start.line; col = start.col; end_line = l.line; end_col = l.col };
  },
  l,
)

-- The tokens of one byte that begin no longer one.
unfoldable pub single : ℕ → Option TKind
single c =
    if c == 40
    then some left_paren
    else if c == 41
    then some right_paren
    else if c == 123
    then some left_brace
    else if c == 125
    then some right_brace
    else if c == 91
    then some left_bracket
    else if c == 93
    then some right_bracket
    else if c == 59
    then some semicolon
    else if c == 58
    then some colon
    else if c == 44
    then some comma
    else if c == 95
    then some underbar
    else if c == 126
    then some tilde
    else if c == 63
    then some question
    else none

-- `c`, or `c` and then `d`.
unfoldable pub scan_pair : ℕ → ℕ → TKind → TKind → Lexer → Scanned
unfolding advance
scan_pair c d one two start =
    let l = advance start in
    if peek l == d then make two (c ∷ d ∷ []) start (advance l) else make one (c ∷ []) start l

-- `c`, `c d` or `c e`.
unfoldable pub scan_either : ℕ → ℕ → ℕ → TKind → TKind → TKind → Lexer → Scanned
unfolding advance
scan_either c d e one two other start =
    let l = advance start in
    if peek l == d
    then make two (c ∷ d ∷ []) start (advance l)
    else if peek l == e
    then make other (c ∷ e ∷ []) start (advance l)
    else make one (c ∷ []) start l

-- `c`, `c=`, `cc` or `cc=`, for `*`, `<` and `>`; for `*` the source looks for the second byte first.
unfoldable pub scan_doubled : ℕ → TKind → TKind → TKind → TKind → Lexer → Scanned
unfolding advance
scan_doubled c one with_equal two both start =
    let l = advance start in
    let m = advance l in
    if peek l == 61
    then make with_equal (c ∷ 61 ∷ []) start m
    else if peek l == c
    then (if peek m == 61
        then make both (c ∷ c ∷ 61 ∷ []) start (advance m)
        else make two (c ∷ c ∷ []) start m)
    else make one (c ∷ []) start l

-- What stands behind a comment.
unfoldable pub comment_end : List ℕ → Lexer → Lexed Lexer → Scanned
comment_end text start (got l) = make empty text start l
comment_end text start (diagnostic e) = diagnostic e
comment_end text start runs_on = runs_on

unfoldable pub scan_slash : Lexer → Scanned
unfolding advance comment_end
scan_slash start =
    let l = advance start in
    let m = advance l in
    if peek l == 61
    then make slash_equal (47 ∷ 61 ∷ []) start m
    else if peek l == 47
    then comment_end (47 ∷ 47 ∷ []) start (line_comment m)
    else if peek l == 42
    then comment_end (47 ∷ 42 ∷ []) start (block_comment l)
    else make slash (47 ∷ []) start l

abbrev pub word_kind : List ℕ → TKind
word_kind word = elim (keyword word) [
  | some k ↦ k
  | none ↦ if is_lit_bool word then lit_bool else identifier
]

unfoldable pub scan_word : Lexer → Scanned
scan_word start =
    let (word, l) = take_while is_ident_rest start in make (word_kind word) word start l

unfoldable pub scan_string : Lexer → Scanned
unfolding advance
scan_string start =
    let (text, l) = take_while in_string (advance start) in
    if peek l == 0 then diagnostic unterminated_string else make lit_string text start (advance l)

-- The quote at the end of a character.
unfoldable pub close_char : List ℕ → Lexer → Lexer → Scanned
unfolding advance
close_char ch start l =
    if peek l == 39 then make lit_character ch start (advance l) else diagnostic unterminated_char

unfoldable pub scan_char : Lexer → Scanned
unfolding advance close_char
scan_char start =
    let l = advance start in
    let val = peek l in
    let m = advance l in
    if val == 92
    then (if not (is_escape_char (peek m))
        then diagnostic invalid_escape
        else close_char (92 ∷ peek m ∷ []) start (advance m))
    else close_char (val ∷ []) start m

-- What a number has read, and whether it is a real one.
abbrev pub Number : Type 0
Number = Bool × List ℕ × Lexer

unfoldable pub exponent_digits : List ℕ → Lexer → Number
exponent_digits text l = let (digits, m) = take_while is_number l in (true, text ++ digits, m)

unfoldable pub scan_exponent : Number → Number
unfolding advance exponent_digits
scan_exponent (real, text, l) =
    let m = advance l in
    if peek l == 101 || peek l == 69
    then (if peek m == 43 || peek m == 45
        then exponent_digits ((text ++ peek l ∷ []) ++ peek m ∷ []) (advance m)
        else exponent_digits (text ++ peek l ∷ []) m)
    else (real, text, l)

unfoldable pub scan_fraction : List ℕ → Lexer → Number
unfolding advance
scan_fraction text l =
    if peek l == 46
    then (let (digits, m) = take_while is_number (advance l) in
        (true, (text ++ 46 ∷ []) ++ digits, m))
    else (false, text, l)

abbrev pub number_token : Lexer → Number → Scanned
number_token start (real, text, l) = make (if real then lit_float else lit_int) text start l

unfoldable pub scan_number : ℕ → Lexer → Scanned
unfolding advance scan_fraction scan_exponent
scan_number c start =
    let (digits, l) = take_while is_number (advance start) in
    if peek l == 46 && peek_one l == 46
    then make lit_int (c ∷ digits) start l
    else number_token start (scan_exponent (scan_fraction (c ∷ digits) l))

-- The operators that begin with `c`.
unfoldable pub scan_operator : ℕ → Lexer → Option Scanned
unfolding scan_pair scan_either scan_doubled scan_slash
scan_operator c start =
    if c == 46
    then some (scan_pair 46 46 dot double_dot start)
    else if c == 43
    then some (scan_pair 43 61 plus plus_equal start)
    else if c == 45
    then some (scan_pair 45 61 minus minus_equal start)
    else if c == 42
    then some (scan_doubled 42 star star_equal double_star double_star_equal start)
    else if c == 47
    then some (scan_slash start)
    else if c == 37
    then some (scan_pair 37 61 percent percent_equal start)
    else if c == 61
    then some (scan_either 61 61 62 equal double_equal equal_angle start)
    else if c == 33
    then some (scan_pair 33 61 bang bang_equal start)
    else if c == 60
    then some (scan_doubled 60 less less_equal double_angle double_angle_equal start)
    else if c == 62
    then some
        (scan_doubled 62 greater greater_equal double_right_angle double_right_angle_equal start)
    else if c == 38
    then some (scan_either 38 38 61 ampersand and ampersand_equal start)
    else if c == 124
    then some (scan_either 124 124 61 pipe or pipe_equal start)
    else if c == 94
    then some (scan_pair 94 61 caret caret_equal start)
    else none

-- Words, literals and what is none of these.
unfoldable pub scan_literal : ℕ → Lexer → Scanned
unfolding scan_word scan_string scan_char scan_number
scan_literal c start =
    if is_ident_first c
    then scan_word start
    else if c == 34
    then scan_string start
    else if c == 39
    then scan_char start
    else if is_number c
    then scan_number c start
    else diagnostic unexpected

-- `scan` behind `skipWS`. The tests of the source are for different bytes; only `_` is tested twice,
-- and as a token of its own first.
unfoldable pub scan_token : Lexer → Scanned
unfolding advance single scan_operator scan_literal
scan_token start =
    let c = peek start in
    if c == 0 then make end [] start start else elim (single c) [
      | some kind ↦ make kind (c ∷ []) start (advance start)
      | none ↦ elim (scan_operator c start) [ some t ↦ t | none ↦ scan_literal c start ]
    ]

unfoldable pub scan : Lexer → Scanned
unfolding skip_ws scan_token
scan l = scan_token (skip_ws l)

abbrev pub is_empty : TKind → Bool
is_empty empty = true
is_empty _ = false

abbrev pub push : Token → Lexed (List Token) → Lexed (List Token)
push t (got ts) = got (if is_empty t.kind then ts else t ∷ ts)
push t (diagnostic e) = diagnostic e
push t runs_on = runs_on

-- The loop of `lexing`; `none` means that the fuel ran out.
unfoldable pub lexing_from : ℕ → Lexer → Option (Lexed (List Token))
lexing_from zero l = if peek l == 0 then some (got []) else none
lexing_from (suc fuel) l = if peek l == 0 then some (got []) else elim (scan l) [
  | got (t, l') ↦ elim (lexing_from fuel l') [ none ↦ none | some r ↦ some (push t r) ]
  | diagnostic e ↦ some (diagnostic e)
  | runs_on ↦ some runs_on
]

-- Every round reads a byte at least.
unfoldable pub lexing : ℕ → List ℕ → Option (Lexed (List Token))
unfolding lexing_from
lexing fuel src = lexing_from fuel (record { src = src; line = 1; col = 1 })
