-- ===== src/Lexer/Examples.antt =====
-- The theorems on the lexer at short sources.
use hwarangdo.Prelude.{◌⊎◌, none, ℕ, ◌≡◌, refl, arith, true, false, some, List, [], ◌∷◌}
use hwarangdo.Lexer.{identifier, plus_equal, lit_int, Token, Lexer, Lexed, got, runs_on}
use hwarangdo.Lexer.Cursor.{
  is_ident_first, is_number, line_comment, line_comment_loop, block_comment, block_comment_loop,
  is_space, is_ident_rest, peek,
}
use hwarangdo.Lexer.Keywords.{keyword, is_lit_bool}
use hwarangdo.Lexer.Scan.{scan, lexing}
use hwarangdo.Lexer.Progress.{all, Reads}
use hwarangdo.Lexer.Spelling.{Read}
use hwarangdo.Lexer.Ends.{scan-Read, lexing-total}
use hwarangdo.Lexer.CommentEnds.{
  Closes, has_close, block_comment-cases, Stops, no_newline, line_comment-cases,
}
use hwarangdo.Lexer.Located.{Tiled, lexing-Tiled}

-- `x1 += 20`, on the second line.
abbrev source : List ℕ
source = 10 ∷ 120 ∷ 49 ∷ 32 ∷ 43 ∷ 61 ∷ 32 ∷ 50 ∷ 48 ∷ []

abbrev at_front : Lexer
at_front = record { src = source; line = 1; col = 1 }

abbrev word_token : Token
word_token = record {
  kind = identifier;
  text = 120 ∷ 49 ∷ [];
  span = record { line = 2; col = 1; end_line = 2; end_col = 3 };
}

abbrev behind_word : Lexer
behind_word = record { src = 32 ∷ 43 ∷ 61 ∷ 32 ∷ 50 ∷ 48 ∷ []; line = 2; col = 3 }

abbrev tokens : List Token
tokens =
    word_token
    ∷ record {
      kind = plus_equal;
      text = 43 ∷ 61 ∷ [];
      span = record { line = 2; col = 4; end_line = 2; end_col = 6 };
    }
    ∷ record {
      kind = lit_int;
      text = 50 ∷ 48 ∷ [];
      span = record { line = 2; col = 7; end_line = 2; end_col = 9 };
    }
    ∷ []

lexes : lexing 9 source ≡ some (got tokens)
unfolding lexing scan is_ident_first is_ident_rest is_number keyword is_lit_bool
lexes = refl

lexing-Tiled_example : Tiled (record { src = source; line = 1; col = 1 }) [] tokens
lexing-Tiled_example = lexing-Tiled 9 source tokens lexes

lexing-total_example : (r : Lexed (List Token)) × (lexing 9 source ≡ some r)
lexing-total_example = lexing-total 9 source (omega arith)

scans : scan at_front ≡ got (word_token, behind_word)
unfolding scan is_ident_first is_ident_rest keyword is_lit_bool
scans = refl

scan-Read_example :
    (blank : List ℕ) × (start : Lexer) × Reads blank at_front start
    × (all is_space blank ≡ true)
    × (is_space (peek start) ≡ false)
    × Read start word_token behind_word
scan-Read_example = scan-Read at_front behind_word word_token scans

-- `ab`, and a newline.
abbrev comment_text : Lexer
comment_text = record { src = 97 ∷ 98 ∷ 10 ∷ []; line = 1; col = 3 }

line_comment-cases_example :
    Stops comment_text (line_comment comment_text)
    ⊎ ((fuel : ℕ) → line_comment_loop fuel comment_text ≡ none)
      × (line_comment comment_text ≡ runs_on)
      × (all no_newline comment_text.src ≡ true)
line_comment-cases_example = line_comment-cases comment_text

-- `* **/x`, behind `/`.
abbrev block_text : Lexer
block_text = record { src = 42 ∷ 32 ∷ 42 ∷ 42 ∷ 47 ∷ 120 ∷ []; line = 1; col = 2 }

block_comment-cases_example :
    Closes block_text (block_comment block_text)
    ⊎ ((fuel : ℕ) → block_comment_loop fuel block_text ≡ none)
      × (block_comment block_text ≡ runs_on)
      × (has_close block_text.src ≡ false)
block_comment-cases_example = block_comment-cases block_text
