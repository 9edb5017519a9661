-- ===== src/Lexer/Cursor.antt =====
-- `get`, `peek`, `skipWS` and the loops that read while a test holds.
use hwarangdo.Prelude.{
  ℕ, ◌+◌, Bool, not, ◌&&◌, ◌||◌, List, [], ◌∷◌, leb, ◌==◌, if◌then◌else◌, zero, suc, length, Option,
  none, some,
}
use hwarangdo.Lexer.{Lexer, Lexed, got, runs_on}

-- One byte further.
abbrev pub after : ℕ → List ℕ → Lexer → Lexer
after c s l =
    if c == 10
    then record l { src = s; line = l.line + 1; col = 1 }
    else record l { src = s; col = l.col + 1 }

-- `get`, for its effect.
unfoldable pub advance : Lexer → Lexer
advance l = elim l.src [ [] ↦ l | c ∷ s ↦ after c s l ]

abbrev pub first : List ℕ → ℕ
first [] = 0
first (c ∷ s) = c

abbrev pub tail : List ℕ → List ℕ
tail [] = []
tail (c ∷ s) = s

-- `peek()` and `peek(1)`.
abbrev pub peek : Lexer → ℕ
peek l = first l.src

abbrev pub peek_one : Lexer → ℕ
peek_one l = first (tail l.src)

-- `isspace` in the C locale, which knows no byte above 127 as a space.
unfoldable pub is_space : ℕ → Bool
is_space c = c == 32 || (leb 9 c && leb c 13)

unfoldable pub is_ident_first : ℕ → Bool
is_ident_first c = c == 95 || (leb 97 c && leb c 122) || (leb 65 c && leb c 90)

unfoldable pub is_ident_rest : ℕ → Bool
is_ident_rest c =
    c == 95 || (leb 97 c && leb c 122) || (leb 65 c && leb c 90) || (leb 48 c && leb c 57)

unfoldable pub is_number : ℕ → Bool
is_number c = leb 48 c && leb c 57

-- `' " ? \ a b f n r t v`.
unfoldable pub is_escape_char : ℕ → Bool
is_escape_char c =
    c == 39
    || c == 34
    || c == 63
    || c == 92
    || c == 97
    || c == 98
    || c == 102
    || c == 110
    || c == 114
    || c == 116
    || c == 118

-- `while (test(peek())) text.push_back(get());`, for a test that `'\0'` fails: what is read, and the
-- state behind it. The loop goes over the bytes that are left.
unfoldable pub take_while_from : (ℕ → Bool) → List ℕ → Lexer → List ℕ × Lexer
take_while_from test [] l = ([], l)
take_while_from test (c ∷ s) l =
    let rest = take_while_from test s (after c s l) in
    if test c then (c ∷ rest.0, rest.1) else ([], l)

unfoldable pub take_while : (ℕ → Bool) → Lexer → List ℕ × Lexer
unfolding take_while_from
take_while test l = take_while_from test l.src l

unfoldable pub skip_ws : Lexer → Lexer
unfolding take_while is_space
skip_ws l = (take_while is_space l).1

-- `while (peek() != '\n') get();`, for at most `fuel` rounds. At the end of the source `peek` is 0 and
-- `get` leaves the state as it is.
unfoldable pub line_comment_loop : ℕ → Lexer → Option Lexer
unfolding advance
line_comment_loop zero l = none
line_comment_loop (suc fuel) l =
    let rest = line_comment_loop fuel (advance l) in if peek l == 10 then some l else rest

-- The loop of a block comment, for at most `fuel` rounds: it ends behind the first `*/`. Behind a `*`
-- that no `/` follows the next round goes on with the byte that follows.
unfoldable pub block_comment_loop : ℕ → Lexer → Option Lexer
unfolding advance
block_comment_loop zero l = none
block_comment_loop (suc fuel) l =
    let next = advance l in
    let rest = block_comment_loop fuel next in
    if peek l == 42 then (if peek next == 47 then some (advance next) else rest) else rest

-- A loop that has not ended after one round more than there are bytes left goes on for ever.
abbrev pub ended : Option Lexer → Lexed Lexer
ended none = runs_on
ended (some l) = got l

unfoldable pub line_comment : Lexer → Lexed Lexer
unfolding line_comment_loop
line_comment l = ended (line_comment_loop (suc (length l.src)) l)

unfoldable pub block_comment : Lexer → Lexed Lexer
unfolding block_comment_loop
block_comment l = ended (block_comment_loop (suc (length l.src)) l)

-- What is read up to a quote or a `'\0'`.
abbrev pub in_string : ℕ → Bool
in_string c = not (c == 34) && not (c == 0)
