-- ===== src/Lexer.antt =====
-- The lexer: src/lexer/lexer.cpp, include/hrd/Lexer.h and include/hrd/Token.h. The source is the list
-- of its bytes, and the lexer's state holds the ones that are left, with the line and the column.
-- `'\\0'` is 0. An end in `Error::diagnostic` and a loop that never ends are outcomes.
pub mod Keywords
pub mod Cursor
pub mod Scan
pub mod Progress
pub mod Comments
pub mod CommentEnds
pub mod Spelling
pub mod Tokens
pub mod Ends
pub mod Located
mod Examples
use hwarangdo.Prelude.{
  ℕ, zero, suc, ◌+◌, Bool, true, false, not, ◌&&◌, ◌||◌, Option, none, some, List, [], ◌∷◌, ◌++◌,
  leb, ltb, ◌==◌, if◌then◌else◌,
}

-- The kinds that the lexer gives to tokens.
pub data TKind : Type 0 where
  left_paren right_paren left_brace right_brace left_bracket right_bracket : TKind
  semicolon colon comma dot double_dot : TKind
  plus minus star double_star slash percent : TKind
  equal plus_equal minus_equal star_equal double_star_equal slash_equal percent_equal : TKind
  caret_equal ampersand_equal pipe_equal double_angle_equal double_right_angle_equal : TKind
  double_equal bang_equal less greater less_equal greater_equal : TKind
  bang and or underbar question : TKind
  int_word float_word fixed_word char_word string_word bool_word nul : TKind
  const root lit_int lit_float lit_character lit_string lit_bool : TKind
  identifier end if_word else_word switch match case_word default double_angle equal_angle : TKind
  for_word by while break continue return func void_word frame init on_destroy : TKind
  override async world arena caret ampersand tilde pipe double_right_angle : TKind
  class struct enum new try catch throw public protected private internal : TKind
  impl trait extends super this self empty size cast handle error : TKind

-- Where a token starts and where the lexer stood when its span was made.
pub record Span : Type 0 where
  pub line : ℕ
  pub col : ℕ
  pub end_line : ℕ
  pub end_col : ℕ

pub record Token : Type 0 where
  pub kind : TKind
  pub text : List ℕ
  pub span : Span

pub record Lexer : Type 0 where
  pub src : List ℕ
  pub line : ℕ
  pub col : ℕ

pub data LexError : Type 0 where
  unterminated_string invalid_escape unterminated_char unexpected : LexError

-- `runs_on`: a loop whose next round changes nothing and whose test holds.
pub data Lexed {ℓ} (A : Type ℓ) : Type ℓ where
  got : A → Lexed A
  diagnostic : LexError → Lexed A
  runs_on : Lexed A
